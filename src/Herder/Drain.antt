-- ===== src/Herder/Drain.antt =====
-- Rounds of the herder in which no socket wakes: the whole ready list is worked off.
use tcphandoff.Common.{
  ℕ, zero, suc, ◌+◌, ◌*◌, ◌≤◌, ◌≡◌, refl, sym, ap, ◌∙◌, subst, false, List, [], ◌∷◌, ◌++◌, map,
  arith, length, take, drop, replicate, All, take-append-drop, length-drop, All-mono, member,
}
use mathlib.Core.List.{map-append}
use tcphandoff.Poll.Tidy.{Distinct-drop}
use tcphandoff.Poll.Quiet.{quietly, awake-Same}
use tcphandoff.Poll.{update, Eventpoll, Item, tcp_epoll_wait, sleep_if_empty}
use tcphandoff.Poll.Ready.{Distinct}
use tcphandoff.Poll.Wait.{conn_of, collect_item, wait-collect}
use tcphandoff.Herder.{max_events}
use tcphandoff.Herder.Run.{
  EventProcess, queue_events, herder_round, tcpha_fe_herder_run, work_of, herder_round-Queued,
}

pub queue_events-item : (cs : List ℕ) (ep : Eventpoll) → (queue_events ep cs).1.item ≡ ep.item
unfolding queue_events
queue_events-item [] ep = refl
queue_events-item (c ∷ cs) ep =
    queue_events-item cs (record ep { conn_events = update ep.conn_events c 0 })

herder_round-item :
    (ep : Eventpoll) (y : ℕ)
    → member y (take max_events ep.ready_list) ≡ false
    → (herder_round ep quietly).1.item y ≡ ep.item y
unfolding herder_round
herder_round-item ep y m =
    let awake = sleep_if_empty ep quietly in
    let (ready, items) = awake-Same ep in
    let waited = tcp_epoll_wait ep max_events quietly in
    ap (λ (f : ℕ → Item). f y) (queue_events-item waited.0 waited.1)
    ∙ ap (λ (r : List ℕ × Eventpoll). r.1.item y) (wait-collect ep max_events quietly)
    ∙ collect_item max_events awake.ready_list awake y
        (ap (λ (xs : List ℕ). member y (take max_events xs)) ready ∙ m)
    ∙ ap (λ (f : ℕ → Item). f y) items

-- What one such round makes of the eventpoll.
pub record Round (ep : Eventpoll) (result : List EventProcess × Eventpoll) : Type 0 where
  pub work : result.0 ≡ map (work_of ep) (take max_events ep.ready_list)
  pub left : result.1.ready_list ≡ drop max_events ep.ready_list
  pub others :
      (y : ℕ) → member y (take max_events ep.ready_list) ≡ false → result.1.item y ≡ ep.item y

pub herder_round-Round :
    (ep : Eventpoll)
    → Distinct ep.ready_list
    → Distinct (map (conn_of ep) ep.ready_list)
    → Round ep (herder_round ep quietly)
herder_round-Round ep d c =
    let awake = sleep_if_empty ep quietly in
    let (ready, items) = awake-Same ep in
    let conns : map (conn_of awake) awake.ready_list ≡ map (conn_of ep) ep.ready_list =
      ap (map (conn_of awake)) ready
      ∙ ap (λ (f : ℕ → Item). map (λ y. (f y).conn) ep.ready_list) items in
    let q = herder_round-Queued ep quietly (rw ready d) (subst Distinct (sym conns) c) in
    record {
      work =
          q.work
          ∙ ap (λ (xs : List ℕ). map (work_of awake) (take max_events xs)) ready
          ∙ ap
              (λ (f : ℕ → Item).
                map (λ y. record { conn = (f y).conn; events = (f y).events })
                  (take max_events ep.ready_list))
              items;
      left = q.left ∙ ap (drop max_events) ready;
      others = λ y m. herder_round-item ep y m;
    }

member-drop : (x n : ℕ) (xs : List ℕ) → member x xs ≡ false → member x (drop n xs) ≡ false
member-drop x zero xs m = m
member-drop x (suc n) [] m = refl
member-drop x (suc n) (y ∷ ys) m = member-drop x n ys (ground arith)

apart :
    (x : ℕ) (xs ys : List ℕ)
    → member x ys ≡ false
    → All (λ y. member y xs ≡ false) ys
    → All (λ y. member y (x ∷ xs) ≡ false) ys
apart x xs [] m a = tt
apart x xs (y ∷ ys) m a = (ground (arith, a.0), apart x xs ys (ground arith) a.1)

Distinct-apart :
    (n : ℕ) (xs : List ℕ) → Distinct xs → All (λ y. member y (take n xs) ≡ false) (drop n xs)
Distinct-apart zero xs d = none_taken xs
  where
    none_taken : (ys : List ℕ) → All (λ y. false ≡ false) ys
    none_taken [] = tt
    none_taken (y ∷ ys) = (refl, none_taken ys)
Distinct-apart (suc n) [] d = tt
Distinct-apart (suc n) (x ∷ xs) d =
    apart x (take n xs) (drop n xs) (member-drop x n xs d.0) (Distinct-apart n xs d.1)

pub map-drop {ℓ} :
    {B : Type ℓ} (f : ℕ → B) (n : ℕ) (xs : List ℕ) → map f (drop n xs) ≡ drop n (map f xs)
map-drop f zero xs = refl
map-drop f (suc n) [] = refl
map-drop f (suc n) (x ∷ xs) = map-drop f n xs

-- Items that are as they were have the same work and the same connections.
pub map-same {ℓ} :
    {B : Type ℓ} (g : Item → B) (ep after : Eventpoll) (ys : List ℕ)
    → All (λ y. after.item y ≡ ep.item y) ys
    → map (λ y. g (after.item y)) ys ≡ map (λ y. g (ep.item y)) ys
map-same g ep after [] a = refl
map-same g ep after (y ∷ ys) a = λ i. g (a.0 i) ∷ map-same g ep after ys a.1 i

abbrev pub as_work : Item → EventProcess
as_work it = record { conn = it.conn; events = it.events }

short-drop : (n m : ℕ) (xs : List ℕ) → length xs ≤ m + n → length (drop n xs) ≤ m
short-drop n m xs h = omega (arith, length-drop n xs)

-- A herder that is not disturbed works off its ready list: in as many rounds as it takes at 1024 items a
-- round, or more, it queues work for every item that was ready, once and in the order of the list, with
-- the item's connection and events, and leaves the list empty. The items on the list are distinct, and
-- so are their connections.
pub run_drains :
    (n : ℕ) (ep : Eventpoll)
    → length ep.ready_list ≤ n * max_events
    → Distinct ep.ready_list
    → Distinct (map (conn_of ep) ep.ready_list)
    → let result = tcpha_fe_herder_run ep (replicate n quietly) in
      (result.0 ≡ map (work_of ep) ep.ready_list) × (result.1.ready_list ≡ [])
unfolding tcpha_fe_herder_run
run_drains zero ep fits d c = nothing ep.ready_list (omega (arith, fits))
  where
    nothing : (xs : List ℕ) → length xs ≤ 0 → ([] ≡ map (work_of ep) xs) × (xs ≡ [])
    nothing [] h = (refl, refl)
    nothing (x ∷ xs) h = absurd (omega (arith, h))
run_drains (suc n) ep fits d c =
    let r = herder_round-Round ep d c in
    let after = (herder_round ep quietly).1 in
    let first = take max_events ep.ready_list in
    let rest = drop max_events ep.ready_list in
    let same : All (λ y. after.item y ≡ ep.item y) rest =
      All-mono rest (λ y m. r.others y m) (Distinct-apart max_events ep.ready_list d) in
    let conns : map (conn_of after) after.ready_list
        ≡ drop max_events (map (conn_of ep) ep.ready_list) =
      ap (map (conn_of after)) r.left
      ∙ map-same (λ it. it.conn) ep after rest same
      ∙ map-drop (conn_of ep) max_events ep.ready_list in
    let (work, empty) =
      run_drains n after
        (rw r.left (short-drop max_events (n * max_events) ep.ready_list (omega (arith, fits))))
        (rw r.left (Distinct-drop max_events ep.ready_list d))
        (subst Distinct (sym conns)
          (Distinct-drop max_events (map (conn_of ep) ep.ready_list) c)) in
    (
      (λ i. r.work i ++ work i)
          ∙ ap (λ (ys : List ℕ). map (work_of ep) first ++ map (work_of after) ys) r.left
          ∙ ap (λ (ws : List EventProcess). map (work_of ep) first ++ ws)
              (map-same as_work ep after rest same)
          ∙ sym (map-append (work_of ep) first rest)
          ∙ ap (map (work_of ep)) (take-append-drop max_events ep.ready_list),
      empty,
    )
