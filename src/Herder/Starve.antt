-- ===== src/Herder/Starve.antt =====
-- Rounds of the herder before each of which many sockets wake: `add_item_to_readylist` puts an item in
-- front of those that have waited longer.
mod Examples
use tcphandoff.Common.{
  ℕ, zero, suc, ◌+◌, ◌-◌, ◌*◌, ◌/◌, ◌%◌, ◌^◌, ◌≤◌, ◌<◌, min, bit_and, bit_or, ◌≡◌, refl, sym, ap,
  ◌∙◌, subst, fun_ext, ◌≢◌, ◌↔◌, ◌⊎◌, inl, inr, Bool, true, false, not, ◌&&◌, ◌||◌, Option, none,
  some, List, [], ◌∷◌, ◌++◌, map, append-nil, append_assoc, arith, dec_lt, ℕ_discrete, ltb, leb,
  ◌==◌, if◌then◌else◌, if_true, if_false, if_true, if_false, ltb→lt, lt→ltb, leb→le, ==_iff, tests,
  Bool-cases, Option-cases, length, get_or, take, drop, replicate, All, length-append, length-take,
  take-append-drop, length-drop, length-replicate, take-append, get_or-append, get_or-take,
  All-append, All-left, All-right, All-mono, All-both, member, u32_mod, char_to_int, is_negative,
  Outcome, done, deadlock, fault, ◌>>=◌, IfDone, IfDone-any, IfDone-bind, bind_done, Received, got,
  failed, write_at,
}
use mathlib.Core.List.{map-append}
use tcphandoff.Poll.{
  update, Eventpoll, Item, tcp_epoll_wait, tcp_epoll_wakeup, sleep_if_empty, report, collect,
}
use tcphandoff.Poll.Ready.{Distinct, tcp_epoll_wakeup_lem}
use tcphandoff.Poll.Wait.{conn_of, wait-collect}
use tcphandoff.Herder.{max_events}
use tcphandoff.Herder.Run.{EventProcess, herder_round, work_of}
use tcphandoff.Herder.Drain.{queue_events-item, Round, herder_round-Round}
use tcphandoff.Poll.Quiet.{quietly, fixed, wait-fixed}

-- The sockets of these items wake, each with what its `poll` says; the herder is at work.
abbrev pub wake_up : List (ℕ × ℕ) → Eventpoll → Eventpoll
wake_up [] ep = ep
wake_up (w ∷ ws) ep = wake_up ws (tcp_epoll_wakeup ep w.0 w.1 false)

-- The rounds of the herder, each with the sockets that wake before it.
pub busy_rounds : Eventpoll → List (List (ℕ × ℕ)) → List EventProcess × Eventpoll
unfolding herder_round
busy_rounds ep [] = ([], ep)
busy_rounds ep (ws ∷ rest) =
    let (queued, after) = herder_round (wake_up ws ep) quietly in
    let (later, left) = busy_rounds after rest in (queued ++ later, left)

-- The items that wake, the last one first.
abbrev pub woken : List (ℕ × ℕ) → List ℕ → List ℕ
woken [] xs = xs
woken (w ∷ ws) xs = woken ws (w.0 ∷ xs)

wakeup-fixed :
    (ep : Eventpoll) (x polled y : ℕ) → fixed (tcp_epoll_wakeup ep x polled false) y ≡ fixed ep y
unfolding tcp_epoll_wakeup
wakeup-fixed ep x polled y = ground arith

wakeup-front :
    (ep : Eventpoll) (x polled : ℕ)
    → bit_and (ep.item x).event_flags polled ≢ 0
    → member x ep.ready_list ≡ false
    → (tcp_epoll_wakeup ep x polled false).ready_list ≡ x ∷ ep.ready_list
unfolding tcp_epoll_wakeup
wakeup-front ep x polled n m = ground (arith, n, m)

herder_round-fixed : (ep : Eventpoll) (y : ℕ) → fixed (herder_round ep quietly).1 y ≡ fixed ep y
unfolding herder_round
herder_round-fixed ep y =
    let waited = tcp_epoll_wait ep max_events quietly in
    ap (λ (f : ℕ → Item). ((f y).conn, (f y).event_flags)) (queue_events-item waited.0 waited.1)
    ∙ wait-fixed ep max_events y

woken-append : (ws : List (ℕ × ℕ)) (xs : List ℕ) → woken ws xs ≡ woken ws [] ++ xs
woken-append [] xs = refl
woken-append (w ∷ ws) xs =
    woken-append ws (w.0 ∷ xs)
    ∙ sym (append_assoc (woken ws []) (w.0 ∷ []) xs)
    ∙ ap (λ (ys : List ℕ). ys ++ xs) (sym (woken-append ws (w.0 ∷ [])))

length-woken : (ws : List (ℕ × ℕ)) (xs : List ℕ) → length (woken ws xs) ≡ length ws + length xs
length-woken [] xs = omega arith
length-woken (w ∷ ws) xs = omega (arith, length-woken ws (w.0 ∷ xs))

Distinct-woken : (ws : List (ℕ × ℕ)) (xs : List ℕ) → Distinct (woken ws xs) → Distinct xs
Distinct-woken [] xs d = d
Distinct-woken (w ∷ ws) xs d = (Distinct-woken ws (w.0 ∷ xs) d).1

-- Before a round, `max_events` items that are not on the ready list wake with events of interest; no two
-- of all of them are for the same connection.
pub record IsBusy (item : ℕ → ℕ × ℕ) (old : List ℕ) (ws : List (ℕ × ℕ)) : Type 0 where
  pub many : length ws ≡ max_events
  pub interested : All (λ w. bit_and (item w.0).1 w.1 ≢ 0) ws
  pub distinct : Distinct (woken ws old)
  pub conns : Distinct (map (λ y. (item y).0) (woken ws old))

wake_up-fixed : (ws : List (ℕ × ℕ)) (ep : Eventpoll) (y : ℕ) → fixed (wake_up ws ep) y ≡ fixed ep y
wake_up-fixed [] ep y = refl
wake_up-fixed (w ∷ ws) ep y =
    wake_up-fixed ws (tcp_epoll_wakeup ep w.0 w.1 false) y ∙ wakeup-fixed ep w.0 w.1 y

wake_up-ready :
    (ws : List (ℕ × ℕ)) (ep : Eventpoll) (item : ℕ → ℕ × ℕ)
    → ((y : ℕ) → fixed ep y ≡ item y)
    → All (λ w. bit_and (item w.0).1 w.1 ≢ 0) ws
    → Distinct (woken ws ep.ready_list)
    → (wake_up ws ep).ready_list ≡ woken ws ep.ready_list
wake_up-ready [] ep item same i d = refl
wake_up-ready (w ∷ ws) ep item same i d =
    let front =
      wakeup-front ep w.0 w.1 (λ e. i.0 (ap (λ (p : ℕ × ℕ). bit_and p.1 w.1) (sym (same w.0)) ∙ e))
        (Distinct-woken ws (w.0 ∷ ep.ready_list) d).0 in
    wake_up-ready ws (tcp_epoll_wakeup ep w.0 w.1 false) item
      (λ y. wakeup-fixed ep w.0 w.1 y ∙ same y) i.1 (rw front d)
    ∙ ap (woken ws) front

member-right : (x : ℕ) (xs ys : List ℕ) → member x (xs ++ ys) ≡ false → member x ys ≡ false
member-right x [] ys m = m
member-right x (y ∷ xs) ys m = member-right x xs ys (ground arith)

-- The connections of the first list are not among those of the second.
Distinct-others :
    (f : ℕ → ℕ) (xs ys : List ℕ)
    → Distinct (map f (xs ++ ys))
    → All (λ x. member (f x) (map f ys) ≡ false) xs
Distinct-others f [] ys d = tt
Distinct-others f (x ∷ xs) ys d = (
  member-right (f x) (map f xs) (map f ys)
      (subst (λ zs. member (f x) zs ≡ false) (map-append f xs ys) d.0),
  Distinct-others f xs ys d.1,
)

drop-append : (n : ℕ) (xs ys : List ℕ) → length xs ≡ n → drop n (xs ++ ys) ≡ ys
drop-append zero [] ys e = refl
drop-append zero (x ∷ xs) ys e = absurd (omega (arith, e))
drop-append (suc n) [] ys e = absurd (omega (arith, e))
drop-append (suc n) (x ∷ xs) ys e = drop-append n xs ys (omega (arith, e))

take-front : (n : ℕ) (xs ys : List ℕ) → length xs ≡ n → take n (xs ++ ys) ≡ xs
take-front n xs ys e = subst (λ m. take m (xs ++ ys) ≡ xs) e (take-append xs ys)

All-work :
    (ep : Eventpoll) (P : ℕ → Type 0) (xs : List ℕ)
    → All (λ x. P (conn_of ep x)) xs
    → All (λ w. P w.conn) (map (work_of ep) xs)
All-work ep P [] a = tt
All-work ep P (x ∷ xs) a = (a.0, All-work ep P xs a.1)

length-works : (ep : Eventpoll) (xs : List ℕ) → length (map (work_of ep) xs) ≡ length xs
length-works ep [] = refl
length-works ep (x ∷ xs) = ap suc (length-works ep xs)

module _ (item : ℕ → ℕ × ℕ) (old : List ℕ) where
  -- Work for another connection than those of the items that wait.
  abbrev IsOther : EventProcess → Type 0
  IsOther w = member w.conn (map (λ y. (item y).0) old) ≡ false

  busy_round :
      (ws : List (ℕ × ℕ)) (ep : Eventpoll)
      → IsBusy item old ws
      → ep.ready_list ≡ old
      → ((y : ℕ) → fixed ep y ≡ item y)
      → let result = herder_round (wake_up ws ep) quietly in
        (result.1.ready_list ≡ old)
        × ((y : ℕ) → fixed result.1 y ≡ item y)
        × (length result.0 ≡ max_events)
        × All IsOther result.0
  busy_round ws ep busy ready same =
      let up = wake_up ws ep in
      let new = woken ws [] in
      let all : up.ready_list ≡ new ++ old =
        wake_up-ready ws ep item same busy.interested (rw ready busy.distinct)
        ∙ ap (woken ws) ready
        ∙ woken-append ws old in
      let kept : (y : ℕ) → fixed up y ≡ item y = λ y. wake_up-fixed ws ep y ∙ same y in
      let conns : conn_of up ≡ (λ y. (item y).0) = fun_ext λ y. ap (λ (p : ℕ × ℕ). p.0) (kept y) in
      let distinct : Distinct (map (λ y. (item y).0) (new ++ old)) =
        subst (λ xs. Distinct (map (λ y. (item y).0) xs)) (woken-append ws old) busy.conns in
      let long : length new ≡ max_events = omega (arith, length-woken ws [], busy.many) in
      let r =
        herder_round-Round up (subst Distinct (woken-append ws old ∙ sym all) busy.distinct)
          (subst Distinct (λ i. map (sym conns i) (sym all i)) distinct) in
      let work : (herder_round up quietly).0 ≡ map (work_of up) new =
        r.work
        ∙ ap (λ (xs : List ℕ). map (work_of up) (take max_events xs)) all
        ∙ ap (map (work_of up)) (take-front max_events new old long) in
      (
        r.left ∙ ap (drop max_events) all ∙ drop-append max_events new old long,
        λ y. herder_round-fixed up y ∙ kept y,
        ap length work ∙ length-works up new ∙ long,
        subst (All IsOther) (sym work) (
            All-work up (λ c. member c (map (λ y. (item y).0) old) ≡ false) new
              (subst
                (λ (f : ℕ → ℕ). All (λ x. member (f x) (map (λ y. (item y).0) old) ≡ false) new)
                (sym conns) (Distinct-others (λ y. (item y).0) new old distinct))),
      )

  busy_rounds-from :
      (rounds : List (List (ℕ × ℕ))) (ep : Eventpoll)
      → All (IsBusy item old) rounds
      → ep.ready_list ≡ old
      → ((y : ℕ) → fixed ep y ≡ item y)
      → let result = busy_rounds ep rounds in
        (result.1.ready_list ≡ old)
        × All IsOther result.0
        × (length result.0 ≡ length rounds * max_events)
  unfolding busy_rounds
  busy_rounds-from [] ep busy ready same = (ready, tt, omega arith)
  busy_rounds-from (ws ∷ rest) ep busy ready same =
      let round = herder_round (wake_up ws ep) quietly in
      let (ready', same', many, others) = busy_round ws ep busy.0 ready same in
      let (ready'', others', count) = busy_rounds-from rest round.1 busy.1 ready' same' in
      (
        ready'',
        All-append IsOther round.0 (busy_rounds round.1 rest).0 others others',
        length-append round.0 (busy_rounds round.1 rest).0 ∙ omega (arith, many, count),
      )

-- The items that are ready starve while others wake: where before each round of the herder as many items
-- as a round takes wake with events of interest, 1024, none of them ready before, the rounds queue work
-- for these only, however many rounds there are, and what was ready at first stays on the ready list. No
-- two of the items are for the same connection.
pub busy_rounds_starve :
    (rounds : List (List (ℕ × ℕ))) (ep : Eventpoll)
    → All (IsBusy (fixed ep) ep.ready_list) rounds
    → let result = busy_rounds ep rounds in
      (result.1.ready_list ≡ ep.ready_list)
      × All (λ w. member w.conn (map (conn_of ep) ep.ready_list) ≡ false) result.0
      × (length result.0 ≡ length rounds * max_events)
busy_rounds_starve rounds ep busy =
    busy_rounds-from (fixed ep) ep.ready_list rounds ep busy refl (λ y. refl)
