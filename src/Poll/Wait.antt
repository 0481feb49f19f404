-- ===== src/Poll/Wait.antt =====
-- What `tcp_epoll_wait` returns, and what it leaves on the ready list.
use tcphandoff.Common.{
  ℕ, zero, suc, ◌≤◌, bit_and, bit_or, ◌≡◌, refl, sym, ap, ◌∙◌, subst, fun_ext, ◌≢◌, Bool, true,
  false, List, [], ◌∷◌, map, arith, ℕ_discrete, ◌==◌, length, take, drop, All, member,
}
use tcphandoff.Poll.{
  Eventpoll, Item, report, collect, sleep_if_empty, tcp_epoll_wait, tcp_epoll_wakeup,
}
use tcphandoff.Poll.Ready.{Distinct, tcp_epoll_wakeup_lem}

-- The connection of an item.
abbrev pub conn_of : Eventpoll → ℕ → ℕ
conn_of ep x = (ep.item x).conn

conn_of-report :
    (ep : Eventpoll) (x y : ℕ) (rest : List ℕ) → conn_of (report ep x rest) y ≡ conn_of ep y
unfolding report
conn_of-report ep x y rest = ground arith

conns-report :
    (ep : Eventpoll) (x : ℕ) (rest ys : List ℕ)
    → map (conn_of (report ep x rest)) ys ≡ map (conn_of ep) ys
conns-report ep x rest ys = ap (λ (f : ℕ → ℕ). map f ys) (fun_ext λ y. conn_of-report ep x y rest)

item-report :
    (ep : Eventpoll) (x y : ℕ) (rest : List ℕ)
    → (x == y) ≡ false
    → (report ep x rest).item y ≡ ep.item y
unfolding report
item-report ep x y rest n = rw n refl

pub member-take : (x n : ℕ) (xs : List ℕ) → member x xs ≡ false → member x (take n xs) ≡ false
member-take x zero xs m = refl
member-take x (suc n) [] m = refl
member-take x (suc n) (y ∷ ys) m = ground (arith, member-take x n ys)

pub collect_conns :
    (n : ℕ) (xs : List ℕ) (ep : Eventpoll) → (collect n xs ep).0 ≡ map (conn_of ep) (take n xs)
unfolding collect
collect_conns zero [] ep = refl
collect_conns (suc n) [] ep = refl
collect_conns zero (x ∷ xs) ep = refl
collect_conns (suc n) (x ∷ xs) ep =
    ap (◌∷◌ (conn_of ep x)) (collect_conns n xs (report ep x xs) ∙ conns-report ep x xs (take n xs))

pub collect_ready :
    (n : ℕ) (xs : List ℕ) (ep : Eventpoll)
    → ep.ready_list ≡ xs
    → (collect n xs ep).1.ready_list ≡ drop n xs
unfolding collect report
collect_ready zero [] ep e = e
collect_ready (suc n) [] ep e = e
collect_ready zero (x ∷ xs) ep e = e
collect_ready (suc n) (x ∷ xs) ep e = collect_ready n xs (report ep x xs) refl

pub collect_item :
    (n : ℕ) (xs : List ℕ) (ep : Eventpoll) (y : ℕ)
    → member y (take n xs) ≡ false
    → (collect n xs ep).1.item y ≡ ep.item y
unfolding collect
collect_item zero [] ep y m = refl
collect_item (suc n) [] ep y m = refl
collect_item zero (x ∷ xs) ep y m = refl
collect_item (suc n) (x ∷ xs) ep y m =
    collect_item n xs (report ep x xs) y (ground arith) ∙ item-report ep x y xs (ground arith)

events-report :
    (ep : Eventpoll) (x : ℕ) (rest : List ℕ) (c : ℕ)
    → (c == conn_of ep x) ≡ false
    → (report ep x rest).conn_events c ≡ ep.conn_events c
unfolding report
events-report ep x rest c n = ground arith

collect_events :
    (n : ℕ) (xs : List ℕ) (ep : Eventpoll) (c : ℕ)
    → member c (map (conn_of ep) xs) ≡ false
    → (collect n xs ep).1.conn_events c ≡ ep.conn_events c
unfolding collect
collect_events zero [] ep c m = refl
collect_events (suc n) [] ep c m = refl
collect_events zero (x ∷ xs) ep c m = refl
collect_events (suc n) (x ∷ xs) ep c m =
    collect_events n xs (report ep x xs) c (ap (member c) (conns-report ep x xs xs) ∙ ground arith)
    ∙ events-report ep x xs c (ground arith)

-- An item's events have gone to its connection.
abbrev pub Reported : Eventpoll → Eventpoll → ℕ → Type 0
Reported before after x =
    (after.conn_events (conn_of before x) ≡ (before.item x).events) × ((after.item x).events ≡ 0)

report-Reported : (ep : Eventpoll) (x : ℕ) (rest : List ℕ) → Reported ep (report ep x rest) x
unfolding report
report-Reported ep x rest = (ground arith, ground arith)

-- What is reported in the end is what stood in the item when the loop began.
Reported-report :
    (ep : Eventpoll) (x : ℕ) (xs ys : List ℕ) (after : Eventpoll)
    → member x ys ≡ false
    → All (Reported (report ep x xs) after) ys
    → All (Reported ep after) ys
Reported-report ep x xs [] after m a = tt
Reported-report ep x xs (y ∷ ys) after m a = (
  rw (← conn_of-report ep x y xs, ← item-report ep x y xs (ground arith)) a.0,
  Reported-report ep x xs ys after (ground arith) a.1,
)

collect_reports :
    (n : ℕ) (xs : List ℕ) (ep : Eventpoll)
    → Distinct xs
    → Distinct (map (conn_of ep) xs)
    → All (Reported ep (collect n xs ep).1) (take n xs)
unfolding collect
collect_reports zero xs ep d c = tt
collect_reports (suc n) [] ep d c = tt
collect_reports (suc n) (x ∷ xs) ep d c =
    let own = report-Reported ep x xs in
    (
      (
        collect_events n xs (report ep x xs) (conn_of ep x)
              (ap (member (conn_of ep x)) (conns-report ep x xs xs) ∙ c.0)
            ∙ own.0,
        ap (λ (it : Item). it.events)
              (collect_item n xs (report ep x xs) x (member-take x n xs d.0))
            ∙ own.1,
      ),
      Reported-report ep x xs (take n xs) (collect n xs (report ep x xs)).1 (member-take x n xs d.0)
          (collect_reports n xs (report ep x xs) d.1 (rw (conns-report ep x xs xs) c.1)),
    )

-- What `tcp_epoll_wait` makes of the eventpoll that it finds once it has slept, if it had to.
pub record Collected (awake : Eventpoll) (maxevents : ℕ) (result : List ℕ × Eventpoll)
    : Type 0 where
  pub conns : result.0 ≡ map (conn_of awake) (take maxevents awake.ready_list)
  pub left : result.1.ready_list ≡ drop maxevents awake.ready_list
  pub reported : All (Reported awake result.1) (take maxevents awake.ready_list)
  pub others :
      (y : ℕ) → member y (take maxevents awake.ready_list) ≡ false → result.1.item y ≡ awake.item y

collect-Collected :
    (n : ℕ) (awake : Eventpoll)
    → Distinct awake.ready_list
    → Distinct (map (conn_of awake) awake.ready_list)
    → Collected awake n (collect n awake.ready_list awake)
collect-Collected n awake d c = record {
  conns = collect_conns n awake.ready_list awake;
  left = collect_ready n awake.ready_list awake refl;
  reported = collect_reports n awake.ready_list awake d c;
  others = λ y m. collect_item n awake.ready_list awake y m;
}

wait_test :
    (n : ℕ) (xs : List ℕ) (awake : Eventpoll)
    → ◌≡◌ {A = List ℕ × Eventpoll}
        (elim xs [ [] ↦ ([], awake) | x ∷ rest ↦ collect n (x ∷ rest) awake ])
        (collect n xs awake)
unfolding collect
wait_test zero [] awake = refl
wait_test (suc n) [] awake = refl
wait_test n (x ∷ xs) awake = refl

pub wait-collect :
    (ep : Eventpoll) (maxevents : ℕ) (asleep : Eventpoll → Eventpoll)
    → let awake = sleep_if_empty ep asleep in
      tcp_epoll_wait ep maxevents asleep ≡ collect maxevents awake.ready_list awake
unfolding tcp_epoll_wait
wait-collect ep maxevents asleep =
    wait_test maxevents (sleep_if_empty ep asleep).ready_list (sleep_if_empty ep asleep)

-- Let `awake` be the eventpoll once the herder has slept, if its ready list was empty. Then
-- `tcp_epoll_wait` returns the connections of the first `maxevents` items of the ready list, leaves
-- the other items on the list, moves the events of each of the first to its connection, and changes no
-- other item. The items on the list are distinct, and so are their connections.
pub tcp_epoll_wait-Collected :
    (ep : Eventpoll) (maxevents : ℕ) (asleep : Eventpoll → Eventpoll)
    → Distinct (sleep_if_empty ep asleep).ready_list
    → Distinct (map (conn_of (sleep_if_empty ep asleep)) (sleep_if_empty ep asleep).ready_list)
    → Collected (sleep_if_empty ep asleep) maxevents (tcp_epoll_wait ep maxevents asleep)
tcp_epoll_wait-Collected ep maxevents asleep d c =
    rw (wait-collect ep maxevents asleep)
      (collect-Collected maxevents (sleep_if_empty ep asleep) d c)

pub All-member : (P : ℕ → Type 0) (x : ℕ) (xs : List ℕ) → All P xs → member x xs ≡ true → P x
All-member P x [] a m = absurd (cc)
All-member P x (y ∷ ys) a m = elim (ℕ_discrete x y) [
  | yes e ↦ subst P (sym e) a.0
  | no n ↦ All-member P x ys a.1 (ground arith)
]

pub take_all : (n : ℕ) (xs : List ℕ) → length xs ≤ n → take n xs ≡ xs
take_all zero [] h = refl
take_all zero (x ∷ xs) h = absurd (omega arith)
take_all (suc n) [] h = refl
take_all (suc n) (x ∷ xs) h = ap (◌∷◌ x) (take_all n xs (omega arith))

pub sleep_if_empty-member :
    (ep : Eventpoll) (asleep : Eventpoll → Eventpoll) (x : ℕ)
    → member x ep.ready_list ≡ true
    → sleep_if_empty ep asleep ≡ ep
unfolding sleep_if_empty
sleep_if_empty-member ep asleep x m = ground arith

-- The next wait with room for the whole ready list does not sleep, and reports every item of it.
pub wait_reported :
    (ep : Eventpoll) (x maxevents : ℕ) (asleep : Eventpoll → Eventpoll)
    → member x ep.ready_list ≡ true
    → Distinct ep.ready_list
    → Distinct (map (conn_of ep) ep.ready_list)
    → length ep.ready_list ≤ maxevents
    → (sleep_if_empty ep asleep ≡ ep)
      × ((tcp_epoll_wait ep maxevents asleep).1.conn_events (conn_of ep x) ≡ (ep.item x).events)
wait_reported ep x maxevents asleep m d c fits =
    let stays = sleep_if_empty-member ep asleep x m in
    let r : Collected ep maxevents (tcp_epoll_wait ep maxevents asleep) =
      subst (λ e. Collected e maxevents (tcp_epoll_wait ep maxevents asleep)) stays
        (tcp_epoll_wait-Collected ep maxevents asleep (rw stays d) (rw stays c)) in
    let whole = take_all maxevents ep.ready_list fits in
    (
      stays,
      (All-member (Reported ep (tcp_epoll_wait ep maxevents asleep).1) x ep.ready_list
          (rw whole at r.reported) m).0,
    )

-- Where the socket of item `x` has woken with events of interest, a `tcp_epoll_wait` that is called
-- after that, with room for the whole ready list does not sleep, and reports to the item's
-- connection the events that it had together with the new ones. The items on the list are distinct,
-- and so are their connections.
pub wakeup_reported :
    (ep : Eventpoll) (x polled : ℕ) (active : Bool) (maxevents : ℕ) (asleep : Eventpoll → Eventpoll)
    → let woken = tcp_epoll_wakeup ep x polled active in
      let mask = bit_and (ep.item x).event_flags polled in
      mask ≢ 0
      → Distinct woken.ready_list
      → Distinct (map (conn_of woken) woken.ready_list)
      → length woken.ready_list ≤ maxevents
      → (sleep_if_empty woken asleep ≡ woken)
        × ((tcp_epoll_wait woken maxevents asleep).1.conn_events (conn_of woken x)
            ≡ bit_or (ep.item x).events mask)
wakeup_reported ep x polled active maxevents asleep nz d c fits =
    let w = (tcp_epoll_wakeup_lem ep x polled active).1 nz in
    let (stays, r) =
      wait_reported (tcp_epoll_wakeup ep x polled active) x maxevents asleep w.listed d c fits in
    (stays, r ∙ w.noted)
