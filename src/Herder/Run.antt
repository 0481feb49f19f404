-- ===== src/Herder/Run.antt =====
-- frontend/tcpha_fe_client_connection.c, lines 317 to 362: the loop of a herder.
use tcphandoff.Common.{
  ℕ, zero, suc, ◌≡◌, refl, ap, ◌∙◌, false, List, [], ◌∷◌, ◌++◌, map, arith, take, drop, All,
  All-mono, member,
}
use tcphandoff.Poll.{Eventpoll, update, tcp_epoll_wait, sleep_if_empty}
use tcphandoff.Poll.Ready.{Distinct}
use tcphandoff.Poll.Wait.{conn_of, Collected, member-take, tcp_epoll_wait-Collected}
use tcphandoff.Herder.{max_events}

-- `struct event_process`, the work queued for a connection; the herder is the one that queues it.
pub record EventProcess : Type 0 where
  pub conn : ℕ
  pub events : ℕ

-- The loop over the connections that `tcp_epoll_wait` gave: each is queued with its events, which are
-- cleared.
unfoldable pub queue_events : Eventpoll → List ℕ → List EventProcess × Eventpoll
queue_events ep [] = ([], ep)
queue_events ep (c ∷ cs) =
    let rest = queue_events (record ep { conn_events = update ep.conn_events c 0 }) cs in
    (record { conn = c; events = ep.conn_events c } ∷ rest.0, rest.1)

-- One round: what is queued, and the eventpoll after it.
unfoldable pub herder_round : Eventpoll → (Eventpoll → Eventpoll) → List EventProcess × Eventpoll
unfolding queue_events
herder_round ep asleep =
    let (conns, waited) = tcp_epoll_wait ep max_events asleep in queue_events waited conns

-- The rounds until the thread is told to stop, each with what happens while the herder sleeps in it.
unfoldable pub tcpha_fe_herder_run :
    Eventpoll → List (Eventpoll → Eventpoll) → List EventProcess × Eventpoll
unfolding herder_round
tcpha_fe_herder_run ep [] = ([], ep)
tcpha_fe_herder_run ep (asleep ∷ rest) =
    let (queued, after) = herder_round ep asleep in
    let (later, left) = tcpha_fe_herder_run after rest in (queued ++ later, left)

-- The work of an item that is ready.
abbrev pub work_of : Eventpoll → ℕ → EventProcess
work_of ep x = record { conn = conn_of ep x; events = (ep.item x).events }

-- The events of a connection that is not among those queued stay.
queue_events_others :
    (cs : List ℕ) (ep : Eventpoll) (c : ℕ)
    → member c cs ≡ false
    → (queue_events ep cs).1.conn_events c ≡ ep.conn_events c
unfolding queue_events
queue_events_others [] ep c m = refl
queue_events_others (d ∷ cs) ep c m =
    queue_events_others cs (record ep { conn_events = update ep.conn_events d 0 }) c (ground arith)
    ∙ ground arith

-- The events of each connection queued are cleared.
queue_events_cleared :
    (cs : List ℕ) (ep : Eventpoll)
    → Distinct cs
    → All (λ c. (queue_events ep cs).1.conn_events c ≡ 0) cs
unfolding queue_events
queue_events_cleared [] ep d = tt
queue_events_cleared (c ∷ cs) ep d =
    let cleared = record ep { conn_events = update ep.conn_events c 0 } in
    (queue_events_others cs cleared c d.0 ∙ ground arith, queue_events_cleared cs cleared d.1)

-- What is queued for the connections of items that have been reported.
-- Clearing the events of one connection leaves those of the others.
cleared_others :
    (xs : List ℕ) (awake ep : Eventpoll) (c : ℕ)
    → member c (map (conn_of awake) xs) ≡ false
    → All (λ x. ep.conn_events (conn_of awake x) ≡ (awake.item x).events) xs
    → All (λ x. update ep.conn_events c 0 (conn_of awake x) ≡ (awake.item x).events) xs
cleared_others [] awake ep c m r = tt
cleared_others (x ∷ xs) awake ep c m r =
    (ground (arith, r.0), cleared_others xs awake ep c (ground arith) r.1)

queue_events_work :
    (xs : List ℕ) (awake ep : Eventpoll)
    → Distinct (map (conn_of awake) xs)
    → All (λ x. ep.conn_events (conn_of awake x) ≡ (awake.item x).events) xs
    → (queue_events ep (map (conn_of awake) xs)).0 ≡ map (work_of awake) xs
unfolding queue_events
queue_events_work [] awake ep d r = refl
queue_events_work (x ∷ xs) awake ep d r =
    let c = conn_of awake x in
    let cleared = record ep { conn_events = update ep.conn_events c 0 } in
    rw (r.0, queue_events_work xs awake cleared d.1 (cleared_others xs awake ep c d.0 r.1)) refl

pub Distinct-take : (n : ℕ) (xs : List ℕ) → Distinct xs → Distinct (take n xs)
Distinct-take zero xs d = tt
Distinct-take (suc n) [] d = tt
Distinct-take (suc n) (x ∷ xs) d = (member-take x n xs d.0, Distinct-take n xs d.1)

pub map-take : (f : ℕ → ℕ) (n : ℕ) (xs : List ℕ) → map f (take n xs) ≡ take n (map f xs)
map-take f zero xs = refl
map-take f (suc n) [] = refl
map-take f (suc n) (x ∷ xs) = ap (◌∷◌ (f x)) (map-take f n xs)

-- What a round makes of the eventpoll that the herder finds awake.
pub record Queued (awake : Eventpoll) (result : List EventProcess × Eventpoll) : Type 0 where
  pub work : result.0 ≡ map (work_of awake) (take max_events awake.ready_list)
  pub cleared :
      All (λ x. result.1.conn_events (conn_of awake x) ≡ 0) (take max_events awake.ready_list)
  pub left : result.1.ready_list ≡ drop max_events awake.ready_list

pub queue_events_ready :
    (cs : List ℕ) (ep : Eventpoll) → (queue_events ep cs).1.ready_list ≡ ep.ready_list
unfolding queue_events
queue_events_ready [] ep = refl
queue_events_ready (c ∷ cs) ep =
    queue_events_ready cs (record ep { conn_events = update ep.conn_events c 0 })

All-map : (f : ℕ → ℕ) (P : ℕ → Type 0) (xs : List ℕ) → All P (map f xs) → All (λ x. P (f x)) xs
All-map f P [] a = tt
All-map f P (x ∷ xs) a = (a.0, All-map f P xs a.1)

queue-Queued :
    (awake : Eventpoll) (result : List ℕ × Eventpoll)
    → Distinct (map (conn_of awake) awake.ready_list)
    → Collected awake max_events result
    → Queued awake (queue_events result.1 result.0)
queue-Queued awake result d c =
    let first = take max_events awake.ready_list in
    let distinct : Distinct (map (conn_of awake) first) =
      rw (map-take (conn_of awake) max_events awake.ready_list)
        (Distinct-take max_events (map (conn_of awake) awake.ready_list) d) in
    rw c.conns record {
      work =
          queue_events_work first awake result.1 distinct (All-mono first (λ x r. r.0) c.reported);
      cleared =
          All-map (conn_of awake)
            (λ c. (queue_events result.1 (map (conn_of awake) first)).1.conn_events c ≡ 0) first
            (queue_events_cleared (map (conn_of awake) first) result.1 distinct);
      left = queue_events_ready (map (conn_of awake) first) result.1 ∙ c.left;
    }

-- Let `awake` be the eventpoll once the herder has slept, if its ready list was empty. A round queues
-- the first 1024 items of the ready list, in its order and each once, as work with the item's
-- connection and events, clears the events of these connections, and leaves the other items on the
-- list. The items on the list are distinct, and so are their connections.
pub herder_round-Queued :
    (ep : Eventpoll) (asleep : Eventpoll → Eventpoll)
    → Distinct (sleep_if_empty ep asleep).ready_list
    → Distinct (map (conn_of (sleep_if_empty ep asleep)) (sleep_if_empty ep asleep).ready_list)
    → Queued (sleep_if_empty ep asleep) (herder_round ep asleep)
unfolding herder_round
herder_round-Queued ep asleep d c =
    queue-Queued (sleep_if_empty ep asleep) (tcp_epoll_wait ep max_events asleep) c
      (tcp_epoll_wait-Collected ep max_events asleep d c)
