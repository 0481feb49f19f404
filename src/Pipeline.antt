-- ===== src/Pipeline.antt =====
-- A client's bytes on their way through the front end: its socket wakes the item of its connection, the
-- herder queues work for the connection (frontend/tcpha_fe_poll.c,
-- frontend/tcpha_fe_client_connection.c), and the work reads the bytes
-- (frontend/tcpha_fe_connection_processor.c).
mod Examples
use tcphandoff.Common.{
  ℕ, zero, suc, ◌+◌, ◌-◌, ◌*◌, ◌/◌, ◌%◌, ◌^◌, ◌≤◌, ◌<◌, min, bit_and, bit_or, ◌≡◌, refl, sym, ap,
  ◌∙◌, subst, fun_ext, ◌≢◌, ◌↔◌, ◌⊎◌, inl, inr, Bool, true, false, not, ◌&&◌, ◌||◌, Option, none,
  some, List, [], ◌∷◌, ◌++◌, map, append-nil, append_assoc, arith, dec_lt, ℕ_discrete, ltb, leb,
  ◌==◌, if◌then◌else◌, if_true, if_false, if_true, if_false, ltb→lt, lt→ltb, leb→le, ==_iff, tests,
  Bool-cases, Option-cases, length, get_or, take, drop, replicate, All, length-append, length-take,
  take-append-drop, length-drop, length-replicate, take-append, get_or-append, get_or-take,
  All-append, All-left, All-right, All-mono, All-both, member, u32_mod, char_to_int, is_negative,
  Outcome, done, deadlock, fault, ◌>>=◌, IfDone, IfDone-any, IfDone-bind, bind_done, Received, got,
  failed, write_at,
}
use Prim.Native.Nat.{max, digits, bit_and-bitwise, bit_or-bitwise}
use tcphandoff.Sock.{Sock}
use tcphandoff.Poll.Tree.{RbTree}
use tcphandoff.Http.{HttpRequest, Status, http_header_alloc, max_input_size}
use tcphandoff.Poll.{
  Eventpoll, pollin, pollrdhup, update, tcp_epoll_init, tcp_epoll_wakeup, tcp_epoll_wait,
  sleep_if_empty,
}
use tcphandoff.Poll.Ready.{Woken, tcp_epoll_wakeup_lem}
use tcphandoff.Poll.Wait.{conn_of, take_all, sleep_if_empty-member}
use tcphandoff.Poll.System.{Reach, woken-Distinct}
use tcphandoff.Herder.{Herder, ConnMemory, FeConn, max_events}
use tcphandoff.Herder.Run.{EventProcess, work_of, herder_round, Queued, herder_round-Queued}
use tcphandoff.Processor.{process_connection}
use tcphandoff.Processor.Buffer.{live, count, IsRequest}
use tcphandoff.Processor.Pollin.{delivered}
use tcphandoff.Processor.Connection.{process_connection-appends}

-- No digit of 0 is in what `bit_and` makes of it.
and_digits_none : (n a : ℕ) → digits (λ b. 0) min n a 0 ≡ 0
and_digits_none zero a = refl
and_digits_none (suc n) zero = refl
and_digits_none (suc n) (suc a) = omega (arith, and_digits_none n (suc a / 2))

lowest-bit_and : (a : ℕ) → bit_and a 1 ≡ a % 2
lowest-bit_and zero = refl
lowest-bit_and (suc a) = omega (arith, bit_and-bitwise (suc a) 1, and_digits_none a (suc a / 2))

lowest-bit_or : (a b : ℕ) → bit_or a b % 2 ≡ max (a % 2) (b % 2)
lowest-bit_or zero b = omega (arith, bit_or-bitwise 0 b)
lowest-bit_or (suc a) b = omega (arith, bit_or-bitwise (suc a) b)

some_event : (mask : ℕ) → bit_and mask pollin ≢ 0 → mask ≢ 0
some_event mask n e = n (omega (arith, lowest-bit_and mask, e))

-- POLLIN stays among events when others are added.
bit_or-pollin : (old new : ℕ) → bit_and new pollin ≢ 0 → bit_and (bit_or old new) pollin ≢ 0
bit_or-pollin old new n e =
    n (omega (arith, lowest-bit_and new, lowest-bit_and (bit_or old new), lowest-bit_or old new, e))

-- The item stands somewhere in the list, and so does its work among what is queued.
abbrev pub Among {ℓ} : {A : Type ℓ} → A → List A → Type ℓ
Among {A = A} a xs = (before after : List A) × (xs ≡ before ++ (a ∷ after))

Among-member : (x : ℕ) (xs : List ℕ) → member x xs ≡ true → Among x xs
Among-member x [] m = absurd (cc)
Among-member x (y ∷ ys) m = elim (ℕ_discrete x y) [
  | yes e ↦ ([], ys, ap (λ z. z ∷ ys) (sym e))
  | no n ↦
      let (before, after, e) = Among-member x ys (ground arith) in (y ∷ before, after, ap (◌∷◌ y) e)
]

map-append : (f : ℕ → EventProcess) (xs ys : List ℕ) → map f (xs ++ ys) ≡ map f xs ++ map f ys
map-append f [] ys = refl
map-append f (x ∷ xs) ys = ap (◌∷◌ (f x)) (map-append f xs ys)

Among-map : (f : ℕ → EventProcess) (x : ℕ) (xs : List ℕ) → Among x xs → Among (f x) (map f xs)
Among-map f x xs (before, after, e) =
    (map f before, map f after, ap (map f) e ∙ map-append f before (x ∷ after))

-- The work that is queued for an item that has been woken.
abbrev pub woken_work : Eventpoll → ℕ → ℕ → Bool → EventProcess
woken_work ep x polled active = record {
  conn = conn_of (tcp_epoll_wakeup ep x polled active) x;
  events = bit_or (ep.item x).events (bit_and (ep.item x).event_flags polled);
}

module _ (base : ℕ) (b : base < u32_mod) (rb : RbTree) (memory ep : Eventpoll) (x polled : ℕ)
    (active : Bool) (asleep : Eventpoll → Eventpoll) where
  -- A round of the herder queues the work.
  woken-queued :
      memory.waiting ≡ []
      → Reach base b rb (tcp_epoll_init memory true).0 ep
      → member x ep.waiting ≡ true
      → bit_and (ep.item x).event_flags polled ≢ 0
      → length (tcp_epoll_wakeup ep x polled active).ready_list ≤ max_events
      → Among
          (woken_work ep x polled active)
          (herder_round (tcp_epoll_wakeup ep x polled active) asleep).0
  woken-queued w r m nz fits =
      let woken = tcp_epoll_wakeup ep x polled active in
      let k = (tcp_epoll_wakeup_lem ep x polled active).1 nz in
      let stays = sleep_if_empty-member woken asleep x k.listed in
      let (items, conns) = woken-Distinct base b rb memory ep x polled active w r m in
      let q : Queued woken (herder_round woken asleep) =
        subst (λ e. Queued e (herder_round woken asleep)) stays
          (herder_round-Queued woken asleep (rw stays items) (rw stays conns)) in
      let all : (herder_round woken asleep).0 ≡ map (work_of woken) woken.ready_list =
        q.work ∙ ap (map (work_of woken)) (take_all max_events woken.ready_list fits) in
      let same : work_of woken x ≡ woken_work ep x polled active = rw k.noted refl in
      subst (λ ws. Among (woken_work ep x polled active) ws) (sym all)
        (subst (λ v. Among v (map (work_of woken) woken.ready_list)) same
          (Among-map (work_of woken) x woken.ready_list (Among-member x woken.ready_list k.listed)))

-- What a client sends gets into the header of its request: where its socket wakes the item of its connection since there is
-- something to read, the next round of the herder queues work for the connection, among what else it
-- queues, and that work appends the bytes that the read delivers to the connection's header. The
-- eventpoll is one that the operations have made, the item waits, the ready list is no longer than a
-- round takes, and the peer has not hung up; the connection has a socket, its header stays shorter than
-- `MAX_INPUT_SIZE`, and there is memory for a first header.
pub sent_bytes_read :
    (base : ℕ) (b : base < u32_mod) (rb : RbTree) (memory ep : Eventpoll) (x polled : ℕ)
    (active : Bool) (asleep : Eventpoll → Eventpoll) (mem : ConnMemory) (h : Herder) (sock : Sock)
    (received : Received)
    → memory.waiting ≡ []
    → Reach base b rb (tcp_epoll_init memory true).0 ep
    → member x ep.waiting ≡ true
    → let woken = tcp_epoll_wakeup ep x polled active in
      let mask = bit_and (ep.item x).event_flags polled in
      let c = conn_of woken x in
      bit_and mask pollin ≢ 0
      → bit_and (bit_or (ep.item x).events mask) pollrdhup ≡ 0
      → length woken.ready_list ≤ max_events
      → (mem.conn c).csock ≡ some sock
      → IsRequest (mem.conn c).request
      → count (mem.conn c).request + length (delivered received) < max_input_size
      → (work : EventProcess) × (mem' : ConnMemory) × Among work (herder_round woken asleep).0
        × (work.conn ≡ c)
        × (process_connection rb (some http_header_alloc) received work.events mem h work.conn
            ≡ done (mem', h))
        × (live (mem'.conn c).request ≡ live (mem.conn c).request ++ delivered received)
sent_bytes_read base b rb memory ep x polled active asleep mem h sock received w r m readable up
      fits connected v short =
    let mask = bit_and (ep.item x).event_flags polled in
    let work = woken_work ep x polled active in
    let (mem', e, appended, _) =
      process_connection-appends rb received work.events mem h work.conn sock connected
        (bit_or-pollin (ep.item x).events mask readable) up v short in
    (
      work,
      mem',
      woken-queued base b rb memory ep x polled active asleep w r m (some_event mask readable) fits,
      refl,
      e,
      appended,
    )
