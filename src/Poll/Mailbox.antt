-- ===== src/Poll/Mailbox.antt =====
-- What the eventpoll promises to one watched socket: a mailbox, which holds the events of interest that
-- the socket has woken with, and gives them to the connection at the next `tcp_epoll_wait`.
mod Examples
use tcphandoff.Common.{
  ℕ, zero, suc, ◌+◌, ◌-◌, ◌*◌, ◌/◌, ◌%◌, ◌^◌, ◌≤◌, ◌<◌, min, bit_and, bit_or, ◌≡◌, refl, sym, ap,
  ◌∙◌, subst, fun_ext, ◌≢◌, ◌↔◌, ◌⊎◌, inl, inr, Bool, true, false, not, ◌&&◌, ◌||◌, Option, none,
  some, List, [], ◌∷◌, ◌++◌, map, append-nil, append_assoc, arith, dec_lt, ℕ_discrete, ltb, leb,
  ◌==◌, if◌then◌else◌, if_true, if_false, if_true, if_false, ltb→lt, lt→ltb, leb→le, ==_iff, tests,
  Bool-cases, Option-cases, length, get_or, take, drop, replicate, All, length-append, length-take,
  take-append-drop, length-drop, length-replicate, take-append, get_or-append, get_or-take,
  All-append, All-left, All-right, All-mono, All-both, member, u32_mod, char_to_int, is_negative,
  Outcome, done, deadlock, fault, ◌>>=◌, IfDone, IfDone-any, IfDone-bind, bind_done, Received, got,
  failed, write_at,
}
use tcphandoff.Poll.Tree.{RbTree, without}
use tcphandoff.Poll.{
  Eventpoll, Item, tcp_epoll_init, tcp_epoll_wait, tcp_epoll_wakeup, sleep_if_empty,
}
use tcphandoff.Poll.Ready.{Distinct}
use tcphandoff.Poll.Wait.{
  conn_of, Reported, Collected, tcp_epoll_wait-Collected, All-member, take_all,
}
use tcphandoff.Poll.Quiet.{quietly, Same, awake-Same, fixed, wait-fixed, wait-waiting}
use tcphandoff.Poll.Tidy.{Within, IsTidy, wakeup-IsTidy, wait-IsTidy}
use tcphandoff.Poll.System.{Reach, Reach-init-IsTidy, member-map, image_new, Distinct-map}
use tcphandoff.Poll.Tidy.Count.{length-Within}

-- A socket wakes the item on its queue, or the herder waits, nothing waking it if it sleeps.
pub data Op : Type 0 where
  wakes : ℕ → ℕ → Bool → Op
  waits : Op

-- The events that the connection gets from a wait, if it is among those that the wait returns.
abbrev pub given : ℕ → List ℕ × Eventpoll → Option ℕ
given conn result = if member conn result.0 then some (result.1.conn_events conn) else none

-- What the waits of a run give to the connection of item `x`.
pub run : ℕ → ℕ → List Op → Eventpoll → List (Option ℕ)
run maxevents x [] ep = []
run maxevents x (wakes y polled active ∷ ops) ep =
    run maxevents x ops (tcp_epoll_wakeup ep y polled active)
run maxevents x (waits ∷ ops) ep =
    let result = tcp_epoll_wait ep maxevents quietly in
    given (conn_of ep x) result ∷ run maxevents x ops result.1

-- Whether the mailbox holds something, and what.
abbrev pub Box : Type 0
Box = Bool × ℕ

-- What the socket says is added, as far as it is of interest.
abbrev pub post : ℕ → ℕ → Box → Box
post flags polled box =
    let mask = bit_and flags polled in if mask == 0 then box else (true, bit_or box.1 mask)

abbrev pub open_box : Box → Option ℕ
open_box box = if box.0 then some (box.1) else none

abbrev pub emptied : Box → Box
emptied box = if box.0 then (false, 0) else box

-- What a run gives out of the mailbox of item `x`.
pub deliver : ℕ → ℕ → List Op → Box → List (Option ℕ)
deliver flags x [] box = []
deliver flags x (wakes y polled active ∷ ops) box =
    deliver flags x ops (if x == y then post flags polled box else box)
deliver flags x (waits ∷ ops) box = open_box box ∷ deliver flags x ops (emptied box)

-- The mailbox of an item of the eventpoll.
abbrev pub box_of : Eventpoll → ℕ → Box
box_of ep x = (member x ep.ready_list, (ep.item x).events)

abbrev flags_of : Eventpoll → ℕ → ℕ
flags_of ep x = (ep.item x).event_flags

wakeup-box :
    (ep : Eventpoll) (x y polled : ℕ) (active : Bool)
    → box_of (tcp_epoll_wakeup ep y polled active) x
      ≡ (if x == y then post (flags_of ep x) polled (box_of ep x) else box_of ep x)
unfolding tcp_epoll_wakeup
wakeup-box ep x y polled active = ground arith

wakeup-others :
    (ep : Eventpoll) (x y polled : ℕ) (active : Bool)
    → (flags_of (tcp_epoll_wakeup ep y polled active) x ≡ flags_of ep x)
      × (conn_of (tcp_epoll_wakeup ep y polled active) x ≡ conn_of ep x)
      × ((tcp_epoll_wakeup ep y polled active).waiting ≡ ep.waiting)
unfolding tcp_epoll_wakeup
wakeup-others ep x y polled active = (ground arith, ground arith, ground arith)

Distinct-of_map : (f : ℕ → ℕ) (xs : List ℕ) → Distinct (map f xs) → Distinct xs
Distinct-of_map f [] d = tt
Distinct-of_map f (x ∷ xs) d = (absent (member x xs) refl, Distinct-of_map f xs d.1)
  where
    absent : (b : Bool) → member x xs ≡ b → member x xs ≡ false
    absent false e = e
    absent true e = absurd (cc (d.0, member-map f x xs e))

drop_all : (n : ℕ) (xs : List ℕ) → length xs ≤ n → drop n xs ≡ []
drop_all zero [] l = refl
drop_all zero (x ∷ xs) l = absurd (omega (arith, l))
drop_all (suc n) [] l = refl
drop_all (suc n) (x ∷ xs) l = drop_all n xs (omega (arith, l))

-- A wait with room for all items that wait on a queue.
module _ (base : ℕ) (b : base < u32_mod) (n : ℕ) (ep : Eventpoll) (t : IsTidy base b ep)
    (room : length ep.waiting ≤ n) where
  abbrev result : List ℕ × Eventpoll
  result = tcp_epoll_wait ep n quietly

  -- Every item that is ready is reported.
  record Emptied : Type 0 where
    conns : result.0 ≡ map (conn_of ep) ep.ready_list
    none_left : result.1.ready_list ≡ []
    reported : All (Reported ep result.1) ep.ready_list
    others : (y : ℕ) → member y ep.ready_list ≡ false → result.1.item y ≡ ep.item y

  wait-Emptied : Emptied
  wait-Emptied =
      let awake = sleep_if_empty ep quietly in
      let (ready, items) = awake-Same ep in
      let conns : Distinct (map (conn_of ep) ep.ready_list) =
        Distinct-map (conn_of ep) ep.ready_list ep.waiting t.conns t.watched t.sound.distinct in
      let few : length ep.ready_list ≤ n = omega (
        arith,
        room,
        length-Within ep.ready_list ep.waiting t.sound.distinct
            (Distinct-of_map (conn_of ep) ep.waiting t.conns) t.watched,
      ) in
      let same_conns : conn_of awake ≡ conn_of ep = λ i. λ y. (items i y).conn in
      let c =
        tcp_epoll_wait-Collected ep n quietly (rw ready t.sound.distinct)
          (subst Distinct (λ i. map (sym same_conns i) (sym ready i)) conns) in
      let whole : take n awake.ready_list ≡ ep.ready_list =
        ap (take n) ready ∙ take_all n ep.ready_list few in
      record {
        conns = c.conns ∙ λ i. map (same_conns i) (whole i);
        none_left = c.left ∙ ap (drop n) ready ∙ drop_all n ep.ready_list few;
        reported =
            All-mono ep.ready_list
              (λ y r.
                subst
                  (λ (f : ℕ → Item).
                    (result.1.conn_events ((f y).conn) ≡ (f y).events)
                    × ((result.1.item y).events ≡ 0))
                  items r)
              (subst (All (Reported awake result.1)) whole c.reported);
        others = λ y m. c.others y (ap (member y) whole ∙ m) ∙ ap (λ (f : ℕ → Item). f y) items;
      }

  -- What the connection of an item that waits gets, and what is left in its mailbox.
  module _ (x : ℕ) (watched : member x ep.waiting ≡ true) where
    ready-given :
        member x ep.ready_list ≡ true
        → (given (conn_of ep x) result ≡ some ((ep.item x).events))
          × (box_of result.1 x ≡ (false, 0))
    ready-given m =
        let e = wait-Emptied in
        let among : member (conn_of ep x) result.0 ≡ true =
          ap (member (conn_of ep x)) e.conns ∙ member-map (conn_of ep) x ep.ready_list m in
        let r : Reported ep result.1 x =
          All-member (Reported ep result.1) x ep.ready_list e.reported m in
        (rw among (ap some r.0), λ i. (member x (e.none_left i), r.1 i))

    idle-given :
        member x ep.ready_list ≡ false
        → (given (conn_of ep x) result ≡ none) × (box_of result.1 x ≡ (false, (ep.item x).events))
    idle-given m =
        let e = wait-Emptied in
        let absent : member (conn_of ep x) result.0 ≡ false =
          ap (member (conn_of ep x)) e.conns
          ∙ image_new (conn_of ep) x ep.ready_list ep.waiting t.conns watched t.watched m in
        (rw absent refl, λ i. (member x (e.none_left i), (e.others x m i).events))

    wait-box :
        (given (conn_of ep x) result ≡ open_box (box_of ep x))
        × (box_of result.1 x ≡ emptied (box_of ep x))
    wait-box = elim (Bool-cases (member x ep.ready_list)) [
      | inl m ↦ rw m (ready-given m)
      | inr m ↦ rw m (idle-given m)
    ]

-- The items woken in a run wait on queues.
abbrev pub IsWatched : List ℕ → Op → Type 0
IsWatched waiting (wakes y polled active) = member y waiting ≡ true
IsWatched waiting waits = Unit

module _ (base : ℕ) (b : base < u32_mod) (n x : ℕ) where
  run-deliver :
      (ops : List Op) (ep : Eventpoll)
      → IsTidy base b ep
      → length ep.waiting ≤ n
      → member x ep.waiting ≡ true
      → All (IsWatched ep.waiting) ops
      → run n x ops ep ≡ deliver (flags_of ep x) x ops (box_of ep x)
  unfolding run deliver
  run-deliver [] ep t room m w = refl
  run-deliver (wakes y polled active ∷ ops) ep t room m w =
      let woken = tcp_epoll_wakeup ep y polled active in
      let (flags, conn, waiting) = wakeup-others ep x y polled active in
      run-deliver ops woken (wakeup-IsTidy base b ep y polled active w.0 t) (rw waiting room)
        (rw waiting m) (rw waiting w.1)
      ∙ λ i. deliver (flags i) x ops (wakeup-box ep x y polled active i)
  run-deliver (waits ∷ ops) ep t room m w =
      let (out, box) = wait-box base b n ep t room x m in
      let after = (tcp_epoll_wait ep n quietly).1 in
      let waiting = wait-waiting ep n in
      let flags = ap (λ (p : ℕ × ℕ). p.1) (wait-fixed ep n x) in
      (λ i.
        out i
        ∷ run-deliver ops after (wait-IsTidy base b ep n quietly t t) (rw waiting room)
            (rw waiting m) (rw waiting w.1) i)
      ∙ λ i. open_box (box_of ep x) ∷ deliver (flags i) x ops (box i)

-- An eventpoll is to each socket a mailbox: in whatever order the sockets wake and the herder waits, what
-- the waits give to the connection of an item is what `deliver` gives out of the item's mailbox, into
-- which only its own socket posts: at each wait all that the mailbox holds, if anything has been posted
-- since the last one, and else nothing. The mailbox holds at first what the item does. The eventpoll is
-- one that the operations have made, the items wait on queues, and a wait has room for all that do; while
-- the herder sleeps, nothing wakes it.
pub run_refines_mailbox :
    (base : ℕ) (b : base < u32_mod) (rb : RbTree) (memory ep : Eventpoll) (n x : ℕ) (ops : List Op)
    → memory.waiting ≡ []
    → Reach base b rb (tcp_epoll_init memory true).0 ep
    → member x ep.waiting ≡ true
    → length ep.waiting ≤ n
    → All (IsWatched ep.waiting) ops
    → run n x ops ep ≡ deliver ((ep.item x).event_flags) x ops (box_of ep x)
run_refines_mailbox base b rb memory ep n x ops w r m room watched =
    run-deliver base b n x ops ep (Reach-init-IsTidy base b rb memory ep w r) room m watched
