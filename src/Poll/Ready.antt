-- ===== src/Poll/Ready.antt =====
-- The ready list: wakeups put items and their events on it, and `tcp_epoll_wait` takes them off.
use tcphandoff.Common.{
  ℕ, bit_and, bit_or, ◌≡◌, refl, ◌≢◌, Bool, true, false, List, [], ◌∷◌, arith, member,
}
use tcphandoff.Poll.{Eventpoll, tcp_epoll_wakeup}

-- No entry stands twice.
abbrev pub Distinct : List ℕ → Type 0
Distinct [] = Unit
Distinct (x ∷ xs) = (member x xs ≡ false) × Distinct xs

-- What changes, and what does not, when the socket of item `x` wakes with events of interest.
pub record Woken (ep : Eventpoll) (x mask : ℕ) (active : Bool) (after : Eventpoll) : Type 0 where
  pub listed : member x after.ready_list ≡ true
  pub noted : (after.item x).events ≡ bit_or (ep.item x).events mask
  pub woken : active ≡ true → after.should_wake ≡ true
  pub others_listed : (y : ℕ) → y ≢ x → member y after.ready_list ≡ member y ep.ready_list
  pub others : (y : ℕ) → y ≢ x → after.item y ≡ ep.item y

member_self : (x : ℕ) (xs : List ℕ) → member x (x ∷ xs) ≡ true
member_self x xs = ground arith

-- `tcp_epoll_wakeup` leaves the eventpoll as it is where no event of interest has occurred; else it
-- puts the item on the ready list, adds the events to the item's, sets `should_wake` for a herder
-- that sleeps, and leaves the other items and their places on the list as they are.
pub tcp_epoll_wakeup_lem :
    (ep : Eventpoll) (x polled : ℕ) (active : Bool)
    → let mask = bit_and (ep.item x).event_flags polled in
      (mask ≡ 0 → tcp_epoll_wakeup ep x polled active ≡ ep)
      × (mask ≢ 0 → Woken ep x mask active (tcp_epoll_wakeup ep x polled active))
unfolding tcp_epoll_wakeup
tcp_epoll_wakeup_lem ep x polled active = (
  λ z. rw z refl,
  λ nz. record {
    listed = ground arith;
    noted = ground arith;
    woken = λ a. ground arith;
    others_listed = λ y n. ground arith;
    others = λ y n. ground arith;
  },
)

-- `tcp_epoll_wakeup` keeps the entries of the ready list distinct.
pub wakeup-Distinct :
    (ep : Eventpoll) (x polled : ℕ) (active : Bool)
    → Distinct ep.ready_list
    → Distinct (tcp_epoll_wakeup ep x polled active).ready_list
unfolding tcp_epoll_wakeup
wakeup-Distinct ep x polled active d = ground arith
