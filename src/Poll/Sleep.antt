-- ===== src/Poll/Sleep.antt =====
-- frontend/tcpha_fe_poll.c: `tcp_epoll_wait` and `tcp_epoll_wakeup` step by step. The herder is
-- interrupted between its steps, and the sockets wake their queues then. `wait_event_interruptible`
-- is the kernel's: it tests the condition, puts the herder on the queue, tests the condition again and
-- sleeps, until somebody who finds the herder on the queue wakes it. Nobody sends it a signal.
pub mod Lost
pub mod Refine
mod Examples
use tcphandoff.Common.{
  ℕ, zero, suc, ◌+◌, ◌-◌, ◌*◌, ◌/◌, ◌%◌, ◌^◌, ◌≤◌, ◌<◌, min, bit_and, bit_or, ◌≡◌, refl, sym, ap,
  ◌∙◌, subst, fun_ext, ◌≢◌, ◌↔◌, ◌⊎◌, inl, inr, Bool, true, false, not, ◌&&◌, ◌||◌, Option, none,
  some, List, [], ◌∷◌, ◌++◌, map, append-nil, append_assoc, arith, dec_lt, ℕ_discrete, ltb, leb,
  ◌==◌, if◌then◌else◌, ltb→lt, lt→ltb, leb→le, ==_iff, tests, Bool-cases, Option-cases, length,
  get_or, take, drop, replicate, All, length-append, length-take, take-append-drop, length-drop,
  length-replicate, take-append, get_or-append, get_or-take, All-append, All-left, All-right,
  All-mono, All-both, member, u32_mod, char_to_int, is_negative, Outcome, done, deadlock, fault,
  ◌>>=◌, Received, got, failed, write_at,
}
use tcphandoff.Poll.{
  Eventpoll, Item, tcp_epoll_check_events, tcp_epoll_wakeup, tcp_epoll_wait, sleep_if_empty,
  collect, add_item_to_readylist,
}
use tcphandoff.Poll.Ready.{Woken, tcp_epoll_wakeup_lem}
use tcphandoff.Poll.Wait.{wait-collect}

-- Where the herder is: before the test of the ready list; before the call of
-- `wait_event_interruptible`; on the queue `poll_wait`, about to test `should_wake`; on the queue
-- and asleep; before the second test of the ready list.
pub data Place : Type 0 where
  testing sleepy queued asleep awake : Place

abbrev pub Sleeper : Type 0
Sleeper = Place × Eventpoll

-- `waitqueue_active` of `poll_wait`.
abbrev pub waitqueue_active : Place → Bool
waitqueue_active testing = false
waitqueue_active sleepy = false
waitqueue_active queued = true
waitqueue_active asleep = true
waitqueue_active awake = false

-- `wake_up_all`: who sleeps tests the condition again.
abbrev pub wake_up_all : Place → Place
wake_up_all testing = testing
wake_up_all sleepy = sleepy
wake_up_all queued = queued
wake_up_all asleep = queued
wake_up_all awake = awake

-- The condition holds: the bit is cleared, and the herder goes on; else it goes on to `next`.
abbrev pub test_bit : Place → Eventpoll → Sleeper
test_bit next ep = if ep.should_wake then (awake, record ep { should_wake = false }) else (next, ep)

-- One step of the herder in `tcp_epoll_wait`; the call that follows begins where this one ends.
unfoldable pub herder_step : ℕ → Sleeper → Sleeper
unfolding collect
herder_step maxevents (testing, ep) = elim ep.ready_list [
  | [] ↦ (sleepy, ep)
  | x ∷ xs ↦ (awake, ep)
]
herder_step maxevents (sleepy, ep) = test_bit queued ep
herder_step maxevents (queued, ep) = test_bit asleep ep
herder_step maxevents (asleep, ep) = (asleep, ep)
herder_step maxevents (awake, ep) = (testing, (collect maxevents ep.ready_list ep).1)

-- The socket of item `x` wakes its queue.
pub wakeup_step : Sleeper → ℕ → ℕ → Sleeper
unfolding tcp_epoll_wakeup tcp_epoll_check_events
wakeup_step (place, ep) x polled =
    let mask = tcp_epoll_check_events (ep.item x) polled in
    (
      if mask == 0 then place else wake_up_all place,
      tcp_epoll_wakeup ep x polled (waitqueue_active place),
    )

pub data Event : Type 0 where
  herder : Event
  wakes : ℕ → ℕ → Event

pub step : ℕ → Sleeper → Event → Sleeper
unfolding herder_step wakeup_step
step maxevents s herder = herder_step maxevents s
step maxevents s (wakes x polled) = wakeup_step s x polled

pub steps : ℕ → List Event → Sleeper → Sleeper
unfolding step
steps maxevents [] s = s
steps maxevents (e ∷ es) s = steps maxevents es (step maxevents s e)

-- No event of interest occurs between the herder's test of the ready list and its place on the queue.
abbrev pub Quiet : Sleeper → Event → Type 0
Quiet s herder = Unit
Quiet s (wakes x polled) = s.0 ≡ sleepy → bit_and (s.1.item x).event_flags polled ≡ 0

abbrev pub Undisturbed : ℕ → List Event → Sleeper → Type 0
Undisturbed maxevents [] s = Unit
Undisturbed maxevents (e ∷ es) s = Quiet s e × Undisturbed maxevents es (step maxevents s e)

nonzero : (mask : ℕ) → mask ≢ 0 → (mask == 0) ≡ false
nonzero mask n = ground (arith, n)

pub wakeup_step-idle :
    (place : Place) (ep : Eventpoll) (x polled : ℕ)
    → bit_and (ep.item x).event_flags polled ≡ 0
    → wakeup_step (place, ep) x polled ≡ (place, ep)
unfolding wakeup_step tcp_epoll_check_events tcp_epoll_wakeup
wakeup_step-idle place ep x polled e = rw e refl

pub wakeup_step-wakes :
    (place : Place) (ep : Eventpoll) (x polled : ℕ)
    → bit_and (ep.item x).event_flags polled ≢ 0
    → wakeup_step (place, ep) x polled
      ≡ (wake_up_all place, tcp_epoll_wakeup ep x polled (waitqueue_active place))
unfolding wakeup_step tcp_epoll_check_events
wakeup_step-wakes place ep x polled n = rw (nonzero (bit_and (ep.item x).event_flags polled) n) refl

pub tests_ready :
    (maxevents : ℕ) (ep : Eventpoll)
    → ep.ready_list ≡ []
    → herder_step maxevents (testing, ep) ≡ (sleepy, ep)
unfolding herder_step
tests_ready maxevents ep r =
    ap (λ (xs : List ℕ). elim xs as (λ x. Sleeper) [ [] ↦ (sleepy, ep) | y ∷ ys ↦ (awake, ep) ]) r

-- The bit is not set: the herder gets onto the queue, and goes to sleep.
pub goes_asleep :
    (maxevents : ℕ) (ep : Eventpoll)
    → ep.should_wake ≡ false
    → (herder_step maxevents (sleepy, ep) ≡ (queued, ep))
      × (herder_step maxevents (queued, ep) ≡ (asleep, ep))
unfolding herder_step
goes_asleep maxevents ep w = (rw w refl, rw w refl)

pub sleepy-steps :
    (maxevents : ℕ) (es : List Event) (ep : Eventpoll)
    → ep.should_wake ≡ false
    → steps maxevents (herder ∷ herder ∷ es) (sleepy, ep) ≡ steps maxevents es (asleep, ep)
unfolding steps
sleepy-steps maxevents es ep w =
    let (on_queue, off) = goes_asleep maxevents ep w in
    ap (λ s. steps maxevents es (herder_step maxevents s)) on_queue ∙ ap (steps maxevents es) off
