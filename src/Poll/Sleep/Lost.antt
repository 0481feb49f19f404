-- ===== src/Poll/Sleep/Lost.antt =====
-- The herder sleeps while items are ready only where an event came too early for it.
use tcphandoff.Common.{
  ℕ, zero, suc, bit_and, ◌≡◌, refl, ap, ◌∙◌, subst, ◌≢◌, ◌⊎◌, inl, inr, true, false, List, [], ◌∷◌,
  arith, ℕ_discrete, Bool-cases, replicate, member,
}
use tcphandoff.Poll.{Eventpoll, tcp_epoll_wakeup}
use tcphandoff.Poll.Ready.{tcp_epoll_wakeup_lem}
use tcphandoff.Poll.Sleep.{
  Place, testing, sleepy, queued, asleep, awake, Sleeper, waitqueue_active, wake_up_all,
  herder_step, wakeup_step, Event, herder, wakes, steps, Quiet, Undisturbed, wakeup_step-idle,
  wakeup_step-wakes, tests_ready, sleepy-steps,
}

-- What the herder has seen is still so, or it will be told.
abbrev pub IsAlert : Place → Eventpoll → Type 0
IsAlert testing ep = Unit
IsAlert sleepy ep = ep.ready_list ≡ []
IsAlert queued ep = (ep.ready_list ≡ []) ⊎ (ep.should_wake ≡ true)
IsAlert asleep ep = ep.ready_list ≡ []
IsAlert awake ep = Unit

test_ready-IsAlert :
    (xs : List ℕ) (ep : Eventpoll)
    → ep.ready_list ≡ xs
    → let s : Sleeper = elim xs [ [] ↦ (sleepy, ep) | y ∷ ys ↦ (awake, ep) ] in IsAlert s.0 s.1
test_ready-IsAlert [] ep e = e
test_ready-IsAlert (x ∷ xs) ep e = tt

herder-IsAlert :
    (maxevents : ℕ) (place : Place) (ep : Eventpoll)
    → IsAlert place ep
    → let s = herder_step maxevents (place, ep) in IsAlert s.0 s.1
unfolding herder_step
herder-IsAlert maxevents testing ep a = test_ready-IsAlert ep.ready_list ep refl
herder-IsAlert maxevents sleepy ep a = elim (Bool-cases ep.should_wake) [
  | inl e ↦ rw e tt
  | inr e ↦ rw e (inl a)
]
herder-IsAlert maxevents queued ep a = elim (Bool-cases ep.should_wake) [
  | inl e ↦ rw e tt
  | inr e ↦ rw e (elim a [ inl r ↦ r | inr w ↦ absurd (cc) ])
]
herder-IsAlert maxevents asleep ep a = a
herder-IsAlert maxevents awake ep a = tt

woken-IsAlert :
    (place : Place) (ep : Eventpoll) (x polled : ℕ)
    → bit_and (ep.item x).event_flags polled ≢ 0
    → place ≢ sleepy
    → IsAlert (wake_up_all place) (tcp_epoll_wakeup ep x polled (waitqueue_active place))
woken-IsAlert testing ep x polled n q = tt
woken-IsAlert sleepy ep x polled n q = absurd (q refl)
woken-IsAlert queued ep x polled n q =
    inr (((tcp_epoll_wakeup_lem ep x polled true).1 n).woken refl)
woken-IsAlert asleep ep x polled n q =
    inr (((tcp_epoll_wakeup_lem ep x polled true).1 n).woken refl)
woken-IsAlert awake ep x polled n q = tt

wakeup-IsAlert :
    (place : Place) (ep : Eventpoll) (x polled : ℕ)
    → Quiet (place, ep) (wakes x polled)
    → IsAlert place ep
    → let s = wakeup_step (place, ep) x polled in IsAlert s.0 s.1
wakeup-IsAlert place ep x polled q a =
    elim (ℕ_discrete (bit_and (ep.item x).event_flags polled) 0) [
      | yes e ↦ rw (wakeup_step-idle place ep x polled e) a
      | no n ↦
          rw (wakeup_step-wakes place ep x polled n)
            (woken-IsAlert place ep x polled n (λ e. n (q e)))
    ]

steps-IsAlert :
    (maxevents : ℕ) (es : List Event) (s : Sleeper)
    → Undisturbed maxevents es s
    → IsAlert s.0 s.1
    → let t = steps maxevents es s in IsAlert t.0 t.1
unfolding steps
steps-IsAlert maxevents [] s u a = a
steps-IsAlert maxevents (herder ∷ es) s u a =
    steps-IsAlert maxevents es (herder_step maxevents s) u.1 (herder-IsAlert maxevents s.0 s.1 a)
steps-IsAlert maxevents (wakes x polled ∷ es) s u a =
    steps-IsAlert maxevents es (wakeup_step s x polled) u.1 (wakeup-IsAlert s.0 s.1 x polled u.0 a)

asleep-ready : (s : Sleeper) → IsAlert s.0 s.1 → s.0 ≡ asleep → s.1.ready_list ≡ []
asleep-ready s a e = subst (λ p. IsAlert p s.1) e a

-- A herder does not sleep while an item is on the ready list: this holds however its steps and the
-- wakeups of the sockets follow each other, from the test of the ready list in one `tcp_epoll_wait` on,
-- where no event of interest occurs between such a test and the herder's place on the queue.
pub asleep_only_idle :
    (maxevents : ℕ) (es : List Event) (ep : Eventpoll)
    → Undisturbed maxevents es (testing, ep)
    → (steps maxevents es (testing, ep)).0 ≡ asleep
    → (steps maxevents es (testing, ep)).1.ready_list ≡ []
asleep_only_idle maxevents es ep u e =
    asleep-ready (steps maxevents es (testing, ep)) (steps-IsAlert maxevents es (testing, ep) u tt)
      e

steps-replicate_asleep :
    (maxevents n : ℕ) (ep : Eventpoll)
    → steps maxevents (replicate n herder) (asleep, ep) ≡ (asleep, ep)
unfolding steps herder_step
steps-replicate_asleep maxevents zero ep = refl
steps-replicate_asleep maxevents (suc n) ep = steps-replicate_asleep maxevents n ep

disturbed-steps :
    (maxevents : ℕ) (es : List Event) (ep : Eventpoll) (x polled : ℕ)
    → ep.ready_list ≡ []
    → bit_and (ep.item x).event_flags polled ≢ 0
    → steps maxevents (herder ∷ wakes x polled ∷ es) (testing, ep)
      ≡ steps maxevents es (sleepy, tcp_epoll_wakeup ep x polled false)
unfolding steps
disturbed-steps maxevents es ep x polled r nz =
    ap (λ s. steps maxevents es (wakeup_step s x polled)) (tests_ready maxevents ep r)
    ∙ ap (steps maxevents es) (wakeup_step-wakes sleepy ep x polled nz)

wakeup-should_wake :
    (ep : Eventpoll) (x polled : ℕ)
    → (tcp_epoll_wakeup ep x polled false).should_wake ≡ ep.should_wake
unfolding tcp_epoll_wakeup
wakeup-should_wake ep x polled = ground arith

-- The event of interest that occurs after the herder has found the ready list empty, and before it is
-- on the queue, is lost: the herder goes to sleep with the item on the ready list, and takes no step of
-- its own that wakes it. `should_wake` is not set before.
pub steps_disturbed :
    (maxevents n : ℕ) (ep : Eventpoll) (x polled : ℕ)
    → ep.ready_list ≡ []
    → ep.should_wake ≡ false
    → bit_and (ep.item x).event_flags polled ≢ 0
    → let s =
        steps maxevents
          (herder ∷ wakes x polled ∷ herder ∷ herder ∷ replicate n herder)
          (testing, ep) in
      (s.0 ≡ asleep) × (member x s.1.ready_list ≡ true)
steps_disturbed maxevents n ep x polled r w nz =
    let woken = tcp_epoll_wakeup ep x polled false in
    let ends =
      disturbed-steps maxevents (herder ∷ herder ∷ replicate n herder) ep x polled r nz
      ∙ sleepy-steps maxevents (replicate n herder) woken (wakeup-should_wake ep x polled ∙ w)
      ∙ steps-replicate_asleep maxevents n woken in
    rw ends (refl, ((tcp_epoll_wakeup_lem ep x polled false).1 nz).listed)
