-- ===== src/Poll/Sleep/Refine.antt =====
-- `tcp_epoll_wait` in one step and step by step.
use tcphandoff.Common.{
  ℕ, bit_and, ◌≡◌, refl, sym, ap, ◌∙◌, ◌≢◌, inl, inr, true, false, List, [], ◌∷◌, ◌++◌, map,
  ℕ_discrete, if◌then◌else◌, Bool-cases,
}
use tcphandoff.Poll.{Eventpoll, tcp_epoll_wakeup, tcp_epoll_wait, sleep_if_empty, collect}
use tcphandoff.Poll.Ready.{tcp_epoll_wakeup_lem}
use tcphandoff.Poll.Wait.{wait-collect}
use tcphandoff.Poll.Sleep.{
  Place, testing, sleepy, queued, asleep, awake, Sleeper, waitqueue_active, wake_up_all,
  herder_step, wakeup_step, Event, herder, wakes, steps, wakeup_step-idle, wakeup_step-wakes,
  tests_ready, sleepy-steps,
}

-- The wakeups that come while the herder sleeps.
abbrev pub woken_by : List (ℕ × ℕ) → Eventpoll → Eventpoll
woken_by [] ep = ep
woken_by ((x, polled) ∷ ws) ep = woken_by ws (tcp_epoll_wakeup ep x polled true)

abbrev pub wakeups : List (ℕ × ℕ) → List Event
wakeups ws = map (λ w. wakes w.0 w.1) ws

-- On the queue, and awake once the bit is set.
abbrev napping : Eventpoll → Place
napping ep = if ep.should_wake then queued else asleep

napping-woken :
    (ep : Eventpoll) → (wake_up_all (napping ep) ≡ queued) × (waitqueue_active (napping ep) ≡ true)
napping-woken ep = elim (Bool-cases ep.should_wake) [
  | inl e ↦ rw e (refl, refl)
  | inr e ↦ rw e (refl, refl)
]

wakeup_step-napping :
    (ep : Eventpoll) (x polled : ℕ)
    → let woken = tcp_epoll_wakeup ep x polled true in
      wakeup_step (napping ep, ep) x polled ≡ (napping woken, woken)
wakeup_step-napping ep x polled = elim (ℕ_discrete (bit_and (ep.item x).event_flags polled) 0) [
  | yes e ↦
      wakeup_step-idle (napping ep) ep x polled e
      ∙ ap (λ (t : Eventpoll). (napping t, t)) (sym ((tcp_epoll_wakeup_lem ep x polled true).0 e))
  | no n ↦
      let (woken, active) = napping-woken ep in
      let set = ((tcp_epoll_wakeup_lem ep x polled true).1 n).woken refl in
      wakeup_step-wakes (napping ep) ep x polled n ∙ rw (woken, active, set) refl
]

napping-steps :
    (maxevents : ℕ) (ws : List (ℕ × ℕ)) (es : List Event) (ep : Eventpoll)
    → steps maxevents (wakeups ws ++ es) (napping ep, ep)
      ≡ steps maxevents es (napping (woken_by ws ep), woken_by ws ep)
unfolding steps
napping-steps maxevents [] es ep = refl
napping-steps maxevents ((x, polled) ∷ ws) es ep =
    ap (steps maxevents (wakeups ws ++ es)) (wakeup_step-napping ep x polled)
    ∙ napping-steps maxevents ws es (tcp_epoll_wakeup ep x polled true)

-- From the queue, with the bit set, to the end of the call.
ends_nap :
    (maxevents : ℕ) (ep : Eventpoll)
    → ep.should_wake ≡ true
    → let up = record ep { should_wake = false } in
      steps maxevents (herder ∷ herder ∷ []) (napping ep, ep)
      ≡ (testing, (collect maxevents up.ready_list up).1)
unfolding steps herder_step
ends_nap maxevents ep w = rw w refl

asleep_wait :
    (ep : Eventpoll) (during : Eventpoll → Eventpoll)
    → ep.ready_list ≡ []
    → sleep_if_empty ep during ≡ record (during ep) { should_wake = false }
unfolding sleep_if_empty
asleep_wait ep during r = rw r refl

-- What the call returns is what the eventpoll has become, once the herder is awake.
wait-awake :
    (maxevents : ℕ) (ep up : Eventpoll) (during : Eventpoll → Eventpoll)
    → sleep_if_empty ep during ≡ up
    → (collect maxevents up.ready_list up).1 ≡ (tcp_epoll_wait ep maxevents during).1
wait-awake maxevents ep up during e =
    ap (λ (t : Eventpoll). (collect maxevents t.ready_list t).1) (sym e)
    ∙ ap (λ (p : List ℕ × Eventpoll). p.1) (sym (wait-collect ep maxevents during))

first-steps :
    (maxevents : ℕ) (es : List Event) (ep : Eventpoll)
    → ep.ready_list ≡ []
    → ep.should_wake ≡ false
    → steps maxevents (herder ∷ herder ∷ herder ∷ es) (testing, ep)
      ≡ steps maxevents es (napping ep, ep)
unfolding steps
first-steps maxevents es ep r w =
    ap (steps maxevents (herder ∷ herder ∷ es)) (tests_ready maxevents ep r)
    ∙ sleepy-steps maxevents es ep w
    ∙ rw w refl

slept_steps :
    (maxevents : ℕ) (ws : List (ℕ × ℕ)) (ep : Eventpoll)
    → ep.ready_list ≡ []
    → ep.should_wake ≡ false
    → (woken_by ws ep).should_wake ≡ true
    → steps maxevents
        (herder ∷ herder ∷ herder ∷ (wakeups ws ++ (herder ∷ herder ∷ [])))
        (testing, ep)
      ≡ (testing, (tcp_epoll_wait ep maxevents (woken_by ws)).1)
slept_steps maxevents ws ep r w woken =
    let up = record (woken_by ws ep) { should_wake = false } in
    first-steps maxevents (wakeups ws ++ (herder ∷ herder ∷ [])) ep r w
    ∙ napping-steps maxevents ws (herder ∷ herder ∷ []) ep
    ∙ ends_nap maxevents (woken_by ws ep) woken
    ∙ ap (λ (t : Eventpoll). (testing, t))
        (wait-awake maxevents ep up (woken_by ws) (asleep_wait ep (woken_by ws) r))

ready_steps :
    (maxevents : ℕ) (xs : List ℕ) (ep : Eventpoll)
    → ep.ready_list ≡ xs
    → xs ≢ []
    → steps maxevents (herder ∷ herder ∷ []) (testing, ep)
      ≡ (testing, (collect maxevents ep.ready_list ep).1)
unfolding steps herder_step
ready_steps maxevents [] ep r n = absurd (n refl)
ready_steps maxevents (x ∷ xs) ep r n =
    ap
      (λ (ys : List ℕ).
        herder_step maxevents
          (elim ys as (λ x. Sleeper) [ [] ↦ (sleepy, ep) | y ∷ zs ↦ (awake, ep) ]))
      r

ready_wait :
    (ep : Eventpoll) (xs : List ℕ) (during : Eventpoll → Eventpoll)
    → ep.ready_list ≡ xs
    → xs ≢ []
    → sleep_if_empty ep during ≡ ep
unfolding sleep_if_empty
ready_wait ep [] during r n = absurd (n refl)
ready_wait ep (x ∷ xs) during r n = rw r refl

-- `tcp_epoll_wait`, in which the sleep is one function, is what its steps make when the wakeups come
-- while the herder sleeps: where the ready list is not empty, by the test and the collection; where it
-- is empty and `should_wake` is not set, by the way to sleep, the wakeups, after which `should_wake` is
-- set, and the way back.
pub steps_refine_wait :
    (maxevents : ℕ) (ws : List (ℕ × ℕ)) (ep : Eventpoll)
    → (ep.ready_list ≢ []
        → steps maxevents (herder ∷ herder ∷ []) (testing, ep)
          ≡ (testing, (tcp_epoll_wait ep maxevents (woken_by ws)).1))
      × (ep.ready_list ≡ []
          → ep.should_wake ≡ false
          → (woken_by ws ep).should_wake ≡ true
          → steps maxevents
              (herder ∷ herder ∷ herder ∷ (wakeups ws ++ (herder ∷ herder ∷ [])))
              (testing, ep)
            ≡ (testing, (tcp_epoll_wait ep maxevents (woken_by ws)).1))
steps_refine_wait maxevents ws ep = (
  λ n.
      ready_steps maxevents ep.ready_list ep refl n
      ∙ ap (λ (t : Eventpoll). (testing, t))
          (wait-awake maxevents ep ep (woken_by ws)
            (ready_wait ep ep.ready_list (woken_by ws) refl n)),
  λ r w woken. slept_steps maxevents ws ep r w woken,
)
