-- ===== src/Herder/Stop/Ending.antt =====
-- A herder that cannot fail to see that it is to end, and its steps to the end.
use tcphandoff.Common.{
  ℕ, suc, ◌+◌, ◌≤◌, bit_and, ◌≡◌, refl, ap, ◌⊎◌, inl, inr, Bool, true, List, [], ◌∷◌, arith,
  ℕ_discrete,
}
use tcphandoff.Poll.{Eventpoll, tcp_epoll_wakeup}
use tcphandoff.Poll.Sleep.{
  Place, testing, sleepy, queued, asleep, awake, Sleeper, waitqueue_active, wake_up_all,
  herder_step, wakeup_step, wakeup_step-idle, wakeup_step-wakes,
}
use tcphandoff.Herder.Stop.{
  Spot, looping, ended, waiting, HerderTask, run_at, wakes_at, wait_at, process_items,
  wake_up_process, Turn, runs, sets_bit, stops, wakes, turn, turns,
}

-- A wakeup leaves the bit where it is set.
pub wakeup-should_wake :
    (ep : Eventpoll) (x polled : ℕ) (active : Bool)
    → ep.should_wake ≡ true
    → (tcp_epoll_wakeup ep x polled active).should_wake ≡ true
unfolding tcp_epoll_wakeup
wakeup-should_wake ep x polled active w = ground arith

pub wakeup_step-cases :
    (place : Place) (ep : Eventpoll) (x polled : ℕ)
    → (wakeup_step (place, ep) x polled ≡ (place, ep))
      ⊎ (wakeup_step (place, ep) x polled
          ≡ (wake_up_all place, tcp_epoll_wakeup ep x polled (waitqueue_active place)))
wakeup_step-cases place ep x polled = elim (ℕ_discrete (bit_and (ep.item x).event_flags polled) 0) [
  | yes e ↦ inl (wakeup_step-idle place ep x polled e)
  | no n ↦ inr (wakeup_step-wakes place ep x polled n)
]

-- Where the herder is when it cannot fail to see that it is to end: it has passed every sleep, or the
-- bit is set.
abbrev pub Heeds : Spot → Bool → Type 0
Heeds looping bit = Unit
Heeds ended bit = Unit
Heeds (waiting testing) bit = bit ≡ true
Heeds (waiting sleepy) bit = bit ≡ true
Heeds (waiting queued) bit = bit ≡ true
Heeds (waiting asleep) bit = ⊥
Heeds (waiting awake) bit = Unit

-- The herder's steps from there to its end, at most.
abbrev pub left : Spot → ℕ
left looping = 1
left ended = 0
left (waiting testing) = 4
left (waiting sleepy) = 3
left (waiting queued) = 3
left (waiting asleep) = 0
left (waiting awake) = 2

pub record Ending (most : ℕ) (s : HerderTask) : Type 0 where
  pub told : s.should_stop ≡ true
  pub heeds : Heeds s.spot s.eventpoll.should_wake
  pub soon : left s.spot ≤ most

test-Ending :
    (most : ℕ) (xs : List ℕ) (s : HerderTask)
    → s.should_stop ≡ true
    → s.eventpoll.should_wake ≡ true
    → 3 ≤ most
    → Ending most (
        wait_at
          (elim xs as (λ x. Sleeper) [ [] ↦ (sleepy, s.eventpoll) | y ∷ ys ↦ (awake, s.eventpoll) ])
          s)
test-Ending most [] s told bit m = record { told = told; heeds = bit; soon = m }
test-Ending most (x ∷ xs) s told bit m = record { told = told; heeds = tt; soon = omega arith }

process_items_lem :
    (r : List ℕ × Eventpoll) (s : HerderTask)
    → ((process_items r s).spot ≡ looping) × ((process_items r s).should_stop ≡ s.should_stop)
unfolding process_items
process_items_lem r s = (refl, refl)

at-Ending :
    (spot : Spot) (s : HerderTask) {most : ℕ}
    → s.spot ≡ spot
    → s.should_stop ≡ true
    → Heeds spot s.eventpoll.should_wake
    → left spot ≤ suc most
    → Ending most (run_at spot s)
unfolding run_at herder_step process_items
at-Ending looping s at told h l = rw told (record { told = refl; heeds = tt; soon = omega arith })
at-Ending ended s at told h l = record { told = told; heeds = rw at tt; soon = rw at (omega arith) }
at-Ending (waiting testing) s {most} at told h l =
    test-Ending most s.eventpoll.ready_list s told h (omega (arith, l))
at-Ending (waiting sleepy) s at told h l =
    rw h (record { told = told; heeds = tt; soon = omega (arith, l) })
at-Ending (waiting queued) s at told h l =
    rw h (record { told = told; heeds = tt; soon = omega (arith, l) })
at-Ending (waiting asleep) s at told h l = absurd h
at-Ending (waiting awake) s at told h l = record {
  told = told;
  heeds = tt;
  soon = omega (arith, l);
}

woken-Heeds : (place : Place) (bit : Bool) → Heeds (waiting place) bit → wake_up_all place ≡ place
woken-Heeds testing bit h = refl
woken-Heeds sleepy bit h = refl
woken-Heeds queued bit h = refl
woken-Heeds asleep bit h = absurd h
woken-Heeds awake bit h = refl

Heeds-mono :
    (spot : Spot) (bit bit' : Bool) → (bit ≡ true → bit' ≡ true) → Heeds spot bit → Heeds spot bit'
Heeds-mono looping bit bit' f h = tt
Heeds-mono ended bit bit' f h = tt
Heeds-mono (waiting testing) bit bit' f h = f h
Heeds-mono (waiting sleepy) bit bit' f h = f h
Heeds-mono (waiting queued) bit bit' f h = f h
Heeds-mono (waiting asleep) bit bit' f h = h
Heeds-mono (waiting awake) bit bit' f h = tt

kept-Ending :
    (spot : Spot) (s : HerderTask) {most : ℕ} (ep : Eventpoll)
    → s.should_stop ≡ true
    → (s.eventpoll.should_wake ≡ true → ep.should_wake ≡ true)
    → Heeds spot s.eventpoll.should_wake
    → left spot ≤ most
    → Ending most (record s { spot = spot; eventpoll = ep })
kept-Ending spot s ep told f h l = record {
  told = told;
  heeds = Heeds-mono spot s.eventpoll.should_wake ep.should_wake f h;
  soon = l;
}

wakes-Ending :
    (spot : Spot) (s : HerderTask) (x polled : ℕ) {most : ℕ}
    → s.spot ≡ spot
    → s.should_stop ≡ true
    → Heeds spot s.eventpoll.should_wake
    → left spot ≤ most
    → Ending most (wakes_at spot s x polled)
unfolding wakes_at
wakes-Ending looping s x polled at told h l = record {
  told = told;
  heeds = rw at tt;
  soon = rw at l;
}
wakes-Ending ended s x polled at told h l = record { told = told; heeds = rw at tt; soon = rw at l }
wakes-Ending (waiting place) s x polled at told h l =
    elim (wakeup_step-cases place s.eventpoll x polled) [
      | inl e ↦ rw e (kept-Ending (waiting place) s s.eventpoll told (λ b. b) h l)
      | inr e ↦
          rw (e, woken-Heeds place s.eventpoll.should_wake h)
            (kept-Ending (waiting place) s
              (tcp_epoll_wakeup s.eventpoll x polled (waitqueue_active place)) told
              (wakeup-should_wake s.eventpoll x polled (waitqueue_active place)) h l)
    ]

pub stopped-Heeds : (spot : Spot) (bit : Bool) → Heeds spot bit → wake_up_process spot ≡ spot
stopped-Heeds looping bit h = refl
stopped-Heeds ended bit h = refl
stopped-Heeds (waiting place) bit h = ap waiting (woken-Heeds place bit h)

abbrev is_run : Turn → ℕ
is_run runs = 1
is_run sets_bit = 0
is_run stops = 0
is_run (wakes x polled) = 0

-- The steps that the herder takes.
abbrev pub run_count : List Turn → ℕ
run_count [] = 0
run_count (t ∷ ts) = is_run t + run_count ts

turn-Ending :
    (t : Turn) (s : HerderTask) (most : ℕ) → Ending (is_run t + most) s → Ending most (turn s t)
unfolding turn
turn-Ending runs s most e = at-Ending s.spot s refl e.told e.heeds (omega (arith, e.soon))
turn-Ending sets_bit s most e =
    kept-Ending s.spot s (record (s.eventpoll) { should_wake = true }) e.told (λ b. refl) e.heeds
      (omega (arith, e.soon))
turn-Ending stops s most e =
    rw (stopped-Heeds s.spot s.eventpoll.should_wake e.heeds)
      (record { told = refl; heeds = e.heeds; soon = omega (arith, e.soon) })
turn-Ending (wakes x polled) s most e =
    wakes-Ending s.spot s x polled refl e.told e.heeds (omega (arith, e.soon))

pub turns-Ending :
    (ts : List Turn) (s : HerderTask) (most : ℕ)
    → Ending (run_count ts + most) s
    → Ending most (turns ts s)
unfolding turns
turns-Ending [] s most e = record { told = e.told; heeds = e.heeds; soon = omega (arith, e.soon) }
turns-Ending (t ∷ ts) s most e = turns-Ending ts (turn s t) most (
    turn-Ending t s (run_count ts + most)
      (record { told = e.told; heeds = e.heeds; soon = omega (arith, e.soon) }))

pub Ending-ended : (s : HerderTask) → Ending 0 s → s.spot ≡ ended
Ending-ended s e = at_end s.spot e.heeds e.soon
  where
    at_end : (spot : Spot) → Heeds spot s.eventpoll.should_wake → left spot ≤ 0 → spot ≡ ended
    at_end looping h l = absurd (omega (arith, l))
    at_end ended h l = refl
    at_end (waiting testing) h l = absurd (omega (arith, l))
    at_end (waiting sleepy) h l = absurd (omega (arith, l))
    at_end (waiting queued) h l = absurd (omega (arith, l))
    at_end (waiting asleep) h l = absurd h
    at_end (waiting awake) h l = absurd (omega (arith, l))
