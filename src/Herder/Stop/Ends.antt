-- ===== src/Herder/Stop/Ends.antt =====
-- The herder that is stopped ends, if it takes no step between the bit and the flag.
use tcphandoff.Common.{
  ℕ, ◌≤◌, ◌≡◌, refl, ap, ◌∙◌, inl, inr, Bool, true, false, List, [], ◌∷◌, ◌++◌, arith,
}
use tcphandoff.Poll.Sleep.{testing, sleepy, queued, asleep, awake, waitqueue_active}
use tcphandoff.Herder.Stop.{
  Spot, looping, ended, waiting, HerderTask, wakes_at, set_should_wake, wake_up_process,
  kthread_stop, Turn, runs, sets_bit, stops, wakes, turn, turns, turns-append,
}
use tcphandoff.Herder.Stop.Ending.{
  Heeds, left, run_count, wakeup-should_wake, wakeup_step-cases, turns-Ending, Ending-ended,
}

wakes-should_wake :
    (spot : Spot) (s : HerderTask) (x polled : ℕ)
    → s.eventpoll.should_wake ≡ true
    → (wakes_at spot s x polled).eventpoll.should_wake ≡ true
unfolding wakes_at
wakes-should_wake looping s x polled b = wakeup-should_wake s.eventpoll x polled false b
wakes-should_wake ended s x polled b = wakeup-should_wake s.eventpoll x polled false b
wakes-should_wake (waiting place) s x polled b =
    elim (wakeup_step-cases place s.eventpoll x polled) [
      | inl e ↦ rw e b
      | inr e ↦ rw e (wakeup-should_wake s.eventpoll x polled (waitqueue_active place) b)
    ]

turns-should_wake :
    (ts : List Turn) (s : HerderTask)
    → run_count ts ≡ 0
    → s.eventpoll.should_wake ≡ true
    → (turns ts s).eventpoll.should_wake ≡ true
unfolding turns turn
turns-should_wake [] s still b = b
turns-should_wake (runs ∷ ts) s still b = absurd (omega (arith, still))
turns-should_wake (sets_bit ∷ ts) s still b =
    turns-should_wake ts (set_should_wake s) (omega (arith, still)) refl
turns-should_wake (stops ∷ ts) s still b =
    turns-should_wake ts (kthread_stop s) (omega (arith, still)) b
turns-should_wake (wakes x polled ∷ ts) s still b =
    turns-should_wake ts (wakes_at s.spot s x polled) (omega (arith, still))
      (wakes-should_wake s.spot s x polled b)

set-Heeds : (spot : Spot) (bit : Bool) → bit ≡ true → Heeds (wake_up_process spot) bit
set-Heeds looping bit b = tt
set-Heeds ended bit b = tt
set-Heeds (waiting testing) bit b = b
set-Heeds (waiting sleepy) bit b = b
set-Heeds (waiting queued) bit b = b
set-Heeds (waiting asleep) bit b = b
set-Heeds (waiting awake) bit b = tt

left-le_four : (spot : Spot) → left spot ≤ 4
left-le_four looping = omega arith
left-le_four ended = omega arith
left-le_four (waiting testing) = omega arith
left-le_four (waiting sleepy) = omega arith
left-le_four (waiting queued) = omega arith
left-le_four (waiting asleep) = omega arith
left-le_four (waiting awake) = omega arith

-- Four steps are enough.
pub four_runs_end :
    (after : List Turn) (s : HerderTask)
    → Heeds (wake_up_process s.spot) s.eventpoll.should_wake
    → 4 ≤ run_count after
    → (turns (stops ∷ after) s).spot ≡ ended
unfolding turns turn
four_runs_end after s h enough = Ending-ended (turns after (kthread_stop s)) (
    turns-Ending after (kthread_stop s) 0 (record {
      told = refl;
      heeds = h;
      soon = omega (arith, left-le_four (wake_up_process s.spot), enough);
    }))

-- A herder that takes no step between `set_bit` and `kthread_stop` ends: wherever it was, and whatever
-- the sockets do in between and after, four of its own steps are enough, so that `kthread_stop` comes back.
pub stopped_ends :
    (between after : List Turn) (s : HerderTask)
    → run_count between ≡ 0
    → 4 ≤ run_count after
    → (turns (sets_bit ∷ (between ++ (stops ∷ after))) s).spot ≡ ended
unfolding turns turn
stopped_ends between after s still enough =
    let set = turns between (set_should_wake s) in
    let bit = turns-should_wake between (set_should_wake s) still refl in
    ap (λ (t : HerderTask). t.spot) (turns-append between (stops ∷ after) (set_should_wake s))
    ∙ four_runs_end after set (set-Heeds set.spot set.eventpoll.should_wake bit) enough
