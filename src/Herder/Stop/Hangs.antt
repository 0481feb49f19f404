-- ===== src/Herder/Stop/Hangs.antt =====
-- The herder that finds the bit before it is told to stop sleeps on.
use tcphandoff.Common.{
  ℕ, zero, suc, ◌≤◌, bit_and, ◌≡◌, refl, sym, ap, ◌∙◌, subst, ◌≢◌, false, List, [], ◌∷◌, ◌++◌,
  arith, replicate, All,
}
use tcphandoff.Poll.{Eventpoll, Item, collect}
use tcphandoff.Poll.Sleep.{
  Place, testing, sleepy, queued, asleep, awake, Sleeper, wake_up_all, herder_step,
  wakeup_step-idle,
}
use tcphandoff.Herder.{max_events}
use tcphandoff.Herder.Stop.Ends.{four_runs_end}
use tcphandoff.Herder.Stop.Ending.{Heeds, run_count}
use tcphandoff.Herder.Run.{queue_events}
use tcphandoff.Herder.Stop.{
  Spot, looping, ended, waiting, HerderTask, run_at, wakes_at, wait_at, process_items,
  wake_up_process, Turn, runs, sets_bit, stops, wakes, turn, turns, turns-append,
}

-- The herder finds nothing ready and goes to sleep, or sleeps.
abbrev IsDeafAt : Place → Type 0
IsDeafAt testing = Unit
IsDeafAt sleepy = Unit
IsDeafAt queued = Unit
IsDeafAt asleep = Unit
IsDeafAt awake = ⊥

record IsDeaf (ep : Eventpoll) (s : HerderTask) : Type 0 where
  place : Place
  there : s.spot ≡ waiting place
  deaf : IsDeafAt place
  same : s.eventpoll ≡ ep

-- What may happen without an event of interest.
abbrev pub IsIdle : (ℕ → Item) → Turn → Type 0
IsIdle item runs = Unit
IsIdle item sets_bit = ⊥
IsIdle item stops = Unit
IsIdle item (wakes x polled) = bit_and (item x).event_flags polled ≡ 0

module _ (ep : Eventpoll) (r : ep.ready_list ≡ []) (w : ep.should_wake ≡ false) where
  herder_step-IsDeaf :
      (place : Place)
      → IsDeafAt place
      → (q : Place) × (herder_step max_events (place, ep) ≡ (q, ep)) × IsDeafAt q
  unfolding herder_step
  herder_step-IsDeaf testing d = (
    sleepy,
    ap (λ (xs : List ℕ). elim xs as (λ x. Sleeper) [ [] ↦ (sleepy, ep) | y ∷ ys ↦ (awake, ep) ]) r,
    tt,
  )
  herder_step-IsDeaf sleepy d = (queued, rw w refl, tt)
  herder_step-IsDeaf queued d = (asleep, rw w refl, tt)
  herder_step-IsDeaf asleep d = (asleep, refl, tt)
  herder_step-IsDeaf awake d = absurd d

  run_at-wait :
      (place : Place) (s : HerderTask)
      → IsDeafAt place
      → run_at (waiting place) s ≡ wait_at (herder_step max_events (place, s.eventpoll)) s
  unfolding run_at
  run_at-wait testing s d = refl
  run_at-wait sleepy s d = refl
  run_at-wait queued s d = refl
  run_at-wait asleep s d = refl
  run_at-wait awake s d = absurd d

  waits-IsDeaf :
      (p : Sleeper) (place : Place) (s : HerderTask)
      → p ≡ (place, ep)
      → IsDeafAt place
      → IsDeaf ep (wait_at p s)
  waits-IsDeaf p place s e d =
      subst (λ t. IsDeaf ep (wait_at t s)) (sym e)
        (record { place = place; there = refl; deaf = d; same = refl })

  run-IsDeaf : (s : HerderTask) → IsDeaf ep s → IsDeaf ep (run_at s.spot s)
  run-IsDeaf s d =
      let (q, e, dq) = herder_step-IsDeaf d.place d.deaf in
      let steps : herder_step max_events (d.place, s.eventpoll) ≡ (q, ep) =
        ap (λ (k : Eventpoll). herder_step max_events (d.place, k)) d.same ∙ e in
      subst (λ (t : Spot). IsDeaf ep (run_at t s)) (sym d.there)
        (subst (IsDeaf ep) (sym (run_at-wait d.place s d.deaf))
          (waits-IsDeaf (herder_step max_events (d.place, s.eventpoll)) q s steps dq))

  wake-IsDeafAt : (place : Place) → IsDeafAt place → IsDeafAt (wake_up_all place)
  wake-IsDeafAt testing d = tt
  wake-IsDeafAt sleepy d = tt
  wake-IsDeafAt queued d = tt
  wake-IsDeafAt asleep d = tt
  wake-IsDeafAt awake d = d

  wakes_at-idle :
      (place : Place) (s : HerderTask) (x polled : ℕ)
      → s.eventpoll ≡ ep
      → bit_and (ep.item x).event_flags polled ≡ 0
      → wakes_at (waiting place) s x polled ≡ wait_at (place, s.eventpoll) s
  unfolding wakes_at
  wakes_at-idle place s x polled same e =
      ap (λ (p : Sleeper). wait_at p s) (wakeup_step-idle place s.eventpoll x polled (rw same e))

  turn-IsDeaf : (t : Turn) (s : HerderTask) → IsIdle ep.item t → IsDeaf ep s → IsDeaf ep (turn s t)
  unfolding turn
  turn-IsDeaf runs s i d = run-IsDeaf s d
  turn-IsDeaf sets_bit s i d = absurd i
  turn-IsDeaf stops s i d = record {
    place = wake_up_all d.place;
    there = ap wake_up_process d.there;
    deaf = wake-IsDeafAt d.place d.deaf;
    same = d.same;
  }
  turn-IsDeaf (wakes x polled) s i d =
      subst (λ (t : Spot). IsDeaf ep (wakes_at t s x polled)) (sym d.there)
        (subst (IsDeaf ep) (sym (wakes_at-idle d.place s x polled d.same i)) (
          waits-IsDeaf (d.place, s.eventpoll) d.place s
            (ap (λ (k : Eventpoll). (d.place, k)) d.same) d.deaf))

  turns-IsDeaf :
      (ts : List Turn) (s : HerderTask)
      → All (IsIdle ep.item) ts
      → IsDeaf ep s
      → IsDeaf ep (turns ts s)
  unfolding turns
  turns-IsDeaf [] s i d = d
  turns-IsDeaf (t ∷ ts) s i d = turns-IsDeaf ts (turn s t) i.1 (turn-IsDeaf t s i.0 d)

IsDeaf-ended : (ep : Eventpoll) (s : HerderTask) → IsDeaf ep s → s.spot ≢ ended
IsDeaf-ended ep s d e = cc (d.there, e)

abbrev quiet : Eventpoll → Eventpoll
quiet ep = record ep { ready_list = []; should_wake = false }

-- The herder at the top of its loop, with nothing ready.
module _ (ep : Eventpoll) (r : ep.ready_list ≡ []) where
  -- In five steps it has seen the bit, and is in `tcp_epoll_wait` again.
  five_runs :
      (s : HerderTask)
      → s.spot ≡ looping
      → s.should_stop ≡ false
      → s.eventpoll ≡ ep
      → IsDeaf (quiet ep) (turns (sets_bit ∷ replicate 5 runs) s)
  unfolding turns turn run_at herder_step process_items collect queue_events
  five_runs s at alive same =
      let e : s.eventpoll ≡ record ep { ready_list = [] } =
        same ∙ λ i. record ep { ready_list = r i } in
      rw (at, alive, e) (record { place = testing; there = refl; deaf = tt; same = refl })

  few_runs :
      (k : ℕ) (s : HerderTask)
      → k ≤ 4
      → s.spot ≡ looping
      → s.should_stop ≡ false
      → s.eventpoll ≡ ep
      → let t = turns (sets_bit ∷ replicate k runs) s in
        Heeds (wake_up_process t.spot) t.eventpoll.should_wake
  unfolding turns turn run_at herder_step process_items collect queue_events
  few_runs zero s few at alive same = rw at tt
  few_runs (suc zero) s few at alive same = rw (at, alive) refl
  few_runs (suc (suc zero)) s few at alive same =
      let e : s.eventpoll ≡ record ep { ready_list = [] } =
        same ∙ λ i. record ep { ready_list = r i } in
      rw (at, alive, e) refl
  few_runs (suc (suc (suc zero))) s few at alive same =
      let e : s.eventpoll ≡ record ep { ready_list = [] } =
        same ∙ λ i. record ep { ready_list = r i } in
      rw (at, alive, e) tt
  few_runs (suc (suc (suc (suc zero)))) s few at alive same =
      let e : s.eventpoll ≡ record ep { ready_list = [] } =
        same ∙ λ i. record ep { ready_list = r i } in
      rw (at, alive, e) tt
  few_runs (suc (suc (suc (suc (suc k))))) s few at alive same = absurd (omega (arith, few))

replicate-IsIdle : (k : ℕ) (item : ℕ → Item) → All (IsIdle item) (replicate k runs)
replicate-IsIdle zero item = tt
replicate-IsIdle (suc k) item = (tt, replicate-IsIdle k item)

many_runs :
    (k : ℕ) (s : HerderTask)
    → 5 ≤ k
    → s.spot ≡ looping
    → s.should_stop ≡ false
    → s.eventpoll.ready_list ≡ []
    → IsDeaf (quiet s.eventpoll) (turns (sets_bit ∷ replicate k runs) s)
unfolding turns
many_runs zero s many at alive r = absurd (omega (arith, many))
many_runs (suc zero) s many at alive r = absurd (omega (arith, many))
many_runs (suc (suc zero)) s many at alive r = absurd (omega (arith, many))
many_runs (suc (suc (suc zero))) s many at alive r = absurd (omega (arith, many))
many_runs (suc (suc (suc (suc zero)))) s many at alive r = absurd (omega (arith, many))
many_runs (suc (suc (suc (suc (suc k))))) s many at alive r =
    turns-IsDeaf (quiet s.eventpoll) refl refl (replicate k runs)
      (turns (sets_bit ∷ replicate 5 runs) s) (replicate-IsIdle k s.eventpoll.item)
      (five_runs s.eventpoll r s at alive refl)

-- A herder at the top of its loop, with nothing ready, that is stopped in the way of
-- `destroy_connection_herders`, while no event of interest occurs, ends if it takes at most four steps
-- between `set_bit` and `kthread_stop`, four more being enough; else it has not ended, however many
-- steps it takes after that.
pub stop_cases :
    (k : ℕ) (after : List Turn) (s : HerderTask)
    → s.spot ≡ looping
    → s.should_stop ≡ false
    → s.eventpoll.ready_list ≡ []
    → All (IsIdle s.eventpoll.item) after
    → let t = turns (sets_bit ∷ (replicate k runs ++ (stops ∷ after))) s in
      (k ≤ 4 → 4 ≤ run_count after → t.spot ≡ ended) × (5 ≤ k → t.spot ≢ ended)
stop_cases k after s at alive r idle = (
  λ few enough.
      ap (λ (t : HerderTask). t.spot) (turns-append (sets_bit ∷ replicate k runs) (stops ∷ after) s)
      ∙ four_runs_end after (turns (sets_bit ∷ replicate k runs) s)
          (few_runs s.eventpoll r k s few at alive refl) enough,
  λ many e.
      IsDeaf-ended (quiet s.eventpoll)
        (turns (stops ∷ after) (turns (sets_bit ∷ replicate k runs) s))
        (turns-IsDeaf (quiet s.eventpoll) refl refl (stops ∷ after)
          (turns (sets_bit ∷ replicate k runs) s) (tt, idle) (many_runs k s many at alive r))
        (ap (λ (t : HerderTask). t.spot)
            (sym (turns-append (sets_bit ∷ replicate k runs) (stops ∷ after) s))
          ∙ e),
)
