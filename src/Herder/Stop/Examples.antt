-- ===== src/Herder/Stop/Examples.antt =====
-- Herders that are stopped.
use tcphandoff.Common.{◌≤◌, ◌≡◌, refl, ◌≢◌, false, [], ◌∷◌, arith}
use tcphandoff.Poll.{pollin}
use tcphandoff.Poll.Examples.{pool}
use tcphandoff.Poll.Sleep.{asleep}
use tcphandoff.Herder.Stop.{
  looping, ended, waiting, HerderTask, runs, sets_bit, stops, wakes, turns,
}
use tcphandoff.Herder.Stop.Ends.{stopped_ends}
use tcphandoff.Herder.Stop.Ending.{run_count}
use tcphandoff.Herder.Stop.Hangs.{stop_cases}

-- The herder sleeps, and a socket wakes it before it is told to stop.
abbrev sleeping : HerderTask
sleeping = record { spot = waiting asleep; eventpoll = pool; works = []; should_stop = false }

stopped_ends_example :
    (turns
      (sets_bit ∷ wakes 3 pollin ∷ stops ∷ runs ∷ runs ∷ wakes 3 pollin ∷ runs ∷ runs ∷ [])
      sleeping).spot
    ≡ ended
stopped_ends_example =
    stopped_ends (wakes 3 pollin ∷ []) (runs ∷ runs ∷ wakes 3 pollin ∷ runs ∷ runs ∷ []) sleeping
      refl (omega arith)

abbrev at_work : HerderTask
at_work = record { spot = looping; eventpoll = pool; works = []; should_stop = false }

stop_cases_example :
    let t =
      turns
        (sets_bit ∷ runs ∷ runs ∷ runs ∷ runs ∷ runs ∷ runs ∷ stops ∷ runs ∷ runs ∷ runs ∷ runs
          ∷ [])
        at_work in
    (6 ≤ 4 → 4 ≤ run_count (runs ∷ runs ∷ runs ∷ runs ∷ []) → t.spot ≡ ended)
    × (5 ≤ 6 → t.spot ≢ ended)
stop_cases_example =
    stop_cases 6 (runs ∷ runs ∷ runs ∷ runs ∷ []) at_work refl refl refl (tt, (tt, (tt, (tt, tt))))
