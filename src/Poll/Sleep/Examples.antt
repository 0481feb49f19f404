-- ===== src/Poll/Sleep/Examples.antt =====
-- A herder at work.
use tcphandoff.Common.{◌≡◌, refl, ◌≢◌, true, false, [], ◌∷◌, arith, replicate, member}
use tcphandoff.Poll.{pollin, tcp_epoll_wait}
use tcphandoff.Poll.Examples.{pool}
use tcphandoff.Poll.Sleep.{testing, asleep, herder, wakes, steps}
use tcphandoff.Poll.Sleep.Lost.{asleep_only_idle, steps_disturbed}
use tcphandoff.Poll.Sleep.Refine.{woken_by, steps_refine_wait}

asleep_only_idle_example :
    (steps 1024 (wakes 3 0 ∷ herder ∷ herder ∷ herder ∷ []) (testing, pool)).1.ready_list ≡ []
unfolding steps
asleep_only_idle_example =
    asleep_only_idle 1024 (wakes 3 0 ∷ herder ∷ herder ∷ herder ∷ []) pool
      ((λ e. refl), (tt, (tt, (tt, tt)))) refl

steps_disturbed_example :
    let s =
      steps 1024 (herder ∷ wakes 3 pollin ∷ herder ∷ herder ∷ replicate 2 herder) (testing, pool) in
    (s.0 ≡ asleep) × (member 3 s.1.ready_list ≡ true)
steps_disturbed_example = steps_disturbed 1024 2 pool 3 pollin refl refl (omega arith)

steps_refine_wait_example :
    (pool.ready_list ≢ []
      → steps 1024 (herder ∷ herder ∷ []) (testing, pool)
        ≡ (testing, (tcp_epoll_wait pool 1024 (woken_by ((3, pollin) ∷ []))).1))
    × (pool.ready_list ≡ []
        → pool.should_wake ≡ false
        → (woken_by ((3, pollin) ∷ []) pool).should_wake ≡ true
        → steps 1024
            (herder ∷ herder ∷ herder ∷ wakes 3 pollin ∷ herder ∷ herder ∷ [])
            (testing, pool)
          ≡ (testing, (tcp_epoll_wait pool 1024 (woken_by ((3, pollin) ∷ []))).1))
steps_refine_wait_example = steps_refine_wait 1024 ((3, pollin) ∷ []) pool
