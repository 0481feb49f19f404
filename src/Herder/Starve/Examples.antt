-- ===== src/Herder/Starve/Examples.antt =====
-- A herder that works off its ready list, and one that has much to do.
use tcphandoff.Common.{
  ℕ, zero, suc, ◌+◌, ◌*◌, ◌<◌, bit_and, ◌≡◌, refl, ap, subst, ◌≢◌, false, List, [], ◌∷◌, map, arith,
  length, replicate, All, All-mono, member,
}
use tcphandoff.Poll.{pollin, Eventpoll}
use tcphandoff.Poll.Ready.{Distinct}
use tcphandoff.Poll.Examples.{pool}
use tcphandoff.Herder.{max_events}
use tcphandoff.Herder.Run.{work_of, tcpha_fe_herder_run}
use tcphandoff.Herder.Drain.{run_drains}
use tcphandoff.Poll.Quiet.{quietly}
use tcphandoff.Herder.Starve.{busy_rounds, woken, fixed, IsBusy, busy_rounds_starve}

-- Three items are ready.
abbrev three_ready : Eventpoll
three_ready = record pool { ready_list = 2 ∷ 3 ∷ 1 ∷ [] }

run_drains_example :
    ((tcpha_fe_herder_run three_ready (replicate 1 quietly)).0
      ≡ map (work_of three_ready) (2 ∷ 3 ∷ 1 ∷ []))
    × ((tcpha_fe_herder_run three_ready (replicate 1 quietly)).1.ready_list ≡ [])
run_drains_example =
    run_drains 1 three_ready (omega arith) (refl, (refl, (refl, tt))) (refl, (refl, (refl, tt)))

-- Item 0 is ready, and its socket wakes no more.
abbrev waits : Eventpoll
waits = record pool { ready_list = 0 ∷ [] }

-- The sockets of `n` items from `k` on wake, one after the other, each with something to read.
wakes_from : ℕ → ℕ → List (ℕ × ℕ)
wakes_from k zero = []
wakes_from k (suc n) = (k, pollin) ∷ wakes_from (k + 1) n

length-wakes_from : (k n : ℕ) → length (wakes_from k n) ≡ n
unfolding wakes_from
length-wakes_from k zero = refl
length-wakes_from k (suc n) = ap suc (length-wakes_from (k + 1) n)

wakes_from-interested : (k n : ℕ) → All (λ w. bit_and (fixed waits w.0).1 w.1 ≢ 0) (wakes_from k n)
unfolding wakes_from
wakes_from-interested k zero = tt
wakes_from-interested k (suc n) = (omega arith, wakes_from-interested (k + 1) n)

smaller :
    (f : ℕ) (k : ℕ) (xs : List ℕ)
    → All (λ x. x < k) xs
    → member (f + k) (map (λ x. f + x) xs) ≡ false
smaller f k [] a = refl
smaller f k (x ∷ xs) a = ground (arith, smaller f k xs a.1)

woken-Distinct :
    (f k n : ℕ) (xs : List ℕ)
    → Distinct (map (λ x. f + x) xs)
    → All (λ x. x < k) xs
    → Distinct (map (λ x. f + x) (woken (wakes_from k n) xs))
unfolding wakes_from
woken-Distinct f k zero xs d a = d
woken-Distinct f k (suc n) xs d a =
    woken-Distinct f (k + 1) n (k ∷ xs) (smaller f k xs a, d)
      (omega arith, All-mono xs (λ x l. omega (arith, l)) a)

map-zero : (xs : List ℕ) → map (λ x. 0 + x) xs ≡ xs
map-zero [] = refl
map-zero (x ∷ xs) = ground (arith, map-zero xs)

wakes-IsBusy : IsBusy (fixed waits) (0 ∷ []) (wakes_from 1 1024)
wakes-IsBusy = record {
  many = length-wakes_from 1 1024;
  interested = wakes_from-interested 1 1024;
  distinct =
      subst Distinct (map-zero (woken (wakes_from 1 1024) (0 ∷ [])))
        (woken-Distinct 0 1 1024 (0 ∷ []) (refl, tt) (omega arith, tt));
  conns = woken-Distinct 100 1 1024 (0 ∷ []) (refl, tt) (omega arith, tt);
}

busy_rounds_starve_example :
    let result = busy_rounds waits (wakes_from 1 1024 ∷ wakes_from 1 1024 ∷ []) in
    (result.1.ready_list ≡ 0 ∷ [])
    × All (λ w. member w.conn (100 ∷ []) ≡ false) result.0
    × (length result.0 ≡ 2 * max_events)
busy_rounds_starve_example =
    busy_rounds_starve (wakes_from 1 1024 ∷ wakes_from 1 1024 ∷ []) waits
      (wakes-IsBusy, (wakes-IsBusy, tt))
