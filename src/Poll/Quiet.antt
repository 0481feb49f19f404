-- ===== src/Poll/Quiet.antt =====
-- `tcp_epoll_wait` where no socket wakes while the herder sleeps.
use tcphandoff.Common.{ℕ, zero, suc, ◌≡◌, refl, sym, ap, ◌∙◌, subst, false, List, [], ◌∷◌, arith}
use tcphandoff.Poll.{Eventpoll, Item, report, collect, sleep_if_empty, tcp_epoll_wait}
use tcphandoff.Poll.Wait.{wait-collect}

-- Nothing happens while the herder sleeps.
abbrev pub quietly : Eventpoll → Eventpoll
quietly ep = ep

abbrev pub Same : Eventpoll → Eventpoll → Type 0
Same ep awake = (awake.ready_list ≡ ep.ready_list) × (awake.item ≡ ep.item)

slept :
    (ep : Eventpoll) (xs : List ℕ)
    → ep.ready_list ≡ xs
    → sleep_if_empty ep quietly
      ≡ elim xs as (λ x. Eventpoll) [ [] ↦ record ep { should_wake = false } | x ∷ xs ↦ ep ]
unfolding sleep_if_empty
slept ep xs e =
    ap
      (λ (zs : List ℕ). elim zs as (λ x. Eventpoll) [
        | [] ↦ record ep { should_wake = false }
        | x ∷ xs ↦ ep
      ])
      e

pub awake-Same : (ep : Eventpoll) → Same ep (sleep_if_empty ep quietly)
awake-Same ep = by_list ep.ready_list refl
  where
    by_list : (xs : List ℕ) → ep.ready_list ≡ xs → Same ep (sleep_if_empty ep quietly)
    by_list [] e = subst (Same ep) (sym (slept ep [] e)) (refl, refl)
    by_list (x ∷ xs) e = subst (Same ep) (sym (slept ep (x ∷ xs) e)) (refl, refl)

-- What no wakeup and no wait changes of an item.
abbrev pub fixed : Eventpoll → ℕ → ℕ × ℕ
fixed ep y = ((ep.item y).conn, (ep.item y).event_flags)

collect-fixed :
    (n : ℕ) (xs : List ℕ) (ep : Eventpoll) (y : ℕ) → fixed (collect n xs ep).1 y ≡ fixed ep y
unfolding collect
collect-fixed n [] ep y = refl
collect-fixed zero (x ∷ xs) ep y = refl
collect-fixed (suc n) (x ∷ xs) ep y = collect-fixed n xs (report ep x xs) y ∙ report-fixed ep x xs y
  where
    report-fixed :
        (ep : Eventpoll) (x : ℕ) (xs : List ℕ) (y : ℕ) → fixed (report ep x xs) y ≡ fixed ep y
    report-fixed ep x xs y = ground arith

pub wait-fixed : (ep : Eventpoll) (n y : ℕ) → fixed (tcp_epoll_wait ep n quietly).1 y ≡ fixed ep y
wait-fixed ep n y =
    let awake = sleep_if_empty ep quietly in
    ap (λ (r : List ℕ × Eventpoll). fixed r.1 y) (wait-collect ep n quietly)
    ∙ collect-fixed n awake.ready_list awake y
    ∙ ap (λ (f : ℕ → Item). ((f y).conn, (f y).event_flags)) (awake-Same ep).1

collect-waiting : (n : ℕ) (xs : List ℕ) (ep : Eventpoll) → (collect n xs ep).1.waiting ≡ ep.waiting
unfolding collect report
collect-waiting zero [] ep = refl
collect-waiting (suc n) [] ep = refl
collect-waiting zero (x ∷ xs) ep = refl
collect-waiting (suc n) (x ∷ xs) ep = collect-waiting n xs (report ep x xs)

awake-waiting : (ep : Eventpoll) → (sleep_if_empty ep quietly).waiting ≡ ep.waiting
unfolding sleep_if_empty
awake-waiting ep = ground arith

pub wait-waiting : (ep : Eventpoll) (n : ℕ) → (tcp_epoll_wait ep n quietly).1.waiting ≡ ep.waiting
wait-waiting ep n =
    let awake = sleep_if_empty ep quietly in
    ap (λ (r : List ℕ × Eventpoll). r.1.waiting) (wait-collect ep n quietly)
    ∙ collect-waiting n awake.ready_list awake
    ∙ awake-waiting ep
