-- ===== src/Http/HeaderEnd.antt =====
-- What the third loop of `http_process_connection` accepts as the end of a header.
use tcphandoff.Common.{
  ℕ, zero, suc, ◌<◌, ◌≡◌, refl, sym, ◌∙◌, ◌↔◌, ◌⊎◌, inl, inr, Bool, true, List, [], ◌∷◌, ◌++◌,
  arith, dec_lt, ℕ_discrete, ◌==◌, if◌then◌else◌,
}
use tcphandoff.Http.{cr, lf, end_step, header_end}

-- A byte that the loop waits for: a carriage return, or either byte of a line end.
pub data Mark : Type 0 where
  ret brk : Mark

abbrev pub Fits : Mark → ℕ → Type 0
Fits ret c = c ≡ cr
Fits brk c = (c ≡ cr) ⊎ (c ≡ lf)

-- The marks occur in this order, with any bytes before, between and after them.
pub data Occurs : List Mark → List ℕ → Type 0 where
  done : (xs : List ℕ) → Occurs [] xs
  skip : (ps : List Mark) (x : ℕ) (xs : List ℕ) → Occurs ps xs → Occurs ps (x ∷ xs)
  hit :
      (p : Mark) (ps : List Mark) (x : ℕ) (xs : List ℕ)
      → Fits p x
      → Occurs ps xs
      → Occurs (p ∷ ps) (x ∷ xs)

-- What the loop still waits for in each state.
abbrev pub marks_from : ℕ → List Mark
marks_from zero = ret ∷ brk ∷ ret ∷ brk ∷ []
marks_from (suc zero) = brk ∷ ret ∷ brk ∷ []
marks_from (suc (suc zero)) = ret ∷ brk ∷ []
marks_from (suc (suc (suc zero))) = brk ∷ []
marks_from _ = []

abbrev pub head_mark : ℕ → Mark
head_mark zero = ret
head_mark (suc zero) = brk
head_mark (suc (suc zero)) = ret
head_mark _ = brk

marks_cons : (s : ℕ) → s < 4 → marks_from s ≡ head_mark s ∷ marks_from (suc s)
marks_cons zero h = refl
marks_cons (suc zero) h = refl
marks_cons (suc (suc zero)) h = refl
marks_cons (suc (suc (suc zero))) h = refl
marks_cons (suc (suc (suc (suc n)))) h = absurd (omega arith)

end_step-Fits : (s c : ℕ) → s < 4 → Fits (head_mark s) c → end_step s c ≡ suc s
end_step-Fits zero c h f = ground arith
end_step-Fits (suc zero) c h f = ground arith
end_step-Fits (suc (suc zero)) c h f = ground arith
end_step-Fits (suc (suc (suc zero))) c h f = ground arith
end_step-Fits (suc (suc (suc (suc n)))) c h f = absurd (omega arith)

end_step_stays : (s c : ℕ) → s < 4 → ¬ Fits (head_mark s) c → end_step s c ≡ s
end_step_stays zero c h f = ground arith
end_step_stays (suc zero) c h f =
    ground (arith, λ (e : c ≡ cr). f (inl e), λ (e : c ≡ lf). f (inr e))
end_step_stays (suc (suc zero)) c h f = ground arith
end_step_stays (suc (suc (suc zero))) c h f =
    ground (arith, λ (e : c ≡ cr). f (inl e), λ (e : c ≡ lf). f (inr e))
end_step_stays (suc (suc (suc (suc n)))) c h f = absurd (omega arith)

dec_fits : (p : Mark) (c : ℕ) → Dec (Fits p c)
dec_fits ret c = ℕ_discrete c cr
dec_fits brk c = elim (ℕ_discrete c cr) [
  | yes e ↦ yes (inl e)
  | no n ↦ elim (ℕ_discrete c lf) [
    | yes e ↦ yes (inr e)
    | no k ↦ no (λ e. elim e [ inl a ↦ n a | inr b ↦ k b ])
  ]
]

Occurs-tail : (p : Mark) (ps : List Mark) (xs : List ℕ) → Occurs (p ∷ ps) xs → Occurs ps xs
Occurs-tail p ps [] o = elim o [ ]
Occurs-tail p ps (x ∷ xs) (skip _ _ _ o) = skip ps x xs (Occurs-tail p ps xs o)
Occurs-tail p ps (x ∷ xs) (hit _ _ _ _ f o) = skip ps x xs o

-- The first byte that fits may be taken for the first mark.
Occurs-fits :
    (p : Mark) (ps : List Mark) (x : ℕ) (xs : List ℕ) → Occurs (p ∷ ps) (x ∷ xs) → Occurs ps xs
Occurs-fits p ps x xs (skip _ _ _ o) = Occurs-tail p ps xs o
Occurs-fits p ps x xs (hit _ _ _ _ f o) = o

Occurs-skips :
    (p : Mark) (ps : List Mark) (x : ℕ) (xs : List ℕ)
    → ¬ Fits p x
    → Occurs (p ∷ ps) (x ∷ xs)
    → Occurs (p ∷ ps) xs
Occurs-skips p ps x xs n (skip _ _ _ o) = o
Occurs-skips p ps x xs n (hit _ _ _ _ f o) = absurd (n f)

Occurs-nil : (p : Mark) (ps : List Mark) → ¬ Occurs (p ∷ ps) []
Occurs-nil p ps o = elim o [ ]

-- The loop's last test, when its state is not 4 and when it is.
if_reached : (s : ℕ) (rest : Bool) → s < 4 → (if s == 4 then true else rest) ≡ rest
if_reached s rest h = ground arith

module _ (s c : ℕ) (cs : List ℕ) (h : s < 4) where
  abbrev Waits : Type 0
  Waits = (header_end s (c ∷ cs) ≡ true) ↔ Occurs (head_mark s ∷ marks_from (suc s)) (c ∷ cs)

  waits_fits_last : Fits (head_mark s) c → ¬ (suc s < 4) → Waits
  unfolding header_end
  waits_fits_last f n =
      let e : s ≡ 3 = omega arith in
      rw (end_step-Fits s c h f, header_end) (λ _. hit _ _ c cs f (rw e (done cs)), λ _. rw e refl)

  waits_fits :
      Fits (head_mark s) c
      → (k : suc s < 4) → (header_end (suc s) cs ≡ true) ↔ Occurs (marks_from (suc s)) cs
      → Waits
  unfolding header_end
  waits_fits f k ih =
      rw (end_step-Fits s c h f, header_end)
        (
          λ e. hit _ _ c cs f (ih.0 (sym (if_reached (suc s) (header_end (suc s) cs) k) ∙ e)),
          λ o. if_reached (suc s) (header_end (suc s) cs) k ∙ ih.1 (Occurs-fits _ _ c cs o),
        )

  waits_stays :
      ¬ Fits (head_mark s) c
      → (header_end s cs ≡ true) ↔ Occurs (head_mark s ∷ marks_from (suc s)) cs
      → Waits
  unfolding header_end
  waits_stays n ih =
      rw (end_step_stays s c h n, header_end)
        (
          λ e. skip _ c cs (ih.0 (sym (if_reached s (header_end s cs) h) ∙ e)),
          λ o. if_reached s (header_end s cs) h ∙ ih.1 (Occurs-skips _ _ c cs n o),
        )

-- From state `s` the loop succeeds exactly when the marks that it still waits for occur.
header_end_marks :
    (xs : List ℕ) (s : ℕ)
    → s < 4
    → (header_end s xs ≡ true) ↔ Occurs (head_mark s ∷ marks_from (suc s)) xs
unfolding header_end
header_end_marks [] s h = (λ e. absurd (cc), λ o. absurd (Occurs-nil _ _ o))
header_end_marks (c ∷ cs) s h = elim (dec_fits (head_mark s) c) [
  | yes f ↦ elim (dec_lt (suc s) 4) [
    | yes k ↦ waits_fits s c cs h f k (rw (marks_cons (suc s) k) (header_end_marks cs (suc s) k))
    | no k ↦ waits_fits_last s c cs h f k
  ]
  | no n ↦ waits_stays s c cs h n (header_end_marks cs s h)
]

-- What the loop accepts, from its first state.
abbrev pub EndsHeader : List ℕ → Type 0
EndsHeader xs = Occurs (ret ∷ brk ∷ ret ∷ brk ∷ []) xs

-- The third loop finds the end of a header in `xs` exactly when a carriage return, a carriage
-- return or line feed, a carriage return, and a carriage return or line feed occur in `xs` in this
-- order, with any bytes between them.
pub header_end_iff : (xs : List ℕ) → (header_end 0 xs ≡ true) ↔ EndsHeader xs
header_end_iff xs = header_end_marks xs 0 (omega arith)

Occurs-prepend : (ps : List Mark) (xs ys : List ℕ) → Occurs ps ys → Occurs ps (xs ++ ys)
Occurs-prepend ps [] ys o = o
Occurs-prepend ps (x ∷ xs) ys o = skip ps x (xs ++ ys) (Occurs-prepend ps xs ys o)

pub Occurs-extend : (ps : List Mark) (xs ys : List ℕ) → Occurs ps xs → Occurs ps (xs ++ ys)
Occurs-extend ps xs ys (done _) = done (xs ++ ys)
Occurs-extend ps (x ∷ xs) ys (skip _ _ _ o) = skip ps x (xs ++ ys) (Occurs-extend ps xs ys o)
Occurs-extend (p ∷ ps) (x ∷ xs) ys (hit _ _ _ _ f o) =
    hit p ps x (xs ++ ys) f (Occurs-extend ps xs ys o)

-- Any two line ends will do.
pub two_lines-EndsHeader : (a b c : List ℕ) → EndsHeader (a ++ (cr ∷ lf ∷ (b ++ (cr ∷ lf ∷ c))))
two_lines-EndsHeader a b c = Occurs-prepend _ a _ (
    hit _ _ cr _ refl (
      hit _ _ lf _ (inr refl)
        (Occurs-prepend _ b _ (hit _ _ cr _ refl (hit _ _ lf _ (inr refl) (done c))))))
