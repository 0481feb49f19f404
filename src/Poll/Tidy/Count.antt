-- ===== src/Poll/Tidy/Count.antt =====
-- How many items can be on a list that another one bounds.
use tcphandoff.Common.{
  ℕ, ◌+◌, ◌≤◌, ◌≡◌, refl, sym, ap, subst, true, false, List, [], ◌∷◌, arith, ℕ_discrete, ◌==◌,
  length, member,
}
use tcphandoff.Poll.Tree.{without}
use tcphandoff.Poll.Ready.{Distinct}
use tcphandoff.Poll.Lifetime.{Distinct-without}
use tcphandoff.Poll.Tidy.{Within}

without_absent : (x : ℕ) (ys : List ℕ) → member x ys ≡ false → without x ys ≡ ys
without_absent x [] m = refl
without_absent x (y ∷ ys) m = ground (arith, without_absent x ys)

length-without :
    (x : ℕ) (ys : List ℕ) → Distinct ys → member x ys ≡ true → length ys ≡ 1 + length (without x ys)
length-without x [] d m = absurd (cc)
length-without x (y ∷ ys) d m = elim (ℕ_discrete x y) [
  | yes e ↦
      let absent : member x ys ≡ false = subst (λ z. member z ys ≡ false) (sym e) d.0 in
      ground (arith, e, ap length (without_absent x ys absent))
  | no n ↦ ground (arith, n, length-without x ys d.1)
]

member-without_other :
    (x z : ℕ) (ys : List ℕ) → (x == z) ≡ false → member z ys ≡ true → member z (without x ys) ≡ true
member-without_other x z [] n m = m
member-without_other x z (y ∷ ys) n m = ground (arith, n, member-without_other x z ys)

Within-without :
    (x : ℕ) (xs ys : List ℕ) → member x xs ≡ false → Within xs ys → Within xs (without x ys)
Within-without x [] ys m w = tt
Within-without x (z ∷ xs) ys m w =
    (member-without_other x z ys (ground arith) w.0, Within-without x xs ys (ground arith) w.1)

-- Distinct entries of a list are no more than the list has.
pub length-Within :
    (xs ys : List ℕ) → Distinct xs → Distinct ys → Within xs ys → length xs ≤ length ys
length-Within [] ys d e w = omega arith
length-Within (x ∷ xs) ys d e w = omega (
  arith,
  length-without x ys e w.0,
  length-Within xs (without x ys) d.1 (Distinct-without x ys e) (Within-without x xs ys d.0 w.1),
)
