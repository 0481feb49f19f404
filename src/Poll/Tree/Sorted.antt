-- ===== src/Poll/Tree/Sorted.antt =====
-- Lists of items whose places fall.
use tcphandoff.Common.{All-left, All-right, ℕ, ◌<◌, List, [], ◌∷◌, ◌++◌, All, All-append}

-- The places fall from left to right.
abbrev pub Falls : (ℕ → ℕ) → List ℕ → Type 0
Falls f [] = Unit
Falls f (x ∷ xs) = All (λ y. f y < f x) xs × Falls f xs

-- The parts of a falling list about `x`.
pub record Around (f : ℕ → ℕ) (xs : List ℕ) (x : ℕ) (ys : List ℕ) : Type 0 where
  pub left : Falls f xs
  pub right : Falls f ys
  pub above : All (λ y. f x < f y) xs
  pub below : All (λ y. f y < f x) ys

pub Falls-Around :
    (f : ℕ → ℕ) (xs : List ℕ) (x : ℕ) (ys : List ℕ) → Falls f (xs ++ (x ∷ ys)) → Around f xs x ys
Falls-Around f [] x ys h = record { left = tt; right = h.1; above = tt; below = h.0 }
Falls-Around f (w ∷ xs) x ys h =
    let r = Falls-Around f xs x ys h.1 in
    record {
      left = (All-left (λ y. f y < f w) xs (x ∷ ys) h.0, r.left);
      right = r.right;
      above = ((All-right (λ y. f y < f w) xs (x ∷ ys) h.0).0, r.above);
      below = r.below;
    }

-- A new item goes between the larger and the smaller ones.
pub Falls-insert :
    (f : ℕ → ℕ) (x : ℕ) (xs ys : List ℕ)
    → Falls f (xs ++ ys)
    → All (λ y. f x < f y) xs
    → All (λ y. f y < f x) ys
    → Falls f (xs ++ (x ∷ ys))
Falls-insert f x [] ys h a b = (b, h)
Falls-insert f x (w ∷ xs) ys h a b = (
  All-append (λ y. f y < f w) xs (x ∷ ys) (All-left (λ y. f y < f w) xs ys h.0)
      (a.0, All-right (λ y. f y < f w) xs ys h.0),
  Falls-insert f x xs ys h.1 a.1 b,
)
