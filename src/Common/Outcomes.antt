-- ===== src/Common/Outcomes.antt =====
-- The outcome of code that may not come back: a value, a lock that is never had, or a memory fault.
use mathlib.Core.Path.{◌≡◌, refl}

pub data Outcome {ℓ} (A : Type ℓ) : Type ℓ where
  done : A → Outcome A
  deadlock : Outcome A
  fault : Outcome A

infixl 5 ◌>>=◌
abbrev pub ◌>>=◌ {ℓ κ} : {A : Type ℓ} {B : Type κ} → Outcome A → (A → Outcome B) → Outcome B
done a >>= f = f a
deadlock >>= f = deadlock
fault >>= f = fault

-- What holds of the value, if there is one.
abbrev pub IfDone {ℓ} : {A : Type ℓ} → (A → Type 0) → Outcome A → Type 0
IfDone P (done a) = P a
IfDone P deadlock = Unit
IfDone P fault = Unit

pub IfDone-any {ℓ} : {A : Type ℓ} (o : Outcome A) → IfDone (λ a. Unit {0}) o
IfDone-any (done a) = tt
IfDone-any deadlock = tt
IfDone-any fault = tt

pub IfDone-bind {ℓ κ} :
    {A : Type ℓ} {B : Type κ} (Q : A → Type 0) (P : B → Type 0) (o : Outcome A) (f : A → Outcome B)
    → IfDone Q o
    → ((a : A) → Q a → IfDone P (f a))
    → IfDone P (o >>= f)
IfDone-bind Q P (done a) f q h = h a q
IfDone-bind Q P deadlock f q h = tt
IfDone-bind Q P fault f q h = tt

pub bind_done {ℓ κ μ} :
    {A : Type ℓ} {B : Type κ} {C : Type μ} (o : Outcome A) (f : A → B) (g : B → Outcome C)
    → ((o >>= λ a. done (f a)) >>= g) ≡ (o >>= λ a. g (f a))
bind_done (done a) f g = refl
bind_done deadlock f g = refl
bind_done fault f g = refl
