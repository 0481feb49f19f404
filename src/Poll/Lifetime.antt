-- ===== src/Poll/Lifetime.antt =====
-- The items that the eventpoll and the sockets point to: which operations keep them allocated.
use tcphandoff.Common.{
  All-both, ◌++◌, ℕ, ◌<◌, ◌≡◌, refl, true, false, List, [], ◌∷◌, arith, ◌==◌, All, member, u32_mod,
}
use tcphandoff.Poll.Tree.{inorder, without}
use tcphandoff.Poll.Tree.Sorted.{Falls}
use tcphandoff.Poll.Tree.Find.{at, Near}
use tcphandoff.Poll.{Eventpoll, update, key_of}
use tcphandoff.Poll.Ready.{Distinct}

-- The items of a list are allocated.
abbrev pub Held : Eventpoll → List ℕ → Type 0
Held ep xs = All (λ x. ep.allocated x ≡ true) xs

-- Whatever the eventpoll and the wait queues point to is allocated; the tree is in the order that its
-- insertions make, of sockets in one half of the address space; an item on a wait queue knows its
-- queue; the ready list is without repetition.
pub record IsSound (base : ℕ) (b : base < u32_mod) (ep : Eventpoll) : Type 0 where
  pub ready_held : Held ep ep.ready_list
  pub waiting_held : Held ep ep.waiting
  pub waiting_heads : All (λ x. (ep.item x).whead ≡ true) ep.waiting
  pub tree_held : Held ep (inorder ep.hash_root)
  pub near : Near base b (key_of ep) (inorder ep.hash_root)
  pub falls : Falls (at base b (key_of ep)) (inorder ep.hash_root)
  pub distinct : Distinct ep.ready_list

pub Falls-cong : (f g : ℕ → ℕ) (xs : List ℕ) → All (λ y. f y ≡ g y) xs → Falls f xs → Falls g xs
Falls-cong f g [] e h = tt
Falls-cong f g (x ∷ xs) e h = (
  All-both {Q = λ y. f y ≡ g y} xs (λ y p q. omega (arith, e.0)) h.0 e.1,
  Falls-cong f g xs e.1 h.1,
)

pub All-without : (P : ℕ → Type 0) (x : ℕ) (xs : List ℕ) → All P xs → All P (without x xs)
All-without P x [] a = tt
All-without P x (y ∷ ys) a = ground (arith, All-without P x ys a.1)

member-without : (x y : ℕ) (xs : List ℕ) → member y xs ≡ false → member y (without x xs) ≡ false
member-without x y [] m = refl
member-without x y (z ∷ zs) m = ground (arith, member-without x y zs)

pub Distinct-without : (x : ℕ) (xs : List ℕ) → Distinct xs → Distinct (without x xs)
Distinct-without x [] d = tt
Distinct-without x (y ∷ ys) d = ground (arith, Distinct-without x ys d.1, member-without x y ys d.0)

pub Falls-without : (f : ℕ → ℕ) (x : ℕ) (xs : List ℕ) → Falls f xs → Falls f (without x xs)
Falls-without f x [] h = tt
Falls-without f x (y ∷ ys) h =
    ground (arith, Falls-without f x ys h.1, All-without (λ z. f z < f y) x ys h.0)

pub member-without_self : (x : ℕ) (xs : List ℕ) → member x (without x xs) ≡ false
member-without_self x [] = refl
member-without_self x (y ∷ ys) = ground (arith, member-without_self x ys)

-- What is freed is not among the items that are left.
pub Held-without :
    (ep : Eventpoll) (x : ℕ) (xs : List ℕ)
    → Held ep xs
    → All (λ y. update ep.allocated x false y ≡ true) (without x xs)
Held-without ep x [] h = tt
Held-without ep x (y ∷ ys) h = ground (arith, Held-without ep x ys h.1)

-- A new item is none of those that are held.
pub Held-fresh :
    (ep : Eventpoll) (x : ℕ) (xs : List ℕ)
    → ep.allocated x ≡ false
    → Held ep xs
    → All (λ y. (x == y) ≡ false) xs
Held-fresh ep x [] f h = tt
Held-fresh ep x (y ∷ ys) f h = (ground arith, Held-fresh ep x ys f h.1)

pub All-of_eq :
    (P : ℕ → Type 0) (Q : ℕ → Type 0) (x : ℕ) (xs : List ℕ)
    → ((y : ℕ) → (x == y) ≡ false → P y → Q y)
    → All (λ y. (x == y) ≡ false) xs
    → All P xs
    → All Q xs
All-of_eq P Q x xs h n a = All-both xs (λ y p q. h y p q) n a

pub member_of_fresh : (x : ℕ) (xs : List ℕ) → All (λ y. (x == y) ≡ false) xs → member x xs ≡ false
member_of_fresh x [] a = refl
member_of_fresh x (y ∷ ys) a = ground (arith, member_of_fresh x ys a.1)

pub Held-alloc :
    (ep : Eventpoll) (x : ℕ) (xs : List ℕ)
    → Held ep xs
    → All (λ y. update ep.allocated x true y ≡ true) xs
Held-alloc ep x [] h = tt
Held-alloc ep x (y ∷ ys) h = (ground arith, Held-alloc ep x ys h.1)

pub All-insert :
    (P : ℕ → Type 0) (x : ℕ) (xs ys : List ℕ) → P x → All P (xs ++ ys) → All P (xs ++ (x ∷ ys))
All-insert P x [] ys p a = (p, a)
All-insert P x (z ∷ zs) ys p a = (a.0, All-insert P x zs ys p a.1)
