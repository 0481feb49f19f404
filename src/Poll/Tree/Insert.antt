-- ===== src/Poll/Tree/Insert.antt =====
-- What `tcp_ep_hash_insert` does to the order of the items, and how it bears on a later search.
use tcphandoff.Common.{
  All-left, All-right, All-mono, ℕ, ◌<◌, ◌≡◌, refl, ap, ◌∙◌, subst, ◌≢◌, ◌↔◌, inl, inr, Option,
  none, some, List, [], ◌∷◌, ◌++◌, append_assoc, arith, ◌==◌, Bool-cases, All, All-append, u32_mod,
}
use mathlib.Core.Option
use tcphandoff.Sock.{Sock, tcp_cmp_sock, is_positive}
use tcphandoff.Sock.Order.{IsNear, cmp_zero, cmp_positive}
use tcphandoff.Poll.Tree.{
  Tree, leaf, node, inorder, RbTree, hash_link, tcp_ep_hash_insert, tcp_ep_hash_find,
}
use tcphandoff.Poll.Tree.Sorted.{Falls, Falls-Around, Falls-insert}
use tcphandoff.Poll.Tree.Find.{at, Near, root_match, find-root_match, lt_trans}

-- `x` has gone between the items of larger and those of smaller place.
pub record Linked (f : ℕ → ℕ) (x : ℕ) (old new : List ℕ) : Type 0 where
  pub larger : List ℕ
  pub smaller : List ℕ
  pub before : old ≡ larger ++ smaller
  pub after : new ≡ larger ++ (x ∷ smaller)
  pub above : All (λ y. f x < f y) larger
  pub below : All (λ y. f y < f x) smaller

some_inj {ℓ} : {A : Type ℓ} (a b : A) → some a ≡ some b → a ≡ b
some_inj a b h = cc

Option_map-some {ℓ κ} :
    {A : Type ℓ} {B : Type κ} (f : A → B) (o : Option A) (c : B)
    → Option.map f o ≡ some c
    → (a : A) × (o ≡ some a) × (f a ≡ c)
Option_map-some f none c h = absurd (cc)
Option_map-some f (some a) c h = (a, refl, some_inj (f a) c h)

Linked-right :
    (f : ℕ → ℕ) (x y : ℕ) (l r new : List ℕ)
    → f x < f y
    → All (λ z. f y < f z) l
    → Linked f x r new
    → Linked f x (l ++ (y ∷ r)) (l ++ (y ∷ new))
Linked-right f x y l r new h a k = record {
  larger = l ++ (y ∷ k.larger);
  smaller = k.smaller;
  before = ap (λ (t : List ℕ). l ++ (y ∷ t)) k.before ∙ simp append_assoc;
  after = ap (λ (t : List ℕ). l ++ (y ∷ t)) k.after ∙ simp append_assoc;
  above =
      All-append (λ z. f x < f z) l (y ∷ k.larger) (All-mono l (λ z q. lt_trans _ _ _ h q) a)
        (h, k.above);
  below = k.below;
}

Linked-left :
    (f : ℕ → ℕ) (x y : ℕ) (l r new : List ℕ)
    → f y < f x
    → All (λ z. f z < f y) r
    → Linked f x l new
    → Linked f x (l ++ (y ∷ r)) (new ++ (y ∷ r))
Linked-left f x y l r new h b k = record {
  larger = k.larger;
  smaller = k.smaller ++ (y ∷ r);
  before = ap (λ (t : List ℕ). t ++ (y ∷ r)) k.before ∙ simp append_assoc;
  after = ap (λ (t : List ℕ). t ++ (y ∷ r)) k.after ∙ simp append_assoc;
  above = k.above;
  below =
      All-append (λ z. f z < f x) k.smaller (y ∷ r) k.below
        (h, All-mono r (λ z q. lt_trans _ _ _ q h) b);
}

module _ (base : ℕ) (b : base < u32_mod) (key : ℕ → Sock) where
  abbrev place_of : ℕ → ℕ
  place_of = at base b key

  module _ (x : ℕ) (vx : IsNear base (key x)) where
    link-Linked :
        (t t' : Tree)
        → Near base b key (inorder t)
        → Falls place_of (inorder t)
        → hash_link key x t ≡ some t'
        → Linked place_of x (inorder t) (inorder t')
    unfolding hash_link
    link-Linked leaf t' n h e =
        subst (λ q. Linked place_of x [] (inorder q)) (some_inj _ t' e)
          (record {
            larger = [];
            smaller = [];
            before = refl;
            after = refl;
            above = tt;
            below = tt;
          })
    link-Linked (node l y r) t' n h e =
        let ny = All-right _ (inorder l) (y ∷ inorder r) n in
        let nl = All-left _ (inorder l) (y ∷ inorder r) n in
        let a = Falls-Around place_of (inorder l) y (inorder r) h in
        let zero_iff = cmp_zero base b (key y) (key x) ny.0 vx in
        let pos_iff = cmp_positive base b (key y) (key x) ny.0 vx in
        elim (Bool-cases (tcp_cmp_sock (key y) (key x) == 0)) [
          | inl z ↦ absurd (ground arith)
          | inr z ↦ elim (Bool-cases (is_positive (tcp_cmp_sock (key y) (key x)))) [
            | inl p ↦
                let (r', er, et) =
                  Option_map-some (λ q. node l y q) (hash_link key x r) t' (rw (p, z) at e) in
                subst (λ q. Linked place_of x (inorder l ++ (y ∷ inorder r)) (inorder q)) et
                  (Linked-right place_of x y _ _ _ (pos_iff.0 p) a.above
                    (link-Linked r r' ny.1 a.right er))
            | inr p ↦
                let (l', el, et) =
                  Option_map-some (λ q. node q y r) (hash_link key x l) t' (rw (p, z) at e) in
                subst (λ q. Linked place_of x (inorder l ++ (y ∷ inorder r)) (inorder q)) et
                  (Linked-left place_of x y _ _ _ (ground (arith, zero_iff, pos_iff)) a.below
                    (link-Linked l l' nl a.left el))
          ]
        ]

    -- An item of another place can always be linked.
    link_fresh :
        (t : Tree)
        → Near base b key (inorder t)
        → All (λ y. place_of y ≢ place_of x) (inorder t)
        → (t' : Tree) × (hash_link key x t ≡ some t')
    unfolding hash_link
    link_fresh leaf n f = (node leaf x leaf, refl)
    link_fresh (node l y r) n f =
        let ny = All-right _ (inorder l) (y ∷ inorder r) n in
        let fy = All-right _ (inorder l) (y ∷ inorder r) f in
        let nl = All-left _ (inorder l) (y ∷ inorder r) n in
        let fl = All-left _ (inorder l) (y ∷ inorder r) f in
        let zero_iff = cmp_zero base b (key y) (key x) ny.0 vx in
        let (l', el) = link_fresh l nl fl in
        let (r', er) = link_fresh r ny.1 fy.1 in
        elim (Bool-cases (tcp_cmp_sock (key y) (key x) == 0)) [
          | inl z ↦ absurd (fy.0 (zero_iff.0 z))
          | inr z ↦ elim (Bool-cases (is_positive (tcp_cmp_sock (key y) (key x)))) [
            | inl p ↦ (node l y r', rw (p, z, er))
            | inr p ↦ (node l' y r, rw (p, z, el))
          ]
        ]

    module _ (rb : RbTree) (t : Tree) (n : Near base b key (inorder t))
        (h : Falls place_of (inorder t)) where
      insert-Linked :
          (t' : Tree)
          → tcp_ep_hash_insert key rb x t ≡ some t'
          → Linked place_of x (inorder t) (inorder t')
      unfolding tcp_ep_hash_insert
      insert-Linked t' e =
          let (u, eu, et) = Option_map-some (rb.rb_insert_color x) (hash_link key x t) t' e in
          subst (λ q. Linked place_of x (inorder t) (inorder q)) et
            (rw (rb.inorder-insert_color x u) (link-Linked t u n h eu))

      Linked-fresh :
          {new : List ℕ}
          → Linked place_of x (inorder t) new
          → All (λ y. place_of y ≢ place_of x) (inorder t)
      Linked-fresh k = rw k.before (
          All-append (λ y. place_of y ≢ place_of x) k.larger k.smaller
            (All-mono k.larger (λ y q. omega arith) k.above)
            (All-mono k.smaller (λ y q. omega arith) k.below))

      -- In a tree whose places fall from left to right, `tcp_ep_hash_insert` succeeds exactly when no
      -- item has the place of the new one. All sockets lie in one half of the address space.
      pub insert-some_iff :
          ((t' : Tree) × (tcp_ep_hash_insert key rb x t ≡ some t'))
          ↔ All (λ y. place_of y ≢ place_of x) (inorder t)
      unfolding tcp_ep_hash_insert
      insert-some_iff = (
        λ p. Linked-fresh (insert-Linked p.0 p.1),
        λ f. let (u, eu) = link_fresh t n f in (rb.rb_insert_color x u, rw eu),
      )

      -- A successful `tcp_ep_hash_insert` keeps the places falling from left to right, and all sockets
      -- in their half of the address space; the items are the old ones in their order with the new one
      -- put between those of larger and those of smaller place.
      pub insert-Falls :
          (t' : Tree)
          → tcp_ep_hash_insert key rb x t ≡ some t'
          → Falls place_of (inorder t')
            × Near base b key (inorder t')
            × Linked place_of x (inorder t) (inorder t')
      insert-Falls t' e =
          let k = insert-Linked t' e in
          (
            rw k.after
                (Falls-insert place_of x k.larger k.smaller (rw k.before at h) k.above k.below),
            rw k.after (
                All-append _ k.larger (x ∷ k.smaller)
                  (All-left _ k.larger k.smaller (rw k.before at n))
                  (vx, All-right _ k.larger k.smaller (rw k.before at n))),
            k,
          )

      -- So whatever the rebalancing does, a search for the socket of the item just inserted finds
      -- an item only if that stands at the root.
      pub find-insert :
          (t' : Tree)
          → tcp_ep_hash_insert key rb x t ≡ some t'
          → tcp_ep_hash_find key (key x) t' ≡ root_match key (key x) t'
      find-insert t' e =
          let (falls, near, _) = insert-Falls t' e in
          find-root_match base b key (key x) vx t' near falls
