-- ===== src/Poll/Tree/Find.antt =====
-- What `tcp_ep_hash_find` finds in the trees that `tcp_ep_hash_insert` builds.
use tcphandoff.Common.{
  All-left, All-right, All-mono, All-both, ℕ, ◌<◌, ◌≡◌, refl, ◌∙◌, ◌≢◌, Option, none, some, List,
  ◌∷◌, ◌++◌, arith, ◌==◌, if◌then◌else◌, All, All-append, u32_mod,
}
use tcphandoff.Sock.{Sock, tcp_cmp_sock}
use tcphandoff.Sock.Order.{IsNear, place, cmp_zero, cmp_negative}
use tcphandoff.Poll.Tree.{Tree, leaf, node, inorder, tcp_ep_hash_find}
use tcphandoff.Poll.Tree.Sorted.{Falls, Falls-Around}

-- The item at the root, if its socket is `s`.
abbrev pub root_match : (ℕ → Sock) → Sock → Tree → Option ℕ
root_match key s leaf = none
root_match key s (node l y r) = if tcp_cmp_sock s (key y) == 0 then some y else none

pub lt_trans : (a b c : ℕ) → a < b → b < c → a < c
lt_trans a b c p q = omega arith

module _ (base : ℕ) (b : base < u32_mod) (key : ℕ → Sock) where
  abbrev pub at : ℕ → ℕ
  at x = place base (key x)

  abbrev pub Near : List ℕ → Type 0
  Near xs = All (λ x. IsNear base (key x)) xs

  module _ (s : Sock) (v : IsNear base s) where
    find_goes_right :
        (t : Tree)
        → Near (inorder t)
        → All (λ y. at y < place base s) (inorder t)
        → tcp_ep_hash_find key s t ≡ none
    unfolding tcp_ep_hash_find
    find_goes_right leaf n h = refl
    find_goes_right (node l y r) n h =
        let ny = All-right _ (inorder l) (y ∷ inorder r) n in
        let hy = All-right _ (inorder l) (y ∷ inorder r) h in
        ground (
          arith,
          cmp_zero base b s (key y) v ny.0,
          cmp_negative base b s (key y) v ny.0,
          find_goes_right r ny.1 hy.1,
        )

    find_goes_left :
        (t : Tree)
        → Near (inorder t)
        → All (λ y. place base s < at y) (inorder t)
        → tcp_ep_hash_find key s t ≡ none
    unfolding tcp_ep_hash_find
    find_goes_left leaf n h = refl
    find_goes_left (node l y r) n h =
        let ny = All-right _ (inorder l) (y ∷ inorder r) n in
        let hy = All-right _ (inorder l) (y ∷ inorder r) h in
        ground (
          arith,
          cmp_zero base b s (key y) v ny.0,
          cmp_negative base b s (key y) v ny.0,
          find_goes_left l (All-left _ (inorder l) (y ∷ inorder r) n)
              (All-left _ (inorder l) (y ∷ inorder r) h),
        )

    pub find-root_match :
        (t : Tree)
        → Near (inorder t)
        → Falls at (inorder t)
        → tcp_ep_hash_find key s t ≡ root_match key s t
    unfolding tcp_ep_hash_find
    find-root_match leaf n h = refl
    find-root_match (node l y r) n h =
        let ny = All-right _ (inorder l) (y ∷ inorder r) n in
        let nl = All-left _ (inorder l) (y ∷ inorder r) n in
        let a = Falls-Around at (inorder l) y (inorder r) h in
        ground (
          arith,
          cmp_zero base b s (key y) v ny.0,
          cmp_negative base b s (key y) v ny.0,
          λ (p : place base s < at y).
              find_goes_left l nl (All-mono (inorder l) (λ x q. lt_trans _ _ _ p q) a.above),
          λ (p : at y < place base s).
              find_goes_right r ny.1 (All-mono (inorder r) (λ x q. lt_trans _ _ _ q p) a.below),
        )

  other_place :
      (x y : ℕ)
      → IsNear base (key x)
      → IsNear base (key y)
      → at x ≢ at y
      → (if tcp_cmp_sock (key x) (key y) == 0 then some y else none) ≡ none
  other_place x y vx vy d = ground (arith, cmp_zero base b (key x) (key y) vx vy)

  -- In a tree whose places fall from left to right, `tcp_ep_hash_find` finds the item at the root by
  -- its socket, and no other item of the tree by its own. All sockets lie in one half of the
  -- address space.
  pub find_only_root :
      (l : Tree) (y : ℕ) (r : Tree)
      → Near (inorder (node l y r))
      → Falls at (inorder (node l y r))
      → (tcp_ep_hash_find key (key y) (node l y r) ≡ some y)
        × All (λ x. tcp_ep_hash_find key (key x) (node l y r) ≡ none) (inorder l ++ inorder r)
  find_only_root l y r n h =
      let ny = All-right _ (inorder l) (y ∷ inorder r) n in
      let nl = All-left _ (inorder l) (y ∷ inorder r) n in
      let a = Falls-Around at (inorder l) y (inorder r) h in
      let missed = λ (x : ℕ) (q : IsNear base (key x)) (d : at x ≢ at y).
        find-root_match (key x) q (node l y r) n h ∙ other_place x y q ny.0 d in
      (
        find-root_match (key y) ny.0 (node l y r) n h
            ∙ rw ((cmp_zero base b (key y) (key y) ny.0 ny.0).1 refl),
        All-append _ (inorder l) (inorder r)
            (All-both (inorder l) (λ x q d. missed x q (omega arith)) nl a.above)
            (All-both (inorder r) (λ x q d. missed x q (omega arith)) ny.1 a.below),
      )
