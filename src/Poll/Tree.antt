-- ===== src/Poll/Tree.antt =====
-- frontend/tcpha_fe_poll.c, the red-black tree of items: `tcp_ep_hash_insert` and
-- `tcp_ep_hash_find`. A node holds the item's pointer, a number; `key` reads the item's socket.
-- The kernel's rebalancing and removal (`rb_insert_color`, `rb_erase`) are parameters, `RbTree`.
pub mod Sorted
pub mod Find
pub mod Insert
use tcphandoff.Common.{
  ℕ, zero, suc, ◌+◌, ◌-◌, ◌*◌, ◌/◌, ◌%◌, ◌^◌, ◌≤◌, ◌<◌, min, bit_and, bit_or, ◌≡◌, refl, sym, ap,
  ◌∙◌, subst, fun_ext, ◌≢◌, ◌↔◌, ◌⊎◌, inl, inr, Bool, true, false, not, ◌&&◌, ◌||◌, Option, none,
  some, List, [], ◌∷◌, ◌++◌, map, append-nil, append_assoc, arith, dec_lt, ℕ_discrete, ltb, leb,
  ◌==◌, if◌then◌else◌, ltb→lt, lt→ltb, leb→le, ==_iff, tests, Bool-cases, Option-cases, length,
  get_or, take, drop, replicate, All, length-append, length-take, take-append-drop, All-append,
  member, u32_mod, char_to_int, is_negative,
}
use mathlib.Core.Option
use tcphandoff.Sock.{Sock, tcp_cmp_sock, is_positive}

pub data Tree : Type 0 where
  leaf : Tree
  node : Tree → ℕ → Tree → Tree

-- The items from `rb_first` on by `rb_next`.
abbrev pub inorder : Tree → List ℕ
inorder leaf = []
inorder (node l x r) = inorder l ++ (x ∷ inorder r)

-- Every item but `x`.
abbrev pub without : ℕ → List ℕ → List ℕ
without x [] = []
without x (y ∷ ys) = if x == y then without x ys else y ∷ without x ys

-- What the kernel documents of its two functions: neither changes the order of the items.
pub record RbTree : Type 0 where
  pub rb_insert_color : ℕ → Tree → Tree
  pub rb_erase : ℕ → Tree → Tree
  pub inorder-insert_color : (x : ℕ) (t : Tree) → inorder (rb_insert_color x t) ≡ inorder t
  pub inorder-erase : (x : ℕ) (t : Tree) → inorder (rb_erase x t) ≡ without x (inorder t)

module _ (key : ℕ → Sock) where
  -- The descent of `tcp_ep_hash_insert` and `rb_link_node` at its end; `none` is the -1 that is
  -- returned where an item with an equal socket is met.
  unfoldable pub hash_link : ℕ → Tree → Option Tree
  hash_link x leaf = some (node leaf x leaf)
  hash_link x (node l y r) =
      let cmp = tcp_cmp_sock (key y) (key x) in
      let left = Option.map (λ t. node t y r) (hash_link x l) in
      let right = Option.map (λ t. node l y t) (hash_link x r) in
      if cmp == 0 then none else (if is_positive cmp then right else left)

  unfoldable pub tcp_ep_hash_insert : RbTree → ℕ → Tree → Option Tree
  unfolding hash_link
  tcp_ep_hash_insert rb x t = Option.map (rb.rb_insert_color x) (hash_link x t)

  unfoldable pub tcp_ep_hash_find : Sock → Tree → Option ℕ
  tcp_ep_hash_find s leaf = none
  tcp_ep_hash_find s (node l y r) =
      let cmp = tcp_cmp_sock s (key y) in
      let left = tcp_ep_hash_find s l in
      let right = tcp_ep_hash_find s r in
      if cmp == 0 then some y else (if is_negative cmp then left else right)
