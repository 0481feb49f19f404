-- ===== src/Poll/Remove.antt =====
-- `tcp_epoll_remove` and `tcp_epoll_setflags`: what they do to the item that they find, and which
-- items they find.
use tcphandoff.Common.{
  All-mono, ◌⊎◌, ℕ, ◌<◌, ◌≡◌, refl, sym, ap, ◌∙◌, subst, inl, inr, Bool, true, false, Option, none,
  some, List, [], ◌∷◌, ◌++◌, arith, ℕ_discrete, Bool-cases, Option-cases, All, member, u32_mod,
}
use tcphandoff.Sock.{Sock}
use tcphandoff.Poll.Tree.{Tree, node, inorder, without, RbTree, tcp_ep_hash_find}
use tcphandoff.Poll.Tree.Find.{find_only_root}
use tcphandoff.Poll.{
  Eventpoll, failed, update, key_of, tcp_ep_item_destroy, tcp_epoll_remove, tcp_epoll_setflags,
}
use tcphandoff.Poll.Lifetime.{
  Held, IsSound, All-without, Distinct-without, Falls-without, Held-without, member-without_self,
}

-- Nothing but the item's own memory points to it.
pub record Gone (x : ℕ) (ep : Eventpoll) : Type 0 where
  pub freed : ep.allocated x ≡ false
  pub unlisted : member x ep.ready_list ≡ false
  pub unhooked : member x ep.waiting ≡ false
  pub unlinked : member x (inorder ep.hash_root) ≡ false

-- The lists without one item, and the items as they were.
pub record Without (x : ℕ) (ep after : Eventpoll) : Type 0 where
  pub items : after.item ≡ ep.item
  pub ready : after.ready_list ≡ without x ep.ready_list
  pub hooks : after.waiting ≡ without x ep.waiting

module _ (base : ℕ) (b : base < u32_mod) (rb : RbTree) where
  module _ (ep : Eventpoll) (x : ℕ) (s : IsSound base b ep) where
    heads_other :
        (xs : List ℕ)
        → (ep.item x).whead ≡ false
        → All (λ y. (ep.item y).whead ≡ true) xs
        → without x xs ≡ xs
    heads_other [] f a = refl
    heads_other (y ∷ ys) f a = elim (ℕ_discrete x y) [
      | yes e ↦ absurd (cc (sym f ∙ ap (λ (z : ℕ). (ep.item z).whead) e ∙ a.0))
      | no n ↦ ground (arith, heads_other ys f a.1)
    ]

    destroy_waiting : (tcp_ep_item_destroy rb ep x).waiting ≡ without x ep.waiting
    unfolding tcp_ep_item_destroy
    destroy_waiting = elim (Bool-cases (ep.item x).whead) [
      | inl t ↦ ground arith
      | inr f ↦ ground (arith, heads_other ep.waiting f s.waiting_heads)
    ]

    destroy_root :
        inorder (tcp_ep_item_destroy rb ep x).hash_root ≡ without x (inorder ep.hash_root)
    unfolding tcp_ep_item_destroy
    destroy_root = ground (arith, rb.inorder-erase x ep.hash_root)

    destroy_rest :
        ((tcp_ep_item_destroy rb ep x).item ≡ ep.item)
        × ((tcp_ep_item_destroy rb ep x).allocated ≡ update ep.allocated x false)
        × ((tcp_ep_item_destroy rb ep x).ready_list ≡ without x ep.ready_list)
    unfolding tcp_ep_item_destroy
    destroy_rest = (ground arith, ground arith, ground arith)

    destroy-Held :
        (xs : List ℕ)
        → Held ep xs
        → All (λ y. (tcp_ep_item_destroy rb ep x).allocated y ≡ true) (without x xs)
    destroy-Held xs h =
        subst (λ a. All (λ y. a y ≡ true) (without x xs)) (sym destroy_rest.1)
          (Held-without ep x xs h)

    -- `tcp_ep_item_destroy` keeps the eventpoll sound, and leaves no pointer to the item.
    pub tcp_ep_item_destroy-IsSound :
        IsSound base b (tcp_ep_item_destroy rb ep x) × Gone x (tcp_ep_item_destroy rb ep x)
    tcp_ep_item_destroy-IsSound = (
      record {
        ready_held = rw destroy_rest.2 (destroy-Held ep.ready_list s.ready_held);
        waiting_held = rw destroy_waiting (destroy-Held ep.waiting s.waiting_held);
        waiting_heads =
            rw (destroy_waiting, destroy_rest.0)
              (All-without (λ y. (ep.item y).whead ≡ true) x ep.waiting s.waiting_heads);
        tree_held = rw destroy_root (destroy-Held (inorder ep.hash_root) s.tree_held);
        near = rw (destroy_root, destroy_rest.0) (All-without _ x (inorder ep.hash_root) s.near);
        falls =
            rw (destroy_root, destroy_rest.0) (Falls-without _ x (inorder ep.hash_root) s.falls);
        distinct = rw destroy_rest.2 (Distinct-without x ep.ready_list s.distinct);
      },
      record {
        freed = ap (λ (a : ℕ → Bool). a x) destroy_rest.1 ∙ ground arith;
        unlisted = ap (member x) destroy_rest.2 ∙ member-without_self x ep.ready_list;
        unhooked = ap (member x) destroy_waiting ∙ member-without_self x ep.waiting;
        unlinked = ap (member x) destroy_root ∙ member-without_self x (inorder ep.hash_root);
      },
    )

  remove_found :
      (ep : Eventpoll) (sock : Sock) (o : Option ℕ)
      → tcp_ep_hash_find (key_of ep) sock ep.hash_root ≡ o
      → tcp_epoll_remove rb ep sock ≡ (elim o [ none ↦ ep | some x ↦ tcp_ep_item_destroy rb ep x ])
  unfolding tcp_epoll_remove
  remove_found ep sock o e = rw (e, tcp_epoll_remove) refl

  destroy-Without :
      (ep : Eventpoll) (x : ℕ) → IsSound base b ep → Without x ep (tcp_ep_item_destroy rb ep x)
  destroy-Without ep x s = record {
    items = (destroy_rest ep x s).0;
    ready = (destroy_rest ep x s).2;
    hooks = destroy_waiting ep x s;
  }

  -- A removal changes nothing, or takes one item from the lists.
  pub tcp_epoll_remove_cases :
      (ep : Eventpoll) (sock : Sock)
      → IsSound base b ep
      → (tcp_epoll_remove rb ep sock ≡ ep) ⊎ ((x : ℕ) × Without x ep (tcp_epoll_remove rb ep sock))
  tcp_epoll_remove_cases ep sock s =
      elim (Option-cases (tcp_ep_hash_find (key_of ep) sock ep.hash_root)) [
        | inl e ↦ inl (remove_found ep sock none e)
        | inr (x, e) ↦ inr (x, rw (remove_found ep sock (some x) e) (destroy-Without ep x s))
      ]

  -- `tcp_epoll_remove` keeps a sound eventpoll sound; where it finds an item for the socket, no pointer
  -- to that item is left, and else nothing changes.
  pub tcp_epoll_remove-IsSound :
      (ep : Eventpoll) (sock : Sock)
      → IsSound base b ep
      → IsSound base b (tcp_epoll_remove rb ep sock)
        × ((x : ℕ)
            → tcp_ep_hash_find (key_of ep) sock ep.hash_root ≡ some x
            → Gone x (tcp_epoll_remove rb ep sock))
        × (tcp_ep_hash_find (key_of ep) sock ep.hash_root ≡ none → tcp_epoll_remove rb ep sock ≡ ep)
  tcp_epoll_remove-IsSound ep sock s = (
    elim (Option-cases (tcp_ep_hash_find (key_of ep) sock ep.hash_root)) [
      | inl e ↦ rw (remove_found ep sock none e) s
      | inr (x, e) ↦ rw (remove_found ep sock (some x) e) (tcp_ep_item_destroy-IsSound ep x s).0
    ],
    λ x e. rw (remove_found ep sock (some x) e) (tcp_ep_item_destroy-IsSound ep x s).1,
    λ e. remove_found ep sock none e,
  )

  -- In a sound eventpoll whose tree has item `y` at the root, `tcp_epoll_remove` by the socket of `y`
  -- leaves no pointer to `y`; by the socket of any other item of the tree it changes nothing, and
  -- `tcp_epoll_setflags` by that socket returns -1.
  pub remove_only_root :
      (ep : Eventpoll) (l : Tree) (y : ℕ) (r : Tree)
      → IsSound base b ep
      → ep.hash_root ≡ node l y r
      → Gone y (tcp_epoll_remove rb ep (key_of ep y))
        × All
            (λ x.
              (tcp_epoll_remove rb ep (key_of ep x) ≡ ep)
              × ((flags : ℕ) → (tcp_epoll_setflags ep (key_of ep x) flags).1 ≡ failed))
            (inorder l ++ inorder r)
  unfolding tcp_epoll_setflags
  remove_only_root ep l y r s e =
      let found = find_only_root base b (key_of ep) l y r (rw e at s.near) (rw e at s.falls) in
      (
        (tcp_epoll_remove-IsSound ep (key_of ep y) s).1 y (rw e found.0),
        All-mono (inorder l ++ inorder r)
            (λ x q.
              let miss : tcp_ep_hash_find (key_of ep) (key_of ep x) ep.hash_root ≡ none = rw e q in
              (
                remove_found ep (key_of ep x) none miss,
                λ flags. rw (miss, tcp_epoll_setflags) refl,
              ))
            found.1,
      )
