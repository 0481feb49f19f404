-- ===== src/Poll/Insert.antt =====
-- `tcp_epoll_insert`: it keeps the pointers sound, unless the socket is there already.
use tcphandoff.Common.{
  All-mono, ℕ, ◌<◌, bit_and, ◌≡◌, refl, sym, ap, ◌∙◌, subst, fun_ext, ◌≢◌, ◌↔◌, ◌⊎◌, inl, inr, Bool,
  true, false, Option, none, some, List, ◌∷◌, arith, ◌==◌, if◌then◌else◌, Bool-cases, All, member,
  u32_mod,
}
use tcphandoff.Sock.{Sock}
use tcphandoff.Sock.Order.{IsNear, place}
use tcphandoff.Poll.Tree.{Tree, inorder, RbTree, tcp_ep_hash_insert}
use tcphandoff.Poll.Tree.Sorted.{Falls}
use tcphandoff.Poll.Tree.Find.{at, Near}
use tcphandoff.Poll.Tree.Insert.{insert-Falls, insert-some_iff}
use tcphandoff.Poll.{
  Eventpoll, Item, Errno, success, failed, update, key_of, set_item, setup_item, stitch_if_ready,
  watch_flags, tcp_epoll_insert, tcp_ep_item_alloc, tcp_ep_item_free, tcp_epoll_check_events,
}
use tcphandoff.Poll.Ready.{Distinct}
use tcphandoff.Poll.Lifetime.{
  Held, IsSound, Falls-cong, Held-fresh, All-of_eq, member_of_fresh, Held-alloc, All-insert,
}

-- No item of the tree has the peer of `sock`.
abbrev pub IsNew : ℕ → Eventpoll → Sock → Type 0
IsNew base ep sock = All (λ y. place base (key_of ep y) ≢ place base sock) (inorder ep.hash_root)

-- What is left where the socket is in the tree already: item `x` is freed, and stays on the
-- socket's wait queue and, if the socket was ready, on the ready list.
pub record Dangling (x flags polled : ℕ) (after : Eventpoll) : Type 0 where
  pub freed : after.allocated x ≡ false
  pub hooked : member x after.waiting ≡ true
  pub listed_too : bit_and (watch_flags flags) polled ≢ 0 → member x after.ready_list ≡ true

-- A new item `x`, and its place on the ready list.
pub record Fresh (x conn flags polled : ℕ) (after : Eventpoll) : Type 0 where
  pub quiet : (after.item x).events ≡ 0
  pub own_conn : (after.item x).conn ≡ conn
  pub ready : bit_and (watch_flags flags) polled ≢ 0 → member x after.ready_list ≡ true

-- What an insertion that succeeds adds, and what it leaves.
pub record Added (x conn : ℕ) (ep after : Eventpoll) : Type 0 where
  pub now_waiting : after.waiting ≡ x ∷ ep.waiting
  pub now_ready : (after.ready_list ≡ ep.ready_list) ⊎ (after.ready_list ≡ x ∷ ep.ready_list)
  pub own : (after.item x).conn ≡ conn
  pub other : (y : ℕ) → (x == y) ≡ false → after.item y ≡ ep.item y

module _ (base : ℕ) (b : base < u32_mod) (rb : RbTree) (ep : Eventpoll)
    (s : IsSound base b ep) where
  -- The item's memory is taken, and its fields are set.
  module _ (x conn : ℕ) (sock : Sock) (flags polled : ℕ) (f : ep.allocated x ≡ false)
      (v : IsNear base sock) where
    it : Item
    it = setup_item conn sock flags

    held : Eventpoll
    held = (tcp_ep_item_alloc ep true (some x)).0

    listed : Eventpoll
    unfolding held it stitch_if_ready tcp_ep_item_alloc
    listed = stitch_if_ready (set_item held x it) x polled

    fresh_in_tree : All (λ y. (x == y) ≡ false) (inorder ep.hash_root)
    fresh_in_tree = Held-fresh ep x (inorder ep.hash_root) f s.tree_held

    -- Setting the item up changes no socket of the tree, nor the tree.
    listed_key : (y : ℕ) → key_of listed y ≡ (if x == y then sock else key_of ep y)
    unfolding listed
    listed_key y = ground arith

    listed_root : listed.hash_root ≡ ep.hash_root
    unfolding listed
    listed_root = ground arith

    listed_other : (y : ℕ) → (x == y) ≡ false → key_of listed y ≡ key_of ep y
    listed_other y n = listed_key y ∙ rw n refl

    listed_own : key_of listed x ≡ sock
    listed_own = listed_key x ∙ ground arith

    listed-Near : Near base b (key_of listed) (inorder listed.hash_root)
    listed-Near = rw listed_root (
        All-of_eq _ _ x (inorder ep.hash_root) (λ y n q. rw (listed_other y n) q) fresh_in_tree
          s.near)

    listed-Falls : Falls (at base b (key_of listed)) (inorder listed.hash_root)
    listed-Falls = rw listed_root (
        Falls-cong (at base b (key_of ep)) (at base b (key_of listed)) (inorder ep.hash_root)
          (All-mono (inorder ep.hash_root) (λ y n. ap (place base) (sym (listed_other y n)))
            fresh_in_tree)
          s.falls)

    -- The eventpoll once the item is in the tree `t`.
    linked : Tree → Eventpoll
    linked t = record (record listed { waiting = x ∷ listed.waiting }) { hash_root = t }

    listed_allocated : listed.allocated ≡ update ep.allocated x true
    unfolding listed
    listed_allocated = fun_ext λ y. ground arith

    linked-Held : (xs : List ℕ) → Held ep xs → All (λ y. listed.allocated y ≡ true) xs
    linked-Held xs h =
        subst (λ a. All (λ y. a y ≡ true) xs) (sym listed_allocated) (Held-alloc ep x xs h)

    linked_own : listed.allocated x ≡ true
    linked_own = ap (λ (a : ℕ → Bool). a x) listed_allocated ∙ ground arith

    not_ready : member x ep.ready_list ≡ false
    not_ready = member_of_fresh x ep.ready_list (Held-fresh ep x ep.ready_list f s.ready_held)

    listed_ready : (listed.ready_list ≡ ep.ready_list) ⊎ (listed.ready_list ≡ x ∷ ep.ready_list)
    unfolding listed
    listed_ready =
        elim (Bool-cases (tcp_epoll_check_events ((set_item held x it).item x) polled == 0)) [
          | inl z ↦ inl (rw z refl)
          | inr z ↦ inr (rw (z, not_ready) refl)
        ]

    linked_ready : Held listed listed.ready_list × Distinct listed.ready_list
    linked_ready = elim listed_ready [
      | inl e ↦ rw e (linked-Held ep.ready_list s.ready_held, s.distinct)
      | inr e ↦ rw e ((linked_own, linked-Held ep.ready_list s.ready_held), (not_ready, s.distinct))
    ]

    linked_waiting : listed.waiting ≡ ep.waiting
    unfolding listed
    linked_waiting = ground arith

    listed_item : (y : ℕ) → listed.item y ≡ (if x == y then it else ep.item y)
    unfolding listed
    listed_item y = ground arith

    linked_heads : All (λ y. (listed.item y).whead ≡ true) (x ∷ listed.waiting)
    unfolding it
    linked_heads = (
      ap (λ (i : Item). i.whead) (listed_item x) ∙ ground arith,
      rw linked_waiting (
          All-of_eq (λ y. (ep.item y).whead ≡ true) _ x ep.waiting
            (λ y n q. ap (λ (i : Item). i.whead) (listed_item y) ∙ rw n q)
            (Held-fresh ep x ep.waiting f s.waiting_held) s.waiting_heads),
    )

    linked-IsSound :
        (t : Tree)
        → tcp_ep_hash_insert (key_of listed) rb x listed.hash_root ≡ some t
        → IsSound base b (linked t)
    unfolding linked
    linked-IsSound t e =
        let (falls, near, k) =
          insert-Falls base b (key_of listed) x (rw listed_own v) rb listed.hash_root listed-Near
            listed-Falls t e in
        record {
          ready_held = linked_ready.0;
          waiting_held = (linked_own, rw linked_waiting (linked-Held ep.waiting s.waiting_held));
          waiting_heads = linked_heads;
          tree_held = rw k.after (
              All-insert (λ y. listed.allocated y ≡ true) x k.larger k.smaller linked_own
                (rw (ap inorder (sym listed_root) ∙ k.before) at
                  (linked-Held (inorder ep.hash_root) s.tree_held)));
          near = near;
          falls = falls;
          distinct = linked_ready.1;
        }

    result : Eventpoll × Errno
    result = tcp_epoll_insert rb ep conn sock flags true (some x) polled

    -- The eventpoll where the socket is in the tree already: the item is freed again.
    refused : Eventpoll
    refused = tcp_ep_item_free (record listed { waiting = x ∷ listed.waiting }) x

    outcome : Option Tree → Eventpoll × Errno
    outcome none = (refused, failed)
    outcome (some t) = (linked t, success)

    result-outcome : result ≡ outcome (tcp_ep_hash_insert (key_of listed) rb x listed.hash_root)
    unfolding result tcp_epoll_insert listed linked outcome refused
    result-outcome = ground arith

    outcome-IsSound :
        (o : Option Tree)
        → tcp_ep_hash_insert (key_of listed) rb x listed.hash_root ≡ o
        → (outcome o).1 ≡ success
        → IsSound base b (outcome o).0
    unfolding outcome
    outcome-IsSound none e q = absurd (cc)
    outcome-IsSound (some t) e q = linked-IsSound t e

    -- `tcp_epoll_insert` of an item that is not yet allocated, for a socket of the same half of the
    -- address space, keeps the eventpoll sound where it returns 0.
    pub tcp_epoll_insert-IsSound :
        (tcp_epoll_insert rb ep conn sock flags true (some x) polled).1 ≡ success
        → IsSound base b (tcp_epoll_insert rb ep conn sock flags true (some x) polled).0
    unfolding result
    tcp_epoll_insert-IsSound q = rw result-outcome (
        outcome-IsSound (tcp_ep_hash_insert (key_of listed) rb x listed.hash_root) refl
          (rw result-outcome at q))

    -- The same of the tree that the insertion searches.
    abbrev IsUnlinked : Type 0
    IsUnlinked =
        All (λ y. at base b (key_of listed) y ≢ at base b (key_of listed) x)
          (inorder listed.hash_root)

    IsNew-of_unlinked : IsUnlinked → IsNew base ep sock
    IsNew-of_unlinked a =
        All-of_eq _ _ x (inorder ep.hash_root)
          (λ y n q e. q (ap (place base) (listed_other y n) ∙ e ∙ ap (place base) (sym listed_own)))
          fresh_in_tree (rw listed_root at a)

    unlinked_of_new : IsNew base ep sock → IsUnlinked
    unlinked_of_new a = rw listed_root (
        All-of_eq _ _ x (inorder ep.hash_root)
          (λ y n q e. q (ap (place base) (sym (listed_other y n)) ∙ e ∙ ap (place base) listed_own))
          fresh_in_tree a)

    linked_iff :
        ((t : Tree) × (tcp_ep_hash_insert (key_of listed) rb x listed.hash_root ≡ some t))
        ↔ IsUnlinked
    linked_iff =
        insert-some_iff base b (key_of listed) x (rw listed_own v) rb listed.hash_root listed-Near
          listed-Falls

    outcome-some_iff :
        (o : Option Tree)
        → tcp_ep_hash_insert (key_of listed) rb x listed.hash_root ≡ o
        → ((outcome o).1 ≡ success) ↔ IsNew base ep sock
    unfolding outcome
    outcome-some_iff none e =
        (λ q. absurd (cc), λ a. absurd (cc (e, (linked_iff.1 (unlinked_of_new a)).1)))
    outcome-some_iff (some t) e = (λ q. IsNew-of_unlinked (linked_iff.0 (t, e)), λ a. refl)

    outcome-Dangling :
        (o : Option Tree) → (outcome o).1 ≢ success → Dangling x flags polled (outcome o).0
    unfolding outcome refused listed it tcp_ep_item_free
    outcome-Dangling none q = record {
      freed = ground arith;
      hooked = ground arith;
      listed_too = λ nz. ground (arith, not_ready);
    }
    outcome-Dangling (some t) q = absurd (q refl)

    -- `tcp_epoll_insert` of an item that is not yet allocated, for a socket of the same half of the
    -- address space, returns 0 exactly when no item of a sound eventpoll has the same peer. Else
    -- the item has been freed, but is on the socket's wait queue and, if an event of interest was there,
    -- on the ready list.
    pub tcp_epoll_insert_cases :
        (((tcp_epoll_insert rb ep conn sock flags true (some x) polled).1 ≡ success)
          ↔ IsNew base ep sock)
        × ((tcp_epoll_insert rb ep conn sock flags true (some x) polled).1 ≢ success
            → Dangling x flags polled
                (tcp_epoll_insert rb ep conn sock flags true (some x) polled).0)
    unfolding result
    tcp_epoll_insert_cases =
        let o = tcp_ep_hash_insert (key_of listed) rb x listed.hash_root in
        rw result-outcome (outcome-some_iff o refl, outcome-Dangling o)

    outcome-Fresh :
        (o : Option Tree) → (outcome o).1 ≡ success → Fresh x conn flags polled (outcome o).0
    unfolding outcome linked listed it
    outcome-Fresh none q = absurd (cc)
    outcome-Fresh (some t) q = record {
      quiet = ground arith;
      own_conn = ground arith;
      ready = λ nz. ground (arith, not_ready);
    }

    -- The item that `tcp_epoll_insert` has put in has no events, also where its socket was ready.
    pub tcp_epoll_insert-Fresh :
        (tcp_epoll_insert rb ep conn sock flags true (some x) polled).1 ≡ success
        → Fresh x conn flags polled (tcp_epoll_insert rb ep conn sock flags true (some x) polled).0
    unfolding result
    tcp_epoll_insert-Fresh q = rw result-outcome (
        outcome-Fresh (tcp_ep_hash_insert (key_of listed) rb x listed.hash_root)
          (rw result-outcome at q))

    linked-Added : (t : Tree) → Added x conn ep (linked t)
    unfolding linked it
    linked-Added t = record {
      now_waiting = ap (λ (w : List ℕ). x ∷ w) linked_waiting;
      now_ready = listed_ready;
      own = ap (λ (i : Item). i.conn) (listed_item x) ∙ ground arith;
      other = λ y n. listed_item y ∙ rw n refl;
    }

    outcome-Added : (o : Option Tree) → (outcome o).1 ≡ success → Added x conn ep (outcome o).0
    unfolding outcome
    outcome-Added none q = absurd (cc)
    outcome-Added (some t) q = linked-Added t

    -- An insertion that succeeds adds the item to the wait queues and perhaps to the ready list.
    pub tcp_epoll_insert-Added :
        (tcp_epoll_insert rb ep conn sock flags true (some x) polled).1 ≡ success
        → Added x conn ep (tcp_epoll_insert rb ep conn sock flags true (some x) polled).0
    unfolding result
    tcp_epoll_insert-Added q = rw result-outcome (
        outcome-Added (tcp_ep_hash_insert (key_of listed) rb x listed.hash_root)
          (rw result-outcome at q))
