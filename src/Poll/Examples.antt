-- ===== src/Poll/Examples.antt =====
-- The theorems about the eventpoll at a concrete one, and tests.
use tcphandoff.Common.{
  ℕ, ◌+◌, ◌<◌, ◌≡◌, refl, ap, ◌≢◌, ◌↔◌, true, false, ◌||◌, none, some, List, [], ◌∷◌, arith, ◌==◌,
  All, u32_mod,
}
use tcphandoff.Sock.{Sock, tcp_cmp_sock}
use tcphandoff.Sock.Order.{IsNear}
use tcphandoff.Poll.Tree.{
  Tree, leaf, node, inorder, without, RbTree, tcp_ep_hash_insert, tcp_ep_hash_find,
}
use tcphandoff.Poll.Tree.Find.{at, find_only_root}
use tcphandoff.Poll.Tree.Insert.{insert-some_iff}
use tcphandoff.Poll.{
  Eventpoll, Item, success, failed, key_of, tcp_epoll_insert, tcp_epoll_remove, pollin,
}
use tcphandoff.Poll.Lifetime.{IsSound}
use tcphandoff.Poll.Insert.{IsNew, Dangling, tcp_epoll_insert-IsSound, tcp_epoll_insert_cases}
use tcphandoff.Poll.Unreported.{ready_before_insert_unreported}
use tcphandoff.Poll.{tcp_epoll_wait, sleep_if_empty}
use tcphandoff.Poll.Remove.{Gone, tcp_epoll_remove-IsSound}

-- A tree function that keeps the order, and one that forgets an item: not balanced, but of the
-- documented effect.
abbrev pub spine : List ℕ → Tree
spine [] = leaf
spine (x ∷ xs) = node leaf x (spine xs)

pub inorder-spine : (xs : List ℕ) → inorder (spine xs) ≡ xs
inorder-spine [] = refl
inorder-spine (x ∷ xs) = ap (◌∷◌ x) (inorder-spine xs)

abbrev pub plain : RbTree
plain = record {
  rb_insert_color = λ x t. t;
  rb_erase = λ x t. spine (without x (inorder t));
  inorder-insert_color = λ x t. refl;
  inorder-erase = λ x t. inorder-spine (without x (inorder t));
}

-- Peer 10.0.0.p, port 80; the connection of item `p` is at 100 + p.
abbrev pub peer : ℕ → Sock
peer p = record { daddr = 0x0a00_0000 + p; dport = 80 }

abbrev pub watched : ℕ → Item
watched p = record { sock = peer p; event_flags = 0x2019; events = 0; whead = true; conn = 100 + p }

abbrev pub pool : Eventpoll
pool = record {
  ready_list = [];
  hash_root = node (node leaf 3 leaf) 2 (node leaf 1 leaf);
  should_wake = false;
  item = watched;
  allocated = λ p. p == 1 || (p == 2 || p == 3);
  waiting = 3 ∷ 2 ∷ 1 ∷ [];
  conn_events = λ c. 0;
}

pub low : 0 < u32_mod
low = omega arith

pub IsNear-peer : (p : ℕ) → p < 16 → IsNear 0 (peer p)
IsNear-peer p h = omega arith

pool-IsSound : IsSound 0 low pool
pool-IsSound = record {
  ready_held = tt;
  waiting_held = (refl, (refl, (refl, tt)));
  tree_held = (refl, (refl, (refl, tt)));
  waiting_heads = (refl, (refl, (refl, tt)));
  near = (
    IsNear-peer 3 (omega arith),
    (IsNear-peer 2 (omega arith), (IsNear-peer 1 (omega arith), tt)),
  );
  falls = omega arith;
  distinct = tt;
}

find_only_root_example :
    (tcp_ep_hash_find (key_of pool) (peer 2) pool.hash_root ≡ some 2)
    × All (λ x. tcp_ep_hash_find (key_of pool) (peer x) pool.hash_root ≡ none) (3 ∷ 1 ∷ [])
find_only_root_example =
    find_only_root 0 low (key_of pool) (node leaf 3 leaf) 2 (node leaf 1 leaf) pool-IsSound.near
      pool-IsSound.falls

-- The keys with a fourth peer.
insert-some_iff_example :
    ((t' : Tree) × (tcp_ep_hash_insert (key_of pool) plain 4 pool.hash_root ≡ some t'))
    ↔ All (λ y. at 0 low (key_of pool) y ≢ at 0 low (key_of pool) 4) (inorder pool.hash_root)
insert-some_iff_example =
    insert-some_iff 0 low (key_of pool) 4 (IsNear-peer 4 (omega arith)) plain pool.hash_root
      pool-IsSound.near pool-IsSound.falls

-- Where the fourth peer goes.
abbrev four : Tree
four = node (node (node leaf 4 leaf) 3 leaf) 2 (node leaf 1 leaf)

insert_four : (tcp_epoll_insert plain pool 104 (peer 4) pollin true (some 4) pollin).1 ≡ success
unfolding tcp_epoll_insert tcp_ep_hash_insert tcp_cmp_sock
insert_four = refl

tcp_epoll_insert-IsSound_example :
    IsSound 0 low (tcp_epoll_insert plain pool 104 (peer 4) pollin true (some 4) pollin).0
tcp_epoll_insert-IsSound_example =
    tcp_epoll_insert-IsSound 0 low plain pool pool-IsSound 4 104 (peer 4) pollin pollin refl
      (IsNear-peer 4 (omega arith)) insert_four

-- A second connection from peer 1.
tcp_epoll_insert_cases_example :
    (((tcp_epoll_insert plain pool 104 (peer 1) pollin true (some 4) pollin).1 ≡ success)
      ↔ IsNew 0 pool (peer 1))
    × ((tcp_epoll_insert plain pool 104 (peer 1) pollin true (some 4) pollin).1 ≢ success
        → Dangling 4 pollin pollin
            (tcp_epoll_insert plain pool 104 (peer 1) pollin true (some 4) pollin).0)
tcp_epoll_insert_cases_example =
    tcp_epoll_insert_cases 0 low plain pool pool-IsSound 4 104 (peer 1) pollin pollin refl
      (IsNear-peer 1 (omega arith))

insert_again : (tcp_epoll_insert plain pool 104 (peer 1) pollin true (some 4) pollin).1 ≡ failed
unfolding tcp_epoll_insert tcp_ep_hash_insert tcp_cmp_sock
insert_again = refl

tcp_epoll_remove-IsSound_example :
    IsSound 0 low (tcp_epoll_remove plain pool (peer 2))
    × ((x : ℕ)
        → tcp_ep_hash_find (key_of pool) (peer 2) pool.hash_root ≡ some x
        → Gone x (tcp_epoll_remove plain pool (peer 2)))
    × (tcp_ep_hash_find (key_of pool) (peer 2) pool.hash_root ≡ none
        → tcp_epoll_remove plain pool (peer 2) ≡ pool)
tcp_epoll_remove-IsSound_example = tcp_epoll_remove-IsSound 0 low plain pool (peer 2) pool-IsSound

-- Two items are ready, and there is room for one.
abbrev busy : Eventpoll
busy = record pool { ready_list = 3 ∷ 1 ∷ [] }

abbrev grown_pool : Eventpoll
grown_pool = (tcp_epoll_insert plain pool 104 (peer 4) pollin true (some 4) pollin).0

four_ready : grown_pool.ready_list ≡ 4 ∷ []
unfolding tcp_epoll_insert tcp_ep_hash_insert tcp_cmp_sock
four_ready = refl

-- The socket of item 4 is ready when it is inserted.
ready_before_insert_unreported_example :
    (sleep_if_empty grown_pool (λ e. e) ≡ grown_pool)
    × ((tcp_epoll_wait grown_pool 1024 (λ e. e)).1.conn_events 104 ≡ 0)
ready_before_insert_unreported_example =
    ready_before_insert_unreported 0 low plain pool pool-IsSound 4 104 (peer 4) pollin pollin 1024
      (λ e. e) refl (IsNear-peer 4 (omega arith)) insert_four (omega arith)
      (rw four_ready (refl, tt)) (rw four_ready (omega arith))
