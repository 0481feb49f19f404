-- ===== src/Herder/Pool.antt =====
-- A connection leaves its pool.
use tcphandoff.Common.{
  ℕ, ◌+◌, ◌≤◌, ◌<◌, ◌≡◌, refl, ap, ◌≢◌, Bool, true, false, Option, none, some, List, [], ◌∷◌, arith,
  length, member, u32_mod, done, deadlock, fault,
}
use tcphandoff.Sock.{Sock}
use tcphandoff.Poll.Tree.{Tree, node, RbTree, without}
use tcphandoff.Poll.{tcp_epoll_remove}
use tcphandoff.Herder.{Herder, ConnMemory, add_connection, tcpha_fe_conn_destroy, free_conn}

-- The pool and the memory once connection `c` has been destroyed.
pub record Destroyed (rb : RbTree) (mem : ConnMemory) (h : Herder) (c : ℕ) (sock : Sock)
    (mem' : ConnMemory) (h' : Herder) : Type 0 where
  pub unpooled : h'.conn_pool ≡ without c h.conn_pool
  pub unwatched : h'.eventpoll ≡ tcp_epoll_remove rb h.eventpoll sock
  pub same_size : h'.pool_size ≡ h.pool_size
  pub unlocked : h'.pool_locked ≡ false
  pub freed : mem'.allocated c ≡ false
  pub closed : (mem'.conn c).csock ≡ none
  pub others : (d : ℕ) → d ≢ c → (mem'.conn d ≡ mem.conn d) × (mem'.allocated d ≡ mem.allocated d)

module _ (rb : RbTree) (mem : ConnMemory) (h : Herder) (c : ℕ) where
  destroyed_herder : Sock → Herder
  destroyed_herder sock = record h {
    eventpoll = tcp_epoll_remove rb h.eventpoll sock;
    conn_pool = without c h.conn_pool;
    pool_locked = false;
  }

  destroy_open :
      (sock : Sock)
      → (mem.conn c).csock ≡ some sock
      → h.pool_locked ≡ false
      → tcpha_fe_conn_destroy rb mem h c ≡ done (free_conn mem c, destroyed_herder sock)
  unfolding tcpha_fe_conn_destroy destroyed_herder
  destroy_open sock e u = rw (e, u) refl

  -- `tcpha_fe_conn_destroy` reads through NULL where the connection has no socket and a socket is watched, never comes back
  -- where the pool's lock is held for writing, and else takes the connection from the pool and from the
  -- eventpoll, closes its socket and frees it; the count of the pool stays, and so do the other
  -- connections.
  pub tcpha_fe_conn_destroy_cases :
      ((l r : Tree) (x : ℕ)
        → (mem.conn c).csock ≡ none
        → h.eventpoll.hash_root ≡ node l x r
        → tcpha_fe_conn_destroy rb mem h c ≡ fault)
      × ((sock : Sock)
          → (mem.conn c).csock ≡ some sock
          → (h.pool_locked ≡ true → tcpha_fe_conn_destroy rb mem h c ≡ deadlock)
            × (h.pool_locked ≡ false
                → (mem' : ConnMemory) × (h' : Herder) × (tcpha_fe_conn_destroy rb mem h c
                    ≡ done (mem', h'))
                  × Destroyed rb mem h c sock mem' h'))
  unfolding tcpha_fe_conn_destroy destroyed_herder
  tcpha_fe_conn_destroy_cases = (
    λ l r x e q. rw (e, q) refl,
    λ sock e. (
      λ l. rw (e, l) refl,
      λ u. (
        free_conn mem c,
        destroyed_herder sock,
        destroy_open sock e u,
        record {
          unpooled = refl;
          unwatched = refl;
          same_size = refl;
          unlocked = refl;
          freed = ground arith;
          closed = ground arith;
          others = λ d n. (ground arith, ground arith);
        },
      ),
    ),
  )

-- The count of the pool is right.
abbrev pub Counts : Herder → Type 0
Counts h = h.pool_size ≡ length h.conn_pool

length-without_le : (c : ℕ) (xs : List ℕ) → length (without c xs) ≤ length xs
length-without_le c [] = omega arith
length-without_le c (x ∷ xs) = ground (arith, length-without_le c xs)

length-without_lt : (c : ℕ) (xs : List ℕ) → member c xs ≡ true → length (without c xs) < length xs
length-without_lt c [] m = absurd (cc)
length-without_lt c (x ∷ xs) m = ground (arith, length-without_lt c xs, length-without_le c xs)

-- The count of a pool is right after a connection has been added, if it was and does not overflow; after a connection
-- of the pool has been destroyed it is too large.
pub pool_size_drifts :
    (rb : RbTree) (h : Herder)
    → Counts h
    → ((c : ℕ) (sock : Sock) (cachep : Bool) (item : Option ℕ) (polled : ℕ)
        → h.pool_size + 1 < u32_mod
        → Counts (add_connection rb c sock cachep item polled h))
      × ((mem : ConnMemory) (c : ℕ) (sock : Sock)
          → (mem.conn c).csock ≡ some sock
          → h.pool_locked ≡ false
          → member c h.conn_pool ≡ true
          → (mem' : ConnMemory) × (h' : Herder) × (tcpha_fe_conn_destroy rb mem h c
              ≡ done (mem', h'))
            × (length h'.conn_pool < h'.pool_size))
unfolding add_connection
pool_size_drifts rb h n = (
  λ c sock cachep item polled l. omega arith,
  λ mem c sock e u m.
      let (mem', h', q, d) = ((tcpha_fe_conn_destroy_cases rb mem h c).1 sock e).1 u in
      (
        mem',
        h',
        q,
        omega (arith, ap length d.unpooled, d.same_size, length-without_lt c h.conn_pool m),
      ),
)
