-- ===== src/Herder/Lifecycle/Teardown.antt =====
-- When the herders can be destroyed.
use tcphandoff.Common.{
  ℕ, ◌≡◌, refl, ap, ◌∙◌, ◌≢◌, ◌⊎◌, inl, inr, Bool, if◌then◌else◌, true, false, some, List, [], ◌∷◌,
  arith, All, Outcome, done, deadlock, fault, ◌>>=◌,
}
use tcphandoff.Sock.{Sock}
use tcphandoff.Poll.Tree.{RbTree, inorder}
use tcphandoff.Poll.{tcp_epoll_destroy}
use tcphandoff.Herder.{Herder, ConnMemory, write_lock}
use tcphandoff.Herder.Pool.{tcpha_fe_conn_destroy_cases}
use tcphandoff.Herder.Lifecycle.{
  destroy_pool, herder_destroy, destroy_connection_herders, destroy_connections, Caches,
  drop_caches,
}

-- The lock of the pool is free, and the connections of the pool have sockets.
pub record IsReady (mem : ConnMemory) (h : Herder) : Type 0 where
  pub unlocked : h.pool_locked ≡ false
  pub sockets : All (λ c. (sock : Sock) × ((mem.conn c).csock ≡ some sock)) h.conn_pool

-- Nothing is left to watch or to close.
abbrev pub IsEmpty : Herder → Type 0
IsEmpty h = (h.conn_pool ≡ []) × (inorder h.eventpoll.hash_root ≡ [])

-- The same, and the thread ends when it is stopped.
abbrev pub IsIdle : Herder → Type 0
IsIdle h = (h.thread_ends ≡ true) × IsEmpty h

nil_cases : {A : Type 0} (xs : List A) → (xs ≡ []) ⊎ (xs ≢ [])
nil_cases [] = inl refl
nil_cases (x ∷ xs) = inr (λ e. cc)

module _ (rb : RbTree) (mem : ConnMemory) where
  destroy_pool_stuck :
      (h : Herder) (c : ℕ) (cs : List ℕ)
      → h.pool_locked ≡ true
      → ((sock : Sock) × ((mem.conn c).csock ≡ some sock))
      → destroy_pool rb mem h (c ∷ cs) ≡ deadlock
  unfolding destroy_pool
  destroy_pool_stuck h c cs l (sock, e) =
      ap (λ (r : Outcome (ConnMemory × Herder)). r >>= λ p. destroy_pool rb p.0 p.1 cs)
        (((tcpha_fe_conn_destroy_cases rb mem h c).1 sock e).0 l)

  -- What becomes of a herder whose lock is free.
  abbrev pub Torn : Herder → Outcome ConnMemory → Type 0
  Torn h r =
      (IsEmpty h → r ≡ done mem)
      × (h.conn_pool ≢ [] → r ≡ deadlock)
      × (h.conn_pool ≡ [] → inorder h.eventpoll.hash_root ≢ [] → r ≡ fault)

  abbrev held : Herder → Herder
  held h = record h { pool_locked = true }

  -- `herder_destroy` once it has the lock.
  abbrev destroy_held : Herder → List ℕ → Outcome ConnMemory
  destroy_held h pool = destroy_pool rb mem (held h) pool >>= λ cleared.
      tcp_epoll_destroy cleared.1.eventpoll >>= λ destroyed. done cleared.0

  herder_destroy-held :
      (h : Herder) → h.pool_locked ≡ false → herder_destroy rb mem h ≡ destroy_held h h.conn_pool
  unfolding herder_destroy write_lock
  herder_destroy-held h u = rw u refl

  destroy_held-empty :
      (h : Herder)
      → (inorder h.eventpoll.hash_root ≡ [] → destroy_held h [] ≡ done mem)
        × (inorder h.eventpoll.hash_root ≢ [] → destroy_held h [] ≡ fault)
  unfolding destroy_pool tcp_epoll_destroy
  destroy_held-empty h = (λ e. rw (e, tcp_epoll_destroy) refl, λ n. ground arith)

  destroy_held_stuck :
      (h : Herder) (pool : List ℕ)
      → All (λ c. (sock : Sock) × ((mem.conn c).csock ≡ some sock)) pool
      → pool ≢ []
      → destroy_held h pool ≡ deadlock
  destroy_held_stuck h [] a n = absurd (n refl)
  destroy_held_stuck h (c ∷ cs) a n = rw (destroy_pool_stuck (held h) c cs refl a.0) refl

  -- `herder_destroy` of a herder without connections and watched sockets ends; with a connection in
  -- the pool it waits for the lock that it holds, for ever; with an empty pool and a socket still
  -- watched it reads freed memory. The pool's lock is free, and the pooled connections have sockets.
  herder_destroy-Torn : (h : Herder) → IsReady mem h → Torn h (herder_destroy rb mem h)
  herder_destroy-Torn h v = rw (herder_destroy-held h v.unlocked) (
    λ idle. ap (destroy_held h) idle.0 ∙ (destroy_held-empty h).0 idle.1,
    λ n. destroy_held_stuck h h.conn_pool v.sockets n,
    λ e n. ap (destroy_held h) e ∙ (destroy_held-empty h).1 n,
  )

  -- Every outcome: nothing was left and the memory is as it was, or something was and there is no end.
  abbrev pub Ended : Type 0 → Outcome ConnMemory → Type 0
  Ended P r = (P × (r ≡ done mem)) ⊎ (¬ P × ((r ≡ deadlock) ⊎ (r ≡ fault)))

  Torn-Ended : (h : Herder) (r : Outcome ConnMemory) → Torn h r → Ended (IsEmpty h) r
  Torn-Ended h r (idle, stuck, left) = elim (nil_cases h.conn_pool) [
    | inr n ↦ inr (λ i. n i.0, inl (stuck n))
    | inl e ↦ elim (nil_cases (inorder h.eventpoll.hash_root)) [
      | inl t ↦ inl ((e, t), idle (e, t))
      | inr t ↦ inr (λ i. t i.1, inr (left e t))
    ]
  ]

  -- The thread ends or not, and then the herder is destroyed.
  Ended-stop :
      (ends : Bool) (P : Type 0) (r : Outcome ConnMemory)
      → Ended P r
      → Ended ((ends ≡ true) × P) (if ends then r else deadlock)
  Ended-stop true P r (inl (p, e)) = inl ((refl, p), e)
  Ended-stop true P r (inr (n, q)) = inr (λ p. n p.1, q)
  Ended-stop false P r x = inr (λ p. absurd (cc (p.0)), inl refl)

  stop-first :
      (ends : Bool) (r : Outcome ConnMemory) (f : ConnMemory → Outcome ConnMemory)
      → (if ends then (r >>= f) else deadlock) ≡ ((if ends then r else deadlock) >>= f)
  stop-first true r f = refl
  stop-first false r f = refl

  Ended-next :
      (h : Herder) (hs : List Herder) (r : Outcome ConnMemory) (f : ConnMemory → Outcome ConnMemory)
      → Ended (IsIdle h) r
      → Ended (All IsIdle hs) (f mem)
      → Ended (All IsIdle (h ∷ hs)) (r >>= f)
  Ended-next h hs r f (inr (n, inl e)) next = inr (λ a. n a.0, inl (rw e refl))
  Ended-next h hs r f (inr (n, inr e)) next = inr (λ a. n a.0, inr (rw e refl))
  Ended-next h hs r f (inl (i, e)) (inl (a, q)) = inl ((i, a), rw e q)
  Ended-next h hs r f (inl (i, e)) (inr (n, q)) = inr (λ a. n a.1, rw e q)

  pub herders-Ended :
      (hs : List Herder)
      → All (IsReady mem) hs
      → Ended (All IsIdle hs) (destroy_connection_herders rb mem hs)
  unfolding destroy_connection_herders
  herders-Ended [] a = inl (tt, refl)
  herders-Ended (h ∷ hs) a =
      let woken : Herder = record h {
        eventpoll = record (h.eventpoll) { should_wake = true };
        running = false;
      } in
      let ready : IsReady mem woken = record { unlocked = a.0.unlocked; sockets = a.0.sockets } in
      let destroyed = herder_destroy rb mem woken in
      rw (stop-first h.thread_ends destroyed (λ m. destroy_connection_herders rb m hs)) (
        Ended-next h hs (if h.thread_ends then destroyed else deadlock)
          (λ m. destroy_connection_herders rb m hs)
          (Ended-stop h.thread_ends (IsEmpty woken) destroyed
            (Torn-Ended woken destroyed (herder_destroy-Torn woken ready)))
          (herders-Ended hs a.1))

  abbrev dropped : Caches → Outcome ConnMemory → Outcome (ConnMemory × Caches)
  dropped caches r = r >>= λ left. done (left, drop_caches caches)

  finish :
      (caches : Caches) (P : Type 0) (r : Outcome ConnMemory)
      → Ended P r
      → (P × (dropped caches r ≡ done (mem, drop_caches caches)))
        ⊎ (¬ P × ((dropped caches r ≡ deadlock) ⊎ (dropped caches r ≡ fault)))
  finish caches P r (inl (p, e)) = inl (p, rw e refl)
  finish caches P r (inr (n, inl e)) = inr (n, inl (rw e refl))
  finish caches P r (inr (n, inr e)) = inr (n, inr (rw e refl))

  -- `destroy_connections` comes back exactly when the thread of every herder ends once it is stopped, and no
  -- herder has a connection in its pool or a socket in its eventpoll, and then gives up its use of
  -- the caches; else it waits for a thread or a lock for ever or reads freed memory. The locks of the pools are free, and the pooled connections have sockets.
  pub destroy_connections_cases :
      (caches : Caches) (hs : List Herder)
      → All (IsReady mem) hs
      → (All IsIdle hs × (destroy_connections rb mem caches hs ≡ done (mem, drop_caches caches)))
        ⊎ (¬ All IsIdle hs
            × ((destroy_connections rb mem caches hs ≡ deadlock)
                ⊎ (destroy_connections rb mem caches hs ≡ fault)))
  unfolding destroy_connections
  destroy_connections_cases caches hs a =
      finish caches (All IsIdle hs) (destroy_connection_herders rb mem hs) (herders-Ended hs a)
