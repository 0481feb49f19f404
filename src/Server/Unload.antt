-- ===== src/Server/Unload.antt =====
-- From the start of the herders to their end, with clients between.
use tcphandoff.Common.{
  ℕ, suc, ◌+◌, ◌<◌, ◌≡◌, refl, sym, ap, ◌∙◌, subst, ◌↔◌, inl, inr, Bool, true, false, Option, none,
  some, List, [], ◌∷◌, ◌++◌, map, arith, ◌==◌, Bool-cases, length, All, length-append, All-append,
  All-left, All-right, All-mono, Outcome, done, ◌>>=◌,
}
use tcphandoff.Sock.{Sock}
use tcphandoff.Poll.Tree.{RbTree}
use tcphandoff.Poll.{success}
use tcphandoff.Herder.{max_int, Herder, ConnMemory, add_connection}
use tcphandoff.Herder.Balance.{Least, with_conn, tcpha_fe_conn_create_least}
use tcphandoff.Common.{is_set}
use tcphandoff.Herder.Lifecycle.{
  Caches, HerderList, Cpu, init_connections, destroy_connections, drop_caches,
}
use tcphandoff.Herder.Lifecycle.Teardown.{IsReady, IsEmpty, destroy_connections_cases}
use tcphandoff.Herder.Lifecycle.Start.{
  EndsOn, Ends, IsStuck, fresh-IsIdle, Up, IsFresh, reverse_onto, used_caches,
  init_connections_cases,
}
use tcphandoff.Server.{Accepted, accept_loop}
use tcphandoff.Server.Accept.{Room, Room-Small, grow-Room, accepted}

-- The connection has a socket.
abbrev Open : ConnMemory → ℕ → Type 0
Open mem c = (sock : Sock) × ((mem.conn c).csock ≡ some sock)

-- The number of connections in the pools.
abbrev pooled : List Herder → ℕ
pooled [] = 0
pooled (h ∷ hs) = length h.conn_pool + pooled hs

pooled-append : (hs ks : List Herder) → pooled (hs ++ ks) ≡ pooled hs + pooled ks
pooled-append [] ks = omega arith
pooled-append (h ∷ hs) ks = omega (arith, pooled-append hs ks)

pooled-IsEmpty : (hs : List Herder) → All IsEmpty hs → pooled hs ≡ 0
pooled-IsEmpty [] a = refl
pooled-IsEmpty (h ∷ hs) a =
    omega (arith, ap (λ (l : List ℕ). length l) a.0.0, pooled-IsEmpty hs a.1)

length-nonempty : (hs : List Herder) → hs ≡ [] → length hs ≡ 0
length-nonempty hs e = ap (λ (l : List Herder). length l) e

module _ (rb : RbTree) (mem : ConnMemory) (a : Accepted) where
  -- The memory once the client's connection is set up in it.
  abbrev mem_with : ConnMemory
  mem_with = with_conn rb mem a.conn a.sock a.cachep a.item a.polled

  abbrev add : Herder → Herder
  add = add_connection rb a.conn a.sock a.cachep a.item a.polled

  Open-with : (d : ℕ) → Open mem d → Open mem_with d
  Open-with d o = elim (Bool-cases (a.conn == d)) [
    | inl e ↦ (a.sock, ground arith)
    | inr n ↦ (o.0, ground (arith, n, o.1))
  ]

  IsReady-with : (h : Herder) → IsReady mem h → IsReady mem_with h
  IsReady-with h r = record {
    unlocked = r.unlocked;
    sockets = All-mono h.conn_pool Open-with r.sockets;
  }

  IsReady-add : (h : Herder) → IsReady mem h → IsReady mem_with (add h)
  unfolding add_connection
  IsReady-add h r = record {
    unlocked = r.unlocked;
    sockets = ((a.sock, ground arith), All-mono h.conn_pool Open-with r.sockets);
  }

  pooled-add : (h : Herder) → length (add h).conn_pool ≡ length h.conn_pool + 1
  unfolding add_connection
  pooled-add h = omega arith

  -- One client more: the pools are still ready, and hold one connection more.
  placed-IsReady :
      (hs : List Herder) (l : Least hs)
      → All (IsReady mem) hs
      → let hs' = l.before ++ (add l.herder ∷ l.after) in
        All (IsReady mem_with) hs' × (pooled hs' ≡ pooled hs + 1) × (0 < length hs')
  placed-IsReady hs l r =
      let all = subst (All (IsReady mem)) l.split r in
      let before = All-left (IsReady mem) l.before (l.herder ∷ l.after) all in
      let rest = All-right (IsReady mem) l.before (l.herder ∷ l.after) all in
      (
        All-append (IsReady mem_with) l.before (add l.herder ∷ l.after)
            (All-mono l.before IsReady-with before)
            (IsReady-add l.herder rest.0, All-mono l.after IsReady-with rest.1),
        omega (
          arith,
          pooled-add l.herder,
          ap pooled l.split,
          pooled-append l.before (l.herder ∷ l.after),
          pooled-append l.before (add l.herder ∷ l.after),
        ),
        omega (arith, length-append l.before (add l.herder ∷ l.after)),
      )

module _ (rb : RbTree) where
  -- What the accept loop leaves.
  abbrev Served : ℕ → List Herder → Outcome (ConnMemory × List Herder) → Type 0
  Served n hs result =
      (mem' : ConnMemory) × (hs' : List Herder) × (result ≡ done (mem', hs'))
      × All (IsReady mem') hs'
      × (pooled hs' ≡ pooled hs + n)

  serve-IsReady :
      (accepts : List (Option Accepted)) (mem : ConnMemory) (hs : List Herder)
      → 0 < length hs
      → Room (accepted accepts) hs
      → All (IsReady mem) hs
      → Served (accepted accepts) hs (accept_loop rb mem hs accepts)
  unfolding accept_loop
  serve-IsReady [] mem hs p room r = (mem, hs, refl, r, omega arith)
  serve-IsReady (none ∷ rest) mem hs p room r = serve-IsReady rest mem hs p room r
  serve-IsReady (some a ∷ rest) mem hs p room r =
      elim (tcpha_fe_conn_create_least rb mem a.conn a.sock a.cachep a.item a.polled hs
        (Room-Small (accepted rest + 1) hs room)) [
          | inl e ↦ absurd (omega (arith, p, length-nonempty hs e.0))
          | inr q ↦
              let l = q.0 in
              let (r1, more, p1) = placed-IsReady rb mem a hs l r in
              let hs1 = l.before ++ (add rb mem a l.herder ∷ l.after) in
              let room1 =
                grow-Room rb (accepted rest) a.conn a.sock a.cachep a.item a.polled hs l room in
              let (mem', hs', e, r', n) = serve-IsReady rest (mem_with rb mem a) hs1 p1 room1 r1 in
              (
                mem',
                hs',
                ap
                      (λ (o : Outcome (ConnMemory × List Herder)).
                        o >>= λ r. accept_loop rb r.0 r.1 rest)
                      q.1
                    ∙ e,
                r',
                omega (arith, n, more),
              )
        ]

  serve_none :
      (accepts : List (Option Accepted)) (mem : ConnMemory) (hs : List Herder)
      → accepted accepts ≡ 0
      → accept_loop rb mem hs accepts ≡ done (mem, hs)
  unfolding accept_loop
  serve_none [] mem hs e = refl
  serve_none (none ∷ rest) mem hs e = serve_none rest mem hs e
  serve_none (some a ∷ rest) mem hs e = absurd (omega arith)

length-reverse_onto : (xs ys : List ℕ) → length (reverse_onto xs ys) ≡ length xs + length ys
length-reverse_onto [] ys = omega arith
length-reverse_onto (x ∷ xs) ys = omega (arith, length-reverse_onto xs (x ∷ ys))

length-cpus : (hs : List Herder) → length (map (λ (h : Herder). h.cpu) hs) ≡ length hs
length-cpus [] = refl
length-cpus (h ∷ hs) = ap suc (length-cpus hs)

length-numbers : (cpus : List Cpu) → length (map (λ (c : Cpu). c.number) cpus) ≡ length cpus
length-numbers [] = refl
length-numbers (c ∷ cpus) = ap suc (length-numbers cpus)

-- What a loop has ended with, if it has.
abbrev ending :
    ConnMemory × List Herder → Outcome (ConnMemory × List Herder) → ConnMemory × List Herder
ending d (done p) = p
ending d _ = d

-- How the front end can be unloaded, with `n` clients and where `E` says that all threads end.
abbrev pub Unloads : ℕ → Type 0 → Outcome (ConnMemory × Caches) → ConnMemory → Caches → Type 0
Unloads n E result mem caches =
    (n ≡ 0 → E → result ≡ done (mem, caches))
    × (n ≡ 0 → ¬ E → IsStuck mem result)
    × (0 < n → IsStuck mem result)

Unloads-iff :
    {n : ℕ} {E F : Type 0} {result : Outcome (ConnMemory × Caches)} {mem : ConnMemory}
    {caches : Caches}
    → E ↔ F
    → Unloads n F result mem caches
    → Unloads n E result mem caches
Unloads-iff i (good, hangs, stuck) =
    (λ z e. good z (i.0 e), λ z ne. hangs z (λ f. ne (i.1 f)), stuck)

module _ (rb : RbTree) (mem : ConnMemory) (caches : Caches) (list : HerderList)
    (conn_made work_made : Bool) where
  -- The caches while the module is loaded.
  abbrev pub in_use : Caches
  in_use = used_caches rb mem caches list conn_made work_made

  idle_unloads :
      (hs : List Herder)
      → All (IsFresh mem) hs
      → let result = destroy_connections rb mem in_use hs in
        (All Ends hs → result ≡ done (mem, drop_caches in_use))
        × (¬ All Ends hs → IsStuck mem result)
  idle_unloads hs fresh =
      elim (destroy_connections_cases rb mem in_use hs (All-mono hs (λ h p. p.2) fresh)) [
        | inl p ↦ (λ e. p.1, λ n. absurd (n (All-mono hs (λ h q. q.0) p.0)))
        | inr p ↦ (λ e. absurd (p.0 (fresh-IsIdle mem hs fresh e)), λ n. p.1)
      ]

  ended :
      (accepts : List (Option Accepted)) (hs hs' : List Herder) (mem' : ConnMemory)
      → All (IsFresh mem) hs
      → accept_loop rb mem hs accepts ≡ done (mem', hs')
      → All (IsReady mem') hs'
      → pooled hs' ≡ accepted accepts
      → Unloads
          (accepted accepts)
          (All Ends hs)
          (destroy_connections rb mem' in_use hs')
          mem
          (drop_caches in_use)
  ended accepts hs hs' mem' fresh e r n = (
    λ z ends.
        subst
          (λ (p : ConnMemory × List Herder).
            destroy_connections rb p.0 in_use p.1 ≡ done (mem, drop_caches in_use))
          (same z) ((idle_unloads hs fresh).0 ends),
    λ z hangs.
        subst
          (λ (p : ConnMemory × List Herder). IsStuck mem (destroy_connections rb p.0 in_use p.1))
          (same z) ((idle_unloads hs fresh).1 hangs),
    λ l. elim (destroy_connections_cases rb mem' in_use hs' r) [
      | inl p ↦ absurd (omega (arith, pooled-IsEmpty hs' (All-mono hs' (λ h q. q.1) p.0), n, l))
      | inr p ↦ p.1
    ],
  )
    where
      same : accepted accepts ≡ 0 → ◌≡◌ {A = ConnMemory × List Herder} (mem, hs) (mem', hs')
      same z = ap (ending (mem, hs)) (sym (serve_none rb accepts mem hs z) ∙ e)

  -- The front end is loaded on processors that all have memory and a thread, some clients are accepted, within
  -- the search's limit, and it is unloaded while they are connected: loading succeeds, the accept loop ends, and
  -- unloading comes back, with the memory as it was and the caches given up, where no client was accepted
  -- and the threads end; with one or more, or where a thread does not end, it never does.
  pub served-Unloads :
      (cpus : List Cpu) (accepts : List (Option Accepted))
      → is_set in_use.conn_cache ≡ true
      → is_set in_use.work_cache ≡ true
      → All Up cpus
      → 0 < length cpus
      → accepted accepts < max_int
      → (hs hs' : List Herder) × (mem' : ConnMemory) × (init_connections rb mem caches list
            conn_made work_made cpus
          ≡ done (mem, in_use, record { herders = hs; list_locked = false }, success))
        × (accept_loop rb mem hs accepts ≡ done (mem', hs'))
        × Unloads
            (accepted accepts)
            (All EndsOn cpus)
            (destroy_connections rb mem' in_use hs')
            mem
            (drop_caches in_use)
  served-Unloads cpus accepts c w up some_cpu few =
      let (hs, e, order, fresh, ends) =
        (init_connections_cases rb mem caches list conn_made work_made cpus [] c w up).0 in
      let count : length hs ≡ length cpus = omega (
        arith,
        length-cpus hs,
        length-numbers cpus,
        ap (λ (l : List ℕ). length l) order,
        length-reverse_onto (map (λ (c : Cpu). c.number) cpus) [],
      ) in
      let (mem', hs', q, r, n) =
        serve-IsReady rb accepts mem hs (omega (arith, count, some_cpu))
          (All-mono hs (λ h p. omega (arith, p.1, few)) fresh) (All-mono hs (λ h p. p.2) fresh) in
      (
        hs,
        hs',
        mem',
        e,
        q,
        Unloads-iff ends (
            ended accepts hs hs' mem' fresh q r
              (omega (arith, n, pooled-IsEmpty hs (All-mono hs (λ h p. p.3) fresh)))),
      )
