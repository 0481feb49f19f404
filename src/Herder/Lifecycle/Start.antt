-- ===== src/Herder/Lifecycle/Start.antt =====
-- How `init_connections` ends, on every processor or not.
use tcphandoff.Common.{
  ℕ, ◌+◌, ◌-◌, ◌%◌, ◌≡◌, refl, sym, ap, ◌∙◌, inl, inr, ◌↔◌, ◌⊎◌, deadlock, Bool, true, false, List,
  [], ◌∷◌, ◌++◌, map, append-nil, arith, All, All-mono, u32_mod, Outcome, done, fault, ◌>>=◌,
}
use tcphandoff.Poll.Tree.{RbTree}
use tcphandoff.Poll.{Errno, tcp_epoll_init, success, enomem}
use tcphandoff.Herder.{Herder, ConnMemory}
use tcphandoff.Common.{is_set, destroyed}
use tcphandoff.Herder.Lifecycle.{
  Caches, HerderList, Cpu, create_if_null, herder_init, start_herders, init_connections,
  destroy_connection_herders,
}
use tcphandoff.Herder.Lifecycle.Teardown.{IsReady, IsEmpty, IsIdle, herders-Ended}

-- Its eventpoll has memory, and its thread is created.
abbrev pub Up : Cpu → Type 0
Up cpu = (cpu.has_memory ≡ true) × (cpu.has_thread ≡ true)

-- The thread that it starts ends when it is stopped; so does that of a herder.
abbrev pub EndsOn : Cpu → Type 0
EndsOn cpu = cpu.thread_ends ≡ true

abbrev pub Ends : Herder → Type 0
Ends h = h.thread_ends ≡ true

-- A herder that has just been started.
abbrev pub started_on : Cpu → Herder
started_on cpu = record {
  conn_pool = [];
  pool_locked = false;
  pool_size = 0;
  cpu = cpu.number;
  eventpoll = (tcp_epoll_init cpu.memory true).0;
  running = true;
  thread_ends = cpu.thread_ends;
}

-- The herders of the processors before those that are there, the last one first.
abbrev pub started : List Cpu → List Herder → List Herder
started [] hs = hs
started (cpu ∷ cpus) hs = started cpus (started_on cpu ∷ hs)

-- A list turned round, before another.
abbrev pub reverse_onto : List ℕ → List ℕ → List ℕ
reverse_onto [] ys = ys
reverse_onto (x ∷ xs) ys = reverse_onto xs (x ∷ ys)

start_one :
    (cpu : Cpu) (cpus : List Cpu) (hs : List Herder)
    → Up cpu
    → start_herders hs (cpu ∷ cpus) ≡ start_herders (started_on cpu ∷ hs) cpus
unfolding start_herders herder_init tcp_epoll_init
start_one cpu cpus hs u = ground (arith, u.0, u.1)

start_no_memory :
    (cpu : Cpu) (cpus : List Cpu) (hs : List Herder)
    → cpu.has_memory ≡ false
    → start_herders hs (cpu ∷ cpus) ≡ done (hs, false)
unfolding start_herders herder_init tcp_epoll_init
start_no_memory cpu cpus hs e = rw e refl

start_no_thread :
    (cpu : Cpu) (cpus : List Cpu) (hs : List Herder)
    → cpu.has_memory ≡ true
    → cpu.has_thread ≡ false
    → start_herders hs (cpu ∷ cpus) ≡ fault
unfolding start_herders herder_init tcp_epoll_init
start_no_thread cpu cpus hs e t = rw (e, t) refl

start_herders-Up :
    (before cpus : List Cpu) (hs : List Herder)
    → All Up before
    → start_herders hs (before ++ cpus) ≡ start_herders (started before hs) cpus
unfolding start_herders
start_herders-Up [] cpus hs a = refl
start_herders-Up (c ∷ before) cpus hs a =
    start_one c (before ++ cpus) hs a.0 ∙ start_herders-Up before cpus (started_on c ∷ hs) a.1

started-All :
    (P : Herder → Type 0) (cpus : List Cpu) (hs : List Herder)
    → ((cpu : Cpu) → P (started_on cpu))
    → All P hs
    → All P (started cpus hs)
started-All P [] hs p a = a
started-All P (c ∷ cpus) hs p a = started-All P cpus (started_on c ∷ hs) p (p c, a)

started_cpus :
    (cpus : List Cpu) (hs : List Herder)
    → map (λ (h : Herder). h.cpu) (started cpus hs)
      ≡ reverse_onto (map (λ (c : Cpu). c.number) cpus) (map (λ (h : Herder). h.cpu) hs)
started_cpus [] hs = refl
started_cpus (c ∷ cpus) hs = started_cpus cpus (started_on c ∷ hs)

started_ends :
    (cpus : List Cpu) (hs : List Herder)
    → (All EndsOn cpus × All Ends hs) ↔ All Ends (started cpus hs)
started_ends [] hs = (λ p. p.1, λ a. (tt, a))
started_ends (c ∷ cpus) hs = (
  λ p. (started_ends cpus (started_on c ∷ hs)).0 (p.0.1, (p.0.0, p.1)),
  λ a.
      let (ends, first) = (started_ends cpus (started_on c ∷ hs)).1 a in ((first.0, ends), first.1),
)

-- The threads of the herders that are started end exactly when those of their processors do.
pub started-Ends : (cpus : List Cpu) → All EndsOn cpus ↔ All Ends (started cpus [])
started-Ends cpus = (λ a. (started_ends cpus []).0 (a, tt), λ a. ((started_ends cpus []).1 a).0)

module _ (mem : ConnMemory) where
  -- The herder's task runs, its lock is free, and it has nothing to watch or to close.
  abbrev pub IsFresh : Herder → Type 0
  IsFresh h = (h.running ≡ true) × (h.pool_size ≡ 0) × IsReady mem h × IsEmpty h

  started-IsFresh : (cpus : List Cpu) → All IsFresh (started cpus [])
  unfolding tcp_epoll_init
  started-IsFresh cpus =
      started-All IsFresh cpus []
        (λ cpu. (refl, refl, record { unlocked = refl; sockets = tt }, (refl, refl))) tt

  pub fresh-IsIdle : (hs : List Herder) → All IsFresh hs → All Ends hs → All IsIdle hs
  fresh-IsIdle [] a e = tt
  fresh-IsIdle (h ∷ hs) a e = ((e.0, a.0.3), fresh-IsIdle hs a.1 e.1)

  -- It does not come back.
  abbrev pub IsStuck : {A : Type 0} → Outcome A → Type 0
  IsStuck r = (r ≡ deadlock) ⊎ (r ≡ fault)

  -- Fresh herders can be destroyed exactly when their threads end.
  destroy_fresh :
      (rb : RbTree) (hs : List Herder)
      → All IsFresh hs
      → (All Ends hs → destroy_connection_herders rb mem hs ≡ done mem)
        × (¬ All Ends hs → IsStuck (destroy_connection_herders rb mem hs))
  destroy_fresh rb hs a = elim (herders-Ended rb mem hs (All-mono hs (λ h p. p.2) a)) [
    | inl p ↦ (λ e. p.1, λ n. absurd (n (All-mono hs (λ h q. q.0) p.0)))
    | inr p ↦ (λ e. absurd (p.0 (fresh-IsIdle hs a e)), λ n. p.1)
  ]

-- What `init_connections` comes to when the two caches are there or can be made.
module _ (rb : RbTree) (mem : ConnMemory) (caches : Caches) (list : HerderList)
    (conn_made work_made : Bool) where
  -- The caches once they are used, and once they have been given up again.
  abbrev pub used_caches : Caches
  used_caches = record {
    mem_cache_use = (caches.mem_cache_use + 1) % u32_mod;
    conn_cache = create_if_null caches.conn_cache conn_made;
    work_cache = create_if_null caches.work_cache work_made;
  }

  abbrev pub dropped_caches : Caches
  dropped_caches = record {
    mem_cache_use = (used_caches.mem_cache_use + u32_mod - 1) % u32_mod;
    conn_cache = destroyed;
    work_cache = destroyed;
  }

  -- What is left once the herders have been started or not.
  abbrev finished :
      Outcome (List Herder × Bool) → Outcome (ConnMemory × Caches × HerderList × Errno)
  finished started = started >>= λ r. elim (r.1) [
    | true ↦ done (mem, used_caches, record { herders = r.0; list_locked = false }, success)
    | false ↦ destroy_connection_herders rb mem (r.0) >>= λ left.
        done (left, dropped_caches, record { herders = []; list_locked = true }, enomem)
  ]

  init_connections-finished :
      (cpus : List Cpu)
      → is_set used_caches.conn_cache ≡ true
      → is_set used_caches.work_cache ≡ true
      → init_connections rb mem caches list conn_made work_made cpus
        ≡ finished (start_herders [] cpus)
  unfolding init_connections
  init_connections-finished cpus c w = rw (c, w) refl

  finished-false :
      (hs : List Herder)
      → All (IsFresh mem) hs
      → (All Ends hs
          → finished (done (hs, false))
            ≡ done (mem, dropped_caches, record { herders = []; list_locked = true }, enomem))
        × (¬ All Ends hs → IsStuck mem (finished (done (hs, false))))
  finished-false hs a = (
    λ e. rw ((destroy_fresh mem rb hs a).0 e) refl,
    λ n. elim ((destroy_fresh mem rb hs a).1 n) [
      | inl q ↦ inl (rw q refl)
      | inr q ↦ inr (rw q refl)
    ],
  )

  -- `init_connections` when the caches are there or can be made: with memory and a thread for every processor it succeeds, with one
  -- fresh herder for each, the last one first, and the list's lock free; at the first processor without
  -- memory it destroys the herders so far, and returns with the list's lock still held for writing where all
  -- their threads end, and never where one does not; at the first one without a thread it reads through
  -- the error pointer.
  pub init_connections_cases :
      (before cpus : List Cpu)
      → is_set used_caches.conn_cache ≡ true
      → is_set used_caches.work_cache ≡ true
      → All Up before
      → ((hs : List Herder) × (init_connections rb mem caches list conn_made work_made before
            ≡ done (mem, used_caches, record { herders = hs; list_locked = false }, success))
          × (map (λ (h : Herder). h.cpu) hs ≡ reverse_onto (map (λ (c : Cpu). c.number) before) [])
          × All (IsFresh mem) hs
          × (All EndsOn before ↔ All Ends hs))
        × ((cpu : Cpu)
            → (cpu.has_memory ≡ false
                → let result =
                    init_connections rb mem caches list conn_made work_made
                      (before ++ (cpu ∷ cpus)) in
                  (All EndsOn before
                    → result
                      ≡ done (
                        mem,
                        dropped_caches,
                        record { herders = []; list_locked = true },
                        enomem,
                      ))
                  × (¬ All EndsOn before → IsStuck mem result))
              × (cpu.has_memory ≡ true
                  → cpu.has_thread ≡ false
                  → init_connections rb mem caches list conn_made work_made (before ++ (cpu ∷ cpus))
                    ≡ fault))
  unfolding start_herders
  init_connections_cases before cpus c w a = (
    (
      started before [],
      init_connections-finished before c w
          ∙ ap finished
              (ap (start_herders []) (sym (append-nil before)) ∙ start_herders-Up before [] [] a),
      started_cpus before [],
      started-IsFresh mem before,
      started-Ends before,
    ),
    λ cpu. (
      λ e.
          let same =
            init_connections-finished (before ++ (cpu ∷ cpus)) c w
            ∙ ap finished (
                start_herders-Up before (cpu ∷ cpus) [] a
                ∙ start_no_memory cpu cpus (started before []) e) in
          let (good, bad) = finished-false (started before []) (started-IsFresh mem before) in
          (
            λ ends. same ∙ good ((started-Ends before).0 ends),
            λ n. rw same (bad (λ ends. n ((started-Ends before).1 ends))),
          ),
      λ e t.
          init_connections-finished (before ++ (cpu ∷ cpus)) c w
          ∙ ap finished (
              start_herders-Up before (cpu ∷ cpus) [] a
              ∙ start_no_thread cpu cpus (started before []) e t),
    ),
  )
