-- ===== src/Herder/Lifecycle.antt =====
-- frontend/tcpha_fe_client_connection.c: how the herders start and end.
pub mod Teardown
pub mod Start
pub mod Failed
use tcphandoff.Common.{Cache, null, live, destroyed, is_set}
use tcphandoff.Common.{
  ℕ, zero, suc, ◌+◌, ◌-◌, ◌*◌, ◌/◌, ◌%◌, ◌^◌, ◌≤◌, ◌<◌, min, bit_and, bit_or, ◌≡◌, refl, sym, ap,
  ◌∙◌, subst, fun_ext, ◌≢◌, ◌↔◌, ◌⊎◌, inl, inr, Bool, true, false, not, ◌&&◌, ◌||◌, Option, none,
  some, List, [], ◌∷◌, ◌++◌, map, append-nil, append_assoc, arith, dec_lt, ℕ_discrete, ltb, leb,
  ◌==◌, if◌then◌else◌, ltb→lt, lt→ltb, leb→le, ==_iff, tests, Bool-cases, Option-cases, length,
  get_or, take, drop, replicate, All, length-append, length-take, take-append-drop, length-drop,
  length-replicate, take-append, get_or-append, get_or-take, All-append, member, u32_mod,
  char_to_int, is_negative, Outcome, done, deadlock, fault, ◌>>=◌,
}
use tcphandoff.Poll.Tree.{RbTree}
use tcphandoff.Poll.{Eventpoll, Errno, success, enomem, tcp_epoll_init, tcp_epoll_destroy}
use tcphandoff.Herder.{Herder, ConnMemory, FeConn, write_lock, write_unlock, tcpha_fe_conn_destroy}

-- The loop of `herder_destroy` over the pool, which holds the pool's lock.
pub destroy_pool : RbTree → ConnMemory → Herder → List ℕ → Outcome (ConnMemory × Herder)
destroy_pool rb mem h [] = done (mem, h)
destroy_pool rb mem h (c ∷ cs) =
    tcpha_fe_conn_destroy rb mem h c >>= λ r. destroy_pool rb r.0 r.1 cs

pub herder_destroy : RbTree → ConnMemory → Herder → Outcome ConnMemory
unfolding destroy_pool
herder_destroy rb mem h = do
  locked ← write_lock h
  cleared ← destroy_pool rb mem locked locked.conn_pool
  let unlocked = write_unlock (record (cleared.1) { conn_pool = [] })
  ended ← tcp_epoll_destroy unlocked.eventpoll
  done (cleared.0)

-- A herder is told to wake and is stopped, and then destroyed. `kthread_stop` waits for ever where the thread
-- does not end.
pub destroy_connection_herders : RbTree → ConnMemory → List Herder → Outcome ConnMemory
unfolding herder_destroy
destroy_connection_herders rb mem [] = done mem
destroy_connection_herders rb mem (h ∷ hs) =
    let woken = record h {
      eventpoll = record (h.eventpoll) { should_wake = true };
      running = false;
    } in
    let rest = herder_destroy rb mem woken >>= λ mem'. destroy_connection_herders rb mem' hs in
    if h.thread_ends then rest else deadlock

-- A cache is created where the pointer is NULL, if the kernel can.
abbrev pub create_if_null : Cache → Bool → Cache
create_if_null null true = live
create_if_null c _ = c

-- The users of the two memory caches, and the pointers to them.
pub record Caches : Type 0 where
  pub mem_cache_use : ℕ
  pub conn_cache : Cache
  pub work_cache : Cache

abbrev pub drop_caches : Caches → Caches
drop_caches k =
    let used = (k.mem_cache_use + u32_mod - 1) % u32_mod in
    if used == 0
    then record { mem_cache_use = used; conn_cache = destroyed; work_cache = destroyed }
    else record k { mem_cache_use = used }

-- What `kmem_cache_destroy` returns, which is the result of the code, is not kept.
pub destroy_connections : RbTree → ConnMemory → Caches → List Herder → Outcome (ConnMemory × Caches)
unfolding destroy_connection_herders
destroy_connections rb mem caches herders = do
  left ← destroy_connection_herders rb mem herders
  done (left, drop_caches caches)

-- `struct herder_list`, with its lock held for writing or not.
pub record HerderList : Type 0 where
  pub herders : List Herder
  pub list_locked : Bool

-- What starting a herder on a processor meets: the memory of its eventpoll, whether that can be had,
-- whether its thread is created, and whether that will end when it is stopped.
pub record Cpu : Type 0 where
  pub number : ℕ
  pub memory : Eventpoll
  pub has_memory : Bool
  pub has_thread : Bool
  pub thread_ends : Bool

pub herder_init : Cpu → Herder × Errno
herder_init cpu =
    let (ep, err) = tcp_epoll_init cpu.memory cpu.has_memory in
    (
      record {
        conn_pool = [];
        pool_locked = false;
        pool_size = 0;
        cpu = cpu.number;
        eventpoll = ep;
        running = false;
        thread_ends = cpu.thread_ends;
      },
      err,
    )

-- The loop of `init_connections` over the processors: the herders, and whether one could not be
-- initialised. `kthread_bind` reads the thread before it is tested.
pub start_herders : List Herder → List Cpu → Outcome (List Herder × Bool)
unfolding herder_init
start_herders hs [] = done (hs, true)
start_herders hs (cpu ∷ cpus) =
    let rest = start_herders (record ((herder_init cpu).0) { running = true } ∷ hs) cpus in
    elim (herder_init cpu).1 [
      | success ↦ if cpu.has_thread then rest else fault
      | _ ↦ done (hs, false)
    ]

-- `conn_made` and `work_made` say whether the kernel makes the two caches.
unfoldable pub init_connections :
    RbTree
    → ConnMemory
    → Caches
    → HerderList
    → Bool
    → Bool
    → List Cpu
    → Outcome (ConnMemory × Caches × HerderList × Errno)
unfolding start_herders destroy_connection_herders
init_connections rb mem caches list conn_made work_made cpus =
    let used = record caches {
      mem_cache_use = (caches.mem_cache_use + 1) % u32_mod;
      conn_cache = create_if_null caches.conn_cache conn_made;
    } in
    let both = record used { work_cache = create_if_null used.work_cache work_made } in
    let without_conn = record both {
      mem_cache_use = (both.mem_cache_use + u32_mod - 1) % u32_mod;
      conn_cache = destroyed;
    } in
    let without_both = record without_conn { work_cache = destroyed } in
    let started = start_herders [] cpus in
    if not (is_set used.conn_cache)
    then done (mem, used, list, enomem)
    else (if not (is_set both.work_cache)
        then done (mem, without_conn, list, enomem)
        else (started >>= λ r. elim (r.1) [
          | true ↦ done (mem, both, record { herders = r.0; list_locked = false }, success)
          | false ↦ destroy_connection_herders rb mem (r.0) >>= λ left.
              done (left, without_both, record { herders = []; list_locked = true }, enomem)
        ]))
