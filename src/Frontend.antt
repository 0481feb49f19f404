-- ===== src/Frontend.antt =====
-- frontend/tcpha_fe.c: the front end as a module of the kernel, from `tcpha_init` to `tcpha_exit`. The
-- thread that accepts clients runs in between; what it gets from the kernel are arguments.
pub mod Unready
pub mod Unload
mod Examples
use tcphandoff.Common.{
  ℕ, zero, suc, ◌+◌, ◌-◌, ◌*◌, ◌/◌, ◌%◌, ◌^◌, ◌≤◌, ◌<◌, min, bit_and, bit_or, ◌≡◌, refl, sym, ap,
  ◌∙◌, subst, fun_ext, ◌≢◌, ◌↔◌, ◌⊎◌, inl, inr, Bool, true, false, not, ◌&&◌, ◌||◌, Option, none,
  some, List, [], ◌∷◌, ◌++◌, map, append-nil, append_assoc, arith, dec_lt, ℕ_discrete, ltb, leb,
  ◌==◌, if◌then◌else◌, ltb→lt, lt→ltb, leb→le, ==_iff, tests, Bool-cases, Option-cases, length,
  get_or, take, drop, replicate, All, length-append, length-take, take-append-drop, length-drop,
  length-replicate, take-append, get_or-append, get_or-take, All-append, All-left, All-right,
  All-mono, All-both, member, u32_mod, char_to_int, is_negative, Outcome, done, deadlock, fault,
  ◌>>=◌, IfDone, IfDone-any, IfDone-bind, Received, got, failed, write_at,
}
use tcphandoff.Poll.Tree.{RbTree}
use tcphandoff.Poll.{Errno}
use tcphandoff.Herder.{Herder, ConnMemory}
use tcphandoff.Common.{Cache, null, live, destroyed, is_set}
use tcphandoff.Herder.Lifecycle.{Caches, HerderList, Cpu, init_connections, destroy_connections}
use tcphandoff.Server.{
  Calls, Server, Accepted, setup_server_socket, pull_down_server_socket, accept_loop,
}
use tcphandoff.Server.Accept.{accepted}
use tcphandoff.Processor.Work.{Processor, processor_init, processor_destroy}

-- The variables of the module, those of the files that it uses, and the memory of the connections.
-- `has_list` says that `herder_list_init` has been called, and `server_task` that the thread that
-- accepts clients runs.
pub record FrontEnd : Type 0 where
  pub server_task : Bool
  pub server : Server
  pub port : ℕ
  pub herders : HerderList
  pub has_list : Bool
  pub processor : Processor
  pub caches : Caches
  pub mem : ConnMemory

-- The list of herders is initialised once both caches are there.
abbrev pub both_set : Caches → Bool
both_set caches = is_set caches.conn_cache && is_set caches.work_cache

-- `kthread_stop`, where the flag says that the thread accepts clients: its loop ends, and what follows
-- the loop.
pub stop_server : FrontEnd → Outcome FrontEnd
stop_server m =
    let closed = pull_down_server_socket m.server >>= λ s.
    done (record m { server = record s { running = false }; server_task = false }) in
    if m.server.running then closed else done m

module _ (rb : RbTree) where
  -- The state after loading, and the result. `created` says that the queue for work has been created,
  -- `conn_made`, `work_made` and `cpus` are what `init_connections` meets.
  pub tcpha_init : Bool → Bool → Bool → List Cpu → FrontEnd → Outcome (FrontEnd × ℕ)
  unfolding processor_init
  tcpha_init created conn_made work_made cpus m =
      init_connections rb m.mem m.caches m.herders conn_made work_made cpus >>= λ r.
      let (left, caches, list, err) = r in
      done (
        record m {
          server_task = true;
          port = 8080;
          herders = list;
          has_list = both_set caches;
          processor = processor_init created;
          caches = caches;
          mem = left;
        },
        0,
      )

  -- `tcpha_fe_conn_create` takes its memory from the cache, which must be there.
  pub accept_with :
      Cache → ConnMemory → List Herder → List (Option Accepted) → Outcome (ConnMemory × List Herder)
  accept_with live mem herders accepts = accept_loop rb mem herders accepts
  accept_with null mem herders accepts =
      if accepted accepts == 0 then done (mem, herders) else fault
  accept_with destroyed mem herders accepts =
      if accepted accepts == 0 then done (mem, herders) else fault

  -- What the thread that accepts clients does until it is told to stop: it ends by itself where the
  -- listening socket cannot be set up.
  pub serve : Calls → List (Option Accepted) → FrontEnd → Outcome FrontEnd
  unfolding accept_with
  serve calls accepts m =
      let (listening, err) = setup_server_socket calls m.server in
      let started = record listening { running = true } in
      let served = accept_with m.caches.conn_cache m.mem m.herders.herders accepts >>= λ left.
      done (record m {
        server = started;
        herders = record m.herders { herders = left.1 };
        mem = left.0;
      }) in
      if is_negative err
      then done (record m { server = listening; server_task = false })
      else served

  -- The list of herders must have been initialised.
  pub kill_herders : FrontEnd → Outcome FrontEnd
  kill_herders m =
      let killed = destroy_connections rb m.mem m.caches m.herders.herders >>= λ left.
      done
        (record m { herders = record m.herders { herders = [] }; mem = left.0; caches = left.1 }) in
      if m.has_list then killed else fault

  -- `freed` is the memory of the herders that have been freed. A thread that still runs when the module has gone
  -- runs in memory that is not mapped any more.
  pub tcpha_exit : (ℕ → Herder) → FrontEnd → Outcome FrontEnd
  unfolding stop_server kill_herders
  tcpha_exit freed m = do
    stopped ← stop_server m
    killed ← kill_herders stopped
    flushed ← processor_destroy rb killed.processor killed.mem freed
    let left = record killed { processor = flushed.0; mem = flushed.1 }
    if left.server_task then fault else done left
