-- ===== src/Frontend/Unload.antt =====
-- The front end from loading to unloading.
use tcphandoff.Common.{
  ℕ, zero, suc, ◌<◌, ◌≡◌, refl, ap, ◌∙◌, ◌⊎◌, inl, inr, true, false, Option, List, [], arith,
  if◌then◌else◌, if_false, if_false, length, All, Outcome, done, deadlock, fault, ◌>>=◌, bind_done,
}
use tcphandoff.Poll.Tree.{RbTree}
use tcphandoff.Poll.{success}
use tcphandoff.Herder.{Herder, ConnMemory, max_int}
use tcphandoff.Common.{Cache, null, live, destroyed}
use tcphandoff.Herder.Lifecycle.{Caches, Cpu, drop_caches, destroy_connections}
use tcphandoff.Herder.Lifecycle.Start.{Up, EndsOn}
use tcphandoff.Server.{Calls, Server, Accepted, accept_loop, pull_down_server_socket}
use tcphandoff.Server.Accept.{accepted}
use tcphandoff.Server.Unload.{in_use, served-Unloads}
use tcphandoff.Processor.Work.{
  Processor, processor_init, processor_destroy, gone_processor, init-processor_destroy,
}
use tcphandoff.Frontend.{
  FrontEnd, tcpha_init, accept_with, serve, stop_server, kill_herders, tcpha_exit,
}
use tcphandoff.Frontend.Unready.{
  Opens, loaded_with, served_with, tcpha_init-loaded, serve-Opens, kill-listed,
}

-- The front end is gone: the memory and the open sockets are as before, and the caches are given up.
pub record Gone (m : FrontEnd) (caches : Caches) (result : Outcome FrontEnd) : Type 0 where
  pub after : FrontEnd
  pub ended : result ≡ done after
  pub same_mem : after.mem ≡ m.mem
  pub same_socks : after.server.open_socks ≡ m.server.open_socks
  pub stopped : after.server.running ≡ false
  pub no_thread : after.server_task ≡ false
  pub no_cache : after.caches ≡ caches
  pub no_queue : after.processor.workqueue ≡ false

module _ (rb : RbTree) (freed : ℕ → Herder) where
  -- The server has been stopped, and its socket closed.
  abbrev stopped_from : Server → FrontEnd → FrontEnd
  stopped_from server k = record k {
    server = record k.server { running = false; open_socks = server.open_socks };
    server_task = false;
  }

  stop_server-served :
      (calls : Calls) (m : FrontEnd) (left : ConnMemory × List Herder)
      → stop_server (served_with rb calls m left)
        ≡ done (stopped_from m.server (served_with rb calls m left))
  unfolding stop_server pull_down_server_socket
  stop_server-served calls m left = ground arith

  -- What follows the destruction of the herders.
  abbrev ends : FrontEnd → Outcome FrontEnd
  ends killed = processor_destroy rb killed.processor killed.mem freed >>= λ flushed.
      let left = record killed { processor = flushed.0; mem = flushed.1 } in
      if left.server_task then fault else done left

  exit-stopped :
      (m stopped : FrontEnd)
      → stop_server m ≡ done stopped
      → tcpha_exit rb freed m ≡ (kill_herders rb stopped >>= ends)
  unfolding tcpha_exit
  exit-stopped m stopped e = rw e refl

  exit-destroys :
      (m stopped : FrontEnd) (o : Outcome (ConnMemory × Caches))
      → stop_server m ≡ done stopped
      → stopped.has_list ≡ true
      → destroy_connections rb stopped.mem stopped.caches stopped.herders.herders ≡ o
      → tcpha_exit rb freed m ≡ (
          o >>= λ left. ends (record stopped {
            herders = record stopped.herders { herders = [] };
            mem = left.0;
            caches = left.1;
          }))
  exit-destroys m stopped o e listed d =
      exit-stopped m stopped e
      ∙ ap (λ (k : Outcome FrontEnd). k >>= ends) (kill-listed rb stopped listed)
      ∙ bind_done (destroy_connections rb stopped.mem stopped.caches stopped.herders.herders)
          (λ left. record stopped {
            herders = record stopped.herders { herders = [] };
            mem = left.0;
            caches = left.1;
          })
          ends
      ∙ ap
          (λ (t : Outcome (ConnMemory × Caches)). t >>= λ left. ends (record stopped {
            herders = record stopped.herders { herders = [] };
            mem = left.0;
            caches = left.1;
          }))
          d

  -- Nothing is queued: the queue goes.
  ends-idle :
      (k : FrontEnd)
      → k.server_task ≡ false
      → k.processor ≡ processor_init true
      → ends k ≡ done (record k { processor = gone_processor })
  ends-idle k t p =
      let left = record k { processor = gone_processor } in
      ap
        (λ (o : Outcome (Processor × ConnMemory)). o >>= λ flushed.
          let left = record k { processor = flushed.0; mem = flushed.1 } in
          if left.server_task then fault else done left)
        (init-processor_destroy rb k.processor k.mem freed p)
      ∙ if_false k.server_task fault (done left) t

  accept_with-live :
      (c : Cache) (mem : ConnMemory) (hs : List Herder) (accepts : List (Option Accepted))
      → c ≡ live
      → accept_with rb c mem hs accepts ≡ accept_loop rb mem hs accepts
  unfolding accept_with
  accept_with-live null mem hs accepts e = absurd (cc)
  accept_with-live live mem hs accepts e = refl
  accept_with-live destroyed mem hs accepts e = absurd (cc)

  module _ (m : FrontEnd) (calls : Calls) (cpus : List Cpu) (accepts : List (Option Accepted))
      (no_conn : m.caches.conn_cache ≡ null) (no_work : m.caches.work_cache ≡ null) where
    -- The caches while the module is loaded.
    abbrev pub used : Caches
    used = in_use rb m.mem m.caches m.herders true true

    abbrev loaded : List Herder → FrontEnd
    loaded hs = loaded_with true m.mem used (record { herders = hs; list_locked = false }) m

    abbrev stopped : List Herder → ConnMemory × List Herder → FrontEnd
    stopped hs left = stopped_from m.server (served_with rb calls (loaded hs) left)

    exit-served :
        (hs : List Herder) (left : ConnMemory × List Herder) (o : Outcome (ConnMemory × Caches))
        → destroy_connections rb left.0 used left.1 ≡ o
        → tcpha_exit rb freed (served_with rb calls (loaded hs) left) ≡ (
            o >>= λ k. ends (record (stopped hs left) {
              herders = record { herders = []; list_locked = false };
              mem = k.0;
              caches = k.1;
            }))
    exit-served hs left o e =
        exit-destroys (served_with rb calls (loaded hs) left) (stopped hs left) o
          (stop_server-served calls (loaded hs) left) (rw (no_conn, no_work) refl) e

    serve-loaded :
        (hs : List Herder) (left : ConnMemory × List Herder)
        → Opens calls
        → accept_loop rb m.mem hs accepts ≡ done left
        → serve rb calls accepts (loaded hs) ≡ done (served_with rb calls (loaded hs) left)
    serve-loaded hs left o e =
        serve-Opens rb calls accepts (loaded hs) o
        ∙ ap
            (λ (t : Outcome (ConnMemory × List Herder)).
              t >>= λ l. done (served_with rb calls (loaded hs) l))
            (accept_with-live used.conn_cache m.mem hs accepts (rw no_conn refl) ∙ e)

    exit-Gone :
        (hs : List Herder) (left : ConnMemory × List Herder)
        → destroy_connections rb left.0 used left.1 ≡ done (m.mem, drop_caches used)
        → Gone m (drop_caches used) (tcpha_exit rb freed (served_with rb calls (loaded hs) left))
    exit-Gone hs left e =
        let k = record (stopped hs left) {
          herders = record { herders = []; list_locked = false };
          mem = m.mem;
          caches = drop_caches used;
        } in
        record {
          after = record k { processor = gone_processor };
          ended = exit-served hs left (done (m.mem, drop_caches used)) e ∙ ends-idle k refl refl;
          same_mem = refl;
          same_socks = refl;
          stopped = refl;
          no_thread = refl;
          no_cache = refl;
          no_queue = refl;
        }

    stuck_or : {P Q : Type 0} (n : ℕ) → (0 < n → P) → (n ≡ 0 → ¬ Q → P) → (0 < n) ⊎ (¬ Q) → P
    stuck_or n stuck hangs (inl p) = stuck p
    stuck_or zero stuck hangs (inr q) = hangs refl q
    stuck_or (suc n) stuck hangs (inr q) = stuck (omega arith)

    never :
        (hs : List Herder) (left : ConnMemory × List Herder) (o : Outcome (ConnMemory × Caches))
        → destroy_connections rb left.0 used left.1 ≡ o
        → (o ≡ deadlock) ⊎ (o ≡ fault)
        → (tcpha_exit rb freed (served_with rb calls (loaded hs) left) ≡ deadlock)
          ⊎ (tcpha_exit rb freed (served_with rb calls (loaded hs) left) ≡ fault)
    never hs left o e (inl d) = inl (exit-served hs left deadlock (e ∙ d))
    never hs left o e (inr d) = inr (exit-served hs left fault (e ∙ d))

    -- The front end is loaded where no cache exists yet, on processors that all have memory and a thread; its
    -- listening socket is set up, some clients are accepted, within the search's limit, and it is unloaded, no
    -- work being queued. Then loading returns 0 and the clients are served, and unloading comes to an end
    -- where no client was accepted and the threads of all herders end once they are stopped: the memory and the
    -- open sockets are as before, the thread, the queue and the caches are gone. With one client or more, all
    -- still connected, or where a herder's thread does not end, it never does.
    pub front_end-Unloads :
        Opens calls
        → All Up cpus
        → 0 < length cpus
        → accepted accepts < max_int
        → (loaded served : FrontEnd) × (tcpha_init rb true true true cpus m ≡ done (loaded, 0))
          × (serve rb calls accepts loaded ≡ done served)
          × (accepted accepts ≡ 0
              → All EndsOn cpus
              → Gone m (drop_caches used) (tcpha_exit rb freed served))
          × ((0 < accepted accepts) ⊎ (¬ All EndsOn cpus)
              → (tcpha_exit rb freed served ≡ deadlock) ⊎ (tcpha_exit rb freed served ≡ fault))
    front_end-Unloads o up some_cpu few =
        let (hs, hs', mem', e, a, (none_left, hangs, stuck)) =
          served-Unloads rb m.mem m.caches m.herders true true cpus accepts (rw no_conn refl)
            (rw no_work refl) up some_cpu few in
        (
          loaded hs,
          served_with rb calls (loaded hs) (mem', hs'),
          tcpha_init-loaded rb true true true cpus m m.mem used
              (record { herders = hs; list_locked = false }) success e,
          serve-loaded hs (mem', hs') o a,
          λ z ends. exit-Gone hs (mem', hs') (none_left z ends),
          λ p.
              never hs (mem', hs') (destroy_connections rb mem' used hs') refl
                (stuck_or (accepted accepts) stuck hangs p),
        )
