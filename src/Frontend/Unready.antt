-- ===== src/Frontend/Unready.antt =====
-- The front end goes on loading where its herders could not be started, and its exit does not wait for
-- a thread that has only been created.
use tcphandoff.Common.{
  ◌<◌, ◌≡◌, refl, ap, ◌∙◌, ◌≢◌, Bool, true, false, Option, some, List, [], ◌∷◌, arith, if_true,
  if_false, if_true, if_false, is_negative, Outcome, done, fault, ◌>>=◌,
}
use tcphandoff.Poll.Tree.{RbTree}
use tcphandoff.Poll.{Errno, success}
use tcphandoff.Herder.{Herder, ConnMemory}
use tcphandoff.Common.{Cache, null, live, destroyed}
use tcphandoff.Herder.Lifecycle.{Caches, HerderList, Cpu, init_connections, destroy_connections}
use tcphandoff.Herder.Lifecycle.Failed.{init_connections-failed}
use tcphandoff.Server.{Calls, Server, Accepted, setup_server_socket}
use tcphandoff.Server.Accept.{accepted}
use tcphandoff.Processor.Work.{processor_init}
use tcphandoff.Frontend.{FrontEnd, both_set, tcpha_init, accept_with, serve, kill_herders}

-- The listening socket can be set up.
pub record Opens (calls : Calls) : Type 0 where
  pub created : calls.create_error ≡ 0
  pub bound : is_negative calls.bind_error ≡ false
  pub listens : calls.listen_error ≡ 0

-- The front end once it has loaded.
abbrev pub loaded_with : Bool → ConnMemory → Caches → HerderList → FrontEnd → FrontEnd
loaded_with created left caches list m = record m {
  server_task = true;
  port = 8080;
  herders = list;
  has_list = both_set caches;
  processor = processor_init created;
  caches = caches;
  mem = left;
}

-- The server that listens.
abbrev pub listening_on : Calls → Server → Server
listening_on calls server = record {
  mainsock = some calls.sock;
  running = true;
  open_socks = calls.sock ∷ server.open_socks;
}

module _ (rb : RbTree) where
  pub tcpha_init-loaded :
      (created conn_made work_made : Bool) (cpus : List Cpu) (m : FrontEnd) (left : ConnMemory)
      (caches : Caches) (list : HerderList) (err : Errno)
      → init_connections rb m.mem m.caches m.herders conn_made work_made cpus
        ≡ done (left, caches, list, err)
      → tcpha_init rb created conn_made work_made cpus m
        ≡ done (loaded_with created left caches list m, 0)
  unfolding tcpha_init
  tcpha_init-loaded created conn_made work_made cpus m left caches list err e = rw e refl

  no_cache :
      (c : Cache) (mem : ConnMemory) (hs : List Herder) (accepts : List (Option Accepted))
      → c ≢ live
      → 0 < accepted accepts
      → accept_with rb c mem hs accepts ≡ fault
  unfolding accept_with
  no_cache null mem hs accepts n some_client = ground arith
  no_cache live mem hs accepts n some_client = absurd (n refl)
  no_cache destroyed mem hs accepts n some_client = ground arith

  -- The state once the clients have been accepted.
  abbrev pub served_with : Calls → FrontEnd → ConnMemory × List Herder → FrontEnd
  served_with calls m left = record m {
    server = listening_on calls m.server;
    herders = record m.herders { herders = left.1 };
    mem = left.0;
  }

  pub serve-Opens :
      (calls : Calls) (accepts : List (Option Accepted)) (m : FrontEnd)
      → Opens calls
      → serve rb calls accepts m ≡ (
          accept_with rb m.caches.conn_cache m.mem m.herders.herders accepts >>= λ left.
          done (served_with calls m left))
  unfolding serve setup_server_socket
  serve-Opens calls accepts m o = ground (arith, o.created, o.bound, o.listens)

  -- `tcpha_init` returns 0 also where `init_connections` has failed, and starts the thread that accepts clients;
  -- the first client then makes the kernel fault, since there is no cache to take its connection from.
  -- The listening socket can be set up, and a client is accepted.
  pub tcpha_init_ignores :
      (created conn_made work_made : Bool) (cpus : List Cpu) (m : FrontEnd) (left : ConnMemory)
      (caches : Caches) (list : HerderList) (err : Errno) (calls : Calls)
      (accepts : List (Option Accepted))
      → init_connections rb m.mem m.caches m.herders conn_made work_made cpus
        ≡ done (left, caches, list, err)
      → err ≢ success
      → Opens calls
      → 0 < accepted accepts
      → (loaded : FrontEnd) × (tcpha_init rb created conn_made work_made cpus m ≡ done (loaded, 0))
        × (loaded.server_task ≡ true)
        × (serve rb calls accepts loaded ≡ fault)
  tcpha_init_ignores created conn_made work_made cpus m left caches list err calls accepts e bad o
        some_client =
      let loaded = loaded_with created left caches list m in
      let no_live =
        init_connections-failed rb m.mem m.herders m.caches conn_made work_made cpus left caches
          list err e bad in
      (
        loaded,
        tcpha_init-loaded created conn_made work_made cpus m left caches list err e,
        refl,
        serve-Opens calls accepts loaded o
            ∙ ap
                (λ (t : Outcome (ConnMemory × List Herder)).
                  t >>= λ l. done (served_with calls loaded l))
                (no_cache caches.conn_cache left list.herders accepts no_live some_client),
      )

  pub kill-listed :
      (m : FrontEnd)
      → m.has_list ≡ true
      → kill_herders rb m ≡ (
          destroy_connections rb m.mem m.caches m.herders.herders >>= λ left.
          done (record m {
            herders = record m.herders { herders = [] };
            mem = left.0;
            caches = left.1;
          }))
  unfolding kill_herders
  kill-listed m e = if_true m.has_list _ _ e
