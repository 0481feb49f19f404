-- ===== src/Frontend/Examples.antt =====
-- The front end loaded on two processors.
use tcphandoff.Common.{
  ◌<◌, ◌≡◌, refl, ◌⊎◌, true, false, List, [], ◌∷◌, All, arith, done, deadlock, fault,
}
use tcphandoff.Poll.{enomem}
use tcphandoff.Common.{null}
use tcphandoff.Herder.Lifecycle.{Cpu, drop_caches, init_connections}
use tcphandoff.Herder.Lifecycle.Start.{EndsOn}
use tcphandoff.Server.{Calls}
use tcphandoff.Server.Accept.{accepted}
use tcphandoff.Server.Examples.{
  flat, herder_at, no_conns, three, fresh_server, processor, no_caches, empty_list,
}
use tcphandoff.Processor.Work.{processor_init}
use tcphandoff.Frontend.{FrontEnd, tcpha_init, serve, tcpha_exit}
use tcphandoff.Frontend.Unready.{Opens, tcpha_init_ignores}
use tcphandoff.Frontend.Unload.{Gone, used, front_end-Unloads}

abbrev before : FrontEnd
before = record {
  server_task = false;
  server = fresh_server;
  port = 0;
  herders = empty_list;
  has_list = false;
  processor = processor_init false;
  caches = no_caches;
  mem = no_conns;
}

abbrev port_free : Calls
port_free = record { sock = 5; create_error = 0; bind_error = 0; listen_error = 0 }

port_free-Opens : Opens port_free
port_free-Opens = record { created = refl; bound = refl; listens = refl }

abbrev two_processors : List Cpu
two_processors = processor 0 ∷ processor 1 ∷ []

front_end-Unloads_example :
    let caches = used flat herder_at before port_free two_processors three refl refl in
    (loaded served : FrontEnd) × (tcpha_init flat true true true two_processors before
      ≡ done (loaded, 0))
    × (serve flat port_free three loaded ≡ done served)
    × (accepted three ≡ 0
        → All EndsOn two_processors
        → Gone before (drop_caches caches) (tcpha_exit flat herder_at served))
    × ((0 < accepted three) ⊎ (¬ All EndsOn two_processors)
        → (tcpha_exit flat herder_at served ≡ deadlock)
          ⊎ (tcpha_exit flat herder_at served ≡ fault))
front_end-Unloads_example =
    front_end-Unloads flat herder_at before port_free two_processors three refl refl port_free-Opens
      ((refl, refl), ((refl, refl), tt)) (omega arith) (omega arith)

-- The cache for connections cannot be made.
no_memory :
    init_connections flat no_conns no_caches empty_list false true two_processors
    ≡ done (
      no_conns,
      record { mem_cache_use = 1; conn_cache = null; work_cache = null },
      empty_list,
      enomem,
    )
unfolding init_connections
no_memory = refl

-- The thread has been created, and has not run yet.
abbrev not_yet : FrontEnd
not_yet = record before { server_task = true; has_list = true; processor = processor_init true }

tcpha_init_ignores_example :
    (loaded : FrontEnd) × (tcpha_init flat true false true two_processors before ≡ done (loaded, 0))
    × (loaded.server_task ≡ true)
    × (serve flat port_free three loaded ≡ fault)
tcpha_init_ignores_example =
    tcpha_init_ignores flat true false true two_processors before no_conns
      (record { mem_cache_use = 1; conn_cache = null; work_cache = null }) empty_list enomem
      port_free three no_memory (λ e. cc) port_free-Opens (omega arith)
