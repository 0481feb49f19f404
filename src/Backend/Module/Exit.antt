-- ===== src/Backend/Module/Exit.antt =====
-- Unloading the backend.
use tcphandoff.Common.{
  ℕ, suc, ◌≡◌, refl, ap, ◌∙◌, ◌≢◌, true, false, Option, none, some, List, [], ◌∷◌, ◌++◌, arith, All,
  member, is_negative, Outcome, done, fault,
}
use tcphandoff.Server.{Calls}
use tcphandoff.Backend.Server.{ListHead, BeServer, stop_fe_connections, establish_all}
use tcphandoff.Backend.Server.Stop.{IsConn, stop_only_last, establish_all-nil, stop_uninitialised}
use tcphandoff.Backend.Listener.{setup_server_socket, pull_down_server_socket, accept_loop}
use tcphandoff.Backend.Listener.Establish.{conns_of, accept-establish}
use tcphandoff.Backend.Module.{BackEnd, tcpha_be_init, stop_server, serve, tcpha_be_exit}

-- The backend before it is loaded: the variables are cleared, and so is the head of its list.
pub record Cleared (be : BackEnd) : Type 0 where
  pub no_next : be.listening.server.links.next be.listening.server.fe_connections_list ≡ 0
  pub head : be.listening.server.fe_connections_list ≢ 0

-- The backend is gone; the thread of the last connection has stopped, and those of the others run on.
pub record LeftRunning (before : List ℕ) (c : ℕ) (result : Outcome BackEnd) : Type 0 where
  pub after : BackEnd
  pub ended : result ≡ done after
  pub last_stopped : member c after.listening.server.threads ≡ false
  pub others_run : All (λ b. b ≢ c → member b after.listening.server.threads ≡ true) before

module _ (api : ListHead) where
  -- The state in which `stop_fe_connections` is called.
  abbrev stopped_with : Calls → BeServer → BackEnd → BackEnd
  stopped_with calls server be = record be {
    listening = record {
      listener = some calls.sock;
      running = false;
      open_socks = be.listening.open_socks;
      server = server;
    };
    server_task = false;
  }

  stop-serve :
      (lookup : ℕ → ℕ → Option ℕ) (calls : Calls) (accepts : List (Option ℕ)) (be : BackEnd)
      → calls.create_error ≡ 0
      → is_negative calls.bind_error ≡ false
      → calls.listen_error ≡ 0
      → let init = (tcpha_be_init lookup be).0 in
        stop_server (serve api calls accepts init)
        ≡ done (stopped_with calls (accept_loop api be.listening.server accepts) init)
  unfolding stop_server serve setup_server_socket pull_down_server_socket tcpha_be_init
  stop-serve lookup calls accepts be c b l = ground (arith, c, b, l)

  -- The end of `tcpha_be_exit`.
  abbrev finish : BackEnd → Option (ℕ × BeServer) → Outcome BackEnd
  finish stopped result = elim result [
    | none ↦ fault
    | some (errs, server) ↦
        done (record stopped { listening = record stopped.listening { server = server } })
  ]

  exit-stopped :
      (status : ℕ → ℕ) (fuel : ℕ) (be stopped : BackEnd) (server : BeServer)
      → stop_server be ≡ done stopped
      → stopped.listening.server ≡ server
      → tcpha_be_exit api status fuel be
        ≡ finish stopped (stop_fe_connections api status fuel server)
  unfolding tcpha_be_exit
  exit-stopped status fuel be stopped server e s = rw (e, s) refl

  exit-serve :
      (lookup : ℕ → ℕ → Option ℕ) (status : ℕ → ℕ) (fuel : ℕ) (calls : Calls)
      (accepts : List (Option ℕ)) (be : BackEnd)
      → calls.create_error ≡ 0
      → is_negative calls.bind_error ≡ false
      → calls.listen_error ≡ 0
      → let init = (tcpha_be_init lookup be).0 in
        let server = establish_all api be.listening.server (conns_of accepts) in
        tcpha_be_exit api status fuel (serve api calls accepts init)
        ≡ finish (stopped_with calls server init) (stop_fe_connections api status fuel server)
  exit-serve lookup status fuel calls accepts be c b l =
      let init = (tcpha_be_init lookup be).0 in
      let server = establish_all api be.listening.server (conns_of accepts) in
      exit-stopped status fuel (serve api calls accepts init) (stopped_with calls server init)
        server
        (stop-serve lookup calls accepts be c b l
          ∙ ap (λ (s : BeServer). done (stopped_with calls s init))
              (accept-establish api accepts be.listening.server))
        refl

  -- The backend is loaded, its listening socket is set up, and it is unloaded. Where no front end has
  -- connected, the kernel faults, since the list of front ends was never initialised. Where some have, unloading
  -- comes to an end after one round of its loop (fuel 2 is enough), with the thread of the last one stopped, and
  -- those of the others left running. The head of the list is cleared, and the last connection is a node of
  -- its own.
  pub tcpha_be_exit_cases :
      (lookup : ℕ → ℕ → Option ℕ) (status : ℕ → ℕ) (fuel : ℕ) (calls : Calls)
      (accepts : List (Option ℕ)) (be : BackEnd)
      → Cleared be
      → calls.create_error ≡ 0
      → is_negative calls.bind_error ≡ false
      → calls.listen_error ≡ 0
      → let served = serve api calls accepts (tcpha_be_init lookup be).0 in
        let result = tcpha_be_exit api status (suc (suc fuel)) served in
        (conns_of accepts ≡ [] → result ≡ fault)
        × ((before : List ℕ) (c : ℕ)
            → conns_of accepts ≡ before ++ (c ∷ [])
            → IsConn api be.listening.server c
            → LeftRunning before c result)
  tcpha_be_exit_cases lookup status fuel calls accepts be k c b l =
      let init = (tcpha_be_init lookup be).0 in
      let server = be.listening.server in
      let ends = exit-serve lookup status (suc (suc fuel)) calls accepts be c b l in
      let all = establish_all api server in
      (
        λ e.
            ends
            ∙ ap
                (λ cs.
                  finish (stopped_with calls (all cs) init)
                    (stop_fe_connections api status (suc (suc fuel)) (all cs)))
                e
            ∙ ap
                (λ s.
                  finish (stopped_with calls s init)
                    (stop_fe_connections api status (suc (suc fuel)) s))
                (establish_all-nil api server)
            ∙ ap (finish (stopped_with calls server init))
                (stop_uninitialised api status (suc fuel) server k.no_next k.head),
        λ before last e v.
            let s = stop_only_last api server before last fuel status v in
            let stopped = stopped_with calls (all (before ++ (last ∷ []))) init in
            record {
              after = record stopped { listening = record stopped.listening { server = s.after } };
              ended =
                  ends
                  ∙ ap
                      (λ cs.
                        finish (stopped_with calls (all cs) init)
                          (stop_fe_connections api status (suc (suc fuel)) (all cs)))
                      e
                  ∙ ap (finish stopped) s.done;
              last_stopped = s.last_stopped;
              others_run = s.others_run;
            },
      )
