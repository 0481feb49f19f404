-- ===== src/Backend/Listener/Establish.antt =====
-- Whom the accepting thread leaves established.
use tcphandoff.Common.{
  ℕ, ◌-◌, ◌≡◌, sym, ◌∙◌, ◌⊎◌, true, false, Option, none, some, List, [], ◌∷◌, arith, u32_mod,
  is_negative, done,
}
use tcphandoff.Server.{Calls}
use tcphandoff.Backend.Server.{ListHead, BeServer, establish_be_fe_connection, establish_all}
use tcphandoff.Backend.Server.Stop.{establish_all-nil, establish_all-cons}
use tcphandoff.Backend.Listener.{
  Listening, setup_server_socket, pull_down_server_socket, accept_loop, tcpha_be_server_daemon,
}

-- The connections accepted, in order.
abbrev pub conns_of : List (Option ℕ) → List ℕ
conns_of [] = []
conns_of (none ∷ rest) = conns_of rest
conns_of (some c ∷ rest) = c ∷ conns_of rest

module _ (api : ListHead) where
  pub accept-establish :
      (accepts : List (Option ℕ)) (server : BeServer)
      → accept_loop api server accepts ≡ establish_all api server (conns_of accepts)
  unfolding accept_loop
  accept-establish [] server = sym (establish_all-nil api server)
  accept-establish (none ∷ rest) server = accept-establish rest server
  accept-establish (some c ∷ rest) server =
      accept-establish rest (establish_be_fe_connection api server c)
      ∙ sym (establish_all-cons api server c (conns_of rest))

  -- `tcpha_be_server_daemon` ends with -1, having established no connection, where its socket cannot be
  -- created, bound or listened on; one that was created stays open. Else it ends with 0 and its socket
  -- closed, and has established the accepted connections, in their order.
  pub tcpha_be_server_daemon_cases :
      (calls : Calls) (accepts : List (Option ℕ)) (be : Listening)
      → (is_negative calls.create_error ≡ true
          → tcpha_be_server_daemon api calls accepts be ≡ done (be, u32_mod - 1))
        × (calls.create_error ≡ 0
            → (is_negative calls.bind_error ≡ true)
              ⊎ ((is_negative calls.bind_error ≡ false) × (is_negative calls.listen_error ≡ true))
            → tcpha_be_server_daemon api calls accepts be
              ≡ done (record be { open_socks = calls.sock ∷ be.open_socks }, u32_mod - 1))
        × (calls.create_error ≡ 0
            → is_negative calls.bind_error ≡ false
            → calls.listen_error ≡ 0
            → tcpha_be_server_daemon api calls accepts be
              ≡ done (
                record {
                  listener = some calls.sock;
                  running = false;
                  open_socks = be.open_socks;
                  server = establish_all api be.server (conns_of accepts);
                },
                0,
              ))
  unfolding tcpha_be_server_daemon setup_server_socket pull_down_server_socket
  tcpha_be_server_daemon_cases calls accepts be = (
    λ c. ground (arith, c),
    λ c e. ground (arith, c, e),
    λ c b l. ground (arith, c, b, l, accept-establish accepts be.server),
  )
