-- ===== src/Backend/Listener.antt =====
-- backend/tcpha_be_fe_connection.c, lines 25 to 121: the thread that accepts the front ends.
-- The results of the kernel's socket calls are an argument, an `int` as its bit pattern. The rounds of the
-- accept loop are a list that ends where `kthread_should_stop` holds.
pub mod Establish
use tcphandoff.Common.{
  ℕ, zero, suc, ◌+◌, ◌-◌, ◌*◌, ◌/◌, ◌%◌, ◌^◌, ◌≤◌, ◌<◌, min, bit_and, bit_or, ◌≡◌, refl, sym, ap,
  ◌∙◌, subst, fun_ext, ◌≢◌, ◌↔◌, ◌⊎◌, inl, inr, Bool, true, false, not, ◌&&◌, ◌||◌, Option, none,
  some, List, [], ◌∷◌, ◌++◌, map, append-nil, append_assoc, arith, dec_lt, ℕ_discrete, ltb, leb,
  ◌==◌, if◌then◌else◌, ltb→lt, lt→ltb, leb→le, ==_iff, tests, Bool-cases, Option-cases, length,
  get_or, take, drop, replicate, All, length-append, length-take, take-append-drop, length-drop,
  length-replicate, take-append, get_or-append, get_or-take, All-append, All-left, All-right,
  All-mono, All-both, member, u32_mod, char_to_int, is_negative, Outcome, done, deadlock, fault,
  ◌>>=◌, Received, got, failed, write_at,
}
use tcphandoff.Server.{Calls, close}
use tcphandoff.Backend.Server.{ListHead, BeServer, establish_be_fe_connection}

-- The rest of `struct tcpha_be_server`: its listening socket and its flag, with the sockets that are open.
pub record Listening : Type 0 where
  pub listener : Option ℕ
  pub running : Bool
  pub open_socks : List ℕ
  pub server : BeServer

unfoldable pub setup_server_socket : Calls → Listening → Listening × ℕ
setup_server_socket calls be =
    let opened = record be { open_socks = calls.sock ∷ be.open_socks } in
    if not (calls.create_error == 0)
    then (be, calls.create_error)
    else (if is_negative calls.bind_error
        then (opened, calls.bind_error)
        else (if not (calls.listen_error == 0)
            then (opened, calls.listen_error)
            else (record opened { listener = some calls.sock }, 0)))

-- There must be a listening socket.
unfoldable pub pull_down_server_socket : Listening → Outcome Listening
pull_down_server_socket be = elim be.listener [
  | none ↦ fault
  | some sock ↦ done (record be { open_socks = close sock be.open_socks })
]

module _ (api : ListHead) where
  -- The accept loop: `none` is an error of `kernel_accept`, `some conn` the memory of a new connection.
  -- The result of `establish_be_fe_connection` is 0.
  pub accept_loop : BeServer → List (Option ℕ) → BeServer
  accept_loop server [] = server
  accept_loop server (none ∷ rest) = accept_loop server rest
  accept_loop server (some conn ∷ rest) =
      accept_loop (establish_be_fe_connection api server conn) rest

  pub tcpha_be_server_daemon : Calls → List (Option ℕ) → Listening → Outcome (Listening × ℕ)
  unfolding setup_server_socket accept_loop pull_down_server_socket
  tcpha_be_server_daemon calls accepts be =
      let (ready, err) = setup_server_socket calls be in
      let minus_one = u32_mod - 1 in
      let started = record ready { running = true; server = accept_loop ready.server accepts } in
      let served =
        pull_down_server_socket started >>= λ closed. done (record closed { running = false }, 0) in
      if is_negative err then done (ready, minus_one) else served
