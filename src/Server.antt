-- ===== src/Server.antt =====
-- frontend/tcpha_fe_server.h and frontend/tcpha_fe_server.c: the thread that accepts clients.
-- The results of the kernel's socket calls are arguments, an `int` as its bit pattern; 0 is success. The
-- rounds of the accept loop are a list that ends where `kthread_should_stop` holds.
pub mod Accept
pub mod Unload
pub mod Bag
pub mod Examples
use tcphandoff.Common.{
  ℕ, zero, suc, ◌+◌, ◌-◌, ◌*◌, ◌/◌, ◌%◌, ◌^◌, ◌≤◌, ◌<◌, min, bit_and, bit_or, ◌≡◌, refl, sym, ap,
  ◌∙◌, subst, fun_ext, ◌≢◌, ◌↔◌, ◌⊎◌, inl, inr, Bool, true, false, not, ◌&&◌, ◌||◌, Option, none,
  some, List, [], ◌∷◌, ◌++◌, map, append-nil, append_assoc, arith, dec_lt, ℕ_discrete, ltb, leb,
  ◌==◌, if◌then◌else◌, ltb→lt, lt→ltb, leb→le, ==_iff, tests, Bool-cases, Option-cases, length,
  get_or, take, drop, replicate, All, length-append, length-take, take-append-drop, length-drop,
  length-replicate, take-append, get_or-append, get_or-take, All-append, All-left, All-right,
  All-mono, All-both, member, u32_mod, char_to_int, is_negative, Outcome, done, deadlock, fault,
  ◌>>=◌, Received, got, failed, write_at,
}
use tcphandoff.Sock.{Sock}
use tcphandoff.Poll.Tree.{RbTree}
use tcphandoff.Herder.{Herder, ConnMemory, tcpha_fe_conn_create}

-- What the calls on the new socket return, and the socket.
pub record Calls : Type 0 where
  pub sock : ℕ
  pub create_error : ℕ
  pub bind_error : ℕ
  pub listen_error : ℕ

-- `struct tcpha_fe_server`: its listening socket and its flag, and the sockets that are open.
pub record Server : Type 0 where
  pub mainsock : Option ℕ
  pub running : Bool
  pub open_socks : List ℕ

unfoldable pub setup_server_socket : Calls → Server → Server × ℕ
setup_server_socket calls server =
    let opened = record server { open_socks = calls.sock ∷ server.open_socks } in
    if not (calls.create_error == 0)
    then (server, calls.create_error)
    else (if is_negative calls.bind_error
        then (opened, calls.bind_error)
        else (if not (calls.listen_error == 0)
            then (opened, calls.listen_error)
            else (record opened { mainsock = some calls.sock }, 0)))

-- A socket is closed.
abbrev pub close : ℕ → List ℕ → List ℕ
close sock [] = []
close sock (s ∷ ss) = if sock == s then ss else s ∷ close sock ss

-- The socket that was listened on is released; there must be one.
unfoldable pub pull_down_server_socket : Server → Outcome Server
pull_down_server_socket server = elim server.mainsock [
  | none ↦ fault
  | some sock ↦ done (record server { open_socks = close sock server.open_socks })
]

-- A client's socket, and what `tcpha_fe_conn_create` gets from the kernel for it.
pub record Accepted : Type 0 where
  pub sock : Sock
  pub conn : ℕ
  pub cachep : Bool
  pub item : Option ℕ
  pub polled : ℕ

module _ (rb : RbTree) where
  -- The accept loop: `none` is an error of `kernel_accept`, after which the thread sleeps. The result of
  -- `tcpha_fe_conn_create` is 0, so that the client's socket is kept.
  pub accept_loop :
      ConnMemory → List Herder → List (Option Accepted) → Outcome (ConnMemory × List Herder)
  accept_loop mem herders [] = done (mem, herders)
  accept_loop mem herders (none ∷ rest) = accept_loop mem herders rest
  accept_loop mem herders (some a ∷ rest) =
      tcpha_fe_conn_create rb mem herders a.conn a.sock a.cachep a.item a.polled >>= λ r.
      accept_loop r.0 r.1 rest

  -- The server, the connections and the result; `started` is the state in which the loop runs.
  pub tcpha_fe_server_daemon :
      Calls
      → List (Option Accepted)
      → Server
      → ConnMemory
      → List Herder
      → Outcome (Server × (ConnMemory × List Herder) × ℕ)
  unfolding setup_server_socket accept_loop pull_down_server_socket
  tcpha_fe_server_daemon calls accepts server mem herders =
      let (listening, err) = setup_server_socket calls server in
      let minus_one = u32_mod - 1 in
      let started = record listening { running = true } in
      let served = accept_loop mem herders accepts >>= λ left.
      pull_down_server_socket started >>= λ closed.
      done (record closed { running = false }, left, 0) in
      if is_negative err then done (listening, (mem, herders), minus_one) else served
