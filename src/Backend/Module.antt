-- ===== src/Backend/Module.antt =====
-- backend/tcpha_be.c: the backend as a module of the kernel, from `tcpha_be_init` to `tcpha_be_exit`.
-- The thread that accepts front ends runs in between.
pub mod Exit
mod Examples
use tcphandoff.Common.{
  ℕ, zero, suc, ◌+◌, ◌-◌, ◌*◌, ◌/◌, ◌%◌, ◌^◌, ◌≤◌, ◌<◌, min, bit_and, bit_or, ◌≡◌, refl, sym, ap,
  ◌∙◌, subst, fun_ext, ◌≢◌, ◌↔◌, ◌⊎◌, inl, inr, Bool, true, false, not, ◌&&◌, ◌||◌, Option, none,
  some, List, [], ◌∷◌, ◌++◌, map, append-nil, append_assoc, arith, dec_lt, ℕ_discrete, ltb, leb,
  ◌==◌, if◌then◌else◌, if_true, if_false, if_true, if_false, ltb→lt, lt→ltb, leb→le, ==_iff, tests,
  Bool-cases, Option-cases, length, get_or, take, drop, replicate, All, length-append, length-take,
  take-append-drop, length-drop, length-replicate, take-append, get_or-append, get_or-take,
  All-append, All-left, All-right, All-mono, All-both, member, u32_mod, char_to_int, is_negative,
  Outcome, done, deadlock, fault, ◌>>=◌, IfDone, IfDone-any, IfDone-bind, bind_done, Received, got,
  failed, write_at,
}
use tcphandoff.Server.{Calls}
use tcphandoff.Backend.Server.{ListHead, BeServer, stop_fe_connections}
use tcphandoff.Backend.Listener.{
  Listening, setup_server_socket, pull_down_server_socket, accept_loop,
}

-- The variables of the module: the rest of `struct tcpha_be_server`, and whether `server_task` runs.
pub record BackEnd : Type 0 where
  pub lport : ℕ
  pub laddr : ℕ
  pub user_sock : Option ℕ
  pub listening : Listening
  pub server_task : Bool

-- The address c1.c2.c3.c4 as the code puts it together, in 32 bits.
abbrev pub address : ℕ → ℕ → ℕ → ℕ → ℕ
address c1 c2 c3 c4 = (c4 + c3 * 256 + c2 * 256 * 256 + c1 * 256 * 256 * 256) % u32_mod

-- `lookup` is `inet_lookup_listener` of the kernel's table. The result is 0.
unfoldable pub tcpha_be_init : (ℕ → ℕ → Option ℕ) → BackEnd → BackEnd × ℕ
tcpha_be_init lookup be =
    let laddr = address 10 252 31 32 in
    (
      record be { lport = 8080; laddr = laddr; user_sock = lookup laddr 8080; server_task = true },
      0,
    )

-- `kthread_stop` wants a thread that has not ended by itself.
pub stop_server : BackEnd → Outcome BackEnd
stop_server be =
    let closed = pull_down_server_socket be.listening >>= λ l.
    done (record be { listening = record l { running = false }; server_task = false }) in
    if be.server_task then closed else fault

module _ (api : ListHead) where
  -- What the thread that accepts front ends does until it is told to stop: it ends by itself where the
  -- listening socket cannot be set up.
  pub serve : Calls → List (Option ℕ) → BackEnd → BackEnd
  serve calls accepts be =
      let (ready, err) = setup_server_socket calls be.listening in
      let started = record ready {
        running = true;
        server = accept_loop api ready.server accepts;
      } in
      if is_negative err
      then record be { listening = ready; server_task = false }
      else record be { listening = started }

  -- `status` and `fuel` are those of `stop_fe_connections`.
  pub tcpha_be_exit : (ℕ → ℕ) → ℕ → BackEnd → Outcome BackEnd
  unfolding stop_server
  tcpha_be_exit status fuel be = stop_server be >>= λ stopped.
      elim (stop_fe_connections api status fuel stopped.listening.server) [
        | none ↦ fault
        | some (errs, server) ↦
            done (record stopped { listening = record stopped.listening { server = server } })
      ]
