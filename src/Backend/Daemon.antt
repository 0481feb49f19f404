-- ===== src/Backend/Daemon.antt =====
-- backend/tcpha_be_fe_connection.c, `be_fe_connection_daemon`: the thread that reads from a front end.
-- What `kernel_recvmsg` returns in each round is an argument, and the rounds end where
-- `kthread_should_stop` holds. A write past the end of the buffer, a fault of a command's handler and a
-- call of a word past the command table have no defined effect: they end the run.
pub mod Reassembly
pub mod Repeat
use tcphandoff.Common.{
  ℕ, zero, suc, ◌+◌, ◌-◌, ◌*◌, ◌/◌, ◌%◌, ◌^◌, ◌≤◌, ◌<◌, min, bit_and, bit_or, ◌≡◌, refl, sym, ap,
  ◌∙◌, subst, fun_ext, ◌≢◌, ◌↔◌, ◌⊎◌, inl, inr, Bool, true, false, not, ◌&&◌, ◌||◌, Option, none,
  some, List, [], ◌∷◌, ◌++◌, map, append-nil, append_assoc, arith, dec_lt, ℕ_discrete, ltb, leb,
  ◌==◌, if◌then◌else◌, ltb→lt, lt→ltb, leb→le, ==_iff, tests, Bool-cases, Option-cases, length,
  get_or, take, drop, replicate, All, length-append, length-take, take-append-drop, All-append,
  member, u32_mod, char_to_int, is_negative, Received, got, failed, write_at,
}
use tcphandoff.Backend.{FeConnection}
use tcphandoff.Backend.Handoff.{SkClone, Handled, Call, handled, faulted, wild}
use tcphandoff.Backend.Message.{parse_message}

-- The connection, and how often the thread's entry was put on the socket's wait queue.
pub record Thread : Type 0 where
  pub conn : FeConnection
  pub hooks : ℕ

pub data Round : Type 0 where
  running : Thread → Round
  overflow : Round
  crashed : Round
  jumped : Round

pub finish : ℕ → Call → Round
finish hooks (handled h) = running (record { conn = h.conn; hooks = hooks })
finish hooks faulted = crashed
finish hooks wild = jumped

-- The body of the loop.
pub daemon_round : SkClone → ℕ → Thread → Received → Round
unfolding write_at finish
daemon_round sk_clone size t (got bytes) =
    let conn = t.conn in
    let base = if conn.num_read == 0 then 0 else conn.num_read in
    elim (write_at base bytes conn.buffer) [
      | none ↦ overflow
      | some buffer ↦
          finish (t.hooks + 1)
            (parse_message sk_clone size (record conn { buffer = buffer }) (length bytes))
    ]
daemon_round sk_clone size t (failed e) =
    finish (t.hooks + 1) (parse_message sk_clone size t.conn (u32_mod - e))

-- How the thread ends: stopped, its socket released, with the connection as it is then.
pub data End : Type 0 where
  stopped : Thread → End
  broken : Round → End

pub be_fe_connection_daemon : SkClone → ℕ → Thread → List Received → End
unfolding daemon_round
be_fe_connection_daemon sk_clone size t [] = stopped t
be_fe_connection_daemon sk_clone size t (r ∷ rs) = elim (daemon_round sk_clone size t r) [
  | running t' ↦ be_fe_connection_daemon sk_clone size t' rs
  | overflow ↦ broken overflow
  | crashed ↦ broken crashed
  | jumped ↦ broken jumped
]
