-- ===== src/Backend/Handoff.antt =====
-- backend/tcpha_be_handoff_connection.c: the commands that a front end sends.
pub mod Clone
pub mod Dispatch
use tcphandoff.Common.{
  ℕ, zero, suc, ◌+◌, ◌-◌, ◌*◌, ◌/◌, ◌%◌, ◌^◌, ◌≤◌, ◌<◌, min, bit_and, bit_or, ◌≡◌, refl, sym, ap,
  ◌∙◌, subst, fun_ext, ◌≢◌, ◌↔◌, ◌⊎◌, inl, inr, Bool, true, false, not, ◌&&◌, ◌||◌, Option, none,
  some, List, [], ◌∷◌, ◌++◌, map, append-nil, append_assoc, arith, dec_lt, ℕ_discrete, ltb, leb,
  ◌==◌, if◌then◌else◌, ltb→lt, lt→ltb, leb→le, ==_iff, tests, Bool-cases, Option-cases, length,
  get_or, take, drop, replicate, All, length-append, length-take, take-append-drop, All-append,
  member, u32_mod, char_to_int, is_negative,
}
use tcphandoff.Backend.{FeConnection, HandoffConnection, byte_at}

-- The fields of the kernel's sockets that this file reads and writes: those of `struct inet_sock`,
-- those of `struct inet_connection_sock`, and the bytes of `struct tcp_sock` after the latter.
pub record TcpSock : Type 0 where
  pub saddr : ℕ
  pub sport : ℕ
  pub daddr : ℕ
  pub dport : ℕ
  pub icsk_bind_hash : Option ℕ
  pub icsk_retransmits : ℕ
  pub icsk_backoff : ℕ
  pub icsk_probes_out : ℕ
  pub icsk_accept_queue : List ℕ
  pub tcp_options : List ℕ

pub setup_inet_sk : TcpSock → TcpSock → TcpSock
setup_inet_sk dest source = record dest {
  saddr = source.saddr;
  sport = source.sport;
  daddr = source.daddr;
  dport = source.dport;
}

abbrev zeros : List ℕ → List ℕ
zeros [] = []
zeros (x ∷ xs) = 0 ∷ zeros xs

-- The source is read for each field in turn, so it may be the destination.
pub setup_inet_connection_sk : TcpSock → TcpSock → TcpSock
setup_inet_connection_sk dest source = record dest {
  icsk_bind_hash = none;
  icsk_retransmits = source.icsk_retransmits;
  icsk_backoff = source.icsk_backoff;
  icsk_probes_out = source.icsk_probes_out;
  icsk_accept_queue = zeros dest.icsk_accept_queue;
}

pub setup_tcp_sk : TcpSock → TcpSock → TcpSock
setup_tcp_sk dest source = record dest { tcp_options = source.tcp_options }

-- What becomes of `sk_clone`: a socket, NULL, or a memory fault where the address that it reads from is
-- not that of a socket.
pub data Cloned : Type 0 where
  cloned : TcpSock → Cloned
  no_memory bad_address : Cloned

-- The kernel's `sk_clone`, of an address.
abbrev pub SkClone : Type 0
SkClone = ℕ → Cloned

-- The socket that is left in `*newsk`, if there is no fault.
pub create_sk : SkClone → ℕ → Cloned
unfolding setup_inet_sk setup_inet_connection_sk setup_tcp_sk
create_sk sk_clone source = elim (sk_clone source) [
  | no_memory ↦ no_memory
  | bad_address ↦ bad_address
  | cloned nsk ↦
      let with_inet = setup_inet_sk nsk nsk in
      let with_connection = setup_inet_connection_sk with_inet with_inet in
      cloned (setup_tcp_sk with_connection with_connection)
]

-- `handoff_conn_init`: a cleared connection.
abbrev pub handoff_conn_init : HandoffConnection
handoff_conn_init = record { sock = none; ipaddr = 0; port = 0 }

-- A `char` as a pointer of 64 bits.
abbrev pub char_to_pointer : ℕ → ℕ
char_to_pointer c = if ltb c 128 then c else c + 2 ^ 64 - 256

-- What a handler leaves: the connection, the socket that it made, and its result.
pub record Handled : Type 0 where
  pub conn : FeConnection
  pub new_sock : Option TcpSock
  pub result : Bool

-- A command is handled, its handler faults, or a word past the end of the table is called.
pub data Call : Type 0 where
  handled : Handled → Call
  faulted : Call
  wild : Call

-- `new_conn` from the call of `create_sk` on.
created : FeConnection → Cloned → Call
created conn (cloned s) = handled (record { conn = conn; new_sock = some s; result = false })
created conn no_memory = handled (record { conn = conn; new_sock = none; result = false })
created conn bad_address = faulted

-- `tcp_sock_size` is `sizeof(struct tcp_sock)`.
pub new_conn : SkClone → ℕ → FeConnection → Call
unfolding create_sk created
new_conn sk_clone tcp_sock_size conn =
    let added = record conn { handoff_conn_list = handoff_conn_init ∷ conn.handoff_conn_list } in
    if ltb conn.ipv4hdr.len tcp_sock_size
    then handled (record { conn = added; new_sock = none; result = false })
    else created added (create_sk sk_clone (char_to_pointer (byte_at conn 11)))

-- A handler that has done nothing.
abbrev pub refused : FeConnection → Handled
refused conn = record { conn = conn; new_sock = none; result = false }

pub modify_conn : FeConnection → Call
modify_conn conn = handled (refused conn)

pub rx_on_conn : FeConnection → Call
rx_on_conn conn = handled (refused conn)

pub remove_conn : FeConnection → Call
remove_conn conn = handled (refused conn)

-- `cmd_table`; `none` past its end.
pub cmd_table : SkClone → ℕ → ℕ → Option (FeConnection → Call)
cmd_table sk_clone tcp_sock_size zero = some (new_conn sk_clone tcp_sock_size)
cmd_table sk_clone tcp_sock_size (suc zero) = some modify_conn
cmd_table sk_clone tcp_sock_size (suc (suc zero)) = some rx_on_conn
cmd_table sk_clone tcp_sock_size (suc (suc (suc zero))) = some remove_conn
cmd_table sk_clone tcp_sock_size (suc (suc (suc (suc n)))) = none

-- `sizeof(cmd_table)`: four pointers of 64 bits.
abbrev pub cmd_table_size : ℕ
cmd_table_size = 4 * 8

call : Option (FeConnection → Call) → FeConnection → Call
call none conn = wild
call (some f) conn = f conn

-- `process_data_for_connection`, of the command that it reads.
pub process_command : SkClone → ℕ → ℕ → FeConnection → Call
unfolding cmd_table call
process_command sk_clone tcp_sock_size cmd conn =
    if ltb cmd cmd_table_size
    then call (cmd_table sk_clone tcp_sock_size cmd) conn
    else handled (refused conn)

pub process_data_for_connection : SkClone → ℕ → FeConnection → Call
unfolding process_command
process_data_for_connection sk_clone tcp_sock_size conn =
    process_command sk_clone tcp_sock_size conn.hdr.cmd conn
