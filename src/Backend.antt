-- ===== src/Backend.antt =====
-- backend/tcpha_be_fe_connection.h and backend/tcpha_be_handoff_connection.h: a front end's
-- connection to the backend, and the connections handed off over it.
pub mod Handoff
pub mod Message
pub mod Daemon
pub mod Server
pub mod Listener
pub mod Module
mod Examples
use tcphandoff.Common.{
  ℕ, zero, suc, ◌+◌, ◌-◌, ◌*◌, ◌/◌, ◌%◌, ◌^◌, ◌≤◌, ◌<◌, min, bit_and, bit_or, ◌≡◌, refl, sym, ap,
  ◌∙◌, subst, fun_ext, ◌≢◌, ◌↔◌, ◌⊎◌, inl, inr, Bool, true, false, not, ◌&&◌, ◌||◌, Option, none,
  some, List, [], ◌∷◌, ◌++◌, map, append-nil, append_assoc, arith, dec_lt, ℕ_discrete, ltb, leb,
  ◌==◌, if◌then◌else◌, ltb→lt, lt→ltb, leb→le, ==_iff, tests, Bool-cases, Option-cases, length,
  get_or, take, drop, replicate, All, length-append, length-take, take-append-drop, All-append,
  member, u32_mod, char_to_int, is_negative,
}

abbrev pub max_buffer_size : ℕ
max_buffer_size = 2048

-- `struct tcpha_hdr`: two bytes.
pub record TcphaHdr : Type 0 where
  pub cmd : ℕ
  pub ipversion : ℕ

-- `struct tcpha_ipv4_hdr`: a 32-bit word and two of 16 bits.
pub record TcphaIpv4Hdr : Type 0 where
  pub ipaddress : ℕ
  pub port : ℕ
  pub len : ℕ

-- `sizeof` of the two.
abbrev pub hdr_size : ℕ
hdr_size = 2

abbrev pub ipv4_hdr_size : ℕ
ipv4_hdr_size = 8

-- `struct tcpha_be_handoff_connection`; the socket is a pointer.
pub record HandoffConnection : Type 0 where
  pub sock : Option ℕ
  pub ipaddr : ℕ
  pub port : ℕ

-- `struct tcpha_be_fe_connection`: what its operations read and write. The buffer holds
-- `max_buffer_size + 1` bytes.
pub record FeConnection : Type 0 where
  pub hdr : TcphaHdr
  pub ipv4hdr : TcphaIpv4Hdr
  pub handoff_conn_list : List HandoffConnection
  pub buffer : List ℕ
  pub num_read : ℕ

-- `be_fe_conn_init`: `kzalloc` clears the memory, and the lists are empty.
pub be_fe_conn_init : FeConnection
be_fe_conn_init = record {
  hdr = record { cmd = 0; ipversion = 0 };
  ipv4hdr = record { ipaddress = 0; port = 0; len = 0 };
  handoff_conn_list = [];
  buffer = replicate (max_buffer_size + 1) 0;
  num_read = 0;
}

abbrev pub byte_at : FeConnection → ℕ → ℕ
byte_at conn i = get_or conn.buffer i 0
