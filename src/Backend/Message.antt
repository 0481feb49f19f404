-- ===== src/Backend/Message.antt =====
-- backend/tcpha_be_fe_connection.c, `parse_message`: the header of a message from the front end.
pub mod Fields
pub mod Layout
pub mod Trigger
use tcphandoff.Common.{
  ℕ, zero, suc, ◌+◌, ◌-◌, ◌*◌, ◌/◌, ◌%◌, ◌^◌, ◌≤◌, ◌<◌, min, bit_and, bit_or, ◌≡◌, refl, sym, ap,
  ◌∙◌, subst, fun_ext, ◌≢◌, ◌↔◌, ◌⊎◌, inl, inr, Bool, true, false, not, ◌&&◌, ◌||◌, Option, none,
  some, List, [], ◌∷◌, ◌++◌, map, append-nil, append_assoc, arith, dec_lt, ℕ_discrete, ltb, leb,
  ◌==◌, if◌then◌else◌, ltb→lt, lt→ltb, leb→le, ==_iff, tests, Bool-cases, Option-cases, length,
  get_or, take, drop, replicate, All, length-append, length-take, take-append-drop, All-append,
  member, u32_mod, char_to_int, is_negative,
}
use tcphandoff.Backend.{FeConnection, TcphaHdr, TcphaIpv4Hdr, hdr_size, ipv4_hdr_size, byte_at}
use tcphandoff.Backend.Handoff.{
  SkClone, Handled, Call, handled, refused, process_data_for_connection,
}

-- x = (x << 8) + c, in 32 and in 16 bits.
abbrev pub shift_in32 : ℕ → ℕ → ℕ
shift_in32 x c = (x * 256 + char_to_int c) % u32_mod

abbrev pub shift_in16 : ℕ → ℕ → ℕ
shift_in16 x c = (x * 256 + char_to_int c) % 2 ^ 16

-- The header as it is read from the buffer; `len` starts from its last value.
pub read_header : FeConnection → FeConnection
read_header conn = record conn {
  hdr = record { cmd = byte_at conn 0; ipversion = byte_at conn 1 };
  ipv4hdr = record {
    ipaddress =
        shift_in32
          (shift_in32 (shift_in32 (shift_in32 0 (byte_at conn 5)) (byte_at conn 4))
            (byte_at conn 3))
          (byte_at conn 2);
    port = shift_in16 (shift_in16 0 (byte_at conn 8)) (byte_at conn 7);
    len = shift_in16 (shift_in16 conn.ipv4hdr.len (byte_at conn 10)) (byte_at conn 9);
  };
}

-- `len` is the `int` that `kernel_recvmsg` returned.
pub parse_message : SkClone → ℕ → FeConnection → ℕ → Call
unfolding read_header
parse_message sk_clone tcp_sock_size conn len =
    let counted = record conn { num_read = (conn.num_read + len) % u32_mod } in
    if leb (ipv4_hdr_size + hdr_size) counted.num_read
    then process_data_for_connection sk_clone tcp_sock_size (read_header counted)
    else handled (refused counted)
