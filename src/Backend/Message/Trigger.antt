-- ===== src/Backend/Message/Trigger.antt =====
-- When `parse_message` acts on the buffer.
use tcphandoff.Common.{
  ℕ, length, ◌+◌, ◌-◌, ◌%◌, ◌≤◌, ◌<◌, ◌≡◌, refl, ◌∙◌, inl, inr, arith, leb, if◌then◌else◌, leb→le,
  Bool-cases, u32_mod,
}
use tcphandoff.Backend.{FeConnection, byte_at, max_buffer_size}
use tcphandoff.Backend.Handoff.{SkClone, handled, refused, process_data_for_connection}
use tcphandoff.Backend.Handoff.Dispatch.{Calm, after_command, process_data_for_connection_harmless}
use tcphandoff.Backend.Message.{read_header, parse_message, shift_in16}

-- The connection after `len` has been counted.
abbrev pub counted : FeConnection → ℕ → FeConnection
counted conn len = record conn { num_read = (conn.num_read + len) % u32_mod }

-- Data of `len` bytes is counted, and from the tenth byte on the header is read from the front of the
-- buffer and its command processed. The count does not overflow.
pub parse_message_data :
    (sk_clone : SkClone) (size : ℕ) (conn : FeConnection) (len : ℕ)
    → conn.num_read + len < u32_mod
    → ((counted conn len).num_read ≡ conn.num_read + len)
      × (10 ≤ conn.num_read + len
          → parse_message sk_clone size conn len
            ≡ process_data_for_connection sk_clone size (read_header (counted conn len)))
      × (conn.num_read + len < 10
          → parse_message sk_clone size conn len ≡ handled (refused (counted conn len)))
unfolding parse_message
parse_message_data sk_clone size conn len h = (ground arith, λ l. ground arith, λ l. ground arith)

-- Where `kernel_recvmsg` fails with the error -e, `e` more than the bytes read so far, the count wraps
-- past the end of the buffer, and the command at the front of the buffer is processed.
pub parse_message_error :
    (sk_clone : SkClone) (size : ℕ) (conn : FeConnection) (e : ℕ)
    → conn.num_read < e
    → e < 4096
    → (max_buffer_size < (counted conn (u32_mod - e)).num_read)
      × (parse_message sk_clone size conn (u32_mod - e)
          ≡ process_data_for_connection sk_clone size (read_header (counted conn (u32_mod - e))))
unfolding parse_message
parse_message_error sk_clone size conn e l h = (ground arith, ground arith)

-- The header that is read: its command and its length come from the buffer alone, which stays.
pub read_header-front :
    (conn : FeConnection)
    → ((read_header conn).hdr.cmd ≡ byte_at conn 0)
      × ((read_header conn).ipv4hdr.len
          ≡ shift_in16 (shift_in16 0 (byte_at conn 10)) (byte_at conn 9))
      × ((i : ℕ) → byte_at (read_header conn) i ≡ byte_at conn i)
unfolding read_header
read_header-front conn = (refl, omega arith, λ i. refl)

-- The command at the front of the buffer is calm, once it is there.
abbrev pub CalmAt : ℕ → FeConnection → Type 0
CalmAt size conn = 10 ≤ conn.num_read → Calm size (read_header conn) (byte_at conn 0)

-- The connection after a read of `len` bytes: the command at the front has been processed, if it is
-- there.
abbrev pub after_read : FeConnection → ℕ → FeConnection
after_read conn len =
    let now = counted conn len in
    if leb 10 now.num_read then after_command (byte_at now 0) (read_header now) else now

pub parse_message_harmless :
    (sk_clone : SkClone) (size : ℕ) (conn : FeConnection) (len : ℕ)
    → conn.num_read + len < u32_mod
    → CalmAt size (counted conn len)
    → parse_message sk_clone size conn len ≡ handled (refused (after_read conn len))
unfolding read_header
parse_message_harmless sk_clone size conn len fits calm =
    let (count, acts, waits) = parse_message_data sk_clone size conn len fits in
    elim (Bool-cases (leb 10 (counted conn len).num_read)) [
      | inl t ↦
          let ten = leb→le _ _ t in
          rw t (
            acts (omega (arith, ten, count))
            ∙ process_data_for_connection_harmless sk_clone size (read_header (counted conn len))
                (calm ten))
      | inr t ↦ rw t (waits (ground arith))
    ]

-- Reading leaves the buffer, and counts.
pub after_read_keeps :
    (conn : FeConnection) (len : ℕ)
    → conn.num_read + len < u32_mod
    → ((after_read conn len).buffer ≡ conn.buffer)
      × ((after_read conn len).num_read ≡ conn.num_read + len)
unfolding read_header
after_read_keeps conn len fits = (ground arith, ground arith)

-- A read with the command for a new connection at the front adds one.
pub after_read-adds :
    (conn : FeConnection) (len : ℕ)
    → 10 ≤ conn.num_read + len
    → conn.num_read + len < u32_mod
    → byte_at conn 0 ≡ 0
    → length (after_read conn len).handoff_conn_list ≡ length conn.handoff_conn_list + 1
unfolding read_header
after_read-adds conn len ten fits new = ground (arith, new)
