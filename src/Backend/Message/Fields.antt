-- ===== src/Backend/Message/Fields.antt =====
-- The fields that `parse_message` reads, against a little-endian reading of the bytes.
use tcphandoff.Common.{ℕ, ◌+◌, ◌*◌, ◌<◌, ◌≡◌, ◌↔◌, arith}
use tcphandoff.Backend.{FeConnection, byte_at}
use tcphandoff.Backend.Message.{read_header, shift_in32, shift_in16}

abbrev pub little16 : ℕ → ℕ → ℕ
little16 b0 b1 = b0 + 256 * b1

abbrev pub little32 : ℕ → ℕ → ℕ → ℕ → ℕ
little32 b0 b1 b2 b3 = b0 + 256 * (b1 + 256 * (b2 + 256 * b3))

-- The bytes of the buffer are bytes.
abbrev pub IsBytes : FeConnection → Type 0
IsBytes conn = (i : ℕ) → byte_at conn i < 256

address_iff :
    (b0 b1 b2 b3 : ℕ)
    → b0 < 256
    → b1 < 256
    → b2 < 256
    → b3 < 256
    → (shift_in32 (shift_in32 (shift_in32 (shift_in32 0 b3) b2) b1) b0 ≡ little32 b0 b1 b2 b3)
      ↔ ((b0 < 128) × (b1 < 128) × (b2 < 128))
address_iff b0 b1 b2 b3 h0 h1 h2 h3 = ground arith

half_iff :
    (old b0 b1 : ℕ)
    → b0 < 256
    → b1 < 256
    → (shift_in16 (shift_in16 old b1) b0 ≡ little16 b0 b1) ↔ (b0 < 128)
half_iff old b0 b1 h0 h1 = ground arith

-- The header's address, port and length are the little-endian values of bytes 2 to 5, 7 to 8 and 9 to
-- 10 exactly when all but the highest byte of each are below 128; the length does not depend on
-- the one read before. A byte of 128 or more is taken for a negative number.
pub read_header_fields :
    (conn : FeConnection)
    → IsBytes conn
    → let at = byte_at conn in
      let read = (read_header conn).ipv4hdr in
      ((read.ipaddress ≡ little32 (at 2) (at 3) (at 4) (at 5))
        ↔ ((at 2 < 128) × (at 3 < 128) × (at 4 < 128)))
      × ((read.port ≡ little16 (at 7) (at 8)) ↔ (at 7 < 128))
      × ((read.len ≡ little16 (at 9) (at 10)) ↔ (at 9 < 128))
unfolding read_header
read_header_fields conn v = (
  address_iff (byte_at conn 2) (byte_at conn 3) (byte_at conn 4) (byte_at conn 5) (v 2) (v 3) (v 4)
      (v 5),
  half_iff 0 (byte_at conn 7) (byte_at conn 8) (v 7) (v 8),
  half_iff conn.ipv4hdr.len (byte_at conn 9) (byte_at conn 10) (v 9) (v 10),
)
