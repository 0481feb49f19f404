-- ===== src/Backend/Message/Layout.antt =====
-- A header laid out as `parse_message` reads it, and read back.
use tcphandoff.Common.{
  ℕ, ◌+◌, ◌/◌, ◌%◌, ◌^◌, ◌<◌, ◌≡◌, refl, sym, ap, ◌∙◌, ◌↔◌, List, [], ◌∷◌, ◌++◌, arith, length,
  get_or, u32_mod,
}
use tcphandoff.Backend.{FeConnection, TcphaHdr, TcphaIpv4Hdr, hdr_size, ipv4_hdr_size, byte_at}
use tcphandoff.Backend.Message.{read_header}
use tcphandoff.Backend.Message.Fields.{little16, little32, IsBytes, read_header_fields}

-- The bytes of a number, the lowest first.
abbrev pub bytes16 : ℕ → List ℕ
bytes16 n = n % 256 ∷ n / 256 % 256 ∷ []

abbrev pub bytes32 : ℕ → List ℕ
bytes32 n = n % 256 ∷ n / 256 % 256 ∷ n / 256 / 256 % 256 ∷ n / 256 / 256 / 256 % 256 ∷ []

-- The two headers as bytes, in the order of their fields, with a byte that is skipped before the port.
abbrev pub laid_out : TcphaHdr → TcphaIpv4Hdr → ℕ → List ℕ
laid_out h ip skipped =
    h.cmd ∷ h.ipversion ∷ (bytes32 ip.ipaddress ++ (skipped ∷ (bytes16 ip.port ++ bytes16 ip.len)))

-- The fields fit their types.
pub record Fits (h : TcphaHdr) (ip : TcphaIpv4Hdr) : Type 0 where
  pub cmd : h.cmd < 256
  pub ipversion : h.ipversion < 256
  pub ipaddress : ip.ipaddress < u32_mod
  pub port : ip.port < 2 ^ 16
  pub len : ip.len < 2 ^ 16

little16-bytes16 : (n : ℕ) → n < 2 ^ 16 → little16 (n % 256) (n / 256 % 256) ≡ n
little16-bytes16 n h = omega arith

little32-bytes32 :
    (n : ℕ)
    → n < u32_mod
    → little32 (n % 256) (n / 256 % 256) (n / 256 / 256 % 256) (n / 256 / 256 / 256 % 256) ≡ n
little32-bytes32 n h = omega arith

back16 :
    (x b0 b1 n : ℕ)
    → n < 2 ^ 16
    → b0 ≡ n % 256
    → b1 ≡ n / 256 % 256
    → ((x ≡ little16 b0 b1) ↔ (b0 < 128))
    → ((x ≡ n) ↔ (n % 256 < 128))
back16 x b0 b1 n h e0 e1 i =
    let same : little16 b0 b1 ≡ n = rw (e0, e1) (little16-bytes16 n h) in
    (λ q. rw e0 at (i.0 (q ∙ sym same)), λ c. i.1 (rw e0 c) ∙ same)

back32 :
    (x b0 b1 b2 b3 n : ℕ)
    → n < u32_mod
    → b0 ≡ n % 256
    → b1 ≡ n / 256 % 256
    → b2 ≡ n / 256 / 256 % 256
    → b3 ≡ n / 256 / 256 / 256 % 256
    → ((x ≡ little32 b0 b1 b2 b3) ↔ ((b0 < 128) × (b1 < 128) × (b2 < 128)))
    → ((x ≡ n) ↔ ((n % 256 < 128) × (n / 256 % 256 < 128) × (n / 256 / 256 % 256 < 128)))
back32 x b0 b1 b2 b3 n h e0 e1 e2 e3 i =
    let same : little32 b0 b1 b2 b3 ≡ n = rw (e0, e1, e2, e3) (little32-bytes32 n h) in
    (λ q. rw (e0, e1, e2) at (i.0 (q ∙ sym same)), λ c. i.1 (rw (e0, e1, e2) c) ∙ same)

read_hdr :
    (conn : FeConnection) (h : TcphaHdr)
    → byte_at conn 0 ≡ h.cmd
    → byte_at conn 1 ≡ h.ipversion
    → (read_header conn).hdr ≡ h
unfolding read_header
read_hdr conn h c v = rw (c, v) refl

-- A header that a front end has laid out is read back, whatever follows it: the command and the version
-- always, and the address, the port and the length exactly where all bytes of them but the highest are below
-- 128. The header takes eleven bytes, one more than `parse_message` waits for.
pub read_header-laid_out :
    (conn : FeConnection) (h : TcphaHdr) (ip : TcphaIpv4Hdr) (skipped : ℕ) (rest : List ℕ)
    → Fits h ip
    → IsBytes conn
    → conn.buffer ≡ laid_out h ip skipped ++ rest
    → let read = read_header conn in
      (read.hdr ≡ h)
      × ((read.ipv4hdr.ipaddress ≡ ip.ipaddress) ↔ (
          (ip.ipaddress % 256 < 128)
          × (ip.ipaddress / 256 % 256 < 128)
          × (ip.ipaddress / 256 / 256 % 256 < 128)))
      × ((read.ipv4hdr.port ≡ ip.port) ↔ (ip.port % 256 < 128))
      × ((read.ipv4hdr.len ≡ ip.len) ↔ (ip.len % 256 < 128))
      × (length (laid_out h ip skipped) ≡ hdr_size + ipv4_hdr_size + 1)
read_header-laid_out conn h ip skipped rest f v e =
    let (address, port, len) = read_header_fields conn v in
    let at : (i : ℕ) → byte_at conn i ≡ get_or (laid_out h ip skipped ++ rest) i 0 =
      λ i. ap (λ (b : List ℕ). get_or b i 0) e in
    let read = read_header conn in
    (
      read_hdr conn h (at 0) (at 1),
      back32 read.ipv4hdr.ipaddress (byte_at conn 2) (byte_at conn 3) (byte_at conn 4)
          (byte_at conn 5) ip.ipaddress f.ipaddress (at 2) (at 3) (at 4) (at 5) address,
      back16 read.ipv4hdr.port (byte_at conn 7) (byte_at conn 8) ip.port f.port (at 7) (at 8) port,
      back16 read.ipv4hdr.len (byte_at conn 9) (byte_at conn 10) ip.len f.len (at 9) (at 10) len,
      refl,
    )
