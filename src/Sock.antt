-- ===== src/Sock.antt =====
-- frontend/tcpha_fe_poll.c, `tcp_cmp_sock`: sockets compared by the address and port of the peer.
-- The result is an `int`, as its bit pattern.
pub mod Order
use tcphandoff.Common.{
  ℕ, zero, suc, ◌+◌, ◌-◌, ◌*◌, ◌/◌, ◌%◌, ◌^◌, ◌≤◌, ◌<◌, min, bit_and, bit_or, ◌≡◌, refl, sym, ap,
  ◌∙◌, subst, fun_ext, ◌≢◌, ◌↔◌, ◌⊎◌, inl, inr, Bool, true, false, not, ◌&&◌, ◌||◌, Option, none,
  some, List, [], ◌∷◌, ◌++◌, map, append-nil, append_assoc, arith, dec_lt, ℕ_discrete, ltb, leb,
  ◌==◌, if◌then◌else◌, ltb→lt, lt→ltb, leb→le, ==_iff, tests, Bool-cases, Option-cases, length,
  get_or, take, drop, replicate, All, length-append, length-take, take-append-drop, All-append,
  member, u32_mod, char_to_int, is_negative,
}

-- `daddr` and `dport` of a `struct inet_sock`: a 32-bit and a 16-bit word.
pub record Sock : Type 0 where
  pub daddr : ℕ
  pub dport : ℕ

-- a - b, in 32 bits.
abbrev pub sub32 : ℕ → ℕ → ℕ
sub32 a b = (a + u32_mod - b) % u32_mod

unfoldable pub tcp_cmp_sock : Sock → Sock → ℕ
tcp_cmp_sock left right =
    let diff = sub32 left.daddr right.daddr in
    if diff == 0 then sub32 left.dport right.dport else diff

-- The `int` is above 0.
abbrev pub is_positive : ℕ → Bool
is_positive w = not (w == 0) && not (is_negative w)
