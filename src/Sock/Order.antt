-- ===== src/Sock/Order.antt =====
-- When `tcp_cmp_sock` is an order.
use tcphandoff.Common.{
  ℕ, ◌+◌, ◌*◌, ◌^◌, ◌<◌, ◌≡◌, ◌≢◌, ◌↔◌, true, arith, ◌==◌, u32_mod, is_negative,
}
use tcphandoff.Sock.{Sock, sub32, tcp_cmp_sock, is_positive}

pub record IsSock (s : Sock) : Type 0 where
  pub addr_fits : s.daddr < u32_mod
  pub port_fits : s.dport < 2 ^ 16

-- Unless the addresses are half the address space apart, swapping the sockets swaps the sign of the
-- comparison; and it is 0 exactly on equal address and port.
pub tcp_cmp_sock_swap :
    (a b : Sock)
    → IsSock a
    → IsSock b
    → sub32 a.daddr b.daddr ≢ 2 ^ 31
    → (is_positive (tcp_cmp_sock a b) ≡ is_negative (tcp_cmp_sock b a))
      × (((tcp_cmp_sock a b == 0) ≡ true) ↔ ((a.daddr ≡ b.daddr) × (a.dport ≡ b.dport)))
unfolding tcp_cmp_sock
tcp_cmp_sock_swap a b va vb n = ground arith

-- The sockets of half the address space, from the address `base` on.
pub record IsNear (base : ℕ) (s : Sock) : Type 0 where
  pub valid : IsSock s
  pub near : sub32 s.daddr base < 2 ^ 31

-- The place of a socket in that half.
abbrev pub place : ℕ → Sock → ℕ
place base s = sub32 s.daddr base * 2 ^ 16 + s.dport

module _ (base : ℕ) (b : base < u32_mod) (l r : Sock) (vl : IsNear base l)
    (vr : IsNear base r) where
  -- Within half the address space the comparison is the order of the places.
  pub cmp_zero : ((tcp_cmp_sock l r == 0) ≡ true) ↔ (place base l ≡ place base r)
  unfolding tcp_cmp_sock
  cmp_zero = ground arith

  pub cmp_positive : (is_positive (tcp_cmp_sock l r) ≡ true) ↔ (place base r < place base l)
  unfolding tcp_cmp_sock
  cmp_positive = ground arith

  pub cmp_negative : (is_negative (tcp_cmp_sock l r) ≡ true) ↔ (place base l < place base r)
  unfolding tcp_cmp_sock
  cmp_negative = ground arith
