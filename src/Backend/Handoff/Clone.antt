-- ===== src/Backend/Handoff/Clone.antt =====
-- The socket that `new_conn` makes.
use tcphandoff.Common.{ℕ, ltb, ◌≤◌, ◌≡◌, refl, false, none, arith}
use tcphandoff.Backend.{FeConnection, byte_at}
use tcphandoff.Backend.Handoff.{
  created, SkClone, TcpSock, cloned, no_memory, bad_address, faulted, create_sk, new_conn,
  char_to_pointer, zeros,
}

-- The clone, detached from its port and with nothing to accept.
abbrev pub detached : TcpSock → TcpSock
detached s = record s { icsk_bind_hash = none; icsk_accept_queue = zeros s.icsk_accept_queue }

-- `create_sk` returns a socket where the kernel clones the source, which differs from the clone in its
-- bind bucket and its accept queue alone, which are cleared; it faults where `sk_clone` does.
pub create_sk-detached :
    (sk_clone : SkClone) (source : ℕ)
    → (sk_clone source ≡ no_memory → create_sk sk_clone source ≡ no_memory)
      × (sk_clone source ≡ bad_address → create_sk sk_clone source ≡ bad_address)
      × ((s : TcpSock)
          → sk_clone source ≡ cloned s
          → create_sk sk_clone source ≡ cloned (detached s))
unfolding create_sk
create_sk-detached sk_clone source =
    (λ e. rw (e, create_sk) refl, λ e. rw (e, create_sk) refl, λ s e. rw (e, create_sk) refl)

-- `new_conn` faults where the message has data enough for a socket and byte 11 of the buffer, taken for a
-- pointer, is no address of one.
pub new_conn_faults :
    (sk_clone : SkClone) (size : ℕ) (conn : FeConnection)
    → size ≤ conn.ipv4hdr.len
    → sk_clone (char_to_pointer (byte_at conn 11)) ≡ bad_address
    → new_conn sk_clone size conn ≡ faulted
unfolding new_conn created
new_conn_faults sk_clone size conn l e =
    let long : ltb conn.ipv4hdr.len size ≡ false = ground arith in
    rw (long, (create_sk-detached sk_clone (char_to_pointer (byte_at conn 11))).1 e) refl
