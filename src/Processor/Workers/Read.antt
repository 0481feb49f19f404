-- ===== src/Processor/Workers/Read.antt =====
-- The size of the headers, and one read into a header.
use tcphandoff.Common.{
  ℕ, ◌+◌, ◌≡◌, refl, ap, ◌∙◌, ◌&&◌, Option, none, some, List, [], ◌∷◌, ltb, if◌then◌else◌, length,
  length-replicate, done, fault, got, write_at,
}
use tcphandoff.Http.{max_header_size, max_input_size, http_header_alloc}
use tcphandoff.Processor.Workers.{
  store_nul, Shared, judges, set_buffer, Next, end_message, receive_at,
}

abbrev pub IsFull : List ℕ → Type 0
IsFull buffer = length buffer ≡ max_header_size

abbrev pub IsSized : Shared → ℕ → Type 0
IsSized s p = length (s.header p).buffer ≡ max_header_size

-- The header of the request, if there is one, has its size.
abbrev pub HasSized : Shared → Option ℕ → Type 0
HasSized s none = Unit
HasSized s (some p) = IsSized s p

store_nul_lem :
    (s : Shared) (n q : ℕ) (ended : List ℕ)
    → write_at (n + 1) (0 ∷ []) (s.header q).buffer ≡ some ended
    → store_nul n s q ≡ done (record (set_buffer s q ended) { hdrlen = n }, judges)
unfolding store_nul
store_nul_lem s n q ended w = rw (w, store_nul) refl

pub end_message_lem :
    (s : Shared) (n q : ℕ) (ended : List ℕ)
    → s.hdr ≡ some q
    → write_at (n + 1) (0 ∷ []) (s.header q).buffer ≡ some ended
    → end_message n s ≡ done (record (set_buffer s q ended) { hdrlen = n }, judges)
unfolding end_message
end_message_lem s n q ended e w =
    ap (λ (o : Option ℕ). elim o as (λ x. Next) [ none ↦ fault | some x ↦ store_nul n s x ]) e
    ∙ store_nul_lem s n q ended w

-- A read whose bytes have room.
pub receive_at_lem :
    (p base : ℕ) (bytes filled : List ℕ) (s : Shared)
    → write_at base bytes (s.header p).buffer ≡ some filled
    → receive_at p base (got bytes) s ≡ (
        if ltb 0 (length bytes) && ltb (s.hdrlen + length bytes) max_input_size
        then end_message (s.hdrlen + length bytes) (set_buffer s p filled)
        else done (set_buffer s p filled, judges))
unfolding receive_at
receive_at_lem p base bytes filled s w = rw (w, receive_at) refl

pub fresh : length (http_header_alloc).buffer ≡ max_header_size
unfolding http_header_alloc
fresh = length-replicate {A = ℕ} 4096 0
