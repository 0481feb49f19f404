-- ===== src/Processor/Workers/Fresh.antt =====
-- Two workers that read for a connection without a header.
use tcphandoff.Common.{
  ℕ, ◌+◌, ◌<◌, ◌≡◌, refl, ap, ◌∙◌, false, Option, none, some, List, ◌∷◌, arith, ◌==◌, length, done,
  fault, Received, got, write_at,
}
use tcphandoff.Http.{HttpHeader, max_header_size, http_header_alloc}
use tcphandoff.Poll.{update}
use tcphandoff.Processor.Workers.{
  Shared, Doing, begins, no_header, sets_length, reads, receive_at, step, Workers, Turn, turn,
  turns, starting, turn_lem, turns-turn,
}
use tcphandoff.Processor.Workers.Read.{IsSized, fresh}
use tcphandoff.Processor.Workers.Lost.{begin_turn}

no_header_lem :
    (memory : Option ℕ) (received : Received) (s : Shared)
    → s.hdr ≡ none
    → step memory received s begins ≡ done (s, no_header)
unfolding step
no_header_lem memory received s there =
    ap
      (λ (o : Option ℕ).
        done (s, elim o as (λ x. Doing) [ none ↦ no_header | some q ↦ reads q s.hdrlen ]))
      there

no_header_turn :
    (w : Workers) (t : Turn)
    → w.doing t.worker ≡ begins
    → w.shared.hdr ≡ none
    → turn w t ≡ done (record { shared = w.shared; doing = update w.doing t.worker no_header })
no_header_turn w t at there =
    turn_lem w t begins (w.shared, no_header) at (no_header_lem t.memory t.received w.shared there)

-- The request with a new header.
abbrev with_new : Shared → ℕ → Shared
with_new s memory = record s {
  hdr = some memory;
  header = update s.header memory http_header_alloc;
}

store_turn :
    (w : Workers) (t : Turn) (memory : ℕ)
    → w.doing t.worker ≡ no_header
    → t.memory ≡ some memory
    → turn w t
      ≡ done (record {
        shared = with_new w.shared memory;
        doing = update w.doing t.worker sets_length;
      })
unfolding step
store_turn w t memory at e =
    turn_lem w t no_header (with_new w.shared memory, sets_length) at (rw e refl)

new-IsSized : (s : Shared) (memory : ℕ) → IsSized (with_new s memory) memory
new-IsSized s memory =
    let own : update s.header memory http_header_alloc memory ≡ http_header_alloc = ground arith in
    ap (λ (h : HttpHeader). length h.buffer) own ∙ fresh

write_at-overruns :
    (base : ℕ) (bytes buffer : List ℕ)
    → length buffer ≡ max_header_size
    → max_header_size < base + length bytes
    → write_at base bytes buffer ≡ none
unfolding write_at
write_at-overruns base bytes buffer size over = ground (arith, size, over)

receive_at-overruns :
    (p base : ℕ) (bytes : List ℕ) (s : Shared)
    → write_at base bytes (s.header p).buffer ≡ none
    → receive_at p base (got bytes) s ≡ fault
unfolding receive_at
receive_at-overruns p base bytes s w = rw (w, receive_at) refl

overruns :
    (w : Workers) (t : Turn) (ts : List Turn) (p base : ℕ) (bytes : List ℕ)
    → w.doing t.worker ≡ reads p base
    → t.received ≡ got bytes
    → IsSized w.shared p
    → max_header_size < base + length bytes
    → turns (t ∷ ts) w ≡ fault
unfolding turns turn step
overruns w t ts p base bytes at received size over =
    let e =
      receive_at-overruns p base bytes w.shared
        (write_at-overruns base bytes (w.shared.header p).buffer size over) in
    rw (at, received, e) refl

-- A worker that stores a new header, and a second one that begins before the length is cleared.
pub uninitialised_length :
    (s : Shared) (i j memory : ℕ) (received : Received) (bytes : List ℕ) (ts : List Turn)
    → s.hdr ≡ none
    → (i == j) ≡ false
    → max_header_size < s.hdrlen + length bytes
    → let one : Turn = record { worker = i; memory = some memory; received = received } in
      let other : Turn = record { worker = j; memory = some memory; received = got bytes } in
      turns (one ∷ one ∷ other ∷ other ∷ ts) (starting s) ≡ fault
uninitialised_length s i j memory received bytes ts there apart over =
    let one : Turn = record { worker = i; memory = some memory; received = received } in
    let other : Turn = record { worker = j; memory = some memory; received = got bytes } in
    let d0 : ℕ → Doing = λ i. begins in
    let d1 = update d0 i no_header in
    let d2 = update d1 i sets_length in
    let d3 = update d2 j (reads memory s.hdrlen) in
    let s1 = with_new s memory in
    turns-turn (starting s) one (one ∷ other ∷ other ∷ ts) (record { shared = s; doing = d1 })
      (no_header_turn (starting s) one refl there)
    ∙ turns-turn (record { shared = s; doing = d1 }) one (other ∷ other ∷ ts)
        (record { shared = s1; doing = d2 })
        (store_turn (record { shared = s; doing = d1 }) one memory (ground arith) refl)
    ∙ turns-turn (record { shared = s1; doing = d2 }) other (other ∷ ts)
        (record { shared = s1; doing = d3 })
        (begin_turn (record { shared = s1; doing = d2 }) other memory (ground (arith, apart)) refl)
    ∙ overruns (record { shared = s1; doing = d3 }) other ts memory s.hdrlen bytes (ground arith)
        refl (new-IsSized s memory) over
