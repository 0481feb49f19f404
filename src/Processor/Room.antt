-- ===== src/Processor/Room.antt =====
-- Reads as long as the buffer has room for.
use tcphandoff.Common.{
  ◌+◌, ◌≤◌, ◌<◌, ◌≡◌, refl, ap, ◌∙◌, inl, inr, some, List, [], ◌∷◌, arith, Option-cases, length,
  Outcome, done, ◌>>=◌, Received,
}
use tcphandoff.Http.{HttpRequest, Status, http_header_alloc, max_input_size}
use tcphandoff.Processor.{process_pollin}
use tcphandoff.Processor.Buffer.{count, IsRequest}
use tcphandoff.Processor.Pollin.{delivered, process_pollin-Read}
use tcphandoff.Processor.Reads.{process_reads}

-- Each read delivers no more than `vec.iov_len` asks for, MAX_INPUT_SIZE less what has been read when
-- it comes.
abbrev pub WithinRoom : HttpRequest → List Received → Type 0
WithinRoom r [] = Unit
WithinRoom r (received ∷ rest) =
    (count r + length (delivered received) ≤ max_input_size)
    × ((r' : HttpRequest) (status : Status)
        → process_pollin (some http_header_alloc) r received ≡ done (r', status)
        → WithinRoom r' rest)

count_short : (r : HttpRequest) → IsRequest r → count r < max_input_size
count_short r v = elim (Option-cases r.hdr) [
  | inl e ↦ rw e (omega arith)
  | inr (hdr, e) ↦ rw e (rw e at v).1
]

-- However many reads follow each other, `process_pollin` does not write past the end of the header's
-- buffer: the buffer keeps its size, and what has been read stays shorter than `MAX_INPUT_SIZE`, also
-- where in all more is delivered than the buffer holds. Each read delivers at most what there is room
-- for when it comes, and there is memory for a first header.
pub process_reads_in_room :
    (rs : List Received) (r : HttpRequest) (status : Status)
    → IsRequest r
    → WithinRoom r rs
    → (r' : HttpRequest) × (last : Status) × (process_reads r status rs ≡ done (r', last))
      × IsRequest r'
      × (count r' < max_input_size)
unfolding process_reads
process_reads_in_room [] r status v w = (r, status, refl, v, count_short r v)
process_reads_in_room (received ∷ rest) r status v w =
    let (r1, status1, e, read, judged) = process_pollin-Read r received v (omega (arith, w.0)) in
    let (r', last, q, v', short) =
      process_reads_in_room rest r1 status1 read.valid (w.1 r1 status1 e) in
    (
      r',
      last,
      ap (λ (o : Outcome (HttpRequest × Status)). o >>= λ p. process_reads p.0 p.1 rest) e ∙ q,
      v',
      short,
    )
