-- ===== src/Processor/Reads.antt =====
-- A header that comes in several reads.
use tcphandoff.Common.{
  ℕ, ◌+◌, ◌<◌, ◌≡◌, refl, sym, ap, ◌∙◌, some, List, [], ◌∷◌, ◌++◌, append-nil, append_assoc, arith,
  length, take, length-append, Outcome, done, ◌>>=◌, Received,
}
use tcphandoff.Http.{
  HttpHeader, HttpRequest, Status, max_input_size, http_header_alloc, http_process_connection,
}
use tcphandoff.Http.Frame.{status_live}
use tcphandoff.Processor.{process_pollin}
use tcphandoff.Processor.Buffer.{live, count, IsRequest, Judged}
use tcphandoff.Processor.Pollin.{delivered, process_pollin-Read}

-- One read after the other; `status` is the last one's result.
unfoldable pub process_reads : HttpRequest → Status → List Received → Outcome (HttpRequest × Status)
process_reads r status [] = done (r, status)
process_reads r status (received ∷ rest) =
    process_pollin (some http_header_alloc) r received >>= λ p. process_reads p.0 p.1 rest

-- All that the reads deliver.
abbrev pub bytes_of : List Received → List ℕ
bytes_of [] = []
bytes_of (received ∷ rest) = delivered received ++ bytes_of rest

-- What the reads make of a request, or what is there before the first.
abbrev pub Run : HttpRequest → List Received → Outcome (HttpRequest × Status) → Type 0
Run r rs result =
    (r' : HttpRequest) × (status : Status) × (result ≡ done (r', status))
    × (live r' ≡ live r ++ bytes_of rs)
    × (count r' ≡ count r + length (bytes_of rs))
    × Judged r' status

pub reads-Run :
    (rs : List Received) (received : Received) (r : HttpRequest) (status : Status)
    → IsRequest r
    → count r + length (bytes_of (received ∷ rs)) < max_input_size
    → Run r (received ∷ rs) (process_reads r status (received ∷ rs))
unfolding process_reads
reads-Run [] received r status v fits =
    let first = delivered received in
    let short : count r + length first < max_input_size =
      omega (arith, fits, length-append first []) in
    let (r', status', e, read, judged) = process_pollin-Read r received v (omega (arith, short)) in
    let (same, count) = read.appended short in
    (
      r',
      status',
      rw e refl,
      same ∙ ap (λ (l : List ℕ). live r ++ l) (sym (append-nil first)),
      omega (arith, count, length-append first []),
      judged,
    )
reads-Run (next ∷ rs) received r status v fits =
    let first = delivered received in
    let later = bytes_of (next ∷ rs) in
    let both = length-append first later in
    let short : count r + length first < max_input_size = omega (arith, fits, both) in
    let (r1, status1, e, read, judged) = process_pollin-Read r received v (omega (arith, short)) in
    let (same, count) = read.appended short in
    let (r', status', q, all, total, last) =
      reads-Run rs next r1 status1 read.valid (omega (arith, fits, both, count)) in
    (
      r',
      status',
      ap (λ (o : Outcome (HttpRequest × Status)). o >>= λ p. process_reads p.0 p.1 (next ∷ rs)) e
          ∙ q,
      all ∙ ap (λ (l : List ℕ). l ++ later) same ∙ append_assoc (live r) first later,
      omega (arith, total, count, both),
      last,
    )

live_of :
    (r : HttpRequest) (hdr : HttpHeader) → r.hdr ≡ some hdr → live r ≡ take (count r) hdr.buffer
live_of r hdr e = rw e refl

-- Two headers with the same bytes have the same status.
Judged-alike :
    (r r' : HttpRequest) (status status' : Status)
    → Judged r status
    → Judged r' status'
    → live r ≡ live r'
    → count r ≡ count r'
    → status ≡ status'
Judged-alike r r' status status' (hdr, e, s) (hdr', e', s') l n =
    s
    ∙ status_live hdr hdr' (count r) (
        sym (live_of r hdr e) ∙ l ∙ live_of r' hdr' e' ∙ ap (λ (k : ℕ). take k hdr'.buffer) (sym n))
    ∙ ap (λ (k : ℕ). (http_process_connection hdr' k).1) n
    ∙ sym s'

-- How the bytes of a header are cut into reads makes no difference: one or more reads that deliver the
-- same bytes leave the same bytes in the header, which are all of those, and the last one has the same result of
-- `http_process_connection`. The header stays shorter than `MAX_INPUT_SIZE`, and there is memory for
-- a first header.
pub process_reads_cut :
    (r : HttpRequest) (status : Status) (received received' : Received) (rs rs' : List Received)
    → IsRequest r
    → bytes_of (received ∷ rs) ≡ bytes_of (received' ∷ rs')
    → count r + length (bytes_of (received ∷ rs)) < max_input_size
    → (r1 r2 : HttpRequest) × (last : Status) × (process_reads r status (received ∷ rs)
        ≡ done (r1, last))
      × (process_reads r status (received' ∷ rs') ≡ done (r2, last))
      × (live r1 ≡ live r ++ bytes_of (received ∷ rs))
      × (live r2 ≡ live r1)
process_reads_cut r status received received' rs rs' v same fits =
    let (r1, s1, e1, l1, n1, j1) = reads-Run rs received r status v fits in
    let (r2, s2, e2, l2, n2, j2) =
      reads-Run rs' received' r status v
        (omega (arith, fits, ap (λ (l : List ℕ). length l) same)) in
    let alike : live r2 ≡ live r1 = l2 ∙ ap (λ (l : List ℕ). live r ++ l) (sym same) ∙ sym l1 in
    let statuses : s2 ≡ s1 =
      Judged-alike r2 r1 s2 s1 j2 j1 alike
        (omega (arith, n1, n2, ap (λ (l : List ℕ). length l) same)) in
    (r1, r2, s1, e1, e2 ∙ ap (λ (s : Status). done (r2, s)) statuses, l1, alike)
