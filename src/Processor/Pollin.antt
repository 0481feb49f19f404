-- ===== src/Processor/Pollin.antt =====
-- What `process_pollin` makes of a read.
use tcphandoff.Common.{
  ℕ, ◌+◌, ◌≤◌, ◌≡◌, refl, sym, ap, ◌∙◌, subst, inl, inr, Option, none, some, List, [], append-nil,
  arith, Option-cases, length, take, length-replicate, Outcome, done, ◌>>=◌, Received, got, failed,
}
use tcphandoff.Http.{
  HttpHeader, HttpRequest, Status, max_header_size, http_header_alloc, http_process_connection,
}
use tcphandoff.Http.Frame.{status_live, process_buffer}
use tcphandoff.Processor.{receive, process_header, process_pollin}
use tcphandoff.Processor.Buffer.{count, IsRequest, Read, Judged, with_header, append_message-Read}

-- What a read delivers.
abbrev pub delivered : Received → List ℕ
delivered (got bytes) = bytes
delivered (failed e) = []

failed-Read :
    (r : HttpRequest) (hdr : HttpHeader)
    → IsRequest (with_header r hdr)
    → Read (with_header r hdr) [] (with_header r hdr)
failed-Read r hdr v = record {
  valid = v;
  has_header = (hdr, refl);
  appended = λ s. (sym (append-nil (take r.hdrlen hdr.buffer)), omega arith);
  dropped = λ l. (refl, refl);
}

receive-Read :
    (r : HttpRequest) (hdr : HttpHeader) (received : Received)
    → IsRequest (with_header r hdr)
    → r.hdrlen + length (delivered received) ≤ max_header_size
    → (r1 : HttpRequest) × (receive (with_header r hdr) received ≡ done r1)
      × Read (with_header r hdr) (delivered received) r1
unfolding receive
receive-Read r hdr (failed e) v fits = (with_header r hdr, refl, failed-Read r hdr v)
receive-Read r hdr (got bytes) v fits = append_message-Read r hdr v.0 bytes v.1 fits

-- `http_process_connection` changes neither the bytes nor their number.
process_header-at :
    (r : HttpRequest) (bytes : List ℕ) (r1 : HttpRequest) (hdr : HttpHeader)
    → Read r bytes (with_header r1 hdr)
    → Read r bytes (process_header (with_header r1 hdr)).0
      × Judged (process_header (with_header r1 hdr)).0 (process_header (with_header r1 hdr)).1
unfolding process_header
process_header-at r bytes r1 hdr read =
    let processed = (http_process_connection hdr r1.hdrlen).0 in
    let same = process_buffer hdr r1.hdrlen in
    let same_live = ap (λ (b : List ℕ). take r1.hdrlen b) same in
    (
      record {
        valid = (ap length same ∙ read.valid.0, read.valid.1);
        has_header = (processed, refl);
        appended = λ s. (same_live ∙ (read.appended s).0, (read.appended s).1);
        dropped = λ l. (same_live ∙ (read.dropped l).0, (read.dropped l).1);
      },
      (processed, refl, status_live hdr processed r1.hdrlen (sym same_live)),
    )

process_header-Read :
    (r : HttpRequest) (bytes : List ℕ) (r1 : HttpRequest)
    → Read r bytes r1
    → Read r bytes (process_header r1).0 × Judged (process_header r1).0 (process_header r1).1
process_header-Read r bytes r1 read =
    let (hdr, e) = read.has_header in
    let same : r1 ≡ with_header r1 hdr = ap (λ (h : Option HttpHeader). record r1 { hdr = h }) e in
    subst
      (λ q. Read r bytes (process_header q).0 × Judged (process_header q).0 (process_header q).1)
      (sym same) (process_header-at r bytes r1 hdr (subst (Read r bytes) same read))

pollin_from :
    (r : HttpRequest) (hdr : HttpHeader) (received : Received)
    → IsRequest (with_header r hdr)
    → r.hdrlen + length (delivered received) ≤ max_header_size
    → (r' : HttpRequest) × (status : Status) × ((receive (with_header r hdr) received
          >>= λ appended. done (process_header appended))
        ≡ done (r', status))
      × Read (with_header r hdr) (delivered received) r'
      × Judged r' status
pollin_from r hdr received v fits =
    let (r1, e, read) = receive-Read r hdr received v fits in
    let (after, judged) = process_header-Read (with_header r hdr) (delivered received) r1 read in
    ((process_header r1).0, (process_header r1).1, rw e refl, after, judged)

-- The request before its first read.
abbrev without_header : HttpRequest → HttpRequest
without_header r = record r { hdr = none }

first-Read :
    (r : HttpRequest) (bytes : List ℕ) (r' : HttpRequest)
    → Read (with_header (record r { hdrlen = 0 }) http_header_alloc) bytes r'
    → Read (without_header r) bytes r'
first-Read r bytes r' read = record {
  valid = read.valid;
  has_header = read.has_header;
  appended = read.appended;
  dropped = read.dropped;
}

-- What comes out of a read that fits.
abbrev pub Processed : HttpRequest → Received → Outcome (HttpRequest × Status) → Type 0
Processed r received result =
    (r' : HttpRequest) × (status : Status) × (result ≡ done (r', status))
    × Read r (delivered received) r'
    × Judged r' status

pollin_first :
    (r : HttpRequest) (received : Received)
    → length (delivered received) ≤ max_header_size
    → Processed
        (without_header r)
        received
        (process_pollin (some http_header_alloc) (without_header r) received)
unfolding process_pollin http_header_alloc
pollin_first r received fits =
    let (r', status, e, read, judged) =
      pollin_from (record r { hdrlen = 0 }) http_header_alloc received
        (length-replicate {A = ℕ} max_header_size 0, omega arith) (omega (arith, fits)) in
    (r', status, e, first-Read r (delivered received) r' read, judged)

pollin_next :
    (r : HttpRequest) (hdr : HttpHeader) (received : Received)
    → IsRequest (with_header r hdr)
    → r.hdrlen + length (delivered received) ≤ max_header_size
    → Processed
        (with_header r hdr)
        received
        (process_pollin (some http_header_alloc) (with_header r hdr) received)
unfolding process_pollin
pollin_next r hdr received v fits = pollin_from r hdr received v fits

count_none : (r : HttpRequest) → r.hdr ≡ none → count r ≡ 0
count_none r e = rw e refl

-- `process_pollin` appends what a read delivers to the header while it is shorter than
-- `MAX_INPUT_SIZE`; a read that would make it longer is forgotten, and the header stays as it was. An
-- error changes nothing. The result of `http_process_connection` is that of the header as it is then.
-- What is read lies within the header's buffer, and there is memory for a first header.
pub process_pollin-Read :
    (r : HttpRequest) (received : Received)
    → IsRequest r
    → count r + length (delivered received) ≤ max_header_size
    → Processed r received (process_pollin (some http_header_alloc) r received)
process_pollin-Read r received v fits = elim (Option-cases r.hdr) [
  | inl e ↦
      subst (λ q. Processed q received (process_pollin (some http_header_alloc) q received))
        (sym (ap (λ (h : Option HttpHeader). record r { hdr = h }) e))
        (pollin_first r received (omega (arith, fits, count_none r e)))
  | inr p ↦
      let same = ap (λ (h : Option HttpHeader). record r { hdr = h }) p.1 in
      subst (λ q. Processed q received (process_pollin (some http_header_alloc) q received))
        (sym same)
        (pollin_next r p.0 received (subst IsRequest same v)
          (subst (λ q. count q + length (delivered received) ≤ max_header_size) same fits))
]
