-- ===== src/Processor/Routed.antt =====
-- A request that comes in pieces.
use tcphandoff.Common.{
  ℕ, ◌≤◌, ◌<◌, ◌≡◌, refl, sym, ap, ◌∙◌, some, List, [], ◌∷◌, ◌++◌, arith, length, take, length-take,
  done, Received,
}
use tcphandoff.Http.{
  HttpHeader, HttpRequest, Status, found, max_input_size, http_process_connection,
}
use tcphandoff.Http.Scan.{NoSpace}
use tcphandoff.Http.HeaderEnd.{EndsHeader}
use tcphandoff.Http.Request.{line, uri_hash, http_process_connection-found_iff}
use tcphandoff.Processor.Buffer.{live, count, IsRequest, Judged}
use tcphandoff.Processor.Reads.{process_reads, bytes_of, reads-Run}

-- The bytes of the header, if there is one.
live-some :
    (r : HttpRequest) (hdr : HttpHeader) → r.hdr ≡ some hdr → live r ≡ take r.hdrlen hdr.buffer
live-some r hdr e = rw e refl

count-some : (r : HttpRequest) (hdr : HttpHeader) → r.hdr ≡ some hdr → count r ≡ r.hdrlen
count-some r hdr e = rw e refl

-- A header that is a whole request is found.
Judged-found :
    (r : HttpRequest) (status : Status) (m u t : List ℕ)
    → Judged r status
    → live r ≡ line m u t
    → count r ≡ length (line m u t)
    → NoSpace m
    → NoSpace u
    → EndsHeader t
    → status ≡ found (uri_hash u)
Judged-found r status m u t (hdr, e, s) l n nm nu ends =
    let is_line : take r.hdrlen hdr.buffer ≡ line m u t = sym (live-some r hdr e) ∙ l in
    let within : r.hdrlen ≤ length hdr.buffer = omega (
      arith,
      n,
      count-some r hdr e,
      length-take r.hdrlen hdr.buffer,
      ap (λ (x : List ℕ). length x) is_line,
    ) in
    s
    ∙ ap (λ (k : ℕ). (http_process_connection hdr k).1) (count-some r hdr e)
    ∙ (http_process_connection-found_iff hdr r.hdrlen (uri_hash u) within).1 (record {
      method = m;
      uri = u;
      tail = t;
      is_line = is_line;
      method_clean = nm;
      uri_clean = nu;
      ends = ends;
      hashed = refl;
    })

-- A request that a client sends in any number of pieces is found, with the hash of its URI, once the
-- last piece has been read: the pieces together are a method, a space, a URI, a space and a tail that the
-- third loop accepts, the method and the URI without spaces, and they are shorter than
-- `MAX_INPUT_SIZE`. Nothing has been read of the request before, and there is memory for its header.
pub pieces_found :
    (r : HttpRequest) (status : Status) (received : Received) (rs : List Received) (m u t : List ℕ)
    → IsRequest r
    → live r ≡ []
    → count r ≡ 0
    → bytes_of (received ∷ rs) ≡ line m u t
    → length (line m u t) < max_input_size
    → NoSpace m
    → NoSpace u
    → EndsHeader t
    → (r' : HttpRequest) × (process_reads r status (received ∷ rs) ≡ done (r', found (uri_hash u)))
      × (live r' ≡ line m u t)
pieces_found r status received rs m u t v empty zero_read whole short nm nu ends =
    let size = ap (λ (x : List ℕ). length x) whole in
    let (r', last, e, all, n, judged) =
      reads-Run rs received r status v (omega (arith, zero_read, size, short)) in
    let now : live r' ≡ line m u t =
      all ∙ ap (λ (x : List ℕ). x ++ bytes_of (received ∷ rs)) empty ∙ whole in
    let hashed =
      Judged-found r' last m u t judged now (omega (arith, n, zero_read, size)) nm nu ends in
    (r', e ∙ ap (λ (s : Status). done (r', s)) hashed, now)
