-- ===== src/Http/Frame.antt =====
-- What `http_process_connection` reads and writes of a header.
use tcphandoff.Common.{
  ℕ, ◌+◌, ◌≡◌, sym, ap, ◌∙◌, not, some, List, arith, ltb, if◌then◌else◌, take, drop,
}
use tcphandoff.Http.{
  HttpHeader, Status, hdr_read_error, skip_method, route, http_process_connection,
}

-- Where the status is read from a computed URI.
route_status :
    (hdr hdr' : HttpHeader) (n i : ℕ) (uri : List ℕ)
    → (route hdr n i uri).1 ≡ (route hdr' n i uri).1
unfolding route
route_status hdr hdr' n i uri = ground arith

route_buffer :
    (hdr : HttpHeader) (n i : ℕ) (uri : List ℕ) → (route hdr n i uri).0.buffer ≡ hdr.buffer
unfolding route
route_buffer hdr n i uri = ground arith

-- The status, of the bytes read so far.
abbrev status_of : HttpHeader → ℕ → List ℕ → Status
status_of hdr n bytes =
    let (i, rest) = skip_method 0 bytes in
    if not (ltb (i + 1) n) then hdr_read_error else (route hdr n (i + 1) (drop 1 rest)).1

process-status_of :
    (hdr hdr' : HttpHeader) (n : ℕ)
    → (http_process_connection hdr n).1 ≡ status_of hdr' n (take n hdr.buffer)
unfolding http_process_connection
process-status_of hdr hdr' n =
    let (i, rest) = skip_method 0 (take n hdr.buffer) in
    ground
      (arith, route_status (record hdr { request_uri = some (i + 1) }) hdr' n (i + 1) (drop 1 rest))

-- The status depends only on the bytes read so far.
pub status_live :
    (hdr hdr' : HttpHeader) (n : ℕ)
    → take n hdr.buffer ≡ take n hdr'.buffer
    → (http_process_connection hdr n).1 ≡ (http_process_connection hdr' n).1
status_live hdr hdr' n e =
    process-status_of hdr hdr n ∙ ap (status_of hdr n) e ∙ sym (process-status_of hdr' hdr n)

-- The buffer stays.
pub process_buffer :
    (hdr : HttpHeader) (n : ℕ) → (http_process_connection hdr n).0.buffer ≡ hdr.buffer
unfolding http_process_connection
process_buffer hdr n =
    let (i, rest) = skip_method 0 (take n hdr.buffer) in
    ground (arith, route_buffer (record hdr { request_uri = some (i + 1) }) n (i + 1) (drop 1 rest))
