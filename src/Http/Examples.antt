-- ===== src/Http/Examples.antt =====
-- The theorems about requests at concrete buffers, and tests.
use tcphandoff.Common.{ℕ, ◌≡◌, refl, ◌↔◌, none, List, [], ◌∷◌, ◌++◌, arith, replicate}
use tcphandoff.Http.{HttpHeader, found, hdr_read_error, cr, lf, http_process_connection}
use tcphandoff.Http.Request.{Request, line, http_process_connection-found_iff}
use tcphandoff.Http.Bounds.{InBounds, http_process_connection-InBounds}
use tcphandoff.Http.Stable.{partial_header}

-- "GET"
abbrev get : List ℕ
get = 71 ∷ 69 ∷ 84 ∷ []

-- "/a"
abbrev uri : List ℕ
uri = 47 ∷ 97 ∷ []

-- "H"
abbrev version : List ℕ
version = 72 ∷ []

abbrev header_of : List ℕ → HttpHeader
header_of tail = record {
  buffer = line get uri tail ++ replicate 8 0;
  request_uri = none;
  uri_len = 0;
}

-- "GET /a H", its line end and the blank line.
abbrev complete : HttpHeader
complete = header_of (version ++ (cr ∷ lf ∷ cr ∷ lf ∷ []))

-- "GET /a H", its line end, "x:" and a line end: no blank line yet.
abbrev partly : HttpHeader
partly = header_of (partial_header version 120 (58 ∷ []))

complete_accepted : (http_process_connection complete 12).1 ≡ found 1554
unfolding http_process_connection
complete_accepted = refl

incomplete_refused : (http_process_connection complete 9).1 ≡ hdr_read_error
unfolding http_process_connection
incomplete_refused = refl

http_process_connection-found_iff_example :
    ((http_process_connection complete 12).1 ≡ found 1554) ↔ Request complete 12 1554
http_process_connection-found_iff_example =
    http_process_connection-found_iff complete 12 1554 (omega arith)

http_process_connection-InBounds_example :
    InBounds 12 complete (http_process_connection complete 12)
http_process_connection-InBounds_example = http_process_connection-InBounds complete 12
