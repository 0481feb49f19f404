-- ===== src/Http.antt =====
-- frontend/tcpha_fe_http.h and frontend/tcpha_fe_http.c: the request header of a connection, and
-- `http_process_connection`, which finds the URI, hashes it and looks for the end of the header.
-- A pointer into the buffer is its offset; the bytes that the loops may read are the first `hdrlen`
-- of the buffer, and a loop over them is a recursion on those that are left.
pub mod Scan
pub mod HeaderEnd
pub mod Hash
pub mod Request
pub mod Stable
pub mod Frame
pub mod Bounds
mod Examples
use tcphandoff.Common.{
  ℕ, ◌+◌, ◌*◌, ◌%◌, Bool, true, false, not, ◌&&◌, ◌||◌, ltb, ◌==◌, if◌then◌else◌, Option, none,
  some, List, [], ◌∷◌, take, drop, replicate, u32_mod, char_to_int,
}

abbrev pub max_header_size : ℕ
max_header_size = 4096

abbrev pub max_input_size : ℕ
max_input_size = 4095

-- ' ', '\r' and '\n'.
abbrev pub sp : ℕ
sp = 32

abbrev pub cr : ℕ
cr = 13

abbrev pub lf : ℕ
lf = 10

-- `struct http_header`
pub record HttpHeader : Type 0 where
  pub buffer : List ℕ
  pub request_uri : Option ℕ
  pub uri_len : ℕ

-- `struct http_request`, its header absent before the first read.
pub record HttpRequest : Type 0 where
  pub hdr : Option HttpHeader
  pub hdrlen : ℕ
  pub body : Option ℕ
  pub bodylen : ℕ

-- `kzalloc` clears the header.
unfoldable pub http_header_alloc : HttpHeader
http_header_alloc = record { buffer = replicate max_header_size 0; request_uri = none; uri_len = 0 }

-- The status that the source returns, with the hash that it stores on success.
pub data Status : Type 0 where
  hdr_read_error : Status
  found : ℕ → Status

-- The first loop: the index of the first space, and the bytes from there on.
pub skip_method : ℕ → List ℕ → ℕ × List ℕ
skip_method i [] = (i, [])
skip_method i (c ∷ cs) = if c == sp then (i, c ∷ cs) else skip_method (i + 1) cs

-- h = 31 * h + (int)c, in 32 bits.
abbrev pub hash_step : ℕ → ℕ → ℕ
hash_step h c = (31 * h + char_to_int c) % u32_mod

-- The second loop: the index of the second space, the hash, and the bytes from there on.
pub hash_uri : ℕ → ℕ → List ℕ → ℕ × ℕ × List ℕ
hash_uri i h [] = (i, h, [])
hash_uri i h (c ∷ cs) = if c == sp then (i, h, c ∷ cs) else hash_uri (i + 1) (hash_step h c) cs

-- The two tests of the third loop's body that move its state.
abbrev pub end_step : ℕ → ℕ → ℕ
end_step state c =
    let after_cr = if c == cr then state + 1 else state in
    if c == lf && (after_cr == 1 || after_cr == 3) then after_cr + 1 else after_cr

-- The third loop: whether it gets to state 4.
unfoldable pub header_end : ℕ → List ℕ → Bool
header_end state [] = false
header_end state (c ∷ cs) =
    let rest = header_end (end_step state c) cs in if end_step state c == 4 then true else rest

-- From the second loop on; `i` is the index of the byte after the first space.
pub route : HttpHeader → ℕ → ℕ → List ℕ → HttpHeader × Status
unfolding hash_uri header_end
route hdr hdrlen i uri =
    let (j, h, rest) = hash_uri i 0 uri in
    if not (ltb j hdrlen)
    then (hdr, hdr_read_error)
    else (record hdr { uri_len = j }, if header_end 0 rest then found h else hdr_read_error)

pub http_process_connection : HttpHeader → ℕ → HttpHeader × Status
unfolding skip_method route
http_process_connection hdr hdrlen =
    let (i, rest) = skip_method 0 (take hdrlen hdr.buffer) in
    if not (ltb (i + 1) hdrlen)
    then (hdr, hdr_read_error)
    else route (record hdr { request_uri = some (i + 1) }) hdrlen (i + 1) (drop 1 rest)
