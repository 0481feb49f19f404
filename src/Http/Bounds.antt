-- ===== src/Http/Bounds.antt =====
-- What `http_process_connection` stores lies within the header that it has read.
use tcphandoff.Common.{
  ℕ, ◌+◌, ◌<◌, ◌≡◌, refl, ◌⊎◌, inl, inr, Bool, true, false, Option, some, List, [], ◌∷◌, arith, ltb,
  ◌==◌, if◌then◌else◌, ltb→lt, Bool-cases, take, drop, u32_mod,
}
use tcphandoff.Http.{
  HttpHeader, Status, hdr_read_error, found, sp, hash_step, skip_method, hash_uri, header_end,
  route, http_process_connection,
}

-- The offset of the URI is that before, or within the header.
abbrev pub UriIn : ℕ → Option ℕ → Option ℕ → Type 0
UriIn n before after = (after ≡ before) ⊎ ((i : ℕ) × (after ≡ some i) × (0 < i) × (i < n))

-- A hash is a word.
abbrev pub IsWord : Status → Type 0
IsWord hdr_read_error = Unit
IsWord (found h) = h < u32_mod

-- What has been stored in the header, and what is returned.
pub record InBounds (n : ℕ) (before : HttpHeader) (result : HttpHeader × Status) : Type 0 where
  pub same_buffer : result.0.buffer ≡ before.buffer
  pub uri : UriIn n before.request_uri result.0.request_uri
  pub uri_end : (result.0.uri_len ≡ before.uri_len) ⊎ (result.0.uri_len < n)
  pub hash : IsWord result.1

hash_step-word : (h c : ℕ) → hash_step h c < u32_mod
hash_step-word h c = ground arith

hash_uri-word : (i h : ℕ) (cs : List ℕ) → h < u32_mod → (hash_uri i h cs).1 < u32_mod
unfolding hash_uri
hash_uri-word i h [] w = w
hash_uri-word i h (c ∷ cs) w = elim (Bool-cases (c == sp)) [
  | inl e ↦ rw e w
  | inr e ↦ rw e (hash_uri-word (i + 1) (hash_step h c) cs (hash_step-word h c))
]

verdict-IsWord : (t : Bool) (h : ℕ) → h < u32_mod → IsWord (if t then found h else hdr_read_error)
verdict-IsWord true h w = w
verdict-IsWord false h w = tt

route-InBounds :
    (hdr before : HttpHeader) (n i : ℕ) (uri : List ℕ)
    → hdr.buffer ≡ before.buffer
    → UriIn n before.request_uri hdr.request_uri
    → hdr.uri_len ≡ before.uri_len
    → InBounds n before (route hdr n i uri)
unfolding route
route-InBounds hdr before n i uri b u e = elim (Bool-cases (ltb (hash_uri i 0 uri).0 n)) [
  | inl l ↦ rw l (record {
    same_buffer = b;
    uri = u;
    uri_end = inr (ltb→lt (hash_uri i 0 uri).0 n l);
    hash =
        verdict-IsWord (header_end 0 (hash_uri i 0 uri).2) (hash_uri i 0 uri).1
          (hash_uri-word i 0 uri (omega arith));
  })
  | inr l ↦ rw l (record { same_buffer = b; uri = u; uri_end = inl e; hash = tt })
]

-- Whatever the bytes are, `http_process_connection` changes none of them; the offset of the URI that it
-- stores is that of a byte within the header, after the first, and the offset for the URI's end, which it
-- stores as its length, is that of a byte of the header; where it stores nothing, the values are those
-- before. The hash that it returns has 32 bits.
pub http_process_connection-InBounds :
    (hdr : HttpHeader) (n : ℕ) → InBounds n hdr (http_process_connection hdr n)
unfolding http_process_connection
http_process_connection-InBounds hdr n =
    let (i, rest) = skip_method 0 (take n hdr.buffer) in
    elim (Bool-cases (ltb (i + 1) n)) [
      | inl l ↦ rw l (
          route-InBounds (record hdr { request_uri = some (i + 1) }) hdr n (i + 1) (drop 1 rest)
            refl (inr (i + 1, refl, omega arith, ltb→lt (i + 1) n l)) refl)
      | inr l ↦ rw l (record { same_buffer = refl; uri = inl refl; uri_end = inl refl; hash = tt })
    ]
