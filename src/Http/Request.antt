-- ===== src/Http/Request.antt =====
-- What `http_process_connection` makes of the bytes read so far.
use tcphandoff.Common.{
  ℕ, ◌+◌, ◌%◌, ◌≤◌, ◌≡◌, sym, ap, ◌∙◌, ◌↔◌, inl, inr, some, List, ◌∷◌, ◌++◌, arith, if◌then◌else◌,
  Bool-cases, length, take, length-append, length-take, u32_mod,
}
use tcphandoff.Http.{
  HttpHeader, Status, hdr_read_error, found, sp, route, http_process_connection, header_end,
}
use tcphandoff.Http.Scan.{
  NoSpace, split_at_space, Splits, skip_method_stops, skip_method_ends, hash_uri_stops,
  hash_uri_ends, hash_from,
}
use tcphandoff.Http.HeaderEnd.{EndsHeader, header_end_iff}
use tcphandoff.Http.Hash.{uri_poly, hash_from_poly}

-- The bytes `m SP u SP t`.
abbrev pub line : List ℕ → List ℕ → List ℕ → List ℕ
line m u t = m ++ (sp ∷ (u ++ (sp ∷ t)))

abbrev pub uri_hash : List ℕ → ℕ
uri_hash u = uri_poly u % u32_mod

length-line : (m u t : List ℕ) → length (line m u t) ≡ length m + length u + length t + 2
length-line m u t = omega (arith, length-append m (sp ∷ (u ++ (sp ∷ t))), length-append u (sp ∷ t))

-- The URI that the second loop leaves, and the hash as a polynomial.
hash_from-uri_hash : (u : List ℕ) → hash_from 0 u ≡ uri_hash u
hash_from-uri_hash u = omega (arith, hash_from_poly 0 u)

module _ (hdr : HttpHeader) (n : ℕ) where
  abbrev pub live : List ℕ
  live = take n hdr.buffer

  live-length : n ≤ length hdr.buffer → length live ≡ n
  live-length h = omega (arith, length-take n hdr.buffer)

  -- On `m SP u SP t`, with no space in `m` and `u`, the header gets the index of the URI and, for its
  -- length, the index of the space after it; the status is success with the URI's hash where the third loop
  -- accepts `t`, and else the error. The bytes read lie within the buffer.
  pub http_process_connection-line :
      (m u t : List ℕ)
      → n ≤ length hdr.buffer
      → live ≡ line m u t
      → NoSpace m
      → NoSpace u
      → http_process_connection hdr n ≡ (
        record hdr { request_uri = some (length m + 1); uri_len = length m + 1 + length u },
        if header_end 0 t then found (uri_hash u) else hdr_read_error,
      )
  unfolding http_process_connection route
  http_process_connection-line m u t h e nm nu =
      let len : n ≡ length m + length u + length t + 2 =
        sym (live-length h) ∙ ap length e ∙ length-line m u t in
      rw (e, skip_method_stops 0 m (u ++ (sp ∷ t)) nm, hash_uri_stops (0 + length m + 1) 0 u t nu)
        (ground (arith, hash_from-uri_hash u))

  process-NoSpace :
      NoSpace live → n ≤ length hdr.buffer → (http_process_connection hdr n).1 ≡ hdr_read_error
  unfolding http_process_connection
  process-NoSpace a h = rw (skip_method_ends 0 live a) (ground (arith, live-length h))

  process_one_space :
      (m u : List ℕ)
      → live ≡ m ++ (sp ∷ u)
      → NoSpace m
      → NoSpace u
      → n ≤ length hdr.buffer
      → (http_process_connection hdr n).1 ≡ hdr_read_error
  unfolding http_process_connection route
  process_one_space m u e nm nu h =
      let len : n ≡ length m + length u + 1 =
        sym (live-length h) ∙ ap length e ∙ omega (arith, length-append m (sp ∷ u)) in
      rw (e, skip_method_stops 0 m u nm, hash_uri_ends (0 + length m + 1) 0 u nu) (ground arith)

  -- A request whose hash is `h`: a method, a URI and a tail that ends the header.
  pub record Request (h : ℕ) : Type 0 where
    pub method : List ℕ
    pub uri : List ℕ
    pub tail : List ℕ
    pub is_line : live ≡ line method uri tail
    pub method_clean : NoSpace method
    pub uri_clean : NoSpace uri
    pub ends : EndsHeader tail
    pub hashed : h ≡ uri_hash uri

  Request-found :
      (h : ℕ) → n ≤ length hdr.buffer → Request h → (http_process_connection hdr n).1 ≡ found h
  Request-found h l r = rw (
    http_process_connection-line r.method r.uri r.tail l r.is_line r.method_clean r.uri_clean,
    (header_end_iff r.tail).1 r.ends,
    r.hashed,
  )

  Request-of_line :
      (h : ℕ) (m u t : List ℕ)
      → n ≤ length hdr.buffer
      → live ≡ line m u t
      → NoSpace m
      → NoSpace u
      → (http_process_connection hdr n).1 ≡ found h
      → Request h
  Request-of_line h m u t l e nm nu found_h =
      let q : (if header_end 0 t then found (uri_hash u) else hdr_read_error) ≡ found h =
        sym (ap (λ (r : HttpHeader × Status). r.1) (http_process_connection-line m u t l e nm nu))
        ∙ found_h in
      elim (Bool-cases (header_end 0 t)) [
        | inl ok ↦ record {
          method = m;
          uri = u;
          tail = t;
          is_line = e;
          method_clean = nm;
          uri_clean = nu;
          ends = (header_end_iff t).0 ok;
          hashed = ground arith;
        }
        | inr bad ↦ absurd (ground arith)
      ]

  Request-after_method :
      (h : ℕ) (m r : List ℕ)
      → n ≤ length hdr.buffer
      → live ≡ m ++ (sp ∷ r)
      → NoSpace m
      → Splits r
      → (http_process_connection hdr n).1 ≡ found h
      → Request h
  Request-after_method h m r l e nm (inl nr) found_h = absurd (cc (process_one_space m r e nm nr l))
  Request-after_method h m r l e nm (inr (u, t, eu, nu)) found_h =
      Request-of_line h m u t l (e ∙ ap (λ (x : List ℕ). m ++ (sp ∷ x)) eu) nm nu found_h

  Request-of_found :
      (h : ℕ)
      → n ≤ length hdr.buffer
      → Splits live
      → (http_process_connection hdr n).1 ≡ found h
      → Request h
  Request-of_found h l (inl none_at) found_h = absurd (cc (process-NoSpace none_at l))
  Request-of_found h l (inr (m, r, e, nm)) found_h =
      Request-after_method h m r l e nm (split_at_space r) found_h

  -- `http_process_connection` returns 0 with hash `h` exactly when the bytes read so far are a method,
  -- a space, a URI, a space and a tail, the method and the URI without spaces, such that the third
  -- loop accepts the tail and `h` is the URI's hash. The bytes read lie within the buffer.
  pub http_process_connection-found_iff :
      (h : ℕ) → n ≤ length hdr.buffer → ((http_process_connection hdr n).1 ≡ found h) ↔ Request h
  http_process_connection-found_iff h l =
      (Request-of_found h l (split_at_space live), Request-found h l)
