-- ===== src/Processor/Buffer.antt =====
-- What is written into the buffer of a header, and what stays.
use tcphandoff.Common.{
  ℕ, zero, suc, ◌+◌, ◌≤◌, ◌<◌, ◌≡◌, refl, sym, ap, ◌∙◌, subst, ◌⊎◌, inl, inr, Option, none, some,
  List, [], ◌∷◌, ◌++◌, append-nil, append_assoc, arith, dec_lt, ℕ_discrete, length, take, drop,
  length-append, length-take, length-drop, take-append, done, write_at,
}
use tcphandoff.Http.{
  HttpHeader, HttpRequest, Status, max_input_size, max_header_size, http_process_connection,
}
use tcphandoff.Processor.{set_at, append_message}

pub take_le-append : (k : ℕ) (xs ys : List ℕ) → k ≤ length xs → take k (xs ++ ys) ≡ take k xs
take_le-append zero xs ys h = refl
take_le-append (suc k) [] ys h = absurd (omega arith)
take_le-append (suc k) (x ∷ xs) ys h = ap (◌∷◌ x) (take_le-append k xs ys (omega arith))

pub take-take : (k i : ℕ) (xs : List ℕ) → k ≤ i → take k (take i xs) ≡ take k xs
take-take zero i xs h = refl
take-take (suc k) zero xs h = absurd (omega arith)
take-take (suc k) (suc i) [] h = refl
take-take (suc k) (suc i) (x ∷ xs) h = ap (◌∷◌ x) (take-take k i xs (omega arith))

pub take_prefix : (n : ℕ) (xs ys : List ℕ) → n ≡ length xs → take n (xs ++ ys) ≡ xs
take_prefix n xs ys e = subst (λ m. take m (xs ++ ys) ≡ xs) (sym e) (take-append xs ys)

pub take-set_at :
    (k i v : ℕ) (xs : List ℕ) → k ≤ i → i < length xs → take k (set_at i v xs) ≡ take k xs
take-set_at k i v xs h l =
    take_le-append k (take i xs) (v ∷ drop (i + 1) xs) (omega (arith, length-take i xs))
    ∙ take-take k i xs h

pub length-set_at : (i v : ℕ) (xs : List ℕ) → i < length xs → length (set_at i v xs) ≡ length xs
length-set_at i v xs l = omega (
  arith,
  length-append (take i xs) (v ∷ drop (i + 1) xs),
  length-take i xs,
  length-drop (i + 1) xs,
)

append_empty : (xs ys : List ℕ) → length ys ≡ 0 → xs ≡ xs ++ ys
append_empty xs [] e = sym (append-nil xs)
append_empty xs (y ∷ ys) e = absurd (omega arith)

-- The bytes of the header read so far.
abbrev pub live : HttpRequest → List ℕ
live r = elim r.hdr [ none ↦ [] | some hdr ↦ take r.hdrlen hdr.buffer ]

-- Their number: without a header, the length stands for nothing.
abbrev pub count : HttpRequest → ℕ
count r = elim r.hdr [ none ↦ 0 | some hdr ↦ r.hdrlen ]

-- If there is a header, its buffer has its size, and room for one more byte and a NUL.
abbrev pub IsHeader : Option HttpHeader → ℕ → Type 0
IsHeader none n = Unit
IsHeader (some hdr) n = (length hdr.buffer ≡ max_header_size) × (n < max_input_size)

abbrev pub IsRequest : HttpRequest → Type 0
IsRequest r = IsHeader r.hdr r.hdrlen

-- `bytes` written at offset `n` of a buffer that has room for them.
module _ (n : ℕ) (bytes buffer : List ℕ) (fits : n + length bytes ≤ length buffer) where
  abbrev pub written : List ℕ
  written = take n buffer ++ (bytes ++ drop (n + length bytes) buffer)

  pub write_at-written : write_at n bytes buffer ≡ some written
  unfolding write_at
  write_at-written = ground (arith, fits)

  pub length-written : length written ≡ length buffer
  length-written = omega (
    arith,
    length-append (take n buffer) (bytes ++ drop (n + length bytes) buffer),
    length-append bytes (drop (n + length bytes) buffer),
    length-take n buffer,
    length-drop (n + length bytes) buffer,
    fits,
  )

  pub take-written : take n written ≡ take n buffer
  take-written =
      take_prefix n (take n buffer) (bytes ++ drop (n + length bytes) buffer)
        (omega (arith, length-take n buffer, fits))

  pub take_all-written : take (n + length bytes) written ≡ take n buffer ++ bytes
  take_all-written =
      ap (take (n + length bytes))
        (sym (append_assoc (take n buffer) bytes (drop (n + length bytes) buffer)))
      ∙ take_prefix (n + length bytes) (take n buffer ++ bytes) (drop (n + length bytes) buffer)
          (omega (arith, length-append (take n buffer) bytes, length-take n buffer, fits))

-- What a read makes of the request: `bytes` are appended, or forgotten where they would fill the
-- buffer.
pub record Read (r : HttpRequest) (bytes : List ℕ) (r' : HttpRequest) : Type 0 where
  pub valid : IsRequest r'
  pub has_header : (hdr : HttpHeader) × (r'.hdr ≡ some hdr)
  pub appended :
      count r + length bytes < max_input_size
      → (live r' ≡ live r ++ bytes) × (count r' ≡ count r + length bytes)
  pub dropped : max_input_size ≤ count r + length bytes → (live r' ≡ live r) × (count r' ≡ count r)

-- The status is that of the header as it is.
abbrev pub Judged : HttpRequest → Status → Type 0
Judged r status =
    (hdr : HttpHeader) × (r.hdr ≡ some hdr) × (status ≡ (http_process_connection hdr (count r)).1)

-- A request with a header.
abbrev pub with_header : HttpRequest → HttpHeader → HttpRequest
with_header r hdr = record r { hdr = some hdr }

module _ (r : HttpRequest) (hdr : HttpHeader) (size : length hdr.buffer ≡ max_header_size)
    (bytes : List ℕ) (short : r.hdrlen < max_input_size) where
  within : r.hdrlen + length bytes ≤ max_header_size → r.hdrlen + length bytes ≤ length hdr.buffer
  within fits = omega arith

  -- The header once the bytes are in it, as a part of it or not.
  abbrev grown : (r.hdrlen + length bytes ≤ max_header_size) → HttpHeader
  grown fits = record hdr {
    buffer =
        set_at (r.hdrlen + length bytes + 1) 0 (written r.hdrlen bytes hdr.buffer (within fits));
  }

  abbrev overwritten : (r.hdrlen + length bytes ≤ max_header_size) → HttpHeader
  overwritten fits = record hdr { buffer = written r.hdrlen bytes hdr.buffer (within fits) }

  append_message-grown :
      (fits : r.hdrlen + length bytes ≤ max_header_size)
      → 0 < length bytes
      → r.hdrlen + length bytes < max_input_size
      → append_message (with_header r hdr) hdr bytes
        ≡ done (record r { hdr = some (grown fits); hdrlen = r.hdrlen + length bytes })
  unfolding append_message
  append_message-grown fits p s =
      rw (append_message, write_at-written r.hdrlen bytes hdr.buffer (within fits)) (ground arith)

  append_message-overwritten :
      (fits : r.hdrlen + length bytes ≤ max_header_size)
      → (length bytes ≡ 0) ⊎ (max_input_size ≤ r.hdrlen + length bytes)
      → append_message (with_header r hdr) hdr bytes ≡ done (with_header r (overwritten fits))
  unfolding append_message
  append_message-overwritten fits p =
      rw (append_message, write_at-written r.hdrlen bytes hdr.buffer (within fits))
        (ground (arith, p))

  grown-Read :
      (fits : r.hdrlen + length bytes ≤ max_header_size)
      → r.hdrlen + length bytes < max_input_size
      → Read
          (with_header r hdr)
          bytes
          (record r { hdr = some (grown fits); hdrlen = r.hdrlen + length bytes })
  grown-Read fits s =
      let n = r.hdrlen + length bytes in
      let w = written r.hdrlen bytes hdr.buffer (within fits) in
      let long = length-written r.hdrlen bytes hdr.buffer (within fits) in
      record {
        valid = (length-set_at (n + 1) 0 w (omega (arith, long, size, s)) ∙ long ∙ size, s);
        has_header = (grown fits, refl);
        appended = λ _. (
          take-set_at n (n + 1) 0 w (omega arith) (omega (arith, long, size, s))
              ∙ take_all-written r.hdrlen bytes hdr.buffer (within fits),
          refl,
        );
        dropped = λ l. absurd (omega arith);
      }

  overwritten-Read :
      (fits : r.hdrlen + length bytes ≤ max_header_size)
      → (length bytes ≡ 0) ⊎ (max_input_size ≤ r.hdrlen + length bytes)
      → Read (with_header r hdr) bytes (with_header r (overwritten fits))
  overwritten-Read fits p =
      let long = length-written r.hdrlen bytes hdr.buffer (within fits) in
      let same = take-written r.hdrlen bytes hdr.buffer (within fits) in
      record {
        valid = (long ∙ size, short);
        has_header = (overwritten fits, refl);
        appended = λ s. (
          same ∙ append_empty (take r.hdrlen hdr.buffer) bytes (omega (arith, p, s)),
          omega (arith, p, s),
        );
        dropped = λ l. (same, refl);
      }

  pub append_message-Read :
      r.hdrlen + length bytes ≤ max_header_size
      → (r1 : HttpRequest) × (append_message (with_header r hdr) hdr bytes ≡ done r1)
        × Read (with_header r hdr) bytes r1
  append_message-Read fits = elim (dec_lt (r.hdrlen + length bytes) max_input_size) [
    | no n ↦ (
      with_header r (overwritten fits),
      append_message-overwritten fits (inr (omega arith)),
      overwritten-Read fits (inr (omega arith)),
    )
    | yes s ↦ elim (ℕ_discrete (length bytes) 0) [
      | yes e ↦ (
        with_header r (overwritten fits),
        append_message-overwritten fits (inl e),
        overwritten-Read fits (inl e),
      )
      | no n ↦ (
        record r { hdr = some (grown fits); hdrlen = r.hdrlen + length bytes },
        append_message-grown fits (omega arith) s,
        grown-Read fits s,
      )
    ]
  ]
