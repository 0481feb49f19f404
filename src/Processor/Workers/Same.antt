-- ===== src/Processor/Workers/Same.antt =====
-- The section under the lock, and `receive` of the whole.
use tcphandoff.Common.{
  ℕ, ◌+◌, ◌≤◌, ◌≡◌, refl, sym, ap, ◌∙◌, ◌⊎◌, inl, inr, true, false, ◌&&◌, none, some, List, [], ◌∷◌,
  ◌++◌, arith, ltb, leb, if◌then◌else◌, Bool-cases, Option-cases, length, take, drop, Outcome, done,
  fault, Received, got, failed, write_at,
}
use tcphandoff.Http.{HttpHeader, HttpRequest, max_header_size, max_input_size}
use tcphandoff.Poll.{update}
use tcphandoff.Processor.{set_at, append_message, receive}
use tcphandoff.Processor.Buffer.{write_at-written, length-written}
use tcphandoff.Processor.Workers.{Shared, judges, set_buffer, Next, end_message, receive_at}
use tcphandoff.Processor.Workers.Read.{end_message_lem, receive_at_lem}

abbrev pub shared : ℕ → ℕ → (ℕ → HttpHeader) → Shared
shared p n header = record { hdr = some p; hdrlen = n; header = header }

abbrev pub request : HttpRequest → HttpHeader → ℕ → HttpRequest
request r h n = record r { hdr = some h; hdrlen = n }

-- The section under the lock does the same.
abbrev pub SameRead : ℕ → HttpRequest → Next → Outcome HttpRequest → Type 0
SameRead p r next read =
    ((next ≡ fault) × (read ≡ fault))
    ⊎ ((n : ℕ) × (header : ℕ → HttpHeader) × (next ≡ done (shared p n header, judges))
        × (read ≡ done (request r (header p) n)))

pub update-own : (f : ℕ → HttpHeader) (p : ℕ) (h : HttpHeader) → update f p h p ≡ h
update-own f p h = ground arith

write_at-length :
    (i : ℕ) (bytes buffer filled : List ℕ)
    → write_at i bytes buffer ≡ some filled
    → length filled ≡ length buffer
unfolding write_at
write_at-length i bytes buffer filled e =
    elim (Bool-cases (leb (i + length bytes) (length buffer))) [
      | inl y ↦
          let l : i + length bytes ≤ length buffer = ground (arith, y) in
          ap length (same y) ∙ length-written i bytes buffer l
      | inr n ↦ absurd (not_none n)
    ]
  where
    same :
        leb (i + length bytes) (length buffer) ≡ true
        → filled ≡ take i buffer ++ (bytes ++ drop (i + length bytes) buffer)
    same y = ground (arith, e, y)

    not_none : leb (i + length bytes) (length buffer) ≡ false → ⊥
    not_none n = ground (arith, e, n)

module _ (p n : ℕ) (header : ℕ → HttpHeader) (r : HttpRequest)
    (size : length (header p).buffer ≡ max_header_size) where
  abbrev s : Shared
  s = shared p n header

  receive-none :
      (bytes : List ℕ)
      → write_at n bytes (header p).buffer ≡ none
      → receive_at p n (got bytes) s ≡ fault
  unfolding receive_at
  receive-none bytes e = rw (e, receive_at) refl

  append-none :
      (bytes : List ℕ)
      → write_at n bytes (header p).buffer ≡ none
      → append_message (request r (header p) n) (header p) bytes ≡ fault
  unfolding append_message
  append-none bytes e = rw (e, append_message) refl

  append-some :
      (bytes filled : List ℕ)
      → write_at n bytes (header p).buffer ≡ some filled
      → append_message (request r (header p) n) (header p) bytes ≡ (
          if ltb 0 (length bytes) && ltb (n + length bytes) max_input_size
          then done (
              request r
                (record (header p) { buffer = set_at (n + length bytes + 1) 0 filled })
                (n + length bytes))
          else done (request r (record (header p) { buffer = filled }) n))
  unfolding append_message
  append-some bytes filled e = rw (e, append_message) refl

  written-SameRead :
      (bytes filled : List ℕ)
      → write_at n bytes (header p).buffer ≡ some filled
      → SameRead p r
          (if ltb 0 (length bytes) && ltb (n + length bytes) max_input_size
            then end_message (n + length bytes) (set_buffer s p filled)
            else done (set_buffer s p filled, judges))
          (if ltb 0 (length bytes) && ltb (n + length bytes) max_input_size
            then done (
                request r
                  (record (header p) { buffer = set_at (n + length bytes + 1) 0 filled })
                  (n + length bytes))
            else done (request r (record (header p) { buffer = filled }) n))
  written-SameRead bytes filled e =
      let h1 : HttpHeader = record (header p) { buffer = filled } in
      let own = update-own header p h1 in
      elim (Bool-cases (ltb 0 (length bytes) && ltb (n + length bytes) max_input_size)) [
        | inr off ↦
            rw off (inr (n, update header p h1, refl, ap (λ h. done (request r h n)) (sym own)))
        | inl on ↦
            let i = n + length bytes + 1 in
            let full : length filled ≡ max_header_size =
              write_at-length n bytes (header p).buffer filled e ∙ size in
            let fits : i + length {A = ℕ} (0 ∷ []) ≤ length filled = ground (arith, full, on) in
            let h2 : HttpHeader = record h1 { buffer = set_at i 0 filled } in
            rw on (
              inr (
                n + length bytes,
                update (update header p h1) p
                    (record (update header p h1 p) { buffer = set_at i 0 filled }),
                end_message_lem (set_buffer s p filled) (n + length bytes) p (set_at i 0 filled)
                    refl
                    (ap (λ (h : HttpHeader). write_at i (0 ∷ []) h.buffer) own
                      ∙ write_at-written i (0 ∷ []) filled fits),
                ap (λ (h : HttpHeader). done (request r h (n + length bytes)))
                    (sym (
                      update-own (update header p h1) p
                        (record (update header p h1 p) { buffer = set_at i 0 filled })
                      ∙ ap (λ (h : HttpHeader). record h { buffer = set_at i 0 filled }) own)),
              ))
      ]

  got-SameRead :
      (bytes : List ℕ)
      → SameRead p r
          (receive_at p n (got bytes) s)
          (append_message (request r (header p) n) (header p) bytes)
  got-SameRead bytes = elim (Option-cases (write_at n bytes (header p).buffer)) [
    | inl e ↦ inl (receive-none bytes e, append-none bytes e)
    | inr (filled, e) ↦
        rw (receive_at_lem p n bytes filled s e, append-some bytes filled e)
          (written-SameRead bytes filled e)
  ]

  pub read-SameRead :
      (received : Received)
      → SameRead p r (receive_at p n received s) (receive (request r (header p) n) received)
  unfolding receive receive_at
  read-SameRead (failed e) = inr (n, header, refl, refl)
  read-SameRead (got bytes) = got-SameRead bytes
