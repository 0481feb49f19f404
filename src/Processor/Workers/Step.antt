-- ===== src/Processor/Workers/Step.antt =====
-- What one step of a worker keeps in order.
use tcphandoff.Common.{
  ℕ, ◌+◌, ◌≤◌, ◌<◌, ◌≡◌, refl, ap, ◌∙◌, subst, inl, inr, ◌&&◌, Option, none, some, List, [], ◌∷◌,
  arith, ltb, ◌==◌, Bool-cases, length, done, Received, got, failed,
}
use tcphandoff.Http.{
  HttpHeader, hdr_read_error, max_header_size, max_input_size, http_header_alloc,
  http_process_connection,
}
use tcphandoff.Http.Frame.{process_buffer}
use tcphandoff.Poll.{update}
use tcphandoff.Processor.Buffer.{written, write_at-written, length-written}
use tcphandoff.Processor.Workers.{
  Shared, Doing, begins, no_header, sets_length, reads_null, judges, reads, finished, Next,
  end_message, receive_at, judge, step,
}
use tcphandoff.Processor.Workers.Read.{
  IsFull, IsSized, HasSized, fresh, end_message_lem, receive_at_lem,
}

abbrev pub Has : Shared → Type 0
Has s = (q : ℕ) × (s.hdr ≡ some q) × IsSized s q

abbrev pub IsFit : Shared → Doing → Type 0
IsFit s begins = Unit
IsFit s no_header = Unit
IsFit s sets_length = Has s
IsFit s reads_null = ⊥
IsFit s judges = Unit
IsFit s (reads p base) = Has s × IsSized s p
IsFit s (finished status) = Unit

-- A read delivers at most what its buffer has room for, and there is memory for a new header.
abbrev pub Fits : Doing → Option ℕ → Received → Type 0
Fits (reads p base) memory (got bytes) = base + length bytes ≤ max_input_size
Fits no_header none received = ⊥
Fits doing memory received = Unit

-- What a step leaves in order.
pub record Keeps (s s' : Shared) : Type 0 where
  pub sizes : (p : ℕ) → IsSized s p → IsSized s' p
  pub has : Has s → Has s'
  pub short : s'.hdrlen < max_input_size
  pub sized : HasSized s' s'.hdr

pub update-IsSized :
    (s : Shared) (q : ℕ) (h : HttpHeader)
    → IsFull h.buffer
    → (p : ℕ) → IsSized s p
    → length (update s.header q h p).buffer ≡ max_header_size
update-IsSized s q h full p e = elim (Bool-cases (q == p)) [ inl y ↦ rw y full | inr n ↦ rw n e ]

HasSized-mono :
    (o : Option ℕ) (s s' : Shared)
    → ((p : ℕ) → IsSized s p → IsSized s' p)
    → HasSized s o
    → HasSized s' o
HasSized-mono none s s' f h = tt
HasSized-mono (some p) s s' f h = f p h

pub IsFit-mono :
    (d : Doing) (s s' : Shared)
    → ((p : ℕ) → IsSized s p → IsSized s' p)
    → (Has s → Has s')
    → IsFit s d
    → IsFit s' d
IsFit-mono begins s s' f g h = tt
IsFit-mono no_header s s' f g h = tt
IsFit-mono sets_length s s' f g h = g h
IsFit-mono reads_null s s' f g h = h
IsFit-mono judges s s' f g h = tt
IsFit-mono (reads p base) s s' f g h = (g h.0, f p h.1)
IsFit-mono (finished status) s s' f g h = tt

-- A header's memory changes, and keeps its size.
module _ (s : Shared) (q : ℕ) (h : HttpHeader) (full : IsFull h.buffer) (n : ℕ)
    (short : n < max_input_size) (sized : HasSized s s.hdr) where
  abbrev put : Shared
  put = record s { header = update s.header q h; hdrlen = n }

  put-Keeps : Keeps s put
  put-Keeps = record {
    sizes = update-IsSized s q h full;
    has = λ (p, e, z). (p, e, update-IsSized s q h full p z);
    short = short;
    sized = HasSized-mono s.hdr s put (update-IsSized s q h full) sized;
  }

-- A step from `s` comes to a good end.
abbrev pub Stepped : Shared → Next → Type 0
Stepped s o = (r : Shared × Doing) × (o ≡ done r) × Keeps s r.0 × IsFit r.0 r.1

Keeps-refl : (s : Shared) → s.hdrlen < max_input_size → HasSized s s.hdr → Keeps s s
Keeps-refl s short sized = record { sizes = λ p z. z; has = λ h. h; short = short; sized = sized }

Keeps-trans : (s s' s'' : Shared) → Keeps s s' → Keeps s' s'' → Keeps s s''
Keeps-trans s s' s'' k l = record {
  sizes = λ p z. l.sizes p (k.sizes p z);
  has = λ h. l.has (k.has h);
  short = l.short;
  sized = l.sized;
}

module _ (s : Shared) (short : s.hdrlen < max_input_size) (sized : HasSized s s.hdr) where
  end_message-Stepped : (n : ℕ) → n < max_input_size → Has s → Stepped s (end_message n s)
  end_message-Stepped n less (q, e, size) =
      let fits : (n + 1) + length {A = ℕ} (0 ∷ []) ≤ length (s.header q).buffer =
        omega (arith, size, less) in
      let ended = written (n + 1) (0 ∷ []) (s.header q).buffer fits in
      let full : IsFull ended = length-written (n + 1) (0 ∷ []) (s.header q).buffer fits ∙ size in
      let h = record (s.header q) { buffer = ended } in
      (
        (put s q h full n less sized, judges),
        end_message_lem s n q ended e (write_at-written (n + 1) (0 ∷ []) (s.header q).buffer fits),
        put-Keeps s q h full n less sized,
        tt,
      )

receive-Stepped :
    (s : Shared) (p base : ℕ) (bytes : List ℕ)
    → s.hdrlen < max_input_size
    → HasSized s s.hdr
    → Has s
    → IsSized s p
    → base + length bytes ≤ max_input_size
    → Stepped s (receive_at p base (got bytes) s)
receive-Stepped s p base bytes short sized has size room =
    let fits : base + length bytes ≤ length (s.header p).buffer = omega (arith, size, room) in
    let filled = written base bytes (s.header p).buffer fits in
    let full : IsFull filled = length-written base bytes (s.header p).buffer fits ∙ size in
    let h = record (s.header p) { buffer = filled } in
    let s1 = put s p h full s.hdrlen short sized in
    let k = put-Keeps s p h full s.hdrlen short sized in
    rw (receive_at_lem p base bytes filled s (write_at-written base bytes (s.header p).buffer fits))
      (elim (Bool-cases (ltb 0 (length bytes) && ltb (s.hdrlen + length bytes) max_input_size)) [
        | inr off ↦ rw off ((s1, judges), refl, k, tt)
        | inl on ↦
            let (r, e, l, fit) =
              end_message-Stepped s1 short k.sized (s.hdrlen + length bytes) (ground (arith, on))
                (k.has has) in
            rw on (r, e, Keeps-trans s s1 r.0 k l, fit)
      ])

judge-at :
    (s : Shared) (o : Option ℕ)
    → s.hdr ≡ o
    → judge s ≡ elim o as (λ x. Next) [
      | none ↦ done (s, finished hdr_read_error)
      | some p ↦
          let (hdr, status) = http_process_connection (s.header p) s.hdrlen in
          done (record s { header = update s.header p hdr }, finished status)
    ]
unfolding judge
judge-at s o e =
    ap
      (λ (o : Option ℕ). elim o as (λ x. Next) [
        | none ↦ done (s, finished hdr_read_error)
        | some p ↦
            let (hdr, status) = http_process_connection (s.header p) s.hdrlen in
            done (record s { header = update s.header p hdr }, finished status)
      ])
      e

judge-Stepped :
    (s : Shared) (o : Option ℕ)
    → s.hdr ≡ o
    → s.hdrlen < max_input_size
    → HasSized s s.hdr
    → Stepped s (judge s)
judge-Stepped s none e short sized =
    rw (judge-at s none e) ((s, finished hdr_read_error), refl, Keeps-refl s short sized, tt)
judge-Stepped s (some p) e short sized =
    let (h, status) = http_process_connection (s.header p) s.hdrlen in
    let size : IsSized s p = subst (HasSized s) e sized in
    let full : IsFull h.buffer = ap length (process_buffer (s.header p) s.hdrlen) ∙ size in
    rw (judge-at s (some p) e) (
      (put s p h full s.hdrlen short sized, finished status),
      refl,
      put-Keeps s p h full s.hdrlen short sized,
      tt,
    )

begin-IsFit :
    (s : Shared) (o : Option ℕ)
    → s.hdr ≡ o
    → HasSized s s.hdr
    → IsFit s (elim o [ none ↦ no_header | some p ↦ reads p s.hdrlen ])
begin-IsFit s none e sized = tt
begin-IsFit s (some p) e sized =
    let size : IsSized s p = subst (HasSized s) e sized in ((p, e, size), size)

pub step-Stepped :
    (memory : Option ℕ) (received : Received) (s : Shared) (d : Doing)
    → s.hdrlen < max_input_size
    → HasSized s s.hdr
    → IsFit s d
    → Fits d memory received
    → Stepped s (step memory received s d)
unfolding step
step-Stepped memory received s begins short sized fit room =
    ((s, _), refl, Keeps-refl s short sized, begin-IsFit s s.hdr refl sized)
step-Stepped none received s no_header short sized fit room = absurd room
step-Stepped (some memory) received s no_header short sized fit room =
    let full = update-IsSized s memory http_header_alloc fresh in
    let own : update s.header memory http_header_alloc memory ≡ http_header_alloc = ground arith in
    let size = ap (λ (h : HttpHeader). length h.buffer) own ∙ fresh in
    (
      (_, sets_length),
      refl,
      record { sizes = full; has = λ h. (memory, refl, size); short = short; sized = size },
      (memory, refl, size),
    )
step-Stepped memory received s sets_length short sized fit room =
    let cleared = record s { hdrlen = 0 } in
    let (q, e, size) = fit in
    (
      (cleared, reads q 0),
      ap
          (λ (o : Option ℕ).
            done (cleared, elim o as (λ x. Doing) [ none ↦ reads_null | some p ↦ reads p 0 ]))
          e,
      record { sizes = λ p z. z; has = λ h. h; short = omega arith; sized = sized },
      (fit, size),
    )
step-Stepped memory received s reads_null short sized fit room = absurd fit
step-Stepped memory (got bytes) s (reads p base) short sized fit room =
    receive-Stepped s p base bytes short sized fit.0 fit.1 room
step-Stepped memory (failed e) s (reads p base) short sized fit room =
    ((s, judges), refl, Keeps-refl s short sized, tt)
step-Stepped memory received s judges short sized fit room = judge-Stepped s s.hdr refl short sized
step-Stepped memory received s (finished status) short sized fit room =
    ((s, finished status), refl, Keeps-refl s short sized, tt)
