-- ===== src/Processor/Workers/Append.antt =====
-- What a read adds to a header that has room for it.
use tcphandoff.Common.{
  ℕ, ◌+◌, ◌≤◌, ◌<◌, ◌≡◌, refl, sym, ap, ◌∙◌, true, ◌&&◌, some, List, [], ◌∷◌, ◌++◌, arith, ltb,
  if◌then◌else◌, length, take, drop, length-take, done, got, write_at,
}
use tcphandoff.Http.{HttpHeader, max_header_size, max_input_size}
use tcphandoff.Poll.{update}
use tcphandoff.Processor.Buffer.{
  written, write_at-written, length-written, take_all-written, take_le-append, take-take,
}
use tcphandoff.Processor.Workers.{Shared, judges, set_buffer, end_message, receive_at}
use tcphandoff.Processor.Workers.Read.{IsSized, end_message_lem, receive_at_lem}

-- A read that the header has room for, behind `base`.
pub record Appended (s : Shared) (p base : ℕ) (bytes : List ℕ) (s' : Shared) : Type 0 where
  pub hdr : s'.hdr ≡ some p
  pub hdrlen : s'.hdrlen ≡ s.hdrlen + length bytes
  pub size : IsSized s' p
  pub front :
      take (base + length bytes) (s'.header p).buffer ≡ take base (s.header p).buffer ++ bytes

set_buffer-own :
    (s : Shared) (p : ℕ) (buffer : List ℕ) → ((set_buffer s p buffer).header p).buffer ≡ buffer
set_buffer-own s p buffer =
    let own : update s.header p (record (s.header p) { buffer = buffer }) p
        ≡ record (s.header p) { buffer = buffer } =
      ground arith in
    ap (λ (h : HttpHeader). h.buffer) own

module _ (s : Shared) (p base : ℕ) (bytes : List ℕ) (there : s.hdr ≡ some p) (size : IsSized s p)
    (some_bytes : 0 < length bytes) (behind : base ≤ s.hdrlen)
    (short : s.hdrlen + length bytes < max_input_size) where
  fits : base + length bytes ≤ length (s.header p).buffer
  fits = omega (arith, size, behind, short)

  abbrev filled : List ℕ
  filled = written base bytes (s.header p).buffer fits

  filled-size : length filled ≡ max_header_size
  filled-size = length-written base bytes (s.header p).buffer fits ∙ size

  nul_fits : (s.hdrlen + length bytes + 1) + length {A = ℕ} (0 ∷ []) ≤ length filled
  nul_fits = omega (arith, filled-size, short)

  abbrev ended : List ℕ
  ended = written (s.hdrlen + length bytes + 1) (0 ∷ []) filled nul_fits

  -- The NUL stands behind the bytes.
  take-ended : take (base + length bytes) ended ≡ take (base + length bytes) filled
  take-ended =
      let n = s.hdrlen + length bytes + 1 in
      take_le-append (base + length bytes) (take n filled) ((0 ∷ []) ++ drop (n + 1) filled)
        (omega (arith, length-take n filled, filled-size, behind, short))
      ∙ take-take (base + length bytes) n filled (omega (arith, behind))

  pub receive-Appended :
      (s' : Shared) × (receive_at p base (got bytes) s ≡ done (s', judges))
      × Appended s p base bytes s'
  receive-Appended =
      let s1 = set_buffer s p filled in
      let n = s.hdrlen + length bytes in
      let own = set_buffer-own s p filled in
      let s2 = record (set_buffer s1 p ended) { hdrlen = n } in
      let own2 = set_buffer-own s1 p ended in
      let test : (ltb 0 (length bytes) && ltb n max_input_size) ≡ true =
        ground (arith, some_bytes, short) in
      (
        s2,
        receive_at_lem p base bytes filled s (write_at-written base bytes (s.header p).buffer fits)
            ∙ ap (λ b. if b then end_message n s1 else done (s1, judges)) test
            ∙ end_message_lem s1 n p ended there (
                ap (write_at (n + 1) (0 ∷ [])) own
                ∙ write_at-written (n + 1) (0 ∷ []) filled nul_fits),
        record {
          hdr = there;
          hdrlen = refl;
          size = ap length own2 ∙ length-written (n + 1) (0 ∷ []) filled nul_fits ∙ filled-size;
          front =
              ap (take (base + length bytes)) own2
              ∙ take-ended
              ∙ take_all-written base bytes (s.header p).buffer fits;
        },
      )

pub Appended-before :
    (s : Shared) (p base : ℕ) (bytes : List ℕ) (s' : Shared)
    → Appended s p base bytes s'
    → base ≤ length (s.header p).buffer
    → take base (s'.header p).buffer ≡ take base (s.header p).buffer
Appended-before s p base bytes s' a l =
    sym (take-take base (base + length bytes) (s'.header p).buffer (omega arith))
    ∙ ap (take base) a.front
    ∙ take_le-append base (take base (s.header p).buffer) bytes
        (omega (arith, length-take base (s.header p).buffer, l))
    ∙ take-take base base (s.header p).buffer (omega arith)
