-- ===== src/Processor/Workers/Lost.antt =====
-- What is lost where two workers read for one connection at the same time.
use tcphandoff.Common.{
  ℕ, ◌+◌, ◌<◌, ◌≡◌, refl, ap, ◌∙◌, false, Option, none, some, List, [], ◌∷◌, ◌++◌, append_assoc,
  arith, ◌==◌, length, take, length-append, length-take, done, Received, got,
}
use tcphandoff.Http.{max_input_size}
use tcphandoff.Poll.{update}
use tcphandoff.Processor.Workers.{
  Shared, Doing, begins, no_header, judges, reads, receive_at, step, Workers, Turn, turn, turns,
  starting, turn_lem, turns-turn,
}
use tcphandoff.Processor.Workers.Read.{IsSized}
use tcphandoff.Processor.Workers.Append.{Appended, receive-Appended, Appended-before}

begins_lem :
    (memory : Option ℕ) (received : Received) (s : Shared) (p : ℕ)
    → s.hdr ≡ some p
    → step memory received s begins ≡ done (s, reads p s.hdrlen)
unfolding step
begins_lem memory received s p there =
    ap
      (λ (o : Option ℕ).
        done (s, elim o as (λ x. Doing) [ none ↦ no_header | some q ↦ reads q s.hdrlen ]))
      there

pub begin_turn :
    (w : Workers) (t : Turn) (p : ℕ)
    → w.doing t.worker ≡ begins
    → w.shared.hdr ≡ some p
    → turn w t
      ≡ done
          (record { shared = w.shared; doing = update w.doing t.worker (reads p w.shared.hdrlen) })
begin_turn w t p at there =
    turn_lem w t begins (w.shared, reads p w.shared.hdrlen) at
      (begins_lem t.memory t.received w.shared p there)

pub receive_turn :
    (w : Workers) (t : Turn) (p base : ℕ) (s' : Shared)
    → w.doing t.worker ≡ reads p base
    → receive_at p base t.received w.shared ≡ done (s', judges)
    → turn w t ≡ done (record { shared = s'; doing = update w.doing t.worker judges })
unfolding step
receive_turn w t p base s' at e = turn_lem w t (reads p base) (s', judges) at e

-- Four turns that come to a good end, one after the other.
four_turns :
    (t1 t2 t3 t4 : Turn) (w w1 w2 w3 w4 : Workers)
    → turn w t1 ≡ done w1
    → turn w1 t2 ≡ done w2
    → turn w2 t3 ≡ done w3
    → turn w3 t4 ≡ done w4
    → turns (t1 ∷ t2 ∷ t3 ∷ t4 ∷ []) w ≡ done w4
unfolding turns
four_turns t1 t2 t3 t4 w w1 w2 w3 w4 e1 e2 e3 e4 =
    turns-turn w t1 (t2 ∷ t3 ∷ t4 ∷ []) w1 e1
    ∙ turns-turn w1 t2 (t3 ∷ t4 ∷ []) w2 e2
    ∙ turns-turn w2 t3 (t4 ∷ []) w3 e3
    ∙ turns-turn w3 t4 [] w4 e4

-- A turn of worker `i`, whose read delivers `bytes`.
abbrev pub reading : ℕ → List ℕ → Turn
reading i bytes = record { worker = i; memory = some 0; received = got bytes }

-- The request after two reads: its length, and the front of its header.
abbrev pub Holds : Workers → ℕ → ℕ → List ℕ → Type 0
Holds w p n front = (w.shared.hdrlen ≡ n) × (take (length front) (w.shared.header p).buffer ≡ front)

module _ (s : Shared) (p i j : ℕ) (a b : List ℕ) (there : s.hdr ≡ some p) (size : IsSized s p)
    (apart : (i == j) ≡ false) (some_a : 0 < length a) (some_b : 0 < length b)
    (short : s.hdrlen + length a + length b < max_input_size) where
  first-Appended :
      (s' : Shared) × (receive_at p s.hdrlen (got a) s ≡ done (s', judges))
      × Appended s p s.hdrlen a s'
  first-Appended =
      receive-Appended s p s.hdrlen a there size some_a (omega arith) (omega (arith, short))

  front-length : length (take s.hdrlen (s.header p).buffer) ≡ s.hdrlen
  front-length = omega (arith, length-take s.hdrlen (s.header p).buffer, size, short)

  overlapping :
      (w : Workers) × (turns
          (reading i a ∷ reading j b ∷ reading i a ∷ reading j b ∷ [])
          (starting s)
        ≡ done w)
      × Holds w p (s.hdrlen + length a + length b) (take s.hdrlen (s.header p).buffer ++ b)
  overlapping =
      let (s1, e1, a1) = first-Appended in
      let (s2, e2, a2) =
        receive-Appended s1 p s.hdrlen b a1.hdr a1.size some_b (omega (arith, a1.hdrlen))
          (omega (arith, a1.hdrlen, short)) in
      let old = take s.hdrlen (s.header p).buffer in
      let one = reading i a in
      let other = reading j b in
      let d0 : ℕ → Doing = λ i. begins in
      let d1 = update d0 i (reads p s.hdrlen) in
      let d2 = update d1 j (reads p s.hdrlen) in
      let d3 = update d2 i judges in
      let before = Appended-before s p s.hdrlen a s1 a1 (omega (arith, size, short)) in
      let long : length (old ++ b) ≡ s.hdrlen + length b =
        omega (arith, length-append old b, front-length) in
      (
        record { shared = s2; doing = update d3 j judges },
        four_turns one other one other (starting s) (record { shared = s; doing = d1 })
            (record { shared = s; doing = d2 }) (record { shared = s1; doing = d3 })
            (record { shared = s2; doing = update d3 j judges })
            (begin_turn (starting s) one p refl there)
            (begin_turn (record { shared = s; doing = d1 }) other p (ground (arith, apart)) there)
            (receive_turn (record { shared = s; doing = d2 }) one p s.hdrlen s1
              (ground (arith, apart)) e1)
            (receive_turn (record { shared = s1; doing = d3 }) other p s.hdrlen s2
              (ground (arith, apart)) e2),
        (
          a2.hdrlen ∙ omega (arith, a1.hdrlen),
          ap (λ (n : ℕ). take n (s2.header p).buffer) long
              ∙ a2.front
              ∙ ap (λ (xs : List ℕ). xs ++ b) before,
        ),
      )

  in_order :
      (w : Workers) × (turns
          (reading i a ∷ reading i a ∷ reading j b ∷ reading j b ∷ [])
          (starting s)
        ≡ done w)
      × Holds w p (s.hdrlen + length a + length b) (take s.hdrlen (s.header p).buffer ++ (a ++ b))
  in_order =
      let (s1, e1, a1) = first-Appended in
      let (s2, e2, a2) =
        receive-Appended s1 p s1.hdrlen b a1.hdr a1.size some_b (omega arith)
          (omega (arith, a1.hdrlen, short)) in
      let old = take s.hdrlen (s.header p).buffer in
      let one = reading i a in
      let other = reading j b in
      let d0 : ℕ → Doing = λ i. begins in
      let d1 = update d0 i (reads p s.hdrlen) in
      let d2 = update d1 i judges in
      let d3 = update d2 j (reads p s1.hdrlen) in
      let long : length (old ++ (a ++ b)) ≡ s1.hdrlen + length b =
        omega (arith, length-append old (a ++ b), length-append a b, front-length, a1.hdrlen) in
      (
        record { shared = s2; doing = update d3 j judges },
        four_turns one one other other (starting s) (record { shared = s; doing = d1 })
            (record { shared = s1; doing = d2 }) (record { shared = s1; doing = d3 })
            (record { shared = s2; doing = update d3 j judges })
            (begin_turn (starting s) one p refl there)
            (receive_turn (record { shared = s; doing = d1 }) one p s.hdrlen s1 (ground arith) e1)
            (begin_turn (record { shared = s1; doing = d2 }) other p (ground (arith, apart)) a1.hdr)
            (receive_turn (record { shared = s1; doing = d3 }) other p s1.hdrlen s2 (ground arith)
              e2),
        (
          a2.hdrlen ∙ omega (arith, a1.hdrlen),
          ap (λ (n : ℕ). take n (s2.header p).buffer) long
              ∙ a2.front
              ∙ ap (λ (n : ℕ). take n (s1.header p).buffer ++ b) a1.hdrlen
              ∙ ap (λ (xs : List ℕ). xs ++ b) a1.front
              ∙ append_assoc old a b,
        ),
      )

  -- What two workers read from one connection gets into its header one after the other where the second
  -- begins when the first has read. Where both have taken their place in the buffer before either reads,
  -- the bytes of the second come to stand over those of the first, and the length counts both. The
  -- connection has a header of full size with room for both reads, and both deliver something.
  pub overlapping_reads :
      ((w : Workers) × (turns
            (reading i a ∷ reading i a ∷ reading j b ∷ reading j b ∷ [])
            (starting s)
          ≡ done w)
        × Holds w p
            (s.hdrlen + length a + length b)
            (take s.hdrlen (s.header p).buffer ++ (a ++ b)))
      × ((w : Workers) × (turns
              (reading i a ∷ reading j b ∷ reading i a ∷ reading j b ∷ [])
              (starting s)
            ≡ done w)
          × Holds w p (s.hdrlen + length a + length b) (take s.hdrlen (s.header p).buffer ++ b))
  overlapping_reads = (in_order, overlapping)
