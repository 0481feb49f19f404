-- ===== src/Processor/Workers/Alone.antt =====
-- A worker that nobody disturbs.
use tcphandoff.Common.{
  ℕ, zero, suc, ◌≡◌, refl, sym, ap, ◌∙◌, inl, inr, Option, none, some, List, ◌∷◌, arith, length,
  replicate, Outcome, done, deadlock, fault, ◌>>=◌,
}
use tcphandoff.Http.{
  HttpHeader, HttpRequest, Status, max_header_size, http_header_alloc, http_process_connection,
}
use tcphandoff.Poll.{update}
use tcphandoff.Processor.{receive, process_header, process_pollin}
use tcphandoff.Processor.Workers.{
  Shared, Doing, begins, no_header, sets_length, reads_null, judges, reads, finished, judge, step,
  Workers, Turn, turn, turns, starting, turn_lem, turns-turn,
}
use tcphandoff.Processor.Workers.Read.{HasSized, fresh}
use tcphandoff.Processor.Workers.Same.{shared, request, update-own, read-SameRead}

-- The request as one worker sees it; `r` has the fields that the workers do not touch.
abbrev pub request_of : Shared → HttpRequest → HttpRequest
request_of s r = record r {
  hdr = elim s.hdr [ none ↦ none | some p ↦ some (s.header p) ];
  hdrlen = s.hdrlen;
}

-- What a worker has come to: `deadlock` stands for one that has not finished.
abbrev pub result_at : HttpRequest → Shared → Doing → Outcome (HttpRequest × Status)
result_at r s begins = deadlock
result_at r s no_header = deadlock
result_at r s sets_length = deadlock
result_at r s reads_null = deadlock
result_at r s judges = deadlock
result_at r s (reads p base) = deadlock
result_at r s (finished status) = done (request_of s r, status)

abbrev pub result_of : HttpRequest → ℕ → Workers → Outcome (HttpRequest × Status)
result_of r i w = result_at r w.shared (w.doing i)

-- The turn of the worker that judges, and those after its end.
turns_past_end :
    (k : ℕ) (t : Turn) (w : Workers) (status : Status)
    → w.doing t.worker ≡ finished status
    → (w' : Workers) × (turns (replicate k t) w ≡ done w')
      × (w'.shared ≡ w.shared)
      × (w'.doing t.worker ≡ finished status)
unfolding turns step
turns_past_end zero t w status at = (w, refl, refl, at)
turns_past_end (suc k) t w status at =
    let w1 : Workers = record {
      shared = w.shared;
      doing = update w.doing t.worker (finished status);
    } in
    let (w', e, same, at') = turns_past_end k t w1 status (ground arith) in
    (
      w',
      turns-turn w t (replicate k t) w1
            (turn_lem w t (finished status) (w.shared, finished status) at refl)
          ∙ e,
      same,
      at',
    )

judged_turns :
    (k i p n : ℕ) (header : ℕ → HttpHeader) (r : HttpRequest) (t : Turn) (doing : ℕ → Doing)
    → t.worker ≡ i
    → doing i ≡ judges
    → (turns (replicate (suc k) t) (record { shared = shared p n header; doing = doing })
        >>= result_of r i)
      ≡ done (process_header (request r (header p) n))
unfolding judge step process_header
judged_turns k i p n header r t doing own at =
    let (h, status) = http_process_connection (header p) n in
    let w : Workers = record { shared = shared p n header; doing = doing } in
    let s1 : Shared = shared p n (update header p h) in
    let w1 : Workers = record { shared = s1; doing = update doing t.worker (finished status) } in
    let (w', e, same, at') = turns_past_end k t w1 status (ground arith) in
    ap (λ (o : Outcome Workers). o >>= result_of r i)
      (turns-turn w t (replicate k t) w1
          (turn_lem w t judges (s1, finished status) (ap doing own ∙ at) refl)
        ∙ e)
    ∙ ap (λ (d : Doing). result_at r w'.shared d) (ap w'.doing (sym own) ∙ at')
    ∙ ap (λ (x : Shared). done (request_of x r, status)) same
    ∙ ap (λ (x : HttpHeader). done (request r x n, status)) (update-own header p h)

faults :
    (w : Workers) (t : Turn) (ts : List Turn) (doing : Doing)
    → w.doing t.worker ≡ doing
    → step t.memory t.received w.shared doing ≡ fault
    → turns (t ∷ ts) w ≡ fault
unfolding turns turn
faults w t ts doing at e = rw (at, e) refl

-- From its place in the buffer to its end.
read_turns :
    (k i p n : ℕ) (header : ℕ → HttpHeader) (r : HttpRequest) (t : Turn) (doing : ℕ → Doing)
    → length (header p).buffer ≡ max_header_size
    → t.worker ≡ i
    → doing i ≡ reads p n
    → (turns (replicate (suc (suc k)) t) (record { shared = shared p n header; doing = doing })
        >>= result_of r i)
      ≡ (receive (request r (header p) n) t.received >>= λ q. done (process_header q))
unfolding step
read_turns k i p n header r t doing size own at =
    let w : Workers = record { shared = shared p n header; doing = doing } in
    let there = ap doing own ∙ at in
    elim (read-SameRead p n header r size t.received) [
      | inl (e, q) ↦ rw q (
          ap (λ (o : Outcome Workers). o >>= result_of r i)
            (faults w t (replicate (suc k) t) (reads p n) there e))
      | inr (m, f, e, q) ↦
          let w1 : Workers = record {
            shared = shared p m f;
            doing = update doing t.worker judges;
          } in
          rw q (
            ap (λ (o : Outcome Workers). o >>= result_of r i)
              (turns-turn w t (replicate (suc k) t) w1
                (turn_lem w t (reads p n) (shared p m f, judges) there e))
            ∙ judged_turns k i p m f r t (update doing t.worker judges) own (ground (arith, own)))
    ]

module _ (r : HttpRequest) (t : Turn) (m : ℕ) (memory : t.memory ≡ some m) where
  with_header :
      (p n : ℕ) (header : ℕ → HttpHeader)
      → length (header p).buffer ≡ max_header_size
      → (turns (replicate 5 t) (starting (shared p n header)) >>= result_of r t.worker)
        ≡ process_pollin (some http_header_alloc) (request r (header p) n) t.received
  unfolding process_pollin step
  with_header p n header size =
      let d1 = update (λ (i : ℕ). begins) t.worker (reads p n) in
      let w1 : Workers = record { shared = shared p n header; doing = d1 } in
      ap (λ (o : Outcome Workers). o >>= result_of r t.worker)
        (turns-turn (starting (shared p n header)) t (replicate 4 t) w1 (
          turn_lem (starting (shared p n header)) t begins (shared p n header, reads p n) refl
            refl))
      ∙ read_turns 2 t.worker p n header r t d1 size refl (ground arith)

  without_header :
      (n : ℕ) (header : ℕ → HttpHeader)
      → (turns (replicate 5 t) (starting (record { hdr = none; hdrlen = n; header = header }))
          >>= result_of r t.worker)
        ≡ process_pollin (some http_header_alloc) (record r { hdr = none; hdrlen = n }) t.received
  unfolding process_pollin step
  without_header n header =
      let new = update header m http_header_alloc in
      let own = update-own header m http_header_alloc in
      let s : Shared = record { hdr = none; hdrlen = n; header = header } in
      let d0 : ℕ → Doing = λ i. begins in
      let d1 = update d0 t.worker no_header in
      let d2 = update d1 t.worker sets_length in
      let d3 = update d2 t.worker (reads m 0) in
      let w1 : Workers = record { shared = s; doing = d1 } in
      let w2 : Workers = record { shared = shared m n new; doing = d2 } in
      let w3 : Workers = record { shared = shared m 0 new; doing = d3 } in
      ap (λ (o : Outcome Workers). o >>= result_of r t.worker)
        (turns-turn (starting s) t (replicate 4 t) w1
            (turn_lem (starting s) t begins (s, no_header) refl refl)
          ∙ turns-turn w1 t (replicate 3 t) w2 (
              turn_lem w1 t no_header (shared m n new, sets_length) (ground arith) (rw memory refl))
          ∙ turns-turn w2 t (replicate 2 t) w3
              (turn_lem w2 t sets_length (shared m 0 new, reads m 0) (ground arith) refl))
      ∙ read_turns 0 t.worker m 0 new r t d3 (ap (λ (h : HttpHeader). length h.buffer) own ∙ fresh)
          refl (ground arith)
      ∙ ap (λ (h : HttpHeader). receive (request r h 0) t.received >>= λ q. done (process_header q))
          own

  alone_at :
      (o : Option ℕ) (n : ℕ) (header : ℕ → HttpHeader)
      → let s : Shared = record { hdr = o; hdrlen = n; header = header } in
        HasSized s o
        → (turns (replicate 5 t) (starting s) >>= result_of r t.worker)
          ≡ process_pollin (some http_header_alloc) (request_of s r) t.received
  alone_at none n header size = without_header n header
  alone_at (some p) n header size = with_header p n header size

  -- A worker that no other disturbs does in its five steps what `process_pollin` does as a whole, whether
  -- there is a header before or not. A header that is there has its size, and there is memory for a
  -- new one.
  pub alone_refines :
      (s : Shared)
      → HasSized s s.hdr
      → (turns (replicate 5 t) (starting s) >>= result_of r t.worker)
        ≡ process_pollin (some http_header_alloc) (request_of s r) t.received
  alone_refines s size = alone_at s.hdr s.hdrlen s.header size
