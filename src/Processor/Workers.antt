-- ===== src/Processor/Workers.antt =====
-- frontend/tcpha_fe_connection_processor.c, lines 75 to 119: `process_pollin` step by step. The kernel's
-- queue has one worker on each processor, and a herder queues on its own, so that the work for one
-- connection is done in turn. Here several workers do it at the same time, which the lock of the
-- connection is there for: a worker is interrupted between its test of the header, the storing of a new
-- one, the storing of the length, the section under the lock, and `http_process_connection`. A pointer
-- to a header is an address; `kzalloc` returns the address that the turn names, or NULL.
pub mod Read
pub mod Step
pub mod Append
pub mod Same
pub mod Alone
pub mod Safe
pub mod Lost
pub mod Fresh
mod Examples
use tcphandoff.Common.{
  ℕ, zero, suc, ◌+◌, ◌-◌, ◌*◌, ◌/◌, ◌%◌, ◌^◌, ◌≤◌, ◌<◌, min, bit_and, bit_or, ◌≡◌, refl, sym, ap,
  ◌∙◌, subst, fun_ext, ◌≢◌, ◌↔◌, ◌⊎◌, inl, inr, Bool, true, false, not, ◌&&◌, ◌||◌, Option, none,
  some, List, [], ◌∷◌, ◌++◌, map, append-nil, append_assoc, arith, dec_lt, ℕ_discrete, ltb, leb,
  ◌==◌, if◌then◌else◌, if_true, if_false, if_true, if_false, ltb→lt, lt→ltb, leb→le, ==_iff, tests,
  Bool-cases, Option-cases, length, get_or, take, drop, replicate, All, length-append, length-take,
  take-append-drop, length-drop, length-replicate, take-append, get_or-append, get_or-take,
  All-append, All-left, All-right, All-mono, All-both, member, u32_mod, char_to_int, is_negative,
  Outcome, done, deadlock, fault, ◌>>=◌, IfDone, IfDone-any, IfDone-bind, bind_done, Received, got,
  failed, write_at,
}
use tcphandoff.Http.{
  HttpHeader, HttpRequest, Status, hdr_read_error, max_input_size, http_header_alloc,
  http_process_connection,
}
use tcphandoff.Poll.{update}

-- The request of the connection, and the memory of headers.
pub record Shared : Type 0 where
  pub hdr : Option ℕ
  pub hdrlen : ℕ
  pub header : ℕ → HttpHeader

-- Where a worker is: before its test of the header; where it has found none; where it has stored a new
-- one; with `vec.iov_base` at an offset of the buffer of a header, or of one at NULL; behind the lock; at its
-- end.
pub data Doing : Type 0 where
  begins no_header sets_length reads_null judges : Doing
  reads : ℕ → ℕ → Doing
  finished : Status → Doing

abbrev pub set_buffer : Shared → ℕ → List ℕ → Shared
set_buffer s p buffer = record s {
  header = update s.header p (record (s.header p) { buffer = buffer });
}

abbrev pub Next : Type 0
Next = Outcome (Shared × Doing)

-- `buffer[hdrlen + 1] = '\0'` in header `q`, and the new length.
pub store_nul : ℕ → Shared → ℕ → Next
store_nul hdrlen s q = elim (write_at (hdrlen + 1) (0 ∷ []) (s.header q).buffer) [
  | none ↦ fault
  | some ended ↦ done (record (set_buffer s q ended) { hdrlen = hdrlen }, judges)
]

-- The message ends in the header that `conn->request.hdr` points to by now.
pub end_message : ℕ → Shared → Next
unfolding store_nul
end_message hdrlen s = elim s.hdr [ none ↦ fault | some q ↦ store_nul hdrlen s q ]

-- The section under the lock: what the read delivers goes to `iov_base`, and the length grows by it.
pub receive_at : ℕ → ℕ → Received → Shared → Next
unfolding end_message
receive_at p base (failed e) s = done (s, judges)
receive_at p base (got bytes) s = elim (write_at base bytes (s.header p).buffer) [
  | none ↦ fault
  | some filled ↦
      let hdrlen = s.hdrlen + length bytes in
      if ltb 0 (length bytes) && ltb hdrlen max_input_size
      then end_message hdrlen (set_buffer s p filled)
      else done (set_buffer s p filled, judges)
]

-- Without a header nothing has been read, so that `http_process_connection` looks at no byte.
pub judge : Shared → Next
judge s = elim s.hdr [
  | none ↦ done (s, finished hdr_read_error)
  | some p ↦
      let (hdr, status) = http_process_connection (s.header p) s.hdrlen in
      done (record s { header = update s.header p hdr }, finished status)
]

-- `conn->request.hdr = http_header_alloc()`.
abbrev pub store_header : Option ℕ → Shared → Shared
store_header none s = record s { hdr = none }
store_header (some m) s = record s { hdr = some m; header = update s.header m http_header_alloc }

-- Nothing can be read to NULL.
abbrev receive_null : Received → Shared → Next
receive_null (failed e) s = done (s, judges)
receive_null (got []) s = done (s, judges)
receive_null (got (b ∷ bs)) s = fault

-- One step of a worker. `memory` is what `kzalloc` returns, `none` being NULL.
pub step : Option ℕ → Received → Shared → Doing → Next
unfolding receive_at judge
step memory received s begins =
    done (s, elim s.hdr [ none ↦ no_header | some p ↦ reads p s.hdrlen ])
step memory received s no_header = done (store_header memory s, sets_length)
step memory received s sets_length =
    let cleared = record s { hdrlen = 0 } in
    done (cleared, elim s.hdr [ none ↦ reads_null | some p ↦ reads p 0 ])
step memory received s reads_null = receive_null received s
step memory received s (reads p base) = receive_at p base received s
step memory received s judges = judge s
step memory received s (finished status) = done (s, finished status)

pub record Workers : Type 0 where
  pub shared : Shared
  pub doing : ℕ → Doing

-- Whose turn it is, and what its step meets.
pub record Turn : Type 0 where
  pub worker : ℕ
  pub memory : Option ℕ
  pub received : Received

pub turn : Workers → Turn → Outcome Workers
unfolding step
turn w t = step t.memory t.received w.shared (w.doing t.worker) >>= λ r.
    done (record { shared = r.0; doing = update w.doing t.worker r.1 })

pub turns : List Turn → Workers → Outcome Workers
unfolding turn
turns [] w = done w
turns (t ∷ ts) w = turn w t >>= turns ts

-- All are about to begin.
abbrev pub starting : Shared → Workers
starting s = record { shared = s; doing = λ i. begins }

-- A turn whose step is known.
pub turn_lem :
    (w : Workers) (t : Turn) (doing : Doing) (r : Shared × Doing)
    → w.doing t.worker ≡ doing
    → step t.memory t.received w.shared doing ≡ done r
    → turn w t ≡ done (record { shared = r.0; doing = update w.doing t.worker r.1 })
unfolding turn
turn_lem w t doing r at e = rw (at, e) refl

pub turns-turn :
    (w : Workers) (t : Turn) (ts : List Turn) (w' : Workers)
    → turn w t ≡ done w'
    → turns (t ∷ ts) w ≡ turns ts w'
unfolding turns
turns-turn w t ts w' e = ap (λ (o : Outcome Workers). o >>= turns ts) e
