-- ===== src/Processor.antt =====
-- frontend/tcpha_fe_connection_processor.c: the work on one connection that the herder has queued.
-- What `kernel_recvmsg` returns and the memory that `kzalloc` gives are arguments. A write past the end
-- of the header's buffer or through NULL is the outcome `fault`.
pub mod Buffer
pub mod Pollin
pub mod Reads
pub mod Room
pub mod Connection
pub mod Routed
pub mod Hangup
pub mod Work
pub mod Workers
mod Examples
use tcphandoff.Common.{
  ℕ, zero, suc, ◌+◌, ◌-◌, ◌*◌, ◌/◌, ◌%◌, ◌^◌, ◌≤◌, ◌<◌, min, bit_and, bit_or, ◌≡◌, refl, sym, ap,
  ◌∙◌, subst, fun_ext, ◌≢◌, ◌↔◌, ◌⊎◌, inl, inr, Bool, true, false, not, ◌&&◌, ◌||◌, Option, none,
  some, List, [], ◌∷◌, ◌++◌, map, append-nil, append_assoc, arith, dec_lt, ℕ_discrete, ltb, leb,
  ◌==◌, if◌then◌else◌, ltb→lt, lt→ltb, leb→le, ==_iff, tests, Bool-cases, Option-cases, length,
  get_or, take, drop, replicate, All, length-append, length-take, take-append-drop, length-drop,
  length-replicate, take-append, get_or-append, get_or-take, All-append, All-left, All-right,
  All-mono, All-both, member, u32_mod, char_to_int, is_negative, Outcome, done, deadlock, fault,
  ◌>>=◌, Received, got, failed, write_at,
}
use tcphandoff.Http.{
  HttpHeader, HttpRequest, Status, hdr_read_error, found, max_input_size, http_process_connection,
}
use tcphandoff.Sock.{Sock}
use tcphandoff.Poll.Tree.{RbTree}
use tcphandoff.Poll.{pollin, pollrdhup, update}
use tcphandoff.Herder.{Herder, ConnMemory, FeConn, tcpha_fe_conn_destroy}

-- A request without a header gets one.
abbrev pub setup_buffer : Option HttpHeader → HttpRequest → HttpRequest
setup_buffer memory r = elim r.hdr [ some hdr ↦ r | none ↦ record r { hdr = memory; hdrlen = 0 } ]

-- One byte of a buffer, changed.
abbrev pub set_at : ℕ → ℕ → List ℕ → List ℕ
set_at i v buffer = take i buffer ++ (v ∷ drop (i + 1) buffer)

-- `hdr` once `bytes` have been written to its buffer: they are a part of the header if it stays
-- shorter than `MAX_INPUT_SIZE`.
pub append_message : HttpRequest → HttpHeader → List ℕ → Outcome HttpRequest
append_message r hdr bytes =
    let hdrlen = r.hdrlen + length bytes in
    elim (write_at r.hdrlen bytes hdr.buffer) [
      | none ↦ fault
      | some written ↦
          if ltb 0 (length bytes) && ltb hdrlen max_input_size
          then done (record r {
            hdr = some (record hdr { buffer = set_at (hdrlen + 1) 0 written });
            hdrlen = hdrlen;
          })
          else done (record r { hdr = some (record hdr { buffer = written }) })
    ]

-- The read and what is done with the message.
pub receive : HttpRequest → Received → Outcome HttpRequest
unfolding append_message
receive r (failed e) = done r
receive r (got bytes) = elim r.hdr [
  | none ↦ elim bytes [ [] ↦ done r | b ∷ bs ↦ fault ]
  | some hdr ↦ append_message r hdr bytes
]

-- Without a header nothing has been read, so that `http_process_connection` looks at no byte.
pub process_header : HttpRequest → HttpRequest × Status
process_header r = elim r.hdr [
  | none ↦ (r, hdr_read_error)
  | some hdr ↦
      let (hdr', status) = http_process_connection hdr r.hdrlen in
      (record r { hdr = some hdr' }, status)
]

pub process_pollin : Option HttpHeader → HttpRequest → Received → Outcome (HttpRequest × Status)
unfolding receive process_header
process_pollin memory r received =
    receive (setup_buffer memory r) received >>= λ appended. done (process_header appended)

-- `atomic_dec_and_test` of the count `alive`.
pub process_pollrdhup : RbTree → ConnMemory → Herder → ℕ → Outcome (ConnMemory × Herder)
process_pollrdhup rb mem h c =
    let conn = mem.conn c in
    let alive = (conn.alive + u32_mod - 1) % u32_mod in
    let noted = record mem { conn = update mem.conn c (record conn { alive = alive }) } in
    elim conn.csock [
      | none ↦ fault
      | some sock ↦ if alive == 0 then tcpha_fe_conn_destroy rb noted h c else done (noted, h)
    ]

-- The connection's memory once a read has been processed, if the events say that there is one.
pub process_events : Option HttpHeader → Received → ℕ → FeConn → Outcome FeConn
unfolding process_pollin
process_events memory received events conn =
    let read = process_pollin memory conn.request received in
    if bit_and events pollin == 0
    then done conn
    else (read >>= λ r. done (record conn { request = r.0 }))

pub process_connection :
    RbTree
    → Option HttpHeader
    → Received
    → ℕ
    → ConnMemory
    → Herder
    → ℕ
    → Outcome (ConnMemory × Herder)
unfolding process_events process_pollrdhup
process_connection rb memory received events mem h c = elim (mem.conn c).csock [
  | none ↦ fault
  | some sock ↦ process_events memory received events (mem.conn c) >>= λ conn.
      let read = record mem { conn = update mem.conn c conn } in
      let hung_up = process_pollrdhup rb read h c in
      if bit_and events pollrdhup == 0 then done (read, h) else hung_up
]
