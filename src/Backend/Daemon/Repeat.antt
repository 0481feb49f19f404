-- ===== src/Backend/Daemon/Repeat.antt =====
-- A command that has been carried out stays at the front of the buffer.
use tcphandoff.Common.{
  ℕ, ◌+◌, ◌≤◌, ◌<◌, ◌≡◌, refl, ap, ◌∙◌, inr, List, [], ◌∷◌, ◌++◌, map, arith, length, get_or, drop,
  Received, length-append, get_or-append, get_or-left, got, some,
}
use tcphandoff.Backend.{FeConnection, byte_at}
use tcphandoff.Backend.Handoff.{SkClone, bad_address, char_to_pointer}
use tcphandoff.Backend.Handoff.Clone.{new_conn_faults}
use tcphandoff.Backend.Handoff.Dispatch.{process_data_for_connection-Dispatched}
use tcphandoff.Backend.Message.{read_header, shift_in16}
use tcphandoff.Backend.Message.Trigger.{
  counted, after_read-adds, parse_message_data, read_header-front,
}
use tcphandoff.Backend.Daemon.{
  Thread, running, crashed, finish, daemon_round, stopped, broken, be_fe_connection_daemon,
}
use tcphandoff.Backend.Daemon.Reassembly.{
  buffer_size, Holds, joined, stored, round_after, round_written, write_fits, daemon_next,
}

-- The length that the header at the front of `read` gives, once its eleven bytes are there.
abbrev pub wire_len : List ℕ → ℕ
wire_len read = shift_in16 (shift_in16 0 (get_or read 10 0)) (get_or read 9 0)

-- What a message for a new connection has at the front: the command 0, and the twelve bytes that
-- `new_conn` looks at.
pub record IsNewCommand (read : List ℕ) : Type 0 where
  pub twelve : 12 ≤ length read
  pub new : get_or read 0 0 ≡ 0

module _ (read bytes : List ℕ) (conn : FeConnection) (h : Holds read conn)
    (c : IsNewCommand read) where
  abbrev at_front : FeConnection
  at_front = stored read bytes conn h

  front_byte : (i : ℕ) → i < 12 → byte_at at_front i ≡ get_or read i 0
  front_byte i l =
      get_or-left read (bytes ++ drop (length read + length bytes) conn.buffer) i 0
        (omega (arith, c.twelve))

  abbrev header : FeConnection
  header = read_header (counted at_front (length bytes))

  header_len : header.ipv4hdr.len ≡ wire_len read
  header_len =
      (read_header-front (counted at_front (length bytes))).1
      ∙ rw (front_byte 10 (omega arith), front_byte 9 (omega arith)) refl

  grown-IsNewCommand : IsNewCommand (read ++ bytes)
  grown-IsNewCommand = record {
    twelve = omega (arith, length-append read bytes, c.twelve);
    new = get_or-append read bytes 0 (omega (arith, c.twelve)) ∙ c.new;
  }

  grown_len : wire_len (read ++ bytes) ≡ wire_len read
  grown_len =
      rw
        (
          get_or-left read bytes 10 0 (omega (arith, c.twelve)),
          get_or-left read bytes 9 0 (omega (arith, c.twelve)),
        )
        refl

module _ (sk_clone : SkClone) (size : ℕ) where
  -- What a round adds, where the length is too small for a socket.
  round-adds :
      (read bytes : List ℕ) (conn : FeConnection) (hooks : ℕ)
      → Holds read conn
      → IsNewCommand read
      → wire_len read < size
      → length read + length bytes ≤ buffer_size
      → (c : FeConnection) × (daemon_round sk_clone size
            (record { conn = conn; hooks = hooks })
            (got bytes)
          ≡ running (record { conn = c; hooks = hooks + 1 }))
        × Holds (read ++ bytes) c
        × (length c.handoff_conn_list ≡ length conn.handoff_conn_list + 1)
  round-adds read bytes conn hooks h n short fits =
      let (c, e, h', now) = round_after read bytes conn h sk_clone size hooks fits (λ l. inr (
        (grown-IsNewCommand read bytes conn h n).new,
        rw (header_len read bytes conn h n) short,
      )) in
      (
        c,
        e,
        h',
        ap (λ (k : FeConnection). length k.handoff_conn_list) now
            ∙ after_read-adds (stored read bytes conn h) (length bytes)
                (omega (arith, h.count, n.twelve)) (omega (arith, h.count))
                (front_byte read bytes conn h n 0 (omega arith) ∙ n.new),
      )

  -- The command is carried out again in the next read, and faults there.
  round-crashes :
      (read bytes : List ℕ) (conn : FeConnection) (hooks : ℕ) (h : Holds read conn)
      → IsNewCommand read
      → size ≤ wire_len read
      → sk_clone (char_to_pointer (get_or read 11 0)) ≡ bad_address
      → length read + length bytes ≤ buffer_size
      → daemon_round sk_clone size (record { conn = conn; hooks = hooks }) (got bytes) ≡ crashed
  unfolding finish
  round-crashes read bytes conn hooks h n long bad fits =
      let c = at_front read bytes conn h n in
      let head = header read bytes conn h n in
      let front = read_header-front (counted c (length bytes)) in
      let eleven = front.2 11 ∙ front_byte read bytes conn h n 11 (omega arith) in
      let first = front.0 ∙ front_byte read bytes conn h n 0 (omega arith) ∙ n.new in
      let acts =
        (parse_message_data sk_clone size c (length bytes) (omega (arith, h.count))).1
          (omega (arith, h.count, n.twelve)) in
      round_written read bytes conn h sk_clone size hooks (some _)
        (write_fits read bytes conn h fits)
      ∙ ap (finish (hooks + 1)) (
          acts
          ∙ (process_data_for_connection-Dispatched sk_clone size head).0 first
          ∙ new_conn_faults sk_clone size head (rw (header_len read bytes conn h n) long)
              (rw eleven bad))

  -- One connection more for each read, and the thread is stopped.
  abbrev pub Repeated : List (List ℕ) → FeConnection → ℕ → Type 0
  Repeated chunks conn hooks =
      (c : FeConnection) × (be_fe_connection_daemon sk_clone size
          (record { conn = conn; hooks = hooks }) (map got chunks)
        ≡ stopped (record { conn = c; hooks = hooks + length chunks }))
      × (length c.handoff_conn_list ≡ length conn.handoff_conn_list + length chunks)

  repeats_short :
      (chunks : List (List ℕ)) (read : List ℕ) (conn : FeConnection) (hooks : ℕ)
      → Holds read conn
      → IsNewCommand read
      → wire_len read < size
      → length (read ++ joined chunks) ≤ buffer_size
      → Repeated chunks conn hooks
  unfolding be_fe_connection_daemon
  repeats_short [] read conn hooks h n short fits =
      (conn, ap (λ (n : ℕ). stopped (record { conn = conn; hooks = n })) (omega arith), omega arith)
  repeats_short (bytes ∷ rest) read conn hooks h n short fits =
      let sum = length-append read (bytes ++ joined rest) in
      let both = length-append bytes (joined rest) in
      let (conn', e, h', one) =
        round-adds read bytes conn hooks h n short (omega (arith, fits, sum, both)) in
      let (c, q, all) =
        repeats_short rest (read ++ bytes) conn' (hooks + 1) h'
          (grown-IsNewCommand read bytes conn h n) (rw (grown_len read bytes conn h n) short)
          (omega (
            arith,
            fits,
            sum,
            both,
            length-append (read ++ bytes) (joined rest),
            length-append read bytes,
          )) in
      (
        c,
        daemon_next sk_clone size (record { conn = conn; hooks = hooks })
              (record { conn = conn'; hooks = hooks + 1 }) (got bytes) (map got rest) e
            ∙ q
            ∙ ap (λ (n : ℕ). stopped (record { conn = c; hooks = n })) (omega arith),
        omega (arith, all, one),
      )

  daemon_crashes :
      (t : Thread) (r : Received) (rs : List Received)
      → daemon_round sk_clone size t r ≡ crashed
      → be_fe_connection_daemon sk_clone size t (r ∷ rs) ≡ broken crashed
  unfolding be_fe_connection_daemon
  daemon_crashes t r rs e = rw (e, be_fe_connection_daemon) refl

  -- The first twelve bytes of a message with the command for a new connection have come, and everything
  -- read fits the buffer. Where its length is below that of `struct tcp_sock`, each further read carries the
  -- command out again: as many connections are added as there are reads, until the thread is stopped. Where it
  -- is not, and `sk_clone` faults at the address that byte 11 is taken for, the next read ends in
  -- that fault.
  pub daemon_repeats :
      (chunks : List (List ℕ)) (read : List ℕ) (conn : FeConnection) (hooks : ℕ)
      → Holds read conn
      → IsNewCommand read
      → length (read ++ joined chunks) ≤ buffer_size
      → (wire_len read < size → Repeated chunks conn hooks)
        × (size ≤ wire_len read
            → sk_clone (char_to_pointer (get_or read 11 0)) ≡ bad_address
            → 0 < length chunks
            → be_fe_connection_daemon sk_clone size
                (record { conn = conn; hooks = hooks })
                (map got chunks)
              ≡ broken crashed)
  daemon_repeats [] read conn hooks h n fits =
      (λ short. repeats_short [] read conn hooks h n short fits, λ long bad p. absurd (omega arith))
  daemon_repeats (bytes ∷ rest) read conn hooks h n fits = (
    λ short. repeats_short (bytes ∷ rest) read conn hooks h n short fits,
    λ long bad p.
        daemon_crashes (record { conn = conn; hooks = hooks }) (got bytes) (map got rest)
          (round-crashes read bytes conn hooks h n long bad (
            omega (
              arith,
              fits,
              length-append read (bytes ++ joined rest),
              length-append bytes (joined rest),
            ))),
  )
