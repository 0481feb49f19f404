-- ===== src/Backend/Daemon/Reassembly.antt =====
-- The bytes that the thread has read, and when they no longer fit.
use tcphandoff.Common.{
  ℕ, suc, ◌+◌, ◌≤◌, ◌<◌, ◌≡◌, refl, inl, sym, ap, ◌∙◌, subst, true, Option, none, some, List, [],
  ◌∷◌, ◌++◌, map, append-nil, append_assoc, arith, dec_lt, leb, ◌==◌, if◌then◌else◌, length, get_or,
  take, drop, length-append, length-take, length-drop, take-append, get_or-append, get_or-take,
  u32_mod,
}
use tcphandoff.Backend.{FeConnection, max_buffer_size}
use tcphandoff.Backend.Handoff.{SkClone}
use tcphandoff.Backend.Handoff.Dispatch.{IsTame, Calm}
use tcphandoff.Backend.Message.{parse_message, read_header}
use tcphandoff.Backend.Message.Trigger.{
  counted, CalmAt, parse_message_harmless, after_read, after_read_keeps,
}
use tcphandoff.Common.{Received, got, write_at}
use tcphandoff.Backend.Daemon.{
  Thread, running, overflow, finish, daemon_round, stopped, broken, be_fe_connection_daemon,
}

abbrev pub buffer_size : ℕ
buffer_size = max_buffer_size + 1

-- The front of the buffer is what has been read.
pub record Holds (read : List ℕ) (conn : FeConnection) : Type 0 where
  pub sized : length conn.buffer ≡ buffer_size
  pub count : conn.num_read ≡ length read
  pub front : take (length read) conn.buffer ≡ read

-- The buffer with `bytes` after what has been read.
abbrev pub filled : List ℕ → List ℕ → List ℕ → List ℕ
filled read bytes buffer = read ++ (bytes ++ drop (length read + length bytes) buffer)

module _ (read bytes : List ℕ) (conn : FeConnection) (h : Holds read conn) where
  pub write_fits :
      length read + length bytes ≤ buffer_size
      → write_at (length read) bytes conn.buffer ≡ some (filled read bytes conn.buffer)
  unfolding write_at
  write_fits l =
      let t : leb (length read + length bytes) (length conn.buffer) ≡ true =
        ground (arith, h.sized) in
      rw (t, h.front) refl

  write_overflows :
      buffer_size < length read + length bytes → write_at (length read) bytes conn.buffer ≡ none
  unfolding write_at
  write_overflows l = ground (arith, h.sized)

  filled-length :
      length read + length bytes ≤ buffer_size
      → length (filled read bytes conn.buffer) ≡ buffer_size
  filled-length l = omega (
    arith,
    h.sized,
    length-append read (bytes ++ drop (length read + length bytes) conn.buffer),
    length-append bytes (drop (length read + length bytes) conn.buffer),
    length-drop (length read + length bytes) conn.buffer,
  )

  filled-front : take (length (read ++ bytes)) (filled read bytes conn.buffer) ≡ read ++ bytes
  filled-front =
      subst (λ b. take (length (read ++ bytes)) b ≡ read ++ bytes)
        (append_assoc read bytes (drop (length read + length bytes) conn.buffer))
        (take-append (read ++ bytes) (drop (length read + length bytes) conn.buffer))

  base_at : (if conn.num_read == 0 then 0 else conn.num_read) ≡ length read
  base_at = ground (arith, h.count)

  abbrev pub stored : FeConnection
  stored = record conn { buffer = filled read bytes conn.buffer }

  module _ (sk_clone : SkClone) (size hooks : ℕ) where
    pub round_written :
        (o : Option (List ℕ))
        → write_at (length read) bytes conn.buffer ≡ o
        → daemon_round sk_clone size (record { conn = conn; hooks = hooks }) (got bytes) ≡ (elim o [
          | none ↦ overflow
          | some b ↦
              finish
                (hooks + 1)
                (parse_message sk_clone size (record conn { buffer = b }) (length bytes))
        ])
    unfolding daemon_round
    round_written o e = rw (base_at, e, daemon_round) refl

    -- A read that fits leaves the bytes behind those read before.
    pub round_after :
        length read + length bytes ≤ buffer_size
        → (10 ≤ length (read ++ bytes)
            → Calm size (read_header (counted stored (length bytes))) (get_or (read ++ bytes) 0 0))
        → (c : FeConnection) × (daemon_round sk_clone size
              (record { conn = conn; hooks = hooks })
              (got bytes)
            ≡ running (record { conn = c; hooks = hooks + 1 }))
          × Holds (read ++ bytes) c
          × (c ≡ after_read stored (length bytes))
    unfolding finish
    round_after l calm =
        let len = length-append read bytes in
        let small : stored.num_read + length bytes < u32_mod = omega (arith, h.count) in
        let calm_now : CalmAt size (counted stored (length bytes)) = λ ten.
          let n : 10 ≤ length (read ++ bytes) = omega (arith, h.count, len, ten) in
          subst (Calm size (read_header (counted stored (length bytes))))
            (sym (ap (λ (b : List ℕ). get_or b 0 0) filled-front)
              ∙ get_or-take (length (read ++ bytes)) (filled read bytes conn.buffer) 0
                  (omega (arith, n)))
            (calm n) in
        let now = after_read stored (length bytes) in
        let ep = parse_message_harmless sk_clone size stored (length bytes) small calm_now in
        let (kb, kn) = after_read_keeps stored (length bytes) small in
        (
          now,
          round_written (some (filled read bytes conn.buffer)) (write_fits l)
              ∙ ap (finish (hooks + 1)) ep,
          record {
            sized = ap length kb ∙ filled-length l;
            count = kn ∙ omega (arith, h.count, len);
            front = ap (take (length (read ++ bytes))) kb ∙ filled-front;
          },
          refl,
        )

    round_overflows :
        buffer_size < length read + length bytes
        → daemon_round sk_clone size (record { conn = conn; hooks = hooks }) (got bytes) ≡ overflow
    round_overflows l = round_written none (write_overflows l)

-- The chunks one after the other.
abbrev pub joined : List (List ℕ) → List ℕ
joined [] = []
joined (c ∷ cs) = c ++ joined cs

module _ (sk_clone : SkClone) (size : ℕ) where
  pub daemon_next :
      (t t' : Thread) (r : Received) (rs : List Received)
      → daemon_round sk_clone size t r ≡ running t'
      → be_fe_connection_daemon sk_clone size t (r ∷ rs)
        ≡ be_fe_connection_daemon sk_clone size t' rs
  unfolding be_fe_connection_daemon
  daemon_next t t' r rs e = rw (e, be_fe_connection_daemon) refl

  daemon_overflows :
      (t : Thread) (r : Received) (rs : List Received)
      → daemon_round sk_clone size t r ≡ overflow
      → be_fe_connection_daemon sk_clone size t (r ∷ rs) ≡ broken overflow
  unfolding be_fe_connection_daemon
  daemon_overflows t r rs e = rw (e, be_fe_connection_daemon) refl

  -- Where all bytes fit, and where they do not.
  abbrev pub Ends : List ℕ → List (List ℕ) → FeConnection → ℕ → Type 0
  Ends read chunks conn hooks =
      let end =
        be_fe_connection_daemon sk_clone size (record { conn = conn; hooks = hooks })
          (map got chunks) in
      (length (read ++ joined chunks) ≤ buffer_size
        → (c : FeConnection) × (end ≡ stopped (record { conn = c; hooks = hooks + length chunks }))
          × Holds (read ++ joined chunks) c)
      × (buffer_size < length (read ++ joined chunks) → end ≡ broken overflow)

  Ends-step :
      (read c : List ℕ) (cs : List (List ℕ)) (conn conn' : FeConnection) (hooks : ℕ)
      → daemon_round sk_clone size (record { conn = conn; hooks = hooks }) (got c)
        ≡ running (record { conn = conn'; hooks = hooks + 1 })
      → Ends (read ++ c) cs conn' (hooks + 1)
      → Ends read (c ∷ cs) conn hooks
  Ends-step read c cs conn conn' hooks e (fits, over) =
      let a : (read ++ c) ++ joined cs ≡ read ++ (c ++ joined cs) =
        append_assoc read c (joined cs) in
      let next =
        daemon_next (record { conn = conn; hooks = hooks })
          (record { conn = conn'; hooks = hooks + 1 }) (got c) (map got cs) e in
      let more : hooks + 1 + length cs ≡ hooks + suc (length cs) = omega arith in
      (
        λ l.
            let (k, ek, hk) = fits (rw a l) in
            (
              k,
              next ∙ ek ∙ ap (λ (n : ℕ). stopped (record { conn = k; hooks = n })) more,
              subst (λ x. Holds x k) a hk,
            ),
        λ l. next ∙ over (rw a l),
      )

  Holds-fits : (read : List ℕ) (conn : FeConnection) → Holds read conn → length read ≤ buffer_size
  Holds-fits read conn h =
      omega (arith, ap length h.front, length-take (length read) conn.buffer, h.sized)

  Ends-over :
      (read c : List ℕ) (cs : List (List ℕ)) (conn : FeConnection) (hooks : ℕ)
      → Holds read conn
      → buffer_size < length read + length c
      → Ends read (c ∷ cs) conn hooks
  Ends-over read c cs conn hooks h l = (
    λ fits.
        absurd (omega (arith, length-append read (c ++ joined cs), length-append c (joined cs))),
    λ over.
        daemon_overflows (record { conn = conn; hooks = hooks }) (got c) (map got cs)
          (round_overflows read c conn h sk_clone size hooks l),
  )

  Ends-nil :
      (read : List ℕ) (conn : FeConnection) (hooks : ℕ) → Holds read conn → Ends read [] conn hooks
  unfolding be_fe_connection_daemon
  Ends-nil read conn hooks h = (
    λ l. (
      conn,
      ap (λ (n : ℕ). stopped (record { conn = conn; hooks = n })) (omega arith),
      rw append-nil h,
    ),
    λ l. absurd (omega (arith, Holds-fits read conn h, ap length (append-nil read))),
  )

  IsTame-prefix :
      (xs ys : List ℕ) → IsTame (get_or (xs ++ ys) 0 0) → 10 ≤ length xs → IsTame (get_or xs 0 0)
  IsTame-prefix xs ys t l = subst IsTame (get_or-append xs ys 0 (omega arith)) t

  -- While the thread reads data whose first byte is a command other than 0 and 4 to 31, after `read` has been read: where
  -- all the data fits the buffer, the thread runs until it is stopped, the front of the buffer is
  -- the data in order, and its entry has been put on the wait queue once more in every round;
  -- where the data does not fit, the thread writes past the end of the buffer.
  pub daemon-Ends :
      (chunks : List (List ℕ)) (read : List ℕ) (conn : FeConnection) (hooks : ℕ)
      → Holds read conn
      → IsTame (get_or (read ++ joined chunks) 0 0)
      → Ends read chunks conn hooks
  daemon-Ends [] read conn hooks h tame = Ends-nil read conn hooks h
  daemon-Ends (c ∷ cs) read conn hooks h tame = elim (dec_lt buffer_size (length read + length c)) [
    | yes l ↦ Ends-over read c cs conn hooks h l
    | no l ↦
        let t : IsTame (get_or ((read ++ c) ++ joined cs) 0 0) =
          subst (λ x. IsTame (get_or x 0 0)) (sym (append_assoc read c (joined cs))) tame in
        let (conn', e, h', _) =
          round_after read c conn h sk_clone size hooks (omega arith)
            (λ ten. inl (IsTame-prefix (read ++ c) (joined cs) t ten)) in
        Ends-step read c cs conn conn' hooks e (daemon-Ends cs (read ++ c) conn' (hooks + 1) h' t)
  ]
