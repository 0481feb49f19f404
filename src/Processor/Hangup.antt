-- ===== src/Processor/Hangup.antt =====
-- The peer of a connection hangs up.
use tcphandoff.Common.{
  ℕ, ◌+◌, ◌-◌, ◌%◌, bit_and, ◌≡◌, ap, ◌∙◌, subst, fun_ext, ◌≢◌, false, Option, some, arith,
  ℕ_discrete, u32_mod, done, Received,
}
use tcphandoff.Http.{HttpHeader}
use tcphandoff.Sock.{Sock}
use tcphandoff.Poll.Tree.{RbTree}
use tcphandoff.Poll.{pollin, pollrdhup, update}
use tcphandoff.Herder.{Herder, ConnMemory, FeConn, tcpha_fe_conn_destroy}
use tcphandoff.Herder.Pool.{Destroyed, tcpha_fe_conn_destroy_cases}
use tcphandoff.Processor.{process_events, process_pollrdhup, process_connection}

-- The peer has hung up, and nothing is to be read.
abbrev pub IsHangup : ℕ → Type 0
IsHangup events = (bit_and events pollin ≡ 0) × (bit_and events pollrdhup ≢ 0)

-- The count `alive` of a connection is one less.
abbrev pub less_alive : ConnMemory → ℕ → ConnMemory
less_alive mem c = record mem {
  conn =
      update mem.conn c
        (record (mem.conn c) { alive = ((mem.conn c).alive + u32_mod - 1) % u32_mod });
}

update_at : (f : ℕ → FeConn) (c : ℕ) → update f c (f c) c ≡ f c
update_at f c = ground arith

update_same : (f : ℕ → FeConn) (c d : ℕ) → update f c (f c) d ≡ f d
update_same f c d = elim (ℕ_discrete c d) [
  | yes e ↦ subst (λ x. update f c (f c) x ≡ f x) e (update_at f c)
  | no n ↦ ground arith
]

module _ (rb : RbTree) (memory : Option HttpHeader) (received : Received) (events : ℕ)
    (hangup : IsHangup events) where
  -- The memory when the connection is written back as it was.
  abbrev same_mem : ConnMemory → ℕ → ConnMemory
  same_mem mem c = record mem { conn = update mem.conn c (mem.conn c) }

  same_mem-same : (mem : ConnMemory) (c : ℕ) → same_mem mem c ≡ mem
  same_mem-same mem c =
      ap (λ (f : ℕ → FeConn). record mem { conn = f }) (fun_ext λ d. update_same mem.conn c d)

  process_events-hangup : (conn : FeConn) → process_events memory received events conn ≡ done conn
  unfolding process_events
  process_events-hangup conn = ground (arith, hangup.0)

  process_hangup :
      (mem : ConnMemory) (h : Herder) (c : ℕ) (sock : Sock)
      → (mem.conn c).csock ≡ some sock
      → process_connection rb memory received events mem h c ≡ process_pollrdhup rb mem h c
  unfolding process_connection
  process_hangup mem h c sock e =
      ground (arith, e, process_events-hangup (mem.conn c), hangup.1)
      ∙ ap (λ (m : ConnMemory). process_pollrdhup rb m h c) (same_mem-same mem c)

  pollrdhup_first :
      (mem : ConnMemory) (h : Herder) (c : ℕ) (sock : Sock)
      → (mem.conn c).csock ≡ some sock
      → (mem.conn c).alive ≡ 2
      → process_pollrdhup rb mem h c ≡ done (less_alive mem c, h)
  unfolding process_pollrdhup
  pollrdhup_first mem h c sock e two = ground (arith, e, two)

  pollrdhup_last :
      (mem : ConnMemory) (h : Herder) (c : ℕ) (sock : Sock)
      → (mem.conn c).csock ≡ some sock
      → (mem.conn c).alive ≡ 1
      → process_pollrdhup rb mem h c ≡ tcpha_fe_conn_destroy rb (less_alive mem c) h c
  unfolding process_pollrdhup
  pollrdhup_last mem h c sock e two = ground (arith, e, two)

  -- A connection whose count `alive` is two, as `tcpha_fe_conn_create` sets it, survives the first event
  -- that its peer has hung up: `process_connection` only counts it. The second one destroys it: it
  -- leaves the pool and its memory is freed. It has a socket, and the pool's lock is free.
  pub hangups-Destroyed :
      (mem : ConnMemory) (h : Herder) (c : ℕ) (sock : Sock)
      → (mem.conn c).csock ≡ some sock
      → (mem.conn c).alive ≡ 2
      → h.pool_locked ≡ false
      → (process_connection rb memory received events mem h c ≡ done (less_alive mem c, h))
        × ((mem' : ConnMemory) × (h' : Herder) × (process_connection rb memory received events
                (less_alive mem c)
                h
                c
              ≡ done (mem', h'))
            × Destroyed rb (less_alive (less_alive mem c) c) h c sock mem' h')
  hangups-Destroyed mem h c sock e two free =
      let once = less_alive mem c in
      let kept : (once.conn c).csock ≡ some sock = ground arith in
      let one : (once.conn c).alive ≡ 1 = ground arith in
      let kept2 : ((less_alive once c).conn c).csock ≡ some sock = ground arith in
      let (mem', h', q, d) =
        ((tcpha_fe_conn_destroy_cases rb (less_alive once c) h c).1 sock kept2).1 free in
      (
        process_hangup mem h c sock e ∙ pollrdhup_first mem h c sock e two,
        (
          mem',
          h',
          process_hangup once h c sock kept ∙ pollrdhup_last once h c sock kept one ∙ q,
          d,
        ),
      )
