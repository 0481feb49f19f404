-- ===== src/Server/Accept.antt =====
-- What the accept loop does to the pools, and what is left of the sockets.
use tcphandoff.Common.{
  ℕ, ◌+◌, ◌-◌, ◌<◌, ◌≡◌, refl, ap, ◌∙◌, subst, ◌⊎◌, inl, inr, Bool, true, false, Option, none, some,
  List, [], ◌∷◌, ◌++◌, arith, length, All, length-append, All-append, All-left, All-right, All-mono,
  u32_mod, is_negative, Outcome, done, ◌>>=◌,
}
use tcphandoff.Sock.{Sock}
use tcphandoff.Poll.Tree.{RbTree}
use tcphandoff.Herder.{Herder, ConnMemory, max_int, add_connection, tcpha_fe_conn_create}
use tcphandoff.Herder.Balance.{
  Small, Balanced, Least, with_conn, tcpha_fe_conn_create_least, tcpha_fe_conn_create-Balanced,
}
use tcphandoff.Server.{
  Calls, Server, setup_server_socket, pull_down_server_socket, Accepted, accept_loop,
  tcpha_fe_server_daemon,
}

-- The pools have room for `n` more connections below the search's limit.
abbrev pub Room : ℕ → List Herder → Type 0
Room n hs = All (λ h. h.pool_size + n < max_int) hs

pub Room-Small : (n : ℕ) (hs : List Herder) → Room n hs → Small hs
Room-Small n hs r = All-mono hs (λ h p. omega arith) r

module _ (rb : RbTree) where
  pub grow-Room :
      (n c : ℕ) (sock : Sock) (cachep : Bool) (item : Option ℕ) (polled : ℕ) (hs : List Herder)
      (l : Least hs)
      → Room (n + 1) hs
      → Room n (l.before ++ (add_connection rb c sock cachep item polled l.herder ∷ l.after))
  unfolding add_connection
  grow-Room n c sock cachep item polled hs l r =
      let all = subst (Room (n + 1)) l.split r in
      let before =
        All-left (λ (h : Herder). h.pool_size + (n + 1) < max_int) l.before (l.herder ∷ l.after)
          all in
      let rest =
        All-right (λ (h : Herder). h.pool_size + (n + 1) < max_int) l.before (l.herder ∷ l.after)
          all in
      All-append (λ (h : Herder). h.pool_size + n < max_int) l.before _
        (All-mono l.before (λ h p. omega arith) before)
        (omega (arith, rest.0), All-mono l.after (λ h p. omega arith) rest.1)

-- The number of connections on all counts.
abbrev pub total : List Herder → ℕ
total [] = 0
total (h ∷ hs) = h.pool_size + total hs

total-append : (hs ks : List Herder) → total (hs ++ ks) ≡ total hs + total ks
total-append [] ks = omega arith
total-append (h ∷ hs) ks = omega (arith, total-append hs ks)

-- The clients that have been accepted.
abbrev pub accepted : List (Option Accepted) → ℕ
accepted [] = 0
accepted (none ∷ rest) = accepted rest
accepted (some a ∷ rest) = accepted rest + 1

-- The herders once the loop has ended.
pub record Shared (n : ℕ) (hs : List Herder) (hs' : List Herder) : Type 0 where
  pub balanced : (k : ℕ) × Balanced k hs'
  pub added : total hs' ≡ total hs + n
  pub herders : length hs' ≡ length hs

module _ (rb : RbTree) where
  grow-total :
      (c : ℕ) (sock : Sock) (cachep : Bool) (item : Option ℕ) (polled : ℕ) (hs : List Herder)
      (l : Least hs)
      → Small hs
      → let hs' = l.before ++ (add_connection rb c sock cachep item polled l.herder ∷ l.after) in
        (total hs' ≡ total hs + 1) × (length hs' ≡ length hs)
  unfolding add_connection
  grow-total c sock cachep item polled hs l s =
      let small =
        (All-right (λ (h : Herder). h.pool_size < max_int) l.before (l.herder ∷ l.after)
          (subst Small l.split s)).0 in
      let grown = add_connection rb c sock cachep item polled l.herder in
      (
        omega (
          arith,
          small,
          ap total l.split,
          total-append l.before (l.herder ∷ l.after),
          total-append l.before (grown ∷ l.after),
        ),
        omega (
          arith,
          ap (λ (x : List Herder). length x) l.split,
          length-append l.before (l.herder ∷ l.after),
          length-append l.before (grown ∷ l.after),
        ),
      )

  -- One connection more.
  one_more :
      (n k : ℕ) (mem : ConnMemory) (hs : List Herder) (a : Accepted)
      → 0 < length hs
      → Room (n + 1) hs
      → Balanced k hs
      → (mem' : ConnMemory) × (hs' : List Herder) × (tcpha_fe_conn_create rb mem hs a.conn a.sock
            a.cachep a.item a.polled
          ≡ done (mem', hs'))
        × Room n hs'
        × Shared 1 hs hs'
  one_more n k mem hs a p r b =
      let small = Room-Small (n + 1) hs r in
      elim (tcpha_fe_conn_create_least rb mem a.conn a.sock a.cachep a.item a.polled hs small) [
        | inl e ↦ absurd (omega (arith, p, ap (λ (x : List Herder). length x) e.0))
        | inr q ↦
            let l = q.0 in
            let hs' =
              l.before
              ++ (add_connection rb a.conn a.sock a.cachep a.item a.polled l.herder ∷ l.after) in
            let (t, len) = grow-total a.conn a.sock a.cachep a.item a.polled hs l small in
            (
              with_conn rb mem a.conn a.sock a.cachep a.item a.polled,
              hs',
              q.1,
              grow-Room rb n a.conn a.sock a.cachep a.item a.polled hs l r,
              record {
                balanced =
                    tcpha_fe_conn_create-Balanced rb mem a.conn a.sock a.cachep a.item a.polled k hs
                      small b (with_conn rb mem a.conn a.sock a.cachep a.item a.polled) hs' q.1;
                added = t;
                herders = len;
              },
            )
      ]

  -- Where there is a herder, the counts of the pools differ by at most one, and all of them have room for the
  -- clients that come, the accept loop ends with each accepted client on the count of one pool and the counts
  -- still differing by at most one.
  pub accept_loop-Shared :
      (accepts : List (Option Accepted)) (k : ℕ) (mem : ConnMemory) (hs : List Herder)
      → 0 < length hs
      → Room (accepted accepts) hs
      → Balanced k hs
      → (mem' : ConnMemory) × (hs' : List Herder) × (accept_loop rb mem hs accepts
          ≡ done (mem', hs'))
        × Shared (accepted accepts) hs hs'
  unfolding accept_loop
  accept_loop-Shared [] k mem hs p r b =
      (mem, hs, refl, record { balanced = (k, b); added = omega arith; herders = refl })
  accept_loop-Shared (none ∷ rest) k mem hs p r b = accept_loop-Shared rest k mem hs p r b
  accept_loop-Shared (some a ∷ rest) k mem hs p r b =
      let (mem1, hs1, e, room, s1) = one_more (accepted rest) k mem hs a p r b in
      let (mem', hs', e', s') =
        accept_loop-Shared rest s1.balanced.0 mem1 hs1 (omega (arith, p, s1.herders)) room
          s1.balanced.1 in
      (
        mem',
        hs',
        ap (λ (o : Outcome (ConnMemory × List Herder)). o >>= λ r. accept_loop rb r.0 r.1 rest) e
            ∙ e',
        record {
          balanced = s'.balanced;
          added = omega (arith, s'.added, s1.added);
          herders = s'.herders ∙ s1.herders;
        },
      )

module _ (calls : Calls) (server : Server) where
  -- The server with a socket open that it does not listen on.
  abbrev pub leaked : Server
  leaked = record server { open_socks = calls.sock ∷ server.open_socks }

  -- `tcpha_fe_server_daemon` ends with -1 when its socket cannot be created, bound or listened on; a socket
  -- that was created stays open. With the socket up, it serves the accept loop
  -- and ends with 0, the socket closed and the flag down, if the loop ends.
  pub tcpha_fe_server_daemon_cases :
      (rb : RbTree) (accepts : List (Option Accepted)) (mem : ConnMemory) (hs : List Herder)
      → (is_negative calls.create_error ≡ true
          → tcpha_fe_server_daemon rb calls accepts server mem hs
            ≡ done (server, (mem, hs), u32_mod - 1))
        × (calls.create_error ≡ 0
            → (is_negative calls.bind_error ≡ true)
              ⊎ ((is_negative calls.bind_error ≡ false) × (is_negative calls.listen_error ≡ true))
            → tcpha_fe_server_daemon rb calls accepts server mem hs
              ≡ done (leaked, (mem, hs), u32_mod - 1))
        × (calls.create_error ≡ 0
            → is_negative calls.bind_error ≡ false
            → calls.listen_error ≡ 0
            → (left : ConnMemory × List Herder) → accept_loop rb mem hs accepts ≡ done left
            → tcpha_fe_server_daemon rb calls accepts server mem hs
              ≡ done (
                record {
                  mainsock = some calls.sock;
                  running = false;
                  open_socks = server.open_socks;
                },
                left,
                0,
              ))
  unfolding tcpha_fe_server_daemon setup_server_socket pull_down_server_socket
  tcpha_fe_server_daemon_cases rb accepts mem hs = (
    λ c. ground (arith, c),
    λ c e. ground (arith, c, e),
    λ c b l left a. ground (arith, c, b, l, a),
  )
