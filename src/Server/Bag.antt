-- ===== src/Server/Bag.antt =====
-- The front end as a bag of connections: which pool holds a connection, and in what order, is forgotten.
use tcphandoff.Common.{
  ℕ, ◌+◌, ◌<◌, ◌≡◌, refl, sym, ap, ◌∙◌, inl, inr, Option, none, some, List, [], ◌∷◌, ◌++◌,
  append_assoc, arith, length, length-append, Outcome, done, ◌>>=◌,
}
use mathlib.Core.List.{perm_middle}
use mathlib.Mathlib.Data.Multiset.Defs.{Multiset, of_list, coe-eq-coe}
use mathlib.Mathlib.Data.Multiset.ZeroCons.{cons}
use tcphandoff.Poll.Tree.{RbTree}
use tcphandoff.Herder.{Herder, ConnMemory, add_connection}
use tcphandoff.Herder.Balance.{with_conn, tcpha_fe_conn_create_least}
use tcphandoff.Server.{Accepted, accept_loop}
use tcphandoff.Server.Accept.{Room, Room-Small, grow-Room, accepted}

-- The connections of all pools.
abbrev pub conns_in : List Herder → List ℕ
conns_in [] = []
conns_in (h ∷ hs) = h.conn_pool ++ conns_in hs

abbrev pub bag : List Herder → Multiset ℕ
bag hs = of_list (conns_in hs)

-- What the accept loop promises: each client that is accepted puts its connection into the bag.
abbrev pub put_clients : List (Option Accepted) → Multiset ℕ → Multiset ℕ
put_clients [] m = m
put_clients (none ∷ rest) m = put_clients rest m
put_clients (some a ∷ rest) m = put_clients rest (cons a.conn m)

conns_in-append : (hs ks : List Herder) → conns_in (hs ++ ks) ≡ conns_in hs ++ conns_in ks
conns_in-append [] ks = refl
conns_in-append (h ∷ hs) ks =
    ap (λ l. h.conn_pool ++ l) (conns_in-append hs ks)
    ∙ sym (append_assoc h.conn_pool (conns_in hs) (conns_in ks))

-- A connection that is first in one pool.
put-bag :
    (c : ℕ) (before after : List Herder) (h h' : Herder)
    → h'.conn_pool ≡ c ∷ h.conn_pool
    → bag (before ++ (h' ∷ after)) ≡ cons c (bag (before ++ (h ∷ after)))
put-bag c before after h h' e =
    let rest = h.conn_pool ++ conns_in after in
    let now : conns_in (before ++ (h' ∷ after)) ≡ conns_in before ++ (c ∷ rest) =
      conns_in-append before (h' ∷ after)
      ∙ ap (λ (p : List ℕ). conns_in before ++ (p ++ conns_in after)) e in
    let then_ : conns_in (before ++ (h ∷ after)) ≡ conns_in before ++ rest =
      conns_in-append before (h ∷ after) in
    ap of_list now
    ∙ (coe-eq-coe {l₁ = conns_in before ++ (c ∷ rest)} {l₂ = c ∷ (conns_in before ++ rest)}).1
        (perm_middle (conns_in before) rest)
    ∙ ap (λ (l : List ℕ). of_list (c ∷ l)) (sym then_)

module _ (rb : RbTree) where
  add_connection-conn_pool :
      (a : Accepted) (h : Herder)
      → (add_connection rb a.conn a.sock a.cachep a.item a.polled h).conn_pool
        ≡ a.conn ∷ h.conn_pool
  unfolding add_connection
  add_connection-conn_pool a h = refl

  -- The accept loop does with the pools what it promises of the bag: where there is a herder, and the pools
  -- have room for the clients that come, it ends, and the connections in the pools are, as a bag, those
  -- that were there and those of the clients that were accepted, each as often as it was accepted.
  pub accept_loop-bag :
      (accepts : List (Option Accepted)) (mem : ConnMemory) (hs : List Herder)
      → 0 < length hs
      → Room (accepted accepts) hs
      → (mem' : ConnMemory) × (hs' : List Herder) × (accept_loop rb mem hs accepts
          ≡ done (mem', hs'))
        × (bag hs' ≡ put_clients accepts (bag hs))
  unfolding accept_loop
  accept_loop-bag [] mem hs p room = (mem, hs, refl, refl)
  accept_loop-bag (none ∷ rest) mem hs p room = accept_loop-bag rest mem hs p room
  accept_loop-bag (some a ∷ rest) mem hs p room =
      elim (tcpha_fe_conn_create_least rb mem a.conn a.sock a.cachep a.item a.polled hs
        (Room-Small (accepted rest + 1) hs room)) [
          | inl e ↦ absurd (omega (arith, p, ap (λ (l : List Herder). length l) e.0))
          | inr q ↦
              let l = q.0 in
              let added = add_connection rb a.conn a.sock a.cachep a.item a.polled l.herder in
              let hs1 = l.before ++ (added ∷ l.after) in
              let room1 =
                grow-Room rb (accepted rest) a.conn a.sock a.cachep a.item a.polled hs l room in
              let (mem', hs', e, same) =
                accept_loop-bag rest (with_conn rb mem a.conn a.sock a.cachep a.item a.polled) hs1
                  (omega (arith, length-append l.before (added ∷ l.after))) room1 in
              (
                mem',
                hs',
                ap
                      (λ (o : Outcome (ConnMemory × List Herder)).
                        o >>= λ r. accept_loop rb r.0 r.1 rest)
                      q.1
                    ∙ e,
                same
                    ∙ ap (put_clients rest) (
                        put-bag a.conn l.before l.after l.herder added
                          (add_connection-conn_pool a l.herder)
                        ∙ ap (λ (x : List Herder). cons a.conn (bag x)) (sym l.split)),
              )
        ]
