-- ===== src/Backend/Server/Ring.antt =====
-- `stop_fe_connections` on a list whose pointers are in order.
use tcphandoff.Common.{
  ℕ, zero, suc, ◌<◌, ◌≡◌, refl, sym, ap, ◌∙◌, ◌≢◌, true, false, Option, some, List, [], ◌∷◌, arith,
  length, All, All-mono, member,
}
use tcphandoff.Backend.Server.{
  Links, ListHead, BeServer, or_all, minus, stop_loop, stop_fe_connections,
}

-- From `before` on, the pointers lead forward through the entries to the head, and backward. No entry is
-- the head or NULL, or stands twice.
abbrev pub Chain : ℕ → Links → ℕ → List ℕ → Type 0
Chain head l before [] = l.next before ≡ head
Chain head l before (c ∷ cs) =
    (l.next before ≡ c)
    × (l.prev c ≡ before)
    × (c ≢ head)
    × (c ≢ 0)
    × (member c cs ≡ false)
    × Chain head l c cs

module _ (api : ListHead) (head : ℕ) (l : Links) (c : ℕ) (first : l.prev c ≡ head) where
  abbrev deleted : Links
  deleted = api.list_del c l

  next-deleted : (x : ℕ) → x ≢ c → x ≢ head → deleted.next x ≡ l.next x
  next-deleted x n h = api.next-list_del c l x n ∙ rw first (ground arith)

  prev-deleted : (x : ℕ) → x ≢ c → x ≢ l.next c → deleted.prev x ≡ l.prev x
  prev-deleted x n h = api.prev-list_del c l x n ∙ ground (arith, h)

  -- What comes after the second entry stays.
  Chain-deleted :
      (b : ℕ) (cs : List ℕ)
      → b ≢ c
      → b ≢ head
      → member c cs ≡ false
      → member (l.next c) cs ≡ false
      → Chain head l b cs
      → Chain head deleted b cs
  Chain-deleted b [] n h mc md q = next-deleted b n h ∙ q
  Chain-deleted b (e ∷ es) n h mc md (next, prev, not_head, not_null, once, rest) = (
    next-deleted b n h ∙ next,
    prev-deleted e (ground arith) (ground arith) ∙ prev,
    not_head,
    not_null,
    once,
    Chain-deleted e es (ground arith) not_head (ground arith) (ground arith) rest,
  )

  head-deleted : head ≢ c → deleted.next head ≡ l.next c
  head-deleted n = api.next-list_del c l head n ∙ rw first (ground arith)

  -- The head now leads to the entry after `c`.
  Chain-tail :
      (cs : List ℕ)
      → c ≢ head
      → member c cs ≡ false
      → Chain head l c cs
      → Chain head deleted head cs
  Chain-tail [] n m q = head-deleted (λ e. n (sym e)) ∙ q
  Chain-tail (d ∷ ds) n m (next, prev, not_head, not_null, once, rest) =
      let apart : d ≢ c = ground arith in
      (
        head-deleted (λ e. n (sym e)) ∙ next,
        api.prev-list_del c l d apart ∙ rw (next, first) (ground arith),
        not_head,
        not_null,
        once,
        Chain-deleted d ds apart not_head (ground arith) (rw next once) rest,
      )

member-minus_all : (c : ℕ) (cs xs : List ℕ) → member c cs ≡ true → member c (minus cs xs) ≡ false
member-minus_all c cs [] m = refl
member-minus_all c cs (x ∷ xs) m = ground (arith, member-minus_all c cs xs m)

All-minus :
    (cs ds xs : List ℕ)
    → All (λ c. member c ds ≡ true) cs
    → All (λ c. member c (minus ds xs) ≡ false) cs
All-minus cs ds xs a = All-mono cs (λ c m. member-minus_all c ds xs m) a

All-self : (cs : List ℕ) → All (λ c. member c cs ≡ true) cs
All-self [] = tt
All-self (c ∷ cs) = (ground arith, All-mono cs (λ d m. ground arith) (All-self cs))

module _ (api : ListHead) (head : ℕ) where
  -- The loop has come round to the head, and the list is empty.
  abbrev Emptied : List ℕ → Option (List ℕ × Links) → Type 0
  Emptied cs result = (l' : Links) × (result ≡ some (cs, l')) × (l'.next head ≡ head)

  stop_loop-at_head : (fuel : ℕ) (l : Links) → stop_loop api (suc fuel) head l head ≡ some ([], l)
  unfolding stop_loop
  stop_loop-at_head fuel l = ground arith

  stop_loop-at_entry :
      (fuel : ℕ) (l : Links) (c : ℕ) (cs : List ℕ) (l' : Links)
      → c ≢ head
      → c ≢ 0
      → stop_loop api fuel head (api.list_del c l) (l.next c) ≡ some (cs, l')
      → stop_loop api (suc fuel) head l c ≡ some (c ∷ cs, l')
  unfolding stop_loop
  stop_loop-at_entry fuel l c cs l' h n e = ground (arith, e, h, n)

  stop-Chain :
      (cs : List ℕ) (fuel : ℕ) (l : Links)
      → length cs < fuel
      → Chain head l head cs
      → Emptied cs (stop_loop api fuel head l (l.next head))
  stop-Chain cs zero l f q = absurd (omega arith)
  stop-Chain [] (suc fuel) l f q = (l, rw q (stop_loop-at_head fuel l), q)
  stop-Chain (c ∷ cs) (suc fuel) l f (next, prev, not_head, not_null, once, rest) =
      let l1 = api.list_del c l in
      let (l', e, empty) =
        stop-Chain cs fuel l1 (omega arith) (Chain-tail api head l c prev cs not_head once rest) in
      let on = head-deleted api head l c prev (λ q. not_head (sym q)) in
      (
        l',
        rw next (
            stop_loop-at_entry fuel l c cs l' not_head not_null
              (ap (stop_loop api fuel head l1) (sym on) ∙ e)),
        empty,
      )

-- All connections of the list have been stopped, and the list is empty; the result is all of their
-- results in one.
pub record AllStopped (server : BeServer) (cs : List ℕ) (status : ℕ → ℕ)
    (result : Option (ℕ × BeServer)) : Type 0 where
  pub after : BeServer
  pub ended : result ≡ some (or_all 0 status cs, after)
  pub empty : after.links.next server.fe_connections_list ≡ server.fe_connections_list
  pub stopped : All (λ c. member c after.threads ≡ false) cs

-- On a list whose pointers are in order, `stop_fe_connections` ends after one round for each connection
-- (fuel for one more is enough), having stopped the threads of all, and leaves the list empty.
pub stop_fe_connections-AllStopped :
    (api : ListHead) (server : BeServer) (cs : List ℕ) (fuel : ℕ) (status : ℕ → ℕ)
    → length cs < fuel
    → Chain server.fe_connections_list server.links server.fe_connections_list cs
    → AllStopped server cs status (stop_fe_connections api status fuel server)
unfolding stop_fe_connections
stop_fe_connections-AllStopped api server cs fuel status f q =
    let (l', e, empty) = stop-Chain api server.fe_connections_list cs fuel server.links f q in
    record {
      after = record server { links = l'; threads = minus cs server.threads };
      ended = rw (e, stop_fe_connections) refl;
      empty = empty;
      stopped = All-minus cs cs server.threads (All-self cs);
    }
