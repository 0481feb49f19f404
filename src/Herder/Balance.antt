-- ===== src/Herder/Balance.antt =====
-- Which pool a new connection goes to.
use tcphandoff.Common.{
  ℕ, zero, suc, ◌+◌, ◌≤◌, ◌<◌, ◌≡◌, refl, sym, ap, ◌∙◌, subst, ◌⊎◌, inl, inr, Bool, true, Option,
  none, some, List, [], ◌∷◌, ◌++◌, arith, ℕ_discrete, Bool-cases, length, All, All-append, All-left,
  All-right, All-both, Outcome, done, fault,
}
use tcphandoff.Sock.{Sock}
use tcphandoff.Poll.Tree.{RbTree}
use tcphandoff.Poll.{update}
use tcphandoff.Herder.{
  Herder, ConnMemory, max_int, int_lt, search_least, modify_at, add_connection, setup_conn,
  tcpha_fe_conn_create,
}

-- The pools are below the search's limit.
abbrev pub Small : List Herder → Type 0
Small hs = All (λ h. h.pool_size < max_int) hs

-- The herder of the first least loaded pool, with those before and after it.
pub record Least (hs : List Herder) : Type 0 where
  pub before : List Herder
  pub herder : Herder
  pub after : List Herder
  pub split : hs ≡ before ++ (herder ∷ after)
  pub above_before : All (λ h. herder.pool_size < h.pool_size) before
  pub below_after : All (λ h. herder.pool_size ≤ h.pool_size) after

-- What the search returns from `m`, `least` and `i` on.
abbrev pub Searched : ℕ → Option ℕ → ℕ → List Herder → Option ℕ → Type 0
Searched m least i hs r =
    (All (λ h. m ≤ h.pool_size) hs × (r ≡ least))
    ⊎ ((l : Least hs) × (l.herder.pool_size < m) × (r ≡ some (i + length l.before)))

Searched-less :
    (m i : ℕ) (least : Option ℕ) (h : Herder) (hs : List Herder) (r : Option ℕ)
    → h.pool_size < m
    → Searched h.pool_size (some i) (i + 1) hs r
    → Searched m least i (h ∷ hs) r
Searched-less m i least h hs r l (inl (a, e)) = inr (
  record { before = []; herder = h; after = hs; split = refl; above_before = tt; below_after = a },
  l,
  e ∙ ap some (omega arith),
)
Searched-less m i least h hs r l (inr (k, s, e)) = inr (
  record {
    before = h ∷ k.before;
    herder = k.herder;
    after = k.after;
    split = ap (◌∷◌ h) k.split;
    above_before = (s, k.above_before);
    below_after = k.below_after;
  },
  omega arith,
  e ∙ ap some (omega arith),
)

Searched-more :
    (m i : ℕ) (least : Option ℕ) (h : Herder) (hs : List Herder) (r : Option ℕ)
    → m ≤ h.pool_size
    → Searched m least (i + 1) hs r
    → Searched m least i (h ∷ hs) r
Searched-more m i least h hs r l (inl (a, e)) = inl ((l, a), e)
Searched-more m i least h hs r l (inr (k, s, e)) = inr (
  record {
    before = h ∷ k.before;
    herder = k.herder;
    after = k.after;
    split = ap (◌∷◌ h) k.split;
    above_before = (omega arith, k.above_before);
    below_after = k.below_after;
  },
  s,
  e ∙ ap some (omega arith),
)

search_least-Searched :
    (hs : List Herder) (m : ℕ) (least : Option ℕ) (i : ℕ)
    → m ≤ max_int
    → Small hs
    → Searched m least i hs (search_least m least i hs)
unfolding search_least
search_least-Searched [] m least i l s = inl (tt, refl)
search_least-Searched (h ∷ hs) m least i l s = elim (Bool-cases (int_lt h.pool_size m)) [
  | inl t ↦ rw t (
      Searched-less m i least h hs _ (ground (arith, s.0))
        (search_least-Searched hs h.pool_size (some i) (i + 1) (omega (arith, s.0)) s.1))
  | inr t ↦ rw t (
      Searched-more m i least h hs _ (ground (arith, s.0))
        (search_least-Searched hs m least (i + 1) l s.1))
]

modify_at-append :
    (f : Herder → Herder) (before : List Herder) (h : Herder) (after : List Herder) (n : ℕ)
    → n ≡ length before
    → modify_at n f (before ++ (h ∷ after)) ≡ before ++ (f h ∷ after)
modify_at-append f [] h after zero e = refl
modify_at-append f [] h after (suc n) e = absurd (omega arith)
modify_at-append f (b ∷ bs) h after zero e = absurd (omega arith)
modify_at-append f (b ∷ bs) h after (suc n) e =
    ap (◌∷◌ b) (modify_at-append f bs h after n (omega arith))

-- Every pool has `k` or `k + 1` connections on its count.
abbrev pub Balanced : ℕ → List Herder → Type 0
Balanced k hs = All (λ h. (h.pool_size ≡ k) ⊎ (h.pool_size ≡ k + 1)) hs

abbrev herders_of : Outcome (ConnMemory × List Herder) → List Herder
herders_of (done r) = r.1
herders_of _ = []

module _ (rb : RbTree) (mem : ConnMemory) (c : ℕ) (sock : Sock) (cachep : Bool) (item : Option ℕ)
    (polled : ℕ) where
  -- The new connection, set up in its memory.
  abbrev pub with_conn : ConnMemory
  with_conn = record mem {
    conn = update mem.conn c (setup_conn (mem.conn c) sock);
    allocated = update mem.allocated c true;
  }

  abbrev add : Herder → Herder
  add = add_connection rb c sock cachep item polled

  -- Where the search has ended.
  abbrev placed : List Herder → Option ℕ → Outcome (ConnMemory × List Herder)
  placed hs none = fault
  placed hs (some i) = done (with_conn, modify_at i add hs)

  create-placed :
      (hs : List Herder)
      → tcpha_fe_conn_create rb mem hs c sock cachep item polled
        ≡ placed hs (search_least max_int none 0 hs)
  unfolding tcpha_fe_conn_create
  create-placed hs = ground arith

  -- The connection goes to a least herder, if there is one.
  abbrev pub Placed : List Herder → Outcome (ConnMemory × List Herder) → Type 0
  Placed hs r =
      ((hs ≡ []) × (r ≡ fault))
      ⊎ ((l : Least hs) × (r
            ≡ done (
              with_conn,
              l.before ++ (add_connection rb c sock cachep item polled l.herder ∷ l.after),
            )))

  no_herder : (hs : List Herder) → Small hs → All (λ h. max_int ≤ h.pool_size) hs → hs ≡ []
  no_herder [] s a = refl
  no_herder (h ∷ hs) s a = absurd (omega (arith, s.0, a.0))

  placed_least :
      (hs : List Herder) (r : Option ℕ)
      → Small hs
      → Searched max_int none 0 hs r
      → Placed hs (placed hs r)
  placed_least hs r s (inl (a, e)) = inl (no_herder hs s a, ap (placed hs) e)
  placed_least hs r s (inr (l, small, e)) = inr (
    l,
    ap (placed hs) e
        ∙ ap (λ (x : List Herder). done (with_conn, x))
            (ap (modify_at (0 + length l.before) add) l.split
              ∙ modify_at-append add l.before l.herder l.after (0 + length l.before) (omega arith)),
  )

  -- Of herders whose pools are all below the search's limit, `tcpha_fe_conn_create` takes the first of those
  -- with the smallest pool, and adds the connection to that one alone; with no herder it reads
  -- through NULL.
  pub tcpha_fe_conn_create_least :
      (hs : List Herder)
      → Small hs
      → Placed hs (tcpha_fe_conn_create rb mem hs c sock cachep item polled)
  tcpha_fe_conn_create_least hs s =
      rw (create-placed hs)
        (placed_least hs _ s (search_least-Searched hs max_int none 0 (omega arith) s))

  -- The pools stay balanced when the least loaded one grows.
  grow-Balanced :
      (k : ℕ) (hs : List Herder) (l : Least hs)
      → Small hs
      → Balanced k hs
      → (k' : ℕ) × Balanced k'
          (l.before ++ (add_connection rb c sock cachep item polled l.herder ∷ l.after))
  unfolding add_connection
  grow-Balanced k hs l s b =
      let h = l.herder in
      let bs = subst (λ x. Balanced k x) l.split b in
      let b_before =
        All-left (λ x. (x.pool_size ≡ k) ⊎ (x.pool_size ≡ k + 1)) l.before (h ∷ l.after) bs in
      let b_rest =
        All-right (λ x. (x.pool_size ≡ k) ⊎ (x.pool_size ≡ k + 1)) l.before (h ∷ l.after) bs in
      let s_rest =
        All-right (λ x. x.pool_size < max_int) l.before (h ∷ l.after) (subst Small l.split s) in
      elim (ℕ_discrete h.pool_size k) [
        | yes e ↦ (k, All-append _ l.before _ b_before (inr (omega (arith, s_rest.0)), b_rest.1))
        | no n ↦ (
          k + 1,
          All-append _ l.before _
              (All-both l.before (λ x p q. inl (omega (arith, b_rest.0))) b_before l.above_before)
              (
                inr (omega (arith, s_rest.0, b_rest.0)),
                All-both l.after (λ x p q. inl (omega (arith, b_rest.0))) b_rest.1 l.below_after,
              ),
        )
      ]

  grown :
      (k : ℕ) (hs : List Herder) (r : Outcome (ConnMemory × List Herder))
      → Small hs
      → Balanced k hs
      → Placed hs r
      → (mem' : ConnMemory) (hs' : List Herder) → r ≡ done (mem', hs')
      → (k' : ℕ) × Balanced k' hs'
  grown k hs r s b (inl (_, e)) mem' hs' q = absurd (cc)
  grown k hs r s b (inr (l, e)) mem' hs' q =
      let (k', b') = grow-Balanced k hs l s b in
      (
        k',
        subst (Balanced k')
            (ap (λ (x : Outcome (ConnMemory × List Herder)). herders_of x) (sym e ∙ q)) b',
      )

  -- Where the counts of all pools differ by at most one, they still do once `tcpha_fe_conn_create` has
  -- added a connection. All pools are below the search's limit.
  pub tcpha_fe_conn_create-Balanced :
      (k : ℕ) (hs : List Herder)
      → Small hs
      → Balanced k hs
      → (mem' : ConnMemory) (hs' : List Herder)
      → tcpha_fe_conn_create rb mem hs c sock cachep item polled ≡ done (mem', hs')
      → (k' : ℕ) × Balanced k' hs'
  tcpha_fe_conn_create-Balanced k hs s b = grown k hs _ s b (tcpha_fe_conn_create_least hs s)
