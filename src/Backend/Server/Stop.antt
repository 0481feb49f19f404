-- ===== src/Backend/Server/Stop.antt =====
-- Which connections `stop_fe_connections` reaches.
use tcphandoff.Common.{
  ℕ, suc, bit_or, ◌≡◌, refl, ap, ◌∙◌, ◌≢◌, true, false, Option, none, some, List, [], ◌∷◌, ◌++◌,
  arith, All, member,
}
use tcphandoff.Backend.Server.{
  init_list_head, Links, ListHead, BeServer, establish_be_fe_connection, establish_all, stop_loop,
  stop_fe_connections, minus,
}

module _ (api : ListHead) where
  -- A connection is established for a node other than the head, and not at NULL.
  abbrev pub IsConn : BeServer → ℕ → Type 0
  IsConn server c = (server.fe_connections_list ≢ c) × (c ≢ 0)

  -- The head and the connection `c` are the whole list.
  pub record Ring (server : BeServer) (c : ℕ) : Type 0 where
    pub to_conn : server.links.next server.fe_connections_list ≡ c
    pub to_head : server.links.next c ≡ server.fe_connections_list
    pub conn : IsConn server c

  establish-Ring :
      (server : BeServer) (c : ℕ)
      → IsConn server c
      → Ring (establish_be_fe_connection api server c) c
  unfolding establish_be_fe_connection
  establish-Ring server c v =
      let head = server.fe_connections_list in
      let e = api.next-list_add head c (init_list_head c server.links) v.0 in
      record {
        to_conn = ap (λ (f : ℕ → ℕ). f head) e ∙ ground arith;
        to_head = ap (λ (f : ℕ → ℕ). f c) e ∙ ground arith;
        conn = v;
      }

  pub establish_all-nil : (server : BeServer) → establish_all api server [] ≡ server
  unfolding establish_all
  establish_all-nil server = refl

  pub establish_all-cons :
      (server : BeServer) (c : ℕ) (cs : List ℕ)
      → establish_all api server (c ∷ cs)
        ≡ establish_all api (establish_be_fe_connection api server c) cs
  unfolding establish_all
  establish_all-cons server c cs = refl

  establish_all-append :
      (server : BeServer) (cs : List ℕ) (c : ℕ)
      → establish_all api server (cs ++ (c ∷ []))
        ≡ establish_be_fe_connection api (establish_all api server cs) c
  unfolding establish_all
  establish_all-append server [] c = refl
  establish_all-append server (b ∷ cs) c =
      establish_all-append (establish_be_fe_connection api server b) cs c

  establish_all_keeps :
      (server : BeServer) (cs : List ℕ) (t : ℕ)
      → ((establish_all api server cs).fe_connections_list ≡ server.fe_connections_list)
        × (member t server.threads ≡ true → member t (establish_all api server cs).threads ≡ true)
  unfolding establish_all
  establish_all_keeps server [] t = (refl, λ m. m)
  establish_all_keeps server (b ∷ cs) t =
      let (k, m) = establish_all_keeps (establish_be_fe_connection api server b) cs t in
      (k, λ h. m (ground arith))

  -- The thread of every established connection runs.
  establish_all_runs :
      (server : BeServer) (cs : List ℕ)
      → All (λ b. member b (establish_all api server cs).threads ≡ true) cs
  unfolding establish_all
  establish_all_runs server [] = tt
  establish_all_runs server (b ∷ cs) = (
    (establish_all_keeps (establish_be_fe_connection api server b) cs b).1 (ground arith),
    establish_all_runs (establish_be_fe_connection api server b) cs,
  )

  stop_loop-Ring :
      (server : BeServer) (c fuel : ℕ)
      → Ring server c
      → stop_loop api
          (suc (suc fuel))
          server.fe_connections_list
          server.links
          (server.links.next server.fe_connections_list)
        ≡ some (c ∷ [], api.list_del c server.links)
  unfolding stop_loop
  stop_loop-Ring server c fuel r = rw (r.to_conn, r.to_head) (ground (arith, r.conn))

  stop-Ring :
      (server : BeServer) (c fuel : ℕ) (status : ℕ → ℕ)
      → Ring server c
      → stop_fe_connections api status (suc (suc fuel)) server
        ≡ some (
          bit_or 0 (status c),
          record server {
            links = api.list_del c server.links;
            threads = minus (c ∷ []) server.threads;
          },
        )
  unfolding stop_fe_connections
  stop-Ring server c fuel status r = rw (stop_loop-Ring server c fuel r, stop_fe_connections) refl

  member-minus :
      (c : ℕ) (xs : List ℕ)
      → (member c (minus (c ∷ []) xs) ≡ false)
        × ((b : ℕ) → b ≢ c → member b (minus (c ∷ []) xs) ≡ member b xs)
  member-minus c [] = (refl, λ b n. refl)
  member-minus c (x ∷ xs) =
      let (gone, kept) = member-minus c xs in (ground arith, λ b n. ground (arith, kept b n))

  others_left :
      (earlier : BeServer) (c : ℕ) (bs : List ℕ)
      → All (λ b. member b earlier.threads ≡ true) bs
      → All
          (λ b.
            b ≢ c
            → member b (minus (c ∷ []) (establish_be_fe_connection api earlier c).threads) ≡ true)
          bs
  unfolding establish_be_fe_connection
  others_left earlier c [] a = tt
  others_left earlier c (b ∷ bs) a = (
    λ n. (member-minus c (c ∷ earlier.threads)).1 b n ∙ ground (arith, a.0),
    others_left earlier c bs a.1,
  )

  -- What `stop_fe_connections` has done: the result is that of the last connection's thread, which has
  -- stopped; the threads of the other connections run on.
  pub record StoppedLast (before : List ℕ) (c : ℕ) (status : ℕ → ℕ) (result : Option (ℕ × BeServer))
      : Type 0 where
    pub after : BeServer
    pub done : result ≡ some (bit_or 0 (status c), after)
    pub last_stopped : member c after.threads ≡ false
    pub others_run : All (λ b. b ≢ c → member b after.threads ≡ true) before

  -- However many connections have been established, and whatever the list was before, `stop_fe_connections`
  -- ends after one round (fuel 2 is enough), having stopped the thread of the last connection alone.
  -- The last connection is a node of its own, apart from the list's head and not at NULL.
  pub stop_only_last :
      (server : BeServer) (before : List ℕ) (c fuel : ℕ) (status : ℕ → ℕ)
      → IsConn server c
      → StoppedLast before c status (
          stop_fe_connections api status
            (suc (suc fuel))
            (establish_all api server (before ++ (c ∷ []))))
  stop_only_last server before c fuel status v =
      let earlier = establish_all api server before in
      let (same_head, _) = establish_all_keeps server before c in
      let last = establish_be_fe_connection api earlier c in
      let left = member-minus c last.threads in
      record {
        after = record last {
          links = api.list_del c last.links;
          threads = minus (c ∷ []) last.threads;
        };
        done =
            rw (establish_all-append server before c)
              (stop-Ring last c fuel status (establish-Ring earlier c (rw same_head v)));
        last_stopped = left.0;
        others_run = others_left earlier c before (establish_all_runs server before);
      }

  stop_loop_null : (fuel head : ℕ) (l : Links) → head ≢ 0 → stop_loop api (suc fuel) head l 0 ≡ none
  unfolding stop_loop
  stop_loop_null fuel head l n = ground (arith, n)

  -- The head of a list that was never initialised points to NULL.
  pub stop_uninitialised :
      (status : ℕ → ℕ) (fuel : ℕ) (server : BeServer)
      → server.links.next server.fe_connections_list ≡ 0
      → server.fe_connections_list ≢ 0
      → stop_fe_connections api status (suc fuel) server ≡ none
  unfolding stop_fe_connections
  stop_uninitialised status fuel server e n =
      rw (e, stop_loop_null fuel server.fe_connections_list server.links n, stop_fe_connections)
        refl
