-- ===== src/Backend/Server.antt =====
-- backend/tcpha_be.h and backend/tcpha_be_fe_connection.c: the list of the backend's connections to
-- front ends, `establish_be_fe_connection` and `stop_fe_connections`.
-- The list is the kernel's `struct list_head`: the memory of the two pointers of each node is a part
-- of the state, a node is its address, and the kernel's `list_add` and `list_del` are parameters,
-- `ListHead`, with their documented effect on the pointers. A connection is the address of its node.
pub mod Stop
pub mod Ring
use tcphandoff.Common.{
  ℕ, zero, suc, ◌+◌, ◌-◌, ◌*◌, ◌/◌, ◌%◌, ◌^◌, ◌≤◌, ◌<◌, min, bit_and, bit_or, ◌≡◌, refl, sym, ap,
  ◌∙◌, subst, fun_ext, ◌≢◌, ◌↔◌, ◌⊎◌, inl, inr, Bool, true, false, not, ◌&&◌, ◌||◌, Option, none,
  some, List, [], ◌∷◌, ◌++◌, map, append-nil, append_assoc, arith, dec_lt, ℕ_discrete, ltb, leb,
  ◌==◌, if◌then◌else◌, ltb→lt, lt→ltb, leb→le, ==_iff, tests, Bool-cases, Option-cases, length,
  get_or, take, drop, replicate, All, length-append, length-take, take-append-drop, length-drop,
  length-replicate, take-append, get_or-append, get_or-take, All-append, member, u32_mod,
  char_to_int, is_negative,
}

-- The pointers of all nodes.
pub record Links : Type 0 where
  pub next : ℕ → ℕ
  pub prev : ℕ → ℕ

abbrev pub update : (ℕ → ℕ) → ℕ → ℕ → ℕ → ℕ
update f p v q = if p == q then v else f q

-- `INIT_LIST_HEAD`: a node that is a list by itself.
abbrev pub init_list_head : ℕ → Links → Links
init_list_head x l = record { next = update l.next x x; prev = update l.prev x x }

-- `list_add(new, head)` inserts `new` between `head` and the node after it; `list_del(entry)` makes the
-- neighbours of `entry` point to one another.
pub record ListHead : Type 0 where
  pub list_add : ℕ → ℕ → Links → Links
  pub list_del : ℕ → Links → Links
  pub next-list_add :
      (new head : ℕ) (l : Links)
      → new ≢ head
      → (list_add new head l).next ≡ update (update l.next new (l.next head)) head new
  pub next-list_del :
      (entry : ℕ) (l : Links) (x : ℕ)
      → x ≢ entry
      → (list_del entry l).next x ≡ update l.next (l.prev entry) (l.next entry) x
  pub prev-list_del :
      (entry : ℕ) (l : Links) (x : ℕ)
      → x ≢ entry
      → (list_del entry l).prev x ≡ update l.prev (l.next entry) (l.prev entry) x

-- `struct tcpha_be_server`: what these operations read and write. `fe_connections_list` is the
-- address of the list's head; `threads` are the connections whose thread runs.
pub record BeServer : Type 0 where
  pub fe_connections_list : ℕ
  pub num_fe_connections : ℕ
  pub links : Links
  pub threads : List ℕ

-- errs |= status(c), for each connection in turn.
abbrev pub or_all : ℕ → (ℕ → ℕ) → List ℕ → ℕ
or_all errs status [] = errs
or_all errs status (c ∷ cs) = or_all (bit_or errs (status c)) status cs

-- The entries of the second list that are not in the first.
abbrev pub minus : List ℕ → List ℕ → List ℕ
minus cs [] = []
minus cs (x ∷ xs) = if member x cs then minus cs xs else x ∷ minus cs xs

module _ (api : ListHead) where
  -- `conn` is the memory that `be_fe_conn_init` allocates. The arguments of `list_add` are in the
  -- order of the source.
  pub establish_be_fe_connection : BeServer → ℕ → BeServer
  establish_be_fe_connection server conn =
      let ready = init_list_head conn server.links in
      record server {
        num_fe_connections = (server.num_fe_connections + 1) % u32_mod;
        links = api.list_add server.fe_connections_list conn ready;
        threads = conn ∷ server.threads;
      }

  pub establish_all : BeServer → List ℕ → BeServer
  unfolding establish_be_fe_connection
  establish_all server [] = server
  establish_all server (c ∷ cs) = establish_all (establish_be_fe_connection server c) cs

  -- The loop of `stop_fe_connections` at node `pos`: the connections whose threads it stops, in order, and the
  -- pointers that it leaves; `none` where it reads through NULL or the fuel runs out.
  pub stop_loop : ℕ → ℕ → Links → ℕ → Option (List ℕ × Links)
  stop_loop zero head l pos = none
  stop_loop (suc fuel) head l pos =
      let rest = stop_loop fuel head (api.list_del pos l) (l.next pos) in
      if pos == head
      then some ([], l)
      else (if pos == 0
          then none
          else elim rest [ none ↦ none | some (cs, l') ↦ some (pos ∷ cs, l') ])

  -- `status` is what `kthread_stop` returns for a connection's thread.
  pub stop_fe_connections : (ℕ → ℕ) → ℕ → BeServer → Option (ℕ × BeServer)
  unfolding stop_loop
  stop_fe_connections status fuel server =
      let head = server.fe_connections_list in
      elim (stop_loop fuel head server.links (server.links.next head)) [
        | none ↦ none
        | some (cs, l) ↦
            some
              (or_all 0 status cs, record server { links = l; threads = minus cs server.threads })
      ]
