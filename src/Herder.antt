-- ===== src/Herder.antt =====
-- frontend/tcpha_fe_client_connection.h and frontend/tcpha_fe_client_connection.c: the connections
-- with clients, and the herders, one to a processor, whose pools they are in.
-- A connection is its address, and the memory of the connections is a part of the state, with a mark on
-- what is allocated; the `events` of a connection stand in the memory of the eventpoll. A pool is the
-- list of its entries, the last one added first. A write lock that is taken again by the thread that
-- holds it is never had: the outcome `deadlock`. A read through NULL is the outcome `fault`.
pub mod Pool
pub mod Balance
pub mod Lifecycle
pub mod Run
pub mod Drain
pub mod Starve
pub mod Stop
mod Examples
use tcphandoff.Common.{
  ℕ, zero, suc, ◌+◌, ◌-◌, ◌*◌, ◌/◌, ◌%◌, ◌^◌, ◌≤◌, ◌<◌, min, bit_and, bit_or, ◌≡◌, refl, sym, ap,
  ◌∙◌, subst, fun_ext, ◌≢◌, ◌↔◌, ◌⊎◌, inl, inr, Bool, true, false, not, ◌&&◌, ◌||◌, Option, none,
  some, List, [], ◌∷◌, ◌++◌, map, append-nil, append_assoc, arith, dec_lt, ℕ_discrete, ltb, leb,
  ◌==◌, if◌then◌else◌, ltb→lt, lt→ltb, leb→le, ==_iff, tests, Bool-cases, Option-cases, length,
  get_or, take, drop, replicate, All, length-append, length-take, take-append-drop, length-drop,
  length-replicate, take-append, get_or-append, get_or-take, All-append, member, u32_mod,
  char_to_int, is_negative, Outcome, done, deadlock, fault, ◌>>=◌,
}
use tcphandoff.Http.{HttpRequest}
use tcphandoff.Sock.{Sock}
use tcphandoff.Poll.Tree.{leaf, node, RbTree, without}
use tcphandoff.Poll.{
  Eventpoll, Errno, success, update, pollin, tcp_epoll_insert, tcp_epoll_remove, tcp_epoll_wait,
}

-- MAX_INT as the header defines it.
abbrev pub max_int : ℕ
max_int = 0x7ffffff

abbrev pub max_events : ℕ
max_events = 1024

-- `struct tcpha_fe_conn`
pub record FeConn : Type 0 where
  pub csock : Option Sock
  pub request : HttpRequest
  pub alive : ℕ

pub record ConnMemory : Type 0 where
  pub conn : ℕ → FeConn
  pub allocated : ℕ → Bool

-- `struct tcpha_fe_herder`; `pool_locked` says that `pool_lock` is held for writing, and `running`
-- that the herder's task is. `thread_ends` says whether the task comes to its end once `kthread_stop` has
-- raised its flag, which the order of its steps decides (`Herder.Stop`).
pub record Herder : Type 0 where
  pub conn_pool : List ℕ
  pub pool_locked : Bool
  pub pool_size : ℕ
  pub cpu : ℕ
  pub eventpoll : Eventpoll
  pub running : Bool
  pub thread_ends : Bool

-- a < b, of two `int`s.
abbrev pub int_lt : ℕ → ℕ → Bool
int_lt a b = ltb ((a + 2 ^ 31) % u32_mod) ((b + 2 ^ 31) % u32_mod)

-- The loop that looks for the least loaded pool: `i` is the position of the first herder of the
-- list, and the result the position of the herder chosen.
pub search_least : ℕ → Option ℕ → ℕ → List Herder → Option ℕ
search_least min_pool_size least i [] = least
search_least min_pool_size least i (h ∷ hs) =
    let less = int_lt h.pool_size min_pool_size in
    search_least (if less then h.pool_size else min_pool_size) (if less then some i else least)
      (i + 1) hs

-- The herder at a position, changed.
abbrev pub modify_at : ℕ → (Herder → Herder) → List Herder → List Herder
modify_at i f [] = []
modify_at zero f (h ∷ hs) = f h ∷ hs
modify_at (suc i) f (h ∷ hs) = h ∷ modify_at i f hs

-- The connection as `tcpha_fe_conn_create` sets it up, in memory that held `old` before and is not
-- cleared.
abbrev pub setup_conn : FeConn → Sock → FeConn
setup_conn old sock = record old {
  csock = some sock;
  request = record (old.request) { hdr = none };
  alive = 2;
}

-- The connection is added to the pool, and then to the eventpoll, whose answer is ignored. `item`,
-- `cachep` and `polled` are what the eventpoll gets from the kernel.
unfoldable pub add_connection : RbTree → ℕ → Sock → Bool → Option ℕ → ℕ → Herder → Herder
add_connection rb c sock cachep item polled h = record h {
  conn_pool = c ∷ h.conn_pool;
  pool_size = (h.pool_size + 1) % u32_mod;
  eventpoll = (tcp_epoll_insert rb h.eventpoll c sock pollin cachep item polled).0;
}

-- `c` is the memory that the cache returns. The result is 0 whenever there is one.
pub tcpha_fe_conn_create :
    RbTree
    → ConnMemory
    → List Herder
    → ℕ
    → Sock
    → Bool
    → Option ℕ
    → ℕ
    → Outcome (ConnMemory × List Herder)
unfolding search_least add_connection
tcpha_fe_conn_create rb mem herders c sock cachep item polled =
    let set_up = record mem {
      conn = update mem.conn c (setup_conn (mem.conn c) sock);
      allocated = update mem.allocated c true;
    } in
    elim (search_least max_int none 0 herders) [
      | none ↦ fault
      | some i ↦ done (set_up, modify_at i (add_connection rb c sock cachep item polled) herders)
    ]

pub write_lock : Herder → Outcome Herder
write_lock h = if h.pool_locked then deadlock else done (record h { pool_locked = true })

abbrev pub write_unlock : Herder → Herder
write_unlock h = record h { pool_locked = false }

-- `tcp_epoll_remove` reads the socket where there is an item to compare it with, so it must be there.
remove_from_eventpoll : RbTree → FeConn → Herder → Outcome Herder
remove_from_eventpoll rb conn h = elim conn.csock [
  | none ↦ elim (h.eventpoll.hash_root) [ leaf ↦ done h | node l x r ↦ fault ]
  | some sock ↦ done (record h { eventpoll = tcp_epoll_remove rb h.eventpoll sock })
]

-- The memory once the socket and the header have been released and the connection freed.
free_conn : ConnMemory → ℕ → ConnMemory
free_conn mem c =
    let conn = mem.conn c in
    let closed = record conn { csock = none; request = record conn.request { bodylen = 0 } } in
    record mem { conn = update mem.conn c closed; allocated = update mem.allocated c false }

pub tcpha_fe_conn_destroy : RbTree → ConnMemory → Herder → ℕ → Outcome (ConnMemory × Herder)
unfolding write_lock remove_from_eventpoll free_conn
tcpha_fe_conn_destroy rb mem h c = do
  removed ← remove_from_eventpoll rb (mem.conn c) h
  locked ← write_lock removed
  let unlinked = write_unlock (record locked { conn_pool = without c locked.conn_pool })
  done (free_conn mem c, unlinked)
