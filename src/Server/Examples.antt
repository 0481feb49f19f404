-- ===== src/Server/Examples.antt =====
-- The theorems about the accepting thread at a concrete server.
use tcphandoff.Common.{
  ℕ, ◌+◌, ◌-◌, ◌≡◌, refl, ap, ◌⊎◌, inl, true, false, Option, none, some, List, [], ◌∷◌, arith,
  u32_mod, is_negative, done,
}
use tcphandoff.Sock.{Sock}
use tcphandoff.Poll.Tree.{Tree, leaf, node, inorder, without, RbTree}
use tcphandoff.Herder.{Herder, ConnMemory}
use tcphandoff.Server.{Calls, Server, Accepted, accept_loop, tcpha_fe_server_daemon}
use tcphandoff.Common.{null}
use tcphandoff.Herder.Lifecycle.{Caches, HerderList, Cpu}
use mathlib.Mathlib.Data.Multiset.Defs.{of_list}
use tcphandoff.Server.Bag.{bag, accept_loop-bag}
use tcphandoff.Server.Accept.{Shared, accept_loop-Shared, leaked, tcpha_fe_server_daemon_cases}

abbrev pub right_spine : List ℕ → Tree
right_spine [] = leaf
right_spine (x ∷ xs) = node leaf x (right_spine xs)

pub inorder-right_spine : (xs : List ℕ) → inorder (right_spine xs) ≡ xs
inorder-right_spine [] = refl
inorder-right_spine (x ∷ xs) = ap (◌∷◌ x) (inorder-right_spine xs)

abbrev pub flat : RbTree
flat = record {
  rb_insert_color = λ x t. t;
  rb_erase = λ x t. right_spine (without x (inorder t));
  inorder-insert_color = λ x t. refl;
  inorder-erase = λ x t. inorder-right_spine (without x (inorder t));
}

abbrev pub nobody : Sock
nobody = record { daddr = 0; dport = 0 }

abbrev pub herder_at : ℕ → Herder
herder_at cpu = record {
  conn_pool = [];
  pool_locked = false;
  pool_size = 0;
  cpu = cpu;
  eventpoll = record {
    ready_list = [];
    hash_root = leaf;
    should_wake = false;
    item = λ p. record { sock = nobody; event_flags = 0; events = 0; whead = false; conn = 0 };
    allocated = λ p. false;
    waiting = [];
    conn_events = λ c. 0;
  };
  running = true;
  thread_ends = true;
}

abbrev two_herders : List Herder
two_herders = herder_at 1 ∷ herder_at 0 ∷ []

abbrev pub no_conns : ConnMemory
no_conns = record {
  conn = λ c. record {
    csock = none;
    request = record { hdr = none; hdrlen = 0; body = none; bodylen = 0 };
    alive = 0;
  };
  allocated = λ c. false;
}

abbrev pub guest : ℕ → Accepted
guest n = record {
  sock = record { daddr = 0x0a00_0000 + n; dport = 80 };
  conn = 100 + n;
  cachep = true;
  item = some n;
  polled = 0;
}

-- Three clients, with an error between them.
abbrev pub three : List (Option Accepted)
three = some (guest 1) ∷ none ∷ some (guest 2) ∷ some (guest 3) ∷ []

accept_loop-Shared_example :
    (mem' : ConnMemory) × (hs' : List Herder) × (accept_loop flat no_conns two_herders three
      ≡ done (mem', hs'))
    × Shared 3 two_herders hs'
accept_loop-Shared_example =
    accept_loop-Shared flat three 0 no_conns two_herders (omega arith)
      (omega arith, (omega arith, tt)) (inl refl, (inl refl, tt))

-- The port is in use: EADDRINUSE.
abbrev port_taken : Calls
port_taken = record { sock = 5; create_error = 0; bind_error = u32_mod - 98; listen_error = 0 }

abbrev pub fresh_server : Server
fresh_server = record { mainsock = none; running = false; open_socks = [] }

tcpha_fe_server_daemon_cases_example :
    (is_negative port_taken.create_error ≡ true
      → tcpha_fe_server_daemon flat port_taken three fresh_server no_conns two_herders
        ≡ done (fresh_server, (no_conns, two_herders), u32_mod - 1))
    × (port_taken.create_error ≡ 0
        → (is_negative port_taken.bind_error ≡ true)
          ⊎ ((is_negative port_taken.bind_error ≡ false)
              × (is_negative port_taken.listen_error ≡ true))
        → tcpha_fe_server_daemon flat port_taken three fresh_server no_conns two_herders
          ≡ done (leaked port_taken fresh_server, (no_conns, two_herders), u32_mod - 1))
    × (port_taken.create_error ≡ 0
        → is_negative port_taken.bind_error ≡ false
        → port_taken.listen_error ≡ 0
        → (left : ConnMemory × List Herder)
        → accept_loop flat no_conns two_herders three ≡ done left
        → tcpha_fe_server_daemon flat port_taken three fresh_server no_conns two_herders
          ≡ done (record { mainsock = some 5; running = false; open_socks = [] }, left, 0))
tcpha_fe_server_daemon_cases_example =
    tcpha_fe_server_daemon_cases port_taken fresh_server flat three no_conns two_herders

-- The front end is loaded on two processors, and serves the three clients.
abbrev pub processor : ℕ → Cpu
processor n = record {
  number = n;
  memory = (herder_at n).eventpoll;
  has_memory = true;
  has_thread = true;
  thread_ends = true;
}

abbrev pub no_caches : Caches
no_caches = record { mem_cache_use = 0; conn_cache = null; work_cache = null }

abbrev pub empty_list : HerderList
empty_list = record { herders = []; list_locked = false }

accept_loop-bag_example :
    (mem' : ConnMemory) × (hs' : List Herder) × (accept_loop flat no_conns two_herders three
      ≡ done (mem', hs'))
    × (bag hs' ≡ of_list (103 ∷ 102 ∷ 101 ∷ []))
accept_loop-bag_example =
    accept_loop-bag flat three no_conns two_herders (omega arith) (omega arith, (omega arith, tt))
