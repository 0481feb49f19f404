-- ===== src/Herder/Examples.antt =====
-- The theorems about the herders at concrete ones.
use tcphandoff.Common.{
  ℕ, ◌+◌, ◌-◌, ◌≡◌, refl, ap, ◌⊎◌, true, false, ◌||◌, none, some, List, [], ◌∷◌, map, ◌==◌, All,
  done, deadlock, fault,
}
use tcphandoff.Sock.{Sock}
use tcphandoff.Poll.Tree.{Tree, leaf, node, inorder, without, RbTree}
use tcphandoff.Poll.{Eventpoll, Item, update, enomem, success}
use tcphandoff.Herder.{Herder, ConnMemory, FeConn, setup_conn, add_connection}
use tcphandoff.Common.{null, live, ◌↔◌}
use tcphandoff.Herder.Lifecycle.{
  Caches, HerderList, Cpu, destroy_connections, init_connections, drop_caches,
}
use tcphandoff.Herder.Lifecycle.Teardown.{IsIdle, IsReady, destroy_connections_cases}
use tcphandoff.Herder.Lifecycle.Start.{
  EndsOn, Ends, IsStuck, IsFresh, used_caches, dropped_caches, init_connections_cases,
}

-- A tree function of the documented effect, without its balance.
abbrev chain : List ℕ → Tree
chain [] = leaf
chain (x ∷ xs) = node leaf x (chain xs)

inorder-chain : (xs : List ℕ) → inorder (chain xs) ≡ xs
inorder-chain [] = refl
inorder-chain (x ∷ xs) = ap (◌∷◌ x) (inorder-chain xs)

abbrev unbalanced : RbTree
unbalanced = record {
  rb_insert_color = λ x t. t;
  rb_erase = λ x t. chain (without x (inorder t));
  inorder-insert_color = λ x t. refl;
  inorder-erase = λ x t. inorder-chain (without x (inorder t));
}

-- Client 10.0.0.c, at connection 100 + c and item `c`.
abbrev client : ℕ → Sock
client c = record { daddr = 0x0a00_0000 + c; dport = 80 }

abbrev item_of : ℕ → Item
item_of c = record {
  sock = client c;
  event_flags = 0x2019;
  events = c;
  whead = true;
  conn = 100 + c;
}

-- Memory that has not been used.
abbrev blank : FeConn
blank = record {
  csock = none;
  request = record { hdr = none; hdrlen = 0; body = none; bodylen = 0 };
  alive = 0;
}

-- Clients 1 and 2 are connected.
abbrev mem2 : ConnMemory
mem2 = record {
  conn = λ a. setup_conn blank (client (a - 100));
  allocated = λ a. a == 101 || a == 102;
}

abbrev quiet : Eventpoll
quiet = record {
  ready_list = [];
  hash_root = leaf;
  should_wake = false;
  item = item_of;
  allocated = λ p. false;
  waiting = [];
  conn_events = λ c. 0;
}

abbrev polled_two : Eventpoll
polled_two = record quiet {
  ready_list = 2 ∷ 1 ∷ [];
  hash_root = node leaf 2 (node leaf 1 leaf);
  allocated = λ p. p == 1 || p == 2;
  waiting = 2 ∷ 1 ∷ [];
}

-- The pool of processor 0 has both connections, those of processors 1 and 2 have none.
abbrev full : Herder
full = record {
  conn_pool = 102 ∷ 101 ∷ [];
  pool_locked = false;
  pool_size = 2;
  cpu = 0;
  eventpoll = polled_two;
  running = true;
  thread_ends = true;
}

abbrev empty : ℕ → Herder
empty cpu = record {
  conn_pool = [];
  pool_locked = false;
  pool_size = 0;
  cpu = cpu;
  eventpoll = quiet;
  running = true;
  thread_ends = true;
}

abbrev one : Herder
one = record full { conn_pool = 101 ∷ []; pool_size = 1 }

-- The herders once the connection has been made.
abbrev grown_two : List Herder
grown_two = one ∷ add_connection unbalanced 103 (client 3) true (some 3) 0 (empty 1) ∷ []

abbrev grown_mem : ConnMemory
grown_mem = record {
  conn = update mem2.conn 103 (setup_conn (mem2.conn 103) (client 3));
  allocated = update mem2.allocated 103 true;
}

full-IsReady : IsReady mem2 full
full-IsReady = record { unlocked = refl; sockets = ((client 2, refl), ((client 1, refl), tt)) }

empty-IsReady : (cpu : ℕ) → IsReady mem2 (empty cpu)
empty-IsReady cpu = record { unlocked = refl; sockets = tt }

abbrev caches : Caches
caches = record { mem_cache_use = 1; conn_cache = live; work_cache = live }

destroy_connections_cases_example :
    (All IsIdle (empty 1 ∷ full ∷ [])
      × (destroy_connections unbalanced mem2 caches (empty 1 ∷ full ∷ [])
          ≡ done (mem2, drop_caches caches)))
    ⊎ (¬ All IsIdle (empty 1 ∷ full ∷ [])
        × ((destroy_connections unbalanced mem2 caches (empty 1 ∷ full ∷ []) ≡ deadlock)
            ⊎ (destroy_connections unbalanced mem2 caches (empty 1 ∷ full ∷ []) ≡ fault)))
destroy_connections_cases_example =
    destroy_connections_cases unbalanced mem2 caches (empty 1 ∷ full ∷ [])
      (empty-IsReady 1, (full-IsReady, tt))

abbrev cpu_of : ℕ → Cpu
cpu_of n = record {
  number = n;
  memory = quiet;
  has_memory = true;
  has_thread = true;
  thread_ends = true;
}

-- The module is loaded: no cache is there, and the list has not been set up.
abbrev unused : Caches
unused = record { mem_cache_use = 0; conn_cache = null; work_cache = null }

abbrev list : HerderList
list = record { herders = []; list_locked = false }

init_connections_cases_example :
    ((hs : List Herder) × (init_connections unbalanced mem2 unused list true true
          (cpu_of 0 ∷ cpu_of 1 ∷ [])
        ≡ done (
          mem2,
          used_caches unbalanced mem2 unused list true true,
          record { herders = hs; list_locked = false },
          success,
        ))
      × (map (λ (h : Herder). h.cpu) hs ≡ 1 ∷ 0 ∷ [])
      × All (IsFresh mem2) hs
      × (All EndsOn (cpu_of 0 ∷ cpu_of 1 ∷ []) ↔ All Ends hs))
    × ((cpu : Cpu)
        → (cpu.has_memory ≡ false
            → let result =
                init_connections unbalanced mem2 unused list true true
                  (cpu_of 0 ∷ cpu_of 1 ∷ cpu ∷ []) in
              (All EndsOn (cpu_of 0 ∷ cpu_of 1 ∷ [])
                → result
                  ≡ done (
                    mem2,
                    dropped_caches unbalanced mem2 unused list true true,
                    record { herders = []; list_locked = true },
                    enomem,
                  ))
              × (¬ All EndsOn (cpu_of 0 ∷ cpu_of 1 ∷ []) → IsStuck mem2 result))
          × (cpu.has_memory ≡ true
              → cpu.has_thread ≡ false
              → init_connections unbalanced mem2 unused list true true
                  (cpu_of 0 ∷ cpu_of 1 ∷ cpu ∷ [])
                ≡ fault))
init_connections_cases_example =
    init_connections_cases unbalanced mem2 unused list true true (cpu_of 0 ∷ cpu_of 1 ∷ []) [] refl
      refl ((refl, refl), ((refl, refl), tt))
