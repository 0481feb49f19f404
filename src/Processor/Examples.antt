-- ===== src/Processor/Examples.antt =====
-- The theorems about the work on a connection at concrete ones.
use tcphandoff.Common.{
  ℕ, ◌-◌, ◌≡◌, refl, ap, true, false, none, some, List, [], ◌∷◌, ◌++◌, arith, ◌==◌, length,
  replicate, length-append, length-replicate, done, got, failed,
}
use tcphandoff.Http.{HttpRequest, Status, hdr_read_error, http_header_alloc, max_header_size}
use tcphandoff.Sock.{Sock}
use tcphandoff.Poll.Tree.{Tree, leaf, node, inorder, without, RbTree}
use tcphandoff.Herder.{Herder, ConnMemory, FeConn, setup_conn}
use tcphandoff.Processor.Buffer.{live}
use tcphandoff.Processor.Reads.{process_reads, process_reads_cut}
use tcphandoff.Processor.Work.{Work}
use tcphandoff.Http.{found, header_end}
use tcphandoff.Http.HeaderEnd.{header_end_iff}
use tcphandoff.Http.Request.{line, uri_hash}
use tcphandoff.Processor.Routed.{pieces_found}

-- "GET / \r\n\r\n", in two reads.
abbrev first_half : List ℕ
first_half = 71 ∷ 69 ∷ 84 ∷ 32 ∷ []

abbrev second_half : List ℕ
second_half = 47 ∷ 32 ∷ 13 ∷ 10 ∷ 13 ∷ 10 ∷ []

-- What a request is after the first half.
abbrev half_read : HttpRequest
half_read = record {
  hdr = some (record http_header_alloc { buffer = first_half ++ replicate (4096 - 4) 0 });
  hdrlen = 4;
  body = none;
  bodylen = 0;
}

half_read-length : length (first_half ++ replicate (4096 - 4) 0) ≡ max_header_size
half_read-length = omega (
  arith,
  length-append first_half (replicate (4096 - 4) 0),
  length-replicate {A = ℕ} (4096 - 4) 0,
)

-- Before the first read; the length is what the memory held before.
abbrev unread : HttpRequest
unread = record { hdr = none; hdrlen = 77; body = none; bodylen = 0 }

abbrev unused : FeConn
unused = record { csock = none; request = unread; alive = 0 }

-- In one read, or in two with an error between them.
process_reads_cut_example :
    (r1 r2 : HttpRequest) × (last : Status) × (process_reads unread hdr_read_error
        (got (first_half ++ second_half) ∷ [])
      ≡ done (r1, last))
    × (process_reads unread hdr_read_error (got first_half ∷ failed 11 ∷ got second_half ∷ [])
        ≡ done (r2, last))
    × (live r1 ≡ first_half ++ second_half)
    × (live r2 ≡ live r1)
process_reads_cut_example =
    process_reads_cut unread hdr_read_error (got (first_half ++ second_half)) (got first_half) []
      (failed 11 ∷ got second_half ∷ []) tt refl (omega arith)

abbrev line_of : List ℕ → Tree
line_of [] = leaf
line_of (x ∷ xs) = node leaf x (line_of xs)

inorder-line_of : (xs : List ℕ) → inorder (line_of xs) ≡ xs
inorder-line_of [] = refl
inorder-line_of (x ∷ xs) = ap (◌∷◌ x) (inorder-line_of xs)

abbrev erasing : RbTree
erasing = record {
  rb_insert_color = λ x t. t;
  rb_erase = λ x t. line_of (without x (inorder t));
  inorder-insert_color = λ x t. refl;
  inorder-erase = λ x t. inorder-line_of (without x (inorder t));
}

abbrev caller : Sock
caller = record { daddr = 0x0a00_0001; dport = 80 }

abbrev called : Herder
called = record {
  conn_pool = 101 ∷ [];
  pool_locked = false;
  pool_size = 1;
  cpu = 0;
  eventpoll = record {
    ready_list = [];
    hash_root = node leaf 1 leaf;
    should_wake = false;
    item =
        λ p. record { sock = caller; event_flags = 0x2019; events = 0; whead = true; conn = 101 };
    allocated = λ p. p == 1;
    waiting = 1 ∷ [];
    conn_events = λ c. 0;
  };
  running = true;
  thread_ends = true;
}

abbrev calls : ConnMemory
calls = record { conn = λ c. setup_conn unused caller; allocated = λ c. c == 101 }

abbrev hung_up : Work
hung_up = record { conn = 101; herder = 7; events = 0x2000; header = none; received = failed 11 }

-- "GET / " and two line ends in two pieces, with nothing to read between them.
pieces_found_example :
    (r' : HttpRequest) × (process_reads unread hdr_read_error
        (got first_half ∷ failed 11 ∷ got second_half ∷ [])
      ≡ done (r', found (uri_hash (47 ∷ []))))
    × (live r' ≡ line (71 ∷ 69 ∷ 84 ∷ []) (47 ∷ []) (13 ∷ 10 ∷ 13 ∷ 10 ∷ []))
unfolding header_end
pieces_found_example =
    pieces_found unread hdr_read_error (got first_half) (failed 11 ∷ got second_half ∷ [])
      (71 ∷ 69 ∷ 84 ∷ []) (47 ∷ []) (13 ∷ 10 ∷ 13 ∷ 10 ∷ []) tt refl refl refl (omega arith)
      (omega arith) (omega arith) ((header_end_iff (13 ∷ 10 ∷ 13 ∷ 10 ∷ [])).0 refl)
