-- ===== src/Pipeline/Examples.antt =====
-- A client's first bytes.
use tcphandoff.Common.{ℕ, ◌≡◌, refl, true, none, some, List, [], ◌∷◌, arith, ◌==◌, done, got}
use tcphandoff.Sock.{tcp_cmp_sock}
use tcphandoff.Http.{http_header_alloc}
use tcphandoff.Poll.{pollin, tcp_epoll_init, tcp_epoll_insert, tcp_epoll_wakeup}
use tcphandoff.Poll.Tree.{tcp_ep_hash_insert}
use tcphandoff.Poll.Examples.{plain, peer, low}
use tcphandoff.Poll.System.Examples.{cleared, two, made-two}
use tcphandoff.Herder.{ConnMemory}
use tcphandoff.Herder.Run.{EventProcess, herder_round}
use tcphandoff.Processor.{process_connection}
use tcphandoff.Processor.Buffer.{live}
use tcphandoff.Server.Examples.{herder_at}
use tcphandoff.Pipeline.{Among, sent_bytes_read}

-- Connection 101 is that of the first peer.
abbrev open_conns : ConnMemory
open_conns = record {
  conn = λ c. record {
    csock = some (peer 1);
    request = record { hdr = none; hdrlen = 0; body = none; bodylen = 0 };
    alive = 2;
  };
  allocated = λ c. c == 101;
}

-- "GET"
abbrev first_bytes : List ℕ
first_bytes = 71 ∷ 69 ∷ 84 ∷ []

sent_bytes_read_example :
    (work : EventProcess) × (mem' : ConnMemory) × Among work
      (herder_round (tcp_epoll_wakeup two 1 pollin true) (λ e. e)).0
    × (work.conn ≡ 101)
    × (process_connection plain
          (some http_header_alloc)
          (got first_bytes)
          work.events
          open_conns
          (herder_at 0)
          work.conn
        ≡ done (mem', herder_at 0))
    × (live (mem'.conn 101).request ≡ first_bytes)
unfolding tcp_epoll_init tcp_epoll_insert tcp_ep_hash_insert tcp_cmp_sock tcp_epoll_wakeup
sent_bytes_read_example =
    sent_bytes_read 0 low plain cleared two 1 pollin true (λ e. e) open_conns (herder_at 0) (peer 1)
      (got first_bytes) refl made-two refl (λ e. absurd (omega arith)) refl (omega arith) refl tt
      (omega arith)
