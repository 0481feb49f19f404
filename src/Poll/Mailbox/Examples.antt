-- ===== src/Poll/Mailbox/Examples.antt =====
-- Two sockets and their mailboxes.
use tcphandoff.Common.{◌≡◌, refl, false, List, [], ◌∷◌, arith}
use tcphandoff.Sock.{tcp_cmp_sock}
use tcphandoff.Poll.Tree.{tcp_ep_hash_insert}
use tcphandoff.Poll.{tcp_epoll_init, tcp_epoll_insert, pollin}
use tcphandoff.Poll.Examples.{plain, low}
use tcphandoff.Poll.System.Examples.{cleared, two, made-two}
use tcphandoff.Poll.Mailbox.{Op, wakes, waits, run, deliver, box_of, run_refines_mailbox}

abbrev ops : List Op
ops = wakes 1 pollin false ∷ wakes 2 pollin false ∷ waits ∷ wakes 2 pollin false ∷ waits ∷ []

run_refines_mailbox_example :
    run 1024 1 ops two ≡ deliver ((two.item 1).event_flags) 1 ops (box_of two 1)
unfolding tcp_epoll_init tcp_epoll_insert tcp_ep_hash_insert tcp_cmp_sock
run_refines_mailbox_example =
    run_refines_mailbox 0 low plain cleared two 1024 1 ops refl made-two refl (omega arith)
      (refl, (refl, (tt, (refl, (tt, tt)))))
