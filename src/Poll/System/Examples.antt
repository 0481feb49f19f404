-- ===== src/Poll/System/Examples.antt =====
-- A run of the operations at work.
use tcphandoff.Common.{◌≡◌, refl, true, false, some, [], arith}
use tcphandoff.Sock.{tcp_cmp_sock}
use tcphandoff.Poll.Tree.{tcp_ep_hash_insert}
use tcphandoff.Poll.{
  Eventpoll, tcp_epoll_init, tcp_epoll_insert, tcp_epoll_remove, tcp_epoll_wakeup, tcp_epoll_wait,
  sleep_if_empty, pollin,
}
use tcphandoff.Poll.Tree.{leaf}
use tcphandoff.Poll.Examples.{plain, peer, low, IsNear-peer}
use tcphandoff.Poll.Tidy.{IsTidy}
use tcphandoff.Poll.System.{
  Reach, here, inserts, removes, wakes, waits, Reach-init-IsTidy, Reach-wakeup_reported,
}

abbrev pub cleared : Eventpoll
cleared = record {
  ready_list = [];
  hash_root = leaf;
  should_wake = false;
  item = λ p. record { sock = peer 0; event_flags = 0; events = 0; whead = false; conn = 0 };
  allocated = λ p. false;
  waiting = [];
  conn_events = λ c. 0;
}

abbrev pub made : Eventpoll
made = (tcp_epoll_init cleared true).0

-- Two peers, inserted one after the other.
abbrev pub one : Eventpoll
one = (tcp_epoll_insert plain made 101 (peer 1) pollin true (some 1) 0).0

abbrev pub two : Eventpoll
two = (tcp_epoll_insert plain one 102 (peer 2) pollin true (some 2) 0).0

made-one : Reach 0 low plain made one
unfolding tcp_epoll_init tcp_epoll_insert tcp_ep_hash_insert
made-one =
    inserts {t = made} 1 101 (peer 1) pollin 0 here refl (IsNear-peer 1 (omega arith)) refl refl

pub made-two : Reach 0 low plain made two
unfolding tcp_epoll_init tcp_epoll_insert tcp_ep_hash_insert tcp_cmp_sock
made-two =
    inserts {t = one} 2 102 (peer 2) pollin 0 made-one refl (IsNear-peer 2 (omega arith)) refl refl

-- The herder sleeps, the first peer sends, and then the second is removed.
abbrev last : Eventpoll
last =
    tcp_epoll_remove plain (tcp_epoll_wait two 1024 (λ e. tcp_epoll_wakeup two 1 pollin true)).1
      (peer 2)

made-last : Reach 0 low plain made last
unfolding tcp_epoll_init tcp_epoll_insert tcp_ep_hash_insert tcp_cmp_sock
made-last =
    removes (peer 2) (
      waits 1024 (λ e. tcp_epoll_wakeup two 1 pollin true) made-two (wakes 1 pollin true here refl))

Reach-init-IsTidy_example : IsTidy 0 low last
Reach-init-IsTidy_example = Reach-init-IsTidy 0 low plain cleared last refl made-last

Reach-wakeup_reported_example :
    let woken = tcp_epoll_wakeup two 1 pollin true in
    (sleep_if_empty woken (λ e. e) ≡ woken)
    × ((tcp_epoll_wait woken 1024 (λ e. e)).1.conn_events 101 ≡ 1)
unfolding tcp_epoll_init tcp_epoll_insert tcp_ep_hash_insert tcp_cmp_sock tcp_epoll_wakeup
Reach-wakeup_reported_example =
    Reach-wakeup_reported 0 low plain cleared two 1 pollin true 1024 (λ e. e) refl made-two refl
      (omega arith) (omega arith)
