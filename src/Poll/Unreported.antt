-- ===== src/Poll/Unreported.antt =====
-- A socket that is ready before it is watched.
use tcphandoff.Common.{
  ℕ, ◌≤◌, ◌<◌, bit_and, ◌≡◌, ◌∙◌, subst, ◌≢◌, true, false, some, map, length, u32_mod,
}
use tcphandoff.Sock.{Sock}
use tcphandoff.Sock.Order.{IsNear}
use tcphandoff.Poll.Tree.{RbTree}
use tcphandoff.Poll.{
  Eventpoll, success, watch_flags, tcp_epoll_insert, tcp_epoll_wait, sleep_if_empty,
}
use tcphandoff.Poll.Ready.{Distinct}
use tcphandoff.Poll.Lifetime.{IsSound}
use tcphandoff.Poll.Insert.{tcp_epoll_insert-Fresh, tcp_epoll_insert-IsSound}
use tcphandoff.Poll.Wait.{conn_of, wait_reported}

module _ (base : ℕ) (b : base < u32_mod) (rb : RbTree) (ep : Eventpoll)
    (s : IsSound base b ep) where
  -- Where the socket of a connection has events of interest when `tcp_epoll_insert` puts its item
  -- into a sound eventpoll, and the next `tcp_epoll_wait` has room for the whole ready list, that call does not
  -- sleep, and the events that it reports to the connection are 0: what was there is not reported.
  -- The item is not yet allocated, and the connections on the ready list are distinct.
  pub ready_before_insert_unreported :
      (x conn : ℕ) (sock : Sock) (flags polled maxevents : ℕ) (asleep : Eventpoll → Eventpoll)
      → ep.allocated x ≡ false
      → IsNear base sock
      → let (after, err) = tcp_epoll_insert rb ep conn sock flags true (some x) polled in
        err ≡ success
        → bit_and (watch_flags flags) polled ≢ 0
        → Distinct (map (conn_of after) after.ready_list)
        → length after.ready_list ≤ maxevents
        → (sleep_if_empty after asleep ≡ after)
          × ((tcp_epoll_wait after maxevents asleep).1.conn_events conn ≡ 0)
  ready_before_insert_unreported x conn sock flags polled maxevents asleep f v q nz c fits =
      let after = (tcp_epoll_insert rb ep conn sock flags true (some x) polled).0 in
      let n = tcp_epoll_insert-Fresh base b rb ep s x conn sock flags polled f v q in
      let d = (tcp_epoll_insert-IsSound base b rb ep s x conn sock flags polled f v q).distinct in
      let (stays, r) = wait_reported after x maxevents asleep (n.ready nz) d c fits in
      (
        stays,
        subst (λ k. (tcp_epoll_wait after maxevents asleep).1.conn_events k ≡ 0) n.own_conn
            (r ∙ n.quiet),
      )
