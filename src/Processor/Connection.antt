-- ===== src/Processor/Connection.antt =====
-- Work that says that there is something to read.
use tcphandoff.Common.{
  ℕ, ◌+◌, ◌<◌, bit_and, ◌≡◌, ap, ◌∙◌, ◌≢◌, some, ◌++◌, arith, ◌==◌, if_false, if_false, length,
  Outcome, done, ◌>>=◌, Received,
}
use tcphandoff.Sock.{Sock}
use tcphandoff.Poll.Tree.{RbTree}
use tcphandoff.Http.{HttpRequest, Status, http_header_alloc, max_input_size}
use tcphandoff.Poll.{pollin, pollrdhup, update}
use tcphandoff.Herder.{Herder, ConnMemory, FeConn}
use tcphandoff.Processor.{process_pollin, process_events, process_connection}
use tcphandoff.Processor.Buffer.{live, count, IsRequest}
use tcphandoff.Processor.Pollin.{delivered, process_pollin-Read}

-- The connection once its request has been read into.
abbrev pub read_into : ConnMemory → ℕ → HttpRequest → ConnMemory
read_into mem c r = record mem { conn = update mem.conn c (record (mem.conn c) { request = r }) }

module _ (rb : RbTree) (received : Received) (events : ℕ) where
  events-read :
      (conn : FeConn) (r : HttpRequest) (status : Status)
      → bit_and events pollin ≢ 0
      → process_pollin (some http_header_alloc) conn.request received ≡ done (r, status)
      → process_events (some http_header_alloc) received events conn
        ≡ done (record conn { request = r })
  unfolding process_events
  events-read conn r status n e =
      if_false (bit_and events pollin == 0) (done conn) _ (ground (arith, n))
      ∙ ap (λ (o : Outcome (HttpRequest × Status)). o >>= λ q. done (record conn { request = q.0 }))
          e

  connection-read :
      (mem : ConnMemory) (h : Herder) (c : ℕ) (sock : Sock) (r : HttpRequest) (status : Status)
      → (mem.conn c).csock ≡ some sock
      → bit_and events pollin ≢ 0
      → bit_and events pollrdhup ≡ 0
      → process_pollin (some http_header_alloc) (mem.conn c).request received ≡ done (r, status)
      → process_connection rb (some http_header_alloc) received events mem h c
        ≡ done (read_into mem c r, h)
  unfolding process_connection
  connection-read mem h c sock r status connected n none_up e =
      ground (arith, connected, events-read (mem.conn c) r status n e, none_up)

  read_into-conn :
      (mem : ConnMemory) (c : ℕ) (r : HttpRequest) → ((read_into mem c r).conn c).request ≡ r
  read_into-conn mem c r = ground arith

  -- Work that says that there is something to read, and not that the peer has hung up, appends what the
  -- read delivers to the header of its connection, and leaves the other connections and the herder as they
  -- are. The connection has a socket, the header stays shorter than `MAX_INPUT_SIZE`, and there is memory for
  -- a first header.
  pub process_connection-appends :
      (mem : ConnMemory) (h : Herder) (c : ℕ) (sock : Sock)
      → (mem.conn c).csock ≡ some sock
      → bit_and events pollin ≢ 0
      → bit_and events pollrdhup ≡ 0
      → IsRequest (mem.conn c).request
      → count (mem.conn c).request + length (delivered received) < max_input_size
      → (mem' : ConnMemory) × (process_connection rb
            (some http_header_alloc)
            received
            events
            mem
            h
            c
          ≡ done (mem', h))
        × (live (mem'.conn c).request ≡ live (mem.conn c).request ++ delivered received)
        × ((d : ℕ) → d ≢ c → mem'.conn d ≡ mem.conn d)
  process_connection-appends mem h c sock connected n none_up v short =
      let r = (mem.conn c).request in
      let (r', status, e, read, judged) = process_pollin-Read r received v (omega (arith, short)) in
      (
        read_into mem c r',
        connection-read mem h c sock r' status connected n none_up e,
        ap live (read_into-conn mem c r') ∙ (read.appended short).0,
        λ d other. ground (arith, other),
      )
