-- ===== src/Processor/Work.antt =====
-- frontend/tcpha_fe_connection_processor.c: the queue of the work, from `processor_init` to
-- `processor_destroy`. The kernel takes the work from the queue in the order in which it was queued;
-- `http_init` and `http_destroy` are empty.
use tcphandoff.Common.{
  ℕ, ◌≡◌, refl, ◌∙◌, Bool, true, false, Option, none, some, List, [], ◌∷◌, arith, if◌then◌else◌,
  Outcome, done, fault, ◌>>=◌, Received,
}
use tcphandoff.Http.{HttpHeader}
use tcphandoff.Sock.{Sock}
use tcphandoff.Poll.Tree.{RbTree}
use tcphandoff.Poll.{update}
use tcphandoff.Herder.{Herder, ConnMemory}
use tcphandoff.Common.{Cache, live, destroyed}
use tcphandoff.Herder.Lifecycle.{}
use tcphandoff.Processor.{process_connection}
use tcphandoff.Processor.Hangup.{IsHangup, less_alive, hangups-Destroyed}

-- `struct event_process`, with what its processing gets from the kernel: the memory of a header, and what
-- the read delivers. `herder` is a pointer.
pub record Work : Type 0 where
  pub conn : ℕ
  pub herder : ℕ
  pub events : ℕ
  pub header : Option HttpHeader
  pub received : Received

-- The work of a queue, one after the other; `herders` is the memory of the herders.
unfoldable pub run_works :
    RbTree → List Work → ConnMemory → (ℕ → Herder) → Outcome (ConnMemory × (ℕ → Herder))
run_works rb [] mem herders = done (mem, herders)
run_works rb (w ∷ ws) mem herders =
    process_connection rb w.header w.received w.events mem (herders w.herder) w.conn >>= λ r.
    run_works rb ws r.0 (update herders w.herder r.1)

-- The queue that the module has got, with its work, and the cache for work.
pub record Processor : Type 0 where
  pub workqueue : Bool
  pub works : List Work
  pub event_cache : Cache

-- `created` says that the kernel has created the queue. It makes the cache or panics.
unfoldable pub processor_init : Bool → Processor
processor_init created = record { workqueue = created; works = []; event_cache = live }

-- `flush_workqueue` waits for the work that is left, and reads the queue, which must be there.
unfoldable pub processor_destroy :
    RbTree → Processor → ConnMemory → (ℕ → Herder) → Outcome (Processor × ConnMemory)
unfolding run_works
processor_destroy rb p mem herders =
    if p.workqueue
    then (run_works rb p.works mem herders >>= λ left.
        done (record { workqueue = false; works = []; event_cache = destroyed }, left.0))
    else fault

-- The work of a connection whose socket is gone reads through NULL.
closed-process_connection :
    (rb : RbTree) (header : Option HttpHeader) (received : Received) (events : ℕ) (mem : ConnMemory)
    (h : Herder) (c : ℕ)
    → (mem.conn c).csock ≡ none
    → process_connection rb header received events mem h c ≡ fault
unfolding process_connection
closed-process_connection rb header received events mem h c e = rw (e, process_connection) refl

pub closed-run_works :
    (rb : RbTree) (w : Work) (ws : List Work) (mem : ConnMemory) (herders : ℕ → Herder)
    → (mem.conn w.conn).csock ≡ none
    → run_works rb (w ∷ ws) mem herders ≡ fault
unfolding run_works
closed-run_works rb w ws mem herders e =
    rw (closed-process_connection rb w.header w.received w.events mem (herders w.herder) w.conn e)
      refl

done-run_works :
    (rb : RbTree) (w : Work) (ws : List Work) (mem mem' : ConnMemory) (herders : ℕ → Herder)
    (h : Herder)
    → process_connection rb w.header w.received w.events mem (herders w.herder) w.conn
      ≡ done (mem', h)
    → run_works rb (w ∷ ws) mem herders ≡ run_works rb ws mem' (update herders w.herder h)
unfolding run_works
done-run_works rb w ws mem mem' herders h e = rw e refl

-- Work that is queued for a connection does not keep it: where three pieces of work for one connection
-- are on the queue, two that say that the peer has hung up and any third, the second frees the
-- connection, and the third reads through the pointer in it that is NULL by then. The count `alive` of
-- the connection is two, as `tcpha_fe_conn_create` sets it, it has a socket, and the pool's lock is free.
pub hangups_fault :
    (rb : RbTree) (w third : Work) (ws : List Work) (mem : ConnMemory) (herders : ℕ → Herder)
    (sock : Sock)
    → IsHangup w.events
    → third.conn ≡ w.conn
    → (mem.conn w.conn).csock ≡ some sock
    → (mem.conn w.conn).alive ≡ 2
    → (herders w.herder).pool_locked ≡ false
    → run_works rb (w ∷ w ∷ third ∷ ws) mem herders ≡ fault
hangups_fault rb w third ws mem herders sock hangup same connected two free =
    let h = herders w.herder in
    let once = less_alive mem w.conn in
    let (counted, (mem', h', freed, d)) =
      hangups-Destroyed rb w.header w.received w.events hangup mem h w.conn sock connected two
        free in
    let back : update herders w.herder h w.herder ≡ h = ground arith in
    done-run_works rb w (w ∷ third ∷ ws) mem once herders h counted
    ∙ done-run_works rb w (third ∷ ws) once mem' (update herders w.herder h) h' (rw back freed)
    ∙ closed-run_works rb third ws mem' (update (update herders w.herder h) w.herder h')
        (rw same d.closed)

-- A queue on which there is no work.
abbrev pub gone_processor : Processor
gone_processor = record { workqueue = false; works = []; event_cache = destroyed }

pub init-processor_destroy :
    (rb : RbTree) (p : Processor) (mem : ConnMemory) (herders : ℕ → Herder)
    → p ≡ processor_init true
    → processor_destroy rb p mem herders ≡ done (gone_processor, mem)
unfolding processor_destroy processor_init
init-processor_destroy rb p mem herders e = rw e refl
