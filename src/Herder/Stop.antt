-- ===== src/Herder/Stop.antt =====
-- frontend/tcpha_fe_client_connection.c, lines 280 to 297: how the thread of a herder is stopped. The
-- herder's own steps, lines 332 to 356, those of `tcp_epoll_wait` among them, and the two steps of
-- `destroy_connection_herders` follow each other in any order. `kthread_stop` is the kernel's: it raises
-- the flag that `kthread_should_stop` reads, wakes the thread, and waits until the thread has ended.
pub mod Ending
pub mod Ends
pub mod Hangs
mod Examples
use tcphandoff.Common.{
  ℕ, zero, suc, ◌+◌, ◌-◌, ◌*◌, ◌/◌, ◌%◌, ◌^◌, ◌≤◌, ◌<◌, min, bit_and, bit_or, ◌≡◌, refl, sym, ap,
  ◌∙◌, subst, fun_ext, ◌≢◌, ◌↔◌, ◌⊎◌, inl, inr, Bool, true, false, not, ◌&&◌, ◌||◌, Option, none,
  some, List, [], ◌∷◌, ◌++◌, map, append-nil, append_assoc, arith, dec_lt, ℕ_discrete, ltb, leb,
  ◌==◌, if◌then◌else◌, if_true, if_false, if_true, if_false, ltb→lt, lt→ltb, leb→le, ==_iff, tests,
  Bool-cases, Option-cases, length, get_or, take, drop, replicate, All, length-append, length-take,
  take-append-drop, length-drop, length-replicate, take-append, get_or-append, get_or-take,
  All-append, All-left, All-right, All-mono, All-both, member, u32_mod, char_to_int, is_negative,
  Outcome, done, deadlock, fault, ◌>>=◌, IfDone, IfDone-any, IfDone-bind, bind_done, Received, got,
  failed, write_at,
}
use tcphandoff.Poll.{Eventpoll, tcp_epoll_wakeup, collect}
use tcphandoff.Poll.Sleep.{
  Place, testing, sleepy, queued, asleep, awake, wake_up_all, herder_step, wakeup_step,
}
use tcphandoff.Herder.{max_events}
use tcphandoff.Herder.Run.{EventProcess, queue_events}

-- Where the herder is: before its test of `kthread_should_stop`, in `tcp_epoll_wait`, or at its end.
pub data Spot : Type 0 where
  looping ended : Spot
  waiting : Place → Spot

-- `should_stop` is the flag of `kthread_stop`; `works` is what the herder has queued.
pub record HerderTask : Type 0 where
  pub spot : Spot
  pub eventpoll : Eventpoll
  pub works : List EventProcess
  pub should_stop : Bool

-- The connections that `tcp_epoll_wait` returns are queued.
pub process_items : List ℕ × Eventpoll → HerderTask → HerderTask
unfolding queue_events
process_items (conns, ep) s =
    let (works, after) = queue_events ep conns in
    record s { spot = looping; eventpoll = after; works = s.works ++ works }

abbrev pub wait_at : Place × Eventpoll → HerderTask → HerderTask
wait_at (place, ep) s = record s { spot = waiting place; eventpoll = ep }

-- One step of the herder.
pub run_at : Spot → HerderTask → HerderTask
unfolding herder_step process_items collect
run_at looping s = record s { spot = if s.should_stop then ended else waiting testing }
run_at ended s = s
run_at (waiting testing) s = wait_at (herder_step max_events (testing, s.eventpoll)) s
run_at (waiting sleepy) s = wait_at (herder_step max_events (sleepy, s.eventpoll)) s
run_at (waiting queued) s = wait_at (herder_step max_events (queued, s.eventpoll)) s
run_at (waiting asleep) s = wait_at (herder_step max_events (asleep, s.eventpoll)) s
run_at (waiting awake) s = process_items (collect max_events s.eventpoll.ready_list s.eventpoll) s

-- The socket of item `x` wakes its queue. Nobody is on `poll_wait` outside `tcp_epoll_wait`.
pub wakes_at : Spot → HerderTask → ℕ → ℕ → HerderTask
wakes_at looping s x polled = record s { eventpoll = tcp_epoll_wakeup s.eventpoll x polled false }
wakes_at ended s x polled = record s { eventpoll = tcp_epoll_wakeup s.eventpoll x polled false }
wakes_at (waiting place) s x polled = wait_at (wakeup_step (place, s.eventpoll) x polled) s

-- `set_bit` of `should_wake`.
abbrev pub set_should_wake : HerderTask → HerderTask
set_should_wake s = record s { eventpoll = record (s.eventpoll) { should_wake = true } }

-- `wake_up_process`: a herder that sleeps tests its condition again.
abbrev pub wake_up_process : Spot → Spot
wake_up_process looping = looping
wake_up_process ended = ended
wake_up_process (waiting place) = waiting (wake_up_all place)

-- `kthread_stop`, up to its waiting.
abbrev pub kthread_stop : HerderTask → HerderTask
kthread_stop s = record s { should_stop = true; spot = wake_up_process s.spot }

pub data Turn : Type 0 where
  runs sets_bit stops : Turn
  wakes : ℕ → ℕ → Turn

pub turn : HerderTask → Turn → HerderTask
unfolding run_at wakes_at
turn s runs = run_at s.spot s
turn s sets_bit = set_should_wake s
turn s stops = kthread_stop s
turn s (wakes x polled) = wakes_at s.spot s x polled

pub turns : List Turn → HerderTask → HerderTask
unfolding turn
turns [] s = s
turns (t ∷ ts) s = turns ts (turn s t)

pub turns-append : (ts us : List Turn) (s : HerderTask) → turns (ts ++ us) s ≡ turns us (turns ts s)
unfolding turns
turns-append [] us s = refl
turns-append (t ∷ ts) us s = turns-append ts us (turn s t)
