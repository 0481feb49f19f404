-- ===== src/Poll/Hook.antt =====
-- frontend/tcpha_fe_poll.c, lines 218 to 244: the steps of `tcp_epoll_insert` between which the socket may
-- get something to read. It wakes the queue that the item has been put on, if it has.
mod Missed
mod Examples
use tcphandoff.Common.{
  ℕ, zero, suc, ◌+◌, ◌-◌, ◌*◌, ◌/◌, ◌%◌, ◌^◌, ◌≤◌, ◌<◌, min, bit_and, bit_or, ◌≡◌, refl, sym, ap,
  ◌∙◌, subst, fun_ext, ◌≢◌, ◌↔◌, ◌⊎◌, inl, inr, Bool, true, false, not, ◌&&◌, ◌||◌, Option, none,
  some, List, [], ◌∷◌, ◌++◌, map, append-nil, append_assoc, arith, dec_lt, ℕ_discrete, ltb, leb,
  ◌==◌, if◌then◌else◌, if_true, if_false, if_true, if_false, ltb→lt, lt→ltb, leb→le, ==_iff, tests,
  Bool-cases, Option-cases, length, get_or, take, drop, replicate, All, length-append, length-take,
  take-append-drop, length-drop, length-replicate, take-append, get_or-append, get_or-take,
  All-append, All-left, All-right, All-mono, All-both, member, u32_mod, char_to_int, is_negative,
  Outcome, done, deadlock, fault, ◌>>=◌, IfDone, IfDone-any, IfDone-bind, bind_done, Received, got,
  failed, write_at,
}
use tcphandoff.Sock.{Sock}
use tcphandoff.Poll.Tree.{Tree, RbTree, tcp_ep_hash_insert}
use tcphandoff.Poll.{
  Eventpoll, Item, Errno, success, failed, update, key_of, set_item, setup_item, watch_flags,
  stitch_if_ready, insert_item, tcp_ep_item_free, tcp_epoll_wakeup, tcp_epoll_check_events,
  add_item_to_readylist,
}

-- How far the insertion is: before the test of the socket, before the item goes into the tree, before it
-- goes onto the queue of the socket, and at its end; and the last two where the tree has the socket.
pub data Stage : Type 0 where
  prepared checked linked inserted clashed refused : Stage

-- `level` is what the `poll` of the socket returns.
pub record Insertion : Type 0 where
  pub stage : Stage
  pub eventpoll : Eventpoll
  pub level : ℕ

module _ (rb : RbTree) (x : ℕ) where
  -- The item goes into the tree.
  pub link_step : Eventpoll → Option Tree → Stage × Eventpoll
  link_step ep none = (clashed, ep)
  link_step ep (some t) = (linked, record ep { hash_root = t })

  pub stage_step : Stage → Eventpoll → ℕ → Stage × Eventpoll
  unfolding link_step tcp_ep_item_free
  stage_step prepared ep level = (checked, stitch_if_ready ep x level)
  stage_step checked ep level = link_step ep (tcp_ep_hash_insert (key_of ep) rb x ep.hash_root)
  stage_step linked ep level = (inserted, record ep { waiting = x ∷ ep.waiting })
  stage_step inserted ep level = (inserted, ep)
  stage_step clashed ep level =
      (refused, tcp_ep_item_free (record ep { waiting = x ∷ ep.waiting }) x)
  stage_step refused ep level = (refused, ep)

  pub insert_step : Insertion → Insertion
  unfolding stage_step
  insert_step s =
      let (stage, ep) = stage_step s.stage s.eventpoll s.level in
      record s { stage = stage; eventpoll = ep }

  -- Something arrives, and the `poll` of the socket returns `polled` from now on. No herder sleeps on
  -- `poll_wait`.
  pub arrives : ℕ → Insertion → Insertion
  unfolding tcp_epoll_wakeup
  arrives polled s = record {
    stage = s.stage;
    eventpoll =
        if member x s.eventpoll.waiting
        then tcp_epoll_wakeup s.eventpoll x polled false
        else s.eventpoll;
    level = polled;
  }

-- The item has been set up, and the `poll` of its socket returns `level`.
abbrev pub preparing : Eventpoll → ℕ → ℕ → Sock → ℕ → ℕ → Insertion
preparing ep x conn sock flags level = record {
  stage = prepared;
  eventpoll = set_item ep x (setup_item conn sock flags);
  level = level;
}

-- A run of the insertion's steps, with what arrives in between.
pub data Turn : Type 0 where
  steps : Turn
  arrival : ℕ → Turn

pub insertion : RbTree → ℕ → List Turn → Insertion → Insertion
unfolding insert_step arrives
insertion rb x [] s = s
insertion rb x (steps ∷ ts) s = insertion rb x ts (insert_step rb x s)
insertion rb x (arrival polled ∷ ts) s = insertion rb x ts (arrives rb x polled s)

module _ (rb : RbTree) (ep : Eventpoll) (x conn : ℕ) (sock : Sock) (flags : ℕ) where
  abbrev listed : ℕ → Eventpoll
  listed level = stitch_if_ready (set_item ep x (setup_item conn sock flags)) x level

  -- The end of the steps, and that of `tcp_epoll_insert`.
  abbrev finish : ℕ → Option Tree → Stage × Eventpoll
  finish level o = let (stage, e) = link_step rb x (listed level) o in stage_step rb x stage e level

  abbrev outcome : ℕ → Option Tree → Eventpoll × Errno
  outcome level o =
      let hooked = record (listed level) { waiting = x ∷ (listed level).waiting } in
      elim o [
        | some t ↦ (record hooked { hash_root = t }, success)
        | none ↦ (tcp_ep_item_free hooked x, failed)
      ]

  abbrev SameEnd : Stage × Eventpoll → Eventpoll × Errno → Type 0
  SameEnd s r = (s.1 ≡ r.0) × ((s.0 ≡ inserted) ↔ (r.1 ≡ success))

  finish-outcome : (level : ℕ) (o : Option Tree) → SameEnd (finish level o) (outcome level o)
  unfolding link_step stage_step
  finish-outcome level none = (refl, (λ e. absurd (cc), λ e. absurd (cc)))
  finish-outcome level (some t) = (refl, (λ e. refl, λ e. refl))

  -- Where nothing arrives, the three steps do what `tcp_epoll_insert` does with the item.
  pub insertion-insert_item :
      (level : ℕ)
      → let s =
          insertion rb x (steps ∷ steps ∷ steps ∷ []) (preparing ep x conn sock flags level) in
        SameEnd (s.stage, s.eventpoll) (insert_item rb ep x conn sock flags level)
  unfolding insertion insert_step stage_step insert_item
  insertion-insert_item level =
      finish-outcome level
        (tcp_ep_hash_insert (key_of (listed level)) rb x (listed level).hash_root)
