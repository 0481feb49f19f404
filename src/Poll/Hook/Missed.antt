-- ===== src/Poll/Hook/Missed.antt =====
-- frontend/tcpha_fe_poll.c, lines 218 to 229: what arrives at the socket before its item can be woken.
use tcphandoff.Common.{
  ℕ, bit_and, bit_or, ◌≡◌, refl, ap, ◌∙◌, ◌≢◌, Bool, true, false, some, List, [], ◌∷◌, arith, ◌==◌,
  member,
}
use tcphandoff.Sock.{Sock}
use tcphandoff.Poll.Tree.{Tree, RbTree, tcp_ep_hash_insert}
use tcphandoff.Poll.{
  Eventpoll, key_of, set_item, setup_item, watch_flags, stitch_if_ready, tcp_epoll_wakeup,
  tcp_epoll_check_events, add_item_to_readylist,
}
use tcphandoff.Poll.Hook.{
  Stage, prepared, checked, linked, inserted, Insertion, Turn, steps, arrival, link_step,
  stage_step, insert_step, arrives, preparing, insertion,
}

abbrev at_stage : Stage → Eventpoll → ℕ → Insertion
at_stage stage ep level = record { stage = stage; eventpoll = ep; level = level }

-- The item on the ready list, on its socket's queue and in the tree; and with events.
abbrev ready_too : Eventpoll → ℕ → Eventpoll
ready_too ep x = record ep { ready_list = x ∷ ep.ready_list }

abbrev hooked_too : Eventpoll → ℕ → Eventpoll
hooked_too ep x = record ep { waiting = x ∷ ep.waiting }

abbrev reported_too : Eventpoll → ℕ → ℕ → Eventpoll
reported_too ep x events = set_item ep x (record (ep.item x) { events = events })

nonzero : (n : ℕ) → n ≢ 0 → (n == 0) ≡ false
nonzero n p = ground arith

module _ (rb : RbTree) (ep : Eventpoll) (x : ℕ) where
  check_quiet :
      (level : ℕ)
      → bit_and (ep.item x).event_flags level ≡ 0
      → insert_step rb x (at_stage prepared ep level) ≡ at_stage checked ep level
  unfolding insert_step stage_step stitch_if_ready tcp_epoll_check_events
  check_quiet level q = rw q refl

  check_loud :
      (level : ℕ)
      → bit_and (ep.item x).event_flags level ≢ 0
      → member x ep.ready_list ≡ false
      → insert_step rb x (at_stage prepared ep level) ≡ at_stage checked (ready_too ep x) level
  unfolding insert_step stage_step stitch_if_ready tcp_epoll_check_events add_item_to_readylist
  check_loud level n out = rw (nonzero _ n, out) refl

  link_found :
      (level : ℕ) (t : Tree)
      → tcp_ep_hash_insert (key_of ep) rb x ep.hash_root ≡ some t
      → insert_step rb x (at_stage checked ep level)
        ≡ at_stage linked (record ep { hash_root = t }) level
  unfolding insert_step stage_step link_step
  link_found level t e = rw e refl

  hook_done :
      (level : ℕ)
      → insert_step rb x (at_stage linked ep level) ≡ at_stage inserted (hooked_too ep x) level
  unfolding insert_step stage_step
  hook_done level = refl

  -- The socket wakes nobody.
  arrives_unheard :
      (stage : Stage) (level polled : ℕ)
      → member x ep.waiting ≡ false
      → arrives rb x polled (at_stage stage ep level) ≡ at_stage stage ep polled
  unfolding arrives
  arrives_unheard stage level polled w = rw w refl

  arrives_heard :
      (stage : Stage) (level polled mask : ℕ)
      → member x ep.waiting ≡ true
      → bit_and (ep.item x).event_flags polled ≡ mask
      → (ep.item x).events ≡ 0
      → mask ≢ 0
      → member x ep.ready_list ≡ false
      → arrives rb x polled (at_stage stage ep level)
        ≡ at_stage stage (reported_too (ready_too ep x) x (bit_or 0 mask)) polled
  unfolding arrives tcp_epoll_wakeup tcp_epoll_check_events add_item_to_readylist
  arrives_heard stage level polled mask w m e n out = rw (w, m, nonzero mask n, out, e) refl

-- What an arrival during the insertion of item `x` leaves: the item is inserted and on the queue of its
-- socket; whether it is on the ready list; and its events.
pub record Left (x : ℕ) (ready : Bool) (events : ℕ) (s : Insertion) : Type 0 where
  pub at_end : s.stage ≡ inserted
  pub hooked : member x s.eventpoll.waiting ≡ true
  pub is_ready : member x s.eventpoll.ready_list ≡ ready
  pub has_events : (s.eventpoll.item x).events ≡ events

module _ (rb : RbTree) (ep : Eventpoll) (x conn : ℕ) (sock : Sock) (flags level polled : ℕ)
    (t : Tree) where
  abbrev set_up : Eventpoll
  set_up = set_item ep x (setup_item conn sock flags)

  abbrev in_tree : Eventpoll
  in_tree = record set_up { hash_root = t }

  abbrev run : List Turn → Insertion
  run ts = insertion rb x ts (preparing ep x conn sock flags level)

  -- There is nothing of interest to read at first and then there is; the item is on no list, and the tree
  -- has a place for it.
  pub record Arriving : Type 0 where
    pub place : tcp_ep_hash_insert (key_of set_up) rb x ep.hash_root ≡ some t
    pub not_ready : member x ep.ready_list ≡ false
    pub not_waiting : member x ep.waiting ≡ false
    pub quiet : bit_and (watch_flags flags) level ≡ 0
    pub loud : bit_and (watch_flags flags) polled ≢ 0

  own_flags : (set_up.item x).event_flags ≡ watch_flags flags
  own_flags = ground arith

  own_events : (set_up.item x).events ≡ 0
  own_events = ground arith

  module _ (a : Arriving) where
    quiet_item : bit_and (set_up.item x).event_flags level ≡ 0
    quiet_item = rw own_flags a.quiet

    loud_item : bit_and (set_up.item x).event_flags polled ≢ 0
    loud_item = rw own_flags a.loud

    step : Insertion → Insertion
    step = insert_step rb x

    arrival_first :
        run (arrival polled ∷ steps ∷ steps ∷ steps ∷ [])
        ≡ at_stage inserted (hooked_too (ready_too in_tree x) x) polled
    unfolding insertion step
    arrival_first =
        ap (λ s. step (step (step s)))
          (arrives_unheard rb set_up x prepared level polled a.not_waiting)
        ∙ ap (λ s. step (step s)) (check_loud rb set_up x polled loud_item a.not_ready)
        ∙ ap step (link_found rb (ready_too set_up x) x polled t a.place)
        ∙ hook_done rb (ready_too in_tree x) x polled

    arrival_checked :
        run (steps ∷ arrival polled ∷ steps ∷ steps ∷ [])
        ≡ at_stage inserted (hooked_too in_tree x) polled
    unfolding insertion step
    arrival_checked =
        ap (λ s. step (step (arrives rb x polled s))) (check_quiet rb set_up x level quiet_item)
        ∙ ap (λ s. step (step s)) (arrives_unheard rb set_up x checked level polled a.not_waiting)
        ∙ ap step (link_found rb set_up x polled t a.place)
        ∙ hook_done rb in_tree x polled

    until_linked :
        step (step (preparing ep x conn sock flags level)) ≡ at_stage linked in_tree level
    unfolding step
    until_linked =
        ap step (check_quiet rb set_up x level quiet_item) ∙ link_found rb set_up x level t a.place

    arrival_linked :
        run (steps ∷ steps ∷ arrival polled ∷ steps ∷ [])
        ≡ at_stage inserted (hooked_too in_tree x) polled
    unfolding insertion step
    arrival_linked =
        ap (λ s. step (arrives rb x polled s)) until_linked
        ∙ ap step (arrives_unheard rb in_tree x linked level polled a.not_waiting)
        ∙ hook_done rb in_tree x polled

    arrival_last :
        run (steps ∷ steps ∷ steps ∷ arrival polled ∷ [])
        ≡ at_stage inserted
            (reported_too
              (ready_too (hooked_too in_tree x) x)
              x
              (bit_or 0 (bit_and (watch_flags flags) polled)))
            polled
    unfolding insertion step
    arrival_last =
        ap (λ s. arrives rb x polled (step s)) until_linked
        ∙ ap (arrives rb x polled) (hook_done rb in_tree x level)
        ∙ arrives_heard rb (hooked_too in_tree x) x inserted level polled
            (bit_and (watch_flags flags) polled) (ground arith) (rw own_flags refl) own_events
            a.loud a.not_ready

    missed : Left x false 0 (at_stage inserted (hooked_too in_tree x) polled)
    missed = record {
      at_end = refl;
      hooked = ground arith;
      is_ready = a.not_ready;
      has_events = own_events;
    }

    -- Where something of interest arrives during `tcp_epoll_insert`, the item ends up inserted and on the queue
    -- of its socket. Before the socket is tested: on the ready list, with events 0. Between the test and the
    -- item's going onto the queue, before or after it goes into the tree: not on the ready list, with
    -- events 0, so nothing of what arrived is noted. After that: on the ready list, with what arrived. The socket has
    -- nothing of interest at first, and the item, which is on no list, has a place in the tree.
    pub arrival_cases :
        Left x true 0 (run (arrival polled ∷ steps ∷ steps ∷ steps ∷ []))
        × (Left x false 0 (run (steps ∷ arrival polled ∷ steps ∷ steps ∷ []))
            × (Left x false 0 (run (steps ∷ steps ∷ arrival polled ∷ steps ∷ []))
                × Left x true
                    (bit_or 0 (bit_and (watch_flags flags) polled))
                    (run (steps ∷ steps ∷ steps ∷ arrival polled ∷ []))))
    arrival_cases = (
      rw arrival_first (record {
        at_end = refl;
        hooked = ground arith;
        is_ready = ground arith;
        has_events = own_events;
      }),
      (
        rw arrival_checked missed,
        (
          rw arrival_linked missed,
          rw arrival_last (record {
            at_end = refl;
            hooked = ground arith;
            is_ready = ground arith;
            has_events = ground arith;
          }),
        ),
      ),
    )
