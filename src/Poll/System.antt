-- ===== src/Poll/System.antt =====
-- The eventpolls that the operations of frontend/tcpha_fe_poll.c make, one after the other.
pub mod Examples
use tcphandoff.Common.{
  ℕ, zero, suc, ◌+◌, ◌-◌, ◌*◌, ◌/◌, ◌%◌, ◌^◌, ◌≤◌, ◌<◌, min, bit_and, bit_or, ◌≡◌, refl, sym, ap,
  ◌∙◌, subst, fun_ext, ◌≢◌, ◌↔◌, ◌⊎◌, inl, inr, Bool, true, false, not, ◌&&◌, ◌||◌, Option, none,
  some, List, [], ◌∷◌, ◌++◌, map, append-nil, append_assoc, arith, dec_lt, ℕ_discrete, ltb, leb,
  ◌==◌, if◌then◌else◌, ltb→lt, lt→ltb, leb→le, ==_iff, tests, Bool-cases, Option-cases, length,
  get_or, take, drop, replicate, All, length-append, length-take, take-append-drop, length-drop,
  length-replicate, take-append, get_or-append, get_or-take, All-append, All-left, All-right,
  All-mono, All-both, member, u32_mod, char_to_int, is_negative, Outcome, done, deadlock, fault,
  ◌>>=◌, Received, got, failed, write_at,
}
use tcphandoff.Sock.{Sock}
use tcphandoff.Sock.Order.{IsNear}
use tcphandoff.Poll.Tree.{RbTree}
use tcphandoff.Poll.{
  Eventpoll, Item, success, tcp_epoll_init, tcp_epoll_insert, tcp_epoll_remove, tcp_epoll_setflags,
  tcp_epoll_wakeup, tcp_epoll_wait, sleep_if_empty,
}
use tcphandoff.Poll.Ready.{Distinct, wakeup-Distinct}
use tcphandoff.Poll.Wait.{All-member, conn_of, wakeup_reported}
use tcphandoff.Poll.Lifetime.{IsSound}
use tcphandoff.Poll.Tidy.{Within, IsTidy, setflags-IsTidy, wakeup-IsTidy, wait-IsTidy}
use tcphandoff.Poll.Tidy.Change.{insert-IsTidy, remove-IsTidy}

pub member-map :
    (f : ℕ → ℕ) (z : ℕ) (ys : List ℕ) → member z ys ≡ true → member (f z) (map f ys) ≡ true
member-map f z [] m = absurd (cc)
member-map f z (y ∷ ys) m = elim (ℕ_discrete z y) [
  | yes e ↦ rw e (ground arith)
  | no n ↦ ground (arith, member-map f z ys)
]

-- The image of an entry is not that of a new one.
image_differs :
    (f : ℕ → ℕ) (y z : ℕ) (ys : List ℕ)
    → member (f y) (map f ys) ≡ false
    → member z ys ≡ true
    → f y ≢ f z
image_differs f y z ys n m e = cc (n, member-map f z ys m, e)

-- Two entries of a list whose images are distinct have distinct images.
images_differ :
    (f : ℕ → ℕ) (x z : ℕ) (ys : List ℕ)
    → Distinct (map f ys)
    → member x ys ≡ true
    → member z ys ≡ true
    → x ≢ z
    → f x ≢ f z
images_differ f x z [] d mx mz n = absurd (cc)
images_differ f x z (y ∷ ys) d mx mz n = elim (ℕ_discrete x y) [
  | yes e ↦ λ q. image_differs f y z ys d.0 (ground arith) (ap f (sym e) ∙ q)
  | no p ↦ elim (ℕ_discrete z y) [
    | yes e ↦ λ q. image_differs f y x ys d.0 (ground arith) (ap f (sym e) ∙ sym q)
    | no r ↦ images_differ f x z ys d.1 (ground arith) (ground arith) n
  ]
]

pub image_new :
    (f : ℕ → ℕ) (x : ℕ) (xs ys : List ℕ)
    → Distinct (map f ys)
    → member x ys ≡ true
    → Within xs ys
    → member x xs ≡ false
    → member (f x) (map f xs) ≡ false
image_new f x [] ys d m w n = refl
image_new f x (z ∷ zs) ys d m w n = ground (
  arith,
  images_differ f x z ys d m w.0 (ground arith),
  image_new f x zs ys d m w.1 (ground arith),
)

pub Distinct-map :
    (f : ℕ → ℕ) (xs ys : List ℕ)
    → Distinct (map f ys)
    → Within xs ys
    → Distinct xs
    → Distinct (map f xs)
Distinct-map f [] ys d w e = tt
Distinct-map f (x ∷ xs) ys d w e =
    (image_new f x xs ys d w.0 w.1 e.0, Distinct-map f xs ys d w.1 e.1)

module _ (base : ℕ) (b : base < u32_mod) (rb : RbTree) where
  -- The eventpolls that operations make of another: items are inserted, removed and get new flags, the
  -- sockets on whose queues items wait wake them, and a herder waits, while other operations go on.
  -- The item that is inserted is not yet allocated, and none that waits has its connection.
  pub data Reach : Eventpoll → Eventpoll → Type 0 where
    here : {s : Eventpoll} → Reach s s
    inserts :
        {s t : Eventpoll} (x conn : ℕ) (sock : Sock) (flags polled : ℕ)
        → Reach s t
        → t.allocated x ≡ false
        → IsNear base sock
        → member conn (map (conn_of t) t.waiting) ≡ false
        → (tcp_epoll_insert rb t conn sock flags true (some x) polled).1 ≡ success
        → Reach s (tcp_epoll_insert rb t conn sock flags true (some x) polled).0
    removes : {s t : Eventpoll} (sock : Sock) → Reach s t → Reach s (tcp_epoll_remove rb t sock)
    sets_flags :
        {s t : Eventpoll} (sock : Sock) (flags : ℕ)
        → Reach s t
        → Reach s (tcp_epoll_setflags t sock flags).0
    wakes :
        {s t : Eventpoll} (x polled : ℕ) (active : Bool)
        → Reach s t
        → member x t.waiting ≡ true
        → Reach s (tcp_epoll_wakeup t x polled active)
    waits :
        {s t : Eventpoll} (maxevents : ℕ) (asleep : Eventpoll → Eventpoll)
        → Reach s t
        → Reach t (asleep t)
        → Reach s (tcp_epoll_wait t maxevents asleep).1

  Reach-IsTidy : {s t : Eventpoll} → IsTidy base b s → Reach s t → IsTidy base b t
  Reach-IsTidy i here = i
  Reach-IsTidy i (inserts {t = t} x conn sock flags polled r fresh near new ok) =
      insert-IsTidy base b rb t x conn sock flags polled (Reach-IsTidy i r) fresh near new ok
  Reach-IsTidy i (removes {t = t} sock r) = remove-IsTidy base b rb t sock (Reach-IsTidy i r)
  Reach-IsTidy i (sets_flags {t = t} sock flags r) =
      setflags-IsTidy base b t sock flags (Reach-IsTidy i r)
  Reach-IsTidy i (wakes {t = t} x polled active r m) =
      wakeup-IsTidy base b t x polled active m (Reach-IsTidy i r)
  Reach-IsTidy i (waits {t = t} maxevents asleep r during) =
      wait-IsTidy base b t maxevents asleep (Reach-IsTidy i r)
        (Reach-IsTidy (Reach-IsTidy i r) during)

  init-IsTidy :
      (memory : Eventpoll) → memory.waiting ≡ [] → IsTidy base b (tcp_epoll_init memory true).0
  unfolding tcp_epoll_init
  init-IsTidy memory w = record {
    sound = record {
      ready_held = tt;
      waiting_held = rw w tt;
      waiting_heads = rw w tt;
      tree_held = tt;
      near = tt;
      falls = tt;
      distinct = tt;
    };
    watched = tt;
    conns = rw w tt;
  }

  -- Every eventpoll that the operations make, in any order, of one that `tcp_epoll_init` has set up is
  -- sound: the items on its ready list, on the wait queues and in its tree are allocated, no item is on
  -- the ready list twice, and the tree is in the order of the peers. On top of that, an item on the ready
  -- list waits on a queue, and no two that wait are for the same connection. Each item inserted is new
  -- and for a connection with no item, the insertion succeeds, a socket wakes only an item that waits on
  -- its queue, and the peers' addresses are near each other.
  pub Reach-init-IsTidy :
      (memory ep : Eventpoll)
      → memory.waiting ≡ []
      → Reach (tcp_epoll_init memory true).0 ep
      → IsTidy base b ep
  Reach-init-IsTidy memory ep w r = Reach-IsTidy (init-IsTidy memory w) r

  -- Once an item that waits has been woken, no item is on the ready list twice, and no two items on it are for the same
  -- connection.
  pub woken-Distinct :
      (memory ep : Eventpoll) (x polled : ℕ) (active : Bool)
      → memory.waiting ≡ []
      → Reach (tcp_epoll_init memory true).0 ep
      → member x ep.waiting ≡ true
      → let woken = tcp_epoll_wakeup ep x polled active in
        Distinct woken.ready_list × Distinct (map (conn_of woken) woken.ready_list)
  woken-Distinct memory ep x polled active w r m =
      let woken = tcp_epoll_wakeup ep x polled active in
      let t = wakeup-IsTidy base b ep x polled active m (Reach-init-IsTidy memory ep w r) in
      (
        t.sound.distinct,
        Distinct-map (conn_of woken) woken.ready_list woken.waiting t.conns t.watched
            t.sound.distinct,
      )

  -- In an eventpoll that the operations have made of one that `tcp_epoll_init` has set up, in any order
  -- that `Reach` allows: where the socket of an item that waits has woken it with events of interest, a
  -- `tcp_epoll_wait` that is called after that, with room for the whole ready list, does not sleep, and
  -- reports to the item's connection the events that it had together with the new ones.
  pub Reach-wakeup_reported :
      (memory ep : Eventpoll) (x polled : ℕ) (active : Bool) (maxevents : ℕ)
      (asleep : Eventpoll → Eventpoll)
      → memory.waiting ≡ []
      → Reach (tcp_epoll_init memory true).0 ep
      → member x ep.waiting ≡ true
      → let woken = tcp_epoll_wakeup ep x polled active in
        let mask = bit_and (ep.item x).event_flags polled in
        mask ≢ 0
        → length woken.ready_list ≤ maxevents
        → (sleep_if_empty woken asleep ≡ woken)
          × ((tcp_epoll_wait woken maxevents asleep).1.conn_events (conn_of woken x)
              ≡ bit_or (ep.item x).events mask)
  Reach-wakeup_reported memory ep x polled active maxevents asleep w r m nz fits =
      let (items, conns) = woken-Distinct memory ep x polled active w r m in
      wakeup_reported ep x polled active maxevents asleep nz items conns fits
