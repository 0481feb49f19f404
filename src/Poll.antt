-- ===== src/Poll.antt =====
-- frontend/tcpha_fe_poll.h and frontend/tcpha_fe_poll.c: the eventpoll of a herder.
-- Pointers are numbers, and the memory of the items is a part of the state, with a mark on what is
-- allocated. A kernel list is the list of its entries, `list_add` puts an entry first, and an item's
-- `rd_list` is empty when the item is not on the ready list. The wait queues of the sockets are one
-- list of the items hooked into them. What the kernel decides is an argument: the memory that an
-- allocation returns, the mask that a socket's `poll` returns, whether the herder sleeps.
pub mod Tree
pub mod Ready
pub mod Wait
pub mod Quiet
pub mod Mailbox
pub mod Hook
pub mod Lifetime
pub mod Insert
pub mod Remove
pub mod Unreported
pub mod Tidy
pub mod System
pub mod Sleep
pub mod Cache
pub mod Examples
use tcphandoff.Common.{
  ℕ, zero, suc, ◌+◌, ◌-◌, ◌*◌, ◌/◌, ◌%◌, ◌^◌, ◌≤◌, ◌<◌, min, bit_and, bit_or, ◌≡◌, refl, sym, ap,
  ◌∙◌, subst, fun_ext, ◌≢◌, ◌↔◌, ◌⊎◌, inl, inr, Bool, true, false, not, ◌&&◌, ◌||◌, Option, none,
  some, List, [], ◌∷◌, ◌++◌, map, append-nil, append_assoc, arith, dec_lt, ℕ_discrete, ltb, leb,
  ◌==◌, if◌then◌else◌, ltb→lt, lt→ltb, leb→le, ==_iff, tests, Bool-cases, Option-cases, length,
  get_or, take, drop, replicate, All, length-append, length-take, take-append-drop, All-append,
  member, u32_mod, char_to_int, is_negative, Outcome, done, fault,
}
use tcphandoff.Sock.{Sock}
use Tree.{without, RbTree, tcp_ep_hash_insert, tcp_ep_hash_find}

abbrev pub pollin : ℕ
pollin = 0x1

abbrev pub pollerr : ℕ
pollerr = 0x8

abbrev pub pollhup : ℕ
pollhup = 0x10

abbrev pub pollrdhup : ℕ
pollrdhup = 0x2000

-- `struct tcp_ep_item`; `whead` says that the item has a wait queue, and `conn` is a pointer.
pub record Item : Type 0 where
  pub sock : Sock
  pub event_flags : ℕ
  pub events : ℕ
  pub whead : Bool
  pub conn : ℕ

-- `struct tcp_eventpoll`, with the memory that its operations read and write: the items, the
-- wait queues of the sockets, and the `events` of the connections.
pub record Eventpoll : Type 0 where
  pub ready_list : List ℕ
  pub hash_root : Tree.Tree
  pub should_wake : Bool
  pub item : ℕ → Item
  pub allocated : ℕ → Bool
  pub waiting : List ℕ
  pub conn_events : ℕ → ℕ

-- 0, -1 and -ENOMEM.
pub data Errno : Type 0 where
  success failed enomem : Errno

abbrev pub update {ℓ} : {A : Type ℓ} → (ℕ → A) → ℕ → A → ℕ → A
update f p v q = if p == q then v else f q

abbrev pub key_of : Eventpoll → ℕ → Sock
key_of ep x = (ep.item x).sock

abbrev pub set_item : Eventpoll → ℕ → Item → Eventpoll
set_item ep x it = record ep { item = update ep.item x it }

pub tcp_ep_item_free : Eventpoll → ℕ → Eventpoll
tcp_ep_item_free ep x = record ep { allocated = update ep.allocated x false }

abbrev pub no_sock : Sock
no_sock = record { daddr = 0; dport = 0 }

-- `cachep` says that the item cache exists, and `memory` is what it returns.
pub tcp_ep_item_alloc : Eventpoll → Bool → Option ℕ → Eventpoll × Errno
tcp_ep_item_alloc ep false memory = (ep, failed)
tcp_ep_item_alloc ep true none = (ep, enomem)
tcp_ep_item_alloc ep true (some x) =
    (record (set_item ep x blank) { allocated = update ep.allocated x true }, success)
  where
    blank : Item
    blank = record { sock = no_sock; event_flags = 0; events = 0; whead = false; conn = 0 }

pub add_item_to_readylist : Eventpoll → ℕ → Eventpoll
add_item_to_readylist ep x =
    if member x ep.ready_list then ep else record ep { ready_list = x ∷ ep.ready_list }

pub remove_item_from_readylist : Eventpoll → ℕ → Eventpoll
remove_item_from_readylist ep x = record ep { ready_list = without x ep.ready_list }

-- `mask` is the result of the socket's `poll`.
pub tcp_epoll_check_events : Item → ℕ → ℕ
tcp_epoll_check_events it mask = bit_and it.event_flags mask

-- The flags asked for, and those that are always watched.
abbrev pub watch_flags : ℕ → ℕ
watch_flags flags = bit_or (bit_or (bit_or flags pollerr) pollhup) pollrdhup

-- The item as `tcp_epoll_insert` sets it up.
abbrev pub setup_item : ℕ → Sock → ℕ → Item
setup_item conn sock flags = record {
  sock = sock;
  event_flags = watch_flags flags;
  events = 0;
  whead = true;
  conn = conn;
}

-- If its socket is ready already, the item goes onto the ready list.
pub stitch_if_ready : Eventpoll → ℕ → ℕ → Eventpoll
unfolding tcp_epoll_check_events add_item_to_readylist
stitch_if_ready ep x polled =
    if tcp_epoll_check_events (ep.item x) polled == 0 then ep else add_item_to_readylist ep x

module _ (rb : RbTree) where
  -- `tcp_epoll_insert` from the allocated item `x` on.
  pub insert_item : Eventpoll → ℕ → ℕ → Sock → ℕ → ℕ → Eventpoll × Errno
  unfolding stitch_if_ready tcp_ep_item_free
  insert_item ep x conn sock flags polled =
      let listed = stitch_if_ready (set_item ep x (setup_item conn sock flags)) x polled in
      let hooked = record listed { waiting = x ∷ listed.waiting } in
      elim (tcp_ep_hash_insert (key_of listed) rb x listed.hash_root) [
        | some t ↦ (record hooked { hash_root = t }, success)
        | none ↦ (tcp_ep_item_free hooked x, failed)
      ]

  unfoldable pub tcp_epoll_insert :
      Eventpoll → ℕ → Sock → ℕ → Bool → Option ℕ → ℕ → Eventpoll × Errno
  unfolding tcp_ep_item_alloc insert_item
  tcp_epoll_insert ep conn sock flags cachep memory mask =
      let (held, err) = tcp_ep_item_alloc ep cachep memory in
      elim memory [
        | none ↦ (held, err)
        | some x ↦ elim err [ success ↦ insert_item held x conn sock flags mask | e ↦ (held, e) ]
      ]

  pub tcp_ep_item_destroy : Eventpoll → ℕ → Eventpoll
  unfolding remove_item_from_readylist tcp_ep_item_free
  tcp_ep_item_destroy ep x =
      let unhooked =
        if (ep.item x).whead then record ep { waiting = without x ep.waiting } else ep in
      let erased = record unhooked { hash_root = rb.rb_erase x unhooked.hash_root } in
      tcp_ep_item_free (remove_item_from_readylist erased x) x

  pub tcp_epoll_remove : Eventpoll → Sock → Eventpoll
  unfolding tcp_ep_item_destroy
  tcp_epoll_remove ep sock = elim (tcp_ep_hash_find (key_of ep) sock ep.hash_root) [
    | none ↦ ep
    | some x ↦ tcp_ep_item_destroy ep x
  ]

pub tcp_epoll_setflags : Eventpoll → Sock → ℕ → Eventpoll × Errno
tcp_epoll_setflags ep sock flags = elim (tcp_ep_hash_find (key_of ep) sock ep.hash_root) [
  | none ↦ (ep, failed)
  | some x ↦ (set_item ep x (record (ep.item x) { event_flags = flags }), success)
]

-- The socket of item `x` wakes its queue; `active` says that the herder sleeps on `poll_wait`.
unfoldable pub tcp_epoll_wakeup : Eventpoll → ℕ → ℕ → Bool → Eventpoll
unfolding tcp_epoll_check_events add_item_to_readylist
tcp_epoll_wakeup ep x polled active =
    let mask = tcp_epoll_check_events (ep.item x) polled in
    let listed = add_item_to_readylist ep x in
    let noted =
      set_item listed x (record (listed.item x) { events = bit_or (listed.item x).events mask }) in
    if mask == 0 then ep else (if active then record noted { should_wake = true } else noted)

-- The body of the loop below: the connection gets the item's events, and the item leaves the ready
-- list, whose other entries are `rest`.
pub report : Eventpoll → ℕ → List ℕ → Eventpoll
report ep x rest =
    let it = ep.item x in
    let noted = record ep { conn_events = update ep.conn_events it.conn it.events } in
    record (set_item noted x (record it { events = 0 })) { ready_list = rest }

-- The loop over the ready list, `room` entries of `conns` being left: what it writes to `conns`.
unfoldable pub collect : ℕ → List ℕ → Eventpoll → List ℕ × Eventpoll
unfolding report
collect room [] ep = ([], ep)
collect zero (x ∷ xs) ep = ([], ep)
collect (suc room) (x ∷ xs) ep =
    let rest = collect room xs (report ep x xs) in ((ep.item x).conn ∷ rest.0, rest.1)

-- `asleep` is what happens to the eventpoll while the herder sleeps.
unfoldable pub sleep_if_empty : Eventpoll → (Eventpoll → Eventpoll) → Eventpoll
sleep_if_empty ep asleep = elim ep.ready_list [
  | [] ↦ record (asleep ep) { should_wake = false }
  | x ∷ xs ↦ ep
]

-- The connections written to `conns`; their number is the result.
pub tcp_epoll_wait : Eventpoll → ℕ → (Eventpoll → Eventpoll) → List ℕ × Eventpoll
unfolding collect sleep_if_empty
tcp_epoll_wait ep maxevents asleep =
    let awake = sleep_if_empty ep asleep in
    elim awake.ready_list [ [] ↦ ([], awake) | x ∷ xs ↦ collect maxevents (x ∷ xs) awake ]

-- The loop destroys the first item, and then reads the next one from the memory just freed.
unfoldable pub tcp_epoll_destroy : Eventpoll → Outcome (Unit {0})
tcp_epoll_destroy ep = elim (Tree.inorder ep.hash_root) [ [] ↦ done tt | x ∷ xs ↦ fault ]

-- `kzalloc` of the eventpoll gives cleared memory, or NULL. What is not there yet is as it was.
unfoldable pub tcp_epoll_init : Eventpoll → Bool → Eventpoll × Errno
tcp_epoll_init memory false = (memory, enomem)
tcp_epoll_init memory true =
    (record memory { ready_list = []; hash_root = Tree.leaf; should_wake = false }, success)
