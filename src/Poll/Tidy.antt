-- ===== src/Poll/Tidy.antt =====
-- What the operations keep of an eventpoll whose ready items all wait on a queue, each for a
-- connection of its own.
pub mod Change
pub mod Count
use tcphandoff.Common.{
  ℕ, zero, suc, ◌+◌, ◌-◌, ◌*◌, ◌/◌, ◌%◌, ◌^◌, ◌≤◌, ◌<◌, min, bit_and, bit_or, ◌≡◌, refl, sym, ap,
  ◌∙◌, subst, fun_ext, ◌≢◌, ◌↔◌, ◌⊎◌, inl, inr, Bool, true, false, not, ◌&&◌, ◌||◌, Option, none,
  some, List, [], ◌∷◌, ◌++◌, map, append-nil, append_assoc, arith, dec_lt, ℕ_discrete, ltb, leb,
  ◌==◌, if◌then◌else◌, ltb→lt, lt→ltb, leb→le, ==_iff, tests, Bool-cases, Option-cases, length,
  get_or, take, drop, replicate, All, length-append, length-take, take-append-drop, length-drop,
  length-replicate, take-append, get_or-append, get_or-take, All-append, All-left, All-right,
  All-mono, All-both, member, u32_mod, char_to_int, is_negative, Outcome, done, deadlock, fault,
  ◌>>=◌, Received, got, failed, write_at,
}
use tcphandoff.Sock.{Sock}
use tcphandoff.Sock.Order.{IsNear}
use tcphandoff.Poll.Tree.{inorder, without, RbTree, tcp_ep_hash_find}
use tcphandoff.Poll.Tree.Find.{at, Near}
use tcphandoff.Poll.Tree.Sorted.{Falls}
use tcphandoff.Poll.{
  Eventpoll, Item, Errno, success, update, key_of, set_item, tcp_epoll_insert, tcp_epoll_remove,
  tcp_epoll_setflags, tcp_epoll_wakeup, tcp_epoll_wait, sleep_if_empty, report, collect,
}
use tcphandoff.Poll.Ready.{Distinct, wakeup-Distinct}
use tcphandoff.Poll.Wait.{All-member, conn_of, collect_ready, wait-collect}
use tcphandoff.Poll.Lifetime.{Held, Held-fresh, IsSound}
use tcphandoff.Poll.Insert.{Added, tcp_epoll_insert-IsSound, tcp_epoll_insert-Added}
use tcphandoff.Poll.Remove.{Without, tcp_epoll_remove-IsSound, tcp_epoll_remove_cases}

-- The entries of the first list are in the second.
abbrev pub Within : List ℕ → List ℕ → Type 0
Within xs ys = All (λ x. member x ys ≡ true) xs

-- A sound eventpoll in which every item on the ready list waits, and no two items that wait have the
-- same connection.
pub record IsTidy (base : ℕ) (b : base < u32_mod) (ep : Eventpoll) : Type 0 where
  pub sound : IsSound base b ep
  pub watched : Within ep.ready_list ep.waiting
  pub conns : Distinct (map (conn_of ep) ep.waiting)

-- Nothing has changed but the ready list, the flags and events of items, and what is no item.
pub record Kept (ep after : Eventpoll) : Type 0 where
  pub same_allocated : after.allocated ≡ ep.allocated
  pub same_waiting : after.waiting ≡ ep.waiting
  pub same_root : after.hash_root ≡ ep.hash_root
  pub same_key : key_of after ≡ key_of ep
  pub same_head : (y : ℕ) → (after.item y).whead ≡ (ep.item y).whead
  pub same_conn : conn_of after ≡ conn_of ep

Kept-trans : (s t u : Eventpoll) → Kept s t → Kept t u → Kept s u
Kept-trans s t u p q = record {
  same_allocated = q.same_allocated ∙ p.same_allocated;
  same_waiting = q.same_waiting ∙ p.same_waiting;
  same_root = q.same_root ∙ p.same_root;
  same_key = q.same_key ∙ p.same_key;
  same_head = λ y. q.same_head y ∙ p.same_head y;
  same_conn = q.same_conn ∙ p.same_conn;
}

pub Kept-refl : (s : Eventpoll) → Kept s s
Kept-refl s = record {
  same_allocated = refl;
  same_waiting = refl;
  same_root = refl;
  same_key = refl;
  same_head = λ y. refl;
  same_conn = refl;
}

All-Within : (P : ℕ → Type 0) (xs ys : List ℕ) → All P ys → Within xs ys → All P xs
All-Within P xs ys a w = All-mono xs (λ x m. All-member P x ys a m) w

All-drop : (P : ℕ → Type 0) (n : ℕ) (xs : List ℕ) → All P xs → All P (drop n xs)
All-drop P zero xs a = a
All-drop P (suc n) [] a = tt
All-drop P (suc n) (x ∷ xs) a = All-drop P n xs a.1

pub Distinct-drop : (n : ℕ) (xs : List ℕ) → Distinct xs → Distinct (drop n xs)
Distinct-drop zero xs d = d
Distinct-drop (suc n) [] d = tt
Distinct-drop (suc n) (x ∷ xs) d = Distinct-drop n xs d.1

flags_of-Kept :
    (ep : Eventpoll) (x flags : ℕ)
    → Kept ep (set_item ep x (record (ep.item x) { event_flags = flags }))
flags_of-Kept ep x flags = record {
  same_allocated = refl;
  same_waiting = refl;
  same_root = refl;
  same_key = fun_ext λ y. ground arith;
  same_head = λ y. ground arith;
  same_conn = fun_ext λ y. ground arith;
}

module _ (base : ℕ) (b : base < u32_mod) where
  Kept-IsTidy :
      (ep after : Eventpoll)
      → Kept ep after
      → Distinct after.ready_list
      → Within after.ready_list ep.waiting
      → IsTidy base b ep
      → IsTidy base b after
  Kept-IsTidy ep after k d w t =
      let s = t.sound in
      record {
        sound = record {
          ready_held = rw k.same_allocated (
              All-Within (λ x. ep.allocated x ≡ true) after.ready_list ep.waiting s.waiting_held w);
          waiting_held = rw (k.same_allocated, k.same_waiting) s.waiting_held;
          waiting_heads =
              rw k.same_waiting (All-mono ep.waiting (λ y h. k.same_head y ∙ h) s.waiting_heads);
          tree_held = rw (k.same_allocated, k.same_root) s.tree_held;
          near = rw (k.same_key, k.same_root) s.near;
          falls = rw (k.same_key, k.same_root) s.falls;
          distinct = d;
        };
        watched = rw k.same_waiting w;
        conns = rw (k.same_conn, k.same_waiting) t.conns;
      }

  -- The flags of one item change, or nothing.
  setflags-Kept :
      (ep : Eventpoll) (sock : Sock) (flags : ℕ) → Kept ep (tcp_epoll_setflags ep sock flags).0
  unfolding tcp_epoll_setflags
  setflags-Kept ep sock flags =
      elim (Option-cases (tcp_ep_hash_find (key_of ep) sock ep.hash_root)) [
        | inl e ↦ rw (e, tcp_epoll_setflags) (Kept-refl ep)
        | inr (x, e) ↦ rw (e, tcp_epoll_setflags) (flags_of-Kept ep x flags)
      ]

  setflags_ready :
      (ep : Eventpoll) (sock : Sock) (flags : ℕ)
      → (tcp_epoll_setflags ep sock flags).0.ready_list ≡ ep.ready_list
  unfolding tcp_epoll_setflags
  setflags_ready ep sock flags = ground arith

  pub setflags-IsTidy :
      (ep : Eventpoll) (sock : Sock) (flags : ℕ)
      → IsTidy base b ep
      → IsTidy base b (tcp_epoll_setflags ep sock flags).0
  setflags-IsTidy ep sock flags t =
      Kept-IsTidy ep (tcp_epoll_setflags ep sock flags).0 (setflags-Kept ep sock flags)
        (rw (setflags_ready ep sock flags) t.sound.distinct)
        (rw (setflags_ready ep sock flags) t.watched) t

  pub wakeup-Kept :
      (ep : Eventpoll) (x polled : ℕ) (active : Bool)
      → Kept ep (tcp_epoll_wakeup ep x polled active)
  unfolding tcp_epoll_wakeup
  wakeup-Kept ep x polled active = record {
    same_allocated = ground arith;
    same_waiting = ground arith;
    same_root = ground arith;
    same_key = fun_ext λ y. ground arith;
    same_head = λ y. ground arith;
    same_conn = fun_ext λ y. ground arith;
  }

  wakeup-Within :
      (ep : Eventpoll) (x polled : ℕ) (active : Bool)
      → member x ep.waiting ≡ true
      → Within ep.ready_list ep.waiting
      → Within (tcp_epoll_wakeup ep x polled active).ready_list ep.waiting
  unfolding tcp_epoll_wakeup
  wakeup-Within ep x polled active m w = ground arith

  pub wakeup-IsTidy :
      (ep : Eventpoll) (x polled : ℕ) (active : Bool)
      → member x ep.waiting ≡ true
      → IsTidy base b ep
      → IsTidy base b (tcp_epoll_wakeup ep x polled active)
  wakeup-IsTidy ep x polled active m t =
      Kept-IsTidy ep (tcp_epoll_wakeup ep x polled active) (wakeup-Kept ep x polled active)
        (wakeup-Distinct ep x polled active t.sound.distinct)
        (wakeup-Within ep x polled active m t.watched) t

  report-Kept : (ep : Eventpoll) (x : ℕ) (rest : List ℕ) → Kept ep (report ep x rest)
  unfolding report
  report-Kept ep x rest = record {
    same_allocated = refl;
    same_waiting = refl;
    same_root = refl;
    same_key = fun_ext λ y. ground arith;
    same_head = λ y. ground arith;
    same_conn = fun_ext λ y. ground arith;
  }

  pub collect-Kept : (n : ℕ) (xs : List ℕ) (ep : Eventpoll) → Kept ep (collect n xs ep).1
  unfolding collect
  collect-Kept zero [] ep = Kept-refl ep
  collect-Kept (suc n) [] ep = Kept-refl ep
  collect-Kept zero (x ∷ xs) ep = Kept-refl ep
  collect-Kept (suc n) (x ∷ xs) ep =
      Kept-trans ep (report ep x xs) (collect n xs (report ep x xs)).1 (report-Kept ep x xs)
        (collect-Kept n xs (report ep x xs))

  collect-IsTidy :
      (n : ℕ) (ep : Eventpoll) → IsTidy base b ep → IsTidy base b (collect n ep.ready_list ep).1
  collect-IsTidy n ep t =
      let left = collect_ready n ep.ready_list ep refl in
      Kept-IsTidy ep (collect n ep.ready_list ep).1 (collect-Kept n ep.ready_list ep)
        (rw left (Distinct-drop n ep.ready_list t.sound.distinct))
        (rw left (All-drop (λ x. member x ep.waiting ≡ true) n ep.ready_list t.watched)) t

  awake-IsTidy :
      (ep : Eventpoll) (asleep : Eventpoll → Eventpoll) (ready : List ℕ)
      → ep.ready_list ≡ ready
      → IsTidy base b ep
      → IsTidy base b (asleep ep)
      → IsTidy base b (sleep_if_empty ep asleep)
  unfolding sleep_if_empty
  awake-IsTidy ep asleep [] e t a =
      rw (e, sleep_if_empty)
        (Kept-IsTidy (asleep ep) (record (asleep ep) { should_wake = false })
          (record {
            same_allocated = refl;
            same_waiting = refl;
            same_root = refl;
            same_key = refl;
            same_head = λ y. refl;
            same_conn = refl;
          })
          a.sound.distinct a.watched a)
  awake-IsTidy ep asleep (x ∷ xs) e t a = rw (e, sleep_if_empty) t

  pub wait-IsTidy :
      (ep : Eventpoll) (maxevents : ℕ) (asleep : Eventpoll → Eventpoll)
      → IsTidy base b ep
      → IsTidy base b (asleep ep)
      → IsTidy base b (tcp_epoll_wait ep maxevents asleep).1
  wait-IsTidy ep maxevents asleep t a = rw (wait-collect ep maxevents asleep) (
      collect-IsTidy maxevents (sleep_if_empty ep asleep)
        (awake-IsTidy ep asleep ep.ready_list refl t a))
