-- ===== src/Poll/Tidy/Change.antt =====
-- Insertion and removal of an item keep the eventpoll tidy.
use tcphandoff.Common.{
  ℕ, ◌<◌, ◌≡◌, refl, ap, inl, inr, true, false, some, List, [], ◌∷◌, map, arith, ◌==◌, Bool-cases,
  All, All-mono, member, u32_mod,
}
use tcphandoff.Sock.{Sock}
use tcphandoff.Sock.Order.{IsNear}
use tcphandoff.Poll.Tree.{without, RbTree}
use tcphandoff.Poll.{Eventpoll, Item, success, tcp_epoll_insert, tcp_epoll_remove}
use tcphandoff.Poll.Ready.{Distinct}
use tcphandoff.Poll.Wait.{conn_of}
use tcphandoff.Poll.Lifetime.{Held-fresh, IsSound}
use tcphandoff.Poll.Insert.{Added, tcp_epoll_insert-IsSound, tcp_epoll_insert-Added}
use tcphandoff.Poll.Remove.{Without, tcp_epoll_remove-IsSound, tcp_epoll_remove_cases}
use tcphandoff.Poll.Tidy.{Within, IsTidy}

map_same :
    (f g : ℕ → ℕ) (x : ℕ) (xs : List ℕ)
    → ((y : ℕ) → (x == y) ≡ false → f y ≡ g y)
    → All (λ y. (x == y) ≡ false) xs
    → map f xs ≡ map g xs
map_same f g x [] e a = refl
map_same f g x (y ∷ ys) e a = rw (e y a.0, map_same f g x ys e a.1) refl

Within-cons : (x : ℕ) (xs ys : List ℕ) → Within xs ys → Within xs (x ∷ ys)
Within-cons x xs ys w = All-mono xs (λ y m. ground arith) w

member-without_other :
    (x y : ℕ) (xs : List ℕ) → (x == y) ≡ false → member y xs ≡ true → member y (without x xs) ≡ true
member-without_other x y [] n m = absurd (cc)
member-without_other x y (z ∷ zs) n m = ground (arith, member-without_other x y zs n)

Within-without : (x : ℕ) (xs ys : List ℕ) → Within xs ys → Within (without x xs) (without x ys)
Within-without x [] ys w = tt
Within-without x (z ∷ zs) ys w = elim (Bool-cases (x == z)) [
  | inl e ↦ rw e (Within-without x zs ys w.1)
  | inr n ↦ rw n (member-without_other x z ys n w.0, Within-without x zs ys w.1)
]

member-map-without :
    (f : ℕ → ℕ) (a x : ℕ) (xs : List ℕ)
    → member a (map f xs) ≡ false
    → member a (map f (without x xs)) ≡ false
member-map-without f a x [] m = refl
member-map-without f a x (y ∷ ys) m = ground (arith, member-map-without f a x ys)

Distinct-map-without :
    (f : ℕ → ℕ) (x : ℕ) (xs : List ℕ) → Distinct (map f xs) → Distinct (map f (without x xs))
Distinct-map-without f x [] d = tt
Distinct-map-without f x (y ∷ ys) d = elim (Bool-cases (x == y)) [
  | inl e ↦ rw e (Distinct-map-without f x ys d.1)
  | inr n ↦ rw n (member-map-without f (f y) x ys d.0, Distinct-map-without f x ys d.1)
]

module _ (base : ℕ) (b : base < u32_mod) (rb : RbTree) where
  Added-conns :
      (ep after : Eventpoll) (x conn : ℕ)
      → IsTidy base b ep
      → ep.allocated x ≡ false
      → Added x conn ep after
      → member conn (map (conn_of ep) ep.waiting) ≡ false
      → Distinct (map (conn_of after) (x ∷ ep.waiting))
  Added-conns ep after x conn t fresh a new =
      let same =
        map_same (conn_of after) (conn_of ep) x ep.waiting
          (λ y n. ap (λ (i : Item). i.conn) (a.other y n))
          (Held-fresh ep x ep.waiting fresh t.sound.waiting_held) in
      (rw (same, a.own) new, rw same t.conns)

  Added-watched :
      (ep after : Eventpoll) (x conn : ℕ)
      → IsTidy base b ep
      → Added x conn ep after
      → Within after.ready_list (x ∷ ep.waiting)
  Added-watched ep after x conn t a = elim a.now_ready [
    | inl e ↦ rw e (Within-cons x ep.ready_list ep.waiting t.watched)
    | inr e ↦ rw e (ground arith, Within-cons x ep.ready_list ep.waiting t.watched)
  ]

  pub insert-IsTidy :
      (ep : Eventpoll) (x conn : ℕ) (sock : Sock) (flags polled : ℕ)
      → IsTidy base b ep
      → ep.allocated x ≡ false
      → IsNear base sock
      → member conn (map (conn_of ep) ep.waiting) ≡ false
      → (tcp_epoll_insert rb ep conn sock flags true (some x) polled).1 ≡ success
      → IsTidy base b (tcp_epoll_insert rb ep conn sock flags true (some x) polled).0
  insert-IsTidy ep x conn sock flags polled t fresh near new ok =
      let after = (tcp_epoll_insert rb ep conn sock flags true (some x) polled).0 in
      let a = tcp_epoll_insert-Added base b rb ep t.sound x conn sock flags polled fresh near ok in
      record {
        sound =
            tcp_epoll_insert-IsSound base b rb ep t.sound x conn sock flags polled fresh near ok;
        watched = rw a.now_waiting (Added-watched ep after x conn t a);
        conns = rw a.now_waiting (Added-conns ep after x conn t fresh a new);
      }

  Without-IsTidy :
      (ep after : Eventpoll) (x : ℕ)
      → IsTidy base b ep
      → IsSound base b after
      → Without x ep after
      → IsTidy base b after
  Without-IsTidy ep after x t s w = record {
    sound = s;
    watched = rw (w.ready, w.hooks) (Within-without x ep.ready_list ep.waiting t.watched);
    conns = rw (w.items, w.hooks) (Distinct-map-without (conn_of ep) x ep.waiting t.conns);
  }

  pub remove-IsTidy :
      (ep : Eventpoll) (sock : Sock)
      → IsTidy base b ep
      → IsTidy base b (tcp_epoll_remove rb ep sock)
  remove-IsTidy ep sock t = elim (tcp_epoll_remove_cases base b rb ep sock t.sound) [
    | inl e ↦ rw e t
    | inr (x, w) ↦
        Without-IsTidy ep (tcp_epoll_remove rb ep sock) x t
          (tcp_epoll_remove-IsSound base b rb ep sock t.sound).0 w
  ]
