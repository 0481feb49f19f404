-- ===== src/Poll/Cache.antt =====
-- frontend/tcpha_fe_poll.c: the cache for items, which the first eventpoll creates and the last one
-- destroys.
mod Examples
use tcphandoff.Common.{
  ℕ, zero, suc, ◌+◌, ◌-◌, ◌*◌, ◌/◌, ◌%◌, ◌^◌, ◌≤◌, ◌<◌, min, bit_and, bit_or, ◌≡◌, refl, sym, ap,
  ◌∙◌, subst, fun_ext, ◌≢◌, ◌↔◌, ◌⊎◌, inl, inr, Bool, true, false, not, ◌&&◌, ◌||◌, Option, none,
  some, List, [], ◌∷◌, ◌++◌, map, append-nil, append_assoc, arith, dec_lt, ℕ_discrete, ltb, leb,
  ◌==◌, if◌then◌else◌, if_true, if_false, if_true, if_false, ltb→lt, lt→ltb, leb→le, ==_iff, tests,
  Bool-cases, Option-cases, length, get_or, take, drop, replicate, All, length-append, length-take,
  take-append-drop, length-drop, length-replicate, take-append, get_or-append, get_or-take,
  All-append, All-left, All-right, All-mono, All-both, member, u32_mod, char_to_int, is_negative,
  Outcome, done, deadlock, fault, ◌>>=◌, IfDone, IfDone-any, IfDone-bind, bind_done, Received, got,
  failed, write_at,
}
use tcphandoff.Common.{Cache, null, live, destroyed}

-- `item_cache_use` and `tcp_ep_item_cachep`.
pub record ItemCache : Type 0 where
  pub item_cache_use : ℕ
  pub tcp_ep_item_cachep : Cache

-- The end of `tcp_epoll_init`; the kernel creates the cache or panics.
pub use_cache : ItemCache → ItemCache
use_cache k =
    let used = (k.item_cache_use + 1) % u32_mod in
    if used == 1
    then record { item_cache_use = used; tcp_ep_item_cachep = live }
    else record k { item_cache_use = used }

-- The end of `tcp_epoll_destroy`.
pub drop_cache : ItemCache → ItemCache
drop_cache k =
    let used = (k.item_cache_use + u32_mod - 1) % u32_mod in
    if used == 0
    then record { item_cache_use = used; tcp_ep_item_cachep = destroyed }
    else record k { item_cache_use = used }

-- An eventpoll is initialised, where there is memory for it or not, or destroyed.
pub data Use : Type 0 where
  inits : Bool → Use
  destroys : Use

pub cache_step : ItemCache → Use → ItemCache
unfolding use_cache drop_cache
cache_step k (inits true) = use_cache k
cache_step k (inits false) = k
cache_step k destroys = drop_cache k

pub cache_steps : ItemCache → List Use → ItemCache
unfolding cache_step
cache_steps k [] = k
cache_steps k (u ∷ us) = cache_steps (cache_step k u) us

-- The eventpolls that there are after some of these.
abbrev pub eventpolls : ℕ → List Use → ℕ
eventpolls n [] = n
eventpolls n (inits true ∷ us) = eventpolls (n + 1) us
eventpolls n (inits false ∷ us) = eventpolls n us
eventpolls n (destroys ∷ us) = eventpolls (n - 1) us

-- Only an eventpoll that is there is destroyed, and their number has 32 bits.
abbrev pub Paired : ℕ → List Use → Type 0
Paired n [] = Unit
Paired n (inits true ∷ us) = (n + 1 < u32_mod) × Paired (n + 1) us
Paired n (inits false ∷ us) = Paired n us
Paired n (destroys ∷ us) = (0 < n) × Paired (n - 1) us

-- The users are counted, and the cache is there exactly while there are some.
pub record Counts (n : ℕ) (k : ItemCache) : Type 0 where
  pub count : k.item_cache_use ≡ n
  pub used : 0 < n → k.tcp_ep_item_cachep ≡ live
  pub unused : n ≡ 0 → k.tcp_ep_item_cachep ≢ live

use-Counts : (n : ℕ) (k : ItemCache) → n + 1 < u32_mod → Counts n k → Counts (n + 1) (use_cache k)
unfolding use_cache
use-Counts n k h c = record {
  count = ground (arith, c.count);
  used = λ p. ground (arith, c.count, c.used);
  unused = λ e. absurd (omega arith);
}

drop-Counts :
    (n : ℕ) (k : ItemCache) → 0 < n → n < u32_mod → Counts n k → Counts (n - 1) (drop_cache k)
unfolding drop_cache
drop-Counts n k p h c = record {
  count = ground (arith, c.count);
  used = λ q. ground (arith, c.count, c.used p);
  unused = λ e q. ground (arith, c.count);
}

-- In whatever order eventpolls are initialised and destroyed, `item_cache_use` is the number of those that
-- there are, and the cache for items exists exactly while there is one; an eventpoll for which there is no
-- memory does not count. Only an eventpoll that is there is destroyed, and there are fewer than 2^32.
pub cache_steps-Counts :
    (us : List Use) (n : ℕ) (k : ItemCache)
    → n < u32_mod
    → Counts n k
    → Paired n us
    → Counts (eventpolls n us) (cache_steps k us)
unfolding cache_steps
cache_steps-Counts [] n k h c p = c
cache_steps-Counts (inits true ∷ us) n k h c p =
    cache_steps-Counts us (n + 1) (use_cache k) p.0 (use-Counts n k p.0 c) p.1
cache_steps-Counts (inits false ∷ us) n k h c p = cache_steps-Counts us n k h c p
cache_steps-Counts (destroys ∷ us) n k h c p =
    cache_steps-Counts us (n - 1) (drop_cache k) (omega (arith, h)) (drop-Counts n k p.0 h c) p.1
