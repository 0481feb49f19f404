-- ===== src/Http/Scan.antt =====
-- Where the first two loops of `http_process_connection` stop.
use tcphandoff.Common.{
  ℕ, ◌+◌, ◌≢◌, ◌≡◌, ap, ◌⊎◌, inl, inr, List, [], ◌∷◌, ◌++◌, length, All, arith, ℕ_discrete,
}
use tcphandoff.Http.{sp, skip_method, hash_uri, hash_step}

-- No byte is a space.
abbrev pub NoSpace : List ℕ → Type 0
NoSpace xs = All (λ c. c ≢ sp) xs

-- A list has no space, or splits at its first one.
abbrev pub Splits : List ℕ → Type 0
Splits xs = NoSpace xs ⊎ ((m r : List ℕ) × (xs ≡ m ++ sp ∷ r) × NoSpace m)

pub split_cons : (c : ℕ) (cs : List ℕ) → c ≢ sp → Splits cs → Splits (c ∷ cs)
split_cons c cs n (inl all) = inl (n, all)
split_cons c cs n (inr (m, r, e, all)) = inr (c ∷ m, r, ap (◌∷◌ c) e, (n, all))

pub split_at_space : (xs : List ℕ) → Splits xs
split_at_space [] = inl tt
split_at_space (c ∷ cs) = elim (ℕ_discrete c sp) [
  | yes e ↦ inr ([], cs, ap (λ x. x ∷ cs) e, tt)
  | no n ↦ split_cons c cs n (split_at_space cs)
]

-- The URI's hash as the loop accumulates it.
abbrev pub hash_from : ℕ → List ℕ → ℕ
hash_from h [] = h
hash_from h (c ∷ cs) = hash_from (hash_step h c) cs

pub skip_method_stops :
    (i : ℕ) (m r : List ℕ) → NoSpace m → skip_method i (m ++ sp ∷ r) ≡ (i + length m, sp ∷ r)
unfolding skip_method
skip_method_stops i [] r n = ground arith
skip_method_stops i (c ∷ m) r n = ground (arith, skip_method_stops (i + 1) m r)

pub skip_method_ends : (i : ℕ) (m : List ℕ) → NoSpace m → skip_method i m ≡ (i + length m, [])
unfolding skip_method
skip_method_ends i [] n = ground arith
skip_method_ends i (c ∷ m) n = ground (arith, skip_method_ends (i + 1) m)

pub hash_uri_stops :
    (i h : ℕ) (u r : List ℕ)
    → NoSpace u
    → hash_uri i h (u ++ sp ∷ r) ≡ (i + length u, hash_from h u, sp ∷ r)
unfolding hash_uri
hash_uri_stops i h [] r n = ground arith
hash_uri_stops i h (c ∷ u) r n = ground (arith, hash_uri_stops (i + 1) (hash_step h c) u r)

pub hash_uri_ends :
    (i h : ℕ) (u : List ℕ) → NoSpace u → hash_uri i h u ≡ (i + length u, hash_from h u, [])
unfolding hash_uri
hash_uri_ends i h [] n = ground arith
hash_uri_ends i h (c ∷ u) n = ground (arith, hash_uri_ends (i + 1) (hash_step h c) u)
