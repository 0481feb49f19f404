-- ===== src/Http/Hash.antt =====
-- The hash that the second loop of `http_process_connection` computes.
use tcphandoff.Common.{
  ℕ, ◌+◌, ◌*◌, ◌/◌, ◌%◌, ◌^◌, ◌<◌, ◌≡◌, sym, ap, ◌∙◌, List, [], ◌∷◌, arith, length, u32_mod,
  char_to_int,
}
use native.Mathlib.Nat.{mod-add-div', pow-suc, add-mul-mod_self_right}
use tcphandoff.Http.{hash_step}
use tcphandoff.Http.Scan.{hash_from}

-- The polynomial in 31 whose coefficients are the bytes, as `int`s, the first byte's power highest.
abbrev pub uri_poly : List ℕ → ℕ
uri_poly [] = 0
uri_poly (c ∷ cs) = char_to_int c * 31 ^ length cs + uri_poly cs

mul_mod : (k x p : ℕ) → (k * (x % u32_mod) + p) % u32_mod ≡ (k * x + p) % u32_mod
mul_mod k x p =
    sym (add-mul-mod_self_right (k * (x % u32_mod) + p) (k * (x / u32_mod)) u32_mod)
    ∙ ap (λ (t : ℕ). t % u32_mod) (omega (arith, ap (λ (t : ℕ). k * t) (mod-add-div' x u32_mod)))

pub hash_from_poly :
    (h : ℕ) (u : List ℕ) → h < u32_mod → hash_from h u ≡ (31 ^ length u * h + uri_poly u) % u32_mod
hash_from_poly h [] l = omega arith
hash_from_poly h (c ∷ cs) l =
    let n : ℕ = 31 ^ length cs in
    hash_from_poly (hash_step h c) cs (omega arith)
    ∙ mul_mod n (31 * h + char_to_int c) (uri_poly cs)
    ∙ ap (λ (t : ℕ). t % u32_mod) (omega (arith, ap (λ (t : ℕ). t * h) (pow-suc 31 (length cs))))
