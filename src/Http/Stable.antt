-- ===== src/Http/Stable.antt =====
-- Reading on: more bytes do not change a routing decision, complete requests are accepted, and so
-- are some that have not arrived in full.
use tcphandoff.Common.{
  ℕ, zero, suc, ◌≤◌, ◌≡◌, refl, ap, ◌∙◌, ◌≢◌, ◌⊎◌, inl, inr, List, [], ◌∷◌, ◌++◌, append_assoc,
  arith, length, take, All,
}
use tcphandoff.Http.{HttpHeader, found, cr, lf, http_process_connection}
use tcphandoff.Http.Scan.{NoSpace}
use tcphandoff.Http.HeaderEnd.{two_lines-EndsHeader, Occurs-extend}
use tcphandoff.Http.Request.{line, uri_hash, http_process_connection-found_iff}

take_longer : (n k : ℕ) (xs : List ℕ) → n ≤ k → (ys : List ℕ) × (take k xs ≡ take n xs ++ ys)
take_longer zero k xs h = (take k xs, refl)
take_longer (suc n) zero xs h = absurd (omega arith)
take_longer (suc n) (suc k) [] h = ([], refl)
take_longer (suc n) (suc k) (x ∷ xs) h =
    let (ys, e) = take_longer n k xs (omega arith) in (ys, ap (◌∷◌ x) e)

line-append : (m u t ys : List ℕ) → line m u t ++ ys ≡ line m u (t ++ ys)
line-append m u t ys = simp append_assoc

-- The decision on the first `n` bytes stands when the buffer has been filled up to `k`: the status
-- is success with the same hash. The bytes read lie within the buffer.
pub found_stable :
    (hdr : HttpHeader) (n k h : ℕ)
    → n ≤ k
    → k ≤ length hdr.buffer
    → (http_process_connection hdr n).1 ≡ found h
    → (http_process_connection hdr k).1 ≡ found h
found_stable hdr n k h le l q =
    let r = (http_process_connection-found_iff hdr n h (omega arith)).0 q in
    let (ys, e) = take_longer n k hdr.buffer le in
    (http_process_connection-found_iff hdr k h l).1 (record {
      method = r.method;
      uri = r.uri;
      tail = r.tail ++ ys;
      is_line = e ∙ ap (λ (x : List ℕ). x ++ ys) r.is_line ∙ line-append r.method r.uri r.tail ys;
      method_clean = r.method_clean;
      uri_clean = r.uri_clean;
      ends = Occurs-extend _ r.tail ys r.ends;
      hashed = r.hashed;
    })

-- A request whose bytes after the second space hold two line ends, adjacent (a complete header) or
-- not, is accepted with the hash of its URI. The bytes read lie within the buffer.
pub two_lines_found :
    (hdr : HttpHeader) (n : ℕ) (m u a b c : List ℕ)
    → n ≤ length hdr.buffer
    → take n hdr.buffer ≡ line m u (a ++ (cr ∷ lf ∷ (b ++ (cr ∷ lf ∷ c))))
    → NoSpace m
    → NoSpace u
    → (http_process_connection hdr n).1 ≡ found (uri_hash u)
two_lines_found hdr n m u a b c l e nm nu =
    (http_process_connection-found_iff hdr n (uri_hash u) l).1 (record {
      method = m;
      uri = u;
      tail = a ++ (cr ∷ lf ∷ (b ++ (cr ∷ lf ∷ c)));
      is_line = e;
      method_clean = nm;
      uri_clean = nu;
      ends = two_lines-EndsHeader a b c;
      hashed = refl;
    })

-- CR LF CR LF at the front.
abbrev pub StartsBlank : List ℕ → Type 0
StartsBlank (a ∷ b ∷ c ∷ d ∷ xs) = (a ≡ cr) × (b ≡ lf) × (c ≡ cr) × (d ≡ lf)
StartsBlank _ = ⊥

-- CR LF CR LF somewhere: the blank line that ends a header.
abbrev pub HasBlank : List ℕ → Type 0
HasBlank [] = ⊥
HasBlank (x ∷ xs) = StartsBlank (x ∷ xs) ⊎ HasBlank xs

abbrev pub NoCr : List ℕ → Type 0
NoCr xs = All (λ c. c ≢ cr) xs

StartsBlank-head : (x : ℕ) (xs : List ℕ) → StartsBlank (x ∷ xs) → x ≡ cr
StartsBlank-head x [] h = absurd h
StartsBlank-head x (_ ∷ []) h = absurd h
StartsBlank-head x (_ ∷ _ ∷ []) h = absurd h
StartsBlank-head x (_ ∷ _ ∷ _ ∷ xs) h = h.0

StartsBlank-third : (p q x : ℕ) (xs : List ℕ) → StartsBlank (p ∷ q ∷ x ∷ xs) → x ≡ cr
StartsBlank-third p q x [] h = absurd h
StartsBlank-third p q x (_ ∷ xs) h = h.2

HasBlank-strip : (xs ys : List ℕ) → NoCr xs → HasBlank (xs ++ ys) → HasBlank ys
HasBlank-strip [] ys n h = h
HasBlank-strip (x ∷ xs) ys n (inl s) = absurd (n.0 (StartsBlank-head x (xs ++ ys) s))
HasBlank-strip (x ∷ xs) ys n (inr h) = HasBlank-strip xs ys n.1 h

-- One header line, its end, a second line that is not empty, and its end.
abbrev pub partial_header : List ℕ → ℕ → List ℕ → List ℕ
partial_header a x b = a ++ (cr ∷ lf ∷ ((x ∷ b) ++ (cr ∷ lf ∷ [])))

partial_header-no_blank :
    (a : List ℕ) (x : ℕ) (b : List ℕ) → NoCr a → NoCr (x ∷ b) → ¬ HasBlank (partial_header a x b)
partial_header-no_blank a x b na nb h = go (HasBlank-strip a _ na h)
  where
    last_two : ¬ HasBlank (cr ∷ lf ∷ [])
    last_two (inl s) = s
    last_two (inr (inl s)) = s
    last_two (inr (inr s)) = s

    go : ¬ HasBlank (cr ∷ lf ∷ ((x ∷ b) ++ (cr ∷ lf ∷ [])))
    go (inl s) = nb.0 (StartsBlank-third cr lf x (b ++ (cr ∷ lf ∷ [])) s)
    go (inr (inl s)) = absurd (omega (arith, StartsBlank-head lf ((x ∷ b) ++ (cr ∷ lf ∷ [])) s))
    go (inr (inr s)) = last_two (HasBlank-strip (x ∷ b) _ nb s)

-- A header whose second line is not empty and whose blank line has not come is accepted: its bytes
-- after the second space are a line `a` and a line `x ∷ b`, each without a carriage return and
-- followed by a line end; they hold no blank line, and the status is still success. The method and
-- the URI have no space, and the bytes read lie within the buffer.
pub partial_header_found :
    (hdr : HttpHeader) (n : ℕ) (m u a : List ℕ) (x : ℕ) (b : List ℕ)
    → n ≤ length hdr.buffer
    → take n hdr.buffer ≡ line m u (partial_header a x b)
    → NoSpace m
    → NoSpace u
    → NoCr a
    → NoCr (x ∷ b)
    → ((http_process_connection hdr n).1 ≡ found (uri_hash u)) × ¬ HasBlank (partial_header a x b)
partial_header_found hdr n m u a x b l e nm nu na nb =
    (two_lines_found hdr n m u a (x ∷ b) [] l e nm nu, partial_header-no_blank a x b na nb)
