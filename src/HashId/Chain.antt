-- ===== src/HashId/Chain.antt =====
-- The lists of nodes, and what a removal does to the links.
use native.Mathlib.Decide.{dec_lt}
use jsmj_server.Base.{
  ℕ, zero, suc, ◌+◌, ◌≤◌, ◌<◌, ◌≡◌, ◌≢◌, refl, ap, Option, none, some, List, [], ◌∷◌, ◌++◌, arith,
  length, update, listings, listings-append, listings_self,
}

-- From the pointer `p`, following `next`, one meets `xs` and then NULL.
abbrev pub Chain : (ℕ → Option ℕ) → Option ℕ → List ℕ → Type 0
Chain next p [] = p ≡ none
Chain next p (x ∷ xs) = (p ≡ some x) × Chain next (next x) xs

abbrev pub IsOnce : List ℕ → Type 0
IsOnce xs = (a : ℕ) → listings a xs ≤ 1

-- A write at a node that is not on the list leaves the list.
pub Chain-update :
    (next : ℕ → Option ℕ) (p : Option ℕ) (xs : List ℕ) (t : ℕ) (v : Option ℕ)
    → listings t xs ≡ 0
    → Chain next p xs
    → Chain (update next t v) p xs
Chain-update next p [] t v off c = c
Chain-update next p (x ∷ xs) t v off c =
    (c.0, rw kept (Chain-update next (next x) xs t v (ground arith) c.1))
  where
    kept : update next t v x ≡ next x
    kept = ground arith

pub IsOnce-tail : (x : ℕ) (xs : List ℕ) → IsOnce (x ∷ xs) → IsOnce xs × (listings x xs ≡ 0)
IsOnce-tail x xs once = (λ a. omega (arith, once a), omega (arith, once x, listings_self x xs))

-- `t` follows `p` on the list: the link of `p` skips it.
pub Chain-skip :
    (next : ℕ → Option ℕ) (q : Option ℕ) (front back : List ℕ) (p t : ℕ)
    → IsOnce (front ++ (p ∷ t ∷ back))
    → Chain next q (front ++ (p ∷ t ∷ back))
    → Chain (update (update next p (next t)) t none) q (front ++ (p ∷ back))
Chain-skip next q [] back p t once c =
    let (once', off_p) = IsOnce-tail p (t ∷ back) once in
    let (_, off_t) = IsOnce-tail t back once' in
    let p_t : t ≢ p =
      λ e. absurd (omega (arith, off_p, listings_self t back, ap (λ x. listings x (t ∷ back)) e)) in
    let linked : update (update next p (next t)) t none p ≡ next t = ground (arith, p_t) in
    (
      c.0,
      rw linked (
          Chain-update (update next p (next t)) (next t) back t none off_t
            (Chain-update next (next t) back p (next t) (omega (arith, off_p)) c.1.1)),
    )
Chain-skip next q (x ∷ front) back p t once c =
    let (once', off) = IsOnce-tail x (front ++ (p ∷ t ∷ back)) once in
    let sum = listings-append x front (p ∷ t ∷ back) in
    let x_p : p ≢ x = λ e. absurd (
      omega (arith, off, sum, listings_self p (t ∷ back), ap (λ y. listings y (p ∷ t ∷ back)) e)) in
    let x_t : t ≢ x = λ e.
      absurd (omega (arith, off, sum, listings_self t back, ap (λ y. listings y (t ∷ back)) e)) in
    let kept : update (update next p (next t)) t none x ≡ next x = ground (arith, x_p, x_t) in
    (c.0, rw kept (Chain-skip next (next x) front back p t once' c.1))

-- the numbers below `n` on the list, each as often as it is listed
total : ℕ → List ℕ → ℕ
total zero xs = 0
total (suc n) xs = total n xs + listings n xs

total-cons_of_le : (n x : ℕ) (xs : List ℕ) → n ≤ x → total n (x ∷ xs) ≡ total n xs
unfolding total
total-cons_of_le zero x xs h = refl
total-cons_of_le (suc n) x xs h = ground (arith, total-cons_of_le n x xs)

total-cons : (n x : ℕ) (xs : List ℕ) → x < n → total n (x ∷ xs) ≡ suc (total n xs)
unfolding total
total-cons zero x xs h = absurd (omega arith)
total-cons (suc n) x xs h = elim (dec_lt x n) [
  | yes below ↦ ground (arith, total-cons n x xs below)
  | no last ↦ ground (arith, total-cons_of_le n x xs)
]

total-le : (n : ℕ) (xs : List ℕ) → IsOnce xs → total n xs ≤ n
unfolding total
total-le zero xs once = omega arith
total-le (suc n) xs once = omega (arith, total-le n xs once, once n)

total_nil : (n : ℕ) → total n [] ≡ 0
unfolding total
total_nil zero = refl
total_nil (suc n) = omega (arith, total_nil n)

length-eq-total :
    (n : ℕ) (xs : List ℕ) → ((a : ℕ) → 0 < listings a xs → a < n) → length xs ≡ total n xs
unfolding total
length-eq-total n [] below = omega (arith, total_nil n)
length-eq-total n (x ∷ xs) below = omega (
  arith,
  length-eq-total n xs (λ a h. below a (omega (arith, h))),
  total-cons n x xs (below x (omega (arith, listings_self x xs))),
)

-- A list of different numbers below `n` has at most `n` of them.
pub length-le :
    (n : ℕ) (xs : List ℕ) → IsOnce xs → ((a : ℕ) → 0 < listings a xs → a < n) → length xs ≤ n
length-le n xs once below = omega (arith, length-eq-total n xs below, total-le n xs once)
