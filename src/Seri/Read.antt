-- ===== src/Seri/Read.antt =====
-- Numbers and strings in a stream of skynet/lualib-src/lua-seri.c are read as they were written.
use jsmj_server.Base.{
  ℕ, zero, suc, ◌-◌, ◌*◌, ◌/◌, ◌%◌, ◌^◌, ◌≤◌, ◌<◌, ◌≡◌, refl, ap, ◌∙◌, true, false, List, [], ◌∷◌,
  ◌++◌, arith, length, ltb, ◌==◌, Bool-cases, inl, inr, some, ◌>>=◌, length-append, take-length,
  drop-length,
}
use jsmj_server.Seri.{bytes_of, combine_type, type_number, is_wide, is_negative}
use jsmj_server.Seri.Stream.{rb_read, number_of, get_number, get_integer, extended}
use jsmj_server.Seri.Encode.{integer_bytes, number_bytes}

-- the first number that `k` bytes cannot hold
abbrev pub limit : ℕ → ℕ
limit zero = 1
limit (suc k) = 2 ^ 8 * limit k

pub bytes_of-length : (k n : ℕ) → length (bytes_of k n) ≡ k
unfolding bytes_of
bytes_of-length zero n = refl
bytes_of-length (suc k) n = ap suc (bytes_of-length k (n / 2 ^ 8))

number_of-bytes_of : (k n : ℕ) → n < limit k → number_of (bytes_of k n) ≡ n
unfolding number_of bytes_of
number_of-bytes_of zero n h = omega arith
number_of-bytes_of (suc k) n h = omega (arith, number_of-bytes_of k (n / 2 ^ 8) (omega arith))

pub rb_read-append :
    (n : ℕ) (xs rest : List ℕ) → length xs ≡ n → rb_read n (xs ++ rest) ≡ some (xs, rest)
unfolding rb_read
rb_read-append n xs rest e =
    let there : ltb (length (xs ++ rest)) n ≡ false = ground (arith, e, length-append xs rest) in
    rw (there, ← e, take-length xs rest, drop-length xs rest) refl

pub get_number-bytes_of :
    (k n : ℕ) (rest : List ℕ) → n < limit k → get_number k (bytes_of k n ++ rest) ≡ some (n, rest)
unfolding get_number
get_number-bytes_of k n rest h =
    rw (rb_read-append k (bytes_of k n) rest (bytes_of-length k n), number_of-bytes_of k n h) refl

-- Four bytes keep the lower half of a number.
get_number-low_half :
    (n : ℕ) (rest : List ℕ) → get_number 4 (bytes_of 4 n ++ rest) ≡ some (n % 2 ^ 32, rest)
unfolding get_number
get_number-low_half n rest =
    let low : number_of (bytes_of 4 n) ≡ n % 2 ^ 32 = unfold number_of bytes_of in omega arith in
    rw (rb_read-append 4 (bytes_of 4 n) rest (bytes_of-length 4 n), low) refl

-- an integer behind its type
abbrev pub ReadsInteger : ℕ → List ℕ → Type 0
ReadsInteger v bytes =
    (cookie : ℕ) × (tail : List ℕ) × (bytes ≡ combine_type type_number cookie ∷ tail)
    × ((cookie == 8) ≡ false)
    × ((rest : List ℕ) → get_integer cookie (tail ++ rest) ≡ some (v, rest))

reads_negative : (v : ℕ) → 2 ^ 64 - 2 ^ 31 ≤ v → v < 2 ^ 64 → ReadsInteger v (number_bytes 4 4 v)
unfolding get_integer
reads_negative v lo hi = (
  4,
  bytes_of 4 v,
  refl,
  refl,
  λ rest.
      let same : extended (v % 2 ^ 32) ≡ v =
        let high : ltb (v % 2 ^ 32) (2 ^ 31) ≡ false =
          ground (arith, (let e : 2 ^ 31 ≤ v % 2 ^ 32 = omega arith in e)) in
        rw high (omega arith) in
      ap (λ o. o >>= λ r. some (extended r.0, r.1)) (get_number-low_half v rest)
      ∙ ap (λ n. some (n, rest)) same,
)

reads_positive : (v : ℕ) → v < 2 ^ 31 → ReadsInteger v (number_bytes 4 4 v)
unfolding get_integer
reads_positive v h = (
  4,
  bytes_of 4 v,
  refl,
  refl,
  λ rest.
      let low : ltb v (2 ^ 31) ≡ true = ground arith in
      ap (λ o. o >>= λ r. some (extended r.0, r.1)) (get_number-bytes_of 4 v rest (omega arith))
      ∙ rw low refl,
)

-- Whatever the width that `wb_integer` chooses, `get_integer` returns the number.
pub integer_bytes-ReadsInteger : (v : ℕ) → v < 2 ^ 64 → ReadsInteger v (integer_bytes v)
unfolding get_integer
integer_bytes-ReadsInteger v h = elim (Bool-cases (v == 0)) [
  | inl zero_there ↦
      rw zero_there
        (0, [], refl, refl, λ rest. ap (λ n. some (n, rest)) (ground (arith, zero_there)))
  | inr not_zero ↦ elim (Bool-cases (is_wide v)) [
    | inl wide ↦
        rw (not_zero, wide) (6, bytes_of 8 v, refl, refl, λ rest. get_number-bytes_of 8 v rest h)
    | inr narrow ↦ elim (Bool-cases (is_negative v)) [
      | inl negative ↦
          rw (not_zero, narrow, negative) (reads_negative v (ground (arith, narrow, negative)) h)
      | inr positive ↦ elim (Bool-cases (ltb v (2 ^ 8))) [
        | inl byte ↦
            rw (not_zero, narrow, positive, byte)
              (
                1,
                bytes_of 1 v,
                refl,
                refl,
                λ rest. get_number-bytes_of 1 v rest (ground (arith, byte)),
              )
        | inr more ↦ elim (Bool-cases (ltb v (2 ^ 16))) [
          | inl word ↦
              rw (not_zero, narrow, positive, more, word)
                (
                  2,
                  bytes_of 2 v,
                  refl,
                  refl,
                  λ rest. get_number-bytes_of 2 v rest (ground (arith, word)),
                )
          | inr large ↦
              rw (not_zero, narrow, positive, more, large)
                (reads_positive v (ground (arith, narrow, positive)))
        ]
      ]
    ]
  ]
]
