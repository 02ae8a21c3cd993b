-- ===== src/WebPack/Mask.antt =====
-- The masks of lualib-src/lua-websocketnetpack.c.
use Prim.Native.Nat.{bit_xor, bit_xor-bitwise, digits, differ}
use jsmj_server.Base.{
  ℕ, zero, suc, ◌+◌, ◌*◌, ◌/◌, ◌%◌, ◌≤◌, ◌≡◌, refl, ap, ap₂, ◌∙◌, List, [], ◌∷◌, ◌++◌, arith,
  length, length-append, get_or, append-nil, Bool-cases, inl, inr, true, take_all, drop_all, not,
  if◌then◌else◌, take, drop, length-take, take-length,
}
use jsmj_server.WebPack.{unmask, Masking, decode_wsmask_data, websocket_mask_len}

-- The law of the lowest digit, for any count of digits that is enough.
abbrev xor_digits : ℕ → ℕ → ℕ → ℕ
xor_digits n a b = digits (λ b. b) differ n a b

xor_digits_enough : (n m a b : ℕ) → a ≤ n → a ≤ m → xor_digits n a b ≡ xor_digits m a b
xor_digits_enough zero zero a b p q = refl
xor_digits_enough zero (suc m) zero b p q = refl
xor_digits_enough zero (suc m) (suc a) b p q = absurd (omega arith)
xor_digits_enough (suc n) zero zero b p q = refl
xor_digits_enough (suc n) zero (suc a) b p q = absurd (omega arith)
xor_digits_enough (suc n) (suc m) zero b p q = refl
xor_digits_enough (suc n) (suc m) (suc a) b p q =
    omega (arith, xor_digits_enough n m (suc a / 2) (b / 2) (omega arith) (omega arith))

differ_zero : (y : ℕ) → differ 0 y ≡ y
differ_zero y = refl

zero-bit_xor : (b : ℕ) → bit_xor 0 b ≡ b
zero-bit_xor b = bit_xor-bitwise 0 b

bit_xor_step : (a b : ℕ) → bit_xor a b ≡ bit_xor (a / 2) (b / 2) * 2 + differ (a % 2) (b % 2)
bit_xor_step zero b = omega (arith, zero-bit_xor b, zero-bit_xor (b / 2), differ_zero (b % 2))
bit_xor_step (suc a) b = omega (
  arith,
  bit_xor-bitwise (suc a) b,
  bit_xor-bitwise (suc a / 2) (b / 2),
  xor_digits_enough a (suc a / 2) (suc a / 2) (b / 2) (omega arith) (omega arith),
)

differ_twice : (x y : ℕ) → x ≤ 1 → y ≤ 1 → (differ x y ≤ 1) × (differ (differ x y) y ≡ x)
differ_twice zero zero p q = (omega arith, refl)
differ_twice zero (suc zero) p q = (omega arith, refl)
differ_twice (suc zero) zero p q = (omega arith, refl)
differ_twice (suc zero) (suc zero) p q = (omega arith, refl)
differ_twice (suc (suc x)) y p q = absurd (omega arith)
differ_twice x (suc (suc y)) p q = absurd (omega arith)

bit_xor_zero : (a b : ℕ) → a ≡ 0 → b ≡ 0 → bit_xor (bit_xor a b) b ≡ a
bit_xor_zero a b p q = rw (p, q) refl

bit_xor_fuel : (n a b : ℕ) → a ≤ n → b ≤ n → bit_xor (bit_xor a b) b ≡ a
bit_xor_fuel zero a b p q = bit_xor_zero a b (omega arith) (omega arith)
bit_xor_fuel (suc n) a b p q =
    let x = bit_xor a b in
    let digit = differ_twice (a % 2) (b % 2) (omega arith) (omega arith) in
    let half : x / 2 ≡ bit_xor (a / 2) (b / 2) = omega (arith, bit_xor_step a b, digit.0) in
    let low : x % 2 ≡ differ (a % 2) (b % 2) = omega (arith, bit_xor_step a b, digit.0) in
    bit_xor_step x b
    ∙ ap₂ (λ u v. bit_xor u (b / 2) * 2 + differ v (b % 2)) half low
    ∙ ap₂ (λ u v. u * 2 + v) (bit_xor_fuel n (a / 2) (b / 2) (omega arith) (omega arith)) digit.1
    ∙ omega arith

bit_xor_twice : (a b : ℕ) → bit_xor (bit_xor a b) b ≡ a
bit_xor_twice a b = bit_xor_fuel (a + b) a b (omega arith) (omega arith)

pub unmask_twice :
    (masks : List ℕ) (i : ℕ) (bytes : List ℕ) → unmask masks i (unmask masks i bytes) ≡ bytes
unfolding unmask
unmask_twice masks i [] = refl
unmask_twice masks i (b ∷ bytes) =
    ap₂ ◌∷◌ (bit_xor_twice b (get_or masks (i % websocket_mask_len) 0))
      (unmask_twice masks (suc i) bytes)

pub length-unmask :
    (masks : List ℕ) (i : ℕ) (bytes : List ℕ) → length (unmask masks i bytes) ≡ length bytes
unfolding unmask
length-unmask masks i [] = refl
length-unmask masks i (b ∷ bytes) = ap suc (length-unmask masks (suc i) bytes)

pub unmask-append :
    (masks : List ℕ) (i : ℕ) (xs ys : List ℕ)
    → unmask masks i (xs ++ ys) ≡ unmask masks i xs ++ unmask masks (i + length xs) ys
unfolding unmask
unmask-append masks i [] ys = ap (λ k. unmask masks k ys) (omega arith)
unmask-append masks i (x ∷ xs) ys =
    ap (λ l. bit_xor x (get_or masks (i % websocket_mask_len) 0) ∷ l)
      (unmask-append masks (suc i) xs ys
        ∙ ap (λ k. unmask masks (suc i) xs ++ unmask masks k ys) (omega arith))

-- what a call does to a buffer that it unmasks as a whole
abbrev pub decoded : List ℕ → Masking → List ℕ × Masking
decoded bytes uc = if not uc.ismask then (bytes, uc) else (
  unmask uc.mask uc.hasunmask_size bytes,
  record uc { hasunmask_size = uc.hasunmask_size + length bytes },
)

pub decode_whole :
    (bytes : List ℕ) (uc : Masking) → decode_wsmask_data bytes (length bytes) uc ≡ decoded bytes uc
unfolding decode_wsmask_data
decode_whole bytes uc =
    rw
      (
        take_all (length bytes) bytes (omega arith),
        drop_all (length bytes) bytes (omega arith),
        append-nil (unmask uc.mask uc.hasunmask_size bytes),
      )
      refl

pub decoded_pieces :
    (xs ys : List ℕ) (uc : Masking)
    → decoded (xs ++ ys) uc
      ≡ ((decoded xs uc).0 ++ (decoded ys (decoded xs uc).1).0, (decoded ys (decoded xs uc).1).1)
decoded_pieces xs ys uc = elim (Bool-cases uc.ismask) [
  | inl masked ↦ rw masked (
      ap₂ (λ l n. (l, record { mask = uc.mask; ismask = true; hasunmask_size = n }))
        (unmask-append uc.mask uc.hasunmask_size xs ys) (omega (arith, length-append xs ys)))
  | inr plain ↦ rw plain refl
]

pub length-decoded : (bytes : List ℕ) (uc : Masking) → length (decoded bytes uc).0 ≡ length bytes
length-decoded bytes uc = elim (Bool-cases uc.ismask) [
  | inl masked ↦ rw masked (length-unmask uc.mask uc.hasunmask_size bytes)
  | inr plain ↦ rw plain refl
]

-- the bytes of a buffer that a call unmasks
pub decode_within :
    (bytes : List ℕ) (size : ℕ) (uc : Masking)
    → size ≤ length bytes
    → take size (decode_wsmask_data bytes size uc).0 ≡ (decoded (take size bytes) uc).0
unfolding decode_wsmask_data
decode_within bytes size uc h = elim (Bool-cases uc.ismask) [
  | inl masked ↦
      let front = unmask uc.mask uc.hasunmask_size (take size bytes) in
      let full : size ≡ length front = omega (
        arith,
        length-unmask uc.mask uc.hasunmask_size (take size bytes),
        length-take size bytes,
        h,
      ) in
      rw masked
        (ap (λ n. take n (front ++ drop size bytes)) full ∙ take-length front (drop size bytes))
  | inr plain ↦ rw plain refl
]

-- Data that arrives in two pieces and is unmasked piece by piece is the same as when it is unmasked at once, and the
-- place in the mask is the same afterwards.
pub decode_wsmask_data_pieces :
    (xs ys : List ℕ) (uc : Masking)
    → let first = decode_wsmask_data xs (length xs) uc in
      let second = decode_wsmask_data ys (length ys) first.1 in
      decode_wsmask_data (xs ++ ys) (length (xs ++ ys)) uc ≡ (first.0 ++ second.0, second.1)
decode_wsmask_data_pieces xs ys uc =
    rw (decode_whole (xs ++ ys) uc, decode_whole xs uc, decode_whole ys (decoded xs uc).1)
      (decoded_pieces xs ys uc)

-- Unmasking data a second time from the same place in the mask gives the data again, so that whatever a client masked
-- this way is what the reader gets.
pub decode_wsmask_data_twice :
    (bytes : List ℕ) (uc : Masking)
    → let once = (decode_wsmask_data bytes (length bytes) uc).0 in
      (decode_wsmask_data once (length once) uc).0 ≡ bytes
decode_wsmask_data_twice bytes uc =
    rw (decode_whole bytes uc, decode_whole (decoded bytes uc).0 uc)
      (elim (Bool-cases uc.ismask) [
        | inl masked ↦ rw masked (unmask_twice uc.mask uc.hasunmask_size bytes)
        | inr plain ↦ rw plain refl
      ])
