-- ===== src/WebPack/Frame.antt =====
-- The headers of frames in lualib-src/lua-websocketnetpack.c: what `lpack` writes and what `read_size` reads.
use jsmj_server.Base.{
  ℕ, suc, ◌/◌, ◌%◌, ◌^◌, ◌<◌, ◌≡◌, inl, inr, refl, List, [], ◌∷◌, arith, length, drop, none,
  Bool-cases, ltb, ltb→lt, if◌then◌else◌, true, false,
}
use jsmj_server.WebPack.{
  pack_size, from_network, as_int, read_size, length_byte, frame_header, lpack,
}

-- the length of the header that `lpack` writes
abbrev pub header_length : ℕ → ℕ
header_length len = if ltb len 126 then 2 else (if ltb len 65536 then 4 else 10)

-- A size below 2^31 stays as it is.
as_int_small : (offset n : ℕ) → n < 2 ^ 31 → as_int offset n none ≡ pack_size offset n none
as_int_small offset n h =
    let whole : n % 2 ^ 32 ≡ n = omega arith in
    let low : ltb n (2 ^ 31) ≡ true = ground arith in rw (whole, low) refl

eight_bytes :
    (n : ℕ)
    → n < 2 ^ 31
    → from_network 0 (
        length_byte n 7
        ∷ length_byte n 6
        ∷ length_byte n 5
        ∷ length_byte n 4
        ∷ length_byte n 3
        ∷ length_byte n 2
        ∷ length_byte n 1
        ∷ length_byte n 0
        ∷ [])
      ≡ n
unfolding from_network
eight_bytes n h = omega arith

two_bytes : (n : ℕ) → n < 65536 → from_network 0 (length_byte n 1 ∷ length_byte n 0 ∷ []) ≡ n
unfolding from_network
two_bytes n h = omega arith

short_second : (n : ℕ) (bytes : List ℕ) → n < 126 → read_size (130 ∷ n ∷ bytes) ≡ as_int 2 n none
unfolding read_size
short_second n bytes h =
    let len : n % 2 ^ 7 ≡ n = omega arith in
    let low : ltb n 0x7E ≡ true = ground arith in
    let plain : n / 2 ^ 7 % 2 ≡ 0 = omega arith in
    let enough : ltb (length bytes) 0 ≡ false = ground arith in rw (len, low, plain, enough) refl

-- `read_size` reads from the header that `lpack` writes, whatever data follow, the size of the data, the length of the
-- header, and that there is no mask; the data are shorter than 2^31 bytes.
pub read_size-lpack :
    (bytes : List ℕ)
    → length bytes < 2 ^ 31
    → (read_size (lpack bytes) ≡ pack_size (header_length (length bytes)) (length bytes) none)
      × (drop (header_length (length bytes)) (lpack bytes) ≡ bytes)
unfolding lpack frame_header read_size
read_size-lpack bytes h = elim (Bool-cases (ltb (length bytes) 126)) [
  | inl short ↦
      let n = length bytes in
      let second : length_byte n 0 ≡ n = ground (arith, short) in
      rw (short, second, short_second n bytes (ltb→lt n 126 short), as_int_small 2 n h) (refl, refl)
  | inr long ↦ elim (Bool-cases (ltb (length bytes) 65536)) [
    | inl middle ↦
        let enough : ltb (suc (suc (length bytes))) 2 ≡ false = ground arith in
        rw
          (
            long,
            middle,
            enough,
            two_bytes (length bytes) (ltb→lt (length bytes) 65536 middle),
            as_int_small 4 (length bytes) h,
          )
          (refl, refl)
    | inr large ↦
        let enough : ltb (suc (suc (suc (suc (suc (suc (suc (suc (length bytes))))))))) 8 ≡ false =
          ground arith in
        rw (long, large, enough, eight_bytes (length bytes) h, as_int_small 10 (length bytes) h)
          (refl, refl)
  ]
]
