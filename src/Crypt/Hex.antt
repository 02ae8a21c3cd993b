-- ===== src/Crypt/Hex.antt =====
-- The hexadecimal text of skynet/lualib-src/lua-crypt.c is read back.
use jsmj_server.Base.{
  ◌>>=◌, leb, ◌^◌, ◌<◌, ℕ, ◌*◌, ◌/◌, ◌%◌, ◌^◌, ◌<◌, ◌≡◌, refl, ap, List, [], ◌∷◌, arith, length,
  some, ltb, ◌||◌, false, ◌==◌,
}
use jsmj_server.Crypt.{hex_pairs, ltohex, joined, from_pairs, lfromhex}
use jsmj_server.Crypt.Tables.{hex_value_of_digit}

-- a string: every element is a byte
abbrev pub IsString : List ℕ → Type 0
IsString [] = Unit
IsString (c ∷ text) = (c < 2 ^ 8) × IsString text

joined_halves : (c : ℕ) → c < 2 ^ 8 → joined (c / 2 ^ 4) (c % 2 ^ 4) ≡ c
joined_halves c h = let low : c % 2 ^ 4 / 2 ^ 4 ≡ 0 = omega arith in rw low (omega arith)

length-hex_pairs : (text : List ℕ) → length (hex_pairs text) ≡ length text * 2
unfolding hex_pairs
length-hex_pairs [] = refl
length-hex_pairs (c ∷ text) = omega (arith, length-hex_pairs text)

from_pairs-hex_pairs : (text : List ℕ) → IsString text → from_pairs (hex_pairs text) ≡ some text
unfolding from_pairs hex_pairs
from_pairs-hex_pairs [] h = refl
from_pairs-hex_pairs (c ∷ text) h =
    let hi = hex_value_of_digit (c / 2 ^ 4) (omega (arith, h.0)) in
    let low = hex_value_of_digit (c % 2 ^ 4) (omega arith) in
    let digits : (ltb 16 (c / 2 ^ 4) || ltb 16 (c % 2 ^ 4)) ≡ false =
      let hi_fits : ltb 16 (c / 2 ^ 4) ≡ false =
        ground (arith, (let small : c / 2 ^ 4 < 16 = omega (arith, h.0) in small)) in
      let low_fits : ltb 16 (c % 2 ^ 4) ≡ false =
        ground (arith, (let small : c % 2 ^ 4 < 16 = omega arith in small)) in
      rw (hi_fits, low_fits) refl in
    rw (hi, low, digits, from_pairs-hex_pairs text h.1)
      (ap (λ d. some (d ∷ text)) (joined_halves c h.0))

-- `lfromhex` gives back every string of fewer than 2^30 bytes from the text that `ltohex` makes of it.
pub lfromhex-ltohex :
    (text : List ℕ) → IsString text → length text < 2 ^ 30 → (ltohex text >>= lfromhex) ≡ some text
unfolding lfromhex ltohex
lfromhex-ltohex text h short =
    let size = length-hex_pairs text in
    let fits : ltb (2 ^ 30) (length text) ≡ false = ground (arith, short) in
    let even : (length (hex_pairs text) % 2 == 1) ≡ false = ground (arith, size) in
    let below : leb (2 ^ 31) (length (hex_pairs text)) ≡ false = ground (arith, size, short) in
    rw (fits, even, below) (from_pairs-hex_pairs text h)
