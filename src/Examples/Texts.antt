-- ===== src/Examples/Texts.antt =====
-- Hexadecimal and base 64 texts.
use jsmj_server.Base.{
  ◌>>=◌, ◌^◌, ◌<◌, ℕ, ◌+◌, ◌*◌, ◌/◌, ◌≤◌, ◌≡◌, refl, some, none, List, [], ◌∷◌, length, arith,
}
use jsmj_server.Crypt.{
  hex_pairs, encode_groups, ltohex, hex_value, from_pairs, lfromhex, lb64encode, b64index, gather,
  decode_quad, decode_loop, lb64decode,
}
use jsmj_server.Crypt.Hex.{lfromhex-ltohex}
use jsmj_server.Crypt.Base64.{lb64decode-lb64encode}
use jsmj_server.Crypt.Room.{length-lb64decode}

texts : Unit {0}
unfolding hex_pairs encode_groups ltohex hex_value from_pairs lfromhex lb64encode b64index gather
    decode_quad decode_loop lb64decode
texts = tt

lfromhex-ltohex_example : (ltohex (0 ∷ 171 ∷ []) >>= lfromhex) ≡ some (0 ∷ 171 ∷ [])
lfromhex-ltohex_example =
    lfromhex-ltohex (0 ∷ 171 ∷ []) (omega arith, (omega arith, tt)) (omega arith)

lb64decode-lb64encode_example :
    (lb64encode (77 ∷ 97 ∷ 110 ∷ 33 ∷ []) >>= lb64decode) ≡ some (77 ∷ 97 ∷ 110 ∷ 33 ∷ [])
lb64decode-lb64encode_example =
    lb64decode-lb64encode (77 ∷ 97 ∷ 110 ∷ 33 ∷ [])
      (omega arith, (omega arith, (omega arith, (omega arith, tt)))) (omega arith)

-- `TW Fu`, with a character that is skipped
abbrev spaced : List ℕ
spaced = 84 ∷ 87 ∷ 32 ∷ 70 ∷ 117 ∷ []

abbrev man : List ℕ
man = 77 ∷ 97 ∷ 110 ∷ []

length-lb64decode_example :
    (length man ≤ (length spaced + 3) / 4 * 3) × ((length spaced + 3) / 4 * 3 < 2 ^ 31)
length-lb64decode_example = length-lb64decode spaced man (unfold texts in refl)

-- `TWFu` with a line feed behind it is refused.
test_line_feed : lb64decode (84 ∷ 87 ∷ 70 ∷ 117 ∷ 10 ∷ []) ≡ none
test_line_feed = unfold texts in refl

-- `g0`, which is not hexadecimal, is read as a byte.
test_not_hex : lfromhex (103 ∷ 48 ∷ []) ≡ some (0 ∷ [])
test_not_hex = unfold texts in refl

test_hex : ltohex (171 ∷ []) ≡ some (97 ∷ 98 ∷ [])
test_hex = unfold texts in refl

test_base64 : lb64encode (77 ∷ 97 ∷ []) ≡ some (84 ∷ 87 ∷ 69 ∷ 61 ∷ [])
test_base64 = unfold texts in refl
