-- ===== src/Crypt/Base64.antt =====
-- The base 64 text of skynet/lualib-src/lua-crypt.c is read back, and decoding writes no more than its buffer holds.
use jsmj_server.Base.{
  leb, ◌<◌, false, ℕ, zero, suc, ◌+◌, ◌*◌, ◌/◌, ◌%◌, ◌^◌, ◌<◌, ◌≤◌, ◌≡◌, refl, ap, ◌∙◌, List, [],
  ◌∷◌, ◌++◌, arith, length, Option, some, ◌>>=◌, ◌==◌, true,
}
use jsmj_server.Crypt.{
  character, padding, encode_groups, lb64encode, Index, pad, value, b64index, gather, decode_quad,
  decode_loop, lb64decode,
}
use jsmj_server.Crypt.Tables.{b64index-character}
use jsmj_server.Crypt.Hex.{IsString}

-- an index before the others
abbrev first_index : Index → Option (List Index × List ℕ) → Option (List Index × List ℕ)
first_index x r = r >>= λ s. some (x ∷ s.0, s.1)

gather_value :
    (n x : ℕ) (text : List ℕ)
    → x < 64
    → gather (suc n) (character x ∷ text) ≡ first_index (value x) (gather n text)
unfolding gather
gather_value n x text h = rw (gather, b64index-character x h) refl

gather-padding :
    (n : ℕ) (text : List ℕ) → gather (suc n) (padding ∷ text) ≡ first_index pad (gather n text)
unfolding gather b64index
gather-padding n text = refl

-- four characters of base 64 without padding
gather_four :
    (a b c d : ℕ) (text : List ℕ)
    → a < 64
    → b < 64
    → c < 64
    → d < 64
    → gather 4 (character a ∷ character b ∷ character c ∷ character d ∷ text)
      ≡ some (value a ∷ value b ∷ value c ∷ value d ∷ [], text)
unfolding gather
gather_four a b c d text ha hb hc hd =
    gather_value 3 a (character b ∷ character c ∷ character d ∷ text) ha
    ∙ ap (first_index (value a)) (
        gather_value 2 b (character c ∷ character d ∷ text) hb
        ∙ ap (first_index (value b)) (
            gather_value 1 c (character d ∷ text) hc
            ∙ ap (first_index (value c)) (gather_value 0 d text hd)))

gather_three :
    (a b c : ℕ)
    → a < 64
    → b < 64
    → c < 64
    → gather 4 (character a ∷ character b ∷ character c ∷ padding ∷ [])
      ≡ some (value a ∷ value b ∷ value c ∷ pad ∷ [], [])
unfolding gather
gather_three a b c ha hb hc =
    gather_value 3 a (character b ∷ character c ∷ padding ∷ []) ha
    ∙ ap (first_index (value a)) (
        gather_value 2 b (character c ∷ padding ∷ []) hb
        ∙ ap (first_index (value b))
            (gather_value 1 c (padding ∷ []) hc ∙ ap (first_index (value c)) (gather-padding 0 [])))

gather_two :
    (a b : ℕ)
    → a < 64
    → b < 64
    → gather 4 (character a ∷ character b ∷ padding ∷ padding ∷ [])
      ≡ some (value a ∷ value b ∷ pad ∷ pad ∷ [], [])
unfolding gather
gather_two a b ha hb =
    gather_value 3 a (character b ∷ padding ∷ padding ∷ []) ha
    ∙ ap (first_index (value a)) (
        gather_value 2 b (padding ∷ padding ∷ []) hb
        ∙ ap (first_index (value b))
            (gather-padding 1 (padding ∷ []) ∙ ap (first_index pad) (gather-padding 0 [])))

-- The bytes of three, of two and of one come back.
quad_three :
    (a b c : ℕ)
    → a < 2 ^ 8
    → b < 2 ^ 8
    → c < 2 ^ 8
    → (let v = a * 2 ^ 16 + b * 2 ^ 8 + c in
        decode_quad (
          value (v / 2 ^ 18)
          ∷ value (v / 2 ^ 12 % 2 ^ 6)
          ∷ value (v / 2 ^ 6 % 2 ^ 6)
          ∷ value (v % 2 ^ 6)
          ∷ []))
      ≡ some (a ∷ b ∷ c ∷ [])
unfolding decode_quad
quad_three a b c ha hb hc =
    let v = a * 2 ^ 16 + b * 2 ^ 8 + c in
    let whole : v / 2 ^ 18 * 2 ^ 18
          + v / 2 ^ 12 % 2 ^ 6 * 2 ^ 12
          + v / 2 ^ 6 % 2 ^ 6 * 2 ^ 6
          + v % 2 ^ 6
        ≡ v =
      omega arith in
    let first : v / 2 ^ 16 % 2 ^ 8 ≡ a = omega arith in
    let second : v / 2 ^ 8 % 2 ^ 8 ≡ b = omega arith in
    let third : v % 2 ^ 8 ≡ c = omega arith in rw (whole, first, second, third) refl

quad_two :
    (a b : ℕ)
    → a < 2 ^ 8
    → b < 2 ^ 8
    → (let v = a * 2 ^ 8 + b in
        decode_quad
          (value (v / 2 ^ 10) ∷ value (v / 2 ^ 4 % 2 ^ 6) ∷ value (v % 2 ^ 4 * 2 ^ 2) ∷ pad ∷ []))
      ≡ some (a ∷ b ∷ [])
unfolding decode_quad
quad_two a b ha hb =
    let v = a * 2 ^ 8 + b in
    let clear : (v % 2 ^ 4 * 2 ^ 2 % 2 ^ 2 == 0) ≡ true =
      ground (arith, (let e : v % 2 ^ 4 * 2 ^ 2 % 2 ^ 2 ≡ 0 = omega arith in e)) in
    let whole : v / 2 ^ 10 * 2 ^ 10 + v / 2 ^ 4 % 2 ^ 6 * 2 ^ 4 + v % 2 ^ 4 * 2 ^ 2 / 2 ^ 2 ≡ v =
      omega arith in
    let first : v / 2 ^ 8 % 2 ^ 8 ≡ a = omega arith in
    let second : v % 2 ^ 8 ≡ b = omega arith in rw (clear, whole, first, second) refl

quad_one :
    (a : ℕ)
    → a < 2 ^ 8
    → decode_quad (value (a / 2 ^ 2) ∷ value (a % 2 ^ 2 * 2 ^ 4) ∷ pad ∷ pad ∷ []) ≡ some (a ∷ [])
unfolding decode_quad
quad_one a ha =
    let clear : (a % 2 ^ 2 * 2 ^ 4 % 2 ^ 4 == 0) ≡ true =
      ground (arith, (let e : a % 2 ^ 2 * 2 ^ 4 % 2 ^ 4 ≡ 0 = omega arith in e)) in
    let whole : (a / 2 ^ 2 * 2 ^ 2 + a % 2 ^ 2 * 2 ^ 4 / 2 ^ 4) % 2 ^ 8 ≡ a = omega arith in
    rw (clear, whole) refl

-- One round of the decoder.
decode_round :
    (rounds c : ℕ) (text rest : List ℕ) (cs : List Index) (bytes later : List ℕ)
    → gather 4 (c ∷ text) ≡ some (cs, rest)
    → decode_quad cs ≡ some bytes
    → decode_loop rounds rest ≡ some later
    → decode_loop (suc rounds) (c ∷ text) ≡ some (bytes ++ later)
unfolding decode_loop
decode_round rounds c text rest cs bytes later e1 e2 e3 =
    ap
      (λ o. o >>= λ (four : List Index × List ℕ). decode_quad four.0 >>= λ bytes.
        decode_loop rounds four.1 >>= λ later. some (bytes ++ later))
      e1
    ∙ ap (λ o. o >>= λ bytes. decode_loop rounds rest >>= λ later. some (bytes ++ later)) e2
    ∙ ap (λ o. o >>= λ later. some (bytes ++ later)) e3

decode_nothing : (rounds : ℕ) → decode_loop rounds [] ≡ some []
unfolding decode_loop
decode_nothing zero = refl
decode_nothing (suc rounds) = refl

decode_loop-encode_groups :
    (rounds : ℕ) (text : List ℕ)
    → IsString text
    → length (encode_groups text) ≤ rounds
    → decode_loop rounds (encode_groups text) ≡ some text
unfolding encode_groups
decode_loop-encode_groups rounds [] s h = decode_nothing rounds
decode_loop-encode_groups zero (a ∷ []) s h = absurd (omega arith)
decode_loop-encode_groups zero (a ∷ b ∷ []) s h = absurd (omega arith)
decode_loop-encode_groups zero (a ∷ b ∷ c ∷ text) s h = absurd (omega arith)
decode_loop-encode_groups (suc rounds) (a ∷ []) s h =
    decode_round rounds _ _ [] _ (a ∷ []) []
      (gather_two (a / 2 ^ 2) (a % 2 ^ 2 * 2 ^ 4) (omega (arith, s.0)) (omega arith))
      (quad_one a s.0) (decode_nothing rounds)
decode_loop-encode_groups (suc rounds) (a ∷ b ∷ []) s h =
    let v = a * 2 ^ 8 + b in
    decode_round rounds _ _ [] _ (a ∷ b ∷ []) []
      (gather_three (v / 2 ^ 10) (v / 2 ^ 4 % 2 ^ 6) (v % 2 ^ 4 * 2 ^ 2) (omega (arith, s.0, s.1.0))
        (omega arith) (omega arith))
      (quad_two a b s.0 s.1.0) (decode_nothing rounds)
decode_loop-encode_groups (suc rounds) (a ∷ b ∷ c ∷ text) s h =
    let v = a * 2 ^ 16 + b * 2 ^ 8 + c in
    decode_round rounds _ _ (encode_groups text) _ (a ∷ b ∷ c ∷ []) text
      (gather_four (v / 2 ^ 18) (v / 2 ^ 12 % 2 ^ 6) (v / 2 ^ 6 % 2 ^ 6) (v % 2 ^ 6)
        (encode_groups text) (omega (arith, s.0, s.1.0, s.1.1.0)) (omega arith) (omega arith)
        (omega arith))
      (quad_three a b c s.0 s.1.0 s.1.1.0)
      (decode_loop-encode_groups rounds text s.1.1.1 (omega arith))

-- `lb64encode` writes as many characters as it makes room for.
length-encode_groups : (text : List ℕ) → length (encode_groups text) ≡ (length text + 2) / 3 * 4
unfolding encode_groups
length-encode_groups [] = omega arith
length-encode_groups (a ∷ []) = omega arith
length-encode_groups (a ∷ b ∷ []) = omega arith
length-encode_groups (a ∷ b ∷ c ∷ text) = omega (arith, length-encode_groups text)

not_leb : (n m : ℕ) → m < n → leb n m ≡ false
not_leb n m h = ground (arith, h)

-- `lb64decode` gives back every string of bytes from the text that `lb64encode` makes of it, where that text has fewer than
-- 2^31 characters.
pub lb64decode-lb64encode :
    (text : List ℕ)
    → IsString text
    → (length text + 2) / 3 * 4 < 2 ^ 31
    → (lb64encode text >>= lb64decode) ≡ some text
unfolding lb64decode lb64encode
lb64decode-lb64encode text s short =
    let size = length-encode_groups text in
    let fits : leb (2 ^ 31) ((length text + 2) / 3 * 4) ≡ false =
      not_leb (2 ^ 31) ((length text + 2) / 3 * 4) short in
    let below : leb (2 ^ 31) (length (encode_groups text)) ≡ false =
      not_leb (2 ^ 31) (length (encode_groups text)) (omega (arith, size, short)) in
    rw (fits, below) (decode_loop-encode_groups (length (encode_groups text)) text s (omega arith))
