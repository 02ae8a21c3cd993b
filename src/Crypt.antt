-- ===== src/Crypt.antt =====
-- skynet/lualib-src/lua-crypt.c: the hexadecimal and the base 64 text of strings of bytes.
--
-- A string is the list of its bytes. An error that is raised is `none`, and so is the overflow of an `int`.
pub mod Tables
pub mod Hex
pub mod Base64
pub mod Room
use jsmj_server.Base.{
  ℕ, zero, suc, ◌+◌, ◌-◌, ◌*◌, ◌/◌, ◌%◌, ◌^◌, Bool, true, false, ◌&&◌, ◌||◌, Option, none, some,
  ◌>>=◌, List, [], ◌∷◌, ◌++◌, ltb, leb, ◌==◌, if◌then◌else◌, length, get_or,
}

-- `"0123456789abcdef"`
abbrev pub hex : List ℕ
hex = 48 ∷ 49 ∷ 50 ∷ 51 ∷ 52 ∷ 53 ∷ 54 ∷ 55 ∷ 56 ∷ 57 ∷ 97 ∷ 98 ∷ 99 ∷ 100 ∷ 101 ∷ 102 ∷ []

-- the loop of `ltohex`
unfoldable pub hex_pairs : List ℕ → List ℕ
hex_pairs [] = []
hex_pairs (c ∷ text) = get_or hex (c / 2 ^ 4) 0 ∷ get_or hex (c % 2 ^ 4) 0 ∷ hex_pairs text

-- The index `i*2` is an `int`, and so are `encode_sz` and `decode_sz` and the other indices: their overflow is `none`.
unfoldable pub ltohex : List ℕ → Option (List ℕ)
unfolding hex_pairs
ltohex text = if ltb (2 ^ 30) (length text) then none else some (hex_pairs text)

-- The macro `HEX`, whose result is a `uint8_t`: below `'a'` the subtraction wraps.
unfoldable pub hex_value : ℕ → ℕ
hex_value c = if leb 48 c && leb c 57 then c - 48 else (c + 2 ^ 8 - 97 + 10) % 2 ^ 8

-- `hi<<4 | low` in a `char`, where `low` is at most 16, so that its highest bit falls on the lowest of `hi`
abbrev pub joined : ℕ → ℕ → ℕ
joined hi low =
    let odd = if low / 2 ^ 4 == 1 then 1 else hi % 2 in
    ((hi / 2 * 2 + odd) * 2 ^ 4 + low % 2 ^ 4) % 2 ^ 8

-- The loop of `lfromhex`, for an even number of characters.
unfoldable pub from_pairs : List ℕ → Option (List ℕ)
unfolding hex_value
from_pairs [] = some []
from_pairs (c ∷ []) = none
from_pairs (c ∷ d ∷ text) =
    let hi = hex_value c in
    let low = hex_value d in
    let later = from_pairs text in
    if ltb 16 hi || ltb 16 low then none else (later >>= λ bytes. some (joined hi low ∷ bytes))

unfoldable pub lfromhex : List ℕ → Option (List ℕ)
unfolding from_pairs
lfromhex text = if length text % 2 == 1 || leb (2 ^ 31) (length text) then none else from_pairs text

-- `"ABCDEFGHIJKLMNOPQRSTUVWXYZabcdefghijklmnopqrstuvwxyz0123456789+/"`
abbrev pub encoding : List ℕ
encoding =
    65 ∷ 66 ∷ 67 ∷ 68 ∷ 69 ∷ 70 ∷ 71 ∷ 72 ∷ 73 ∷ 74 ∷ 75 ∷ 76 ∷ 77 ∷ 78 ∷ 79 ∷ 80 ∷ 81 ∷ 82 ∷ 83
    ∷ 84 ∷ 85 ∷ 86 ∷ 87 ∷ 88 ∷ 89 ∷ 90 ∷ 97 ∷ 98 ∷ 99 ∷ 100 ∷ 101 ∷ 102 ∷ 103 ∷ 104 ∷ 105 ∷ 106
    ∷ 107 ∷ 108 ∷ 109 ∷ 110 ∷ 111 ∷ 112 ∷ 113 ∷ 114 ∷ 115 ∷ 116 ∷ 117 ∷ 118 ∷ 119 ∷ 120 ∷ 121 ∷ 122
    ∷ 48 ∷ 49 ∷ 50 ∷ 51 ∷ 52 ∷ 53 ∷ 54 ∷ 55 ∷ 56 ∷ 57 ∷ 43 ∷ 47 ∷ []

abbrev pub character : ℕ → ℕ
character n = get_or encoding n 0

-- `'='`
abbrev pub padding : ℕ
padding = 61

-- The loop takes three bytes at a time, and the `switch` what is left.
unfoldable pub encode_groups : List ℕ → List ℕ
encode_groups [] = []
encode_groups (a ∷ []) =
    character (a / 2 ^ 2) ∷ character (a % 2 ^ 2 * 2 ^ 4) ∷ padding ∷ padding ∷ []
encode_groups (a ∷ b ∷ []) =
    let v = a * 2 ^ 8 + b in
    character (v / 2 ^ 10)
    ∷ character (v / 2 ^ 4 % 2 ^ 6)
    ∷ character (v % 2 ^ 4 * 2 ^ 2)
    ∷ padding
    ∷ []
encode_groups (a ∷ b ∷ c ∷ text) =
    let v = a * 2 ^ 16 + b * 2 ^ 8 + c in
    character (v / 2 ^ 18)
    ∷ character (v / 2 ^ 12 % 2 ^ 6)
    ∷ character (v / 2 ^ 6 % 2 ^ 6)
    ∷ character (v % 2 ^ 6)
    ∷ encode_groups text

unfoldable pub lb64encode : List ℕ → Option (List ℕ)
unfolding encode_groups
lb64encode text =
    if leb (2 ^ 31) ((length text + 2) / 3 * 4) then none else some (encode_groups text)

-- what `b64index` returns: -1, -2, or the value of a character
pub data Index : Type 0 where
  bad : Index
  pad : Index
  value : ℕ → Index

-- the characters from 43 on
abbrev pub decoding : List Index
decoding =
    value 62
    ∷ bad
    ∷ bad
    ∷ bad
    ∷ value 63
    ∷ value 52
    ∷ value 53
    ∷ value 54
    ∷ value 55
    ∷ value 56
    ∷ value 57
    ∷ value 58
    ∷ value 59
    ∷ value 60
    ∷ value 61
    ∷ bad
    ∷ bad
    ∷ bad
    ∷ pad
    ∷ bad
    ∷ bad
    ∷ bad
    ∷ value 0
    ∷ value 1
    ∷ value 2
    ∷ value 3
    ∷ value 4
    ∷ value 5
    ∷ value 6
    ∷ value 7
    ∷ value 8
    ∷ value 9
    ∷ value 10
    ∷ value 11
    ∷ value 12
    ∷ value 13
    ∷ value 14
    ∷ value 15
    ∷ value 16
    ∷ value 17
    ∷ value 18
    ∷ value 19
    ∷ value 20
    ∷ value 21
    ∷ value 22
    ∷ value 23
    ∷ value 24
    ∷ value 25
    ∷ bad
    ∷ bad
    ∷ bad
    ∷ bad
    ∷ bad
    ∷ bad
    ∷ value 26
    ∷ value 27
    ∷ value 28
    ∷ value 29
    ∷ value 30
    ∷ value 31
    ∷ value 32
    ∷ value 33
    ∷ value 34
    ∷ value 35
    ∷ value 36
    ∷ value 37
    ∷ value 38
    ∷ value 39
    ∷ value 40
    ∷ value 41
    ∷ value 42
    ∷ value 43
    ∷ value 44
    ∷ value 45
    ∷ value 46
    ∷ value 47
    ∷ value 48
    ∷ value 49
    ∷ value 50
    ∷ value 51
    ∷ []

unfoldable pub b64index : ℕ → Index
b64index c = if ltb c 43 then bad else get_or decoding (c - 43) bad

-- the loop over `j`: the next `n` characters of base 64, and what is left of the text
unfoldable pub gather : ℕ → List ℕ → Option (List Index × List ℕ)
unfolding b64index
gather zero text = some ([], text)
gather (suc n) [] = none
gather (suc n) (c ∷ text) = elim (b64index c) [
  | bad ↦ gather (suc n) text
  | pad ↦ gather n text >>= λ r. some (pad ∷ r.0, r.1)
  | value x ↦ gather n text >>= λ r. some (value x ∷ r.0, r.1)
]

-- The `switch` on the number of paddings: the bytes of four characters.
unfoldable pub decode_quad : List Index → Option (List ℕ)
decode_quad (value a ∷ value b ∷ value c ∷ value d ∷ []) =
    let v = a * 2 ^ 18 + b * 2 ^ 12 + c * 2 ^ 6 + d in
    some (v / 2 ^ 16 % 2 ^ 8 ∷ v / 2 ^ 8 % 2 ^ 8 ∷ v % 2 ^ 8 ∷ [])
decode_quad (value a ∷ value b ∷ value c ∷ pad ∷ []) =
    let v = a * 2 ^ 10 + b * 2 ^ 4 + c / 2 ^ 2 in
    if c % 2 ^ 2 == 0 then some (v / 2 ^ 8 % 2 ^ 8 ∷ v % 2 ^ 8 ∷ []) else none
decode_quad (value a ∷ value b ∷ pad ∷ pad ∷ []) =
    if b % 2 ^ 4 == 0 then some ((a * 2 ^ 2 + b / 2 ^ 4) % 2 ^ 8 ∷ []) else none
decode_quad cs = none

-- Every round takes four characters or more.
unfoldable pub decode_loop : ℕ → List ℕ → Option (List ℕ)
unfolding gather decode_quad
decode_loop rounds [] = some []
decode_loop zero (c ∷ text) = none
decode_loop (suc rounds) (c ∷ text) = do
  four ← gather 4 (c ∷ text)
  bytes ← decode_quad four.0
  later ← decode_loop rounds four.1
  some (bytes ++ later)

unfoldable pub lb64decode : List ℕ → Option (List ℕ)
unfolding decode_loop
lb64decode text = if leb (2 ^ 31) (length text) then none else decode_loop (length text) text
