-- ===== src/Crypt/Tables.antt =====
-- The tables of characters in skynet/lualib-src/lua-crypt.c and their inverses.
use jsmj_server.Base.{
  ℕ, zero, suc, ◌+◌, ◌<◌, ◌≡◌, refl, ap, ◌∙◌, sym, List, [], ◌∷◌, arith, length, map, get_or,
}
use jsmj_server.Crypt.{hex, hex_value, encoding, character, bad, value, b64index}

-- `i`, `i + 1`, … for `n` numbers
abbrev count_from : ℕ → ℕ → List ℕ
count_from i zero = []
count_from i (suc n) = i ∷ count_from (i + 1) n

get_or-count_from : (i n k : ℕ) (d : ℕ) → k < n → get_or (count_from i n) k d ≡ i + k
get_or-count_from i zero k d h = absurd (omega arith)
get_or-count_from i (suc n) zero d h = omega arith
get_or-count_from i (suc n) (suc k) d h =
    get_or-count_from (i + 1) n k d (omega arith) ∙ omega arith

get_or-map {ℓ κ} :
    {A : Type ℓ} {B : Type κ} (f : A → B) (xs : List A) (k : ℕ) (d : A) (e : B)
    → k < length xs
    → get_or (map f xs) k e ≡ f (get_or xs k d)
get_or-map f [] k d e h = absurd (omega arith)
get_or-map f (x ∷ xs) zero d e h = refl
get_or-map f (x ∷ xs) (suc k) d e h = get_or-map f xs k d e (omega arith)

hex_inverse : map hex_value hex ≡ count_from 0 16
unfolding hex_value
hex_inverse = refl

-- `HEX` inverts the table of digits.
pub hex_value_of_digit : (n : ℕ) → n < 16 → hex_value (get_or hex n 0) ≡ n
hex_value_of_digit n h =
    sym (get_or-map hex_value hex n 0 0 h)
    ∙ ap (λ l. get_or l n 0) hex_inverse
    ∙ get_or-count_from 0 16 n 0 h
    ∙ omega arith

encoding_inverse : map b64index encoding ≡ map value (count_from 0 64)
unfolding b64index
encoding_inverse = refl

count_from-length : (i n : ℕ) → length (count_from i n) ≡ n
count_from-length i zero = refl
count_from-length i (suc n) = ap suc (count_from-length (i + 1) n)

-- `b64index` inverts the table of characters.
pub b64index-character : (n : ℕ) → n < 64 → b64index (character n) ≡ value n
b64index-character n h =
    sym (get_or-map b64index encoding n 0 bad h)
    ∙ ap (λ l. get_or l n bad) encoding_inverse
    ∙ get_or-map value (count_from 0 64) n 0 bad (omega (arith, count_from-length 0 64))
    ∙ ap value (get_or-count_from 0 64 n 0 h ∙ omega arith)
