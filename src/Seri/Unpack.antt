-- ===== src/Seri/Unpack.antt =====
-- `unpack_one` of skynet/lualib-src/lua-seri.c reads back what `pack_one` wrote.
use jsmj_server.Base.{
  ℕ, zero, suc, ◌+◌, ◌-◌, ◌*◌, ◌/◌, ◌%◌, ◌^◌, ◌≤◌, ◌<◌, ◌≡◌, refl, ap, ◌∙◌, sym, subst, Bool, true,
  false, List, [], ◌∷◌, ◌++◌, arith, length, leb, ltb, ◌==◌, if◌then◌else◌, Bool-cases, inl, inr,
  some, ◌>>=◌, append_assoc,
}
use jsmj_server.Seri.{
  Value, nil, boolean, integer, real, pointer, string, max_cookie, bytes_of, combine_type, type_nil,
  type_boolean, type_number, type_userdata, type_short_string, type_long_string, type_table,
}
use jsmj_server.Seri.Stream.{
  rb_read, number_of, get_number, get_buffer, get_long_string, loops, get_large_size,
  get_array_size, tag_of, push_value, unpack_one,
}
use jsmj_server.Seri.Encode.{integer_bytes, size_bytes, string_bytes}
use jsmj_server.Seri.Read.{rb_read-append, get_number-bytes_of, integer_bytes-ReadsInteger}

-- One byte and what follows.
read_head : (h : ℕ) (rest : List ℕ) → rb_read 1 (h ∷ rest) ≡ some (h ∷ [], rest)
read_head h rest = rb_read-append 1 (h ∷ []) rest refl

one_byte : (h : ℕ) → number_of (h ∷ []) ≡ h
unfolding number_of
one_byte h = omega arith

-- `unpack_one` takes the type apart.
unpack_head :
    (f t k : ℕ) (rest : List ℕ)
    → t < 8
    → unpack_one (suc f) (combine_type t k ∷ rest) ≡ push_value f (tag_of t) k rest
unfolding unpack_one
unpack_head f t k rest h =
    let low : combine_type t k % 2 ^ 3 ≡ t = omega arith in
    let high : combine_type t k / 2 ^ 3 ≡ k = omega arith in
    rw (read_head (combine_type t k) rest, one_byte (combine_type t k), low, high) refl

get_buffer-append : (s rest : List ℕ) → get_buffer (length s) (s ++ rest) ≡ some (string s, rest)
get_buffer-append s rest = rw (rb_read-append (length s) s rest refl) refl

-- The bytes are read as this value when there is fuel for them.
abbrev pub Reads : Value → List ℕ → Type 0
Reads v bytes =
    (f : ℕ) (rest : List ℕ) → 3 * length bytes ≤ f → unpack_one f (bytes ++ rest) ≡ some (v, rest)

pub Reads-by :
    (v : Value) (t k : ℕ) (tail : List ℕ)
    → t < 8
    → ((f : ℕ) (rest : List ℕ)
        → 3 * length tail + 1 ≤ f
        → push_value (suc f) (tag_of t) k (tail ++ rest) ≡ some (v, rest))
    → Reads v (combine_type t k ∷ tail)
Reads-by v t k tail h pushes zero rest fuel = absurd (omega arith)
Reads-by v t k tail h pushes (suc zero) rest fuel = absurd (omega arith)
Reads-by v t k tail h pushes (suc (suc f)) rest fuel =
    unpack_head (suc f) t k (tail ++ rest) h ∙ pushes f rest (omega arith)

pub Reads-nil : Reads nil (type_nil ∷ [])
unfolding unpack_one tag_of
Reads-nil = Reads-by nil type_nil 0 [] (omega arith) λ f rest fuel. refl

pub Reads-boolean :
    (v : Bool) → Reads (boolean v) (combine_type type_boolean (if v then 1 else 0) ∷ [])
unfolding unpack_one tag_of
Reads-boolean true = Reads-by (boolean true) type_boolean 1 [] (omega arith) λ f rest fuel. refl
Reads-boolean false = Reads-by (boolean false) type_boolean 0 [] (omega arith) λ f rest fuel. refl

pub Reads-integer : (v : ℕ) → v < 2 ^ 64 → Reads (integer v) (integer_bytes v)
unfolding unpack_one tag_of
Reads-integer v h =
    let r = integer_bytes-ReadsInteger v h in
    subst (Reads (integer v)) (sym r.2) (
      Reads-by (integer v) type_number r.0 r.1 (omega arith)
        λ f rest fuel. rw (unpack_one, r.3, r.4 rest) refl)

pub Reads-real : (v : ℕ) → v < 2 ^ 64 → Reads (real v) (combine_type type_number 8 ∷ bytes_of 8 v)
unfolding unpack_one tag_of
Reads-real v h =
    Reads-by (real v) type_number 8 (bytes_of 8 v) (omega arith)
      λ f rest fuel. ap (λ o. o >>= λ r. some (real r.0, r.1)) (get_number-bytes_of 8 v rest h)

pub Reads-pointer : (v : ℕ) → v < 2 ^ 64 → Reads (pointer v) (type_userdata ∷ bytes_of 8 v)
unfolding unpack_one tag_of
Reads-pointer v h =
    Reads-by (pointer v) type_userdata 0 (bytes_of 8 v) (omega arith)
      λ f rest fuel. ap (λ o. o >>= λ r. some (pointer r.0, r.1)) (get_number-bytes_of 8 v rest h)

-- A string behind its length.
get_counted :
    (k : ℕ) (s rest : List ℕ)
    → get_number k (bytes_of k (length s) ++ (s ++ rest)) ≡ some (length s, s ++ rest)
    → (get_number k ((bytes_of k (length s) ++ s) ++ rest) >>= λ r. get_buffer r.0 r.1)
      ≡ some (string s, rest)
get_counted k s rest e =
    ap (λ rb. get_number k rb >>= λ r. get_buffer r.0 r.1)
      (append_assoc (bytes_of k (length s)) s rest)
    ∙ ap (λ o. o >>= λ r. get_buffer r.0 r.1) e
    ∙ get_buffer-append s rest

pub Reads-string : (s : List ℕ) → length s < 2 ^ 31 → Reads (string s) (string_bytes s)
unfolding unpack_one tag_of get_long_string
Reads-string s h = elim (Bool-cases (ltb (length s) max_cookie)) [
  | inl short ↦ rw short (
      Reads-by (string s) type_short_string (length s) s (omega arith)
        λ f rest fuel. get_buffer-append s rest)
  | inr long ↦ elim (Bool-cases (ltb (length s) (2 ^ 16))) [
    | inl medium ↦
        rw (long, medium)
          (Reads-by (string s) type_long_string 2 (bytes_of 2 (length s) ++ s) (omega arith)
            λ f rest fuel.
              get_counted 2 s rest
                (get_number-bytes_of 2 (length s) (s ++ rest) (ground (arith, medium))))
    | inr large ↦
        rw (long, large)
          (Reads-by (string s) type_long_string 4 (bytes_of 4 (length s) ++ s) (omega arith)
            λ f rest fuel.
              get_counted 4 s rest (get_number-bytes_of 4 (length s) (s ++ rest) (omega arith)))
  ]
]

-- the size of an array behind its type
abbrev pub ReadsSize : ℕ → List ℕ → Type 0
ReadsSize n bytes =
    (cookie : ℕ) × (tail : List ℕ) × (bytes ≡ combine_type type_table cookie ∷ tail)
    × ((rest : List ℕ) → get_array_size cookie (tail ++ rest) ≡ some (n, rest))

large_size :
    (n : ℕ) (rest : List ℕ) → n < 2 ^ 31 → get_large_size (integer_bytes n ++ rest) ≡ some (n, rest)
unfolding get_large_size
large_size n rest h =
    let r = integer_bytes-ReadsInteger n (omega arith) in
    let low : combine_type type_number r.0 % 2 ^ 3 ≡ type_number = omega arith in
    let high : combine_type type_number r.0 / 2 ^ 3 ≡ r.0 = omega arith in
    let runs : loops n ≡ n =
      (let small : n % 2 ^ 32 ≡ n = omega arith in
        rw small (let below : ltb n (2 ^ 31) ≡ true = ground arith in rw below refl)) in
    rw
      (
        r.2,
        read_head (combine_type type_number r.0) (r.1 ++ rest),
        one_byte (combine_type type_number r.0),
        low,
        high,
        r.3,
        r.4 rest,
        runs,
      )
      refl

pub size_bytes-ReadsSize : (n : ℕ) → n < 2 ^ 31 → ReadsSize n (size_bytes n)
unfolding get_array_size
size_bytes-ReadsSize n h = elim (Bool-cases (leb (max_cookie - 1) n)) [
  | inl large ↦ rw large (max_cookie - 1, integer_bytes n, refl, λ rest. large_size n rest h)
  | inr small ↦ rw small (
    n,
    [],
    refl,
    λ rest. let other : (n == max_cookie - 1) ≡ false = ground (arith, small) in rw other refl,
  )
]
