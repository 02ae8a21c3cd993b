-- ===== src/WebPack/Parse.antt =====
-- `read_size` of lualib-src/lua-websocketnetpack.c on a header that arrives byte by byte.
use jsmj_server.Base.{
  ℕ, zero, suc, ◌+◌, ◌-◌, ◌%◌, ◌^◌, ◌≤◌, ◌<◌, ◌≡◌, inl, inr, refl, ap, ◌∙◌, sym, List, [], ◌∷◌,
  ◌++◌, arith, length, length-append, length-drop, take, drop, Option, none, some, Bool, true,
  false, Bool-cases, ltb, ltb→lt, ◌==◌, if◌then◌else◌,
}
use jsmj_server.WebPack.{
  Size, header_short, header_invalid, pack_size, from_network, as_int, is_refused, size_width,
  is_mask, read_size, websocket_mask_len,
}

pub le_of : (n k : ℕ) → ltb k n ≡ false → n ≤ k
le_of n k h = ground arith

take_within : (n : ℕ) (xs ys : List ℕ) → n ≤ length xs → take n (xs ++ ys) ≡ take n xs
take_within zero xs ys h = refl
take_within (suc n) [] ys h = absurd (omega arith)
take_within (suc n) (x ∷ xs) ys h = ap (λ l. x ∷ l) (take_within n xs ys (omega arith))

pub drop_within : (n : ℕ) (xs ys : List ℕ) → n ≤ length xs → drop n (xs ++ ys) ≡ drop n xs ++ ys
drop_within zero xs ys h = refl
drop_within (suc n) [] ys h = absurd (omega arith)
drop_within (suc n) (x ∷ xs) ys h = drop_within n xs ys (omega arith)

-- the length of a header behind its first two bytes, and what a whole header says
abbrev mask_width : ℕ → ℕ
mask_width second = if is_mask second then websocket_mask_len else 0

abbrev pub head_rest : ℕ → ℕ
head_rest second = size_width second + mask_width second

abbrev pub whole_header : ℕ → List ℕ → Size
whole_header second bytes =
    let width = size_width second in
    let size = if width == 0 then second % 2 ^ 7 else from_network 0 (take width bytes) in
    if is_mask second
    then as_int (2 + width + websocket_mask_len) size
        (some (take websocket_mask_len (drop width bytes)))
    else as_int (2 + width) size none

head_rest_masked : (b : ℕ) → is_mask b ≡ true → head_rest b ≡ size_width b + 4
head_rest_masked b masked = rw masked refl

head_rest_plain : (b : ℕ) → is_mask b ≡ false → head_rest b ≡ size_width b
head_rest_plain b plain = rw plain (omega arith)

below_mask :
    (n w : ℕ) (bytes : List ℕ)
    → n ≡ w + 4
    → length bytes < n
    → ltb (length bytes) w ≡ false
    → ltb (length (drop w bytes)) 4 ≡ true
below_mask n w bytes total h enough = let left = length-drop w bytes in ground (arith, left)

above_mask :
    (n w : ℕ) (bytes : List ℕ)
    → n ≡ w + 4
    → n ≤ length bytes
    → ltb (length (drop w bytes)) 4 ≡ false
above_mask n w bytes total h = let left = length-drop w bytes in ground (arith, left)

above_width : (n w : ℕ) (bytes : List ℕ) → w ≤ n → n ≤ length bytes → ltb (length bytes) w ≡ false
above_width n w bytes p h = ground arith

below_width : (n w : ℕ) (bytes : List ℕ) → n ≡ w → length bytes < n → ltb (length bytes) w ≡ true
below_width n w bytes p h = ground arith

-- The two tests on the length of the header are one.
pub read_size_below :
    (a b : ℕ) (bytes : List ℕ)
    → is_refused a ≡ false
    → length bytes < head_rest b
    → read_size (a ∷ b ∷ bytes) ≡ header_short
unfolding read_size
read_size_below a b bytes good h = elim (Bool-cases (ltb (length bytes) (size_width b))) [
  | inl few ↦ rw (good, few) refl
  | inr enough ↦ elim (Bool-cases (is_mask b)) [
    | inl masked ↦
        let left =
          below_mask (head_rest b) (size_width b) bytes (head_rest_masked b masked) h enough in
        rw (good, enough, masked, left) refl
    | inr plain ↦
        let few = below_width (head_rest b) (size_width b) bytes (head_rest_plain b plain) h in
        rw (good, few) refl
  ]
]

pub read_size_above :
    (a b : ℕ) (bytes : List ℕ)
    → is_refused a ≡ false
    → head_rest b ≤ length bytes
    → read_size (a ∷ b ∷ bytes) ≡ whole_header b bytes
unfolding read_size
read_size_above a b bytes good h =
    let width = above_width (head_rest b) (size_width b) bytes (omega arith) h in
    elim (Bool-cases (is_mask b)) [
      | inl masked ↦
          let left = above_mask (head_rest b) (size_width b) bytes (head_rest_masked b masked) h in
          rw (good, width, masked, left) refl
      | inr plain ↦ rw (good, width, plain) refl
    ]

read_size_refused :
    (a b : ℕ) (bytes : List ℕ) → is_refused a ≡ true → read_size (a ∷ b ∷ bytes) ≡ header_invalid
unfolding read_size
read_size_refused a b bytes bad = rw bad refl

-- A whole header does not depend on what follows.
whole_header-append :
    (b : ℕ) (bytes ys : List ℕ)
    → head_rest b ≤ length bytes
    → whole_header b (bytes ++ ys) ≡ whole_header b bytes
whole_header-append b bytes ys h = elim (Bool-cases (is_mask b)) [
  | inl masked ↦
      let w = size_width b in
      let total = head_rest_masked b masked in
      let four : 4 ≤ length (drop w bytes) = omega (arith, total, h, length-drop w bytes) in
      rw
        (
          masked,
          take_within w bytes ys (omega (arith, total, h)),
          drop_within w bytes ys (omega (arith, total, h)),
          take_within 4 (drop w bytes) ys four,
        )
        refl
  | inr plain ↦
      rw (plain, take_within (size_width b) bytes ys (omega (arith, head_rest_plain b plain, h)))
        refl
]

-- the length of the header that a result carries
abbrev offset_of : Size → ℕ → ℕ
offset_of (pack_size offset size mask) other = offset
offset_of s other = other

as_int_offset :
    (offset size : ℕ) (mask : Option (List ℕ)) → offset_of (as_int offset size mask) offset ≡ offset
as_int_offset offset size mask = elim (Bool-cases (ltb (size % 2 ^ 32) (2 ^ 31))) [
  | inl small ↦ rw small refl
  | inr large ↦ elim (Bool-cases (size % 2 ^ 32 == 2 ^ 32 - 1)) [
    | inl one ↦ rw (large, one) refl
    | inr other ↦ elim (Bool-cases (size % 2 ^ 32 == 2 ^ 32 - 2)) [
      | inl two ↦ rw (large, other, two) refl
      | inr below ↦ rw (large, other, below) refl
    ]
  ]
]

as_int_at :
    (offset size : ℕ) (mask : Option (List ℕ)) (k n : ℕ) (m : Option (List ℕ))
    → as_int offset size mask ≡ pack_size k n m
    → k ≡ offset
as_int_at offset size mask k n m e =
    sym (ap (λ s. offset_of s offset) e) ∙ as_int_offset offset size mask

offset_at :
    (masked : Bool) (width size : ℕ) (masks : List ℕ) (k n : ℕ) (m : Option (List ℕ))
    → (if masked then as_int (2 + width + 4) size (some masks) else as_int (2 + width) size none)
      ≡ pack_size k n m
    → k ≡ 2 + (width + (if masked then 4 else 0))
offset_at true width size masks k n m e =
    as_int_at (2 + width + 4) size (some masks) k n m e ∙ omega arith
offset_at false width size masks k n m e = as_int_at (2 + width) size none k n m e ∙ omega arith

-- what is known of bytes that begin with a whole header of `k` bytes
abbrev Headed : List ℕ → ℕ → Type 0
Headed [] k = ⊥
Headed (a ∷ []) k = ⊥
Headed (a ∷ b ∷ bytes) k =
    (is_refused a ≡ false) × (head_rest b ≤ length bytes) × (k ≡ 2 + head_rest b)

read_size-Headed :
    (xs : List ℕ) (k n : ℕ) (m : Option (List ℕ)) → read_size xs ≡ pack_size k n m → Headed xs k
unfolding read_size
read_size-Headed [] k n m e = absurd (cc e)
read_size-Headed (a ∷ []) k n m e = absurd (cc e)
read_size-Headed (a ∷ b ∷ bytes) k n m e = elim (Bool-cases (is_refused a)) [
  | inl bad ↦ absurd (cc (sym (read_size_refused a b bytes bad) ∙ e))
  | inr good ↦ elim (Bool-cases (ltb (length bytes) (head_rest b))) [
    | inl few ↦
        absurd
          (cc (sym (read_size_below a b bytes good (ltb→lt (length bytes) (head_rest b) few)) ∙ e))
    | inr enough ↦
        let fits : head_rest b ≤ length bytes = le_of (head_rest b) (length bytes) enough in
        (
          good,
          fits,
          offset_at (is_mask b) (size_width b)
              (if size_width b == 0 then b % 2 ^ 7 else from_network 0 (take (size_width b) bytes))
              (take websocket_mask_len (drop (size_width b) bytes)) k n m
              (sym (read_size_above a b bytes good fits) ∙ e),
        )
  ]
]

-- A whole header says the same whatever follows it, and lies within the bytes.
pub read_size-append :
    (xs ys : List ℕ) {k n : ℕ} {m : Option (List ℕ)}
    → read_size xs ≡ pack_size k n m
    → (read_size (xs ++ ys) ≡ pack_size k n m) × (k ≤ length xs)
read_size-append xs ys {k} {n} {m} e = grow xs (read_size-Headed xs k n m e) e
  where
    grow :
        (xs : List ℕ)
        → Headed xs k
        → read_size xs ≡ pack_size k n m
        → (read_size (xs ++ ys) ≡ pack_size k n m) × (k ≤ length xs)
    grow [] headed e = absurd headed
    grow (a ∷ []) headed e = absurd headed
    grow (a ∷ b ∷ bytes) (good, fits, at) e = (
      read_size_above a b (bytes ++ ys) good (omega (arith, fits, length-append bytes ys))
          ∙ whole_header-append b bytes ys fits
          ∙ sym (read_size_above a b bytes good fits)
          ∙ e,
      omega (arith, fits, at),
    )

last_byte :
    (k n : ℕ) (bytes : List ℕ) (x : ℕ)
    → length bytes < n
    → n ≤ length (bytes ++ x ∷ [])
    → k ≡ 2 + n
    → k ≡ suc (suc (length (bytes ++ x ∷ [])))
last_byte k n bytes x few fits at = omega (arith, few, fits, at, length-append bytes (x ∷ []))

-- Where one more byte completes a header, the header ends there.
pub read_size-snoc :
    (xs : List ℕ) (x : ℕ) {k n : ℕ} {m : Option (List ℕ)}
    → read_size xs ≡ header_short
    → read_size (xs ++ x ∷ []) ≡ pack_size k n m
    → k ≡ length (xs ++ x ∷ [])
unfolding read_size
read_size-snoc [] x {k} {n} {m} short e = absurd (cc e)
read_size-snoc (a ∷ []) x {k} {n} {m} short e =
    let headed = read_size-Headed (a ∷ x ∷ []) k n m e in omega (arith, headed.1, headed.2)
read_size-snoc (a ∷ b ∷ bytes) x {k} {n} {m} short e =
    let headed = read_size-Headed (a ∷ b ∷ bytes ++ x ∷ []) k n m e in
    elim (Bool-cases (ltb (length bytes) (head_rest b))) [
      | inl few ↦
          last_byte k (head_rest b) bytes x (ltb→lt (length bytes) (head_rest b) few) headed.1
            headed.2
      | inr enough ↦
          let fits = le_of (head_rest b) (length bytes) enough in
          let before : read_size (a ∷ b ∷ bytes) ≡ pack_size k n m =
            read_size_above a b bytes headed.0 fits
            ∙ sym (whole_header-append b bytes (x ∷ []) fits)
            ∙ sym (read_size_above a b (bytes ++ x ∷ []) headed.0 headed.1)
            ∙ e in
          absurd (cc (sym short ∙ before))
    ]

-- Before its last byte a header is not complete.
pub read_size_before :
    (xs : List ℕ) (y : ℕ) (ys : List ℕ) {k n : ℕ} {m : Option (List ℕ)}
    → read_size (xs ++ y ∷ ys) ≡ pack_size k n m
    → k ≡ length (xs ++ y ∷ ys)
    → read_size xs ≡ header_short
unfolding read_size
read_size_before [] y ys e at = refl
read_size_before (a ∷ []) y ys e at = refl
read_size_before (a ∷ b ∷ bytes) y ys {k} {n} {m} e at =
    let headed = read_size-Headed (a ∷ b ∷ bytes ++ y ∷ ys) k n m e in
    read_size_below a b bytes headed.0 (shorter k (head_rest b) bytes y ys at headed.2)
  where
    shorter :
        (k n : ℕ) (bytes : List ℕ) (y : ℕ) (ys : List ℕ)
        → k ≡ suc (suc (length (bytes ++ y ∷ ys)))
        → k ≡ 2 + n
        → length bytes < n
    shorter k n bytes y ys at is = omega (arith, at, is, length-append bytes (y ∷ ys))
