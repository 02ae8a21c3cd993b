-- ===== src/Seri/Encode.antt =====
-- The bytes that skynet/lualib-src/lua-seri.c writes for a value, and the values that it writes.
use jsmj_server.Base.{
  ℕ, suc, ◌-◌, ◌^◌, ◌≤◌, ◌<◌, ◌≡◌, subst, Bool, true, false, List, [], ◌∷◌, ◌++◌, arith, length,
  leb, ltb, ◌==◌, if◌then◌else◌, append_assoc,
}
use jsmj_server.Seri.{
  Value, nil, boolean, integer, real, pointer, string, table, with_pairs, unsupported, Items,
  no_items, item, Fields, no_fields, field, WriteBlock, max_cookie, max_depth, bytes_of,
  combine_type, type_nil, type_boolean, type_number, type_userdata, type_short_string,
  type_long_string, type_table, wb_push, wb_byte, is_wide, is_negative, wb_integer, wb_string,
  rawlen, wb_array_size, is_index,
}
use jsmj_server.Seri.Stream.{is_nil}
use jsmj_server.Seri.Blocks.{Holds, wb_push-Holds}

abbrev pub number_bytes : ℕ → ℕ → ℕ → List ℕ
number_bytes cookie k v = combine_type type_number cookie ∷ bytes_of k v

abbrev pub integer_bytes : ℕ → List ℕ
integer_bytes v =
    if v == 0
    then combine_type type_number 0 ∷ []
    else (if is_wide v
        then number_bytes 6 8 v
        else (if is_negative v
            then number_bytes 4 4 v
            else (if ltb v (2 ^ 8)
                then number_bytes 1 1 v
                else (if ltb v (2 ^ 16) then number_bytes 2 2 v else number_bytes 4 4 v))))

abbrev pub string_bytes : List ℕ → List ℕ
string_bytes s =
    let len = length s in
    if ltb len max_cookie
    then combine_type type_short_string len ∷ s
    else (if ltb len (2 ^ 16)
        then combine_type type_long_string 2 ∷ (bytes_of 2 len ++ s)
        else combine_type type_long_string 4 ∷ (bytes_of 4 len ++ s))

abbrev pub size_bytes : ℕ → List ℕ
size_bytes n =
    if leb (max_cookie - 1) n
    then combine_type type_table (max_cookie - 1) ∷ integer_bytes n
    else combine_type type_table n ∷ []

unfoldable mutual
  pub encode : Value → List ℕ
  encode nil = type_nil ∷ []
  encode (boolean v) = combine_type type_boolean (if v then 1 else 0) ∷ []
  encode (integer v) = integer_bytes v
  encode (real v) = number_bytes 8 8 v
  encode (pointer v) = type_userdata ∷ bytes_of 8 v
  encode (string s) = string_bytes s
  encode (table items pairs) =
      size_bytes (rawlen items) ++ (encode_items items ++ (encode_fields pairs ++ type_nil ∷ []))
  encode (with_pairs pairs) = type_table ∷ (encode_fields pairs ++ type_nil ∷ [])
  encode unsupported = []

  pub encode_items : Items → List ℕ
  encode_items no_items = []
  encode_items (item v vs) = encode v ++ encode_items vs

  pub encode_fields : Fields → List ℕ
  encode_fields no_fields = []
  encode_fields (field k v fs) = encode k ++ (encode v ++ encode_fields fs)

-- no key is an index of an array of `n` elements
abbrev pub Unindexed : ℕ → Fields → Type 0
Unindexed n no_fields = Unit
Unindexed n (field k v fs) = (is_index n k ≡ false) × Unindexed n fs

-- A value in `depth` tables that can be packed: its numbers have 64 bits, its strings and arrays fewer than 2^31
-- elements, no table is nested too deep, and no key is nil.
unfoldable mutual
  pub Fits : ℕ → Value → Type 0
  Fits depth nil = depth ≤ max_depth
  Fits depth (boolean v) = depth ≤ max_depth
  Fits depth (integer v) = (depth ≤ max_depth) × (v < 2 ^ 64)
  Fits depth (real v) = (depth ≤ max_depth) × (v < 2 ^ 64)
  Fits depth (pointer v) = (depth ≤ max_depth) × (v < 2 ^ 64)
  Fits depth (string s) = (depth ≤ max_depth) × (length s < 2 ^ 31)
  Fits depth (table items pairs) =
      (depth ≤ max_depth)
      × (rawlen items < 2 ^ 31)
      × Unindexed (rawlen items) pairs
      × ItemsFit (suc depth) items
      × FieldsFit (suc depth) pairs
  Fits depth (with_pairs pairs) = (depth ≤ max_depth) × FieldsFit (suc depth) pairs
  Fits depth unsupported = ⊥

  pub ItemsFit : ℕ → Items → Type 0
  ItemsFit depth no_items = Unit
  ItemsFit depth (item v vs) = Fits depth v × ItemsFit depth vs

  pub FieldsFit : ℕ → Fields → Type 0
  FieldsFit depth no_fields = Unit
  FieldsFit depth (field k v fs) =
      (is_nil k ≡ false) × Fits depth k × Fits depth v × FieldsFit depth fs

Holds-if :
    (bytes x y : List ℕ) {p q : WriteBlock} (t : Bool)
    → Holds (bytes ++ x) p
    → Holds (bytes ++ y) q
    → Holds (bytes ++ (if t then x else y)) (if t then p else q)
Holds-if bytes x y true h k = h
Holds-if bytes x y false h k = k

pub Holds-assoc :
    {b : WriteBlock} (xs ys zs : List ℕ) → Holds ((xs ++ ys) ++ zs) b → Holds (xs ++ (ys ++ zs)) b
Holds-assoc {b} xs ys zs h = subst (λ l. Holds l b) (append_assoc xs ys zs) h

pub number-Holds :
    {bytes : List ℕ} {b : WriteBlock} (t : ℕ) (buf : List ℕ)
    → Holds bytes b
    → Holds (bytes ++ t ∷ buf) (wb_push buf (wb_byte t b))
number-Holds {bytes} t buf h =
    Holds-assoc bytes (t ∷ []) buf (wb_push-Holds buf (wb_push-Holds (t ∷ []) h))

pub wb_integer-Holds :
    {bytes : List ℕ} {b : WriteBlock} (v : ℕ)
    → Holds bytes b
    → Holds (bytes ++ integer_bytes v) (wb_integer v b)
unfolding wb_integer
wb_integer-Holds v h = Holds-if _ _ _ (v == 0) (wb_push-Holds _ h) (
    Holds-if _ _ _ (is_wide v) (number-Holds _ (bytes_of 8 v) h) (
      Holds-if _ _ _ (is_negative v) (number-Holds _ (bytes_of 4 v) h) (
        Holds-if _ _ _ (ltb v (2 ^ 8)) (number-Holds _ (bytes_of 1 v) h) (
          Holds-if _ _ _ (ltb v (2 ^ 16)) (number-Holds _ (bytes_of 2 v) h)
            (number-Holds _ (bytes_of 4 v) h)))))

-- a string behind its type and its length
counted-Holds :
    {bytes : List ℕ} {b : WriteBlock} (t : ℕ) (len s : List ℕ)
    → Holds bytes b
    → Holds (bytes ++ t ∷ (len ++ s)) (wb_push s (wb_push len (wb_byte t b)))
counted-Holds {bytes} t len s h =
    Holds-assoc bytes (t ∷ len) s (wb_push-Holds s (number-Holds t len h))

pub wb_string-Holds :
    {bytes : List ℕ} {b : WriteBlock} (s : List ℕ)
    → Holds bytes b
    → Holds (bytes ++ string_bytes s) (wb_string s b)
unfolding wb_string
wb_string-Holds {bytes} {b} [] h = wb_push-Holds (combine_type type_short_string 0 ∷ []) h
wb_string-Holds {bytes} {b} (c ∷ s) h =
    let some_there : ltb 0 (length (c ∷ s)) ≡ true = ground arith in
    rw some_there (
      Holds-if _ _ _ (ltb (length (c ∷ s)) max_cookie) (number-Holds _ (c ∷ s) h) (
        Holds-if _ _ _ (ltb (length (c ∷ s)) (2 ^ 16))
          (counted-Holds _ (bytes_of 2 (length (c ∷ s))) (c ∷ s) h)
          (counted-Holds _ (bytes_of 4 (length (c ∷ s))) (c ∷ s) h)))

pub wb_array_size-Holds :
    {bytes : List ℕ} {b : WriteBlock} (n : ℕ)
    → Holds bytes b
    → Holds (bytes ++ size_bytes n) (wb_array_size n b)
wb_array_size-Holds {bytes} n h =
    Holds-if _ _ _ (leb (max_cookie - 1) n)
      (Holds-assoc bytes (combine_type type_table (max_cookie - 1) ∷ []) (integer_bytes n)
        (wb_integer-Holds n (wb_push-Holds _ h)))
      (wb_push-Holds _ h)
