-- ===== src/Seri/RoundTrip.antt =====
-- Values that skynet/lualib-src/lua-seri.c packs come back when they are unpacked.
use jsmj_server.Base.{
  ◌^◌, ℕ, zero, suc, ◌+◌, ◌*◌, ◌^◌, ◌≤◌, ◌≡◌, refl, ap, ◌∙◌, sym, subst, false, List, [], ◌∷◌, ◌++◌,
  arith, length, ltb, some, ◌>>=◌, append_assoc, length-append, Bool-cases, inl, inr,
}
use jsmj_server.Seri.{
  Value, nil, boolean, integer, real, pointer, string, table, with_pairs, unsupported, Items,
  no_items, item, Fields, no_fields, field, max_cookie, type_nil, type_table, rawlen,
}
use jsmj_server.Seri.Stream.{
  is_nil, get_array_size, tag_of, push_value, unpack_one, unpack_items, unpack_fields,
}
use jsmj_server.Seri.Encode.{
  size_bytes, encode, encode_items, encode_fields, Fits, ItemsFit, FieldsFit,
}
use jsmj_server.Seri.Read.{integer_bytes-ReadsInteger}
use jsmj_server.Seri.Consume.{after_key}
use jsmj_server.Seri.Unpack.{
  Reads, Reads-by, Reads-nil, Reads-boolean, Reads-integer, Reads-real, Reads-pointer, Reads-string,
  size_bytes-ReadsSize,
}

-- the value as it comes back: what the metamethod `__pairs` gave is the table
unfoldable mutual
  pub plain : Value → Value
  plain nil = nil
  plain (boolean v) = boolean v
  plain (integer v) = integer v
  plain (real v) = real v
  plain (pointer v) = pointer v
  plain (string s) = string s
  plain (table items pairs) = table (plain_items items) (plain_fields pairs)
  plain (with_pairs pairs) = table no_items (plain_fields pairs)
  plain unsupported = unsupported

  pub plain_items : Items → Items
  plain_items no_items = no_items
  plain_items (item v vs) = item (plain v) (plain_items vs)

  pub plain_fields : Fields → Fields
  plain_fields no_fields = no_fields
  plain_fields (field k v fs) = field (plain k) (plain v) (plain_fields fs)

plain-is_nil : (v : Value) → is_nil v ≡ false → is_nil (plain v) ≡ false
unfolding plain
plain-is_nil nil h = h
plain-is_nil (boolean v) h = refl
plain-is_nil (integer v) h = refl
plain-is_nil (real v) h = refl
plain-is_nil (pointer v) h = refl
plain-is_nil (string s) h = refl
plain-is_nil (table items pairs) h = refl
plain-is_nil (with_pairs pairs) h = refl
plain-is_nil unsupported h = refl

-- Every value that fits has a byte at least.
encode_pos : (depth : ℕ) (v : Value) → Fits depth v → 1 ≤ length (encode v)
unfolding encode Fits
encode_pos depth nil f = omega arith
encode_pos depth (boolean v) f = omega arith
encode_pos depth (integer v) f =
    let r = integer_bytes-ReadsInteger v f.1 in omega (arith, ap length r.2)
encode_pos depth (real v) f = omega arith
encode_pos depth (pointer v) f = omega arith
encode_pos depth (string s) f = elim (Bool-cases (ltb (length s) max_cookie)) [
  | inl short ↦ rw short (omega arith)
  | inr long ↦ elim (Bool-cases (ltb (length s) (2 ^ 16))) [
    | inl medium ↦ rw (long, medium) (omega arith)
    | inr large ↦ rw (long, large) (omega arith)
  ]
]
encode_pos depth (table items pairs) f =
    let r = size_bytes-ReadsSize (rawlen items) f.1 in
    omega (
      arith,
      ap length r.2,
      length-append (size_bytes (rawlen items))
          (encode_items items ++ (encode_fields pairs ++ type_nil ∷ [])),
    )
encode_pos depth (with_pairs pairs) f = omega arith
encode_pos depth unsupported f = absurd f

-- One table, pair and element, from what the parts read.
table_step :
    (f cookie n : ℕ) (rb rb1 rb2 rest : List ℕ) (vs : Items) (fs : Fields)
    → get_array_size cookie rb ≡ some (n, rb1)
    → unpack_items f n rb1 ≡ some (vs, rb2)
    → unpack_fields f rb2 ≡ some (fs, rest)
    → push_value (suc f) (tag_of type_table) cookie rb ≡ some (table vs fs, rest)
unfolding push_value tag_of
table_step f cookie n rb rb1 rb2 rest vs fs e1 e2 e3 = rw (push_value, e1, e2, e3) refl

field_step :
    (f : ℕ) (rb rb1 rb2 rest : List ℕ) (k v : Value) (fs : Fields)
    → unpack_one f rb ≡ some (k, rb1)
    → is_nil k ≡ false
    → unpack_one f rb1 ≡ some (v, rb2)
    → unpack_fields f rb2 ≡ some (fs, rest)
    → unpack_fields (suc f) rb ≡ some (field k v fs, rest)
unfolding unpack_fields
field_step f rb rb1 rb2 rest k v fs e1 here e2 e3 =
    ap (λ o. o >>= λ key. after_key f key (is_nil key.0)) e1
    ∙ ap (after_key f (k, rb1)) here
    ∙ ap (λ o. o >>= λ w. unpack_fields f w.1 >>= λ later. some (field k w.0 later.0, later.1)) e2
    ∙ ap (λ o. o >>= λ later. some (field k v later.0, later.1)) e3

item_step :
    (f n : ℕ) (rb rb1 rest : List ℕ) (v : Value) (vs : Items)
    → unpack_one f rb ≡ some (v, rb1)
    → unpack_items f n rb1 ≡ some (vs, rest)
    → unpack_items (suc f) (suc n) rb ≡ some (item v vs, rest)
unfolding unpack_items
item_step f n rb rb1 rest v vs e1 e2 = rw (unpack_items, e1, e2) refl

last_step :
    (f : ℕ) (rest : List ℕ)
    → unpack_one f (type_nil ∷ rest) ≡ some (nil, rest)
    → unpack_fields (suc f) (type_nil ∷ rest) ≡ some (no_fields, rest)
unfolding unpack_fields
last_step f rest e = rw (unpack_fields, e) refl

no_step : (f : ℕ) (rest : List ℕ) → 1 ≤ f → unpack_items f 0 rest ≡ some (no_items, rest)
unfolding unpack_items
no_step zero rest h = absurd (omega arith)
no_step (suc f) rest h = refl

no_size : (rb : List ℕ) → get_array_size 0 rb ≡ some (0, rb)
unfolding get_array_size
no_size rb = refl

append_three : (xs ys zs rest : List ℕ) → (xs ++ (ys ++ zs)) ++ rest ≡ xs ++ (ys ++ (zs ++ rest))
append_three xs ys zs rest =
    append_assoc xs (ys ++ zs) rest ∙ ap (λ l. xs ++ l) (append_assoc ys zs rest)

mutual
  unfolding encode plain Fits

  pub unpack_one_lem : (depth : ℕ) (v : Value) → Fits depth v → Reads (plain v) (encode v)
  unpack_one_lem depth nil f = Reads-nil
  unpack_one_lem depth (boolean v) f = Reads-boolean v
  unpack_one_lem depth (integer v) f = Reads-integer v f.1
  unpack_one_lem depth (real v) f = Reads-real v f.1
  unpack_one_lem depth (pointer v) f = Reads-pointer v f.1
  unpack_one_lem depth (string s) f = Reads-string s f.1
  unpack_one_lem depth (table items pairs) f =
      let size = size_bytes-ReadsSize (rawlen items) f.1 in
      let array = encode_items items in
      let hash = encode_fields pairs ++ type_nil ∷ [] in
      subst (λ l. Reads (table (plain_items items) (plain_fields pairs)) (l ++ (array ++ hash)))
        (sym size.2)
        (Reads-by (table (plain_items items) (plain_fields pairs)) type_table size.0
          (size.1 ++ (array ++ hash)) (omega arith)
          λ fuel rest enough.
            let whole = length-append size.1 (array ++ hash) in
            let parts = length-append array hash in
            table_step fuel size.0 (rawlen items) _ (array ++ (hash ++ rest)) (hash ++ rest) rest
              (plain_items items) (plain_fields pairs)
              (ap (get_array_size size.0) (append_three size.1 array hash rest)
                ∙ size.3 (array ++ (hash ++ rest)))
              (unpack_items_lem (suc depth) items fuel (hash ++ rest) f.3
                (omega (arith, whole, parts, enough)))
              (unpack_fields_lem (suc depth) pairs fuel rest f.4
                (omega (arith, whole, parts, enough))))
  unpack_one_lem depth (with_pairs pairs) f =
      let hash = encode_fields pairs ++ type_nil ∷ [] in
      Reads-by (table no_items (plain_fields pairs)) type_table 0 hash (omega arith)
        λ fuel rest enough.
          table_step fuel 0 0 (hash ++ rest) (hash ++ rest) (hash ++ rest) rest no_items
            (plain_fields pairs) (no_size (hash ++ rest))
            (no_step fuel (hash ++ rest) (omega (arith, enough)))
            (unpack_fields_lem (suc depth) pairs fuel rest f.1 (omega (arith, enough)))
  unpack_one_lem depth unsupported f = absurd f

  unpack_items_lem :
      (depth : ℕ) (vs : Items) (f : ℕ) (rest : List ℕ)
      → ItemsFit depth vs
      → 3 * length (encode_items vs) + 1 ≤ f
      → unpack_items f (rawlen vs) (encode_items vs ++ rest) ≡ some (plain_items vs, rest)
  unpack_items_lem depth no_items zero rest fits h = absurd (omega arith)
  unpack_items_lem depth no_items (suc f) rest fits h = no_step (suc f) rest (omega arith)
  unpack_items_lem depth (item v vs) zero rest fits h = absurd (omega arith)
  unpack_items_lem depth (item v vs) (suc f) rest fits h =
      let total = length-append (encode v) (encode_items vs) in
      let some_there = encode_pos depth v fits.0 in
      item_step f (rawlen vs) _ (encode_items vs ++ rest) rest (plain v) (plain_items vs)
        (ap (unpack_one f) (append_assoc (encode v) (encode_items vs) rest)
          ∙ unpack_one_lem depth v fits.0 f (encode_items vs ++ rest) (omega (arith, total, h)))
        (unpack_items_lem depth vs f rest fits.1 (omega (arith, total, h, some_there)))

  unpack_fields_lem :
      (depth : ℕ) (fs : Fields) (f : ℕ) (rest : List ℕ)
      → FieldsFit depth fs
      → 3 * length (encode_fields fs ++ type_nil ∷ []) + 1 ≤ f
      → unpack_fields f ((encode_fields fs ++ type_nil ∷ []) ++ rest) ≡ some (plain_fields fs, rest)
  unpack_fields_lem depth no_fields zero rest fits h = absurd (omega arith)
  unpack_fields_lem depth no_fields (suc f) rest fits h =
      last_step f rest (Reads-nil f rest (omega arith))
  unpack_fields_lem depth (field k v fs) zero rest fits h = absurd (omega arith)
  unpack_fields_lem depth (field k v fs) (suc f) rest fits h =
      let last = encode_fields fs ++ type_nil ∷ [] in
      let order : encode_fields (field k v fs) ++ type_nil ∷ [] ≡ encode k ++ (encode v ++ last) =
        append_three (encode k) (encode v) (encode_fields fs) (type_nil ∷ []) in
      let outer = length-append (encode k) (encode v ++ last) in
      let inner = length-append (encode v) last in
      let key_there = encode_pos depth k fits.1 in
      field_step f _ (encode v ++ (last ++ rest)) (last ++ rest) rest (plain k) (plain v)
        (plain_fields fs)
        (ap (unpack_one f)
            (ap (λ l. l ++ rest) order ∙ append_three (encode k) (encode v) last rest)
          ∙ unpack_one_lem depth k fits.1 f (encode v ++ (last ++ rest))
              (omega (arith, ap length order, outer, h)))
        (plain-is_nil k fits.0)
        (unpack_one_lem depth v fits.2 f (last ++ rest)
          (omega (arith, ap length order, outer, inner, h)))
        (unpack_fields_lem depth fs f rest fits.3
          (omega (arith, ap length order, outer, inner, h, key_there)))
