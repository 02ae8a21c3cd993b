-- ===== src/Seri/Pack.antt =====
-- `pack_one` of skynet/lualib-src/lua-seri.c writes the bytes of any value that fits.
use jsmj_server.Base.{
  length, ◌<◌, ◌^◌, ℕ, suc, ◌≤◌, ◌≡◌, refl, ap, ◌∙◌, sym, subst, false, List, [], ◌∷◌, ◌++◌, arith,
  ltb, Option, some, ◌>>=◌, append_assoc, append-nil,
}
use jsmj_server.Seri.{
  Value, nil, boolean, integer, real, pointer, string, table, with_pairs, unsupported, Items,
  no_items, item, Fields, no_fields, field, WriteBlock, max_depth, bytes_of, type_nil, type_table,
  type_userdata, limited, rawlen, pack_one, pack_items, pack_fields, pack_pairs, luaseri_pack,
}
use jsmj_server.Seri.Blocks.{Holds, wb_push-Holds, wb_init-Holds, seri_lem}
use jsmj_server.Seri.Encode.{
  encode, encode_items, encode_fields, size_bytes, Fits, ItemsFit, FieldsFit, Unindexed,
  number-Holds, wb_integer-Holds, wb_string-Holds, wb_array_size-Holds,
}

-- a packing that succeeds and leaves these bytes
abbrev pub Packs : List ℕ → Option WriteBlock → Type 0
Packs bytes o = (b : WriteBlock) × (o ≡ some b) × Holds bytes b

Packs-some : {bytes : List ℕ} {b : WriteBlock} → Holds bytes b → Packs bytes (some b)
Packs-some {b = b} h = (b, refl, h)

Packs-none : {b : WriteBlock} (bytes : List ℕ) → Holds bytes b → Packs (bytes ++ []) (some b)
Packs-none {b} bytes h = Packs-some (subst (λ l. Holds l b) (sym (append-nil bytes)) h)

Packs-bind :
    {before after : List ℕ} {o : Option WriteBlock} (f : WriteBlock → Option WriteBlock)
    → Packs before o
    → ((b : WriteBlock) → Holds before b → Packs after (f b))
    → Packs after (o >>= f)
Packs-bind f p next = let q = next p.0 p.2 in (q.0, ap (λ o. o >>= f) p.1 ∙ q.1, q.2)

Packs-limited :
    {bytes : List ℕ} {o : Option WriteBlock} (depth : ℕ)
    → depth ≤ max_depth
    → Packs bytes o
    → Packs bytes (limited depth o)
Packs-limited depth h p = let within : ltb max_depth depth ≡ false = ground arith in rw within p

Packs-assoc :
    {o : Option WriteBlock} (xs ys zs : List ℕ)
    → Packs ((xs ++ ys) ++ zs) o
    → Packs (xs ++ (ys ++ zs)) o
Packs-assoc {o} xs ys zs p = subst (λ l. Packs l o) (append_assoc xs ys zs) p

mutual
  unfolding pack_one encode Fits

  pub pack_one_lem :
      (depth : ℕ) (v : Value) {bytes : List ℕ} {b : WriteBlock}
      → Fits depth v
      → Holds bytes b
      → Packs (bytes ++ encode v) (pack_one depth v b)
  pack_one_lem depth nil f h = Packs-limited depth f (Packs-some (wb_push-Holds (type_nil ∷ []) h))
  pack_one_lem depth (boolean v) f h = Packs-limited depth f (Packs-some (wb_push-Holds _ h))
  pack_one_lem depth (integer v) f h = Packs-limited depth f.0 (Packs-some (wb_integer-Holds v h))
  pack_one_lem depth (real v) f h =
      Packs-limited depth f.0 (Packs-some (number-Holds _ (bytes_of 8 v) h))
  pack_one_lem depth (pointer v) f h =
      Packs-limited depth f.0 (Packs-some (number-Holds type_userdata (bytes_of 8 v) h))
  pack_one_lem depth (string s) f h = Packs-limited depth f.0 (Packs-some (wb_string-Holds s h))
  pack_one_lem depth (table items pairs) {bytes} f h =
      let size = size_bytes (rawlen items) in
      let array = encode_items items in
      let hash = encode_fields pairs in
      Packs-limited depth f.0 (
        Packs-assoc bytes size (array ++ (hash ++ type_nil ∷ [])) (
          Packs-assoc (bytes ++ size) array (hash ++ type_nil ∷ []) (
            Packs-assoc ((bytes ++ size) ++ array) hash (type_nil ∷ []) (
              Packs-bind _
                (pack_items_lem (suc depth) items f.3 (wb_array_size-Holds (rawlen items) h))
                (λ b1 h1.
                  Packs-bind _ (pack_fields_lem (suc depth) (rawlen items) pairs f.2 f.4 h1)
                    (λ b2 h2. Packs-some (wb_push-Holds (type_nil ∷ []) h2)))))))
  pack_one_lem depth (with_pairs pairs) {bytes} f h =
      let hash = encode_fields pairs in
      Packs-limited depth f.0 (
        Packs-assoc bytes (type_table ∷ []) (hash ++ type_nil ∷ []) (
          Packs-assoc (bytes ++ type_table ∷ []) hash (type_nil ∷ []) (
            Packs-bind _ (pack_pairs_lem (suc depth) pairs f.1 (wb_push-Holds (type_table ∷ []) h))
              (λ b1 h1. Packs-some (wb_push-Holds (type_nil ∷ []) h1)))))
  pack_one_lem depth unsupported f h = absurd f

  pub pack_items_lem :
      (depth : ℕ) (vs : Items) {bytes : List ℕ} {b : WriteBlock}
      → ItemsFit depth vs
      → Holds bytes b
      → Packs (bytes ++ encode_items vs) (pack_items depth vs b)
  pack_items_lem depth no_items {bytes} f h = Packs-none bytes h
  pack_items_lem depth (item v vs) {bytes} f h =
      Packs-assoc bytes (encode v) (encode_items vs)
        (Packs-bind _ (pack_one_lem depth v f.0 h) (λ b1 h1. pack_items_lem depth vs f.1 h1))

  pack_fields_lem :
      (depth n : ℕ) (fs : Fields) {bytes : List ℕ} {b : WriteBlock}
      → Unindexed n fs
      → FieldsFit depth fs
      → Holds bytes b
      → Packs (bytes ++ encode_fields fs) (pack_fields depth n fs b)
  pack_fields_lem depth n no_fields {bytes} u f h = Packs-none bytes h
  pack_fields_lem depth n (field k v fs) {bytes} u f h =
      Packs-assoc bytes (encode k) (encode v ++ encode_fields fs) (
        Packs-assoc (bytes ++ encode k) (encode v) (encode_fields fs) (
          rw (pack_fields, u.0)
            (Packs-bind _ (pack_one_lem depth k f.1 h) (λ b1 h1.
              Packs-bind _ (pack_one_lem depth v f.2 h1)
                (λ b2 h2. pack_fields_lem depth n fs u.1 f.3 h2)))))

  pack_pairs_lem :
      (depth : ℕ) (fs : Fields) {bytes : List ℕ} {b : WriteBlock}
      → FieldsFit depth fs
      → Holds bytes b
      → Packs (bytes ++ encode_fields fs) (pack_pairs depth fs b)
  pack_pairs_lem depth no_fields {bytes} f h = Packs-none bytes h
  pack_pairs_lem depth (field k v fs) {bytes} f h =
      Packs-assoc bytes (encode k) (encode v ++ encode_fields fs) (
        Packs-assoc (bytes ++ encode k) (encode v) (encode_fields fs) (
          Packs-bind _ (pack_one_lem depth k f.1 h) (λ b1 h1.
            Packs-bind _ (pack_one_lem depth v f.2 h1) (λ b2 h2. pack_pairs_lem depth fs f.3 h2))))

-- `luaseri_pack` of values that fit and take fewer than 2^31 bytes succeeds and gives their bytes in order.
pub luaseri_pack_lem :
    (vs : Items)
    → ItemsFit 0 vs
    → length (encode_items vs) < 2 ^ 31
    → luaseri_pack vs ≡ some (encode_items vs)
unfolding luaseri_pack
luaseri_pack_lem vs f short =
    let p = pack_items_lem 0 vs f wb_init-Holds in rw p.1 (seri_lem p.2 short)
