-- ===== src/Seri/Fuel.antt =====
-- The fuel of `unpack_one` in the model of skynet/lualib-src/lua-seri.c never decides the result.
use jsmj_server.Base.{
  ℕ, zero, suc, ◌+◌, ◌*◌, ◌/◌, ◌%◌, ◌^◌, ◌≤◌, ◌≡◌, refl, ap, ◌∙◌, sym, Bool, true, false, List, [],
  ◌∷◌, arith, length, Option, none, some, ◌>>=◌,
}
use jsmj_server.Seri.{Value, table, item, field}
use jsmj_server.Seri.Stream.{
  is_nil, rb_read, number_of, get_array_size, Tag, nil_tag, boolean_tag, number_tag, userdata_tag,
  short_string_tag, long_string_tag, table_tag, other_tag, tag_of, push_value, unpack_one,
  unpack_items, unpack_fields, unpack_loop,
}
use jsmj_server.Seri.Consume.{
  after_key, rb_read_left, get_array_size-Shrinks, unpack_one-Takes, unpack_items-Shrinks,
}

bind_same :
    {A B : Type 0} (o : Option A) (f g : A → Option B)
    → ((a : A) → o ≡ some a → f a ≡ g a)
    → (o >>= f) ≡ (o >>= g)
bind_same none f g h = refl
bind_same (some a) f g h = h a refl

-- two amounts of fuel that are enough for the bytes
abbrev Enough : ℕ → ℕ → ℕ → Type 0
Enough n f g = (n ≤ f) × (n ≤ g)

after_key_same :
    (f g : ℕ) (key : Value × List ℕ) (t : Bool)
    → unpack_one f key.1 ≡ unpack_one g key.1
    → ((v : Value × List ℕ)
        → unpack_one g key.1 ≡ some v
        → unpack_fields f v.1 ≡ unpack_fields g v.1)
    → after_key f key t ≡ after_key g key t
after_key_same f g key true one more = refl
after_key_same f g key false one more =
    ap (λ o. o >>= λ v. unpack_fields f v.1 >>= λ later. some (field key.0 v.0 later.0, later.1))
      one
    ∙ bind_same (unpack_one g key.1) _ _
        λ v e. ap (λ o. o >>= λ later. some (field key.0 v.0 later.0, later.1)) (more v e)

unpack_nothing : (g : ℕ) (rb : List ℕ) → length rb ≡ 0 → unpack_one g rb ≡ none
unfolding unpack_one rb_read
unpack_nothing zero rb e = refl
unpack_nothing (suc g) [] e = refl
unpack_nothing (suc g) (b ∷ rb) e = absurd (omega (arith, e))

mutual
  unfolding unpack_one rb_read

  push_value_same :
      (f g : ℕ) (tag : Tag) (cookie : ℕ) (rb : List ℕ)
      → Enough (3 * length rb + 2) f g
      → push_value f tag cookie rb ≡ push_value g tag cookie rb
  push_value_same zero g tag cookie rb h = absurd (omega arith)
  push_value_same (suc f) zero tag cookie rb h = absurd (omega arith)
  push_value_same (suc f) (suc g) nil_tag cookie rb h = refl
  push_value_same (suc f) (suc g) boolean_tag cookie rb h = refl
  push_value_same (suc f) (suc g) number_tag cookie rb h = refl
  push_value_same (suc f) (suc g) userdata_tag cookie rb h = refl
  push_value_same (suc f) (suc g) short_string_tag cookie rb h = refl
  push_value_same (suc f) (suc g) long_string_tag cookie rb h = refl
  push_value_same (suc f) (suc g) table_tag cookie rb h =
      bind_same (get_array_size cookie rb) _ _ λ size e.
        let left = get_array_size-Shrinks cookie rb size e in
        ap
          (λ o.
            o >>= λ array. unpack_fields f array.1 >>= λ hash. some (table array.0 hash.0, hash.1))
          (unpack_items_same f g size.0 size.1 (omega (arith, left, h.0), omega (arith, left, h.1)))
        ∙ bind_same (unpack_items g size.0 size.1) _ _ λ array e2.
          let rest = unpack_items-Shrinks g size.0 size.1 array e2 in
          ap (λ o. o >>= λ hash. some (table array.0 hash.0, hash.1))
            (unpack_fields_same f g array.1
              (omega (arith, left, rest, h.0), omega (arith, left, rest, h.1)))
  push_value_same (suc f) (suc g) other_tag cookie rb h = refl

  unpack_one_same :
      (f g : ℕ) (rb : List ℕ) → Enough (3 * length rb) f g → unpack_one f rb ≡ unpack_one g rb
  unpack_one_same zero g rb h = sym (unpack_nothing g rb (omega (arith, h.0)))
  unpack_one_same (suc f) zero rb h = unpack_nothing (suc f) rb (omega (arith, h.1))
  unpack_one_same (suc f) (suc g) rb h = bind_same (rb_read 1 rb) _ _ λ head e.
      let left = rb_read_left 1 rb head e in
      push_value_same f g (tag_of (number_of head.0 % 2 ^ 3)) (number_of head.0 / 2 ^ 3) head.1
        (omega (arith, left, h.0), omega (arith, left, h.1))

  unpack_items_same :
      (f g n : ℕ) (rb : List ℕ)
      → Enough (3 * length rb + 1) f g
      → unpack_items f n rb ≡ unpack_items g n rb
  unpack_items_same zero g n rb h = absurd (omega arith)
  unpack_items_same (suc f) zero n rb h = absurd (omega arith)
  unpack_items_same (suc f) (suc g) zero rb h = refl
  unpack_items_same (suc f) (suc g) (suc n) rb h =
      ap
        (λ o.
          o >>= λ first. unpack_items f n first.1 >>= λ later. some (item first.0 later.0, later.1))
        (unpack_one_same f g rb (omega (arith, h.0), omega (arith, h.1)))
      ∙ bind_same (unpack_one g rb) _ _ λ first e.
        let left = unpack_one-Takes g rb first e in
        ap (λ o. o >>= λ later. some (item first.0 later.0, later.1))
          (unpack_items_same f g n first.1 (omega (arith, left, h.0), omega (arith, left, h.1)))

  unpack_fields_same :
      (f g : ℕ) (rb : List ℕ)
      → Enough (3 * length rb + 1) f g
      → unpack_fields f rb ≡ unpack_fields g rb
  unpack_fields_same zero g rb h = absurd (omega arith)
  unpack_fields_same (suc f) zero rb h = absurd (omega arith)
  unpack_fields_same (suc f) (suc g) rb h =
      ap (λ o. o >>= λ key. after_key f key (is_nil key.0))
        (unpack_one_same f g rb (omega (arith, h.0), omega (arith, h.1)))
      ∙ bind_same (unpack_one g rb) _ _ λ key e.
        let left = unpack_one-Takes g rb key e in
        after_key_same f g key (is_nil key.0)
          (unpack_one_same f g key.1 (omega (arith, left, h.0), omega (arith, left, h.1)))
          λ v e2.
            let less = unpack_one-Takes g key.1 v e2 in
            unpack_fields_same f g v.1
              (omega (arith, left, less, h.0), omega (arith, left, less, h.1))

-- On any stream the loop of `luaseri_unpack` ends: all numbers of rounds from the number of bytes on give the same.
pub unpack_loop_same :
    (r s : ℕ) (rb : List ℕ) → Enough (length rb) r s → unpack_loop r rb ≡ unpack_loop s rb
unfolding unpack_loop
unpack_loop_same zero zero [] h = refl
unpack_loop_same zero (suc s) [] h = refl
unpack_loop_same (suc r) zero [] h = refl
unpack_loop_same (suc r) (suc s) [] h = refl
unpack_loop_same zero s (b ∷ rb) h = absurd (omega (arith, h.0))
unpack_loop_same (suc r) zero (b ∷ rb) h = absurd (omega (arith, h.1))
unpack_loop_same (suc r) (suc s) (b ∷ rb) h =
    bind_same (unpack_one (3 * length (b ∷ rb)) (b ∷ rb)) _ _ λ first e.
      let left = unpack_one-Takes (3 * length (b ∷ rb)) (b ∷ rb) first e in
      ap (λ o. o >>= λ later. some (item first.0 later))
        (unpack_loop_same r s first.1 (omega (arith, left, h.0), omega (arith, left, h.1)))
