-- ===== src/Seri/Consume.antt =====
-- What `unpack_one` of skynet/lualib-src/lua-seri.c takes off a stream, whatever the stream holds.
use jsmj_server.Base.{
  ℕ, zero, suc, ◌+◌, ◌-◌, ◌/◌, ◌%◌, ◌^◌, ◌≤◌, ◌<◌, ◌≡◌, ap, Bool, true, false, List, arith, length,
  drop, ltb, ◌==◌, not, ◌&&◌, if◌then◌else◌, Option, none, some, ◌>>=◌, some_inj, bind_some,
  length-drop, take, subst, Bool-cases, inl, inr,
}
use jsmj_server.Seri.{Value, nil, no_items, Fields, no_fields, field, type_number, max_cookie}
use jsmj_server.Seri.Stream.{
  is_nil, rb_read, number_of, get_number, get_integer, get_buffer, get_long_string, loops,
  get_large_size, get_array_size, Tag, nil_tag, boolean_tag, number_tag, userdata_tag,
  short_string_tag, long_string_tag, table_tag, other_tag, tag_of, push_value, unpack_one,
  unpack_items, unpack_fields,
}

-- A read that succeeds leaves no more than there was.
abbrev Shrinks : {A : Type 0} → List ℕ → Option (A × List ℕ) → Type 0
Shrinks {A} rb o = (r : A × List ℕ) → o ≡ some r → length r.1 ≤ length rb

pub rb_read_left :
    (n : ℕ) (rb : List ℕ) (r : List ℕ × List ℕ) → rb_read n rb ≡ some r → length r.1 + n ≤ length rb
unfolding rb_read
rb_read_left n rb r e = elim (Bool-cases (ltb (length rb) n)) [
  | inl short ↦
      absurd (cc (subst (λ t. (if t then none else some (take n rb, drop n rb)) ≡ some r) short e))
  | inr enough ↦
      let same =
        some_inj
          (subst (λ t. (if t then none else some (take n rb, drop n rb)) ≡ some r) enough e) in
      omega (
        arith,
        ap (λ (x : List ℕ × List ℕ). length x.1) same,
        length-drop n rb,
        (let h : n ≤ length rb = ground (arith, enough) in h),
      )
]

some-Shrinks : {A : Type 0} (a : A) (rb : List ℕ) → Shrinks rb (some (a, rb))
some-Shrinks a rb r e = omega (arith, ap (λ x. length x.1) (some_inj e))

none-Shrinks : {A : Type 0} (rb : List ℕ) → Shrinks {A = A} rb none
none-Shrinks rb r e = absurd (cc e)

bind-Shrinks :
    {A B : Type 0} (rb : List ℕ) {o : Option (A × List ℕ)} (f : A × List ℕ → Option (B × List ℕ))
    → Shrinks rb o
    → ((r : A × List ℕ) → Shrinks r.1 (f r))
    → Shrinks rb (o >>= f)
bind-Shrinks rb {o = o} f s next r e =
    let first = bind_some o f e in omega (arith, s first.0 first.1, next first.0 r first.2)

if-Shrinks :
    {A : Type 0} (rb : List ℕ) {x y : Option (A × List ℕ)} (t : Bool)
    → Shrinks rb x
    → Shrinks rb y
    → Shrinks rb (if t then x else y)
if-Shrinks rb true s u = s
if-Shrinks rb false s u = u

rb_read-Shrinks : (n : ℕ) (rb : List ℕ) → Shrinks rb (rb_read n rb)
rb_read-Shrinks n rb r e = omega (arith, rb_read_left n rb r e)

get_number-Shrinks : (k : ℕ) (rb : List ℕ) → Shrinks rb (get_number k rb)
unfolding get_number
get_number-Shrinks k rb = bind-Shrinks _ _ (rb_read-Shrinks k rb) λ r. some-Shrinks _ r.1

get_integer-Shrinks : (cookie : ℕ) (rb : List ℕ) → Shrinks rb (get_integer cookie rb)
unfolding get_integer
get_integer-Shrinks cookie rb = if-Shrinks _ (cookie == 0) (some-Shrinks 0 rb) (
    if-Shrinks _ (cookie == 1) (get_number-Shrinks 1 rb) (
      if-Shrinks _ (cookie == 2) (get_number-Shrinks 2 rb) (
        if-Shrinks _ (cookie == 4)
          (bind-Shrinks _ _ (get_number-Shrinks 4 rb) λ r. some-Shrinks _ r.1)
          (if-Shrinks _ (cookie == 6) (get_number-Shrinks 8 rb) (none-Shrinks rb)))))

get_buffer-Shrinks : (n : ℕ) (rb : List ℕ) → Shrinks rb (get_buffer n rb)
get_buffer-Shrinks n rb = bind-Shrinks _ _ (rb_read-Shrinks n rb) λ r. some-Shrinks _ r.1

get_long_string-Shrinks : (cookie : ℕ) (rb : List ℕ) → Shrinks rb (get_long_string cookie rb)
unfolding get_long_string
get_long_string-Shrinks cookie rb =
    if-Shrinks _ (cookie == 2)
      (bind-Shrinks _ _ (get_number-Shrinks 2 rb) λ r. get_buffer-Shrinks r.0 r.1)
      (if-Shrinks _ (cookie == 4)
        (bind-Shrinks _ _ (get_number-Shrinks 4 rb) λ r. get_buffer-Shrinks r.0 r.1)
        (none-Shrinks rb))

pub get_array_size-Shrinks : (n : ℕ) (rb : List ℕ) → Shrinks rb (get_array_size n rb)
unfolding get_array_size get_large_size
get_array_size-Shrinks n rb =
    if-Shrinks _ (n == max_cookie - 1)
      (bind-Shrinks _ _ (rb_read-Shrinks 1 rb) λ head.
        bind-Shrinks _ _
          (if-Shrinks _
            (number_of head.0 % 2 ^ 3 == type_number && not (number_of head.0 / 2 ^ 3 == 8))
            (get_integer-Shrinks (number_of head.0 / 2 ^ 3) head.1) (none-Shrinks head.1))
          λ size. some-Shrinks (loops size.0) size.1)
      (some-Shrinks n rb)

-- what `unpack_fields` does when it has read a key
abbrev pub after_key : ℕ → Value × List ℕ → Bool → Option (Fields × List ℕ)
after_key f key true = some (no_fields, key.1)
after_key f key false = unpack_one f key.1 >>= λ v.
    unpack_fields f v.1 >>= λ later. some (field key.0 v.0 later.0, later.1)

-- A value takes a byte at least.
abbrev Takes : {A : Type 0} → List ℕ → Option (A × List ℕ) → Type 0
Takes {A} rb o = (r : A × List ℕ) → o ≡ some r → length r.1 < length rb

after_key-Shrinks :
    (f : ℕ) (key : Value × List ℕ) (t : Bool)
    → Takes key.1 (unpack_one f key.1)
    → ((rb : List ℕ) → Shrinks rb (unpack_fields f rb))
    → Shrinks key.1 (after_key f key t)
after_key-Shrinks f key true takes shrinks = some-Shrinks no_fields key.1
after_key-Shrinks f key false takes shrinks =
    bind-Shrinks _ _ (λ r e. let less = takes r e in omega (arith, less))
      λ v. bind-Shrinks _ _ (shrinks v.1) λ later. some-Shrinks _ later.1

mutual
  unfolding unpack_one

  push_value-Shrinks :
      (f : ℕ) (tag : Tag) (cookie : ℕ) (rb : List ℕ) → Shrinks rb (push_value f tag cookie rb)
  push_value-Shrinks zero tag cookie rb = none-Shrinks rb
  push_value-Shrinks (suc f) nil_tag cookie rb = some-Shrinks nil rb
  push_value-Shrinks (suc f) boolean_tag cookie rb = some-Shrinks _ rb
  push_value-Shrinks (suc f) number_tag cookie rb =
      if-Shrinks _ (cookie == 8)
        (bind-Shrinks _ _ (get_number-Shrinks 8 rb) λ r. some-Shrinks _ r.1)
        (bind-Shrinks _ _ (get_integer-Shrinks cookie rb) λ r. some-Shrinks _ r.1)
  push_value-Shrinks (suc f) userdata_tag cookie rb =
      bind-Shrinks _ _ (get_number-Shrinks 8 rb) λ r. some-Shrinks _ r.1
  push_value-Shrinks (suc f) short_string_tag cookie rb = get_buffer-Shrinks cookie rb
  push_value-Shrinks (suc f) long_string_tag cookie rb = get_long_string-Shrinks cookie rb
  push_value-Shrinks (suc f) table_tag cookie rb =
      bind-Shrinks _ _ (get_array_size-Shrinks cookie rb) λ size.
        bind-Shrinks _ _ (unpack_items-Shrinks f size.0 size.1)
          λ array. bind-Shrinks _ _ (unpack_fields-Shrinks f array.1) λ hash. some-Shrinks _ hash.1
  push_value-Shrinks (suc f) other_tag cookie rb = none-Shrinks rb

  pub unpack_one-Takes : (f : ℕ) (rb : List ℕ) → Takes rb (unpack_one f rb)
  unpack_one-Takes zero rb r e = absurd (cc e)
  unpack_one-Takes (suc f) rb r e =
      let head = bind_some (rb_read 1 rb) _ e in
      omega (
        arith,
        rb_read_left 1 rb head.0 head.1,
        push_value-Shrinks f (tag_of (number_of head.0.0 % 2 ^ 3)) (number_of head.0.0 / 2 ^ 3)
            head.0.1 r head.2,
      )

  pub unpack_items-Shrinks : (f n : ℕ) (rb : List ℕ) → Shrinks rb (unpack_items f n rb)
  unpack_items-Shrinks zero n rb = none-Shrinks rb
  unpack_items-Shrinks (suc f) zero rb = some-Shrinks no_items rb
  unpack_items-Shrinks (suc f) (suc n) rb =
      bind-Shrinks _ _ (λ r e. let less = unpack_one-Takes f rb r e in omega (arith, less))
        λ first. bind-Shrinks _ _ (unpack_items-Shrinks f n first.1) λ later. some-Shrinks _ later.1

  unpack_fields-Shrinks : (f : ℕ) (rb : List ℕ) → Shrinks rb (unpack_fields f rb)
  unpack_fields-Shrinks zero rb = none-Shrinks rb
  unpack_fields-Shrinks (suc f) rb =
      bind-Shrinks _ _ (λ r e. let less = unpack_one-Takes f rb r e in omega (arith, less))
        λ key.
          after_key-Shrinks f key (is_nil key.0) (unpack_one-Takes f key.1)
            (λ later. unpack_fields-Shrinks f later)
