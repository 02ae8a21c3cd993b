-- ===== src/Seri/Stream.antt =====
-- The readers of skynet/lualib-src/lua-seri.c. A stream is the bytes that are left of it, and an error that is raised is
-- `none`. The length of a long string of 2^31 bytes or more is negative for `get_buffer`; the read is then not refused, but
-- `lua_pushlstring` gets a length near 2^64 and raises its own error, that the result is too large.
use jsmj_server.Base.{
  ℕ, zero, suc, ◌+◌, ◌-◌, ◌*◌, ◌/◌, ◌%◌, ◌^◌, Bool, true, false, not, ◌&&◌, Option, none, some,
  ◌>>=◌, List, [], ◌∷◌, ltb, ◌==◌, if◌then◌else◌, length, take, drop,
}
use jsmj_server.Seri.{
  Value, Items, Fields, max_cookie, type_nil, type_boolean, type_number, type_userdata,
  type_short_string, type_long_string, type_table, nil, boolean, integer, real, pointer, string,
  table, no_items, item, no_fields, field,
}

-- `rb_read`: the bytes that it points to, and the stream behind them
unfoldable pub rb_read : ℕ → List ℕ → Option (List ℕ × List ℕ)
rb_read sz rb = if ltb (length rb) sz then none else some (take sz rb, drop sz rb)

-- The number that stands in memory.
unfoldable pub number_of : List ℕ → ℕ
number_of [] = 0
number_of (b ∷ bs) = b + 2 ^ 8 * number_of bs

-- an `int32_t` as a `lua_Integer`
abbrev pub extended : ℕ → ℕ
extended n = if ltb n (2 ^ 31) then n else n + (2 ^ 64 - 2 ^ 32)

-- a number of `k` bytes
unfoldable pub get_number : ℕ → List ℕ → Option (ℕ × List ℕ)
unfolding rb_read number_of
get_number k rb = rb_read k rb >>= λ r. some (number_of r.0, r.1)

unfoldable pub get_integer : ℕ → List ℕ → Option (ℕ × List ℕ)
unfolding get_number
get_integer cookie rb =
    if cookie == 0
    then some (0, rb)
    else (if cookie == 1
        then get_number 1 rb
        else (if cookie == 2
            then get_number 2 rb
            else (if cookie == 4
                then (get_number 4 rb >>= λ r. some (extended r.0, r.1))
                else (if cookie == 6 then get_number 8 rb else none))))

abbrev pub get_buffer : ℕ → List ℕ → Option (Value × List ℕ)
get_buffer len rb = rb_read len rb >>= λ r. some (string r.0, r.1)

-- the `case TYPE_LONG_STRING` of `push_value`
unfoldable pub get_long_string : ℕ → List ℕ → Option (Value × List ℕ)
unfolding get_number rb_read
get_long_string cookie rb =
    if cookie == 2
    then (get_number 2 rb >>= λ r. get_buffer r.0 r.1)
    else (if cookie == 4 then (get_number 4 rb >>= λ r. get_buffer r.0 r.1) else none)

-- how often the loop over the array runs for this `lua_Integer`, taken for an `int`
abbrev pub loops : ℕ → ℕ
loops n = if ltb (n % 2 ^ 32) (2 ^ 31) then n % 2 ^ 32 else 0

-- the size of an array of 31 elements or more
unfoldable pub get_large_size : List ℕ → Option (ℕ × List ℕ)
unfolding rb_read get_integer number_of
get_large_size rb = do
  head ← rb_read 1 rb
  let type = number_of head.0
  let is_integer = type % 2 ^ 3 == type_number && not (type / 2 ^ 3 == 8)
  size ← if is_integer then get_integer (type / 2 ^ 3) head.1 else none
  some (loops size.0, size.1)

-- `unpack_table` up to the array
unfoldable pub get_array_size : ℕ → List ℕ → Option (ℕ × List ℕ)
unfolding get_large_size
get_array_size n rb =
    let large = get_large_size rb in if n == max_cookie - 1 then large else some (n, rb)

abbrev pub is_nil : Value → Bool
is_nil nil = true
is_nil v = false

-- the cases of the `switch` in `push_value`
pub data Tag : Type 0 where
  nil_tag boolean_tag number_tag userdata_tag short_string_tag long_string_tag table_tag other_tag :
      Tag

unfoldable pub tag_of : ℕ → Tag
tag_of type =
    if type == type_nil
    then nil_tag
    else (if type == type_boolean
        then boolean_tag
        else (if type == type_number
            then number_tag
            else (if type == type_userdata
                then userdata_tag
                else (if type == type_short_string
                    then short_string_tag
                    else (if type == type_long_string
                        then long_string_tag
                        else (if type == type_table then table_tag else other_tag))))))

-- `unpack_one` with the recursion on fuel; a table is what is stored in it, in order.
unfoldable mutual
  unfolding rb_read number_of get_number get_integer get_long_string get_array_size tag_of

  pub push_value : ℕ → Tag → ℕ → List ℕ → Option (Value × List ℕ)
  push_value zero tag cookie rb = none
  push_value (suc fuel) nil_tag cookie rb = some (nil, rb)
  push_value (suc fuel) boolean_tag cookie rb = some (boolean (not (cookie == 0)), rb)
  push_value (suc fuel) number_tag cookie rb =
      if cookie == 8
      then (get_number 8 rb >>= λ r. some (real r.0, r.1))
      else (get_integer cookie rb >>= λ r. some (integer r.0, r.1))
  push_value (suc fuel) userdata_tag cookie rb = get_number 8 rb >>= λ r. some (pointer r.0, r.1)
  push_value (suc fuel) short_string_tag cookie rb = get_buffer cookie rb
  push_value (suc fuel) long_string_tag cookie rb = get_long_string cookie rb
  push_value (suc fuel) table_tag cookie rb = do
    size ← get_array_size cookie rb
    array ← unpack_items fuel size.0 size.1
    hash ← unpack_fields fuel array.1
    some (table array.0 hash.0, hash.1)
  push_value (suc fuel) other_tag cookie rb = none

  pub unpack_one : ℕ → List ℕ → Option (Value × List ℕ)
  unpack_one zero rb = none
  unpack_one (suc fuel) rb = do
    head ← rb_read 1 rb
    let type = number_of head.0
    push_value fuel (tag_of (type % 2 ^ 3)) (type / 2 ^ 3) head.1

  -- the loop over the array
  pub unpack_items : ℕ → ℕ → List ℕ → Option (Items × List ℕ)
  unpack_items zero n rb = none
  unpack_items (suc fuel) zero rb = some (no_items, rb)
  unpack_items (suc fuel) (suc n) rb = do
    first ← unpack_one fuel rb
    later ← unpack_items fuel n first.1
    some (item first.0 later.0, later.1)

  -- the loop over the pairs, up to a key that is nil
  pub unpack_fields : ℕ → List ℕ → Option (Fields × List ℕ)
  unpack_fields zero rb = none
  unpack_fields (suc fuel) rb = do
    key ← unpack_one fuel rb
    elim (is_nil key.0) [
      | true ↦ some (no_fields, key.1)
      | false ↦ unpack_one fuel key.1 >>= λ v.
          unpack_fields fuel v.1 >>= λ later. some (field key.0 v.0 later.0, later.1)
    ]

-- The loop of `luaseri_unpack`; every round reads a byte or more.
unfoldable pub unpack_loop : ℕ → List ℕ → Option Items
unfolding unpack_one
unpack_loop rounds [] = some no_items
unpack_loop zero (b ∷ rb) = none
unpack_loop (suc rounds) (b ∷ rb) = do
  first ← unpack_one (3 * length (b ∷ rb)) (b ∷ rb)
  later ← unpack_loop rounds first.1
  some (item first.0 later)

unfoldable pub luaseri_unpack : List ℕ → Option Items
unfolding unpack_loop
luaseri_unpack rb = unpack_loop (length rb) rb
