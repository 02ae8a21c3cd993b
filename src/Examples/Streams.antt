-- ===== src/Examples/Streams.antt =====
-- Lua values as a stream of bytes and back.
use jsmj_server.Base.{ℕ, ◌-◌, ◌^◌, ◌≡◌, refl, some, none, List, [], ◌∷◌, true}
use jsmj_server.Seri.{
  Items, nil, boolean, integer, string, table, with_pairs, unsupported, no_items, item, no_fields,
  field, push_loop, wb_push, seri_loop, seri, bytes_of, wb_integer, wb_string, pack_one,
  luaseri_pack,
}
use jsmj_server.Seri.Stream.{
  rb_read, number_of, get_number, get_integer, get_long_string, get_large_size, get_array_size,
  tag_of, push_value, unpack_loop, luaseri_unpack,
}
use jsmj_server.Seri.Encode.{Fits}
use jsmj_server.Seri.RoundTrip.{plain}

streams : Unit {0}
unfolding push_loop wb_push seri_loop seri bytes_of wb_integer wb_string pack_one luaseri_pack
    rb_read number_of get_number get_integer get_long_string get_large_size get_array_size tag_of
    push_value unpack_loop luaseri_unpack Fits plain
streams = tt

-- -5, and the table with nil and "A" in its array and a pair of "B" and a table that has `__pairs`
abbrev values : Items
values = item (integer (2 ^ 64 - 5)) (
    item
      (table (item nil (item (string (65 ∷ [])) no_items)) (
        field (string (66 ∷ [])) (with_pairs (field (boolean true) (integer 300) no_fields))
          no_fields))
      no_items)

-- a table whose array should have three elements, cut off
abbrev cut_off : List ℕ
cut_off = 30 ∷ 1 ∷ []

test_cut_off : luaseri_unpack cut_off ≡ none
test_cut_off = unfold streams in refl

test_unsupported : luaseri_pack (item (table (item unsupported no_items) no_fields) no_items) ≡ none
test_unsupported = unfold streams in refl

test_integer : luaseri_pack (item (integer 300) no_items) ≡ some (18 ∷ 44 ∷ 1 ∷ [])
test_integer = unfold streams in refl
