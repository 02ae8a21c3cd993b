-- ===== src/Seri.antt =====
-- skynet/lualib-src/lua-seri.c: Lua values as a stream of bytes.
--
-- `Value` is what the serialiser sees of a Lua value: a number is its bit pattern, a string its bytes, and a table its
-- array and the pairs that `lua_next` gives besides those of the array. The host is little endian. An error that is
-- raised is `none`.
pub mod Stream
pub mod Blocks
pub mod Encode
pub mod Pack
pub mod Read
pub mod Unpack
pub mod RoundTrip
pub mod Consume
pub mod Fuel
use jsmj_server.Base.{
  ℕ, zero, suc, ◌+◌, ◌-◌, ◌*◌, ◌/◌, ◌%◌, ◌^◌, Bool, true, false, not, ◌&&◌, ◌||◌, Option, none,
  some, ◌>>=◌, List, [], ◌∷◌, ◌++◌, ltb, leb, ◌==◌, if◌then◌else◌, length, take, drop,
}

mutual
  -- A table with `__pairs` is the pairs that the metamethod gives.
  pub data Value : Type 0 where
    nil : Value
    boolean : Bool → Value
    integer : ℕ → Value
    real : ℕ → Value
    pointer : ℕ → Value
    string : List ℕ → Value
    table : Items → Fields → Value
    with_pairs : Fields → Value
    unsupported : Value

  pub data Items : Type 0 where
    no_items : Items
    item : Value → Items → Items

  pub data Fields : Type 0 where
    no_fields : Fields
    field : Value → Value → Fields → Fields

-- `BLOCK_SIZE`, `MAX_COOKIE` and `MAX_DEPTH`
abbrev pub block_size : ℕ
block_size = 128

abbrev pub max_cookie : ℕ
max_cookie = 32

abbrev pub max_depth : ℕ
max_depth = 32

-- `struct write_block`: the bytes of the blocks before `current`, and those of `current`, of which there are `ptr`
pub record WriteBlock : Type 0 where
  pub before : List (List ℕ)
  pub current : List ℕ
  pub len : ℕ

-- `wb_init`
abbrev pub wb_init : WriteBlock
wb_init = record { before = []; current = []; len = 0 }

-- `b->current = b->current->next = blk_alloc()`
abbrev pub next_block : WriteBlock → WriteBlock
next_block b = record b { before = b.before ++ b.current ∷ []; current = [] }

-- From the second test of `wb_push` on. Every round but the last fills a block.
unfoldable pub push_loop : ℕ → List ℕ → WriteBlock → WriteBlock
push_loop zero buf b = b
push_loop (suc rounds) buf b =
    let room = block_size - length b.current in
    let all = record b { current = b.current ++ buf; len = b.len + length buf } in
    let part = record b { current = b.current ++ take room buf; len = b.len + room } in
    let later = push_loop rounds (drop room buf) (next_block part) in
    if leb (length buf) room then all else later

-- `wb_push`; two rounds more than there are bytes are enough.
unfoldable pub wb_push : List ℕ → WriteBlock → WriteBlock
unfolding push_loop
wb_push buf b =
    let start = if length b.current == block_size then next_block b else b in
    push_loop (suc (length buf)) buf start

-- The loop of `seri`; the blocks are linked in order. A dereference of NULL is `none`.
unfoldable pub seri_loop : List (List ℕ) → ℕ → Option (List ℕ)
seri_loop [] len = if len == 0 then some [] else none
seri_loop (b ∷ next) len =
    let later = seri_loop next (len - block_size) in
    if len == 0
    then some []
    else (if leb block_size len
        then (later >>= λ rest. some (take block_size b ++ rest))
        else some (take len b))

-- `b->len` is an `int`, whose overflow is `none`.
unfoldable pub seri : WriteBlock → Option (List ℕ)
unfolding seri_loop
seri b = if leb (2 ^ 31) b.len then none else seri_loop (b.before ++ b.current ∷ []) b.len

-- The `k` bytes of a number in memory.
unfoldable pub bytes_of : ℕ → ℕ → List ℕ
bytes_of zero n = []
bytes_of (suc k) n = n % 2 ^ 8 ∷ bytes_of k (n / 2 ^ 8)

-- `COMBINE_TYPE`
abbrev pub combine_type : ℕ → ℕ → ℕ
combine_type t v = t + v * 2 ^ 3

abbrev pub type_nil : ℕ
type_nil = 0

abbrev pub type_boolean : ℕ
type_boolean = 1

abbrev pub type_number : ℕ
type_number = 2

abbrev pub type_userdata : ℕ
type_userdata = 3

abbrev pub type_short_string : ℕ
type_short_string = 4

abbrev pub type_long_string : ℕ
type_long_string = 5

abbrev pub type_table : ℕ
type_table = 6

abbrev pub wb_byte : ℕ → WriteBlock → WriteBlock
wb_byte n b = wb_push (n ∷ []) b

abbrev pub wb_nil : WriteBlock → WriteBlock
wb_nil b = wb_byte type_nil b

abbrev pub wb_boolean : Bool → WriteBlock → WriteBlock
wb_boolean v b = wb_byte (combine_type type_boolean (if v then 1 else 0)) b

-- `v != (int32_t)v` and `v < 0`, of the bit pattern of an `int64_t`
abbrev pub is_wide : ℕ → Bool
is_wide v = leb (2 ^ 31) v && ltb v (2 ^ 64 - 2 ^ 31)

abbrev pub is_negative : ℕ → Bool
is_negative v = leb (2 ^ 63) v

-- a number of `k` bytes behind its type
abbrev pub wb_number : ℕ → ℕ → ℕ → WriteBlock → WriteBlock
wb_number cookie k v b = wb_push (bytes_of k v) (wb_byte (combine_type type_number cookie) b)

unfoldable pub wb_integer : ℕ → WriteBlock → WriteBlock
unfolding wb_push bytes_of
wb_integer v b =
    if v == 0
    then wb_byte (combine_type type_number 0) b
    else (if is_wide v
        then wb_number 6 8 v b
        else (if is_negative v
            then wb_number 4 4 v b
            else (if ltb v (2 ^ 8)
                then wb_number 1 1 v b
                else (if ltb v (2 ^ 16) then wb_number 2 2 v b else wb_number 4 4 v b))))

abbrev pub wb_real : ℕ → WriteBlock → WriteBlock
wb_real v b = wb_number 8 8 v b

abbrev pub wb_pointer : ℕ → WriteBlock → WriteBlock
wb_pointer v b = wb_push (bytes_of 8 v) (wb_byte type_userdata b)

unfoldable pub wb_string : List ℕ → WriteBlock → WriteBlock
unfolding wb_push bytes_of
wb_string str b =
    let len = length str in
    let short = wb_byte (combine_type type_short_string len) b in
    let long2 = wb_push (bytes_of 2 len) (wb_byte (combine_type type_long_string 2) b) in
    let long4 = wb_push (bytes_of 4 len) (wb_byte (combine_type type_long_string 4) b) in
    if ltb len max_cookie
    then (if ltb 0 len then wb_push str short else short)
    else (if ltb len (2 ^ 16) then wb_push str long2 else wb_push str long4)

-- `lua_rawlen`
abbrev pub rawlen : Items → ℕ
rawlen no_items = 0
rawlen (item v vs) = suc (rawlen vs)

-- the head of a table with an array of `n` elements
abbrev pub wb_array_size : ℕ → WriteBlock → WriteBlock
wb_array_size n b =
    if leb (max_cookie - 1) n
    then wb_integer n (wb_byte (combine_type type_table (max_cookie - 1)) b)
    else wb_byte (combine_type type_table n) b

-- The keys that `wb_table_hash` passes over: `x > 0 && x <= array_size`, of an integer.
abbrev pub is_index : ℕ → Value → Bool
is_index n (integer x) = ltb 0 x && leb x n
is_index n v = false

-- the test at the start of `pack_one`
abbrev pub limited : ℕ → Option WriteBlock → Option WriteBlock
limited depth packed = if ltb max_depth depth then none else packed

unfoldable mutual
  unfolding wb_push bytes_of wb_integer wb_string

  pub pack_one : ℕ → Value → WriteBlock → Option WriteBlock
  pack_one depth nil b = limited depth (some (wb_nil b))
  pack_one depth (boolean v) b = limited depth (some (wb_boolean v b))
  pack_one depth (integer v) b = limited depth (some (wb_integer v b))
  pack_one depth (real v) b = limited depth (some (wb_real v b))
  pack_one depth (pointer v) b = limited depth (some (wb_pointer v b))
  pack_one depth (string s) b = limited depth (some (wb_string s b))
  pack_one depth (table items pairs) b = limited depth do
    array ← pack_items (suc depth) items (wb_array_size (rawlen items) b)
    hash ← pack_fields (suc depth) (rawlen items) pairs array
    some (wb_nil hash)
  pack_one depth (with_pairs pairs) b =
      limited depth
        do hash ← pack_pairs (suc depth) pairs (wb_byte type_table b); some (wb_nil hash)
  pack_one depth unsupported b = none

  -- the loop of `wb_table_array`
  pub pack_items : ℕ → Items → WriteBlock → Option WriteBlock
  pack_items depth no_items b = some b
  pack_items depth (item v vs) b = do first ← pack_one depth v b; pack_items depth vs first

  -- the loop of `wb_table_hash`
  pub pack_fields : ℕ → ℕ → Fields → WriteBlock → Option WriteBlock
  pack_fields depth n no_fields b = some b
  pack_fields depth n (field k v fs) b = elim (is_index n k) [
    | true ↦ pack_fields depth n fs b
    | false ↦
        pack_one depth k b >>= λ key. pack_one depth v key >>= λ both. pack_fields depth n fs both
  ]

  -- the loop of `wb_table_metapairs`
  pub pack_pairs : ℕ → Fields → WriteBlock → Option WriteBlock
  pack_pairs depth no_fields b = some b
  pack_pairs depth (field k v fs) b = do
    key ← pack_one depth k b
    both ← pack_one depth v key
    pack_pairs depth fs both

-- the values of a stack, from the bottom
abbrev pub pack_from : Items → WriteBlock → Option WriteBlock
pack_from values b = pack_items 0 values b

unfoldable pub luaseri_pack : Items → Option (List ℕ)
unfolding pack_one seri
luaseri_pack values = pack_from values wb_init >>= λ b. seri b
