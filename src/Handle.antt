-- ===== src/Handle.antt =====
-- skynet/skynet-src/skynet_handle.c: the table that finds a context by its handle. It is an array of which a handle's
-- place is given by its lowest bits, and which doubles when it is full.
--
-- A context is named by a number, its address. A dereference of NULL and a failed assertion are `none`. The
-- lock of the table makes each operation one step.
pub mod Table
pub mod Names
use jsmj_server.Base.{
  ℕ, zero, suc, ◌+◌, ◌-◌, ◌*◌, ◌^◌, ◌%◌, Option, none, some, List, [], ◌∷◌, ltb, leb, ◌==◌,
  if◌then◌else◌, get_or, set, replicate,
}

-- `struct handle_name`
pub record HandleName : Type 0 where
  pub name : List ℕ
  pub handle : ℕ

-- `struct handle_storage`; the first `name_count` entries of `name`. `handle_of` gives the fields that `skynet_context_handle` reads.
pub record HandleStorage : Type 0 where
  pub harbor : ℕ
  pub handle_index : ℕ
  pub slot_size : ℕ
  pub slot : List (Option ℕ)
  pub name_cap : ℕ
  pub name : List HandleName
  pub handle_of : ℕ → ℕ

abbrev pub default_slot_size : ℕ
default_slot_size = 4

-- HANDLE_MASK + 1
abbrev pub handles : ℕ
handles = 2 ^ 24

abbrev pub get_slot : List (Option ℕ) → ℕ → Option ℕ
get_slot slot i = get_or slot i none

-- The `for` of `skynet_handle_register` for the `n` values from `i` on: the handle whose slot is NULL. As `slot_size` is
-- a power of two, `handle & (slot_size - 1)` is a remainder.
unfoldable pub scan : ℕ → ℕ → HandleStorage → Option ℕ
scan zero i s = none
scan (suc n) i s =
    let handle = (i + s.handle_index) % handles in
    let later = scan n (i + 1) s in
    elim (get_slot s.slot (handle % s.slot_size)) [ none ↦ some handle | some _ ↦ later ]

-- The `for` that copies the slots from `i` on to the new array of the given size.
unfoldable pub rehash : ℕ → ℕ → ℕ → HandleStorage → List (Option ℕ) → Option (List (Option ℕ))
rehash zero i size s new_slot = some new_slot
rehash (suc n) i size s new_slot = elim (get_slot s.slot i) [
  | none ↦ none
  | some ctx ↦ elim (get_slot new_slot (s.handle_of ctx % size)) [
    | some _ ↦ none
    | none ↦ rehash n (i + 1) size s (set new_slot (s.handle_of ctx % size) (some ctx))
  ]
]

-- the doubling of the table
unfoldable pub grow : HandleStorage → Option HandleStorage
grow s =
    if ltb (s.slot_size * 2 - 1) handles
    then elim (rehash s.slot_size 0 (s.slot_size * 2) s (replicate (s.slot_size * 2) none)) [
      | none ↦ none
      | some new_slot ↦ some (record s { slot = new_slot; slot_size = s.slot_size * 2 })
    ]
    else none

-- `s->slot[hash] = ctx`, `s->handle_index = handle + 1` and `handle |= s->harbor`, where `harbor` has only higher bits
abbrev pub occupy : ℕ → ℕ → HandleStorage → ℕ × HandleStorage
occupy ctx handle s = (
  handle + s.harbor,
  record s { slot = set s.slot (handle % s.slot_size) (some ctx); handle_index = handle + 1 },
)

-- `for (;;)` of `skynet_handle_register`
unfoldable pub register_loop : ℕ → ℕ → HandleStorage → Option (ℕ × HandleStorage)
register_loop zero ctx s = none
register_loop (suc fuel) ctx s = elim (scan s.slot_size 0 s) [
  | some handle ↦ some (occupy ctx handle s)
  | none ↦ elim (grow s) [ none ↦ none | some s' ↦ register_loop fuel ctx s' ]
]

-- `skynet_handle_register`: there is a free slot after at most one doubling.
unfoldable pub register : ℕ → HandleStorage → Option (ℕ × HandleStorage)
unfolding register_loop
register ctx s = register_loop 2 ctx s

-- `result->handle = skynet_handle_register(result)` of `skynet_context_new`
abbrev pub set_handle : ℕ → ℕ → HandleStorage → HandleStorage
set_handle ctx handle s = record s { handle_of = λ c. if c == ctx then handle else s.handle_of c }

-- The test of `skynet_handle_grab`: the context, whose reference count the caller then raises.
unfoldable pub grab : ℕ → HandleStorage → Option ℕ
grab handle s = elim (get_slot s.slot (handle % s.slot_size)) [
  | none ↦ none
  | some ctx ↦ if s.handle_of ctx == handle then some ctx else none
]

-- The `for` of `skynet_handle_retire` that removes the names of the handle and closes the gaps.
unfoldable pub drop_names : ℕ → List HandleName → List HandleName
drop_names handle [] = []
drop_names handle (n ∷ ns) =
    if n.handle == handle then drop_names handle ns else n ∷ drop_names handle ns

-- `skynet_handle_retire`: the context that it releases, if any.
unfoldable pub retire : ℕ → HandleStorage → Option ℕ × HandleStorage
unfolding drop_names
retire handle s = elim (get_slot s.slot (handle % s.slot_size)) [
  | none ↦ (none, s)
  | some ctx ↦
      if s.handle_of ctx == handle
      then (
        some ctx,
        record s { slot = set s.slot (handle % s.slot_size) none; name = drop_names handle s.name },
      )
      else (none, s)
]

-- `skynet_handle_init`
unfoldable pub handle_init : ℕ → HandleStorage
handle_init harbor = record {
  harbor = harbor % 2 ^ 8 * 2 ^ 24;
  handle_index = 1;
  slot_size = default_slot_size;
  slot = replicate default_slot_size none;
  name_cap = 2;
  name = [];
  handle_of = λ c. 0;
}
