-- ===== src/Handle/Names.antt =====
-- The names of services: an array sorted by name, searched by halves.
pub mod Find
pub mod Lookup
pub mod Insert
use jsmj_server.Base.{
  ℕ, zero, suc, ◌+◌, ◌-◌, ◌*◌, ◌/◌, ◌^◌, ◌≤◌, ◌<◌, ◌≡◌, Bool, true, false, Option, none, some, List,
  [], ◌∷◌, ◌++◌, ltb, leb, ◌==◌, if◌then◌else◌, length, get_or, take, drop,
}
use jsmj_server.Handle.{HandleName, HandleStorage}

-- the sign of what `strcmp` returns
pub data Sign : Type 0 where
  less : Sign
  same : Sign
  greater : Sign

-- `strcmp` of two strings without the null at their end
unfoldable pub strcmp : List ℕ → List ℕ → Sign
strcmp [] [] = same
strcmp [] (y ∷ ys) = less
strcmp (x ∷ xs) [] = greater
strcmp (x ∷ xs) (y ∷ ys) =
    let later = strcmp xs ys in if x == y then later else if ltb x y then less else greater

abbrev pub no_name : HandleName
no_name = record { name = []; handle = 0 }

-- What the `while` finds between `begin` and `end` - 1: the entry, or the place where the name belongs. The C variable
-- `end` is the last index.
pub data Search : Type 0 where
  found : HandleName → Search
  missing : ℕ → Search

-- The `while (begin<=end)` of `skynet_handle_findname` and of `_insert_name`; `stop` is `end + 1`.
unfoldable pub search_loop : ℕ → List ℕ → List HandleName → ℕ → ℕ → Search
search_loop zero name names begin stop = missing begin
search_loop (suc fuel) name names begin stop =
    let mid = (begin + (stop - 1)) / 2 in
    let n = get_or names mid no_name in
    let upper = search_loop fuel name names (mid + 1) stop in
    let lower = search_loop fuel name names begin mid in
    if ltb begin stop
    then elim (strcmp n.name name) [ less ↦ upper | same ↦ found n | greater ↦ lower ]
    else missing begin

unfoldable pub findname : List ℕ → HandleStorage → ℕ
findname name s = elim (search_loop (length s.name + 1) name s.name 0 (length s.name)) [
  | found n ↦ n.handle
  | missing place ↦ 0
]

abbrev pub max_slot_size : ℕ
max_slot_size = 2 ^ 30

-- `_insert_name_before`, which doubles a full array
unfoldable pub insert_name_before : List ℕ → ℕ → ℕ → HandleStorage → Option HandleStorage
insert_name_before name handle before s =
    let entries =
      take before s.name ++ record { name = name; handle = handle } ∷ drop before s.name in
    if leb s.name_cap (length s.name)
    then if leb (s.name_cap * 2) max_slot_size
      then some (record s { name_cap = s.name_cap * 2; name = entries })
      else none
    else some (record s { name = entries })

-- `_insert_name` under the lock of `skynet_handle_namehandle`: whether the name was free, and the table
unfoldable pub insert_name : List ℕ → ℕ → HandleStorage → Option (Bool × HandleStorage)
insert_name name handle s = elim (search_loop (length s.name + 1) name s.name 0 (length s.name)) [
  | found n ↦ some (false, s)
  | missing place ↦ elim (insert_name_before name handle place s) [
    | none ↦ none
    | some s' ↦ some (true, s')
  ]
]
