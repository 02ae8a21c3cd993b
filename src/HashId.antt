-- ===== src/HashId.antt =====
-- skynet/service-src/hashid.h: the table that gives each connection of a gate a slot. The slots are nodes of an array,
-- and the used ones hang in lists, one list for each value of the lowest bits of the identifier.
--
-- An identifier of a socket is not negative, so -1 marks a free node and is `none`. A pointer to a node is its
-- index, and the arrays are functions of the index. A failed assertion is `none`.
pub mod Chain
pub mod Table
pub mod Search
pub mod Insert
pub mod Remove
use jsmj_server.Base.{
  ℕ, zero, suc, ◌+◌, ◌-◌, ◌*◌, ◌%◌, Bool, true, false, Option, none, some, ltb, leb, ◌^◌, ◌==◌,
  if◌then◌else◌, update,
}

-- `struct hashid`, with the fields `id` and `next` of its nodes
pub record HashId : Type 0 where
  pub hashmod : ℕ
  pub cap : ℕ
  pub count : ℕ
  pub id : ℕ → Option ℕ
  pub next : ℕ → Option ℕ
  pub hash : ℕ → Option ℕ

-- `while (hashcap < max) hashcap *= 2`; `max` rounds are enough. For `max` of at most 2^30 an `int` holds `hashcap`; the
-- model says nothing of the overflow beyond.
unfoldable pub hash_cap : ℕ → ℕ → ℕ → ℕ
hash_cap zero hashcap max = hashcap
hash_cap (suc rounds) hashcap max =
    let larger = hash_cap rounds (hashcap * 2) max in if ltb hashcap max then larger else hashcap

unfoldable pub hashid_init : ℕ → HashId
hashid_init max = record {
  hashmod = hash_cap max 16 max - 1;
  cap = max;
  count = 0;
  id = λ i. none;
  next = λ i. none;
  hash = λ h. none;
}

unfoldable pub hashid_clear : HashId → HashId
hashid_clear hi = record {
  hashmod = 1;
  cap = 0;
  count = 0;
  id = λ i. none;
  next = λ i. none;
  hash = λ h. none;
}

-- `id & hi->hashmod`, where `hashmod + 1` is a power of two
abbrev pub bucket : ℕ → HashId → ℕ
bucket id hi = id % (hi.hashmod + 1)

-- `c->id == id`
abbrev pub is_id : Option ℕ → ℕ → Bool
is_id none id = false
is_id (some x) id = x == id

-- The `while` of `hashid_lookup`. A list has at most `cap` nodes.
unfoldable pub lookup_loop : ℕ → Option ℕ → ℕ → HashId → Option ℕ
lookup_loop zero c id hi = none
lookup_loop (suc rounds) none id hi = none
lookup_loop (suc rounds) (some c) id hi =
    let later = lookup_loop rounds (hi.next c) id hi in if is_id (hi.id c) id then some c else later

unfoldable pub hashid_lookup : ℕ → HashId → Option ℕ
unfolding lookup_loop
hashid_lookup id hi = lookup_loop hi.cap (hi.hash (bucket id hi)) id hi

-- The `while` of `hashid_remove`: the node before the one that is looked for, and that node.
unfoldable pub before_loop : ℕ → ℕ → ℕ → HashId → Option (ℕ × ℕ)
before_loop zero c id hi = none
before_loop (suc rounds) c id hi = elim (hi.next c) [
  | none ↦ none
  | some t ↦
      let later = before_loop rounds t id hi in if is_id (hi.id t) id then some (c, t) else later
]

-- what stands behind the label `_clear`
unfoldable pub clear_node : ℕ → HashId → HashId
clear_node c hi = record hi {
  id = update hi.id c none;
  next = update hi.next c none;
  count = hi.count - 1;
}

unfoldable pub hashid_remove : ℕ → HashId → Option ℕ × HashId
unfolding before_loop clear_node
hashid_remove id hi = elim (hi.hash (bucket id hi)) [
  | none ↦ (none, hi)
  | some c ↦
      if is_id (hi.id c) id
      then (some c, clear_node c (record hi { hash = update hi.hash (bucket id hi) (hi.next c) }))
      else elim (before_loop hi.cap c id hi) [
        | none ↦ (none, hi)
        | some (p, t) ↦ (some t, clear_node t (record hi { next = update hi.next p (hi.next t) }))
      ]
]

-- The `for` of `hashid_insert` for the `n` values from `i` on: the first free node. An `i+id` that an `int` cannot hold is
-- `none`.
unfoldable pub free_node : ℕ → ℕ → ℕ → HashId → Option ℕ
free_node zero i id hi = none
free_node (suc n) i id hi =
    let later = free_node n (i + 1) id hi in
    if leb (2 ^ 31) (i + id)
    then none
    else elim (hi.id ((i + id) % hi.cap)) [ none ↦ some ((i + id) % hi.cap) | some _ ↦ later ]

-- A node at the front of an empty list keeps the NULL that the second assertion found.
unfoldable pub hashid_insert : ℕ → HashId → Option (ℕ × HashId)
unfolding free_node
hashid_insert id hi = elim (free_node hi.cap 0 id hi) [
  | none ↦ none
  | some c ↦ elim (hi.next c) [
    | some _ ↦ none
    | none ↦ some (
      c,
      record hi {
        count = hi.count + 1;
        id = update hi.id c (some id);
        next = update hi.next c (hi.hash (bucket id hi));
        hash = update hi.hash (bucket id hi) (some c);
      },
    )
  ]
]

unfoldable pub hashid_full : HashId → Bool
hashid_full hi = hi.count == hi.cap
