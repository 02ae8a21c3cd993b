-- ===== src/Examples/Names.antt =====
-- The table of names: two names, and a third between them.
use jsmj_server.Base.{ℕ, zero, suc, ◌≡◌, refl, true, false, none, some, [], ◌∷◌, arith, inr}
use jsmj_server.Handle.{HandleStorage}
use jsmj_server.Handle.Names.{strcmp, search_loop, findname, insert_name_before, insert_name}
use jsmj_server.Handle.Names.Find.{IsSorted}
use jsmj_server.Handle.Names.Lookup.{lookup, or_zero, findname_lem}
use jsmj_server.Handle.Names.Insert.{IsInserted, insert_name_lem}

names : Unit {0}
unfolding strcmp search_loop findname insert_name_before insert_name lookup
names = tt

abbrev two_names : HandleStorage
two_names = record {
  harbor = 0;
  handle_index = 3;
  slot_size = 4;
  slot = none ∷ some 11 ∷ some 12 ∷ none ∷ [];
  name_cap = 2;
  name = record { name = 97 ∷ []; handle = 2 } ∷ record { name = 97 ∷ 98 ∷ []; handle = 1 } ∷ [];
  handle_of = λ c. c;
}

two_names-IsSorted : IsSorted two_names.name
unfolding names
two_names-IsSorted zero zero h k = absurd (omega arith)
two_names-IsSorted zero (suc zero) h k = refl
two_names-IsSorted zero (suc (suc j)) h k = absurd (omega arith)
two_names-IsSorted (suc i) zero h k = absurd (omega arith)
two_names-IsSorted (suc i) (suc zero) h k = absurd (omega arith)
two_names-IsSorted (suc i) (suc (suc j)) h k = absurd (omega arith)

second : findname (97 ∷ 98 ∷ []) two_names ≡ 1
unfolding names
second = refl

third :
    insert_name (97 ∷ 97 ∷ []) 5 two_names
    ≡ some (
      true,
      record two_names {
        name_cap = 4;
        name =
            record { name = 97 ∷ []; handle = 2 }
            ∷ record { name = 97 ∷ 97 ∷ []; handle = 5 }
            ∷ record { name = 97 ∷ 98 ∷ []; handle = 1 }
            ∷ [];
      },
    )
unfolding names
third = refl

findname_lem_example :
    findname (97 ∷ 98 ∷ []) two_names ≡ or_zero (lookup (97 ∷ 98 ∷ []) two_names.name)
findname_lem_example = findname_lem (97 ∷ 98 ∷ []) two_names two_names-IsSorted

insert_name_lem_example :
    ((h : ℕ)
      → lookup (97 ∷ 97 ∷ []) two_names.name ≡ some h
      → insert_name (97 ∷ 97 ∷ []) 5 two_names ≡ some (false, two_names))
    × (lookup (97 ∷ 97 ∷ []) two_names.name ≡ none
        → (s' : HandleStorage) × (insert_name (97 ∷ 97 ∷ []) 5 two_names ≡ some (true, s'))
          × IsInserted (97 ∷ 97 ∷ []) 5 two_names s')
insert_name_lem_example =
    insert_name_lem (97 ∷ 97 ∷ []) 5 two_names two_names-IsSorted (omega arith) (omega arith)
      (inr (omega arith))
