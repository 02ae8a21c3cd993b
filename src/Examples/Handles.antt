-- ===== src/Examples/Handles.antt =====
-- The table of contexts: a full table of four slots that doubles.
use jsmj_server.Base.{
  ℕ, zero, suc, ◌+◌, ◌-◌, ◌^◌, ◌%◌, ◌≡◌, ◌≢◌, refl, none, some, some_inj, [], ◌∷◌, arith, inl,
}
use jsmj_server.Handle.{
  HandleStorage, handles, get_slot, scan, rehash, grow, register, register_loop, set_handle, grab,
  retire, drop_names, handle_init,
}
use jsmj_server.Handle.Table.{IsValid}
use jsmj_server.Handle.Table.Register.{IsAbsent, register_lem}
use jsmj_server.Handle.Table.Retire.{names_of, retire_lem}

table : Unit {0}
unfolding scan rehash grow register register_loop grab retire drop_names handle_init names_of
table = tt

abbrev full_table : HandleStorage
full_table = record {
  harbor = 2 ^ 24;
  handle_index = 5;
  slot_size = 4;
  slot = some 14 ∷ some 11 ∷ some 12 ∷ some 13 ∷ [];
  name_cap = 2;
  name =
      record { name = 97 ∷ []; handle = 2 ^ 24 + 2 }
      ∷ record { name = 98 ∷ []; handle = 2 ^ 24 + 3 }
      ∷ [];
  handle_of = λ c. 2 ^ 24 + (c - 10);
}

full_table-IsValid : IsValid full_table
full_table-IsValid = record { spare = 22; size = refl; len = refl; high = refl; placed = placed }
  where
    placed : (i c : ℕ) → get_slot full_table.slot i ≡ some c → (2 ^ 24 + (c - 10)) % 4 ≡ i
    placed zero c e = let it : 14 ≡ c = some_inj e in omega (arith, it)
    placed (suc zero) c e = let it : 11 ≡ c = some_inj e in omega (arith, it)
    placed (suc (suc zero)) c e = let it : 12 ≡ c = some_inj e in omega (arith, it)
    placed (suc (suc (suc zero))) c e = let it : 13 ≡ c = some_inj e in omega (arith, it)
    placed (suc (suc (suc (suc i)))) c e = absurd cc

absent : IsAbsent 15 full_table
absent zero e = let it : 14 ≡ 15 = some_inj e in omega (arith, it)
absent (suc zero) e = let it : 11 ≡ 15 = some_inj e in omega (arith, it)
absent (suc (suc zero)) e = let it : 12 ≡ 15 = some_inj e in omega (arith, it)
absent (suc (suc (suc zero))) e = let it : 13 ≡ 15 = some_inj e in omega (arith, it)
absent (suc (suc (suc (suc i)))) e = absurd cc

doubles :
    register 15 full_table
    ≡ some (
      2 ^ 24 + 5,
      record full_table {
        handle_index = 6;
        slot_size = 8;
        slot = none ∷ some 11 ∷ some 12 ∷ some 13 ∷ some 14 ∷ some 15 ∷ none ∷ none ∷ [];
      },
    )
unfolding table
doubles = refl

found : grab (2 ^ 24 + 4) full_table ≡ some 14
unfolding table
found = refl

retired :
    (retire (2 ^ 24 + 2) full_table).1.name ≡ record { name = 98 ∷ []; handle = 2 ^ 24 + 3 } ∷ []
unfolding table
retired = refl

register_lem_example :
    (r : ℕ × HandleStorage) × (register 15 full_table ≡ some r)
    × IsValid (set_handle 15 r.0 r.1)
    × (r.0 ≡ r.0 % handles + 2 ^ 24)
    × (grab r.0 full_table ≡ none)
    × (grab r.0 (set_handle 15 r.0 r.1) ≡ some 15)
    × ((k : ℕ) → k ≢ r.0 → grab k (set_handle 15 r.0 r.1) ≡ grab k full_table)
register_lem_example = register_lem 15 full_table-IsValid absent (inl (omega arith))

retire_lem_example :
    let (released, s') = retire (2 ^ 24 + 2) full_table in
    (released ≡ grab (2 ^ 24 + 2) full_table)
    × IsValid s'
    × (grab (2 ^ 24 + 2) s' ≡ none)
    × ((k : ℕ)
        → k ≢ 2 ^ 24 + 2
        → (grab k s' ≡ grab k full_table) × (names_of k s'.name ≡ names_of k full_table.name))
    × ((c : ℕ) → released ≡ some c → names_of (2 ^ 24 + 2) s'.name ≡ [])
retire_lem_example = retire_lem (2 ^ 24 + 2) full_table-IsValid
