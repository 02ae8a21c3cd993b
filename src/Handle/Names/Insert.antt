-- ===== src/Handle/Names/Insert.antt =====
-- A new name enters the sorted table.
use jsmj_server.Base.{
  ℕ, zero, suc, ◌+◌, ◌*◌, ◌≤◌, ◌<◌, ◌≡◌, ◌≢◌, ◌⊎◌, inl, inr, refl, ap, sym, ◌∙◌, Bool, true, false,
  Option, none, some, List, [], ◌∷◌, ◌++◌, ltb, leb, ◌==◌, length, take, drop, Bool-cases, arith,
}
use jsmj_server.Handle.{HandleName, HandleStorage}
use jsmj_server.Handle.Names.{
  less, same, strcmp, Search, found, missing, search_loop, insert_name_before, insert_name,
  max_slot_size,
}
use jsmj_server.Handle.Names.Find.{
  Sign-cases, strcmp_eq, strcmp_refl, entry, IsSorted, IsResult, search-IsResult,
  strcmp-less_of_greater,
}
use jsmj_server.Handle.Names.Lookup.{lookup, skip, lookup-found}

abbrev inserted : ℕ → HandleName → List HandleName → List HandleName
inserted p n ns = take p ns ++ n ∷ drop p ns

length-inserted :
    (p : ℕ) (n : HandleName) (ns : List HandleName) → length (inserted p n ns) ≡ length ns + 1
length-inserted zero n ns = omega arith
length-inserted (suc p) n [] = refl
length-inserted (suc p) n (x ∷ ns) = omega (arith, length-inserted p n ns)

entry-before :
    (p i : ℕ) (n : HandleName) (ns : List HandleName)
    → p ≤ length ns
    → i < p
    → entry (inserted p n ns) i ≡ entry ns i
entry-before zero i n ns h k = absurd (omega arith)
entry-before (suc p) i n [] h k = absurd (omega arith)
entry-before (suc p) zero n (x ∷ ns) h k = refl
entry-before (suc p) (suc i) n (x ∷ ns) h k = entry-before p i n ns (omega arith) (omega arith)

entry-at :
    (p : ℕ) (n : HandleName) (ns : List HandleName)
    → p ≤ length ns
    → entry (inserted p n ns) p ≡ n.name
entry-at zero n ns h = refl
entry-at (suc p) n [] h = absurd (omega arith)
entry-at (suc p) n (x ∷ ns) h = entry-at p n ns (omega arith)

entry-after :
    (p i : ℕ) (n : HandleName) (ns : List HandleName)
    → p ≤ length ns
    → p ≤ i
    → entry (inserted p n ns) (suc i) ≡ entry ns i
entry-after zero i n ns h k = refl
entry-after (suc p) i n [] h k = absurd (omega arith)
entry-after (suc p) zero n (x ∷ ns) h k = absurd (omega arith)
entry-after (suc p) (suc i) n (x ∷ ns) h k = entry-after p i n ns (omega arith) (omega arith)

inserted-IsSorted :
    (p : ℕ) (n : HandleName) (ns : List HandleName)
    → IsSorted ns
    → IsResult n.name ns (missing p)
    → IsSorted (inserted p n ns)
inserted-IsSorted p n ns sorted (fits, below, above) i zero h k = absurd (omega arith)
inserted-IsSorted p n ns sorted (fits, below, above) i (suc j) h k = elim (Bool-cases (ltb i p)) [
  | inl low ↦
      let i_p : i < p = ground (arith, low) in
      rw (entry-before p i n ns fits i_p) (elim (Bool-cases (ltb (suc j) p)) [
        | inl low' ↦
            rw (entry-before p (suc j) n ns fits (ground (arith, low')))
              (sorted i (suc j) h (ground (arith, low', fits)))
        | inr high' ↦ elim (Bool-cases (suc j == p)) [
          | inl at ↦
              let here : suc j ≡ p = ground (arith, at) in
              rw (here, entry-at p n ns fits) (below i i_p)
          | inr off ↦
              rw (entry-after p j n ns fits (ground (arith, high', off)))
                (sorted i j (ground (arith, high', off, i_p)) (short h k))
        ]
      ])
  | inr high ↦ elim (Bool-cases (i == p)) [
    | inl at ↦
        let here : i ≡ p = ground (arith, at) in
        rw (here, entry-at p n ns fits, entry-after p j n ns fits (omega (arith, here, h)))
          (strcmp-less_of_greater (entry ns j) n.name
            (above j (omega (arith, here, h)) (short h k)))
    | inr off ↦ later i h (ground (arith, high, off))
  ]
]
  where
    short : {i : ℕ} → i < suc j → suc j < length (inserted p n ns) → j < length ns
    short h k = omega (arith, length-inserted p n ns)

    later :
        (i : ℕ)
        → i < suc j
        → p < i
        → strcmp (entry (inserted p n ns) i) (entry (inserted p n ns) (suc j)) ≡ less
    later zero h q = absurd (omega arith)
    later (suc i) h q =
        rw (entry-after p i n ns fits (omega arith), entry-after p j n ns fits (omega arith))
          (sorted i j (omega arith) (short h k))

some_ne_none : {h : ℕ} → some h ≢ none
some_ne_none e = absurd cc

lookup-inserted_self :
    (p : ℕ) (n : HandleName) (ns : List HandleName)
    → lookup n.name ns ≡ none
    → lookup n.name (inserted p n ns) ≡ some n.handle
unfolding lookup
lookup-inserted_self zero n ns e = rw (lookup, strcmp_refl n.name) refl
lookup-inserted_self (suc p) n [] e = rw (lookup, strcmp_refl n.name) refl
lookup-inserted_self (suc p) n (x ∷ ns) e = elim (Sign-cases (strcmp x.name n.name)) [
  | inl lower ↦ rw (lookup, lower) (lookup-inserted_self p n ns (rw (lookup, lower) at e))
  | inr (inl it) ↦ absurd (some_ne_none (rw (lookup, it) at e))
  | inr (inr upper) ↦ rw (lookup, upper) (lookup-inserted_self p n ns (rw (lookup, upper) at e))
]

lookup-inserted_other :
    (p : ℕ) (k : List ℕ) (n : HandleName) (ns : List HandleName)
    → strcmp n.name k ≢ same
    → lookup k (inserted p n ns) ≡ lookup k ns
unfolding lookup
lookup-inserted_other zero k n ns other = skip k n ns other
lookup-inserted_other (suc p) k n [] other = skip k n [] other
lookup-inserted_other (suc p) k n (x ∷ ns) other = elim (Sign-cases (strcmp x.name k)) [
  | inl lower ↦ rw (lookup, lower) (lookup-inserted_other p k n ns other)
  | inr (inl it) ↦ rw (lookup, it) refl
  | inr (inr upper) ↦ rw (lookup, upper) (lookup-inserted_other p k n ns other)
]

-- what a successful insertion makes of the table
pub record IsInserted (name : List ℕ) (handle : ℕ) (s s' : HandleStorage) : Type 0 where
  pub sorted : IsSorted s'.name
  pub fits : length s'.name ≤ s'.name_cap
  pub entered : lookup name s'.name ≡ some handle
  pub others : (k : List ℕ) → k ≢ name → lookup k s'.name ≡ lookup k s.name

insert_name_before-IsInserted :
    (name : List ℕ) (handle p : ℕ) (s : HandleStorage)
    → IsSorted s.name
    → IsResult name s.name (missing p)
    → lookup name s.name ≡ none
    → length s.name ≤ s.name_cap
    → 0 < s.name_cap
    → (length s.name < s.name_cap) ⊎ (s.name_cap * 2 ≤ max_slot_size)
    → (s' : HandleStorage) × (insert_name_before name handle p s ≡ some s')
      × IsInserted name handle s s'
unfolding insert_name_before
insert_name_before-IsInserted name handle p s sorted here absent held positive room =
    let n : HandleName = record { name = name; handle = handle } in
    let one_more = length-inserted p n s.name in
    let sorted' = inserted-IsSorted p n s.name sorted here in
    let entered = lookup-inserted_self p n s.name absent in
    elim (Bool-cases (leb s.name_cap (length s.name))) [
      | inr free ↦ (
        record s { name = inserted p n s.name },
        rw free refl,
        record {
          sorted = sorted';
          fits = ground (arith, free, one_more);
          entered = entered;
          others = others;
        },
      )
      | inl full ↦
          let allowed : leb (s.name_cap * 2) max_slot_size ≡ true = ground (arith, room, full) in
          (
            record s { name_cap = s.name_cap * 2; name = inserted p n s.name },
            rw (full, allowed) refl,
            record {
              sorted = sorted';
              fits = omega (arith, one_more, held, positive);
              entered = entered;
              others = others;
            },
          )
    ]
  where
    others :
        (k : List ℕ)
        → k ≢ name
        → lookup k (inserted p (record { name = name; handle = handle }) s.name) ≡ lookup k s.name
    others k differ = lookup-inserted_other p k _ s.name (λ e. differ (sym (strcmp_eq name k e)))

-- `skynet_handle_namehandle` in a sorted table whose array is not at its bound: a name that is taken changes nothing; a free
-- name is entered, the table stays sorted and within its array, and other names keep their handles.
pub insert_name_lem :
    (name : List ℕ) (handle : ℕ) (s : HandleStorage)
    → IsSorted s.name
    → length s.name ≤ s.name_cap
    → 0 < s.name_cap
    → (length s.name < s.name_cap) ⊎ (s.name_cap * 2 ≤ max_slot_size)
    → ((h : ℕ) → lookup name s.name ≡ some h → insert_name name handle s ≡ some (false, s))
      × (lookup name s.name ≡ none
          → (s' : HandleStorage) × (insert_name name handle s ≡ some (true, s'))
            × IsInserted name handle s s')
unfolding insert_name
insert_name_lem name handle s sorted held positive room =
    by_result (search_loop (length s.name + 1) name s.name 0 (length s.name))
      (search-IsResult name s.name sorted)
  where
    outcome : Search → Option (Bool × HandleStorage)
    outcome (found n) = some (false, s)
    outcome (missing p) = elim (insert_name_before name handle p s) [
      | none ↦ none
      | some s' ↦ some (true, s')
    ]

    by_result :
        (r : Search)
        → IsResult name s.name r
        → ((h : ℕ) → lookup name s.name ≡ some h → outcome r ≡ some (false, s))
          × (lookup name s.name ≡ none
              → (s' : HandleStorage) × (outcome r ≡ some (true, s')) × IsInserted name handle s s')
    by_result (found n) d = (
      λ h e. refl,
      λ e. absurd (some_ne_none (sym (lookup-found name s.name sorted (found n) d) ∙ e)),
    )
    by_result (missing p) d = (
      λ h e. absurd (some_ne_none (sym e ∙ lookup-found name s.name sorted (missing p) d)),
      λ e.
          let (s', run, q) =
            insert_name_before-IsInserted name handle p s sorted d e held positive room in
          (
            s',
            ap
                (λ o. elim o as (λ _. Option (Bool × HandleStorage)) [
                  | none ↦ none
                  | some t ↦ some (true, t)
                ])
                run,
            q,
          ),
    )
