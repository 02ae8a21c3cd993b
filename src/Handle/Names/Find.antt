-- ===== src/Handle/Names/Find.antt =====
-- The search in a sorted table of names ends, and finds the entry of the name or its place.
use jsmj_server.Base.{
  ℕ, zero, suc, ◌+◌, ◌-◌, ◌/◌, ◌≤◌, ◌<◌, ◌≡◌, ◌⊎◌, inl, inr, refl, ap, ap₂, ◌∙◌, true, List, [],
  ◌∷◌, ltb, ◌==◌, length, get_or, Bool-cases, arith,
}
use jsmj_server.Handle.{HandleName}
use jsmj_server.Handle.Names.{
  Sign, less, same, greater, strcmp, no_name, Search, found, missing, search_loop,
}

pub Sign-cases : (c : Sign) → (c ≡ less) ⊎ ((c ≡ same) ⊎ (c ≡ greater))
Sign-cases less = inl refl
Sign-cases same = inr (inl refl)
Sign-cases greater = inr (inr refl)

pub strcmp_eq : (xs ys : List ℕ) → strcmp xs ys ≡ same → xs ≡ ys
unfolding strcmp
strcmp_eq [] [] e = refl
strcmp_eq [] (y ∷ ys) e = absurd cc
strcmp_eq (x ∷ xs) [] e = absurd cc
strcmp_eq (x ∷ xs) (y ∷ ys) e = elim (Bool-cases (x == y)) [
  | inl it ↦
      let heads : x ≡ y = ground (arith, it) in
      ap₂ (λ a l. a ∷ l) heads (strcmp_eq xs ys (rw (strcmp, it) at e))
  | inr other ↦ elim (Bool-cases (ltb x y)) [
    | inl lower ↦ absurd (let e' : less ≡ same = rw (strcmp, other, lower) at e in cc)
    | inr upper ↦ absurd (let e' : greater ≡ same = rw (strcmp, other, upper) at e in cc)
  ]
]

pub strcmp_refl : (xs : List ℕ) → strcmp xs xs ≡ same
unfolding strcmp
strcmp_refl [] = refl
strcmp_refl (x ∷ xs) = let it : (x == x) ≡ true = ground arith in rw it (strcmp_refl xs)

flip : Sign → Sign
flip less = greater
flip same = same
flip greater = less

strcmp-flip : (xs ys : List ℕ) → strcmp ys xs ≡ flip (strcmp xs ys)
unfolding strcmp flip
strcmp-flip [] [] = refl
strcmp-flip [] (y ∷ ys) = refl
strcmp-flip (x ∷ xs) [] = refl
strcmp-flip (x ∷ xs) (y ∷ ys) = ground (arith, strcmp-flip xs ys)

pub strcmp_trans :
    (xs ys zs : List ℕ) → strcmp xs ys ≡ less → strcmp ys zs ≡ less → strcmp xs zs ≡ less
unfolding strcmp
strcmp_trans [] [] zs e f = absurd cc
strcmp_trans [] (y ∷ ys) [] e f = absurd cc
strcmp_trans [] (y ∷ ys) (z ∷ zs) e f = refl
strcmp_trans (x ∷ xs) [] zs e f = absurd cc
strcmp_trans (x ∷ xs) (y ∷ ys) [] e f = absurd cc
strcmp_trans (x ∷ xs) (y ∷ ys) (z ∷ zs) e f = ground (arith, strcmp_trans xs ys zs)

pub strcmp-less_of_greater : (xs ys : List ℕ) → strcmp xs ys ≡ greater → strcmp ys xs ≡ less
unfolding flip
strcmp-less_of_greater xs ys e = strcmp-flip xs ys ∙ ap flip e

pub strcmp-greater_of_less : (xs ys : List ℕ) → strcmp xs ys ≡ less → strcmp ys xs ≡ greater
unfolding flip
strcmp-greater_of_less xs ys e = strcmp-flip xs ys ∙ ap flip e

abbrev pub entry : List HandleName → ℕ → List ℕ
entry names i = (get_or names i no_name).name

-- The names ascend strictly.
abbrev pub IsSorted : List HandleName → Type 0
IsSorted names =
    (i j : ℕ) → i < j → j < length names → strcmp (entry names i) (entry names j) ≡ less

-- what the search has to find
abbrev pub IsResult : List ℕ → List HandleName → Search → Type 0
IsResult name names (found n) =
    (m : ℕ) × (m < length names) × (get_or names m no_name ≡ n) × (n.name ≡ name)
IsResult name names (missing p) =
    (p ≤ length names)
    × ((i : ℕ) → i < p → strcmp (entry names i) name ≡ less)
    × ((i : ℕ) → p ≤ i → i < length names → strcmp (entry names i) name ≡ greater)

search_loop-IsResult :
    (fuel : ℕ) (name : List ℕ) (names : List HandleName) (begin stop : ℕ)
    → IsSorted names
    → begin ≤ stop
    → stop ≤ length names
    → stop - begin < fuel
    → ((i : ℕ) → i < begin → strcmp (entry names i) name ≡ less)
    → ((i : ℕ) → stop ≤ i → i < length names → strcmp (entry names i) name ≡ greater)
    → IsResult name names (search_loop fuel name names begin stop)
unfolding search_loop
search_loop-IsResult zero name names begin stop sorted order fits enough below above =
    absurd (omega arith)
search_loop-IsResult (suc fuel) name names begin stop sorted order fits enough below above =
    elim (Bool-cases (ltb begin stop)) [
      | inr ended ↦
          rw (search_loop, ended)
            (omega arith, below, λ i h. above i (ground (arith, ended, h, order)))
      | inl more ↦
          let inside : middle < stop = ground (arith, more) in
          elim (Sign-cases (strcmp (entry names middle) name)) [
            | inl lower ↦
                rw (search_loop, more, lower)
                  (search_loop-IsResult fuel name names (middle + 1) stop sorted (omega arith) fits
                    (ground (arith, more)) (up_to inside lower) above)
            | inr (inl it) ↦
                rw (search_loop, more, it)
                  (middle, omega arith, refl, strcmp_eq (entry names middle) name it)
            | inr (inr upper) ↦
                rw (search_loop, more, upper)
                  (search_loop-IsResult fuel name names begin middle sorted (ground (arith, more))
                    (omega arith) (ground (arith, more)) below (from_middle inside upper))
          ]
    ]
  where
    middle : ℕ
    middle = (begin + (stop - 1)) / 2

    up_to :
        middle < stop
        → strcmp (entry names middle) name ≡ less
        → (i : ℕ) → i < middle + 1
        → strcmp (entry names i) name ≡ less
    up_to inside lower i h = elim (Bool-cases (i == middle)) [
      | inl at ↦ let here : i ≡ middle = ground (arith, at) in rw here lower
      | inr before ↦
          strcmp_trans (entry names i) (entry names middle) name
            (sorted i middle (ground (arith, before, h)) (omega arith)) lower
    ]

    from_middle :
        middle < stop
        → strcmp (entry names middle) name ≡ greater
        → (i : ℕ) → middle ≤ i
        → i < length names
        → strcmp (entry names i) name ≡ greater
    from_middle inside upper i h k = elim (Bool-cases (i == middle)) [
      | inl at ↦ let here : i ≡ middle = ground (arith, at) in rw here upper
      | inr after ↦ strcmp-greater_of_less name (entry names i) (
          strcmp_trans name (entry names middle) (entry names i)
            (strcmp-less_of_greater (entry names middle) name upper)
            (sorted middle i (ground (arith, after, h)) k))
    ]

-- the search in the whole table, with the fuel that the operations give it
pub search-IsResult :
    (name : List ℕ) (names : List HandleName)
    → IsSorted names
    → IsResult name names (search_loop (length names + 1) name names 0 (length names))
search-IsResult name names sorted =
    search_loop-IsResult (length names + 1) name names 0 (length names) sorted (omega arith)
      (omega arith) (omega arith) (λ i h. absurd (omega arith)) (λ i h k. absurd (omega arith))
