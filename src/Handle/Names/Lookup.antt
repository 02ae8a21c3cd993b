-- ===== src/Handle/Names/Lookup.antt =====
-- The table of names as a map from names to handles.
use jsmj_server.Base.{
  ℕ, zero, suc, ◌+◌, ◌<◌, ◌≡◌, ◌≢◌, inl, inr, refl, ap, sym, ◌∙◌, Option, none, some, List, [], ◌∷◌,
  ltb, length, get_or, Bool-cases, arith,
}
use jsmj_server.Handle.{HandleName, HandleStorage}
use jsmj_server.Handle.Names.{
  less, same, greater, strcmp, no_name, Search, found, missing, search_loop, findname,
}
use jsmj_server.Handle.Names.Find.{
  Sign-cases, strcmp_refl, entry, IsSorted, IsResult, search-IsResult,
}

-- the first entry of that name
unfoldable pub lookup : List ℕ → List HandleName → Option ℕ
lookup name [] = none
lookup name (n ∷ ns) = elim (strcmp n.name name) [
  | less ↦ lookup name ns
  | same ↦ some n.handle
  | greater ↦ lookup name ns
]

abbrev pub or_zero : Option ℕ → ℕ
or_zero none = 0
or_zero (some h) = h

pub skip :
    (name : List ℕ) (n : HandleName) (ns : List HandleName)
    → strcmp n.name name ≢ same
    → lookup name (n ∷ ns) ≡ lookup name ns
unfolding lookup
skip name n ns other = elim (Sign-cases (strcmp n.name name)) [
  | inl lower ↦ rw (lookup, lower) refl
  | inr (inl it) ↦ absurd (other it)
  | inr (inr upper) ↦ rw (lookup, upper) refl
]

lookup-none :
    (name : List ℕ) (ns : List HandleName)
    → ((i : ℕ) → i < length ns → strcmp (entry ns i) name ≢ same)
    → lookup name ns ≡ none
unfolding lookup
lookup-none name [] others = refl
lookup-none name (n ∷ ns) others =
    skip name n ns (others 0 (omega arith))
    ∙ lookup-none name ns (λ i h. others (suc i) (omega arith))

lookup-some :
    (name : List ℕ) (ns : List HandleName) (m : ℕ)
    → m < length ns
    → ((i : ℕ) → i < m → strcmp (entry ns i) name ≢ same)
    → strcmp (entry ns m) name ≡ same
    → lookup name ns ≡ some (get_or ns m no_name).handle
unfolding lookup
lookup-some name [] m h others it = absurd (omega arith)
lookup-some name (n ∷ ns) zero h others it = rw (lookup, it) refl
lookup-some name (n ∷ ns) (suc m) h others it =
    skip name n ns (others 0 (omega arith))
    ∙ lookup-some name ns m (omega arith) (λ i k. others (suc i) (omega arith)) it

-- what the result of the search says of the map
abbrev pub Says : List ℕ → List HandleName → Search → Type 0
Says name names (found n) = lookup name names ≡ some n.handle
Says name names (missing p) = lookup name names ≡ none

pub lookup-found :
    (name : List ℕ) (names : List HandleName)
    → IsSorted names
    → (r : Search) → IsResult name names r
    → Says name names r
lookup-found name names sorted (found n) (m, inside, here, its) =
    lookup-some name names m inside
      (λ i h e.
        less_ne_same (
          sym (sorted i m h inside)
          ∙ ap (strcmp (entry names i)) (ap (λ x. x.name) here ∙ its)
          ∙ e))
      (ap (λ x. strcmp x.name name) here ∙ ap (λ x. strcmp x name) its ∙ strcmp_refl name)
    ∙ ap (λ x. some x.handle) here
  where
    less_ne_same : less ≢ same
    less_ne_same e = absurd cc
lookup-found name names sorted (missing p) (fits, below, above) = lookup-none name names (λ i h.
    elim (Bool-cases (ltb i p)) [
      | inl before ↦ λ e. differ (sym (below i (ground (arith, before))) ∙ e)
      | inr after ↦ λ e. differ' (sym (above i (ground (arith, after)) h) ∙ e)
    ])
  where
    differ : less ≢ same
    differ e = absurd cc

    differ' : greater ≢ same
    differ' e = absurd cc

-- `skynet_handle_findname` in a sorted table returns the handle of the name, or 0.
pub findname_lem :
    (name : List ℕ) (s : HandleStorage)
    → IsSorted s.name
    → findname name s ≡ or_zero (lookup name s.name)
unfolding findname
findname_lem name s sorted =
    by_result (search_loop (length s.name + 1) name s.name 0 (length s.name))
      (search-IsResult name s.name sorted)
  where
    by_result :
        (r : Search)
        → IsResult name s.name r
        → elim r as (λ _. ℕ) [ found n ↦ n.handle | missing place ↦ 0 ]
          ≡ or_zero (lookup name s.name)
    by_result (found n) d = sym (ap or_zero (lookup-found name s.name sorted (found n) d))
    by_result (missing p) d = sym (ap or_zero (lookup-found name s.name sorted (missing p) d))
