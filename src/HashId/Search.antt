-- ===== src/HashId/Search.antt =====
-- `hashid_lookup` finds the node of an identifier, whatever else hangs at its place.
use jsmj_server.Base.{
  ℕ, zero, suc, ◌≤◌, ◌<◌, ◌≡◌, ◌≢◌, ◌↔◌, ◌⊎◌, refl, ap, sym, ◌∙◌, true, false, Option, none, some,
  some_inj, Bool-cases, inl, inr, List, [], ◌∷◌, ◌==◌, arith, length, listings,
}
use jsmj_server.HashId.{HashId, bucket, is_id, lookup_loop, hashid_lookup}
use jsmj_server.HashId.Chain.{Chain}
use jsmj_server.HashId.Table.{IsValid, length-chains}

pub is_id-eq : (o : Option ℕ) (x : ℕ) → is_id o x ≡ true → o ≡ some x
is_id-eq none x e = absurd cc
is_id-eq (some y) x e = let same : y ≡ x = ground (arith, e) in ap (λ k. some k) same

pub is_id-ne : (o : Option ℕ) (x : ℕ) → is_id o x ≡ false → o ≢ some x
is_id-ne none x e = λ q. cc
is_id-ne (some y) x e = λ q. let same : y ≡ x = some_inj q in ground (arith, e, same)

-- The loop returns a node with the identifier, or there is none on the list.
lookup_loop-result :
    (rounds : ℕ) (c : Option ℕ) (x : ℕ) (hi : HashId) (xs : List ℕ)
    → Chain hi.next c xs
    → length xs ≤ rounds
    → ((i : ℕ) × (lookup_loop rounds c x hi ≡ some i) × (hi.id i ≡ some x))
      ⊎ ((lookup_loop rounds c x hi ≡ none) × ((i : ℕ) → 0 < listings i xs → hi.id i ≢ some x))
unfolding lookup_loop
lookup_loop-result zero c x hi [] chain h = inr (refl, λ i k. absurd (omega (arith, k)))
lookup_loop-result zero c x hi (y ∷ xs) chain h = absurd (omega arith)
lookup_loop-result (suc rounds) c x hi [] chain h =
    inr (rw (chain, lookup_loop) refl, λ i k. absurd (omega (arith, k)))
lookup_loop-result (suc rounds) c x hi (y ∷ xs) chain h = elim (Bool-cases (is_id (hi.id y) x)) [
  | inl it ↦ inl (y, rw (chain.0, lookup_loop, it) refl, is_id-eq (hi.id y) x it)
  | inr other ↦ elim (lookup_loop-result rounds (hi.next y) x hi xs chain.1 (omega arith)) [
    | inl (i, run, its) ↦ inl (i, rw (chain.0, lookup_loop, other) run, its)
    | inr (run, absent) ↦ inr (
      rw (chain.0, lookup_loop, other) run,
      λ i k. elim (Bool-cases (y == i)) [
        | inl here ↦
            let same : y ≡ i = ground (arith, here) in rw (← same) (is_id-ne (hi.id y) x other)
        | inr later ↦ absent i (ground (arith, k, later))
      ],
    )
  ]
]

-- `hashid_lookup` returns a node exactly when the node has the identifier.
pub hashid_lookup_iff :
    {hi : HashId} (x i : ℕ) → IsValid hi → (hashid_lookup x hi ≡ some i) ↔ (hi.id i ≡ some x)
unfolding hashid_lookup
hashid_lookup_iff {hi} x i v =
    elim (lookup_loop-result hi.cap (hi.hash (bucket x hi)) x hi (v.chains (bucket x hi))
      (v.linked (bucket x hi)) (length-chains v (bucket x hi))) [
        | inl (j, run, its) ↦ (
          λ e. let same : j ≡ i = some_inj (sym run ∙ e) in rw (← same) its,
          λ e. run ∙ ap (λ k. some k) (v.unique j i x its e),
        )
        | inr (run, absent) ↦ (
          λ e. absurd (let q : none ≡ some i = sym run ∙ e in cc),
          λ e. absurd (absent i (omega (arith, v.held i x e)) e),
        )
      ]
