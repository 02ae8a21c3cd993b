-- ===== src/HashId/Insert.antt =====
-- A new identifier gets a free node.
use native.Mathlib.Nat.{mod-lt}
use native.Mathlib.Decide.{ℕ_discrete}
use jsmj_server.Base.{
  ℕ, zero, suc, ◌+◌, ◌-◌, ◌%◌, ◌^◌, ◌≤◌, leb, false, ◌<◌, ◌≡◌, ◌≢◌, ◌↔◌, ◌⊎◌, refl, ap, sym, ◌∙◌,
  subst, none, some, some_inj, Option-cases, Bool-cases, inl, inr, ◌∷◌, ◌==◌, arith, update,
  update_self, update_ne, update_cases, listings, listings_self, remainder_reached,
}
use jsmj_server.HashId.{HashId, bucket, free_node, hashid_insert, hashid_lookup}
use jsmj_server.HashId.Chain.{Chain, Chain-update}
use jsmj_server.HashId.Table.{IsValid, used-update, free_of_used, one_used, free_elsewhere}
use jsmj_server.HashId.Search.{hashid_lookup_iff}

pub none_ne_some : {x : ℕ} → none ≢ some x
none_ne_some e = absurd cc

free_node-result :
    (n i x : ℕ) (hi : HashId)
    → n + (i + x) ≤ 2 ^ 31
    → ((c : ℕ) × (free_node n i x hi ≡ some c) × (hi.id c ≡ none) × ((k : ℕ) × (c ≡ k % hi.cap)))
      ⊎ ((m : ℕ) → m < n → hi.id ((i + m + x) % hi.cap) ≢ none)
unfolding free_node
free_node-result zero i x hi fits = inr (λ m h. absurd (omega arith))
free_node-result (suc n) i x hi fits =
    let held : leb (2 ^ 31) (i + x) ≡ false = ground arith in
    elim (Option-cases (hi.id ((i + x) % hi.cap))) [
      | inl free ↦ inl ((i + x) % hi.cap, rw (free_node, held, free) refl, free, (i + x, refl))
      | inr (y, taken) ↦ elim (free_node-result n (i + 1) x hi (omega arith)) [
        | inl (c, run, free, at) ↦ inl (c, rw (free_node, held, taken) run, free, at)
        | inr full ↦ inr (λ m h. elim (Bool-cases (m == 0)) [
          | inl first ↦
              let here : i + m + x ≡ i + x = ground (arith, first) in
              λ free. none_ne_some (sym free ∙ ap (λ k. hi.id (k % hi.cap)) here ∙ taken)
          | inr later ↦
              let there : i + 1 + (m - 1) + x ≡ i + m + x = ground (arith, later) in
              λ free.
                full (m - 1) (ground (arith, h, later)) (ap (λ k. hi.id (k % hi.cap)) there ∙ free)
        ])
      ]
    ]

-- The scan finds a free node where there is one.
free_node-some :
    (x : ℕ) {hi : HashId}
    → IsValid hi
    → hi.count < hi.cap
    → x + hi.cap ≤ 2 ^ 31
    → (c : ℕ) × (free_node hi.cap 0 x hi ≡ some c) × (hi.id c ≡ none) × (c < hi.cap)
free_node-some x {hi} v room fits = elim (free_node-result hi.cap 0 x hi (omega (arith, fits))) [
  | inl (c, run, free, (k, at)) ↦
      let small : k % hi.cap < hi.cap = mod-lt k (omega arith) in
      (c, run, free, subst (λ i. i < hi.cap) (sym at) small)
  | inr full ↦
      let (j, below, free) = free_of_used hi.id hi.cap (omega (arith, v.counted)) in
      let (m, few, here) = remainder_reached hi.cap x j below in
      let start : 0 + m + x ≡ m + x = omega arith in
      absurd (full m few (ap (λ k. hi.id (k % hi.cap)) start ∙ ap hi.id here ∙ free))
]

-- the table with the identifier in node `c`
abbrev inserted : ℕ → ℕ → HashId → HashId
inserted x c hi = record hi {
  count = hi.count + 1;
  id = update hi.id c (some x);
  next = update hi.next c (hi.hash (bucket x hi));
  hash = update hi.hash (bucket x hi) (some c);
}

module _ {hi : HashId} (v : IsValid hi) (x c : ℕ) (absent : (i : ℕ) → hi.id i ≢ some x)
    (free : hi.id c ≡ none) (below : c < hi.cap) where
  inserted-linked :
      (b : ℕ)
      → Chain
          (inserted x c hi).next
          ((inserted x c hi).hash b)
          (update v.chains (bucket x hi) (c ∷ v.chains (bucket x hi)) b)
  inserted-linked b = elim (update_cases hi.hash (bucket x hi) (some c) b) [
    | inl (here, new) ↦
        let chain : update v.chains (bucket x hi) (c ∷ v.chains (bucket x hi)) b
            ≡ c ∷ v.chains (bucket x hi) =
          ground (arith, here) in
        rw (new, chain)
          (
            refl,
            rw (update_self hi.next c (hi.hash (bucket x hi))) (
                Chain-update hi.next (hi.hash (bucket x hi)) (v.chains (bucket x hi)) c
                  (hi.hash (bucket x hi)) (free_elsewhere v (bucket x hi) c free)
                  (v.linked (bucket x hi))),
          )
    | inr (off, old) ↦
        rw (old, update_ne v.chains (c ∷ v.chains (bucket x hi)) off)
          (Chain-update hi.next (hi.hash b) (v.chains b) c (hi.hash (bucket x hi))
            (free_elsewhere v b c free) (v.linked b))
  ]

  -- the entries of the table afterwards
  inserted-id :
      (i y : ℕ)
      → update hi.id c (some x) i ≡ some y
      → ((c ≡ i) × (x ≡ y)) ⊎ ((c ≢ i) × (hi.id i ≡ some y))
  inserted-id i y e = elim (update_cases hi.id c (some x) i) [
    | inl (here, new) ↦ inl (here, some_inj (sym new ∙ e))
    | inr (off, old) ↦ inr (off, sym old ∙ e)
  ]

  inserted-placed :
      (b i : ℕ)
      → 0 < listings i (update v.chains (bucket x hi) (c ∷ v.chains (bucket x hi)) b)
      → (y : ℕ) × (update hi.id c (some x) i ≡ some y) × (bucket y hi ≡ b)
  inserted-placed b i h = elim (ℕ_discrete c i) [
    | yes here ↦ elim (update_cases v.chains (bucket x hi) (c ∷ v.chains (bucket x hi)) b) [
      | inl (at, _) ↦ (x, ground (arith, here), at)
      | inr (_, old) ↦ absurd (
          omega (
            arith,
            h,
            ap (listings i) old,
            free_elsewhere v b c free,
            ap (λ k. listings k (v.chains b)) here,
          ))
    ]
    | no off ↦
        let there : 0 < listings i (v.chains b) =
          elim (update_cases v.chains (bucket x hi) (c ∷ v.chains (bucket x hi)) b) [
            | inl (at, new) ↦
                let fewer : listings i (c ∷ v.chains (bucket x hi))
                    ≡ listings i (v.chains (bucket x hi)) =
                  ground (arith, off) in
                omega (arith, h, ap (listings i) new, fewer, ap (λ k. listings i (v.chains k)) at)
            | inr (_, old) ↦ omega (arith, h, ap (listings i) old)
          ] in
        let (y, its, at) = v.placed b i there in (y, update_ne hi.id (some x) off ∙ its, at)
  ]

  inserted-held :
      (i y : ℕ)
      → update hi.id c (some x) i ≡ some y
      → listings i (update v.chains (bucket x hi) (c ∷ v.chains (bucket x hi)) (bucket y hi)) ≡ 1
  inserted-held i y e = elim (inserted-id i y e) [
    | inl (here, same) ↦
        let new : update v.chains (bucket x hi) (c ∷ v.chains (bucket x hi)) (bucket y hi)
            ≡ c ∷ v.chains (bucket x hi) =
          ap (λ k. update v.chains (bucket x hi) (c ∷ v.chains (bucket x hi)) (bucket k hi))
            (sym same)
          ∙ update_self v.chains (bucket x hi) (c ∷ v.chains (bucket x hi)) in
        let one : listings c (c ∷ v.chains (bucket x hi)) ≡ 1 = omega (
          arith,
          listings_self c (v.chains (bucket x hi)),
          free_elsewhere v (bucket x hi) c free,
        ) in
        ap (listings i) new ∙ ap (λ k. listings k (c ∷ v.chains (bucket x hi))) (sym here) ∙ one
    | inr (off, old) ↦
        elim (update_cases v.chains (bucket x hi) (c ∷ v.chains (bucket x hi)) (bucket y hi)) [
          | inl (at, new) ↦
              let fewer : listings i (c ∷ v.chains (bucket x hi))
                  ≡ listings i (v.chains (bucket x hi)) =
                ground (arith, off) in
              rw new (fewer ∙ ap (λ k. listings i (v.chains k)) at ∙ v.held i y old)
          | inr (_, same) ↦ rw same (v.held i y old)
        ]
  ]

  inserted_unique :
      (i j y : ℕ) → update hi.id c (some x) i ≡ some y → update hi.id c (some x) j ≡ some y → i ≡ j
  inserted_unique i j y e f = elim (inserted-id i y e) [
    | inl (here, same) ↦ elim (inserted-id j y f) [
      | inl (there, _) ↦ sym here ∙ there
      | inr (_, old) ↦ absurd (absent j (old ∙ ap (λ k. some k) (sym same)))
    ]
    | inr (_, old) ↦ elim (inserted-id j y f) [
      | inl (there, same) ↦ absurd (absent i (old ∙ ap (λ k. some k) (sym same)))
      | inr (_, old') ↦ v.unique i j y old old'
    ]
  ]

  inserted-IsValid : IsValid (inserted x c hi)
  inserted-IsValid = record {
    chains = update v.chains (bucket x hi) (c ∷ v.chains (bucket x hi));
    linked = inserted-linked;
    placed = inserted-placed;
    held = inserted-held;
    within = λ i y e. elim (inserted-id i y e) [
      | inl (here, _) ↦ omega (arith, here)
      | inr (_, old) ↦ v.within i y old
    ];
    unique = inserted_unique;
    loose = λ i e. elim (update_cases hi.id c (some x) i) [
      | inl (_, new) ↦ absurd (none_ne_some (sym e ∙ new))
      | inr (off, old) ↦ update_ne hi.next (hi.hash (bucket x hi)) off ∙ v.loose i (sym old ∙ e)
    ];
    counted = omega (arith, v.counted, used-update hi.id hi.cap c (some x) below, ap one_used free);
  }

-- A table that has the same nodes for an identifier finds the same.
pub hashid_lookup-congr :
    {hi hi' : HashId} (y : ℕ)
    → IsValid hi
    → IsValid hi'
    → ((i : ℕ) → (hi'.id i ≡ some y) ↔ (hi.id i ≡ some y))
    → hashid_lookup y hi' ≡ hashid_lookup y hi
hashid_lookup-congr {hi} {hi'} y v v' same = elim (Option-cases (hashid_lookup y hi)) [
  | inr (i, found) ↦
      (hashid_lookup_iff y i v').1 ((same i).1 ((hashid_lookup_iff y i v).0 found)) ∙ sym found
  | inl missing ↦ elim (Option-cases (hashid_lookup y hi')) [
    | inl missing' ↦ missing' ∙ sym missing
    | inr (i, found) ↦ absurd (
        none_ne_some (
          sym missing
          ∙ (hashid_lookup_iff y i v).1 ((same i).0 ((hashid_lookup_iff y i v').0 found))))
  ]
]

-- `hashid_insert` of a new identifier in a table that is not full, where `id + cap` is at most 2^31, succeeds: it takes a node that no identifier
-- had and counts it. The new identifier finds the node, and every other finds what it found before.
pub hashid_insert_lem :
    {hi : HashId} (x : ℕ)
    → IsValid hi
    → hashid_lookup x hi ≡ none
    → hi.count < hi.cap
    → x + hi.cap ≤ 2 ^ 31
    → (r : ℕ × HashId) × (hashid_insert x hi ≡ some r)
      × IsValid r.1
      × (r.0 < hi.cap)
      × (r.1.count ≡ hi.count + 1)
      × (hashid_lookup x r.1 ≡ some r.0)
      × ((y : ℕ) → hashid_lookup y hi ≢ some r.0)
      × ((y : ℕ) → y ≢ x → hashid_lookup y r.1 ≡ hashid_lookup y hi)
unfolding hashid_insert
hashid_insert_lem {hi} x v missing room fits =
    let (c, run, free, below) = free_node-some x v room fits in
    let v' = inserted-IsValid v x c absent free below in
    (
      (c, inserted x c hi),
      rw (hashid_insert, run, v.loose c free) refl,
      v',
      below,
      refl,
      (hashid_lookup_iff x c v').1 (update_self hi.id c (some x)),
      λ y found. none_ne_some (sym free ∙ (hashid_lookup_iff y c v).0 found),
      λ y differ. hashid_lookup-congr y v v' (others c free y differ),
    )
  where
    absent : (i : ℕ) → hi.id i ≢ some x
    absent i e = none_ne_some (sym missing ∙ (hashid_lookup_iff x i v).1 e)

    others :
        (c : ℕ)
        → hi.id c ≡ none
        → (y : ℕ) → y ≢ x
        → (i : ℕ) → (update hi.id c (some x) i ≡ some y) ↔ (hi.id i ≡ some y)
    others c free y differ i = elim (update_cases hi.id c (some x) i) [
      | inl (here, new) ↦ (
        λ e. absurd (differ (some_inj (sym e ∙ new))),
        λ e. absurd (none_ne_some (sym free ∙ ap hi.id here ∙ e)),
      )
      | inr (_, old) ↦ (λ e. sym old ∙ e, λ e. old ∙ e)
    ]
