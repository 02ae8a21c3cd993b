-- ===== src/HashId/Remove.antt =====
-- A removed identifier gives its node back.
use native.Mathlib.Decide.{ℕ_discrete}
use jsmj_server.Base.{
  ℕ, zero, suc, ◌+◌, ◌-◌, ◌≤◌, ◌<◌, ◌≡◌, ◌≢◌, ◌⊎◌, refl, ap, sym, ◌∙◌, subst, Option, none, some,
  some_inj, Option-cases, Bool-cases, inl, inr, List, [], ◌∷◌, ◌++◌, ◌==◌, arith, length, update,
  update_ne, update_cases, listings, listings_self, listings-append,
}
use jsmj_server.HashId.{
  HashId, bucket, is_id, before_loop, clear_node, hashid_remove, hashid_lookup,
}
use jsmj_server.HashId.Chain.{Chain, Chain-update, Chain-skip, IsOnce, IsOnce-tail}
use jsmj_server.HashId.Table.{
  IsValid, used-update, one_used, elsewhere, chains-IsOnce, length-chains,
}
use jsmj_server.HashId.Search.{is_id-eq, is_id-ne, hashid_lookup_iff}
use jsmj_server.HashId.Insert.{none_ne_some, hashid_lookup-congr}

-- The loop returns the node of the identifier with the one before it, or there is none behind `c`.
before_loop-result :
    (rounds c x : ℕ) (hi : HashId) (rest : List ℕ)
    → Chain hi.next (hi.next c) rest
    → length rest ≤ rounds
    → ((p : ℕ) × (t : ℕ) × (front : List ℕ) × (back : List ℕ) × (before_loop rounds c x hi
          ≡ some (p, t))
        × (c ∷ rest ≡ front ++ (p ∷ t ∷ back))
        × (hi.id t ≡ some x))
      ⊎ ((before_loop rounds c x hi ≡ none) × ((i : ℕ) → 0 < listings i rest → hi.id i ≢ some x))
unfolding before_loop
before_loop-result zero c x hi [] chain h = inr (refl, λ i k. absurd (omega (arith, k)))
before_loop-result zero c x hi (y ∷ rest) chain h = absurd (omega arith)
before_loop-result (suc rounds) c x hi [] chain h =
    inr (rw (before_loop, chain) refl, λ i k. absurd (omega (arith, k)))
before_loop-result (suc rounds) c x hi (y ∷ rest) chain h = elim (Bool-cases (is_id (hi.id y) x)) [
  | inl it ↦ inl (c, y, [], rest, rw (before_loop, chain.0, it) refl, refl, is_id-eq (hi.id y) x it)
  | inr other ↦ elim (before_loop-result rounds y x hi rest chain.1 (omega arith)) [
    | inl (p, t, front, back, run, split, its) ↦
        inl
          (p, t, c ∷ front, back, rw (before_loop, chain.0, other) run, ap (λ l. c ∷ l) split, its)
    | inr (run, absent) ↦ inr (
      rw (before_loop, chain.0, other) run,
      λ i k. elim (Bool-cases (y == i)) [
        | inl here ↦
            let same : y ≡ i = ground (arith, here) in rw (← same) (is_id-ne (hi.id y) x other)
        | inr later ↦ absent i (ground (arith, k, later))
      ],
    )
  ]
]

-- What is common to the removal of the first node of a list and of another.
record Unlinked {hi : HashId} (v : IsValid hi) (t : ℕ) (next : ℕ → Option ℕ) (hash : ℕ → Option ℕ)
    : Type 0 where
  chains : ℕ → List ℕ
  linked : (b : ℕ) → Chain (update next t none) (hash b) (chains b)
  gone : (b : ℕ) → listings t (chains b) ≡ 0
  others : (b i : ℕ) → i ≢ t → listings i (chains b) ≡ listings i (v.chains b)
  loose : (i : ℕ) → hi.id i ≡ none → next i ≡ none

abbrev without : HashId → ℕ → (ℕ → Option ℕ) → (ℕ → Option ℕ) → HashId
without hi t next hash = record hi {
  id = update hi.id t none;
  next = update next t none;
  hash = hash;
  count = hi.count - 1;
}

module _ {hi : HashId} (v : IsValid hi) (x t : ℕ) (its : hi.id t ≡ some x)
    {next hash : ℕ → Option ℕ} (u : Unlinked v t next hash) where
  without-id : (i y : ℕ) → update hi.id t none i ≡ some y → (t ≢ i) × (hi.id i ≡ some y)
  without-id i y e = elim (update_cases hi.id t none i) [
    | inl (_, new) ↦ absurd (none_ne_some (sym new ∙ e))
    | inr (off, old) ↦ (off, sym old ∙ e)
  ]

  without-placed :
      (b i : ℕ)
      → 0 < listings i (u.chains b)
      → (y : ℕ) × (update hi.id t none i ≡ some y) × (bucket y hi ≡ b)
  without-placed b i h =
      let off : t ≢ i =
        λ e. absurd (omega (arith, h, u.gone b, ap (λ k. listings k (u.chains b)) e)) in
      let (y, has, at) = v.placed b i (omega (arith, h, u.others b i (λ e. off (sym e)))) in
      (y, update_ne hi.id none off ∙ has, at)

  without-IsValid : IsValid (without hi t next hash)
  without-IsValid = record {
    chains = u.chains;
    linked = u.linked;
    placed = without-placed;
    held = λ i y e.
        let (off, old) = without-id i y e in
        u.others (bucket y hi) i (λ q. off (sym q)) ∙ v.held i y old;
    within = λ i y e. v.within i y (without-id i y e).1;
    unique = λ i j y e f. v.unique i j y (without-id i y e).1 (without-id j y f).1;
    loose = λ i e. elim (update_cases next t none i) [
      | inl (_, new) ↦ new
      | inr (off, old) ↦ old ∙ u.loose i (sym (update_ne hi.id none off) ∙ e)
    ];
    counted =
        omega
          (arith, v.counted, used-update hi.id hi.cap t none (v.within t x its), ap one_used its);
  }

  without-missing : hashid_lookup x (without hi t next hash) ≡ none
  without-missing = elim (Option-cases (hashid_lookup x (without hi t next hash))) [
    | inl missing ↦ missing
    | inr (i, found) ↦
        let (off, old) = without-id i x ((hashid_lookup_iff x i without-IsValid).0 found) in
        absurd (off (v.unique t i x its old))
  ]

  without-others : (y : ℕ) → y ≢ x → hashid_lookup y (without hi t next hash) ≡ hashid_lookup y hi
  without-others y differ = hashid_lookup-congr y v without-IsValid (λ i. (
    λ e. (without-id i y e).1,
    λ e. elim (update_cases hi.id t none i) [
      | inl (here, _) ↦ absurd (differ (some_inj (sym e ∙ ap hi.id (sym here) ∙ its)))
      | inr (_, old) ↦ old ∙ e
    ],
  ))

module _ {hi : HashId} (v : IsValid hi) (x t : ℕ) (its : hi.id t ≡ some x) where
  -- The chains with a shorter one at the place of `x`.
  shortened-gone :
      (left : List ℕ)
      → listings t left ≡ 0
      → (b : ℕ) → listings t (update v.chains (bucket x hi) left b) ≡ 0
  shortened-gone left none_left b = elim (update_cases v.chains (bucket x hi) left b) [
    | inl (_, new) ↦ ap (listings t) new ∙ none_left
    | inr (off, old) ↦ ap (listings t) old ∙ elsewhere v b t x its off
  ]

  shortened-others :
      (left : List ℕ)
      → ((i : ℕ) → i ≢ t → listings i left ≡ listings i (v.chains (bucket x hi)))
      → (b i : ℕ) → i ≢ t
      → listings i (update v.chains (bucket x hi) left b) ≡ listings i (v.chains b)
  shortened-others left same b i differ = elim (update_cases v.chains (bucket x hi) left b) [
    | inl (at, new) ↦ ap (listings i) new ∙ same i differ ∙ ap (λ k. listings i (v.chains k)) at
    | inr (_, old) ↦ ap (listings i) old
  ]

  Chain-here :
      (xs : List ℕ)
      → v.chains (bucket x hi) ≡ xs
      → Chain hi.next (hi.hash (bucket x hi)) xs × IsOnce xs
  Chain-here xs e = (
    subst (λ l. Chain hi.next (hi.hash (bucket x hi)) l) e (v.linked (bucket x hi)),
    subst (λ l. IsOnce l) e (chains-IsOnce v (bucket x hi)),
  )

  -- the first node of the list
  Unlinked-head :
      (rest : List ℕ)
      → v.chains (bucket x hi) ≡ t ∷ rest
      → Unlinked v t hi.next (update hi.hash (bucket x hi) (hi.next t))
  Unlinked-head rest e =
      let (chain, once) = Chain-here (t ∷ rest) e in
      let (_, off) = IsOnce-tail t rest once in
      record {
        chains = update v.chains (bucket x hi) rest;
        linked = λ b. elim (update_cases v.chains (bucket x hi) rest b) [
          | inl (at, new) ↦
              let first : update hi.hash (bucket x hi) (hi.next t) b ≡ hi.next t =
                ground (arith, at) in
              rw (new, first) (Chain-update hi.next (hi.next t) rest t none off chain.1)
          | inr (away, old) ↦
              rw (old, update_ne hi.hash (hi.next t) away)
                (Chain-update hi.next (hi.hash b) (v.chains b) t none (elsewhere v b t x its away)
                  (v.linked b))
        ];
        gone = shortened-gone rest off;
        others = shortened-others rest (λ i differ. ground (arith, ap (listings i) e, differ));
        loose = v.loose;
      }

  -- a node behind another
  Unlinked-skip :
      (front back : List ℕ) (p : ℕ)
      → v.chains (bucket x hi) ≡ front ++ (p ∷ t ∷ back)
      → Unlinked v t (update hi.next p (hi.next t)) hi.hash
  Unlinked-skip front back p e =
      let (chain, once) = Chain-here (front ++ (p ∷ t ∷ back)) e in
      let on_list : 0 < listings p (v.chains (bucket x hi)) = omega (
        arith,
        ap (listings p) e,
        listings-append p front (p ∷ t ∷ back),
        listings_self p (t ∷ back),
      ) in
      let (z, used_p, at_p) = v.placed (bucket x hi) p on_list in
      let off : (b : ℕ) → bucket x hi ≢ b → listings p (v.chains b) ≡ 0 =
        λ b away. elsewhere v b p z used_p (λ q. away (sym at_p ∙ q)) in
      record {
        chains = update v.chains (bucket x hi) (front ++ (p ∷ back));
        linked = λ b. elim (update_cases v.chains (bucket x hi) (front ++ (p ∷ back)) b) [
          | inl (at, new) ↦
              rw (new, ← at) (Chain-skip hi.next (hi.hash (bucket x hi)) front back p t once chain)
          | inr (away, old) ↦ rw old (
              Chain-update (update hi.next p (hi.next t)) (hi.hash b) (v.chains b) t none
                (elsewhere v b t x its away)
                (Chain-update hi.next (hi.hash b) (v.chains b) p (hi.next t) (off b away)
                  (v.linked b)))
        ];
        gone = shortened-gone (front ++ (p ∷ back)) (
            omega (
              arith,
              once t,
              listings-append t front (p ∷ t ∷ back),
              listings-append t front (p ∷ back),
              skipped t,
              listings_self t back,
            ));
        others = shortened-others (front ++ (p ∷ back)) (λ i differ. ground (
          arith,
          ap (listings i) e,
          listings-append i front (p ∷ t ∷ back),
          listings-append i front (p ∷ back),
          differ,
        ));
        loose = λ i free. elim (update_cases hi.next p (hi.next t) i) [
          | inl (same, _) ↦ absurd (none_ne_some (sym free ∙ ap hi.id (sym same) ∙ used_p))
          | inr (_, old) ↦ old ∙ v.loose i free
        ];
      }
    where
      skipped :
          (i : ℕ)
          → listings i (p ∷ t ∷ back) + listings i back
            ≡ listings i (p ∷ back) + listings i (t ∷ back)
      skipped i = omega arith

-- what a removal has to return and to leave
abbrev pub IsRemoved : ℕ → HashId → Option ℕ × HashId → Type 0
IsRemoved x hi (c, hi') =
    (c ≡ hashid_lookup x hi)
    × IsValid hi'
    × (hashid_lookup x hi' ≡ none)
    × ((y : ℕ) → y ≢ x → hashid_lookup y hi' ≡ hashid_lookup y hi)
    × (hi'.count + one_used c ≡ hi.count)

module _ {hi : HashId} (v : IsValid hi) (x : ℕ) where
  Unlinked-IsRemoved :
      (t : ℕ) {next hash : ℕ → Option ℕ}
      → hi.id t ≡ some x
      → Unlinked v t next hash
      → IsRemoved x hi (some t, without hi t next hash)
  Unlinked-IsRemoved t its u = (
    sym ((hashid_lookup_iff x t v).1 its),
    without-IsValid v x t its u,
    without-missing v x t its u,
    without-others v x t its u,
    omega (arith, v.counted, used-update hi.id hi.cap t none (v.within t x its), ap one_used its),
  )

  missing-IsRemoved :
      ((i : ℕ) → 0 < listings i (v.chains (bucket x hi)) → hi.id i ≢ some x)
      → IsRemoved x hi (none, hi)
  missing-IsRemoved absent = (sym missing, v, missing, λ y differ. refl, omega arith)
    where
      missing : hashid_lookup x hi ≡ none
      missing = elim (Option-cases (hashid_lookup x hi)) [
        | inl m ↦ m
        | inr (i, found) ↦
            let its = (hashid_lookup_iff x i v).0 found in
            absurd (absent i (omega (arith, v.held i x its)) its)
      ]

  head_of :
      (c : ℕ) (rest : List ℕ)
      → v.chains (bucket x hi) ≡ c ∷ rest
      → (hi.hash (bucket x hi) ≡ some c) × Chain hi.next (hi.next c) rest
  head_of c rest e = subst (λ l. Chain hi.next (hi.hash (bucket x hi)) l) e (v.linked (bucket x hi))

  by_list : (xs : List ℕ) → v.chains (bucket x hi) ≡ xs → IsRemoved x hi (hashid_remove x hi)
  unfolding hashid_remove clear_node
  by_list [] e =
      let empty : hi.hash (bucket x hi) ≡ none =
        subst (λ l. Chain hi.next (hi.hash (bucket x hi)) l) e (v.linked (bucket x hi)) in
      let run : hashid_remove x hi ≡ (none, hi) = rw (hashid_remove, empty) refl in
      subst (λ r. IsRemoved x hi r) (sym run)
        (missing-IsRemoved (λ i h. absurd (omega (arith, h, ap (listings i) e))))
  by_list (c ∷ rest) e =
      let (first, chain) = head_of c rest e in
      elim (Bool-cases (is_id (hi.id c) x)) [
        | inl it ↦
            let its = is_id-eq (hi.id c) x it in
            let run : hashid_remove x hi
                ≡ (some c, without hi c hi.next (update hi.hash (bucket x hi) (hi.next c))) =
              rw (hashid_remove, first, it) refl in
            subst (λ r. IsRemoved x hi r) (sym run)
              (Unlinked-IsRemoved c its (Unlinked-head v x c its rest e))
        | inr other ↦ elim (before_loop-result hi.cap c x hi rest chain (short c rest e)) [
          | inl (p, t, front, back, found, split, its) ↦
              let run : hashid_remove x hi
                  ≡ (some t, without hi t (update hi.next p (hi.next t)) hi.hash) =
                rw (hashid_remove, first, other, found) refl in
              subst (λ r. IsRemoved x hi r) (sym run)
                (Unlinked-IsRemoved t its (Unlinked-skip v x t its front back p (e ∙ split)))
          | inr (nothing, absent) ↦
              let run : hashid_remove x hi ≡ (none, hi) =
                rw (hashid_remove, first, other, nothing) refl in
              subst (λ r. IsRemoved x hi r) (sym run)
                (missing-IsRemoved (λ i h. elim (ℕ_discrete c i) [
                  | yes same ↦ rw (← same) (is_id-ne (hi.id c) x other)
                  | no differ ↦ absent i (ground (arith, h, ap (listings i) e, differ))
                ]))
        ]
      ]
    where
      short : (c : ℕ) (rest : List ℕ) → v.chains (bucket x hi) ≡ c ∷ rest → length rest ≤ hi.cap
      short c rest e = omega (arith, length-chains v (bucket x hi), ap length e)

-- `hashid_remove` returns the node of the identifier, if it has one, and counts it no more. Afterwards the table is valid, the identifier
-- finds nothing, and every other finds what it found before.
pub hashid_remove_lem : {hi : HashId} (x : ℕ) → IsValid hi → IsRemoved x hi (hashid_remove x hi)
hashid_remove_lem {hi} x v = by_list v x (v.chains (bucket x hi)) refl
