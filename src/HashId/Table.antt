-- ===== src/HashId/Table.antt =====
-- The invariant of the table of identifiers.
use native.Mathlib.Nat.{mul_assoc, mul_comm, pow-succ', one-le-pow}
use native.Mathlib.Numerals.{towards_suc}
use jsmj_server.Base.{
  ℕ, zero, suc, ◌+◌, ◌-◌, ◌*◌, ◌^◌, ◌≤◌, ◌<◌, ◌≡◌, ◌≢◌, refl, ap, sym, ◌∙◌, subst, false, Option,
  none, some, some_inj, Option-cases, Bool-cases, inl, inr, List, [], ltb, arith, length, update,
  listings,
}
use jsmj_server.HashId.{HashId, hash_cap, hashid_init, bucket, hashid_full}
use jsmj_server.HashId.Chain.{Chain, IsOnce, length-le}

abbrev pub one_used : Option ℕ → ℕ
one_used none = 0
one_used (some x) = 1

-- how many of the first `n` nodes are used
unfoldable pub used : (ℕ → Option ℕ) → ℕ → ℕ
used id zero = 0
used id (suc n) = used id n + one_used (id n)

-- `chains b` lists the nodes that hang at `b`.
pub record IsValid (hi : HashId) : Type 0 where
  pub chains : ℕ → List ℕ
  pub linked : (b : ℕ) → Chain hi.next (hi.hash b) (chains b)
  pub placed :
      (b i : ℕ) → 0 < listings i (chains b) → (x : ℕ) × (hi.id i ≡ some x) × (bucket x hi ≡ b)
  pub held : (i x : ℕ) → hi.id i ≡ some x → listings i (chains (bucket x hi)) ≡ 1
  pub within : (i x : ℕ) → hi.id i ≡ some x → i < hi.cap
  pub unique : (i j x : ℕ) → hi.id i ≡ some x → hi.id j ≡ some x → i ≡ j
  pub loose : (i : ℕ) → hi.id i ≡ none → hi.next i ≡ none
  pub counted : hi.count ≡ used hi.id hi.cap

module _ {hi : HashId} (v : IsValid hi) where
  pub chains-IsOnce : (b : ℕ) → IsOnce (v.chains b)
  chains-IsOnce b i = elim (Bool-cases (ltb 0 (listings i (v.chains b)))) [
    | inr empty ↦ ground (arith, empty)
    | inl some_there ↦
        let (x, its, at) = v.placed b i (ground (arith, some_there)) in
        let one : listings i (v.chains b) ≡ 1 =
          subst (λ k. listings i (v.chains k) ≡ 1) at (v.held i x its) in
        omega (arith, one)
  ]

  pub length-chains : (b : ℕ) → length (v.chains b) ≤ hi.cap
  length-chains b =
      length-le hi.cap (v.chains b) (chains-IsOnce b)
        (λ i h. let (x, its, _) = v.placed b i h in v.within i x its)

  -- a node hangs at one place only
  pub elsewhere : (b i x : ℕ) → hi.id i ≡ some x → bucket x hi ≢ b → listings i (v.chains b) ≡ 0
  elsewhere b i x its differ = elim (Bool-cases (ltb 0 (listings i (v.chains b)))) [
    | inr empty ↦ ground (arith, empty)
    | inl some_there ↦
        let (y, its', at) = v.placed b i (ground (arith, some_there)) in
        let same : y ≡ x = some_inj (sym its' ∙ its) in
        absurd (differ (ap (λ k. bucket k hi) (sym same) ∙ at))
  ]

  pub free_elsewhere : (b i : ℕ) → hi.id i ≡ none → listings i (v.chains b) ≡ 0
  free_elsewhere b i free = elim (Bool-cases (ltb 0 (listings i (v.chains b)))) [
    | inr empty ↦ ground (arith, empty)
    | inl some_there ↦
        let (y, its', at) = v.placed b i (ground (arith, some_there)) in
        absurd (let e : none ≡ some y = sym free ∙ its' in cc)
  ]

used-none : (n : ℕ) → used (λ i. none) n ≡ 0
unfolding used
used-none zero = refl
used-none (suc n) = omega (arith, used-none n)

pub used-le : (id : ℕ → Option ℕ) (n : ℕ) → used id n ≤ n
unfolding used
used-le id zero = omega arith
used-le id (suc n) = elim (Option-cases (id n)) [
  | inl free ↦ ground (arith, free, used-le id n)
  | inr (x, its) ↦ ground (arith, its, used-le id n)
]

used-update_of_le :
    (id : ℕ → Option ℕ) (n c : ℕ) (o : Option ℕ) → n ≤ c → used (update id c o) n ≡ used id n
unfolding used
used-update_of_le id zero c o h = refl
used-update_of_le id (suc n) c o h = ground (arith, used-update_of_le id n c o)

pub used-update :
    (id : ℕ → Option ℕ) (n c : ℕ) (o : Option ℕ)
    → c < n
    → used (update id c o) n + one_used (id c) ≡ used id n + one_used o
unfolding used
used-update id zero c o h = absurd (omega arith)
used-update id (suc n) c o h = elim (Bool-cases (ltb c n)) [
  | inl below ↦
      let there : update id c o n ≡ id n = ground (arith, below) in
      rw there (omega (arith, used-update id n c o (ground (arith, below))))
  | inr last ↦
      let here : c ≡ n = ground (arith, last, h) in
      let new : update id c o n ≡ o = ground (arith, here) in
      let same : one_used (id c) ≡ one_used (id n) = ap (λ k. one_used (id k)) here in
      rw new (omega (arith, used-update_of_le id n c o (omega (arith, here)), same))
]

-- a node is free where not all are used
pub free_of_used : (id : ℕ → Option ℕ) (n : ℕ) → used id n < n → (i : ℕ) × (i < n) × (id i ≡ none)
unfolding used
free_of_used id zero h = absurd (omega arith)
free_of_used id (suc n) h = elim (Option-cases (id n)) [
  | inl free ↦ (n, omega arith, free)
  | inr (x, its) ↦
      let (i, below, free) = free_of_used id n (ground (arith, its)) in
      (i, omega (arith, below), free)
]

pub hashid_init-IsValid : (max : ℕ) → IsValid (hashid_init max)
unfolding hashid_init
hashid_init-IsValid max = record {
  chains = λ b. [];
  linked = λ b. refl;
  placed = λ b i h. absurd (omega (arith, h));
  held = λ i x e. absurd (nothing e);
  within = λ i x e. absurd (nothing e);
  unique = λ i j x e. absurd (nothing e);
  loose = λ i e. refl;
  counted = sym (used-none max);
}
  where
    nothing : {x : ℕ} → none ≢ some x
    nothing e = absurd cc

pub room_of_not_full : {hi : HashId} → IsValid hi → hashid_full hi ≡ false → hi.count < hi.cap
unfolding hashid_full
room_of_not_full {hi} v e = ground (arith, v.counted, used-le hi.id hi.cap, e)

-- The array of lists has a power of two of places, as many as there are nodes at least, and few enough for an `int`.
hash_cap_lem :
    (rounds hashcap max : ℕ)
    → 0 < hashcap
    → max ≤ hashcap + rounds
    → hashcap < 2 ^ 31
    → max ≤ 2 ^ 30
    → (max ≤ hash_cap rounds hashcap max)
      × (hash_cap rounds hashcap max < 2 ^ 31)
      × ((k : ℕ) × (hash_cap rounds hashcap max ≡ hashcap * 2 ^ k))
unfolding hash_cap
hash_cap_lem zero hashcap max pos enough low few = (omega arith, omega arith, (0, omega arith))
hash_cap_lem (suc rounds) hashcap max pos enough low few = elim (Bool-cases (ltb hashcap max)) [
  | inr large ↦ rw (hash_cap, large) (ground (arith, large), omega (arith, low), (0, omega arith))
  | inl small ↦
      let (above, fits, (k, power)) =
        hash_cap_lem rounds (hashcap * 2) max (omega arith) (omega arith)
          (ground (arith, small, few)) few in
      rw (hash_cap, small)
        (
          above,
          fits,
          (
            suc k,
            power ∙ mul_assoc hashcap 2 (2 ^ k) ∙ ap (λ n. hashcap * n) (sym (pow-succ' 2 k)),
          ),
        )
]

-- For at most 2^30 identifiers `hashid_init` makes a valid table: its array of lists has at least as many places as there may be
-- identifiers, a power of two of them, and `hashcap` stays below 2^31, so the `int` never overflows.
pub hashid_init_lem :
    (max : ℕ)
    → max ≤ 2 ^ 30
    → IsValid (hashid_init max)
      × ((hashid_init max).hashmod + 1 < 2 ^ 31)
      × (max ≤ (hashid_init max).hashmod + 1)
      × ((k : ℕ) × ((hashid_init max).hashmod + 1 ≡ 2 ^ k))
unfolding hashid_init
hashid_init_lem max few =
    let (above, fits, (k, power)) =
      hash_cap_lem max 16 max (omega arith) (omega arith) (omega arith) few in
    let pos : 0 < hash_cap max 16 max = omega (arith, power, one-le-pow k 2 (omega arith)) in
    let back : hash_cap max 16 max - 1 + 1 ≡ hash_cap max 16 max = omega (arith, pos) in
    (
      hashid_init-IsValid max,
      omega (arith, back, fits),
      omega (arith, back, above),
      (k + 4, back ∙ power ∙ mul_comm 16 (2 ^ k) ∙ shift k),
    )
  where
    shift : (k : ℕ) → 2 ^ k * 16 ≡ 2 ^ (k + 4)
    shift k = simp towards_suc (omega arith)
