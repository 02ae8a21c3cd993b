-- ===== src/Handle/Table/Retire.antt =====
-- A handle leaves the table, and its names with it.
use native.Mathlib.Nat.{mod-lt}
use jsmj_server.Base.{
  ℕ, zero, suc, ◌%◌, ◌<◌, ◌≡◌, ◌≢◌, refl, ap, sym, subst, ◌∙◌, none, some, Option-cases, Bool-cases,
  inl, inr, List, [], ◌∷◌, ◌==◌, if◌then◌else◌, set, replicate, arith, false, length-set,
  get_or-set_self, get_or-set_ne,
}
use jsmj_server.Handle.{HandleName, HandleStorage, get_slot, grab, retire, drop_names, handle_init}
use jsmj_server.Handle.Table.{IsValid, size_pos}

-- the names that stand for the handle, in order
unfoldable pub names_of : ℕ → List HandleName → List (List ℕ)
names_of handle [] = []
names_of handle (n ∷ ns) =
    if n.handle == handle then n.name ∷ names_of handle ns else names_of handle ns

names_of-dropped : (handle : ℕ) (ns : List HandleName) → names_of handle (drop_names handle ns) ≡ []
unfolding names_of drop_names
names_of-dropped handle [] = refl
names_of-dropped handle (n ∷ ns) = elim (Bool-cases (n.handle == handle)) [
  | inl its ↦ rw (drop_names, its) (names_of-dropped handle ns)
  | inr other ↦ rw (drop_names, other, names_of, other) (names_of-dropped handle ns)
]

names_of-kept :
    (handle k : ℕ) (ns : List HandleName)
    → k ≢ handle
    → names_of k (drop_names handle ns) ≡ names_of k ns
unfolding names_of drop_names
names_of-kept handle k [] differ = refl
names_of-kept handle k (n ∷ ns) differ =
    let later = names_of-kept handle k ns differ in
    elim (Bool-cases (n.handle == handle)) [
      | inl its ↦
          let not_its : (n.handle == k) ≡ false = ground (arith, its, differ) in
          rw (drop_names, its, not_its) later
      | inr other ↦ elim (Bool-cases (n.handle == k)) [
        | inl it ↦ rw (drop_names, other, names_of, it, later) refl
        | inr neither ↦ rw (drop_names, other, names_of, neither) later
      ]
    ]

none_ne_some : {c : ℕ} → none ≢ some c
none_ne_some p = absurd cc

-- the table without the entry for a handle
abbrev without : ℕ → HandleStorage → HandleStorage
without h s = record s { slot = set s.slot (h % s.slot_size) none; name = drop_names h s.name }

module _ {s : HandleStorage} (v : IsValid s) (h : ℕ) where
  emptied : {i : ℕ} → h % s.slot_size ≡ i → get_slot (without h s).slot i ≡ none
  emptied e =
      ap (get_slot (without h s).slot) (sym e)
      ∙ get_or-set_self s.slot (h % s.slot_size) none none
          (subst (λ n. h % s.slot_size < n) (sym v.len) (mod-lt h (size_pos v)))

  without-IsValid : IsValid (without h s)
  without-IsValid = record {
    spare = v.spare;
    size = v.size;
    len = length-set s.slot (h % s.slot_size) none ∙ v.len;
    high = v.high;
    placed = λ i c e. elim (Bool-cases (h % s.slot_size == i)) [
      | inl at ↦ absurd (none_ne_some (sym (emptied (ground (arith, at))) ∙ e))
      | inr off ↦ v.placed i c (sym (get_or-set_ne s.slot none none (ground (arith, off))) ∙ e)
    ];
  }

  -- The slot held the context of this handle, so no other handle is found there.
  grab-without :
      {c : ℕ} (k : ℕ)
      → get_slot s.slot (h % s.slot_size) ≡ some c
      → s.handle_of c ≡ h
      → k ≢ h
      → grab k (without h s) ≡ grab k s
  unfolding grab
  grab-without {c} k here its differ = elim (Bool-cases (h % s.slot_size == k % s.slot_size)) [
    | inl at ↦
        let same : h % s.slot_size ≡ k % s.slot_size = ground (arith, at) in
        let other : (s.handle_of c == k) ≡ false = ground (arith, its, differ) in
        rw (grab, emptied same, ← same, here, other) refl
    | inr off ↦
        let there : h % s.slot_size ≢ k % s.slot_size = ground (arith, off) in
        rw (grab, get_or-set_ne s.slot none none there) refl
  ]

-- `skynet_handle_retire` releases the context that the handle finds, if any. Afterwards the table is valid, the
-- handle finds nothing, every other handle finds what it found and keeps its names; if a context was released, the
-- handle has no names left.
pub retire_lem :
    {s : HandleStorage} (h : ℕ)
    → IsValid s
    → let (released, s') = retire h s in
      (released ≡ grab h s)
      × IsValid s'
      × (grab h s' ≡ none)
      × ((k : ℕ) → k ≢ h → (grab k s' ≡ grab k s) × (names_of k s'.name ≡ names_of k s.name))
      × ((c : ℕ) → released ≡ some c → names_of h s'.name ≡ [])
unfolding retire grab
retire_lem {s} h v = elim (Option-cases (get_slot s.slot (h % s.slot_size))) [
  | inl empty ↦
      let lost : none ≡ grab h s = rw (grab, empty) refl in
      rw (retire, empty)
        (lost, v, sym lost, λ k differ. (refl, refl), λ c e. absurd (none_ne_some e))
  | inr (c, here) ↦ elim (Bool-cases (s.handle_of c == h)) [
    | inr other ↦
        let lost : none ≡ grab h s = rw (grab, here, other) refl in
        rw (retire, here, other)
          (lost, v, sym lost, λ k differ. (refl, refl), λ c e. absurd (none_ne_some e))
    | inl it ↦
        let its : s.handle_of c ≡ h = ground (arith, it) in
        let found : some c ≡ grab h s = rw (grab, here, it) refl in
        let gone : grab h (without h s) ≡ none = rw (grab, emptied v h refl) refl in
        rw (retire, here, it)
          (
            found,
            without-IsValid v h,
            gone,
            λ k differ. (grab-without v h k here its differ, names_of-kept h k s.name differ),
            λ c e. names_of-dropped h s.name,
          )
  ]
]

-- `skynet_handle_init` makes a valid table in which no handle finds a context.
pub handle_init_lem :
    (harbor : ℕ) → IsValid (handle_init harbor) × ((h : ℕ) → grab h (handle_init harbor) ≡ none)
unfolding handle_init grab
handle_init_lem harbor = (
  record {
    spare = 22;
    size = refl;
    len = refl;
    high = omega arith;
    placed = λ i c e. absurd (none_ne_some (sym (blank 4 i) ∙ e));
  },
  λ h. rw (grab, blank 4 (h % 4)) refl,
)
  where
    blank : (n i : ℕ) → get_slot (replicate n none) i ≡ none
    blank zero i = refl
    blank (suc n) zero = refl
    blank (suc n) (suc i) = blank n i
