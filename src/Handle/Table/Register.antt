-- ===== src/Handle/Table/Register.antt =====
-- A context enters the table: its handle is new, it is found by it, and no other lookup changes.
use native.Mathlib.Nat.{mod-lt}
use jsmj_server.Base.{
  ℕ, ◌+◌, ◌%◌, ◌<◌, ◌≡◌, ◌≢◌, ◌⊎◌, refl, ap, sym, subst, ◌∙◌, none, some, some_inj, Option-cases,
  Bool-cases, inl, inr, ◌==◌, length, arith, true, false, length-set, get_or-set_self,
  get_or-set_ne,
}
use jsmj_server.Handle.{
  HandleStorage, handles, get_slot, scan, register, register_loop, occupy, set_handle, grab,
}
use jsmj_server.Handle.Table.{IsValid, IsFull, size_pos, place-harbor, scan-some, scan-IsFull}
use jsmj_server.Handle.Table.Grow.{grow_lem}

-- the table with the context in it, once its handle is stored
abbrev entered : ℕ → ℕ → HandleStorage → HandleStorage
entered ctx h s = set_handle ctx (occupy ctx h s).0 (occupy ctx h s).1

abbrev pub IsAbsent : ℕ → HandleStorage → Type 0
IsAbsent ctx s = (i : ℕ) → get_slot s.slot i ≢ some ctx

module _ {s : HandleStorage} (v : IsValid s) (ctx h : ℕ) (absent : IsAbsent ctx s)
    (free : get_slot s.slot (h % s.slot_size) ≡ none) where
  inside : h % s.slot_size < length s.slot
  inside = subst (λ n. h % s.slot_size < n) (sym v.len) (mod-lt h (size_pos v))

  at_place : {i : ℕ} → h % s.slot_size ≡ i → get_slot (entered ctx h s).slot i ≡ some ctx
  at_place e =
      ap (get_slot (entered ctx h s).slot) (sym e)
      ∙ get_or-set_self s.slot (h % s.slot_size) (some ctx) none inside

  elsewhere : {i : ℕ} → h % s.slot_size ≢ i → get_slot (entered ctx h s).slot i ≡ get_slot s.slot i
  elsewhere = get_or-set_ne s.slot (some ctx) none

  others : (i c : ℕ) → get_slot s.slot i ≡ some c → (c == ctx) ≡ false
  others i c e = elim (Bool-cases (c == ctx)) [
    | inr differ ↦ differ
    | inl it ↦
        let same : c ≡ ctx = ground (arith, it) in absurd (absent i (e ∙ ap (λ x. some x) same))
  ]

  entered-IsValid : IsValid (entered ctx h s)
  entered-IsValid = record {
    spare = v.spare;
    size = v.size;
    len = length-set s.slot (h % s.slot_size) (some ctx) ∙ v.len;
    high = v.high;
    placed = λ i c e. elim (Bool-cases (h % s.slot_size == i)) [
      | inl at ↦
          let here : h % s.slot_size ≡ i = ground (arith, at) in
          let it : ctx ≡ c = some_inj (sym (at_place here) ∙ e) in
          let known : (c == ctx) ≡ true = ground (arith, it) in rw known (place-harbor v h ∙ here)
      | inr off ↦
          let there : h % s.slot_size ≢ i = ground (arith, off) in
          let old : get_slot s.slot i ≡ some c = sym (elsewhere there) ∙ e in
          rw (others i c old) (v.placed i c old)
    ];
  }

  grab-entered : grab (h + s.harbor) (entered ctx h s) ≡ some ctx
  unfolding grab
  grab-entered =
      let same : (ctx == ctx) ≡ true = ground arith in
      let whole : (h + s.harbor == h + s.harbor) ≡ true = ground arith in
      rw (grab, at_place (sym (place-harbor v h)), same, whole) refl

  grab-free : grab (h + s.harbor) s ≡ none
  unfolding grab
  grab-free = rw (grab, place-harbor v h, free) refl

  grab-others : {k : ℕ} → k ≢ h + s.harbor → grab k (entered ctx h s) ≡ grab k s
  unfolding grab
  grab-others {k} differ = elim (Bool-cases (h % s.slot_size == k % s.slot_size)) [
    | inl at ↦
        let here : h % s.slot_size ≡ k % s.slot_size = ground (arith, at) in
        let same : (ctx == ctx) ≡ true = ground arith in
        let other : (h + s.harbor == k) ≡ false = ground (arith, differ) in
        rw (grab, at_place here, same, other, ← here, free) refl
    | inr off ↦
        let there : h % s.slot_size ≢ k % s.slot_size = ground (arith, off) in
        elim (Option-cases (get_slot s.slot (k % s.slot_size))) [
          | inl empty ↦ rw (grab, elsewhere there, empty) refl
          | inr (c, old) ↦ rw (grab, elsewhere there, old, others (k % s.slot_size) c old) refl
        ]
  ]

-- `skynet_handle_register` in a table that has room succeeds for a context that is not in the table, with at most one
-- doubling. The handle is of this harbor and was not in use. Once it is stored the table is valid, the
-- handle finds the context, and every other handle finds what it found before.
pub register_lem :
    {s : HandleStorage} (ctx : ℕ)
    → IsValid s
    → IsAbsent ctx s
    → (s.slot_size < handles) ⊎ (¬ IsFull s)
    → (r : ℕ × HandleStorage) × (register ctx s ≡ some r)
      × IsValid (set_handle ctx r.0 r.1)
      × (r.0 ≡ r.0 % handles + s.harbor)
      × (grab r.0 s ≡ none)
      × (grab r.0 (set_handle ctx r.0 r.1) ≡ some ctx)
      × ((k : ℕ) → k ≢ r.0 → grab k (set_handle ctx r.0 r.1) ≡ grab k s)
unfolding register register_loop
register_lem {s} ctx v absent room = elim (Option-cases (scan s.slot_size 0 s)) [
  | inr (h, found) ↦
      let (small, free) = scan-some s.slot_size 0 s found in
      (
        occupy ctx h s,
        rw (register, register_loop, found) refl,
        entered-IsValid v ctx h absent free,
        omega (arith, small, v.high),
        grab-free v ctx h absent free,
        grab-entered v ctx h absent free,
        λ k differ. grab-others v ctx h absent free differ,
      )
  | inl taken ↦
      let (s', run, g) = grow_lem v (scan-IsFull v taken) (below (scan-IsFull v taken)) in
      elim (Option-cases (scan s'.slot_size 0 s')) [
        | inl again ↦ absurd (g.free (scan-IsFull g.valid again))
        | inr (h, found) ↦
            let (small, free) = scan-some s'.slot_size 0 s' found in
            let absent' : IsAbsent ctx s' =
              λ i e. let (j, old) = g.from_old i ctx e in absent j old in
            (
              occupy ctx h s',
              rw (register, register_loop, taken, run, found) refl,
              entered-IsValid g.valid ctx h absent' free,
              omega (arith, small, v.high, g.harbor),
              sym (g.lookups (h + s'.harbor)) ∙ grab-free g.valid ctx h absent' free,
              grab-entered g.valid ctx h absent' free,
              λ k differ. grab-others g.valid ctx h absent' free differ ∙ g.lookups k,
            )
      ]
]
  where
    below : IsFull s → s.slot_size < handles
    below full = elim room [ inl small ↦ small | inr some_free ↦ absurd (some_free full) ]
