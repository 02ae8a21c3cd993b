-- ===== src/Handle/Table/Grow.antt =====
-- The doubling of the table: it never meets a NULL or a taken place, and it keeps every lookup.
use native.Mathlib.Nat.{
  mod-lt, mod_self, zero-mod, mul_assoc, pow-succ', one-le-pow, le-mul_of_pos_right,
}
use jsmj_server.Base.{
  ℕ, zero, suc, ◌+◌, ◌-◌, ◌*◌, ◌^◌, ◌%◌, ◌≤◌, ◌<◌, ◌≡◌, ◌≢◌, refl, ap, sym, subst, ◌∙◌, Option,
  none, some, some_inj, Option-cases, Bool-cases, inl, inr, List, ◌==◌, set, replicate, length,
  arith, length-set, length-replicate, get_or-set_self, get_or-set_ne, lt→ltb,
}
use jsmj_server.Handle.{HandleStorage, handles, get_slot, rehash, grow, grab}
use jsmj_server.Handle.Table.{IsValid, IsFull, mod-mod_mul, size_pos}

-- The new array when the slots below `i` are copied: it holds their contexts, each at its place.
record IsCopied (s : HandleStorage) (i : ℕ) (new_slot : List (Option ℕ)) : Type 0 where
  len : length new_slot ≡ s.slot_size * 2
  from_old :
      (j c : ℕ)
      → get_slot new_slot j ≡ some c
      → (j % s.slot_size < i)
        × (get_slot s.slot (j % s.slot_size) ≡ some c)
        × (s.handle_of c % (s.slot_size * 2) ≡ j)
  to_new :
      (k c : ℕ)
      → k < i
      → get_slot s.slot k ≡ some c
      → get_slot new_slot (s.handle_of c % (s.slot_size * 2)) ≡ some c

get_slot-replicate : (n i : ℕ) → get_slot (replicate n none) i ≡ none
get_slot-replicate zero i = refl
get_slot-replicate (suc n) zero = refl
get_slot-replicate (suc n) (suc i) = get_slot-replicate n i

none_ne_some : {c : ℕ} → none ≢ some c
none_ne_some p = absurd cc

blank-IsCopied : (s : HandleStorage) → IsCopied s 0 (replicate (s.slot_size * 2) none)
blank-IsCopied s = record {
  len = length-replicate (s.slot_size * 2) none;
  from_old = λ j c e. absurd (none_ne_some (sym (get_slot-replicate (s.slot_size * 2) j) ∙ e));
  to_new = λ k c h e. absurd (omega arith);
}

module _ {s : HandleStorage} (v : IsValid s) where
  -- The place of the next context is free.
  place_free :
      (i c : ℕ) {new_slot : List (Option ℕ)}
      → IsCopied s i new_slot
      → get_slot s.slot i ≡ some c
      → get_slot new_slot (s.handle_of c % (s.slot_size * 2)) ≡ none
  place_free i c {new_slot} p here =
      elim (Option-cases (get_slot new_slot (s.handle_of c % (s.slot_size * 2)))) [
        | inl free ↦ free
        | inr (d, taken) ↦
            let (below, _, _) = p.from_old (s.handle_of c % (s.slot_size * 2)) d taken in
            let same : s.handle_of c % (s.slot_size * 2) % s.slot_size ≡ i =
              mod-mod_mul (s.handle_of c) s.slot_size 2 ∙ v.placed i c here in
            absurd (omega (arith, below, same))
      ]

  copy-IsCopied :
      (i c : ℕ) {new_slot : List (Option ℕ)}
      → IsCopied s i new_slot
      → get_slot s.slot i ≡ some c
      → IsCopied s (i + 1) (set new_slot (s.handle_of c % (s.slot_size * 2)) (some c))
  copy-IsCopied i c {new_slot} p here = record {
    len = length-set new_slot place (some c) ∙ p.len;
    from_old = λ j d e. elim (Bool-cases (place == j)) [
      | inl at ↦
          let pj : place ≡ j = ground (arith, at) in
          let same : c ≡ d = some_inj (
            sym (get_or-set_self new_slot place (some c) none inside)
            ∙ ap (get_slot (set new_slot place (some c))) pj
            ∙ e) in
          rw (← pj, ← same) (omega (arith, folded), ap (get_slot s.slot) folded ∙ here, refl)
      | inr off ↦
          let pj : place ≢ j = ground (arith, off) in
          let (below, old, at_j) =
            p.from_old j d (sym (get_or-set_ne new_slot (some c) none pj) ∙ e) in
          (omega (arith, below), old, at_j)
    ];
    to_new = λ k d h e. elim (Bool-cases (k == i)) [
      | inl last ↦
          let ki : k ≡ i = ground (arith, last) in
          let same : c ≡ d = some_inj (sym here ∙ ap (get_slot s.slot) (sym ki) ∙ e) in
          rw (← same) (get_or-set_self new_slot place (some c) none inside)
      | inr before ↦
          let kept = p.to_new k d (ground (arith, before)) e in
          get_or-set_ne new_slot (some c) none
            (λ q. none_ne_some (sym (place_free i c p here) ∙ ap (get_slot new_slot) q ∙ kept))
          ∙ kept
    ];
  }
    where
      place : ℕ
      place = s.handle_of c % (s.slot_size * 2)

      inside : place < length new_slot
      inside =
          subst (λ n. place < n) (sym p.len) (mod-lt (s.handle_of c) (omega (arith, size_pos v)))

      folded : place % s.slot_size ≡ i
      folded = mod-mod_mul (s.handle_of c) s.slot_size 2 ∙ v.placed i c here

  rehash-IsCopied :
      (n i : ℕ) {new_slot : List (Option ℕ)}
      → i + n ≡ s.slot_size
      → IsFull s
      → IsCopied s i new_slot
      → (new' : List (Option ℕ)) × (rehash n i (s.slot_size * 2) s new_slot ≡ some new')
        × IsCopied s s.slot_size new'
  unfolding rehash
  rehash-IsCopied zero i {new_slot} whole full p =
      (new_slot, refl, subst (λ k. IsCopied s k new_slot) (omega arith) p)
  rehash-IsCopied (suc n) i {new_slot} whole full p = elim (Option-cases (get_slot s.slot i)) [
    | inl empty ↦ absurd (full i (omega arith) empty)
    | inr (c, here) ↦
        let (new', run, q) =
          rehash-IsCopied n (i + 1) (omega arith) full (copy-IsCopied i c p here) in
        (new', rw (rehash, here, place_free i c p here) run, q)
  ]

abbrev doubled : HandleStorage → List (Option ℕ) → HandleStorage
doubled s new' = record s { slot = new'; slot_size = s.slot_size * 2 }

spare_bit :
    (n spare : ℕ)
    → n * 2 ^ spare ≡ handles
    → n < handles
    → (k : ℕ) × (n * 2 * 2 ^ k ≡ handles) × (n * 2 ≤ handles)
spare_bit n zero e h = absurd (omega arith)
spare_bit n (suc k) e h =
    let whole : n * 2 * 2 ^ k ≡ handles =
      mul_assoc n 2 (2 ^ k) ∙ ap (λ m. n * m) (sym (pow-succ' 2 k)) ∙ e in
    (
      k,
      whole,
      subst (λ m. n * 2 ≤ m) whole (le-mul_of_pos_right (n * 2) (one-le-pow k 2 (omega arith))),
    )

module _ {s : HandleStorage} (v : IsValid s) {new' : List (Option ℕ)}
    (p : IsCopied s s.slot_size new') where
  doubled-IsValid : s.slot_size < handles → IsValid (doubled s new')
  doubled-IsValid room =
      let (k, whole, _) = spare_bit s.slot_size v.spare v.size room in
      record {
        spare = k;
        size = whole;
        len = p.len;
        high = v.high;
        placed = λ i c e. (p.from_old i c e).2;
      }

  -- A lookup has the same result in both tables.
  grab-doubled : IsFull s → (h : ℕ) → grab h (doubled s new') ≡ grab h s
  unfolding grab
  grab-doubled full h = elim (Option-cases (get_slot s.slot (h % s.slot_size))) [
    | inl empty ↦ absurd (full (h % s.slot_size) (mod-lt h (size_pos v)) empty)
    | inr (c, old) ↦ elim (Bool-cases (s.handle_of c == h)) [
      | inl found ↦
          let it : s.handle_of c ≡ h = ground (arith, found) in
          let new : get_slot new' (h % (s.slot_size * 2)) ≡ some c =
            ap (λ k. get_slot new' (k % (s.slot_size * 2))) (sym it)
            ∙ p.to_new (h % s.slot_size) c (mod-lt h (size_pos v)) old in
          rw (grab, new, old, found)
      | inr other ↦ elim (Option-cases (get_slot new' (h % (s.slot_size * 2)))) [
        | inl none_new ↦ rw (grab, none_new, old, other)
        | inr (d, new) ↦
            let (_, there, _) = p.from_old (h % (s.slot_size * 2)) d new in
            let same : d ≡ c =
              some_inj (sym there ∙ ap (get_slot s.slot) (mod-mod_mul h s.slot_size 2) ∙ old) in
            rw (grab, new, old, same, other)
      ]
    ]
  ]

  -- Half of the new table is free.
  doubled_free : ¬ IsFull (doubled s new')
  doubled_free full = elim (Option-cases (get_slot new' 0)) [
    | inl empty ↦ full 0 (omega (arith, size_pos v)) empty
    | inr (c, low) ↦ elim (Option-cases (get_slot new' s.slot_size)) [
      | inl empty ↦ full s.slot_size (omega (arith, size_pos v)) empty
      | inr (d, upper) ↦
          let (_, old_c, at_low) = p.from_old 0 c low in
          let (_, old_d, at_upper) = p.from_old s.slot_size d upper in
          let one_place : s.slot_size % s.slot_size ≡ 0 % s.slot_size =
            mod_self s.slot_size ∙ sym (zero-mod s.slot_size) in
          let same : c ≡ d = some_inj (sym old_c ∙ ap (get_slot s.slot) (sym one_place) ∙ old_d) in
          let both : 0 ≡ s.slot_size =
            sym at_low ∙ ap (λ x. s.handle_of x % (s.slot_size * 2)) same ∙ at_upper in
          absurd (omega (arith, both, size_pos v))
    ]
  ]

-- What the doubling of a full table does, where the table is not yet as large as it can get.
pub record IsGrown (s s' : HandleStorage) : Type 0 where
  pub valid : IsValid s'
  pub harbor : s'.harbor ≡ s.harbor
  pub lookups : (h : ℕ) → grab h s' ≡ grab h s
  pub free : ¬ IsFull s'
  pub from_old : (i c : ℕ) → get_slot s'.slot i ≡ some c → (j : ℕ) × (get_slot s.slot j ≡ some c)

pub grow_lem :
    {s : HandleStorage}
    → IsValid s
    → IsFull s
    → s.slot_size < handles
    → (s' : HandleStorage) × (grow s ≡ some s') × IsGrown s s'
unfolding grow
grow_lem {s} v full room =
    let (new', run, p) = rehash-IsCopied v s.slot_size 0 (omega arith) full (blank-IsCopied s) in
    let (_, _, fits) = spare_bit s.slot_size v.spare v.size room in
    (
      doubled s new',
      rw (grow, lt→ltb (s.slot_size * 2 - 1) handles (omega (arith, fits)), run) refl,
      record {
        valid = doubled-IsValid v p room;
        harbor = refl;
        lookups = grab-doubled v p full;
        free = doubled_free v p;
        from_old = λ i c e. (i % s.slot_size, (p.from_old i c e).1);
      },
    )
