-- ===== src/Handle/Table.antt =====
-- The invariant of the table of contexts, and the scan for a free slot.
pub mod Grow
pub mod Register
pub mod Retire
use native.Mathlib.Nat.{
  mod-lt, mod-mod_of_dvd, dvd_of_mod-eq-zero, mul-mod_right, mod-eq_of_lt, mod-add-mod,
  add-mul-mod_self_left, div-add-mod,
}
use jsmj_server.Base.{
  remainder_reached, ℕ, zero, suc, ◌+◌, ◌-◌, ◌*◌, ◌/◌, ◌^◌, ◌%◌, ◌≤◌, ◌<◌, ◌≡◌, ◌≢◌, refl, ap, sym,
  subst, ◌∙◌, Option, none, some, some_inj, Option-cases, Bool-cases, inl, inr, List, ltb, leb,
  ◌==◌, if◌then◌else◌, get_or, set, replicate, length, arith,
}
use jsmj_server.Handle.{HandleStorage, handles, get_slot, scan}

pub record IsValid (s : HandleStorage) : Type 0 where
  pub spare : ℕ
  pub size : s.slot_size * 2 ^ spare ≡ handles
  pub len : length s.slot ≡ s.slot_size
  pub high : s.harbor % handles ≡ 0
  pub placed : (i c : ℕ) → get_slot s.slot i ≡ some c → s.handle_of c % s.slot_size ≡ i

abbrev pub IsFull : HandleStorage → Type 0
IsFull s = (i : ℕ) → i < s.slot_size → get_slot s.slot i ≢ none

pub mod-mod_mul : (a c k : ℕ) → a % (c * k) % c ≡ a % c
mod-mod_mul a c k =
    mod-mod_of_dvd c {b = c * k} a (dvd_of_mod-eq-zero c {n = c * k} (mul-mod_right c k))

module _ {s : HandleStorage} (v : IsValid s) where
  pub size_pos : 0 < s.slot_size
  size_pos = elim (Bool-cases (s.slot_size == 0)) [
    | inl zero_size ↦
        let none_left : s.slot_size ≡ 0 = ground arith in
        absurd (omega (arith, sym (ap (λ n. n * 2 ^ v.spare) none_left) ∙ v.size))
    | inr positive ↦ ground arith
  ]

  pub low_bits : (a : ℕ) → a % handles % s.slot_size ≡ a % s.slot_size
  low_bits a = ap (λ n. a % n % s.slot_size) (sym v.size) ∙ mod-mod_mul a s.slot_size (2 ^ v.spare)

  -- The bits of the harbor do not change the place of a handle.
  pub place-harbor : (h : ℕ) → (h + s.harbor) % s.slot_size ≡ h % s.slot_size
  place-harbor h =
      let same : (h + s.harbor) % handles ≡ h % handles = omega (arith, v.high) in
      sym (low_bits (h + s.harbor)) ∙ ap (λ n. n % s.slot_size) same ∙ low_bits h

  -- every slot is the place of a handle that the scan tries
  pub reached :
      (i : ℕ)
      → i < s.slot_size
      → (m : ℕ) × (m < s.slot_size) × ((m + s.handle_index) % handles % s.slot_size ≡ i)
  reached i h =
      let (m, below, here) = remainder_reached s.slot_size s.handle_index i h in
      (m, below, low_bits (m + s.handle_index) ∙ here)

pub scan-some :
    (n i : ℕ) (s : HandleStorage) {h : ℕ}
    → scan n i s ≡ some h
    → (h < handles) × (get_slot s.slot (h % s.slot_size) ≡ none)
unfolding scan
scan-some zero i s e = absurd cc
scan-some (suc n) i s {h} e =
    elim (Option-cases (get_slot s.slot ((i + s.handle_index) % handles % s.slot_size))) [
      | inl free ↦
          let found : (i + s.handle_index) % handles ≡ h = some_inj (rw (scan, free) at e) in
          rw (← found) (omega arith, free)
      | inr (c, taken) ↦ scan-some n (i + 1) s (rw (scan, taken) at e)
    ]

scan-none :
    (n i : ℕ) (s : HandleStorage)
    → scan n i s ≡ none
    → (m : ℕ) → m < n
    → get_slot s.slot ((i + m + s.handle_index) % handles % s.slot_size) ≢ none
unfolding scan
scan-none zero i s e m h = absurd (omega arith)
scan-none (suc n) i s e m h =
    elim (Option-cases (get_slot s.slot ((i + s.handle_index) % handles % s.slot_size))) [
      | inl free ↦ absurd cc
      | inr (c, taken) ↦ elim (Bool-cases (m == 0)) [
        | inl first ↦
            let here : i + m + s.handle_index ≡ i + s.handle_index = ground arith in
            λ free.
              some_ne_none (
                sym taken ∙ ap (λ n. get_slot s.slot (n % handles % s.slot_size)) (sym here) ∙ free)
        | inr later ↦
            let there : i + 1 + (m - 1) + s.handle_index ≡ i + m + s.handle_index = ground arith in
            λ free.
              scan-none n (i + 1) s (rw (scan, taken) at e) (m - 1) (ground arith)
                (ap (λ n. get_slot s.slot (n % handles % s.slot_size)) there ∙ free)
      ]
    ]
  where
    some_ne_none : {c : ℕ} → some c ≢ none
    some_ne_none p = absurd cc

pub scan-IsFull : {s : HandleStorage} → IsValid s → scan s.slot_size 0 s ≡ none → IsFull s
scan-IsFull {s} v e i h =
    let (m, below, here) = reached v i h in
    λ free. scan-none s.slot_size 0 s e m below (
      ap (get_slot s.slot) (ap (λ n. (n + s.handle_index) % handles % s.slot_size) zero_plus ∙ here)
      ∙ free)
  where
    zero_plus : {m : ℕ} → 0 + m ≡ m
    zero_plus = omega arith
