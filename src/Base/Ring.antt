-- ===== src/Base/Ring.antt =====
-- Rings in arrays: the items that a ring holds in order, and how a write, an advance of the head and a copy to
-- a new array change them.
use native.Mathlib.Decide.{ℕ_discrete}
use native.Mathlib.Nat.{mod-eq_of_lt, mod-eq-sub-mod}
use Prim.Native.Nat.{ℕ, zero, suc, ◌+◌, ◌-◌, ◌%◌, ◌≤◌, ◌<◌}
use mathlib.Core.Path.{◌≡◌, refl, ap, ap₂, ◌∙◌}
use mathlib.Core.Logic.{◌≢◌}
use mathlib.Core.List.{List, [], ◌∷◌, ◌++◌}
use native.Mathlib.Omega.{arith}
use jsmj_server.Base.Tests.{leb, if◌then◌else◌}
use jsmj_server.Base.Lists.{
  length, get_or, set, replicate, length-set, length-replicate, get_or-set_self, get_or-set_ne,
}

module _ {A : Type 0} (blank : A) (buf : List A) (cap head : ℕ) where
  -- the `n` messages from the `i`-th after the head on, going round at `cap`
  abbrev pub ring_slice : ℕ → ℕ → List A
  ring_slice i zero = []
  ring_slice i (suc n) = get_or buf ((head + i) % cap) blank ∷ ring_slice (i + 1) n

  pub length-ring_slice : (i n : ℕ) → length (ring_slice i n) ≡ n
  length-ring_slice i zero = refl
  length-ring_slice i (suc n) = ap suc (length-ring_slice (i + 1) n)

  pub ring_slice_snoc :
      (i n : ℕ)
      → ring_slice i (suc n) ≡ ring_slice i n ++ get_or buf ((head + (i + n)) % cap) blank ∷ []
  ring_slice_snoc i zero = ap (λ k. get_or buf ((head + k) % cap) blank ∷ []) (omega arith)
  ring_slice_snoc i (suc n) =
      ap (λ l. get_or buf ((head + i) % cap) blank ∷ l)
        (ring_slice_snoc (i + 1) n
          ∙ ap (λ k. ring_slice (i + 1) n ++ get_or buf ((head + k) % cap) blank ∷ [])
              (omega arith))

pub wrap_index : (a cap : ℕ) → a < cap + cap → a % cap ≡ (if leb cap a then a - cap else a)
wrap_index a cap h = ground (
  arith,
  mod-eq_of_lt {n = a} {m = cap},
  mod-eq-sub-mod {n = a} {m = cap},
  mod-eq_of_lt {n = a - cap} {m = cap},
)

-- Two places less than `cap` apart are different places.
pub index_ne : (h i d cap : ℕ) → h < cap → i < d → d < cap → (h + d) % cap ≢ (h + i) % cap
index_ne h i d cap hh hi hd = ground (arith, wrap_index (h + d) cap, wrap_index (h + i) cap)

module _ {A : Type 0} (blank : A) where
  -- `new_queue[i] = q->queue[(q->head + i) % q->cap]` for the `n` indices from `i` on
  unfoldable pub copy_ring : List A → ℕ → ℕ → ℕ → ℕ → List A → List A
  copy_ring old cap head i zero new = new
  copy_ring old cap head i (suc n) new =
      copy_ring old cap head (i + 1) n (set new i (get_or old ((head + i) % cap) blank))

  -- A write at place `d` leaves the places before it.
  pub ring_slice_frame :
      (buf : List A) (cap h i n d t : ℕ) (m : A)
      → (h + d) % cap ≡ t
      → h < cap
      → i + n ≤ d
      → d < cap
      → ring_slice blank (set buf t m) cap h i n ≡ ring_slice blank buf cap h i n
  ring_slice_frame buf cap h i zero d t m e hh hd hc = refl
  ring_slice_frame buf cap h i (suc n) d t m e hh hd hc =
      ap₂ ◌∷◌ (get_or-set_ne buf m blank (rw (← e) (index_ne h i d cap hh (omega arith) hc)))
        (ring_slice_frame buf cap h (i + 1) n d t m e hh (omega arith) hc)

  pub ring_slice_shift :
      (buf : List A) (cap h i n : ℕ)
      → h < cap
      → i + n < cap
      → ring_slice blank buf cap h (i + 1) n ≡ ring_slice blank buf cap ((h + 1) % cap) i n
  ring_slice_shift buf cap h i zero hh hn = refl
  ring_slice_shift buf cap h i (suc n) hh hn =
      ap₂ ◌∷◌
        (ap (λ k. get_or buf k blank)
          (ground (
            arith,
            wrap_index (h + 1) cap,
            wrap_index (h + (i + 1)) cap,
            wrap_index ((h + 1) % cap + i) cap,
          )))
        (ring_slice_shift buf cap h (i + 1) n hh (omega arith))

  -- `expand_queue` copies the ring so that its `j`-th message stands at index `j`.
  pub copy_ring-length :
      (old : List A) (cap head i n : ℕ) (new : List A)
      → length (copy_ring old cap head i n new) ≡ length new
  unfolding copy_ring
  copy_ring-length old cap head i zero new = refl
  copy_ring-length old cap head i (suc n) new =
      copy_ring-length old cap head (i + 1) n (set new i _) ∙ length-set new i _

  copy_ring_below :
      (old : List A) (cap head i n j : ℕ) (new : List A)
      → j < i
      → get_or (copy_ring old cap head i n new) j blank ≡ get_or new j blank
  unfolding copy_ring
  copy_ring_below old cap head i zero j new h = refl
  copy_ring_below old cap head i (suc n) j new h =
      copy_ring_below old cap head (i + 1) n j (set new i _) (omega arith)
      ∙ get_or-set_ne new _ blank (omega arith)

  pub get_or-copy_ring :
      (old : List A) (cap head i n j : ℕ) (new : List A)
      → i ≤ j
      → j < i + n
      → i + n ≤ length new
      → get_or (copy_ring old cap head i n new) j blank ≡ get_or old ((head + j) % cap) blank
  unfolding copy_ring
  get_or-copy_ring old cap head i zero j new lo hi fits = absurd (omega arith)
  get_or-copy_ring old cap head i (suc n) j new lo hi fits = elim (ℕ_discrete i j) [
    | yes e ↦ rw (← e) (
        copy_ring_below old cap head (i + 1) n i (set new i _) (omega arith)
        ∙ get_or-set_self new i _ blank (omega arith))
    | no ne ↦
        get_or-copy_ring old cap head (i + 1) n j (set new i _) (omega arith) (omega arith)
          (omega (arith, length-set new i (get_or old ((head + i) % cap) blank)))
  ]

  -- The copy holds the same messages from index 0 on.
  pub ring_slice-copy_ring :
      (old : List A) (cap head size i n : ℕ)
      → i + n ≤ cap
      → cap ≤ size
      → ring_slice blank (copy_ring old cap head 0 cap (replicate size blank)) size 0 i n
        ≡ ring_slice blank old cap head i n
  ring_slice-copy_ring old cap head size i zero h larger = refl
  ring_slice-copy_ring old cap head size i (suc n) h larger =
      ap₂ ◌∷◌
        (ap (λ k. get_or (copy_ring old cap head 0 cap (replicate size blank)) k blank)
            (ground (arith, wrap_index (0 + i) size))
          ∙ get_or-copy_ring old cap head 0 cap i (replicate size blank) (omega arith) (omega arith)
              (omega (arith, length-replicate size blank)))
        (ring_slice-copy_ring old cap head size (i + 1) n (omega arith) larger)
