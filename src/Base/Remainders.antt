-- ===== src/Base/Remainders.antt =====
-- Remainders by a variable.
use native.Mathlib.Nat.{mod-lt, mod-eq_of_lt, mod-add-mod, add-mul-mod_self_left, div-add-mod}
use Prim.Native.Nat.{ℕ, ◌+◌, ◌-◌, ◌*◌, ◌/◌, ◌%◌, ◌<◌}
use mathlib.Core.Path.{◌≡◌, ap, ◌∙◌}
use native.Mathlib.Omega.{arith}

-- From any start, `size` steps reach every remainder.
pub remainder_reached :
    (size start i : ℕ) → i < size → (m : ℕ) × (m < size) × ((m + start) % size ≡ i)
remainder_reached size start i h =
    let r = start % size in
    let q = start / size in
    let below : r < size = mod-lt start (omega arith) in
    let split : size * q + r ≡ start = div-add-mod start size in
    let whole : i + size - r + start ≡ i + size * (q + 1) = omega (arith, below, split) in
    (
      (i + size - r) % size,
      mod-lt (i + size - r) (omega arith),
      mod-add-mod (i + size - r) size start
          ∙ ap (λ n. n % size) whole
          ∙ add-mul-mod_self_left i size (q + 1)
          ∙ mod-eq_of_lt h,
    )
