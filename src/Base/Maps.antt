-- ===== src/Base/Maps.antt =====
-- Memory as a function of the address, and how often an address is on a list.
use Prim.Native.Nat.{ℕ, suc, ◌+◌}
use mathlib.Core.Path.{◌≡◌}
use mathlib.Core.Logic.{◌≢◌, ◌⊎◌, inl, inr}
use native.Mathlib.Decide.{ℕ_discrete}
use mathlib.Core.Bool.{Bool, true, false}
use mathlib.Core.List.{List, [], ◌∷◌, ◌++◌}
use native.Mathlib.Omega.{arith}
use jsmj_server.Base.Tests.{◌==◌, if◌then◌else◌}

abbrev pub update {ℓ} : {A : Type ℓ} → (ℕ → A) → ℕ → A → ℕ → A
update f a v b = if a == b then v else f b

pub update_self {ℓ} : {A : Type ℓ} (f : ℕ → A) (a : ℕ) (v : A) → update f a v a ≡ v
update_self f a v = ground arith

pub update_ne {ℓ} : {A : Type ℓ} (f : ℕ → A) {a b : ℕ} (v : A) → a ≢ b → update f a v b ≡ f b
update_ne f v h = ground arith

abbrev pub one_if : Bool → ℕ
one_if true = 1
one_if false = 0

-- how often the address `a` is on the list
abbrev pub listings : ℕ → List ℕ → ℕ
listings a [] = 0
listings a (q ∷ rest) = listings a rest + one_if (q == a)

pub listings_self : (a : ℕ) (xs : List ℕ) → listings a (a ∷ xs) ≡ suc (listings a xs)
listings_self a xs = ground arith

pub listings-append :
    (a : ℕ) (front back : List ℕ) → listings a (front ++ back) ≡ listings a front + listings a back
listings-append a [] back = omega arith
listings-append a (q ∷ rest) back = omega (arith, listings-append a rest back)

-- A value of an updated memory is the new one at the address, or an old one elsewhere.
pub update_cases {ℓ} :
    {A : Type ℓ} (f : ℕ → A) (a : ℕ) (v : A) (b : ℕ)
    → ((a ≡ b) × (update f a v b ≡ v)) ⊎ ((a ≢ b) × (update f a v b ≡ f b))
update_cases f a v b = elim (ℕ_discrete a b) [
  | yes e ↦ inl (e, ground (arith, e))
  | no ne ↦ inr (ne, update_ne f v ne)
]
