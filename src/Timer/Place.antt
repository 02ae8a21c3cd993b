-- ===== src/Timer/Place.antt =====
-- Where `add_node` puts a node, and which list `timer_shift` moves: a node that is still ahead of the time
-- stays well placed when the time moves on, unless its list is the one that is moved.
use jsmj_server.Base.{
  ℕ, ◌+◌, ◌-◌, ◌/◌, ◌%◌, ◌^◌, ◌<◌, ◌≡◌, ◌≢◌, ◌⊎◌, ◌↔◌, inl, inr, refl, true, false, none, some,
  arith, ◌==◌, if◌then◌else◌, Bool-cases, ==_iff,
}
use jsmj_server.Timer.{near, far, word, level_from, place, shifted, shifted_from}

-- the time that is left until `e`, modulo 2^32
abbrev pub remaining : ℕ → ℕ → ℕ
remaining e t = (e + word - t) % word

-- `e` is ahead of the time `t`, by less than half the range
pub record IsAhead (e t : ℕ) : Type 0 where
  pub fits : e < word
  pub time_fits : t < word
  pub later : 0 < remaining e t
  pub soon : remaining e t < 2 ^ 31

pub place_eq :
    (e t : ℕ)
    → place e t ≡ (
        if e / 2 ^ 8 == t / 2 ^ 8
        then near (e % 2 ^ 8)
        else if e / 2 ^ 14 == t / 2 ^ 14
        then far 0 (e / 2 ^ 8 % 2 ^ 6)
        else if e / 2 ^ 20 == t / 2 ^ 20
        then far 1 (e / 2 ^ 14 % 2 ^ 6)
        else if e / 2 ^ 26 == t / 2 ^ 26
        then far 2 (e / 2 ^ 20 % 2 ^ 6)
        else far 3 (e / 2 ^ 26 % 2 ^ 6))
unfolding place level_from
place_eq e t = ground arith

abbrev pub tick : ℕ → ℕ
tick t = (t + 1) % word

-- A block of times that holds `e` and `t` holds the next time too.
same_block :
    (e t : ℕ)
    → IsAhead e t
    → (e / 2 ^ 8 ≡ t / 2 ^ 8 → e / 2 ^ 8 ≡ tick t / 2 ^ 8)
      × (e / 2 ^ 14 ≡ t / 2 ^ 14 → e / 2 ^ 14 ≡ tick t / 2 ^ 14)
      × (e / 2 ^ 20 ≡ t / 2 ^ 20 → e / 2 ^ 20 ≡ tick t / 2 ^ 20)
      × (e / 2 ^ 26 ≡ t / 2 ^ 26 → e / 2 ^ 26 ≡ tick t / 2 ^ 26)
same_block e t h = (omega arith, omega arith, omega arith, omega arith)

shifted_eq :
    (c : ℕ)
    → shifted c ≡ (
        if c == 0
        then some (far 3 0)
        else if c % 2 ^ 8 == 0
        then if c / 2 ^ 8 % 2 ^ 6 == 0
          then if c % 2 ^ 14 == 0
            then if c / 2 ^ 8 / 2 ^ 6 % 2 ^ 6 == 0
              then if c % 2 ^ 20 == 0
                then if c / 2 ^ 8 / 2 ^ 6 / 2 ^ 6 % 2 ^ 6 == 0
                  then if c % 2 ^ 26 == 0
                    then if c / 2 ^ 8 / 2 ^ 6 / 2 ^ 6 / 2 ^ 6 % 2 ^ 6 == 0
                      then none
                      else some (far 3 (c / 2 ^ 8 / 2 ^ 6 / 2 ^ 6 / 2 ^ 6 % 2 ^ 6))
                    else none
                  else some (far 2 (c / 2 ^ 8 / 2 ^ 6 / 2 ^ 6 % 2 ^ 6))
                else none
              else some (far 1 (c / 2 ^ 8 / 2 ^ 6 % 2 ^ 6))
            else none
          else some (far 0 (c / 2 ^ 8 % 2 ^ 6))
        else none)
unfolding shifted shifted_from
shifted_eq c = refl

-- Apart in blocks of one size, two times are apart in smaller blocks.
finer :
    (e x : ℕ)
    → ((e / 2 ^ 14 == x / 2 ^ 14) ≡ false → (e / 2 ^ 8 == x / 2 ^ 8) ≡ false)
      × ((e / 2 ^ 20 == x / 2 ^ 20) ≡ false → (e / 2 ^ 14 == x / 2 ^ 14) ≡ false)
      × ((e / 2 ^ 26 == x / 2 ^ 26) ≡ false → (e / 2 ^ 20 == x / 2 ^ 20) ≡ false)
finer e x = (λ h. ground arith, λ h. ground arith, λ h. ground arith)

kept_block : (a b c : ℕ) → (a ≡ b → a ≡ c) → (a == b) ≡ true → (a == c) ≡ true
kept_block a b c f h = (==_iff a c).1 (f ((==_iff a b).0 h))

-- The list that `timer_shift` moves when the time enters a new block of each size.
module _ (e t : ℕ) (h : IsAhead e t) where
  enters_8 :
      e / 2 ^ 8 ≢ t / 2 ^ 8
      → e / 2 ^ 14 ≡ t / 2 ^ 14
      → e / 2 ^ 8 ≡ tick t / 2 ^ 8
      → shifted (tick t) ≡ some (far 0 (e / 2 ^ 8 % 2 ^ 6))
  enters_8 p q r = rw (shifted_eq (tick t)) (ground arith)

  enters_26 :
      e / 2 ^ 26 ≢ t / 2 ^ 26
      → e / 2 ^ 26 ≡ tick t / 2 ^ 26
      → shifted (tick t) ≡ some (far 3 (e / 2 ^ 26 % 2 ^ 6))
  enters_26 p r = rw (shifted_eq (tick t)) (ground arith)

  enters_14 :
      e / 2 ^ 14 ≢ t / 2 ^ 14
      → e / 2 ^ 20 ≡ t / 2 ^ 20
      → e / 2 ^ 14 ≡ tick t / 2 ^ 14
      → shifted (tick t) ≡ some (far 1 (e / 2 ^ 14 % 2 ^ 6))
  enters_14 p q r = rw (shifted_eq (tick t)) (ground arith)

  enters_20 :
      e / 2 ^ 20 ≢ t / 2 ^ 20
      → e / 2 ^ 26 ≡ t / 2 ^ 26
      → e / 2 ^ 20 ≡ tick t / 2 ^ 20
      → shifted (tick t) ≡ some (far 2 (e / 2 ^ 20 % 2 ^ 6))
  enters_20 p q r = rw (shifted_eq (tick t)) (ground arith)

  -- A node ahead of the time stays where `add_node` would put it when the time moves on, unless
  -- `timer_shift` moves its list.
  pub place_stays : (place e (tick t) ≡ place e t) ⊎ (shifted (tick t) ≡ some (place e t))
  place_stays =
      rw (place_eq e t, place_eq e (tick t))
        (elim (Bool-cases (e / 2 ^ 8 == t / 2 ^ 8)) [
          | inl p ↦ inl (rw (p, kept_block _ _ _ blocks.0 p))
          | inr p ↦ elim (Bool-cases (e / 2 ^ 14 == t / 2 ^ 14)) [
            | inl q ↦ elim (Bool-cases (e / 2 ^ 8 == tick t / 2 ^ 8)) [
              | inl r ↦ inr (rw (p, q) (enters_8 (ground arith) (ground arith) (ground arith)))
              | inr r ↦ inl (rw (p, q, r, kept_block _ _ _ blocks.1 q))
            ]
            | inr q ↦ elim (Bool-cases (e / 2 ^ 20 == t / 2 ^ 20)) [
              | inl u ↦ elim (Bool-cases (e / 2 ^ 14 == tick t / 2 ^ 14)) [
                | inl r ↦
                    inr (rw (p, q, u) (enters_14 (ground arith) (ground arith) (ground arith)))
                | inr r ↦ inl (rw (p, q, u, finest.0 r, r, kept_block _ _ _ blocks.2 u))
              ]
              | inr u ↦ elim (Bool-cases (e / 2 ^ 26 == t / 2 ^ 26)) [
                | inl w ↦ elim (Bool-cases (e / 2 ^ 20 == tick t / 2 ^ 20)) [
                  | inl r ↦
                      inr (rw (p, q, u, w) (enters_20 (ground arith) (ground arith) (ground arith)))
                  | inr r ↦ inl (
                      rw (
                        p,
                        q,
                        u,
                        w,
                        finest.0 (finest.1 r),
                        finest.1 r,
                        r,
                        kept_block _ _ _ blocks.3 w,
                      ))
                ]
                | inr w ↦ elim (Bool-cases (e / 2 ^ 26 == tick t / 2 ^ 26)) [
                  | inl r ↦ inr (rw (p, q, u, w) (enters_26 (ground arith) (ground arith)))
                  | inr r ↦ inl (
                      rw (
                        p,
                        q,
                        u,
                        w,
                        finest.0 (finest.1 (finest.2 r)),
                        finest.1 (finest.2 r),
                        finest.2 r,
                        r,
                      ))
                ]
              ]
            ]
          ]
        ])
    where
      blocks :
          (e / 2 ^ 8 ≡ t / 2 ^ 8 → e / 2 ^ 8 ≡ tick t / 2 ^ 8)
          × (e / 2 ^ 14 ≡ t / 2 ^ 14 → e / 2 ^ 14 ≡ tick t / 2 ^ 14)
          × (e / 2 ^ 20 ≡ t / 2 ^ 20 → e / 2 ^ 20 ≡ tick t / 2 ^ 20)
          × (e / 2 ^ 26 ≡ t / 2 ^ 26 → e / 2 ^ 26 ≡ tick t / 2 ^ 26)
      blocks = same_block e t h

      finest :
          ((e / 2 ^ 14 == tick t / 2 ^ 14) ≡ false → (e / 2 ^ 8 == tick t / 2 ^ 8) ≡ false)
          × ((e / 2 ^ 20 == tick t / 2 ^ 20) ≡ false → (e / 2 ^ 14 == tick t / 2 ^ 14) ≡ false)
          × ((e / 2 ^ 26 == tick t / 2 ^ 26) ≡ false → (e / 2 ^ 20 == tick t / 2 ^ 20) ≡ false)
      finest = finer e (tick t)

-- The list that `timer_execute` takes holds the nodes that expire now, and no others.
pub place_now : (e t : ℕ) → e < word → t < word → (place e t ≡ near (t % 2 ^ 8)) ↔ (e ≡ t)
place_now e t he ht = rw (place_eq e t) (ground arith)
