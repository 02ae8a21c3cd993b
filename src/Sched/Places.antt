-- ===== src/Sched/Places.antt =====
-- How often a queue is held by the threads, and how that changes when one thread's holdings change.
use jsmj_server.Base.{ℕ, zero, suc, ◌+◌, ◌≤◌, ◌<◌, ◌≡◌, ◌≢◌, refl, List, arith}
use native.Mathlib.Decide.{dec_lt}
use jsmj_server.GlobalMq.{update}
use jsmj_server.GlobalMq.Chain.{listings}

-- among the first `n` threads
pub held : ℕ → (ℕ → List ℕ) → ℕ → ℕ
held zero hold b = 0
held (suc n) hold b = held n hold b + listings b (hold n)

held-update_of_le :
    (n t : ℕ) (hold : ℕ → List ℕ) (l : List ℕ) (b : ℕ)
    → n ≤ t
    → held n (update hold t l) b ≡ held n hold b
unfolding held
held-update_of_le zero t hold l b h = refl
held-update_of_le (suc n) t hold l b h = ground (arith, held-update_of_le n t hold l b)

pub held-update :
    (n t : ℕ) (hold : ℕ → List ℕ) (l : List ℕ) (b : ℕ)
    → t < n
    → held n (update hold t l) b + listings b (hold t) ≡ held n hold b + listings b l
unfolding held
held-update zero t hold l b h = absurd (omega arith)
held-update (suc n) t hold l b h = elim (dec_lt t n) [
  | yes p ↦ ground (arith, held-update n t hold l b p)
  | no p ↦ ground (arith, held-update_of_le n t hold l b)
]

pub listings-le-held :
    (n t : ℕ) (hold : ℕ → List ℕ) (b : ℕ) → t < n → listings b (hold t) ≤ held n hold b
unfolding held
listings-le-held zero t hold b h = absurd (omega arith)
listings-le-held (suc n) t hold b h = elim (dec_lt t n) [
  | yes p ↦ ground (arith, listings-le-held n t hold b p)
  | no p ↦ ground arith
]

-- Two threads that both hold a queue hold it twice.
pub held_twice :
    (n t u : ℕ) (hold : ℕ → List ℕ) (b : ℕ)
    → t < n
    → u < n
    → t ≢ u
    → listings b (hold t) + listings b (hold u) ≤ held n hold b
unfolding held
held_twice zero t u hold b ht hu ne = absurd (omega arith)
held_twice (suc n) t u hold b ht hu ne = elim (dec_lt t n) [
  | yes p ↦ elim (dec_lt u n) [
    | yes r ↦ ground (arith, held_twice n t u hold b p r ne)
    | no r ↦ ground (arith, listings-le-held n t hold b p)
  ]
  | no p ↦ ground (arith, listings-le-held n u hold b)
]

pub held-empty : (n b : ℕ) (hold : ℕ → List ℕ) → ((t : ℕ) → hold t ≡ List.[]) → held n hold b ≡ 0
unfolding held
held-empty zero b hold h = refl
held-empty (suc n) b hold h = ground (arith, held-empty n b hold h, h n)
