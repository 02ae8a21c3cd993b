-- ===== src/GlobalMq/Chain.antt =====
-- The linked list of the global queue, as the list of the addresses on it.
use jsmj_server.Base.{ℕ, ◌≤◌, ◌<◌, ◌≡◌, ◌≢◌, refl, Option, none, some, List, [], ◌∷◌, ◌++◌, arith}
pub use jsmj_server.Base.{update_self, one_if, listings, listings_self, listings-append}
use jsmj_server.Mq.{MessageQueue}
use jsmj_server.GlobalMq.{Store, update}

abbrev pub last_of : List ℕ → Option ℕ
last_of [] = none
last_of (x ∷ []) = some x
last_of (x ∷ y ∷ ys) = last_of (y ∷ ys)

-- From the pointer `p`, following `next`, one meets `xs` and then NULL.
abbrev pub Chain : (ℕ → MessageQueue) → Option ℕ → List ℕ → Type 0
Chain mq p [] = p ≡ none
Chain mq p (x ∷ xs) = (p ≡ some x) × Chain mq (mq x).next xs

-- The global queue of `s` is the list `xs`: each queue is on it at most once, and one that is not on it
-- has a NULL `next`.
pub record Listed (s : Store) (xs : List ℕ) : Type 0 where
  pub chain : Chain s.mq s.first xs
  pub ends : s.last ≡ last_of xs
  pub once : (a : ℕ) → listings a xs ≤ 1
  pub loose : (a : ℕ) → listings a xs ≡ 0 → (s.mq a).next ≡ none

-- Memory that agrees on `next` has the same chains.
pub Chain-congr :
    (mq mq' : ℕ → MessageQueue) (p : Option ℕ) (xs : List ℕ)
    → ((b : ℕ) → (mq' b).next ≡ (mq b).next)
    → Chain mq p xs
    → Chain mq' p xs
Chain-congr mq mq' p [] same c = c
Chain-congr mq mq' p (x ∷ xs) same c =
    (c.0, rw (same x) (Chain-congr mq mq' (mq x).next xs same c.1))

-- So has memory that differs only at an address off the chain.
pub Chain-frame :
    (mq : ℕ → MessageQueue) (p : Option ℕ) (xs : List ℕ) (t : ℕ) (q : MessageQueue)
    → listings t xs ≡ 0
    → Chain mq p xs
    → Chain (update mq t q) p xs
Chain-frame mq p [] t q off c = c
Chain-frame mq p (x ∷ xs) t q off c =
    (c.0, rw (update_ne) (Chain-frame mq (mq x).next xs t q (ground arith) c.1))
  where
    update_ne : update mq t q x ≡ mq x
    update_ne = ground arith

pub listings-last_of : (xs : List ℕ) (t : ℕ) → last_of xs ≡ some t → 0 < listings t xs
listings-last_of [] t e = cc
listings-last_of (x ∷ []) t e = ground arith
listings-last_of (x ∷ y ∷ ys) t e = omega (arith, listings-last_of (y ∷ ys) t e)

pub last_of-append : (xs : List ℕ) (a : ℕ) → last_of (xs ++ a ∷ []) ≡ some a
last_of-append [] a = refl
last_of-append (x ∷ []) a = refl
last_of-append (x ∷ y ∷ ys) a = last_of-append (y ∷ ys) a

-- Linking `a` behind the last queue extends the chain by `a`.
pub Chain-snoc :
    (mq : ℕ → MessageQueue) (p : Option ℕ) (xs : List ℕ) (t a : ℕ)
    → last_of xs ≡ some t
    → ((b : ℕ) → listings b xs ≤ 1)
    → listings a xs ≡ 0
    → (mq a).next ≡ none
    → Chain mq p xs
    → Chain (update mq t (record (mq t) { next = some a })) p (xs ++ a ∷ [])
Chain-snoc mq p [] t a l once off loose c = cc
Chain-snoc mq p (x ∷ []) t a l once off loose c = (c.0, (ground arith, ground arith))
Chain-snoc mq p (x ∷ y ∷ ys) t a l once off loose c = (
  c.0,
  rw kept (
      Chain-snoc mq (mq x).next (y ∷ ys) t a l (λ b. omega (arith, once b)) (ground arith) loose
        c.1),
)
  where
    kept : update mq t (record (mq t) { next = some a }) x ≡ mq x
    kept = ground (arith, once x, listings-last_of (y ∷ ys) t l)

pub last_of_cons : (x : ℕ) (xs : List ℕ) → last_of (x ∷ xs) ≢ none
last_of_cons x [] = λ e. cc
last_of_cons x (y ∷ ys) = last_of_cons y ys
