-- ===== src/GlobalMq/Laws.antt =====
-- What the operations on the global queue do to the list of queues on it.
use jsmj_server.Base.{
  ℕ, ◌≡◌, refl, sym, ap, subst, ◌∙◌, Option, none, some, List, [], ◌∷◌, ◌++◌, arith, Option-cases,
  inl, inr, some_inj,
}
use jsmj_server.Mq.{MessageQueue}
use jsmj_server.GlobalMq.{Store, update, mq_init, globalmq_push, globalmq_pop, with_mq}
use jsmj_server.GlobalMq.Chain.{
  Listed, listings, listings-append, last_of, last_of-append, listings-last_of, last_of_cons,
  Chain-snoc, Chain-frame, Chain-congr,
}

-- a queue without its place in the global queue
abbrev pub body : MessageQueue → MessageQueue
body q = record q { next = none }

-- Only `next` fields and the ends of the list differ.
pub record Same (s s' : Store) : Type 0 where
  pub bodies : (b : ℕ) → body (s'.mq b) ≡ body (s.mq b)
  pub lives : s'.live ≡ s.live

pub mq_init-Listed : Listed mq_init []
unfolding mq_init
mq_init-Listed = record { chain = refl; ends = refl; once = λ a. omega arith; loose = λ a _. refl }

-- `skynet_globalmq_push` of a queue that is not on the list succeeds, and puts it at the end.
pub globalmq_push_lem :
    {s : Store} {xs : List ℕ} (a : ℕ)
    → Listed s xs
    → listings a xs ≡ 0
    → (s' : Store) × (globalmq_push a s ≡ some s') × Listed s' (xs ++ a ∷ []) × Same s s'
unfolding globalmq_push
globalmq_push_lem {s} {xs = []} a l off = (
  record s { first = some a; last = some a },
  ground (arith, l.loose a off, l.ends),
  record {
    chain = (refl, l.loose a off);
    ends = refl;
    once = λ b. ground arith;
    loose = λ b h. l.loose b refl;
  },
  record { bodies = λ b. refl; lives = refl },
)
globalmq_push_lem {s} {xs = x ∷ xs} a l off = elim (Option-cases (last_of (x ∷ xs))) [
  | inl e ↦ absurd (last_of_cons x xs e)
  | inr (t, e) ↦
      let s' = record s { mq = update s.mq t (record (s.mq t) { next = some a }); last = some a } in
      (
        s',
        ground (arith, l.loose a off, l.ends, e),
        record {
          chain = Chain-snoc s.mq s.first (x ∷ xs) t a e l.once off (l.loose a off) l.chain;
          ends = sym (last_of-append (x ∷ xs) a);
          once = λ b. ground (arith, listings-append b (x ∷ xs) (a ∷ []), l.once b, off);
          loose = λ b h. ground (
            arith,
            listings-append b (x ∷ xs) (a ∷ []),
            l.loose b,
            listings-last_of (x ∷ xs) t e,
          );
        },
        record { bodies = λ b. ground arith; lives = refl },
      )
]

-- `skynet_globalmq_pop` never fails its assertion: it returns NULL for an empty list and leaves it, and
-- otherwise returns the queue at the front and leaves the rest.
pub globalmq_pop_empty : {s : Store} → Listed s [] → globalmq_pop s ≡ some (none, s)
unfolding globalmq_pop
globalmq_pop_empty l = rw l.chain

pub globalmq_pop_lem :
    {s : Store} {x : ℕ} {xs : List ℕ}
    → Listed s (x ∷ xs)
    → (s' : Store) × (globalmq_pop s ≡ some (some x, s')) × Listed s' xs × Same s s'
unfolding globalmq_pop
globalmq_pop_lem {s} {x} {xs = []} l = (
  record s { first = none; last = none; mq = update s.mq x (record (s.mq x) { next = none }) },
  rw (l.chain.0, l.chain.1, l.ends) (ground arith),
  record {
    chain = refl;
    ends = refl;
    once = λ b. omega arith;
    loose = λ b _. ground (arith, l.loose b);
  },
  record { bodies = λ b. ground arith; lives = refl },
)
globalmq_pop_lem {s} {x} {xs = y ∷ ys} l = (
  record s { first = some y; mq = update s.mq x (record (s.mq x) { next = none }) },
  ground (arith, l.chain.0, l.chain.1.0),
  record {
    chain =
        Chain-frame s.mq (some y) (y ∷ ys) x (record (s.mq x) { next = none })
          (ground (arith, l.once x)) (refl, l.chain.1.1);
    ends = l.ends;
    once = λ b. omega (arith, l.once b);
    loose = λ b h. ground (arith, l.loose b);
  },
  record { bodies = λ b. ground arith; lives = refl },
)

-- The same, for a call whose result is at hand.
pub globalmq_push-result :
    {s st : Store} {xs : List ℕ} (a : ℕ)
    → Listed s xs
    → listings a xs ≡ 0
    → globalmq_push a s ≡ some st
    → Listed st (xs ++ a ∷ []) × Same s st
globalmq_push-result {s} {xs = xs} a l off e =
    let (s', e', l', same) = globalmq_push_lem a l off in
    subst (λ r. Listed r (xs ++ a ∷ []) × Same s r) (some_inj (sym e' ∙ e)) (l', same)

pub globalmq_pop-result :
    {s st : Store} (xs : List ℕ) (a : ℕ)
    → Listed s xs
    → globalmq_pop s ≡ some (some a, st)
    → (ys : List ℕ) × (xs ≡ a ∷ ys) × Listed st ys × Same s st
globalmq_pop-result [] a l e = cc (globalmq_pop_empty l)
globalmq_pop-result {s} {st} (x ∷ xs) a l e =
    let (s', e', l', same) = globalmq_pop_lem l in
    let both : ◌≡◌ {A = Option ℕ × Store} (some x, s') (some a, st) = some_inj (sym e' ∙ e) in
    (
      xs,
      ap (λ b. b ∷ xs) (some_inj (ap (λ r. r.0) both)),
      subst (λ r. Listed r xs) (ap (λ r. r.1) both) l',
      subst (λ r. Same s r) (ap (λ r. r.1) both) same,
    )

-- Memory written anywhere but in a `next` field has the same list.
pub Listed-with_mq :
    {s : Store} {xs : List ℕ} (a : ℕ) (q : MessageQueue)
    → Listed s xs
    → q.next ≡ (s.mq a).next
    → Listed (with_mq s a q) xs
Listed-with_mq {s} {xs} a q l e = record {
  chain = Chain-congr s.mq (update s.mq a q) s.first xs same l.chain;
  ends = l.ends;
  once = l.once;
  loose = λ b h. same b ∙ l.loose b h;
}
  where
    same : (b : ℕ) → (update s.mq a q b).next ≡ (s.mq b).next
    same b = ground arith
