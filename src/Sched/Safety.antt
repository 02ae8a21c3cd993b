-- ===== src/Sched/Safety.antt =====
-- What holds in every state that the threads can reach.
use native.Mathlib.Decide.{ℕ_discrete}
use jsmj_server.Base.{
  ◌↔◌, ◌∙◌, sym, none, some, ℕ, suc, ◌+◌, ◌≤◌, ◌<◌, ◌≡◌, ◌≢◌, ◌⊎◌, refl, sym, ap, ◌∙◌, true, false,
  Option, none, some, List, [], ◌∷◌, arith, ◌==◌, Bool-cases, inl, inr, some_inj, ==_iff,
}
use jsmj_server.Mq.{Message, MessageQueue, mq_in_global, put, len}
use jsmj_server.Mq.Ring.{contents}
use jsmj_server.Mq.Frame.{Kept, put-Kept}
use jsmj_server.GlobalMq.{
  Store, update, with_mq, mq_init, globalmq_push, globalmq_pop, mq_push, mq_mark_release,
  mq_release, drop_queue, drop_messages,
}
use jsmj_server.GlobalMq.Chain.{Chain, Listed, listings, listings_self}
use jsmj_server.GlobalMq.Laws.{
  mq_init-Listed, globalmq_push_lem, globalmq_pop_empty, globalmq_pop_lem, Listed-with_mq,
}
use jsmj_server.GlobalMq.Drop.{drop_messages-next}
use jsmj_server.Sched.{System, Reach, start, later}
use jsmj_server.Sched.Places.{held, held-empty, held_twice}
use jsmj_server.Sched.Inv.{Inv, places, places-le-one}
use jsmj_server.Sched.Inv.Steps.{Step-Inv}
use jsmj_server.Sched.Inv.Steps.Sent.{Placed-of_alive}
use jsmj_server.Sched.Inv.Steps.Moves.{off_list}

-- The state after `skynet_mq_init`: no queue is allocated.
abbrev pub boot : System
boot = record { store = mq_init; hold = λ _. [] }

boot-Inv : (n : ℕ) → Inv n boot
boot-Inv n = record {
  listing = [];
  listed = mq_init-Listed;
  fine = λ b. unfold mq_init in (omega (arith, held-empty n b (λ _. []) (λ _. refl)));
}

pub Reach-Inv : {n : ℕ} {s : System} → Reach n boot s → Inv n s
Reach-Inv {n} start = boot-Inv n
Reach-Inv (later r st) = Step-Inv st (Reach-Inv r)

Chain-unique :
    (mq : ℕ → MessageQueue) (p : Option ℕ) (xs ys : List ℕ)
    → Chain mq p xs
    → Chain mq p ys
    → xs ≡ ys
Chain-unique mq p [] [] c d = refl
Chain-unique mq p [] (y ∷ ys) c d = cc
Chain-unique mq p (x ∷ xs) [] c d = cc
Chain-unique mq p (x ∷ xs) (y ∷ ys) c d =
    let e : x ≡ y = some_inj (sym c.0 ∙ d.0) in
    rw e (ap (λ l. y ∷ l) (Chain-unique mq (mq y).next xs ys (rw e at c.1) d.1))

module _ {n : ℕ} {s : System} (r : Reach n boot s) where
  -- In every state that `n` threads reach from an empty global queue, `first`, the `next` of the queues and `last` form
  -- a list, there is only one such list, and a message queue stands on it or with a thread at most once in all: no two threads
  -- hold it, and none holds one that is queued.
  pub one_owner :
      (xs : List ℕ) × Listed s.store xs
      × ((ys : List ℕ) → Listed s.store ys → ys ≡ xs)
      × ((b : ℕ) → listings b xs + held n s.hold b ≤ 1)
  one_owner =
      let i = Reach-Inv r in
      (
        i.listing,
        i.listed,
        λ ys l. Chain-unique s.store.mq s.store.first ys i.listing l.chain i.listed.chain,
        λ b. places-le-one (s.store.mq b) (s.store.live b) (places n s.hold i.listing b) (i.fine b),
      )

  -- In every reachable state, two threads that hold the same message queue are the same thread.
  pub exclusive :
      (t u b : ℕ) → t < n → u < n → 0 < listings b (s.hold t) → 0 < listings b (s.hold u) → t ≡ u
  exclusive t u b lt lu ht hu = elim (ℕ_discrete t u) [
    | yes e ↦ e
    | no ne ↦
        let i = Reach-Inv r in
        absurd (
          omega (
            arith,
            held_twice n t u s.hold b lt lu ne,
            places-le-one (s.store.mq b) (s.store.live b) (places n s.hold i.listing b) (i.fine b),
          ))
  ]

  -- No wakeup is lost: in every reachable state the global queue is a list, and a queue that is allocated and has a message
  -- stands exactly once on it or with a thread; and so does a queue that is marked for release.
  pub no_lost_wakeup :
      (xs : List ℕ) × Listed s.store xs
      × ((b : ℕ)
          → s.store.live b ≡ true
          → (contents (s.store.mq b) ≢ []) ⊎ ((s.store.mq b).release ≢ 0)
          → listings b xs + held n s.hold b ≡ 1)
  no_lost_wakeup = ((Reach-Inv r).listing, (Reach-Inv r).listed, stands)
    where
      stands :
          (b : ℕ)
          → s.store.live b ≡ true
          → (contents (s.store.mq b) ≢ []) ⊎ ((s.store.mq b).release ≢ 0)
          → places n s.hold (Reach-Inv r).listing b ≡ 1
      stands b alive (inl busy) = (Placed-of_alive (Reach-Inv r) b alive).waiting busy
      stands b alive (inr gone) = (Placed-of_alive (Reach-Inv r) b alive).leaving gone

  send_succeeds :
      (a : ℕ) (m : Message)
      → s.store.live a ≡ true
      → (s.store.mq a).release ≡ 0
      → (st : Store) × (mq_push a m s.store ≡ some st)
  unfolding mq_push
  send_succeeds a m alive unmarked = elim (Bool-cases (q.in_global == 0)) [
    | inr busy ↦ (with_mq s.store a q, rw busy)
    | inl idle ↦
        let i = Reach-Inv r in
        let l = Listed-with_mq a (record q { in_global = mq_in_global }) i.listed k.0.next in
        let (st, e, _, _) = globalmq_push_lem a l (
          omega (
            arith,
            (Placed-of_alive i a alive).working unmarked,
            k.1,
            (==_iff q.in_global 0).0 idle,
          )) in
        (st, rw idle e)
  ]
    where
      q : MessageQueue
      q = put m (s.store.mq a)

      k : Kept (s.store.mq a) q × (q.in_global ≡ (s.store.mq a).in_global)
      k = put-Kept m (s.store.mq a)

  pop_succeeds : (st : Option ℕ × Store) × (globalmq_pop s.store ≡ some st)
  pop_succeeds = go (Reach-Inv r).listing (Reach-Inv r).listed
    where
      go :
          (xs : List ℕ)
          → Listed s.store xs
          → (st : Option ℕ × Store) × (globalmq_pop s.store ≡ some st)
      go [] l = ((none, s.store), globalmq_pop_empty l)
      go (x ∷ xs) l = let (st, e, _, _) = globalmq_pop_lem l in ((some x, st), e)

  give_back_succeeds :
      (t a : ℕ)
      → t < n
      → 0 < listings a (s.hold t)
      → (st : Store) × (globalmq_push a s.store ≡ some st)
  give_back_succeeds t a lt h =
      let i = Reach-Inv r in
      let (st, e, _, _) = globalmq_push_lem a i.listed (off_list i a lt h) in (st, e)

  mark_succeeds :
      (a : ℕ)
      → s.store.live a ≡ true
      → (s.store.mq a).release ≡ 0
      → (st : Store) × (mq_mark_release a s.store ≡ some st)
  unfolding mq_mark_release
  mark_succeeds a alive unmarked = elim (Bool-cases ((s.store.mq a).in_global == mq_in_global)) [
    | inl busy ↦ (with_mq s.store a (record (s.store.mq a) { release = 1 }), rw (fresh, busy))
    | inr idle ↦
        let i = Reach-Inv r in
        let p = Placed-of_alive i a alive in
        let l = Listed-with_mq a (record (s.store.mq a) { release = 1 }) i.listed refl in
        let (st, e, _, _) = globalmq_push_lem a l (ground (arith, p.working, p.flag)) in
        (st, rw (fresh, idle) e)
  ]
    where
      fresh : (s.store.mq a).release == 0 ≡ true
      fresh = (==_iff (s.store.mq a).release 0).1 unmarked

  mark_fails_iff :
      (a : ℕ)
      → s.store.live a ≡ true
      → (mq_mark_release a s.store ≡ none) ↔ ((s.store.mq a).release ≢ 0)
  unfolding mq_mark_release
  mark_fails_iff a alive = (
    λ failed unmarked.
        let done = mark_succeeds a alive unmarked in
        let q : none ≡ some done.0 = sym failed ∙ done.1 in absurd (cc q),
    λ marked.
        let set_before : ((s.store.mq a).release == 0) ≡ false = ground (arith, marked) in
        rw set_before refl,
  )

  give_up_succeeds :
      (t a : ℕ)
      → t < n
      → s.hold t ≡ a ∷ []
      → (st : List Message × Store) × (mq_release a s.store ≡ some st)
  unfolding mq_release drop_queue
  give_up_succeeds t a lt h = elim (Bool-cases ((s.store.mq a).release == 0)) [
    | inl working ↦ let (st, e) = give_back_succeeds t a lt mine in (([], st), rw (working, e))
    | inr leaving ↦ (
      (
        (drop_messages (suc (len (s.store.mq a))) (s.store.mq a)).0,
        record (with_mq s.store a (drop_messages (suc (len (s.store.mq a))) (s.store.mq a)).1) {
          live = update s.store.live a false;
        },
      ),
      rw leaving (rw (unlinked, drop_queue)),
    )
  ]
    where
      mine : 0 < listings a (s.hold t)
      mine = omega (arith, ap (listings a) h, listings_self a [])

      unlinked : (drop_messages (suc (len (s.store.mq a))) (s.store.mq a)).1.next ≡ none
      unlinked =
          drop_messages-next (suc (len (s.store.mq a))) (s.store.mq a)
          ∙ (Reach-Inv r).listed.loose a (off_list (Reach-Inv r) a lt mine)

  -- In a reachable state no assertion of skynet_mq.c fails in taking a queue off the global queue, in putting back one that a
  -- thread holds, in pushing a message to a queue that is allocated and not marked, and in releasing the queue that a thread
  -- holds alone; marking a queue that is allocated fails exactly when it was marked before.
  pub no_assertion_fails :
      ((st : Option ℕ × Store) × (globalmq_pop s.store ≡ some st))
      × ((t a : ℕ)
          → t < n
          → 0 < listings a (s.hold t)
          → (st : Store) × (globalmq_push a s.store ≡ some st))
      × ((a : ℕ) (m : Message)
          → s.store.live a ≡ true
          → (s.store.mq a).release ≡ 0
          → (st : Store) × (mq_push a m s.store ≡ some st))
      × ((a : ℕ)
          → s.store.live a ≡ true
          → (mq_mark_release a s.store ≡ none) ↔ ((s.store.mq a).release ≢ 0))
      × ((t a : ℕ)
          → t < n
          → s.hold t ≡ a ∷ []
          → (st : List Message × Store) × (mq_release a s.store ≡ some st))
  no_assertion_fails =
      (pop_succeeds, give_back_succeeds, send_succeeds, mark_fails_iff, give_up_succeeds)
