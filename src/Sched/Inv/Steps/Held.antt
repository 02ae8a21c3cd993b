-- ===== src/Sched/Inv/Steps/Held.antt =====
-- The steps of a thread that change the queue it holds, and the creation of a queue.
use jsmj_server.Base.{
  ℕ, ◌<◌, ◌≡◌, refl, sym, ap, subst, ◌∙◌, true, false, Option, none, some, [], ◌∷◌, arith, inl, inr,
}
use jsmj_server.Mq.{Message, pop, create}
use jsmj_server.Mq.Ring.{contents}
use jsmj_server.Mq.Refine.{pop_lem, pop-IsValid}
use jsmj_server.Mq.Frame.{pop-Kept}
use jsmj_server.Mq.Trace.{create-IsValid}
use jsmj_server.GlobalMq.{Store, update, with_mq, mq_create, mq_pop}
use jsmj_server.GlobalMq.Chain.{listings, listings_self, update_self}
use jsmj_server.GlobalMq.Laws.{Listed-with_mq}
use jsmj_server.Sched.{System}
use jsmj_server.Sched.Places.{held-update, listings-le-held}
use jsmj_server.Sched.Inv.{Inv, Placed, places, places-le-one}
use jsmj_server.Sched.Inv.Steps.Changes.{Placed-of, nowhere, Others, changed}

module _ {n : ℕ} {s : System} (i : Inv n s) (t a : ℕ) (lt : t < n) where
  pub create-Inv :
      (h : ℕ)
      → s.hold t ≡ []
      → s.store.live a ≡ false
      → Inv n (record { store = mq_create a h s.store; hold = update s.hold t (a ∷ []) })
  unfolding Others mq_create
  create-Inv h e dead =
      let l =
        Listed-with_mq a (create h) i.listed
          (unfold create in sym (i.listed.loose a (omega (arith, gone)))) in
      changed i a (mq_create a h s.store) (update s.hold t (a ∷ [])) i.listing
        (record { chain = l.chain; ends = l.ends; once = l.once; loose = l.loose })
        (λ b ne. (
          ground arith,
          ground arith,
          ground (arith, held-update n t s.hold (a ∷ []) b lt, ap (listings b) e),
        ))
        (rw (update_self s.store.mq, update_self s.store.live)
          (record {
            ring = (create-IsValid h).0;
            flag = unfold create in omega arith;
            working = unfold create in λ _. one;
            leaving = λ _. one;
            waiting = λ _. one;
          }))
    where
      gone : places n s.hold i.listing a ≡ 0
      gone = nowhere (s.store.mq a) (s.store.live a) (places n s.hold i.listing a) (i.fine a) dead

      one : places n (update s.hold t (a ∷ [])) i.listing a ≡ 1
      one =
          omega (
            arith,
            gone,
            held-update n t s.hold (a ∷ []) a lt,
            ap (listings a) e,
            listings_self a [],
          )

  -- the queue as it is, where the thread holds it and has its context
  module _ (h : s.hold t ≡ a ∷ []) where
    held_once : 0 < places n s.hold i.listing a
    held_once =
        omega (arith, listings-le-held n t s.hold a lt, ap (listings a) h, listings_self a [])

    here : (s.store.live a ≡ true) × Placed (s.store.mq a) (places n s.hold i.listing a)
    here =
        Placed-of (s.store.mq a) (s.store.live a) (places n s.hold i.listing a) (i.fine a) held_once

    pub one_place : places n s.hold i.listing a ≡ 1
    one_place = omega (
      arith,
      held_once,
      places-le-one (s.store.mq a) (s.store.live a) (places n s.hold i.listing a) (i.fine a),
    )

    pub deliver-Inv :
        (m : Message) {st : Store}
        → (s.store.mq a).release ≡ 0
        → mq_pop a s.store ≡ (some m, st)
        → Inv n (record { store = st; hold = s.hold })
    unfolding Others mq_pop
    deliver-Inv m {st} r e =
        let k = pop-Kept (s.store.mq a) in
        let p = here.1 in
        subst (λ st. Inv n (record { store = st; hold = s.hold })) (ap (λ r. r.1) e)
          (changed i a (with_mq s.store a (pop (s.store.mq a)).1) s.hold i.listing
            (Listed-with_mq a (pop (s.store.mq a)).1 i.listed k.next)
            (λ b ne. (ground arith, refl, refl))
            (rw (update_self s.store.mq, here.0)
              (record {
                ring = pop-IsValid p.ring;
                flag = rw same p.flag;
                working = λ z. p.working r ∙ sym same;
                leaving = λ z. one_place;
                waiting = λ _. one_place;
              })))
      where
        same : (pop (s.store.mq a)).1.in_global ≡ (s.store.mq a).in_global
        same = elim (pop_lem here.1.ring) [
          | inl (_, got, _, _, _) ↦ cc (ap (λ (r : Option Message × Store). r.0) e)
          | inr (_, _, _, _, _, kept) ↦ kept
        ]

    pub drain-Inv :
        {st : Store}
        → (s.store.mq a).release ≡ 0
        → mq_pop a s.store ≡ (none, st)
        → Inv n (record { store = st; hold = update s.hold t [] })
    unfolding Others mq_pop
    drain-Inv {st} r e =
        let k = pop-Kept (s.store.mq a) in
        subst (λ st. Inv n (record { store = st; hold = update s.hold t [] })) (ap (λ r. r.1) e)
          (changed i a (with_mq s.store a (pop (s.store.mq a)).1) (update s.hold t []) i.listing
            (Listed-with_mq a (pop (s.store.mq a)).1 i.listed k.next)
            (λ b ne. (
              ground arith,
              refl,
              ground (arith, held-update n t s.hold [] b lt, ap (listings b) h),
            ))
            (rw (update_self s.store.mq, here.0)
              (record {
                ring = pop-IsValid here.1.ring;
                flag = omega (arith, emptied.0);
                working = λ z. omega (arith, emptied.0, zero_places);
                leaving = λ z. absurd (z (k.release ∙ r));
                waiting = λ w. absurd (w emptied.1);
              })))
      where
        emptied : ((pop (s.store.mq a)).1.in_global ≡ 0) × (contents (pop (s.store.mq a)).1 ≡ [])
        emptied = elim (pop_lem here.1.ring) [
          | inl (_, _, is, flag, _) ↦ (flag, is)
          | inr (_, _, _, got, _, _) ↦ cc (ap (λ (r : Option Message × Store). r.0) e)
        ]

        zero_places : places n (update s.hold t []) i.listing a ≡ 0
        zero_places = omega (
          arith,
          one_place,
          held-update n t s.hold [] a lt,
          ap (listings a) h,
          listings_self a [],
        )
