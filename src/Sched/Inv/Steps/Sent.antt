-- ===== src/Sched/Inv/Steps/Sent.antt =====
-- The steps that change a queue from outside: a message sent, and the mark for release.
use jsmj_server.Base.{
  ℕ, ◌≡◌, refl, sym, ap, subst, ◌∙◌, true, some, [], ◌∷◌, ◌++◌, arith, ◌==◌, Bool-cases, inl, inr,
  some_inj, ==_iff,
}
use jsmj_server.Mq.{Message, MessageQueue, mq_in_global, put}
use jsmj_server.Mq.Ring.{IsValid}
use jsmj_server.Mq.Refine.{put-IsValid}
use jsmj_server.Mq.Frame.{Kept, put-Kept}
use jsmj_server.GlobalMq.{Store, with_mq, globalmq_push, mq_push, mq_mark_release}
use jsmj_server.GlobalMq.Chain.{listings-append, listings_self, update_self}
use jsmj_server.GlobalMq.Laws.{body, globalmq_push-result, Listed-with_mq}
use jsmj_server.Sched.{System}
use jsmj_server.Sched.Inv.{Inv, Placed, Fine-congr, places}
use jsmj_server.Sched.Inv.Steps.Changes.{Placed-of_live, Others, changed}

module _ {n : ℕ} {s : System} (i : Inv n s) (a : ℕ) (alive : s.store.live a ≡ true) where
  pub Placed-of_alive : Placed (s.store.mq a) (places n s.hold i.listing a)
  Placed-of_alive =
      Placed-of_live (s.store.mq a) (s.store.live a) (places n s.hold i.listing a) (i.fine a) alive

  -- The queue is written, and stays where it is.
  written_at :
      (q : MessageQueue)
      → q.next ≡ (s.store.mq a).next
      → Placed q (places n s.hold i.listing a)
      → Inv n (record { store = with_mq s.store a q; hold = s.hold })
  unfolding Others
  written_at q e p =
      changed i a (with_mq s.store a q) s.hold i.listing (Listed-with_mq a q i.listed e)
        (λ b ne. (ground arith, refl, refl)) (rw (update_self s.store.mq, alive) p)

  -- The queue is written, and goes onto the global queue.
  pushed_at :
      (q : MessageQueue) {st : Store}
      → q.next ≡ (s.store.mq a).next
      → places n s.hold i.listing a ≡ 0
      → Placed q 1
      → globalmq_push a (with_mq s.store a q) ≡ some st
      → Inv n (record { store = st; hold = s.hold })
  unfolding Others
  pushed_at q {st} e off p run =
      let (l, same) =
        globalmq_push-result a (Listed-with_mq a q i.listed e) (omega (arith, off)) run in
      changed i a st s.hold (i.listing ++ a ∷ []) l
        (λ b ne. (
          same.bodies b ∙ ground arith,
          ap (λ f. f b) same.lives,
          ground (arith, listings-append b i.listing (a ∷ [])),
        ))
        (Fine-congr q (st.mq a) (st.live a) (places n s.hold (i.listing ++ a ∷ []) a)
          (same.bodies a ∙ ap body (update_self s.store.mq a q)) (rw (same.lives, alive, one) p))
    where
      one : places n s.hold (i.listing ++ a ∷ []) a ≡ 1
      one = omega (arith, off, listings-append a i.listing (a ∷ []), listings_self a [])

  pub send-Inv :
      (m : Message) {st : Store}
      → (s.store.mq a).release ≡ 0
      → mq_push a m s.store ≡ some st
      → Inv n (record { store = st; hold = s.hold })
  unfolding mq_push
  send-Inv m {st} r e = elim (Bool-cases ((put m (s.store.mq a)).in_global == 0)) [
    | inl idle ↦
        pushed_at (record (put m (s.store.mq a)) { in_global = mq_in_global }) k.next
          (omega (
            arith,
            Placed-of_alive.working r,
            flag_kept,
            (==_iff (put m (s.store.mq a)).in_global 0).0 idle,
          ))
          (record {
            ring = ring_of;
            flag = omega arith;
            working = λ _. refl;
            leaving = λ _. refl;
            waiting = λ _. refl;
          })
          (rw idle at e)
    | inr busy ↦
        subst (λ st. Inv n (record { store = st; hold = s.hold })) (some_inj (rw busy at e))
          (written_at (put m (s.store.mq a)) k.next (record {
            ring = put-IsValid m Placed-of_alive.ring;
            flag = rw flag_kept Placed-of_alive.flag;
            working = λ z. Placed-of_alive.working r ∙ sym flag_kept;
            leaving = λ z. absurd (z (k.release ∙ r));
            waiting =
                λ w. ground (arith, Placed-of_alive.working r, Placed-of_alive.flag, flag_kept);
          }))
  ]
    where
      k : Kept (s.store.mq a) (put m (s.store.mq a))
      k = (put-Kept m (s.store.mq a)).0

      flag_kept : (put m (s.store.mq a)).in_global ≡ (s.store.mq a).in_global
      flag_kept = (put-Kept m (s.store.mq a)).1

      ring_of : IsValid (record (put m (s.store.mq a)) { in_global = mq_in_global })
      ring_of =
          let v = put-IsValid m Placed-of_alive.ring in
          record {
            storage = v.storage;
            head_in = v.head_in;
            tail_in = v.tail_in;
            threshold_pos = v.threshold_pos;
          }

  pub mark-Inv :
      {st : Store}
      → mq_mark_release a s.store ≡ some st
      → Inv n (record { store = st; hold = s.hold })
  unfolding mq_mark_release
  mark-Inv {st} e = elim (Bool-cases ((s.store.mq a).release == 0)) [
    | inr twice ↦ cc (rw twice at e)
    | inl fresh ↦ elim (Bool-cases ((s.store.mq a).in_global == mq_in_global)) [
      | inl listed ↦
          subst (λ st. Inv n (record { store = st; hold = s.hold }))
            (some_inj (rw (fresh, listed) at e))
            (written_at marked refl (record {
              ring = ring_of;
              flag = Placed-of_alive.flag;
              working = λ z. cc;
              leaving = λ z. ground (arith, Placed-of_alive.working);
              waiting = λ w. ground (arith, Placed-of_alive.working);
            }))
      | inr idle ↦
          pushed_at marked refl (ground (arith, Placed-of_alive.working, Placed-of_alive.flag))
            (record {
              ring = ring_of;
              flag = Placed-of_alive.flag;
              working = λ z. cc;
              leaving = λ _. refl;
              waiting = λ _. refl;
            })
            (rw (fresh, idle) at e)
    ]
  ]
    where
      marked : MessageQueue
      marked = record (s.store.mq a) { release = 1 }

      ring_of : IsValid marked
      ring_of =
          let v = Placed-of_alive.ring in
          record {
            storage = v.storage;
            head_in = v.head_in;
            tail_in = v.tail_in;
            threshold_pos = v.threshold_pos;
          }
