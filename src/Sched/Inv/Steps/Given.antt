-- ===== src/Sched/Inv/Steps/Given.antt =====
-- The release of a queue by the thread that holds it.
use jsmj_server.Base.{
  ℕ, suc, ◌<◌, ◌≡◌, sym, ap, subst, ◌∙◌, false, none, some, List, [], ◌∷◌, arith, ◌==◌,
  Option-cases, Bool-cases, inl, inr, some_inj,
}
use jsmj_server.Mq.{Message, MessageQueue, len}
use jsmj_server.GlobalMq.{
  Store, update, with_mq, globalmq_push, mq_release, drop_queue, drop_messages,
}
use jsmj_server.GlobalMq.Chain.{listings, listings_self, update_self}
use jsmj_server.GlobalMq.Laws.{Listed-with_mq}
use jsmj_server.Sched.{System}
use jsmj_server.Sched.Places.{held-update}
use jsmj_server.Sched.Inv.Steps.Moves.{off_list, launch-Inv}
use jsmj_server.Sched.Inv.{Inv}
use jsmj_server.Sched.Inv.Steps.Changes.{Others, changed}
use jsmj_server.Sched.Inv.Steps.Held.{one_place}

module _ {n : ℕ} {s : System} (i : Inv n s) (t a : ℕ) (lt : t < n) (h : s.hold t ≡ a ∷ []) where
  freed_at :
      (q : MessageQueue)
      → q.next ≡ none
      → Inv n (record {
        store = record (with_mq s.store a q) { live = update s.store.live a false };
        hold = update s.hold t [];
      })
  unfolding Others
  freed_at q e =
      let l = Listed-with_mq a q i.listed (
        e
        ∙ sym (
            i.listed.loose a
              (off_list i a lt (omega (arith, ap (listings a) h, listings_self a []))))) in
      changed i a (record (with_mq s.store a q) { live = update s.store.live a false })
        (update s.hold t []) i.listing
        (record { chain = l.chain; ends = l.ends; once = l.once; loose = l.loose })
        (λ b ne. (
          ground arith,
          ground arith,
          ground (arith, held-update n t s.hold [] b lt, ap (listings b) h),
        ))
        (rw (update_self s.store.live) (
          omega (
            arith,
            one_place i t a lt h,
            held-update n t s.hold [] a lt,
            ap (listings a) h,
            listings_self a [],
          )))

  drop_queue-Inv :
      (ms : List Message) {st : Store}
      → drop_queue a s.store ≡ some (ms, st)
      → Inv n (record { store = st; hold = update s.hold t [] })
  unfolding drop_queue
  drop_queue-Inv ms {st} e =
      let q = (drop_messages (suc (len (s.store.mq a))) (s.store.mq a)).1 in
      elim (Option-cases q.next) [
        | inl none_next ↦
            subst (λ st. Inv n (record { store = st; hold = update s.hold t [] }))
              (ap (λ (r : List Message × Store). r.1) (some_inj (rw (none_next, drop_queue) at e)))
              (freed_at q none_next)
        | inr (b, linked) ↦ cc (rw (linked, drop_queue) at e)
      ]

  pub give_up-Inv :
      (ms : List Message) {st : Store}
      → mq_release a s.store ≡ some (ms, st)
      → Inv n (record { store = st; hold = update s.hold t [] })
  unfolding mq_release
  give_up-Inv ms {st} e = elim (Bool-cases ((s.store.mq a).release == 0)) [
    | inr leaving ↦ drop_queue-Inv ms (rw leaving at e)
    | inl working ↦ elim (Option-cases (globalmq_push a s.store)) [
      | inl failed ↦ cc (rw (working, failed) at e)
      | inr (s', pushed) ↦ launch-Inv i t a lt h (
          pushed
          ∙ ap (λ (r : List Message × Store). some r.1) (some_inj (rw (working, pushed) at e)))
    ]
  ]
