-- ===== src/Mq/Frame.antt =====
-- The fields of a message queue that a push and a pop leave alone.
use jsmj_server.Base.{ℕ, zero, suc, ◌*◌, ◌≡◌, refl, arith, Bool-cases, inl, inr, ltb, ◌==◌}
use jsmj_server.Mq.{Message, MessageQueue, raise_threshold, pop, put, expand_queue, next_head}

-- the fields that only other operations change
pub record Kept (q q' : MessageQueue) : Type 0 where
  pub next : q'.next ≡ q.next
  pub release : q'.release ≡ q.release
  pub handle : q'.handle ≡ q.handle

raise_threshold-Kept : (fuel l : ℕ) (q : MessageQueue) → Kept q (raise_threshold fuel l q)
unfolding raise_threshold
raise_threshold-Kept zero l q = record { next = refl; release = refl; handle = refl }
raise_threshold-Kept (suc fuel) l q = elim (Bool-cases (ltb q.overload_threshold l)) [
  | inl e ↦
      let r =
        raise_threshold-Kept fuel l
          (record q { overload = l; overload_threshold = q.overload_threshold * 2 }) in
      rw e (record { next = r.next; release = r.release; handle = r.handle })
  | inr e ↦ rw e (record { next = refl; release = refl; handle = refl })
]

pub pop-Kept : (q : MessageQueue) → Kept q (pop q).1
unfolding pop
pop-Kept q = elim (Bool-cases (q.head == q.tail)) [
  | inl e ↦ rw e (record { next = refl; release = refl; handle = refl })
  | inr e ↦
      let r = raise_threshold-Kept _ _ (record q { head = next_head q }) in
      rw e (record { next = r.next; release = r.release; handle = r.handle })
]

pub put-Kept :
    (m : Message) (q : MessageQueue) → Kept q (put m q) × ((put m q).in_global ≡ q.in_global)
unfolding put expand_queue
put-Kept m q =
    (record { next = ground arith; release = ground arith; handle = ground arith }, ground arith)
