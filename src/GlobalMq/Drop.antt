-- ===== src/GlobalMq/Drop.antt =====
-- `_drop_queue`: the messages that a freed queue hands to `drop_func`.
use jsmj_server.Base.{
  length-ring_slice, ℕ, zero, suc, ◌<◌, ◌≡◌, refl, ap, sym, ◌∙◌, [], ◌∷◌, arith, inl, inr,
  Option-cases, length,
}
use jsmj_server.Mq.{blank, MessageQueue, len, pop}
use jsmj_server.Mq.Ring.{IsValid, contents}
use jsmj_server.Mq.Refine.{pop_lem, pop-IsValid}
use jsmj_server.Mq.Frame.{pop-Kept}
use jsmj_server.GlobalMq.{drop_messages}

-- With fuel above the number of messages, all messages of the queue are dropped, oldest first, and none is left.
drop_messages-contents :
    (fuel : ℕ) {q : MessageQueue}
    → IsValid q
    → length (contents q) < fuel
    → ((drop_messages fuel q).0 ≡ contents q) × (contents (drop_messages fuel q).1 ≡ [])
unfolding drop_messages
drop_messages-contents zero v h = absurd (omega arith)
drop_messages-contents (suc fuel) {q} v h = elim (pop_lem v) [
  | inl (was, got, is, _, _) ↦ rw (got, drop_messages) (sym was, is)
  | inr (m, rest, was, got, is, _) ↦
      let (all, empty) =
        drop_messages-contents fuel (pop-IsValid v) (omega (arith, ap length was, ap length is)) in
      rw (got, drop_messages) (ap (λ l. m ∷ l) (all ∙ is) ∙ sym was, empty)
]

-- `_drop_queue` on a valid queue hands every message of the queue to `drop_func`, oldest first, and ends
-- with the queue empty: as many rounds as it holds messages, and one more, are enough.
pub drop_messages_lem :
    {q : MessageQueue}
    → IsValid q
    → let (ms, q') = drop_messages (suc (len q)) q in (ms ≡ contents q) × (contents q' ≡ [])
drop_messages_lem {q} v =
    drop_messages-contents (suc (len q)) v
      (omega (arith, length-ring_slice blank q.queue q.cap q.head 0 (len q)))

pub drop_messages-next : (fuel : ℕ) (q : MessageQueue) → (drop_messages fuel q).1.next ≡ q.next
unfolding drop_messages
drop_messages-next zero q = refl
drop_messages-next (suc fuel) q = elim (Option-cases (pop q).0) [
  | inl e ↦ rw (e, drop_messages) (pop-Kept q).next
  | inr (m, e) ↦ rw (e, drop_messages) (drop_messages-next fuel (pop q).1 ∙ (pop-Kept q).next)
]
