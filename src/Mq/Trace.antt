-- ===== src/Mq/Trace.antt =====
-- Any sequence of pushes and pops on a message queue, against a queue that is a list; and when a
-- pop reports an overload.
use jsmj_server.Base.{
  length-ring_slice, ℕ, ◌+◌, ◌*◌, ◌≤◌, ◌<◌, ◌≡◌, suc, ◌≢◌, inl, inr, refl, ap, ◌∙◌, Option, none,
  some, List, [], ◌∷◌, ◌++◌, arith, ◌==◌, ltb, if◌then◌else◌, Bool-cases, length,
}
use jsmj_server.Mq.{
  blank, Message, MessageQueue, len, pop, put, create, next_tail, next_head, expand_queue,
  left_over,
}
use jsmj_server.Mq.Ring.{IsValid, contents}
use jsmj_server.Mq.Refine.{
  pop_lem, pop-IsValid, put_lem, put-IsValid, popped-Raised, popped, len-lt-cap, len_of_full,
  contents_of_empty, contents_of_Raised, len_of_advance,
}

pub data Op : Type 0 where
  push : Message → Op
  take : Op

-- What the calls return, in order: `none` for a push, and for a pop that finds nothing.
pub run : List Op → MessageQueue → List (Option Message)
run [] q = []
run (push m ∷ ops) q = none ∷ run ops (put m q)
run (take ∷ ops) q = (pop q).0 ∷ run ops (pop q).1

-- The same calls on a list of messages.
pub run_list : List Op → List Message → List (Option Message)
run_list [] l = []
run_list (push m ∷ ops) l = none ∷ run_list ops (l ++ m ∷ [])
run_list (take ∷ ops) [] = none ∷ run_list ops []
run_list (take ∷ ops) (m ∷ l) = some m ∷ run_list ops l

pub create-IsValid : (h : ℕ) → IsValid (create h) × (contents (create h) ≡ [])
unfolding create len
create-IsValid h = (
  record {
    storage = refl;
    head_in = omega arith;
    tail_in = omega arith;
    threshold_pos = omega arith;
  },
  refl,
)

-- Through every wrap and every expansion, any sequence of `skynet_mq_push` and `skynet_mq_pop` on a
-- valid queue returns the messages that a first-in first-out list returns.
pub run_refines :
    (ops : List Op) {q : MessageQueue} → IsValid q → run ops q ≡ run_list ops (contents q)
unfolding run run_list
run_refines [] v = refl
run_refines (push m ∷ ops) {q} v =
    ap (λ r. none ∷ r) (rw (← put_lem m v) (run_refines ops (put-IsValid m v)))
run_refines (take ∷ ops) {q} v = elim (pop_lem v) [
  | inl (was, got, is, _, _) ↦
      rw (was, got) (ap (λ r. none ∷ r) (rw (← is) (run_refines ops (pop-IsValid v))))
  | inr (m, rest, was, got, is, _) ↦
      rw (was, got) (ap (λ r. some m ∷ r) (rw (← is) (run_refines ops (pop-IsValid v))))
]

length-contents : (q : MessageQueue) → length (contents q) ≡ len q
length-contents q = length-ring_slice blank q.queue q.cap q.head 0 (len q)

len_when_space : {q : MessageQueue} → IsValid q → q.head ≢ next_tail q → suc (len q) ≢ q.cap
unfolding len next_tail
len_when_space v ne = ground arith

-- `skynet_mq_push` doubles the capacity exactly when its message is the one that fills the ring, and
-- after it there is again a free place.
pub put-cap :
    {q : MessageQueue} (m : Message)
    → IsValid q
    → ((put m q).cap ≡ (if length (contents q) + 1 == q.cap then q.cap * 2 else q.cap))
      × (length (contents (put m q)) < (put m q).cap)
unfolding put expand_queue
put-cap {q} m v = (
  ground (arith, length-contents q, len_of_full v, len_when_space v),
  omega (arith, length-contents (put m q), len-lt-cap (put-IsValid m v)),
)

-- `skynet_mq_pop`, when it returns a message, sets the overload counter to the number of messages
-- left exactly when that is above the threshold, and ends with a threshold that is at least that number.
pub pop-overload :
    {q : MessageQueue}
    → IsValid q
    → contents q ≢ []
    → let q' = (pop q).1 in
      let n = length (contents q') in
      (q'.overload ≡ (if ltb q.overload_threshold n then n else q.overload))
      × (n ≤ q'.overload_threshold)
      × (q.overload_threshold ≤ q'.overload_threshold)
unfolding pop
pop-overload {q} v ne = elim (Bool-cases (q.head == q.tail)) [
  | inl e ↦ absurd (ne (contents_of_empty q (ground arith)))
  | inr busy ↦
      let r = popped-Raised v in
      let n : length (contents (popped q)) ≡ left_over q =
        ap length (contents_of_Raised r)
        ∙ length-contents (record q { head = next_head q })
        ∙ len_of_advance q in
      rw (busy, n) (r.reports, r.covers, r.grows)
]
