-- ===== src/Mq/Refine.antt =====
-- A valid ring behaves as the queue of the messages that it holds, through every expansion.
use native.Mathlib.Nat.{zero-add}
use jsmj_server.Base.{
  ring_slice, ring_slice_snoc, ring_slice_frame, ring_slice_shift, wrap_index, copy_ring-length,
  ring_slice-copy_ring, ℕ, zero, suc, ◌+◌, ◌*◌, ◌%◌, ◌≤◌, ◌<◌, ◌≡◌, ◌≢◌, ◌⊎◌, refl, ap, ap₂, ◌∙◌,
  sym, none, some, List, [], ◌∷◌, ◌++◌, arith, get_or, set, replicate, length-set, length-replicate,
  get_or-set_self, ltb, ◌==◌, if◌then◌else◌, Bool-cases, inl, inr,
}
use jsmj_server.Mq.{
  Message, MessageQueue, blank, len, next_head, next_tail, left_over, raise_threshold, pop, put,
  expand_queue, mq_overload,
}
use jsmj_server.Mq.Ring.{IsValid, contents}

-- The loop of `skynet_mq_pop` changes only the two overload fields, and ends with the length at
-- most the threshold.
pub record Raised (l : ℕ) (q q' : MessageQueue) : Type 0 where
  pub same : q' ≡ record q { overload = q'.overload; overload_threshold = q'.overload_threshold }
  pub covers : l ≤ q'.overload_threshold
  pub grows : q.overload_threshold ≤ q'.overload_threshold
  pub reports : q'.overload ≡ (if ltb q.overload_threshold l then l else q.overload)

pub raise_threshold-Raised :
    (fuel l : ℕ) (q : MessageQueue)
    → 0 < q.overload_threshold
    → l < q.overload_threshold + fuel
    → Raised l q (raise_threshold fuel l q)
unfolding raise_threshold
raise_threshold-Raised zero l q pos h = record {
  same = refl;
  covers = omega arith;
  grows = omega arith;
  reports = ground arith;
}
raise_threshold-Raised (suc fuel) l q pos h = elim (Bool-cases (ltb q.overload_threshold l)) [
  | inr done ↦
      rw done
        (record { same = refl; covers = ground arith; grows = omega arith; reports = rw done })
  | inl more ↦
      let r =
        raise_threshold-Raised fuel l
          (record q { overload = l; overload_threshold = q.overload_threshold * 2 }) (omega arith)
          (ground arith) in
      rw more (record {
        same = r.same;
        covers = r.covers;
        grows = omega (arith, r.grows);
        reports = ground (arith, r.reports);
      })
]

pub len-lt-cap : {q : MessageQueue} → IsValid q → len q < q.cap
unfolding len
len-lt-cap v = ground arith

next_head-mod : {q : MessageQueue} → IsValid q → next_head q ≡ (q.head + 1) % q.cap
unfolding next_head
next_head-mod {q} v = ground (arith, wrap_index (q.head + 1) q.cap)

left_over-len : {q : MessageQueue} → IsValid q → q.head ≢ q.tail → suc (left_over q) ≡ len q
unfolding left_over len
left_over-len v ne = ground arith

tail-index : {q : MessageQueue} → IsValid q → (q.head + len q) % q.cap ≡ q.tail
unfolding len
tail-index {q} v = ground (arith, wrap_index (q.head + len q) q.cap)

abbrev head_message : MessageQueue → Message
head_message q = get_or q.queue q.head blank

-- What a pop leaves when the ring held a message.
abbrev pub popped : MessageQueue → MessageQueue
popped q = raise_threshold (left_over q) (left_over q) (record q { head = next_head q })

pub popped-Raised :
    {q : MessageQueue}
    → IsValid q
    → Raised (left_over q) (record q { head = next_head q }) (popped q)
popped-Raised {q} v =
    raise_threshold-Raised (left_over q) (left_over q) (record q { head = next_head q })
      v.threshold_pos (omega (arith, v.threshold_pos))

pub contents_of_Raised : {l : ℕ} {q q' : MessageQueue} → Raised l q q' → contents q' ≡ contents q
unfolding len
contents_of_Raised r = rw r.same refl

len_of_empty : (q : MessageQueue) → q.head ≡ q.tail → len q ≡ 0
unfolding len
len_of_empty q e = ground arith

pub len_of_advance : (q : MessageQueue) → len (record q { head = next_head q }) ≡ left_over q
unfolding len left_over
len_of_advance q = ground arith

contents_of_advance :
    {q : MessageQueue}
    → IsValid q
    → q.head ≢ q.tail
    → contents q ≡ head_message q ∷ contents (record q { head = next_head q })
contents_of_advance {q} v ne =
    rw (← left_over-len v ne, len_of_advance q, next_head-mod v)
      (ap₂ ◌∷◌ (ap (λ k. get_or q.queue k blank) (ground (arith, wrap_index (q.head + 0) q.cap))) (
        ring_slice_shift blank q.queue q.cap q.head 0 (left_over q) v.head_in
          (omega (arith, left_over-len v ne, len-lt-cap v))))

popped-IsValid : {q : MessageQueue} → IsValid q → IsValid (popped q)
unfolding next_head
popped-IsValid {q} v =
    let r = popped-Raised v in
    rw r.same (record {
      storage = v.storage;
      head_in = ground arith;
      tail_in = v.tail_in;
      threshold_pos = omega (arith, r.grows, v.threshold_pos);
    })

-- `skynet_mq_pop` keeps the invariant.
pub pop-IsValid : {q : MessageQueue} → IsValid q → IsValid (pop q).1
unfolding pop
pop-IsValid {q} v = elim (Bool-cases (q.head == q.tail)) [
  | inl e ↦ rw e (record {
    storage = v.storage;
    head_in = v.head_in;
    tail_in = v.tail_in;
    threshold_pos = omega arith;
  })
  | inr ne ↦ rw ne (popped-IsValid v)
]

pub contents_of_empty : (q : MessageQueue) → q.head ≡ q.tail → contents q ≡ []
contents_of_empty q e = rw (len_of_empty q e)

-- `skynet_mq_pop` on a valid ring: an empty queue returns no message, resets the threshold and clears
-- `in_global`; any other returns its oldest message and keeps the rest in order with `in_global` as it was.
pub pop_lem :
    {q : MessageQueue}
    → IsValid q
    → ((contents q ≡ [])
        × ((pop q).0 ≡ none)
        × (contents (pop q).1 ≡ [])
        × ((pop q).1.in_global ≡ 0)
        × ((pop q).1.overload_threshold ≡ mq_overload))
      ⊎ ((m : Message) × (rest : List Message) × (contents q ≡ m ∷ rest)
          × ((pop q).0 ≡ some m)
          × (contents (pop q).1 ≡ rest)
          × ((pop q).1.in_global ≡ q.in_global))
unfolding pop len
pop_lem {q} v = elim (Bool-cases (q.head == q.tail)) [
  | inl e ↦ inl (
    contents_of_empty q (ground arith),
    rw e,
    rw e (contents_of_empty q (ground arith)),
    rw e,
    rw e,
  )
  | inr ne ↦ inr (
    head_message q,
    contents (record q { head = next_head q }),
    contents_of_advance v (ground arith),
    rw ne,
    rw ne (contents_of_Raised (popped-Raised v)),
    rw ne (ap (λ (x : MessageQueue). x.in_global) (popped-Raised v).same),
  )
]

-- The ring after the write of `skynet_mq_push`, before it may expand.
abbrev written : Message → MessageQueue → MessageQueue
written m q = record q { queue = set q.queue q.tail m; tail = next_tail q }

pub len_of_written :
    {q : MessageQueue} (m : Message)
    → IsValid q
    → q.head ≢ next_tail q
    → len (written m q) ≡ suc (len q)
unfolding len next_tail
len_of_written m v ne = ground arith

pub len_of_full : {q : MessageQueue} → IsValid q → q.head ≡ next_tail q → suc (len q) ≡ q.cap
unfolding len next_tail
len_of_full v e = ground arith

slice_of_written :
    {q : MessageQueue} (m : Message)
    → IsValid q
    → ring_slice blank (set q.queue q.tail m) q.cap q.head 0 (suc (len q)) ≡ contents q ++ m ∷ []
slice_of_written {q} m v =
    ring_slice_snoc blank (set q.queue q.tail m) q.cap q.head 0 (len q)
    ∙ ap₂ (λ l x. l ++ x ∷ [])
        (ring_slice_frame blank q.queue q.cap q.head 0 (len q) (len q) q.tail m (tail-index v)
          v.head_in (omega arith) (len-lt-cap v))
        (rw (zero-add, tail-index v)
          (get_or-set_self q.queue q.tail m blank (omega (arith, v.storage, v.tail_in))))

pub len_of_expanded : (q : MessageQueue) → len (expand_queue q) ≡ q.cap
unfolding len expand_queue
len_of_expanded q = ground arith

contents-expand_queue :
    (q : MessageQueue) → contents (expand_queue q) ≡ ring_slice blank q.queue q.cap q.head 0 q.cap
unfolding expand_queue
contents-expand_queue q =
    unfold expand_queue in
    rw (len_of_expanded q) (
      ring_slice-copy_ring blank q.queue q.cap q.head (q.cap * 2) 0 q.cap (omega arith)
        (omega arith))

-- `skynet_mq_push` appends its message to the messages that the ring holds, whether or not it expands.
pub put_lem :
    {q : MessageQueue} (m : Message) → IsValid q → contents (put m q) ≡ contents q ++ m ∷ []
unfolding put
put_lem {q} m v = elim (Bool-cases (q.head == next_tail q)) [
  | inl e ↦ rw e (
      contents-expand_queue (written m q)
      ∙ ap (λ k. ring_slice blank (set q.queue q.tail m) q.cap q.head 0 k)
          (sym (len_of_full v (ground arith)))
      ∙ slice_of_written m v)
  | inr ne ↦ rw ne (rw (len_of_written m v (ground arith)) (slice_of_written m v))
]

pub put-IsValid : {q : MessageQueue} (m : Message) → IsValid q → IsValid (put m q)
unfolding put next_tail expand_queue
put-IsValid {q} m v = elim (Bool-cases (q.head == next_tail q)) [
  | inl e ↦ rw e (record {
    storage =
        copy_ring-length blank (set q.queue q.tail m) q.cap q.head 0 q.cap
          (replicate (q.cap * 2) blank)
        ∙ length-replicate (q.cap * 2) blank;
    head_in = omega (arith, v.head_in);
    tail_in = omega (arith, v.head_in);
    threshold_pos = v.threshold_pos;
  })
  | inr ne ↦ rw ne (record {
    storage = length-set q.queue q.tail m ∙ v.storage;
    head_in = v.head_in;
    tail_in = ground arith;
    threshold_pos = v.threshold_pos;
  })
]
