-- ===== src/NetPack/Ring.antt =====
-- The ring of packets of skynet/lualib-src/lua-netpack.c: its invariant, and the packets that it holds in order.
use native.Mathlib.Nat.{zero-add}
use jsmj_server.Base.{
  ℕ, suc, ◌+◌, ◌-◌, ◌%◌, ◌<◌, ◌≡◌, ◌≢◌, refl, ap, ap₂, ◌∙◌, sym, List, [], ◌∷◌, ◌++◌, arith, set,
  replicate, length-set, length-replicate, get_or-set_self, length, take, leb, ◌==◌, if◌then◌else◌,
  Bool-cases, inl, inr, ring_slice, ring_slice_snoc, ring_slice_frame, wrap_index, copy_ring-length,
  ring_slice-copy_ring,
}
use jsmj_server.NetPack.{
  Pack, Queue, blank, queue_size, expand_queue, next_tail, push_data, new_queue,
}

pub record IsValid (q : Queue) : Type 0 where
  pub storage : length q.queue ≡ q.cap
  pub head_in : q.head < q.cap
  pub tail_in : q.tail < q.cap

abbrev pub held : Queue → ℕ
held q = if leb q.head q.tail then q.tail - q.head else q.tail + q.cap - q.head

-- the packets that wait, the oldest first
abbrev pub contents : Queue → List Pack
contents q = ring_slice blank q.queue q.cap q.head 0 (held q)

pub held-cap : {q : Queue} → IsValid q → held q < q.cap
held-cap v = ground arith

tail-index : {q : Queue} → IsValid q → (q.head + held q) % q.cap ≡ q.tail
tail-index {q} v = ground (arith, wrap_index (q.head + held q) q.cap)

abbrev written : Pack → Queue → Queue
written np q = record q { queue = set q.queue q.tail np; tail = next_tail q }

held_of_written :
    {q : Queue} (np : Pack) → IsValid q → q.head ≢ next_tail q → held (written np q) ≡ suc (held q)
held_of_written np v ne = ground arith

held_of_full : {q : Queue} → IsValid q → q.head ≡ next_tail q → suc (held q) ≡ q.cap
held_of_full v e = ground arith

slice_of_written :
    {q : Queue} (np : Pack)
    → IsValid q
    → ring_slice blank (set q.queue q.tail np) q.cap q.head 0 (suc (held q)) ≡ contents q ++ np ∷ []
slice_of_written {q} np v =
    ring_slice_snoc blank (set q.queue q.tail np) q.cap q.head 0 (held q)
    ∙ ap₂ (λ l x. l ++ x ∷ [])
        (ring_slice_frame blank q.queue q.cap q.head 0 (held q) (held q) q.tail np (tail-index v)
          v.head_in (omega arith) (held-cap v))
        (rw (zero-add, tail-index v)
          (get_or-set_self q.queue q.tail np blank (omega (arith, v.storage, v.tail_in))))

held_of_expanded : (q : Queue) → held (expand_queue q) ≡ q.cap
unfolding expand_queue
held_of_expanded q = ground arith

contents-expand_queue :
    (q : Queue) → contents (expand_queue q) ≡ ring_slice blank q.queue q.cap q.head 0 q.cap
unfolding expand_queue
contents-expand_queue q =
    unfold expand_queue in
    rw (held_of_expanded q) (
      ring_slice-copy_ring blank q.queue q.cap q.head (q.cap + queue_size) 0 q.cap (omega arith)
        (omega arith))

-- `push_data` appends one packet, whether or not it expands, and touches no entry.
pub push_data-contents :
    {q : Queue} (fd : ℕ) (buffer : List ℕ) (size : ℕ)
    → IsValid q
    → contents (push_data fd buffer size q)
      ≡ contents q ++ record { id = fd; size = size; buffer = take size buffer } ∷ []
unfolding push_data
push_data-contents {q} fd buffer size v =
    let np : Pack = record { id = fd; size = size; buffer = take size buffer } in
    elim (Bool-cases (q.head == next_tail q)) [
      | inl e ↦ rw e (
          contents-expand_queue (written np q)
          ∙ ap (λ k. ring_slice blank (set q.queue q.tail np) q.cap q.head 0 k)
              (sym (held_of_full v (ground arith)))
          ∙ slice_of_written np v)
      | inr ne ↦ rw ne (rw (held_of_written np v (ground arith)) (slice_of_written np v))
    ]

pub push_data-hash :
    (q : Queue) (fd : ℕ) (buffer : List ℕ) (size : ℕ) → (push_data fd buffer size q).hash ≡ q.hash
unfolding push_data expand_queue
push_data-hash q fd buffer size = elim (Bool-cases (q.head == next_tail q)) [
  | inl e ↦ rw e refl
  | inr ne ↦ rw ne refl
]

pub push_data-IsValid :
    {q : Queue} (fd : ℕ) (buffer : List ℕ) (size : ℕ)
    → IsValid q
    → IsValid (push_data fd buffer size q)
unfolding push_data expand_queue
push_data-IsValid {q} fd buffer size v =
    let np : Pack = record { id = fd; size = size; buffer = take size buffer } in
    elim (Bool-cases (q.head == next_tail q)) [
      | inl e ↦ rw e (record {
        storage =
            copy_ring-length blank (set q.queue q.tail np) q.cap q.head 0 q.cap
              (replicate (q.cap + queue_size) blank)
            ∙ length-replicate (q.cap + queue_size) blank;
        head_in = omega (arith, v.head_in);
        tail_in = omega (arith, v.head_in);
      })
      | inr ne ↦ rw ne (record {
        storage = length-set q.queue q.tail np ∙ v.storage;
        head_in = v.head_in;
        tail_in = ground arith;
      })
    ]

pub new_queue-IsValid : IsValid new_queue
unfolding new_queue
new_queue-IsValid = record {
  storage = length-replicate queue_size blank;
  head_in = omega arith;
  tail_in = omega arith;
}

pub contents_of_new : contents new_queue ≡ []
unfolding new_queue
contents_of_new = refl
