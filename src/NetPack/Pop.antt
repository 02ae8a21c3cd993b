-- ===== src/NetPack/Pop.antt =====
-- `netpack.pop` of skynet/lualib-src/lua-netpack.c, and the loop that empties the ring.
use jsmj_server.Base.{
  ℕ, zero, suc, ◌+◌, ◌%◌, ◌<◌, ◌≡◌, ◌≢◌, refl, ap, ap₂, ◌∙◌, sym, List, [], ◌∷◌, arith, get_or,
  length, ◌==◌, Bool-cases, inl, inr, ring_slice, ring_slice_shift, length-ring_slice, wrap_index,
  Option, none, some,
}
use jsmj_server.NetPack.{Pack, Queue, blank, lpop, next_head}
use jsmj_server.NetPack.Dispatch.{dispatch_queue, after_pop}
use jsmj_server.NetPack.Frames.{Frame}
use jsmj_server.NetPack.Ring.{IsValid, contents, held, held-cap, contents_of_new}
use jsmj_server.NetPack.Sound.{Sound}

abbrev popped : Queue → Queue
popped q = record q { head = next_head q }

held_of_popped : {q : Queue} → IsValid q → q.head ≢ q.tail → held q ≡ suc (held (popped q))
held_of_popped v ne = ground arith

next_head-mod : {q : Queue} → IsValid q → next_head q ≡ (q.head + 1) % q.cap
next_head-mod {q} v = ground (arith, wrap_index (q.head + 1) q.cap)

contents_of_popped :
    {q : Queue}
    → IsValid q
    → q.head ≢ q.tail
    → contents q ≡ get_or q.queue q.head blank ∷ contents (popped q)
contents_of_popped {q} v ne =
    let less = held_of_popped v ne in
    ap (λ n. ring_slice blank q.queue q.cap q.head 0 n) less
    ∙ ap₂ ◌∷◌ (ap (λ k. get_or q.queue k blank) (ground (arith, wrap_index (q.head + 0) q.cap))) (
        ring_slice_shift blank q.queue q.cap q.head 0 (held (popped q)) v.head_in
          (omega (arith, less, held-cap v))
        ∙ ap (λ h. ring_slice blank q.queue q.cap h 0 (held (popped q))) (sym (next_head-mod v)))

pub held-length : (q : Queue) → held q ≡ length (contents q)
held-length q = sym (length-ring_slice blank q.queue q.cap q.head 0 (held q))

-- `lpop` of an empty ring returns nothing and changes nothing.
pub lpop_empty : {frames : ℕ → Frame} (o : Option Queue) → Sound frames [] o → lpop o ≡ (none, o)
unfolding lpop
lpop_empty none s = refl
lpop_empty (some q) s =
    let v = s.ring in
    let none_held : held q ≡ 0 = held-length q ∙ ap length s.waiting in
    elim (Bool-cases (q.head == q.tail)) [
      | inl e ↦ rw e refl
      | inr ne ↦ absurd (omega (arith, none_held, held_of_popped v (ground (arith, ne))))
    ]

abbrev first_or : Pack → List Pack → Pack
first_or d [] = d
first_or d (p ∷ ps) = p

abbrev others : List Pack → List Pack
others [] = []
others (p ∷ ps) = ps

-- In a sound state in which packets wait, `lpop` returns the one that has waited longest and leaves the others in order.
pub lpop_first :
    {frames : ℕ → Frame} (p : Pack) (ps : List Pack) (o : Option Queue)
    → Sound frames (p ∷ ps) o
    → (o' : Option Queue) × (lpop o ≡ (some p, o')) × Sound frames ps o'
unfolding lpop
lpop_first p ps none s = absurd (omega (arith, ap length (sym contents_of_new ∙ s.waiting)))
lpop_first p ps (some q) s =
    let v = s.ring in
    let some_held : held q ≡ suc (length ps) = held-length q ∙ ap length s.waiting in
    elim (Bool-cases (q.head == q.tail)) [
      | inl e ↦ absurd (ground (arith, e, some_held))
      | inr ne ↦
          let same = sym (contents_of_popped v (ground (arith, ne))) ∙ s.waiting in
          (
            some (popped q),
            rw ne (ap (λ x. (some x, some (popped q))) (ap (first_or p) same)),
            record {
              ring = record { storage = v.storage; head_in = ground arith; tail_in = v.tail_in };
              waiting = ap others same;
              shown = s.shown;
            },
          )
    ]

-- The loop takes the packets that wait, in order, when it has one round more than there are packets.
pub dispatch_queue_lem :
    {frames : ℕ → Frame} (rounds : ℕ) (ps : List Pack) (o : Option Queue)
    → length ps < rounds
    → Sound frames ps o
    → (o' : Option Queue) × (dispatch_queue rounds o ≡ (ps, o')) × Sound frames [] o'
unfolding dispatch_queue
dispatch_queue_lem zero ps o h s = absurd (omega arith)
dispatch_queue_lem (suc rounds) [] o h s =
    (o, ap (λ r. after_pop r (dispatch_queue rounds r.1)) (lpop_empty o s), s)
dispatch_queue_lem (suc rounds) (p ∷ ps) o h s =
    let first = lpop_first p ps o s in
    let later = dispatch_queue_lem rounds ps first.0 (omega arith) first.2 in
    (
      later.0,
      ap (λ r. after_pop r (dispatch_queue rounds r.1)) first.1
          ∙ ap (λ (r : List Pack × Option Queue). (p ∷ r.0, r.1)) later.1,
      later.2,
    )
