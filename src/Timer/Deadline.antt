-- ===== src/Timer/Deadline.antt =====
-- A timer fires in the round of its delay: rounds of `timer_update` in a row, `timer_add` and
-- `skynet_updatetime`.
use native.Mathlib.Decide.{ℕ_discrete}
use jsmj_server.Base.{
  ℕ, zero, suc, ◌+◌, ◌-◌, ◌%◌, ◌^◌, ◌<◌, ◌≡◌, ◌≢◌, ◌↔◌, inl, inr, refl, ap, sym, ◌∙◌, [], ◌∷◌,
  arith, ◌==◌, if◌then◌else◌, Bool-cases, get_or, length, ltb, ltb→lt, List, Option-cases,
}
use jsmj_server.Timer.{
  TimerNode, same_slot, Timer, word, place, link, link_clear, add_node, add_nodes, move_list,
  shifted, timer_shift, timer_execute, timer_add, timer_update, updates, updatetime,
}
use jsmj_server.Timer.Place.{remaining, IsAhead, tick}
use jsmj_server.Timer.Count.{
  same_slot_iff, same_node, same_node_iff, count, count-append, All-append, All-count,
}
use jsmj_server.Timer.Fire.{timer_update_lem}
use jsmj_server.Timer.Wheel.{IsWheel, At, pending, time-add_node}

counts_down : (e t : ℕ) → IsAhead e t → e ≢ tick t → remaining e (tick t) + 1 ≡ remaining e t
counts_down e t h ne = omega (arith, h.fits, h.time_fits, h.later, h.soon)

last_round : (e t : ℕ) → IsAhead e t → (e ≡ tick t) ↔ (remaining e t ≡ 1)
last_round e t h =
    (λ p. omega (arith, h.fits, h.time_fits), λ p. omega (arith, h.fits, h.time_fits))

IsAhead-of_pending :
    (T : Timer) → IsWheel T → (x : TimerNode) → 0 < pending T x → IsAhead x.expire T.time
IsAhead-of_pending T w x h =
    (All-count (At IsAhead T.time (place x.expire T.time)) x (T.lists (place x.expire T.time))
      (w.placed (place x.expire T.time)) h).0

-- Of `n` rounds of `timer_update`, counted from 1, a node that the wheel holds is dispatched in the round whose
-- number is the time that it has left, as often as the wheel holds it, and in no other.
pub updates_fire :
    (n k : ℕ) (T : Timer) (x : TimerNode)
    → IsWheel T
    → k < n
    → count x (get_or (updates n T).0 k [])
      ≡ (if k + 1 == remaining x.expire T.time then pending T x else 0)
unfolding updates
updates_fire zero k T x w h = absurd (omega arith)
updates_fire (suc n) zero T x w h =
    let r = (timer_update_lem T w).1 x in
    elim (ℕ_discrete (pending T x) 0) [
      | yes z ↦ ground (arith, r.fired)
      | no held ↦
          ground
            (arith, r.fired, last_round x.expire T.time (IsAhead-of_pending T w x (omega arith)))
    ]
updates_fire (suc n) (suc k) T x w h =
    let r = (timer_update_lem T w).1 x in
    let ih = updates_fire n k (timer_update T).1 x (timer_update_lem T w).0 (omega arith) in
    elim (ℕ_discrete (pending T x) 0) [
      | yes z ↦ ground (arith, ih, r.left)
      | no held ↦
          let ahead = IsAhead-of_pending T w x (omega arith) in
          elim (ℕ_discrete x.expire (tick T.time)) [
            | yes e ↦ ground (arith, ih, r.left, last_round x.expire T.time ahead)
            | no ne ↦
                let now = ap (remaining x.expire) r.time in
                ground (arith, ih, r.left, counts_down x.expire T.time ahead ne)
          ]
    ]

add_node-IsWheel :
    (n : TimerNode) (T : Timer) → IsWheel T → IsAhead n.expire T.time → IsWheel (add_node n T)
unfolding add_node link
add_node-IsWheel n T w ahead = record {
  time_fits = w.time_fits;
  placed = λ p. elim (Bool-cases (same_slot (place n.expire T.time) p)) [
    | inl e ↦ rw e (
        All-append (At IsAhead T.time p) (T.lists p) n (w.placed p)
          (ahead, (same_slot_iff (place n.expire T.time) p).0 e))
    | inr ne ↦ rw ne (w.placed p)
  ];
}

pending-add_node :
    (n x : TimerNode) (T : Timer)
    → pending (add_node n T) x ≡ pending T x + (if same_node x n then 1 else 0)
unfolding add_node link
pending-add_node n x T = elim (Bool-cases (same_node x n)) [
  | inl e ↦
      let one =
        (same_slot_iff (place n.expire T.time) (place x.expire T.time)).1
          (ap (λ (y : TimerNode). place y.expire T.time) (sym ((same_node_iff x n).0 e))) in
      rw (one, e) (count-append x (T.lists (place x.expire T.time)) (n ∷ []) ∙ ground arith)
  | inr ne ↦ ground (arith, count-append x (T.lists (place x.expire T.time)) (n ∷ []))
]

-- the node of `skynet_timeout`
abbrev pub new_node : ℕ → ℕ → ℕ → Timer → TimerNode
new_node h s delay T = record { expire = (delay + T.time) % word; handle = h; session = s }

new_node-IsAhead :
    (h s delay : ℕ) (T : Timer)
    → IsWheel T
    → 0 < delay
    → delay < 2 ^ 31
    → IsAhead (new_node h s delay T).expire T.time
      × (remaining (new_node h s delay T).expire T.time ≡ delay)
new_node-IsAhead h s delay T w pos small = (omega (arith, w.time_fits), omega (arith, w.time_fits))

-- A timer that `timer_add` sets for a positive delay is dispatched in the round of that number and in no other, on
-- any wheel: once more than the same event was set for that time before. The wheel stays valid, and a
-- different node is dispatched as before.
pub timer_add_fires :
    (h s delay : ℕ) (T : Timer) (n k : ℕ)
    → IsWheel T
    → 0 < delay
    → delay < 2 ^ 31
    → k < n
    → let x = new_node h s delay T in
      let T' = timer_add h s delay T in
      IsWheel T'
      × (count x (get_or (updates n T').0 k []) ≡ (if k + 1 == delay then pending T x + 1 else 0))
      × ((y : TimerNode)
          → y ≢ x
          → count y (get_or (updates n T').0 k []) ≡ count y (get_or (updates n T).0 k []))
unfolding timer_add
timer_add_fires h s delay T n k w pos small lt =
    let x = new_node h s delay T in
    let (ahead, left) = new_node-IsAhead h s delay T w pos small in
    let w' = add_node-IsWheel x T w ahead in
    (
      w',
      ground (
        arith,
        updates_fire n k (add_node x T) x w' lt,
        pending-add_node x x T,
        same_node_iff x x,
        left,
        time-add_node x T,
      ),
      λ y ne. ground (
        arith,
        updates_fire n k (add_node x T) y w' lt,
        updates_fire n k T y w lt,
        pending-add_node x y T,
        same_node_iff y x,
        time-add_node x T,
      ),
    )

-- Rounds in a row keep the invariant and move the time by their number.
pub updates-IsWheel :
    (n : ℕ) (T : Timer)
    → IsWheel T
    → IsWheel (updates n T).1
      × ((updates n T).1.time ≡ (T.time + n) % word)
      × (length (updates n T).0 ≡ n)
unfolding updates
updates-IsWheel zero T w = (w, omega (arith, w.time_fits), refl)
updates-IsWheel (suc n) T w =
    let (w', round) = timer_update_lem T w in
    let t = (round (record { expire = 0; handle = 0; session = 0 })).time in
    let (v, time, len) = updates-IsWheel n (timer_update T).1 w' in
    (v, omega (arith, time, t), ap suc len)

add_nodes-current_point :
    (nodes : List TimerNode) (T : Timer) → (add_nodes nodes T).current_point ≡ T.current_point
unfolding add_nodes add_node link
add_nodes-current_point [] T = refl
add_nodes-current_point (node ∷ nodes) T = add_nodes-current_point nodes (add_node node T)

timer_shift-current_point : (T : Timer) → (timer_shift T).current_point ≡ T.current_point
unfolding timer_shift move_list link_clear
timer_shift-current_point T = elim (Option-cases (shifted ((T.time + 1) % word))) [
  | inl stay ↦ rw (timer_shift, stay) refl
  | inr (p, moves) ↦ rw (timer_shift, moves) (add_nodes-current_point (T.lists p) _)
]

-- only `skynet_updatetime` sets the point of time
updates-current_point : (n : ℕ) (T : Timer) → (updates n T).1.current_point ≡ T.current_point
unfolding updates timer_update timer_execute link_clear
updates-current_point zero T = refl
updates-current_point (suc n) T =
    updates-current_point n (timer_update T).1 ∙ timer_shift-current_point (timer_execute T).1

-- `skynet_updatetime` on a valid wheel, where the clock has moved on by less than 2^32, stands or went back, keeps it valid.
-- It makes as many rounds as hundredths of a second have passed, none where the clock stands or went back, moves the
-- time by that number, and takes the reading of the clock as its new point of time.
pub updatetime_lem :
    (cp : ℕ) (T : Timer)
    → IsWheel T
    → cp < T.current_point + word
    → let (outs, T') = updatetime cp T in
      IsWheel T'
      × (length outs ≡ cp - T.current_point)
      × (T'.time ≡ (T.time + (cp - T.current_point)) % word)
      × (T'.current_point ≡ cp)
unfolding updatetime
updatetime_lem cp T w soon = elim (Bool-cases (ltb cp T.current_point)) [
  | inl back ↦
      rw back
        (same w, omega (arith, ltb→lt cp T.current_point back), ground (arith, w.time_fits), refl)
  | inr on ↦ elim (Bool-cases (cp == T.current_point)) [
    | inl still ↦
        rw (on, still) (w, ground arith, ground (arith, w.time_fits), ground (arith, still))
    | inr ahead ↦
        let diff = (cp - T.current_point) % word in
        let (v, time, len) =
          updates-IsWheel diff
            (record T { current_point = cp; current = (T.current + diff) % 2 ^ 64 }) (same w) in
        rw (on, ahead)
          (
            v,
            omega (arith, len),
            omega (arith, time),
            updates-current_point diff
                (record T { current_point = cp; current = (T.current + diff) % 2 ^ 64 }),
          )
  ]
]
  where
    same : {c p : ℕ} → IsWheel T → IsWheel (record T { current_point = p; current = c })
    same w = record { time_fits = w.time_fits; placed = w.placed }
