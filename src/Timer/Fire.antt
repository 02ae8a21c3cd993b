-- ===== src/Timer/Fire.antt =====
-- A round of `timer_update` dispatches the nodes that expire at the new time, each as often as it was added,
-- and keeps the others; so a timer fires in the round of its delay.
use native.Mathlib.Decide.{ℕ_discrete}
use jsmj_server.Base.{
  ◌%◌, ◌^◌, ◌<◌, ◌≡◌, ◌≢◌, inl, inr, refl, ap, sym, ◌∙◌, false, List, ◌++◌, arith, ◌==◌,
  if◌then◌else◌, Bool-cases,
}
use jsmj_server.Timer.{
  TimerNode, Slot, near, same_slot, Timer, word, place, link_clear, timer_shift, timer_execute,
  timer_update, create_timer,
}
use jsmj_server.Timer.Place.{IsAhead, tick, place_now}
use jsmj_server.Timer.Count.{same_slot_iff, count, count-append, All-imp, All-count}
use jsmj_server.Timer.Wheel.{
  IsDue, IsWheel, Placed, At, pending, timer_shift-Placed, timer_shift-pending,
}

pub create_timer-IsWheel : IsWheel create_timer
unfolding create_timer
create_timer-IsWheel = record { time_fits = omega arith; placed = λ p. tt }

-- `timer_execute` on a wheel whose nodes are now or ahead: it takes those that are now.
module _ (T : Timer) (fits : T.time < word) (w : Placed IsDue T) where
  now : Slot
  now = near (T.time % 2 ^ 8)

  execute-IsWheel : IsWheel (timer_execute T).1
  unfolding timer_execute link_clear now
  execute-IsWheel = record {
    time_fits = fits;
    placed = λ p. elim (Bool-cases (same_slot now p)) [
      | inl same ↦ rw same tt
      | inr other ↦
          rw other
            (All-imp (At IsDue T.time p) (At IsAhead T.time p) (T.lists p) (still p other) (w p))
    ];
  }
    where
      still :
          (p : Slot)
          → (same_slot now p ≡ false)
          → (n : TimerNode) → At IsDue T.time p n
          → At IsAhead T.time p n
      still p other n (due, here) =
          let late : n.expire ≢ T.time = λ e. cc (
            (same_slot_iff now p).1 (sym ((place_now n.expire T.time due.fits fits).1 e) ∙ here)) in
          (
            record {
              fits = due.fits;
              time_fits = fits;
              later = omega (arith, due.fits, fits);
              soon = due.soon;
            },
            here,
          )

  none_now : (x : TimerNode) → x.expire ≢ T.time → count x (T.lists now) ≡ 0
  unfolding now
  none_now x ne = elim (ℕ_discrete (count x (T.lists now)) 0) [
    | yes e ↦ e
    | no held ↦
        let (due, here) = All-count (At IsDue T.time now) x (T.lists now) (w now) (omega arith) in
        absurd (ne ((place_now x.expire T.time due.fits fits).0 here))
  ]

  execute-count :
      (x : TimerNode)
      → (count x (timer_execute T).0 ≡ (if x.expire == T.time then pending T x else 0))
        × (pending (timer_execute T).1 x ≡ (if x.expire == T.time then 0 else pending T x))
  unfolding timer_execute link_clear now
  execute-count x = elim (ℕ_discrete x.expire T.time) [
    | yes e ↦
        let here : place x.expire T.time ≡ now =
          (place_now x.expire T.time (omega arith) fits).1 e in
        (
          ground (arith, ap (λ p. count x (T.lists p)) here),
          ground (arith, (same_slot_iff now (place x.expire T.time)).1 (sym here)),
        )
    | no ne ↦ (
      ground (arith, none_now x ne),
      elim (Bool-cases (same_slot now (place x.expire T.time))) [
        | inl same ↦
            let here : now ≡ place x.expire T.time =
              (same_slot_iff now (place x.expire T.time)).0 same in
            ground (arith, none_now x ne, ap (λ p. count x (T.lists p)) here)
        | inr other ↦ ground arith
      ],
    )
  ]

time-execute : (T : Timer) → (timer_execute T).1.time ≡ T.time
unfolding timer_execute link_clear
time-execute T = refl

IsDue-of_ahead : (T : Timer) → IsWheel T → Placed IsDue T
IsDue-of_ahead T w p =
    All-imp (At IsAhead T.time p) (At IsDue T.time p) (T.lists p)
      (λ n h. (record { fits = h.0.fits; time_fits = h.0.time_fits; soon = h.0.soon }, h.1))
      (w.placed p)

-- The wheel holds no node that expires now.
none_due : (T : Timer) → IsWheel T → (x : TimerNode) → x.expire ≡ T.time → pending T x ≡ 0
none_due T w x e = elim (ℕ_discrete (pending T x) 0) [
  | yes z ↦ z
  | no held ↦
      let (ahead, _) =
        All-count (At IsAhead T.time (place x.expire T.time)) x (T.lists (place x.expire T.time))
          (w.placed (place x.expire T.time)) (omega arith) in
      absurd (omega (arith, ahead.later, ahead.fits))
]

-- What one round does, for every node: it dispatches the node as often as the wheel holds it if it expires at
-- the new time, and otherwise keeps it.
pub record Round (T : Timer) (x : TimerNode) (out : List TimerNode) (T' : Timer) : Type 0 where
  pub time : T'.time ≡ tick T.time
  pub fired : count x out ≡ (if x.expire == tick T.time then pending T x else 0)
  pub left : pending T' x ≡ (if x.expire == tick T.time then 0 else pending T x)

-- `timer_update` keeps the invariant of the wheel, moves the time by one modulo 2^32, dispatches exactly the
-- nodes that expire at the new time, each as often as the wheel holds it, and keeps exactly the others.
pub timer_update_lem :
    (T : Timer)
    → IsWheel T
    → let (out, T') = timer_update T in IsWheel T' × ((x : TimerNode) → Round T x out T')
unfolding timer_update
timer_update_lem T w = (execute-IsWheel T₂ fits due, round)
  where
    T₁ : Timer
    T₁ = (timer_execute T).1

    w₁ : IsWheel T₁
    w₁ = execute-IsWheel T w.time_fits (IsDue-of_ahead T w)

    T₂ : Timer
    T₂ = timer_shift T₁

    due : Placed IsDue T₂
    due = (timer_shift-Placed T₁ w₁).0

    on_time : T₂.time ≡ tick T.time
    on_time = (timer_shift-Placed T₁ w₁).1 ∙ ap tick (time-execute T)

    fits : T₂.time < word
    fits = omega (arith, on_time)

    round :
        (x : TimerNode)
        → Round T x ((timer_execute T).0 ++ (timer_execute T₂).0) (timer_execute T₂).1
    round x =
        let (idle, kept) = execute-count T w.time_fits (IsDue-of_ahead T w) x in
        let (fired, left) = execute-count T₂ fits due x in
        let moved = timer_shift-pending T₁ w₁ x in
        record {
          time = time-execute T₂ ∙ on_time;
          fired = ground (
            arith,
            count-append x (timer_execute T).0 (timer_execute T₂).0,
            none_due T w x,
            on_time,
          );
          left = ground (arith, none_due T w x, on_time);
        }
