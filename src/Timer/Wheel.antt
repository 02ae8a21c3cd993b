-- ===== src/Timer/Wheel.antt =====
-- The invariant of the wheel: every node stands in the list that `add_node` would choose now, and is ahead of
-- the time. `timer_shift` keeps the places, and moves no node out of the wheel.
use native.Mathlib.Decide.{ℕ_discrete}
use jsmj_server.Base.{
  ℕ, ◌+◌, ◌^◌, ◌<◌, ◌≡◌, ◌≢◌, inl, inr, refl, ap, sym, ◌∙◌, none, some, List, [], ◌∷◌, arith,
  if◌then◌else◌, Bool-cases, Option-cases, some_inj,
}
use jsmj_server.Timer.{
  TimerNode, Slot, same_slot, Timer, word, place, link_clear, add_node, add_nodes, move_list,
  shifted, timer_shift,
}
use jsmj_server.Timer.Place.{remaining, IsAhead, tick, place_stays}
use jsmj_server.Timer.Count.{
  same_slot_iff, count, All, All-imp, All-append, All-count, count-add_nodes, time-add_nodes,
}

-- `e` is now, or ahead of the time by less than half the range
pub record IsDue (e t : ℕ) : Type 0 where
  pub fits : e < word
  pub time_fits : t < word
  pub soon : remaining e t < 2 ^ 31

abbrev pub At : (ℕ → ℕ → Type 0) → ℕ → Slot → TimerNode → Type 0
At P t p n = P n.expire t × (place n.expire t ≡ p)

abbrev pub Placed : (ℕ → ℕ → Type 0) → Timer → Type 0
Placed P T = (p : Slot) → All (At P T.time p) (T.lists p)

-- between two rounds of `timer_update`
pub record IsWheel (T : Timer) : Type 0 where
  pub time_fits : T.time < word
  pub placed : Placed IsAhead T

-- how often the wheel holds the node: in the list of its place
abbrev pub pending : Timer → TimerNode → ℕ
pending T x = count x (T.lists (place x.expire T.time))

ahead_of_count :
    (P : ℕ → ℕ → Type 0) (T : Timer) (x : TimerNode) (p : Slot)
    → Placed P T
    → 0 < count x (T.lists p)
    → At P T.time p x
ahead_of_count P T x p w c = All-count (At P T.time p) x (T.lists p) (w p) c

IsDue-tick : (e t : ℕ) → IsAhead e t → IsDue e (tick t)
IsDue-tick e t h = omega arith

add_node-Placed :
    (n : TimerNode) (T : Timer)
    → Placed IsDue T
    → IsDue n.expire T.time
    → Placed IsDue (add_node n T)
unfolding add_node
add_node-Placed n T w d p = elim (Bool-cases (same_slot (place n.expire T.time) p)) [
  | inl e ↦ rw e (
      All-append (At IsDue T.time p) (T.lists p) n (w p)
        (d, (same_slot_iff (place n.expire T.time) p).0 e))
  | inr ne ↦ rw ne (w p)
]

pub time-add_node : (n : TimerNode) (T : Timer) → (add_node n T).time ≡ T.time
unfolding add_node
time-add_node n T = refl

add_nodes-Placed :
    (l : List TimerNode) (T : Timer)
    → Placed IsDue T
    → All (λ n. IsDue n.expire T.time) l
    → Placed IsDue (add_nodes l T)
unfolding add_nodes
add_nodes-Placed [] T w d = w
add_nodes-Placed (n ∷ l) T w d =
    add_nodes-Placed l (add_node n T) (add_node-Placed n T w d.0) (rw (time-add_node n T) d.1)

-- The wheel when the time has moved on, before its list is moved.
module _ (T : Timer) (w : IsWheel T) where
  abbrev ticked : Timer
  ticked = record T { time = tick T.time }

  stays :
      (q : Slot)
      → shifted (tick T.time) ≢ some q
      → (n : TimerNode) → At IsAhead T.time q n
      → At IsDue (tick T.time) q n
  stays q ne n h = (
    IsDue-tick n.expire T.time h.0,
    elim (place_stays n.expire T.time h.0) [
      | inl e ↦ e ∙ h.1
      | inr moved ↦ absurd (ne (moved ∙ ap some h.1))
    ],
  )

  cleared-Placed : (p : Slot) → shifted (tick T.time) ≡ some p → Placed IsDue (link_clear p ticked)
  unfolding link_clear
  cleared-Placed p e q = elim (Bool-cases (same_slot p q)) [
    | inl same ↦ rw same tt
    | inr other ↦ rw other (
        All-imp (At IsAhead T.time q) (At IsDue (tick T.time) q) (T.lists q)
          (stays q (λ f. cc ((same_slot_iff p q).1 (some_inj (sym e ∙ f))))) (w.placed q))
  ]

  moved-IsDue : (p : Slot) → All (λ n. IsDue n.expire (tick T.time)) (T.lists p)
  moved-IsDue p =
      All-imp (At IsAhead T.time p) (λ n. IsDue n.expire (tick T.time)) (T.lists p)
        (λ n h. IsDue-tick n.expire T.time h.0) (w.placed p)

  pub timer_shift-Placed : Placed IsDue (timer_shift T) × ((timer_shift T).time ≡ tick T.time)
  unfolding timer_shift move_list
  timer_shift-Placed = elim (Option-cases (shifted (tick T.time))) [
    | inl e ↦
        rw (e, timer_shift)
          (
            (λ q.
                All-imp (At IsAhead T.time q) (At IsDue (tick T.time) q) (T.lists q)
                  (stays q (rw e (λ f. cc))) (w.placed q)),
            refl,
          )
    | inr (p, e) ↦
        rw (e, timer_shift)
          (
            add_nodes-Placed (T.lists p) (link_clear p ticked) (cleared-Placed p e)
                (unfold link_clear in moved-IsDue p),
            unfold link_clear in time-add_nodes (T.lists p) (link_clear p ticked),
          )
  ]

  -- A node that the wheel does not hold is in none of its lists.
  elsewhere : (x : TimerNode) (q : Slot) → q ≢ place x.expire T.time → count x (T.lists q) ≡ 0
  elsewhere x q ne = elim (ℕ_discrete (count x (T.lists q)) 0) [
    | yes e ↦ e
    | no some_ ↦ absurd (ne (sym (ahead_of_count IsAhead T x q w.placed (omega arith)).1))
  ]

  nowhere : (x : TimerNode) (q : Slot) → pending T x ≡ 0 → count x (T.lists q) ≡ 0
  nowhere x q none_ = elim (ℕ_discrete (count x (T.lists q)) 0) [
    | yes e ↦ e
    | no some_ ↦
        let here = (ahead_of_count IsAhead T x q w.placed (omega arith)).1 in
        absurd (some_ (ap (λ p. count x (T.lists p)) (sym here) ∙ none_))
  ]

  module _ (x : TimerNode) where
    next_place : Slot
    next_place = place x.expire (tick T.time)

    count_when_moved :
        (p : Slot)
        → shifted (tick T.time) ≡ some p
        → count x ((timer_shift T).lists next_place)
          ≡ (if same_slot p next_place then 0 else count x (T.lists next_place))
            + count x (T.lists p)
    unfolding timer_shift move_list link_clear next_place
    count_when_moved p e =
        rw (e, timer_shift)
          (count-add_nodes x (T.lists p) (link_clear p ticked) next_place
            ∙ ground (arith, same_slot_iff next_place next_place))

    count_when_still :
        shifted (tick T.time) ≡ none
        → count x ((timer_shift T).lists next_place) ≡ count x (T.lists next_place)
    unfolding timer_shift
    count_when_still e = rw (e, timer_shift) refl

    moved_count :
        (p : Slot)
        → shifted (tick T.time) ≡ some p
        → 0 < pending T x
        → (if same_slot p next_place then 0 else count x (T.lists next_place)) + count x (T.lists p)
          ≡ pending T x
    unfolding next_place
    moved_count p e held = elim (Bool-cases (same_slot p (place x.expire T.time))) [
      | inl same ↦
          let here : p ≡ place x.expire T.time = (same_slot_iff p (place x.expire T.time)).0 same in
          rw here (
            ground
              (arith, elsewhere x next_place, same_slot_iff (place x.expire T.time) next_place))
      | inr other ↦
          let away : p ≢ place x.expire T.time =
            λ f. cc ((same_slot_iff p (place x.expire T.time)).1 f) in
          elim (place_stays x.expire T.time ahead) [
            | inl stay ↦ rw (stay, other) (omega (arith, elsewhere x p away))
            | inr moved ↦ absurd (away (some_inj (sym e ∙ moved)))
          ]
    ]
      where
        ahead : IsAhead x.expire T.time
        ahead = (ahead_of_count IsAhead T x (place x.expire T.time) w.placed held).0

    -- `timer_shift` neither loses a node nor adds one.
    pub timer_shift-pending : pending (timer_shift T) x ≡ pending T x
    unfolding next_place
    timer_shift-pending = rw (timer_shift-Placed.1) (elim (ℕ_discrete (pending T x) 0) [
      | yes none_held ↦ elim (Option-cases (shifted (tick T.time))) [
        | inl e ↦ count_when_still e ∙ nowhere x next_place none_held ∙ sym none_held
        | inr (p, e) ↦
            count_when_moved p e
            ∙ ground (arith, nowhere x next_place none_held, nowhere x p none_held)
      ]
      | no held ↦ elim (Option-cases (shifted (tick T.time))) [
        | inl e ↦ count_when_still e ∙ ap (λ q. count x (T.lists q)) (still_place e (omega arith))
        | inr (p, e) ↦ count_when_moved p e ∙ moved_count p e (omega arith)
      ]
    ])
      where
        still_place :
            shifted (tick T.time) ≡ none → 0 < pending T x → next_place ≡ place x.expire T.time
        still_place e h =
            elim (place_stays x.expire T.time
              (ahead_of_count IsAhead T x (place x.expire T.time) w.placed h).0) [
                | inl stay ↦ stay
                | inr moved ↦ cc (sym e ∙ moved)
              ]
