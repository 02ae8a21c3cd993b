-- ===== src/Timer.antt =====
-- skynet/skynet-src/skynet_timer.c: the hierarchical timing wheel.
--
-- A linked list with its tail pointer is a list; `near` and `t` are functions of their indices, which the
-- code masks to the sizes of the arrays. `uint32_t` arithmetic wraps at 2^32. The timer thread is the only one
-- that moves the time, and `timer_add` runs under the lock.
pub mod Place
pub mod Count
pub mod Wheel
pub mod Fire
pub mod Deadline
use jsmj_server.Base.{
  ℕ, zero, suc, ◌+◌, ◌-◌, ◌*◌, ◌/◌, ◌%◌, ◌^◌, Bool, true, false, Option, none, some, List, [], ◌∷◌,
  ◌++◌, map, ◌&&◌, ◌||◌, ltb, leb, ◌==◌, if◌then◌else◌,
}
use jsmj_server.Mq.{Message}

-- `struct timer_node` with the `struct timer_event` behind it
pub record TimerNode : Type 0 where
  pub expire : ℕ
  pub handle : ℕ
  pub session : ℕ

-- `near[k]` and `t[level][k]`
pub data Slot : Type 0 where
  near : ℕ → Slot
  far : ℕ → ℕ → Slot

abbrev pub same_slot : Slot → Slot → Bool
same_slot (near a) (near b) = a == b
same_slot (near a) (far l b) = false
same_slot (far k a) (near b) = false
same_slot (far k a) (far l b) = k == l && a == b

-- `struct timer`
pub record Timer : Type 0 where
  pub lists : Slot → List TimerNode
  pub time : ℕ
  pub starttime : ℕ
  pub current : ℕ
  pub current_point : ℕ

abbrev pub word : ℕ
word = 2 ^ 32

-- `x | (2^k - 1)`
abbrev pub fill : ℕ → ℕ → ℕ
fill x k = x / 2 ^ k * 2 ^ k + (2 ^ k - 1)

-- `link_clear`, and `link` at the tail
link_clear : Slot → Timer → Timer
link_clear p T = record T { lists = λ q. if same_slot p q then [] else T.lists q }

link : Slot → TimerNode → Timer → Timer
link p node T = record T {
  lists = λ q. if same_slot p q then T.lists q ++ node ∷ [] else T.lists q;
}

-- The `for` loop of `add_node`: `i` after it, with `mask` a power of two whose exponent is `s`.
unfoldable pub level_from : ℕ → ℕ → ℕ → ℕ → ℕ → ℕ
level_from zero i s time now = i
level_from (suc rounds) i s time now =
    if fill time s == fill now s then i else level_from rounds (i + 1) (s + 6) time now

-- the list that `add_node` links a node to
unfoldable pub place : ℕ → ℕ → Slot
unfolding level_from
place time now =
    if fill time 8 == fill now 8
    then near (time % 2 ^ 8)
    else let i = level_from 3 0 14 time now in far i (time / 2 ^ (8 + i * 6) % 2 ^ 6)

unfoldable pub add_node : TimerNode → Timer → Timer
unfolding link
add_node node T = link (place node.expire T.time) node T

unfoldable pub timer_add : ℕ → ℕ → ℕ → Timer → Timer
timer_add h s delay T =
    add_node (record { expire = (delay + T.time) % word; handle = h; session = s }) T

-- the `while` of `move_list`
unfoldable pub add_nodes : List TimerNode → Timer → Timer
add_nodes [] T = T
add_nodes (node ∷ nodes) T = add_nodes nodes (add_node node T)

unfoldable pub move_list : Slot → Timer → Timer
unfolding link_clear
move_list p T = add_nodes (T.lists p) (link_clear p T)

-- The `while` of `timer_shift`, `mask` again given by its exponent: the list to move. `ct` is not 0, so
-- four rounds are enough.
unfoldable pub shifted_from : ℕ → ℕ → ℕ → ℕ → ℕ → Option Slot
shifted_from zero i s time ct = none
shifted_from (suc rounds) i s time ct =
    let rest = shifted_from rounds (i + 1) (s + 6) (time / 2 ^ 6) ct in
    if ct % 2 ^ s == 0
    then if time % 2 ^ 6 == 0 then rest else some (far i (time % 2 ^ 6))
    else none

unfoldable pub shifted : ℕ → Option Slot
unfolding shifted_from
shifted ct = if ct == 0 then some (far 3 0) else shifted_from 4 0 8 (ct / 2 ^ 8) ct

unfoldable pub timer_shift : Timer → Timer
timer_shift T =
    let ct = (T.time + 1) % word in
    elim (shifted ct) [
      | none ↦ record T { time = ct }
      | some p ↦ move_list p (record T { time = ct })
    ]

-- `timer_execute`: the nodes for `dispatch_list`, in order. `timer_add` links none to this list meanwhile
-- (Timer.Wheel), so the `while` runs once.
unfoldable pub timer_execute : Timer → List TimerNode × Timer
unfolding link_clear
timer_execute T = (T.lists (near (T.time % 2 ^ 8)), link_clear (near (T.time % 2 ^ 8)) T)

unfoldable pub timer_update : Timer → List TimerNode × Timer
timer_update T =
    let (first, T₁) = timer_execute T in
    let (second, T₂) = timer_execute (timer_shift T₁) in (first ++ second, T₂)

-- what `dispatch_list` pushes for a node, and to which service; PTYPE_RESPONSE is 1
unfoldable pub response : TimerNode → ℕ × Message
response node =
    (node.handle, record { source = 0; session = node.session; payload = 0; sz = 1 * 2 ^ 56 })

unfoldable pub create_timer : Timer
create_timer = record { lists = λ p. []; time = 0; starttime = 0; current = 0; current_point = 0 }

-- `skynet_timer_init`; `sec` and `cs` are the results of `systime`, `now` is that of `gettime`
unfoldable pub timer_init : ℕ → ℕ → ℕ → Timer
unfolding create_timer
timer_init sec cs now = record create_timer { starttime = sec; current = cs; current_point = now }

-- `skynet_timeout`. `delay` is the bit pattern of an `int`, so it is at most 0 if it is 0 or at least 2^31.
-- `push` says whether `skynet_context_push` finds a service; the result is what is pushed at once, the
-- timer, and the session, or none for -1.
unfoldable pub timeout : (ℕ → Bool) → ℕ → ℕ → ℕ → Timer → List (ℕ × Message) × Timer × Option ℕ
unfolding response
timeout push h delay s T =
    if delay == 0 || leb (2 ^ 31) delay
    then (
      response (record { expire = 0; handle = h; session = s }) ∷ [],
      T,
      if push h then some s else none,
    )
    else ([], timer_add h s delay T, some s)

-- `n` rounds of `timer_update`, and what each dispatches
unfoldable pub updates : ℕ → Timer → List (List TimerNode) × Timer
updates zero T = ([], T)
updates (suc n) T =
    let (out, T') = timer_update T in let (outs, T'') = updates n T' in (out ∷ outs, T'')

-- `skynet_updatetime`, where `gettime` returns `cp`
unfoldable pub updatetime : ℕ → Timer → List (List TimerNode) × Timer
updatetime cp T =
    if ltb cp T.current_point
    then ([], record T { current_point = cp })
    else if cp == T.current_point
    then ([], T)
    else let diff = (cp - T.current_point) % word in
      updates diff (record T { current_point = cp; current = (T.current + diff) % 2 ^ 64 })
