-- ===== src/Examples/Timers.antt =====
-- The timing wheel: timers that cascade from the upper levels, and across the wrap of the time.
use jsmj_server.Base.{◌-◌, ◌^◌, ◌≡◌, ◌≢◌, refl, some, [], ◌∷◌, arith, get_or, length}
use jsmj_server.Timer.{
  TimerNode, Timer, far, place, shifted, timer_add, timer_update, timer_shift, timer_execute,
  updates, updatetime, create_timer, add_node, move_list, add_nodes,
}
use jsmj_server.Timer.Count.{count}
use jsmj_server.Timer.Wheel.{IsWheel}
use jsmj_server.Timer.Fire.{timer_update_lem, Round}
use jsmj_server.Timer.Deadline.{new_node, updates_fire, timer_add_fires, updatetime_lem}

program : Unit {0}
unfolding create_timer timer_add add_node place shifted timer_shift move_list add_nodes
    timer_execute timer_update updates updatetime
program = tt

-- an empty wheel just before its time wraps
abbrev late : Timer
late = record { lists = λ p. []; time = 2 ^ 32 - 2; starttime = 0; current = 0; current_point = 0 }

late-IsWheel : IsWheel late
late-IsWheel = record { time_fits = omega arith; placed = λ p. tt }

-- delay 300 starts at level 0 of the upper lists
place_300 : place 300 0 ≡ far 0 1
unfolding program
place_300 = refl

fires_at_300 :
    get_or (updates 300 (timer_add 7 1 300 create_timer)).0 299 []
    ≡ record { expire = 300; handle = 7; session = 1 } ∷ []
unfolding program
fires_at_300 = refl

shifted_wrap : shifted 0 ≡ some (far 3 0)
unfolding program
shifted_wrap = refl

timer_update_lem_example :
    IsWheel (timer_update (timer_add 7 1 1 late)).1
    × ((x : TimerNode)
        → Round
            (timer_add 7 1 1 late)
            x
            (timer_update (timer_add 7 1 1 late)).0
            (timer_update (timer_add 7 1 1 late)).1)
timer_update_lem_example =
    timer_update_lem (timer_add 7 1 1 late)
      (timer_add_fires 7 1 1 late 1 0 late-IsWheel (omega arith) (omega arith) (omega arith)).0

timer_add_fires_example :
    let x = new_node 7 1 3 late in
    let T' = timer_add 7 1 3 late in
    IsWheel T'
    × (count x (get_or (updates 5 T').0 2 []) ≡ 1)
    × ((y : TimerNode)
        → y ≢ x
        → count y (get_or (updates 5 T').0 2 []) ≡ count y (get_or (updates 5 late).0 2 []))
timer_add_fires_example =
    timer_add_fires 7 1 3 late 5 2 late-IsWheel (omega arith) (omega arith) (omega arith)

updates_fire_example :
    count (new_node 7 1 3 late) (get_or (updates 5 (timer_add 7 1 3 late)).0 1 []) ≡ 0
unfolding program
updates_fire_example =
    updates_fire 5 1 (timer_add 7 1 3 late) (new_node 7 1 3 late) timer_add_fires_example.0
      (omega arith)

updatetime_lem_example :
    IsWheel (updatetime 4 late).1
    × (length (updatetime 4 late).0 ≡ 4)
    × ((updatetime 4 late).1.time ≡ 2)
    × ((updatetime 4 late).1.current_point ≡ 4)
updatetime_lem_example = updatetime_lem 4 late late-IsWheel (omega arith)
