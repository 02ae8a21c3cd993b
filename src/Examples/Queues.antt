-- ===== src/Examples/Queues.antt =====
-- Message queues: a ring that wraps and expands, and two threads over two queues.
use jsmj_server.Base.{
  copy_ring, ℕ, suc, ◌+◌, ◌≤◌, ◌<◌, ◌≡◌, ◌≢◌, ◌↔◌, ◌⊎◌, refl, Option, none, some, true, List, [],
  ◌∷◌, arith,
}
use jsmj_server.Mq
use jsmj_server.Mq.{
  Message, MessageQueue, pop, put, expand_queue, next_tail, next_head, left_over, raise_threshold,
  len, blank, mq_overload,
}
use jsmj_server.Mq.Ring.{IsValid, contents}
use jsmj_server.Mq.Trace.{push, take, run, run_list, run_refines, pop-overload}
use jsmj_server.GlobalMq.{
  Store, mq_create, globalmq_push, globalmq_pop, mq_push, mq_pop, mq_init, mq_mark_release,
  mq_release, drop_messages,
}
use jsmj_server.GlobalMq.Chain.{listings, Listed}
use jsmj_server.GlobalMq.Drop.{drop_messages_lem}
use jsmj_server.Sched.{System, Reach, start, later, create, launch, fetch, send}
use jsmj_server.Sched.Places.{held}
use jsmj_server.Sched.Safety.{boot, one_owner, exclusive, no_lost_wakeup, no_assertion_fails}

abbrev msg : ℕ → Message
msg k = record { source = k; session = k; payload = k; sz = k }

program : Unit {0}
unfolding Mq.create pop put expand_queue next_tail next_head left_over raise_threshold len copy_ring
    mq_create globalmq_push globalmq_pop mq_push mq_pop mq_init mq_release drop_messages
program = tt

-- three messages in a ring of four places, going round the end
abbrev wrapped : MessageQueue
wrapped = record {
  handle = 7;
  cap = 4;
  head = 2;
  tail = 1;
  release = 0;
  in_global = 1;
  overload = 0;
  overload_threshold = 1;
  queue = msg 3 ∷ blank ∷ msg 1 ∷ msg 2 ∷ [];
  next = none;
}

wrapped-IsValid : IsValid wrapped
wrapped-IsValid = omega arith

contents-wrapped : contents wrapped ≡ msg 1 ∷ msg 2 ∷ msg 3 ∷ []
unfolding program
contents-wrapped = refl

contents-expanded : contents (put (msg 4) wrapped) ≡ msg 1 ∷ msg 2 ∷ msg 3 ∷ msg 4 ∷ []
unfolding program
contents-expanded = refl

run_refines_example :
    run (push (msg 4) ∷ take ∷ []) wrapped ≡ run_list (push (msg 4) ∷ take ∷ []) (contents wrapped)
run_refines_example = run_refines (push (msg 4) ∷ take ∷ []) wrapped-IsValid

wrapped_busy : contents wrapped ≢ []
unfolding program
wrapped_busy = λ e. cc

pop-overload_example :
    ((pop wrapped).1.overload ≡ 2)
    × (2 ≤ (pop wrapped).1.overload_threshold)
    × (1 ≤ (pop wrapped).1.overload_threshold)
unfolding program
pop-overload_example = pop-overload wrapped-IsValid wrapped_busy

drop_messages_lem_example :
    ((drop_messages (suc (len wrapped)) wrapped).0 ≡ contents wrapped)
    × (contents (drop_messages (suc (len wrapped)) wrapped).1 ≡ [])
drop_messages_lem_example = drop_messages_lem wrapped-IsValid

-- Thread 0 creates a queue at address 5 and launches it, it is sent a message, and thread 1 takes it.
abbrev session : (s : System) × Reach 2 boot s
unfolding program
session = (
  _,
  later
      (later
        (later (later start (create 0 5 9 (omega arith) refl refl))
          (launch 0 5 (omega arith) refl refl))
        (send 5 (msg 1) refl refl refl))
      (fetch 1 5 (omega arith) refl refl),
)

one_owner_example :
    (xs : List ℕ) × Listed session.0.store xs
    × ((ys : List ℕ) → Listed session.0.store ys → ys ≡ xs)
    × ((b : ℕ) → listings b xs + held 2 session.0.hold b ≤ 1)
one_owner_example = one_owner session.1

exclusive_example : ◌≡◌ {A = ℕ} 1 1
unfolding program
exclusive_example =
    exclusive session.1 1 1 5 (omega arith) (omega arith) (omega arith) (omega arith)

no_lost_wakeup_example :
    (xs : List ℕ) × Listed session.0.store xs
    × ((b : ℕ)
        → session.0.store.live b ≡ true
        → (contents (session.0.store.mq b) ≢ []) ⊎ ((session.0.store.mq b).release ≢ 0)
        → listings b xs + held 2 session.0.hold b ≡ 1)
no_lost_wakeup_example = no_lost_wakeup session.1

no_assertion_fails_example :
    ((st : Option ℕ × Store) × (globalmq_pop session.0.store ≡ some st))
    × ((t a : ℕ)
        → t < 2
        → 0 < listings a (session.0.hold t)
        → (st : Store) × (globalmq_push a session.0.store ≡ some st))
    × ((a : ℕ) (m : Message)
        → session.0.store.live a ≡ true
        → (session.0.store.mq a).release ≡ 0
        → (st : Store) × (mq_push a m session.0.store ≡ some st))
    × ((a : ℕ)
        → session.0.store.live a ≡ true
        → (mq_mark_release a session.0.store ≡ none) ↔ ((session.0.store.mq a).release ≢ 0))
    × ((t a : ℕ)
        → t < 2
        → session.0.hold t ≡ a ∷ []
        → (st : List Message × Store) × (mq_release a session.0.store ≡ some st))
unfolding program
no_assertion_fails_example = no_assertion_fails session.1
