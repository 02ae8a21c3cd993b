-- ===== src/Sched/Inv/Steps.antt =====
-- Each step keeps the invariant: first those that only move a queue.
pub mod Moves
pub mod Changes
pub mod Held
pub mod Sent
pub mod Given
use jsmj_server.Base.{ℕ}
use jsmj_server.Sched.{
  System, Step, create, launch, fetch, deliver, drain, swap, yield_queue, send, mark, give_up,
}
use jsmj_server.Sched.Inv.{Inv}
use Moves.{launch-Inv, fetch-Inv, swap-Inv, yield_queue-Inv}
use Held.{create-Inv, deliver-Inv, drain-Inv}
use Sent.{send-Inv, mark-Inv}
use Given.{give_up-Inv}

pub Step-Inv : {n : ℕ} {s u : System} → Step n s u → Inv n s → Inv n u
Step-Inv (create t a h lt e dead) i = create-Inv i t a lt h e dead
Step-Inv (launch t a lt h e) i = launch-Inv i t a lt h e
Step-Inv (fetch t a lt h e) i = fetch-Inv i t a lt h e
Step-Inv (deliver t a m lt h r e) i = deliver-Inv i t a lt h m r e
Step-Inv (drain t a lt h r e) i = drain-Inv i t a lt h r e
Step-Inv (swap t a b lt h e) i = swap-Inv i t a lt b h e
Step-Inv (yield_queue t a b lt h e) i = yield_queue-Inv i t a lt b h e
Step-Inv (send a m alive r e) i = send-Inv i a alive m r e
Step-Inv (mark a alive e) i = mark-Inv i a alive e
Step-Inv (give_up t a ms lt h e) i = give_up-Inv i t a lt h ms e
