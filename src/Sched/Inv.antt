-- ===== src/Sched/Inv.antt =====
-- What holds between the `in_global` and `release` flags of a queue, its messages, and where it is.
pub mod Steps
use native.Mathlib.Decide.{ℕ_discrete}
use jsmj_server.Base.{
  ℕ, zero, suc, ◌+◌, ◌≤◌, ◌<◌, ◌≡◌, ◌≢◌, refl, subst, sym, Bool, true, false, Option, none, some,
  List, [], ◌∷◌, arith,
}
use jsmj_server.Mq.{MessageQueue, len}
use jsmj_server.Mq.Ring.{IsValid, contents}
use jsmj_server.GlobalMq.{Store}
use jsmj_server.GlobalMq.Chain.{Listed, listings}
use jsmj_server.GlobalMq.Laws.{body, Same}
use jsmj_server.Sched.{System}
use jsmj_server.Sched.Places.{held}

-- A queue that is allocated stands at `places` places, on the global queue or with a thread.
pub record Placed (q : MessageQueue) (places : ℕ) : Type 0 where
  pub ring : IsValid q
  pub flag : q.in_global ≤ 1
  pub working : q.release ≡ 0 → places ≡ q.in_global
  pub leaving : q.release ≢ 0 → places ≡ 1
  pub waiting : contents q ≢ [] → places ≡ 1

abbrev pub Fine : MessageQueue → Bool → ℕ → Type 0
Fine q true p = Placed q p
Fine q false p = p ≡ 0

-- `places` of the queue `b`, where the global queue is `xs`
abbrev pub places : ℕ → (ℕ → List ℕ) → List ℕ → ℕ → ℕ
places n hold xs b = listings b xs + held n hold b

pub record Inv (n : ℕ) (s : System) : Type 0 where
  pub listing : List ℕ
  pub listed : Listed s.store listing
  pub fine : (b : ℕ) → Fine (s.store.mq b) (s.store.live b) (places n s.hold listing b)

Fine-of_body : (q : MessageQueue) (l : Bool) (p : ℕ) → Fine (body q) l p → Fine q l p
unfolding len
Fine-of_body q true p f = record {
  ring = record {
    storage = f.ring.storage;
    head_in = f.ring.head_in;
    tail_in = f.ring.tail_in;
    threshold_pos = f.ring.threshold_pos;
  };
  flag = f.flag;
  working = f.working;
  leaving = f.leaving;
  waiting = f.waiting;
}
Fine-of_body q false p f = f

Fine-to_body : (q : MessageQueue) (l : Bool) (p : ℕ) → Fine q l p → Fine (body q) l p
unfolding len
Fine-to_body q true p f = record {
  ring = record {
    storage = f.ring.storage;
    head_in = f.ring.head_in;
    tail_in = f.ring.tail_in;
    threshold_pos = f.ring.threshold_pos;
  };
  flag = f.flag;
  working = f.working;
  leaving = f.leaving;
  waiting = f.waiting;
}
Fine-to_body q false p f = f

pub Fine-congr :
    (q q' : MessageQueue) (l : Bool) (p : ℕ) → body q' ≡ body q → Fine q l p → Fine q' l p
Fine-congr q q' l p e f =
    Fine-of_body q' l p (subst (λ r. Fine r l p) (sym e) (Fine-to_body q l p f))

-- A queue stands at one place at most.
pub places-le-one : (q : MessageQueue) (l : Bool) (p : ℕ) → Fine q l p → p ≤ 1
places-le-one q true p f = elim (ℕ_discrete q.release 0) [
  | yes e ↦ omega (arith, f.working e, f.flag)
  | no ne ↦ omega (arith, f.leaving ne)
]
places-le-one q false p f = omega arith
