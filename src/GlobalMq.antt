-- ===== src/GlobalMq.antt =====
-- skynet/skynet-src/skynet_mq.c, the global queue: a list of the message queues that wait for a worker,
-- linked through their `next` fields, and the operations that put a queue on it or take it off.
--
-- A queue is named by its address, a number. An operation is `none` where an assertion of the source
-- fails. Each runs under its spin locks, so it is one step for the other threads.
pub mod Chain
pub mod Laws
pub mod Drop
use jsmj_server.Base.{
  ℕ, zero, suc, ◌≡◌, Bool, true, false, Option, none, some, List, [], ◌∷◌, ◌==◌, if◌then◌else◌,
}
pub use jsmj_server.Base.{update}
use jsmj_server.Mq.{Message, MessageQueue, mq_in_global, create, pop, put, len}

-- All queues, those that are allocated, and the `head` and `tail` of `struct global_queue`.
pub record Store : Type 0 where
  pub mq : ℕ → MessageQueue
  pub live : ℕ → Bool
  pub first : Option ℕ
  pub last : Option ℕ

abbrev pub with_mq : Store → ℕ → MessageQueue → Store
with_mq s a q = record s { mq = update s.mq a q }

-- `skynet_mq_init`. What stands at an address where no queue is allocated is never read.
unfoldable pub mq_init : Store
unfolding create
mq_init = record { mq = λ _. create 0; live = λ _. false; first = none; last = none }

link_last : ℕ → Store → Store
link_last a s = elim s.last [
  | some t ↦ record (with_mq s t (record (s.mq t) { next = some a })) { last = some a }
  | none ↦ record s { first = some a; last = some a }
]

unfoldable pub globalmq_push : ℕ → Store → Option Store
unfolding link_last
globalmq_push a s = elim (s.mq a).next [ some _ ↦ none | none ↦ some (link_last a s) ]

-- `assert(mq == q->tail)`, where the list has become empty
unlink_last : ℕ → Store → Option Store
unlink_last a s = elim s.last [
  | some t ↦ if t == a then some (record s { last = none }) else none
  | none ↦ none
]

cut : ℕ → Store → Store
cut a s = with_mq s a (record (s.mq a) { next = none })

unfoldable pub globalmq_pop : Store → Option (Option ℕ × Store)
unfolding unlink_last cut
globalmq_pop s = elim s.first [
  | none ↦ some (none, s)
  | some a ↦
      let s' = record s { first = (s.mq a).next } in
      elim (s.mq a).next [
        | some b ↦ some (some a, cut a s')
        | none ↦ elim (unlink_last a s') [ some s'' ↦ some (some a, cut a s'') | none ↦ none ]
      ]
]

-- `skynet_mq_create`, at an address that `malloc` chose
unfoldable pub mq_create : ℕ → ℕ → Store → Store
mq_create a handle s = record s { mq = update s.mq a (create handle); live = update s.live a true }

unfoldable pub mq_pop : ℕ → Store → Option Message × Store
mq_pop a s = let (m, q) = pop (s.mq a) in (m, with_mq s a q)

unfoldable pub mq_push : ℕ → Message → Store → Option Store
mq_push a m s =
    let q = put m (s.mq a) in
    if q.in_global == 0
    then globalmq_push a (with_mq s a (record q { in_global = mq_in_global }))
    else some (with_mq s a q)

unfoldable pub mq_mark_release : ℕ → Store → Option Store
mq_mark_release a s =
    let q = s.mq a in
    let s' = with_mq s a (record q { release = 1 }) in
    if q.release == 0
    then if q.in_global == mq_in_global then some s' else globalmq_push a s'
    else none

-- The loop of `_drop_queue`: every message goes to `drop_func`, in order. The length is the fuel.
unfoldable pub drop_messages : ℕ → MessageQueue → List Message × MessageQueue
drop_messages zero q = ([], q)
drop_messages (suc fuel) q = elim (pop q).0 [
  | none ↦ ([], (pop q).1)
  | some m ↦ (m ∷ (drop_messages fuel (pop q).1).0, (drop_messages fuel (pop q).1).1)
]

-- `_drop_queue` and `_release`: the queue is freed
unfoldable pub drop_queue : ℕ → Store → Option (List Message × Store)
drop_queue a s =
    let (ms, q) = drop_messages (suc (len (s.mq a))) (s.mq a) in
    elim q.next [
      | some _ ↦ none
      | none ↦ some (ms, record (with_mq s a q) { live = update s.live a false })
    ]

unfoldable pub mq_release : ℕ → Store → Option (List Message × Store)
mq_release a s =
    if (s.mq a).release == 0
    then elim (globalmq_push a s) [ none ↦ none | some s' ↦ some ([], s') ]
    else drop_queue a s
