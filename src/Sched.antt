-- ===== src/Sched.antt =====
-- skynet/skynet-src/skynet_server.c, the part of `skynet_context_new`, `skynet_context_message_dispatch` and
-- `delete_context` that moves message queues between the global queue and the threads. `n` threads
-- interleave; a step is one call that runs under a lock.
--
-- A thread that pops messages has the context of the queue grabbed, so its queue is not marked for
-- release (`deliver`, `drain`); nor is a queue that a message is pushed to (`send`).
pub mod Places
pub mod Inv
pub mod Safety
use jsmj_server.Base.{ℕ, zero, suc, ◌+◌, ◌<◌, ◌≡◌, true, false, Option, none, some, List, [], ◌∷◌}
use jsmj_server.Mq.{Message}
use jsmj_server.GlobalMq.{
  Store, update, globalmq_push, globalmq_pop, mq_create, mq_pop, mq_push, mq_mark_release,
  mq_release,
}

-- `hold t`: the queues that thread `t` holds, between taking them off the global queue and putting
-- them back. There are two while it puts the second back.
pub record System : Type 0 where
  pub store : Store
  pub hold : ℕ → List ℕ

module _ (n : ℕ) (s : System) where
  pub data Step : System → Type 0 where
    -- `skynet_context_new`: `skynet_mq_create`, then the service initialises. Where a callback makes a service while its
    -- thread holds a queue, the thread counts as another one for this call.
    create :
        (t a h : ℕ)
        → t < n
        → s.hold t ≡ []
        → s.store.live a ≡ false
        → Step (record { store = mq_create a h s.store; hold = update s.hold t (a ∷ []) })
    -- `skynet_globalmq_push` at its end
    launch :
        (t a : ℕ) {st : Store}
        → t < n
        → s.hold t ≡ a ∷ []
        → globalmq_push a s.store ≡ some st
        → Step (record { store = st; hold = update s.hold t [] })
    -- `skynet_context_message_dispatch`: `q = skynet_globalmq_pop()`
    fetch :
        (t a : ℕ) {st : Store}
        → t < n
        → s.hold t ≡ []
        → globalmq_pop s.store ≡ some (some a, st)
        → Step (record { store = st; hold = update s.hold t (a ∷ []) })
    -- `skynet_mq_pop` that returns 0
    deliver :
        (t a : ℕ) (m : Message) {st : Store}
        → t < n
        → s.hold t ≡ a ∷ []
        → (s.store.mq a).release ≡ 0
        → mq_pop a s.store ≡ (some m, st)
        → Step (record { store = st; hold = s.hold })
    -- `skynet_mq_pop` that returns 1: the thread forgets the queue
    drain :
        (t a : ℕ) {st : Store}
        → t < n
        → s.hold t ≡ a ∷ []
        → (s.store.mq a).release ≡ 0
        → mq_pop a s.store ≡ (none, st)
        → Step (record { store = st; hold = update s.hold t [] })
    -- after the batch: `nq = skynet_globalmq_pop()`, not NULL
    swap :
        (t a b : ℕ) {st : Store}
        → t < n
        → s.hold t ≡ a ∷ []
        → globalmq_pop s.store ≡ some (some b, st)
        → Step (record { store = st; hold = update s.hold t (b ∷ a ∷ []) })
    -- `skynet_globalmq_push(q); q = nq;`
    yield_queue :
        (t a b : ℕ) {st : Store}
        → t < n
        → s.hold t ≡ b ∷ a ∷ []
        → globalmq_push a s.store ≡ some st
        → Step (record { store = st; hold = update s.hold t (b ∷ []) })
    -- `skynet_context_push`
    send :
        (a : ℕ) (m : Message) {st : Store}
        → s.store.live a ≡ true
        → (s.store.mq a).release ≡ 0
        → mq_push a m s.store ≡ some st
        → Step (record { store = st; hold = s.hold })
    -- `delete_context`
    mark :
        (a : ℕ) {st : Store}
        → s.store.live a ≡ true
        → mq_mark_release a s.store ≡ some st
        → Step (record { store = st; hold = s.hold })
    -- `skynet_mq_release`, where the context of the queue is gone
    give_up :
        (t a : ℕ) (ms : List Message) {st : Store}
        → t < n
        → s.hold t ≡ a ∷ []
        → mq_release a s.store ≡ some (ms, st)
        → Step (record { store = st; hold = update s.hold t [] })

-- the states that `n` threads can reach from `s`
pub data Reach (n : ℕ) (s : System) : System → Type 0 where
  start : Reach n s s
  later : {u v : System} → Reach n s u → Step n u v → Reach n s v
