-- ===== src/Mq.antt =====
-- skynet/skynet-src/skynet_mq.c, one message queue: the ring of messages of a service, which doubles when it
-- is full, and its overload counter. The global queue of queues is modelled in GlobalMq.
--
-- A C `int` that counts messages is a natural number: it would overflow, which is undefined in C,
-- only past 2^30 queued messages. The ring lock is held over each whole function.
pub mod Ring
pub mod Frame
pub mod Refine
pub mod Trace
use jsmj_server.Base.{
  copy_ring, ℕ, zero, suc, ◌+◌, ◌-◌, ◌*◌, ◌%◌, Option, none, some, List, ltb, leb, ◌==◌,
  if◌then◌else◌, get_or, set, replicate,
}

-- `struct skynet_message`; the queue only moves its words.
pub record Message : Type 0 where
  pub source : ℕ
  pub session : ℕ
  pub payload : ℕ
  pub sz : ℕ

-- the bytes of memory that nothing has written yet
abbrev pub blank : Message
blank = record { source = 0; session = 0; payload = 0; sz = 0 }

-- `struct message_queue`; `next` is the address of the next queue in the global queue.
pub record MessageQueue : Type 0 where
  pub handle : ℕ
  pub cap : ℕ
  pub head : ℕ
  pub tail : ℕ
  pub release : ℕ
  pub in_global : ℕ
  pub overload : ℕ
  pub overload_threshold : ℕ
  pub queue : List Message
  pub next : Option ℕ

abbrev pub default_queue_size : ℕ
default_queue_size = 64

abbrev pub mq_overload : ℕ
mq_overload = 1024

abbrev pub mq_in_global : ℕ
mq_in_global = 1

unfoldable pub create : ℕ → MessageQueue
create h = record {
  handle = h;
  cap = default_queue_size;
  head = 0;
  tail = 0;
  release = 0;
  in_global = mq_in_global;
  overload = 0;
  overload_threshold = mq_overload;
  queue = replicate default_queue_size blank;
  next = none;
}

unfoldable pub len : MessageQueue → ℕ
len q = if leb q.head q.tail then q.tail - q.head else q.tail + q.cap - q.head

-- `skynet_mq_overload`: reads the counter and resets it.
unfoldable pub take_overload : MessageQueue → ℕ × MessageQueue
take_overload q = if q.overload == 0 then (0, q) else (q.overload, record q { overload = 0 })

-- `while (length > q->overload_threshold)`; the length is the fuel.
unfoldable pub raise_threshold : ℕ → ℕ → MessageQueue → MessageQueue
raise_threshold zero l q = q
raise_threshold (suc fuel) l q =
    let more =
      raise_threshold fuel l
        (record q { overload = l; overload_threshold = q.overload_threshold * 2 }) in
    if ltb q.overload_threshold l then more else q

-- The head and the length after one message is taken.
unfoldable pub next_head : MessageQueue → ℕ
next_head q = if leb q.cap (q.head + 1) then 0 else q.head + 1

unfoldable pub left_over : MessageQueue → ℕ
unfolding next_head
left_over q =
    if ltb q.tail (next_head q) then q.tail + q.cap - next_head q else q.tail - next_head q

-- `none` is the return value 1: the queue was empty, and leaves the global queue.
unfoldable pub pop : MessageQueue → Option Message × MessageQueue
pop q =
    if q.head == q.tail
    then (none, record q { overload_threshold = mq_overload; in_global = 0 })
    else (
      some (get_or q.queue q.head blank),
      raise_threshold (left_over q) (left_over q) (record q { head = next_head q }),
    )

unfoldable pub expand_queue : MessageQueue → MessageQueue
unfolding copy_ring
expand_queue q = record q {
  queue = copy_ring blank q.queue q.cap q.head 0 q.cap (replicate (q.cap * 2) blank);
  head = 0;
  tail = q.cap;
  cap = q.cap * 2;
}

-- `skynet_mq_push` up to its test of `in_global`: the write, the advance of the tail, and the expansion
unfoldable pub next_tail : MessageQueue → ℕ
next_tail q = if leb q.cap (q.tail + 1) then 0 else q.tail + 1

unfoldable pub put : Message → MessageQueue → MessageQueue
put m q =
    let q' = record q { queue = set q.queue q.tail m; tail = next_tail q } in
    if q.head == next_tail q then expand_queue q' else q'
