-- ===== src/Mq/Ring.antt =====
-- The ring of skynet_mq.c: its invariant, and the messages that it holds in order.
use jsmj_server.Base.{◌<◌, ◌≡◌, List, length, ring_slice}
use jsmj_server.Mq.{Message, MessageQueue, blank, len}

pub record IsValid (q : MessageQueue) : Type 0 where
  pub storage : length q.queue ≡ q.cap
  pub head_in : q.head < q.cap
  pub tail_in : q.tail < q.cap
  pub threshold_pos : 0 < q.overload_threshold

abbrev pub contents : MessageQueue → List Message
contents q = ring_slice blank q.queue q.cap q.head 0 (len q)
