-- ===== src/NetPack.antt =====
-- skynet/lualib-src/lua-netpack.c: the bytes of a connection cut into packets, each of two bytes of size and the data.
--
-- The queue is the userdata that the Lua side keeps, `none` before there is one. A list `hash[h]` is a list, and a
-- buffer is the list of the bytes written to it. A read past the end of the block is `none`.
pub mod Frames
pub mod Ring
pub mod Entries
pub mod Sound
pub mod More
pub mod Results
pub mod Filter
pub mod Dispatch
pub mod Pop
pub mod Stream
pub mod Packed
pub mod Events
use jsmj_server.Base.{
  ℕ, zero, suc, ◌+◌, ◌-◌, ◌*◌, ◌/◌, ◌%◌, ◌^◌, Option, none, some, List, [], ◌∷◌, ◌++◌, ltb, leb,
  ◌==◌, if◌then◌else◌, ◌>>=◌, length, take, drop, get_or, set, replicate, update, copy_ring,
}

-- `struct netpack`
pub record Pack : Type 0 where
  pub id : ℕ
  pub size : ℕ
  pub buffer : List ℕ

-- `struct uncomplete`, where a `read` of -1 is `none`
pub record Uncomplete : Type 0 where
  pub pack : Pack
  pub read : Option ℕ
  pub header : ℕ

-- `struct queue`
pub record Queue : Type 0 where
  pub cap : ℕ
  pub head : ℕ
  pub tail : ℕ
  pub hash : ℕ → List Uncomplete
  pub queue : List Pack

-- `QUEUESIZE` and `HASHSIZE`
abbrev pub queue_size : ℕ
queue_size = 1024

abbrev pub hash_size : ℕ
hash_size = 4096

-- an element of an array that was not written
abbrev pub blank : Pack
blank = record { id = 0; size = 0; buffer = [] }

unfoldable pub hash_fd : ℕ → ℕ
hash_fd fd = (fd / 2 ^ 24 + fd / 2 ^ 12 + fd) % hash_size

unfoldable pub new_queue : Queue
new_queue = record {
  cap = queue_size;
  head = 0;
  tail = 0;
  hash = λ h. [];
  queue = replicate queue_size blank;
}

abbrev pub get_queue : Option Queue → Queue
get_queue none = new_queue
get_queue (some q) = q

-- The walk of `find_uncomplete` along a list: what it found, and the list without it.
unfoldable pub find_in : ℕ → List Uncomplete → Option Uncomplete × List Uncomplete
find_in fd [] = (none, [])
find_in fd (uc ∷ next) =
    let later = find_in fd next in
    if uc.pack.id == fd then (some uc, next) else (later.0, uc ∷ later.1)

unfoldable pub find_uncomplete : ℕ → Option Queue → Option Uncomplete × Option Queue
find_uncomplete fd none = (none, none)
find_uncomplete fd (some q) =
    let found = find_in fd (q.hash (hash_fd fd)) in
    (found.0, some (record q { hash = update q.hash (hash_fd fd) found.1 }))

unfoldable pub expand_queue : Queue → Queue
unfolding copy_ring
expand_queue q = record {
  cap = q.cap + queue_size;
  head = 0;
  tail = q.cap;
  hash = q.hash;
  queue = copy_ring blank q.queue q.cap q.head 0 q.cap (replicate (q.cap + queue_size) blank);
}

-- `if (++q->tail >= q->cap) q->tail -= q->cap`
abbrev pub next_tail : Queue → ℕ
next_tail q = if leb q.cap (q.tail + 1) then q.tail + 1 - q.cap else q.tail + 1

-- The first `size` bytes of the buffer, as one packet. With `clone` they are copied.
unfoldable pub push_data : ℕ → List ℕ → ℕ → Queue → Queue
unfolding expand_queue
push_data fd buffer size q =
    let np : Pack = record { id = fd; size = size; buffer = take size buffer } in
    let pushed = record q { queue = set q.queue q.tail np; tail = next_tail q } in
    if q.head == next_tail q then expand_queue pushed else pushed

-- Puts an entry in front of the list of its socket, as `save_uncomplete` does.
unfoldable pub save_uncomplete : Uncomplete → Queue → Queue
save_uncomplete uc q =
    let h = hash_fd uc.pack.id in record q { hash = update q.hash h (uc ∷ q.hash h) }

-- what the callers of `save_uncomplete` write to the new entry: one byte of the size
abbrev pub half_entry : ℕ → ℕ → Uncomplete
half_entry fd first = record {
  pack = record { id = fd; size = 0; buffer = [] };
  read = none;
  header = first;
}

-- or the size and the first bytes of the data
abbrev pub part_entry : ℕ → ℕ → List ℕ → Uncomplete
part_entry fd size bytes = record {
  pack = record { id = fd; size = size; buffer = bytes };
  read = some (length bytes);
  header = 0;
}

-- `(int)buffer[0] << 8 | (int)buffer[1]`, of bytes
abbrev pub read_size : ℕ → ℕ → ℕ
read_size a b = a * 2 ^ 8 + b

-- The recursion takes two bytes or more each time, so that more rounds than bytes are enough. Without a byte the size is read
-- past the block.
unfoldable pub push_more : ℕ → ℕ → List ℕ → Queue → Option Queue
unfolding push_data save_uncomplete
push_more zero fd buffer q = none
push_more (suc rounds) fd [] q = none
push_more (suc rounds) fd (first ∷ []) q = some (save_uncomplete (half_entry fd first) q)
push_more (suc rounds) fd (a ∷ b ∷ buffer) q =
    let pack_size = read_size a b in
    let pushed = push_data fd buffer pack_size q in
    let later = push_more rounds fd (drop pack_size buffer) pushed in
    if ltb (length buffer) pack_size
    then some (save_uncomplete (part_entry fd pack_size buffer) q)
    else (if ltb 0 (length buffer - pack_size) then later else some pushed)

unfoldable pub close_uncomplete : ℕ → Option Queue → Option Queue
unfolding find_uncomplete
close_uncomplete fd q = (find_uncomplete fd q).1

-- what `netpack.filter` returns besides the queue
pub data Filtered : Type 0 where
  nothing : Filtered
  type_data : ℕ → List ℕ → Filtered
  type_more : Filtered
  type_error : ℕ → List ℕ → Filtered
  type_open : ℕ → List ℕ → Filtered
  type_close : ℕ → Filtered
  type_warning : ℕ → ℕ → Filtered

-- `type_more`, with the queue that `push_more` made
abbrev pub with_more : Option Queue → Option (Filtered × Option Queue)
with_more none = none
with_more (some q) = some (type_more, some q)

-- `filter_data_` from `int need` on, where the size of the packet is known and `read` bytes of it are there
unfoldable pub fill_body :
    ℕ → Uncomplete → ℕ → List ℕ → Option Queue → Option (Filtered × Option Queue)
unfolding push_data push_more save_uncomplete
fill_body fd uc read buffer q =
    let need = uc.pack.size - read in
    let before = take read uc.pack.buffer in
    let whole = before ++ take need buffer in
    let rest = drop need buffer in
    let pushed = push_data fd whole uc.pack.size (get_queue q) in
    let later = push_more (suc (length rest)) fd rest pushed in
    let filled = record uc {
      pack = record { id = uc.pack.id; size = uc.pack.size; buffer = before ++ buffer };
      read = some (read + length buffer);
    } in
    if ltb (length buffer) need
    then some (nothing, some (save_uncomplete filled (get_queue q)))
    else (if length buffer - need == 0 then some (type_data fd whole, q) else with_more later)

-- the entry when the second byte of the size arrives
abbrev pub sized : Uncomplete → ℕ → Uncomplete
sized uc b = record uc {
  pack = record { id = uc.pack.id; size = read_size uc.header b; buffer = [] };
  read = some 0;
}

-- the branch of `filter_data_` with an entry
unfoldable pub fill_entry :
    ℕ → Uncomplete → List ℕ → Option Queue → Option (Filtered × Option Queue)
unfolding fill_body
fill_entry fd uc buffer q = elim uc.read [
  | some read ↦ fill_body fd uc read buffer q
  | none ↦ elim buffer [ [] ↦ none | b ∷ rest ↦ fill_body fd (sized uc b) 0 rest q ]
]

-- the branch of `filter_data_` without an entry
unfoldable pub begin : ℕ → List ℕ → Option Queue → Option (Filtered × Option Queue)
unfolding push_data push_more save_uncomplete
begin fd [] q = none
begin fd (first ∷ []) q = some (nothing, some (save_uncomplete (half_entry fd first) (get_queue q)))
begin fd (a ∷ b ∷ buffer) q =
    let pack_size = read_size a b in
    let rest = drop pack_size buffer in
    let pushed = push_data fd buffer pack_size (get_queue q) in
    let later = push_more (suc (length rest)) fd rest pushed in
    let saved = save_uncomplete (part_entry fd pack_size buffer) (get_queue q) in
    if ltb (length buffer) pack_size
    then some (nothing, some saved)
    else (if length buffer == pack_size then some (type_data fd buffer, q) else with_more later)

-- `filter_data_` after its search
unfoldable pub after_search :
    ℕ → List ℕ → Option Uncomplete × Option Queue → Option (Filtered × Option Queue)
unfolding fill_entry begin
after_search fd buffer (none, q) = begin fd buffer q
after_search fd buffer (some uc, q) = fill_entry fd uc buffer q

unfoldable pub filter_data : ℕ → List ℕ → Option Queue → Option (Filtered × Option Queue)
unfolding find_uncomplete after_search
filter_data fd buffer q = after_search fd buffer (find_uncomplete fd q)

-- `struct skynet_socket_message` by its type; other types are `other_event`.
pub data SocketEvent : Type 0 where
  data_event : ℕ → List ℕ → SocketEvent
  connect_event : SocketEvent
  close_event : ℕ → SocketEvent
  accept_event : ℕ → List ℕ → SocketEvent
  error_event : ℕ → List ℕ → SocketEvent
  warning_event : ℕ → ℕ → SocketEvent
  other_event : SocketEvent

unfoldable pub lfilter : SocketEvent → Option Queue → Option (Filtered × Option Queue)
unfolding filter_data close_uncomplete
lfilter (data_event id bytes) q = filter_data id bytes q
lfilter connect_event q = some (nothing, q)
lfilter (close_event id) q = some (type_close id, close_uncomplete id q)
lfilter (accept_event ud text) q = some (type_open ud text, q)
lfilter (error_event id text) q = some (type_error id text, close_uncomplete id q)
lfilter (warning_event id ud) q = some (type_warning id ud, q)
lfilter other_event q = some (nothing, q)

-- `if (++q->head >= q->cap) q->head = 0`
abbrev pub next_head : Queue → ℕ
next_head q = if leb q.cap (q.head + 1) then 0 else q.head + 1

unfoldable pub lpop : Option Queue → Option Pack × Option Queue
lpop none = (none, none)
lpop (some q) =
    if q.head == q.tail
    then (none, some q)
    else (some (get_or q.queue q.head blank), some (record q { head = next_head q }))

unfoldable pub lclear : Option Queue → Option Queue
lclear none = none
lclear (some q) = some (record q { head = 0; tail = 0; hash = λ h. [] })

unfoldable pub write_size : ℕ → List ℕ
write_size len = len / 2 ^ 8 % 2 ^ 8 ∷ len % 2 ^ 8 ∷ []

-- The error of a packet that is too long is `none`.
unfoldable pub lpack : List ℕ → Option (List ℕ)
unfolding write_size
lpack bytes =
    if leb (2 ^ 16) (length bytes) then none else some (write_size (length bytes) ++ bytes)

-- the packet that `type_data` gives at once, as `netpack.pop` would
abbrev pub packet : ℕ → List ℕ → Pack
packet fd bytes = record { id = fd; size = length bytes; buffer = bytes }
