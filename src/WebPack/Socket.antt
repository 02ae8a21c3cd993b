-- ===== src/WebPack/Socket.antt =====
-- The packets of the sockets in lualib-src/lua-websocketnetpack.c: `push_more`, `filter_data_` and the functions of the library.
use jsmj_server.Base.{
  ℕ, zero, suc, ◌+◌, ◌-◌, Bool, true, false, not, ◌&&◌, Option, none, some, ◌>>=◌, List, [], ◌∷◌,
  ◌++◌, ltb, leb, ◌==◌, if◌then◌else◌, length, take, drop, get_or, update, min,
}
use jsmj_server.NetPack
use jsmj_server.NetPack.{
  Pack, Filtered, nothing, type_data, type_more, type_error, type_open, type_close, type_warning,
  SocketEvent, data_event, connect_event, close_event, accept_event, error_event, warning_event,
  other_event,
}
use jsmj_server.WebPack.{
  Size, header_short, header_invalid, size_negative, pack_size, max_packsize, headersize, read_size,
  Masking, masking_of, decode_wsmask_data, get_http_header,
}

-- `struct uncomplete`: a `read` of -1 is `none`, and `header` is its first `header_size` bytes.
pub record Uncomplete : Type 0 where
  pub pack : Pack
  pub header : List ℕ
  pub read : Option ℕ
  pub masking : Masking

-- `struct queue`: the packets that wait, and the incomplete packet of each socket. The table of `ring` is not used.
pub record Queue : Type 0 where
  pub ring : NetPack.Queue
  pub uncomplete : ℕ → Option Uncomplete

unfoldable pub new_queue : Queue
unfolding NetPack.new_queue
new_queue = record { ring = NetPack.new_queue; uncomplete = λ fd. none }

-- The entry that `find_uncomplete` returns is taken off.
unfoldable pub find_uncomplete : ℕ → Queue → Option Uncomplete × Queue
find_uncomplete fd q = (q.uncomplete fd, record q { uncomplete = update q.uncomplete fd none })

-- what the callers of `save_uncomplete` make of it
unfoldable pub save_uncomplete : ℕ → Uncomplete → Queue → Queue
save_uncomplete fd uc q = record q { uncomplete = update q.uncomplete fd (some uc) }

unfoldable pub push_data : ℕ → List ℕ → ℕ → Queue → Queue
unfolding NetPack.push_data
push_data fd buffer size q = record q { ring = NetPack.push_data fd buffer size q.ring }

-- One test of the loop around `read_size`: two bytes are thrown away where they are no header or the packet is too long,
-- and, with `below`, where the size is negative.
abbrev pub size_step : Bool → Size → List ℕ → Size × List ℕ → Size × List ℕ
size_step below header_short buffer later = (header_short, buffer)
size_step below header_invalid buffer later = later
size_step below size_negative buffer later = if below then later else (size_negative, buffer)
size_step below (pack_size offset size mask) buffer later =
    if ltb max_packsize size then later else (pack_size offset size mask, buffer)

-- the loop; a round more than bytes is enough
unfoldable pub size_loop : Bool → ℕ → List ℕ → Size × List ℕ
unfolding read_size
size_loop below zero buffer = (header_short, buffer)
size_loop below (suc rounds) buffer =
    size_step below (read_size buffer) buffer (size_loop below rounds (drop 2 buffer))

-- the size of the next packet, and the buffer from its header on; during the handshake the packet is an HTTP header
unfoldable pub next_size : Bool → Bool → List ℕ → Option (Size × List ℕ)
unfolding size_loop get_http_header
next_size true below buffer = do
  found ← get_http_header buffer
  some (elim found [ none ↦ header_short | some n ↦ pack_size 0 n none ], buffer)
next_size false below buffer = some (size_loop below (suc (length buffer)) buffer)

-- the entry of a header that is not complete; the bytes must fit into its array
abbrev pub header_entry : ℕ → List ℕ → Option Uncomplete
header_entry fd bytes =
    if leb (length bytes) headersize
    then some (record {
      pack = record { id = fd; size = 0; buffer = [] };
      header = bytes;
      read = none;
      masking = masking_of none;
    })
    else none

-- the entry of a packet whose data are not complete
abbrev pub part_entry : ℕ → ℕ → Option (List ℕ) → List ℕ → Uncomplete
part_entry fd size mask bytes =
    let decoded = decode_wsmask_data bytes (length bytes) (masking_of mask) in
    record {
      pack = record { id = fd; size = size; buffer = decoded.0 };
      header = [];
      read = some (length bytes);
      masking = decoded.1;
    }

-- `push_more` from the test for -1 on; `again` is its call of itself
unfoldable pub push_step :
    ℕ → Bool → (List ℕ → Queue → Option Queue) → Queue → Size × List ℕ → Option Queue
unfolding push_data save_uncomplete decode_wsmask_data
push_step fd handshake again q (header_short, buffer) =
    header_entry fd buffer >>= λ uc. some (save_uncomplete fd uc q)
push_step fd handshake again q (header_invalid, buffer) = none
push_step fd handshake again q (size_negative, buffer) = none
push_step fd handshake again q (pack_size offset size mask, buffer) =
    let bytes = drop offset buffer in
    let decoded = (decode_wsmask_data bytes size (masking_of mask)).0 in
    let pushed = push_data fd decoded size q in
    let later = again (drop size bytes) pushed in
    if ltb (length bytes) size && not handshake
    then some (save_uncomplete fd (part_entry fd size mask bytes) q)
    else (if ltb size (length bytes) then later else some pushed)

-- Each round takes a packet, so that a round more than bytes is enough.
unfoldable pub push_more : ℕ → ℕ → List ℕ → Bool → Queue → Option Queue
unfolding next_size push_step
push_more zero fd buffer handshake q = none
push_more (suc rounds) fd buffer handshake q =
    next_size handshake true buffer
    >>= push_step fd handshake (λ rest pushed. push_more rounds fd rest handshake pushed) q

unfoldable pub close_uncomplete : ℕ → Queue → Queue
unfolding find_uncomplete
close_uncomplete fd q = (find_uncomplete fd q).1

-- One round of the loop of `filter_data_` that moves bytes to the header: the loop stops at a complete header, and where
-- no bytes are left.
abbrev pub header_step :
    List ℕ → Option (Size × List ℕ × List ℕ) → Size × List ℕ → Option (Size × List ℕ × List ℕ)
header_step buffer later (pack_size offset size mask, header) =
    some (pack_size offset size mask, header, buffer)
header_step [] later (size, header) = some (size, header, [])
header_step (b ∷ buffer) later (size, header) = later

-- the loop: the size, the header, and the bytes that are left
unfoldable pub header_loop : Bool → List ℕ → List ℕ → Option (Size × List ℕ × List ℕ)
unfolding next_size
header_loop handshake header [] = some (pack_size 0 0 none, header, [])
header_loop handshake header (b ∷ buffer) =
    let found = next_size handshake false (header ++ b ∷ []) in
    let later = found >>= λ f. header_loop handshake f.1 buffer in
    if ltb (length header) headersize then (found >>= header_step buffer later) else none

-- `filter_data_` from `int need` on
unfoldable pub fill_body : ℕ → Uncomplete → ℕ → List ℕ → Bool → Queue → Option (Filtered × Queue)
unfolding decode_wsmask_data push_data push_more save_uncomplete
fill_body fd uc read buffer handshake q =
    let need = uc.pack.size - read in
    let before = take read uc.pack.buffer in
    let part = decode_wsmask_data buffer (length buffer) uc.masking in
    let filled = record uc {
      pack = record { id = uc.pack.id; size = uc.pack.size; buffer = before ++ part.0 };
      read = some (read + length buffer);
      masking = part.1;
    } in
    let whole = before ++ take need (decode_wsmask_data buffer need uc.masking).0 in
    let rest = drop need buffer in
    let later =
      push_more (suc (length rest)) fd rest handshake (push_data fd whole uc.pack.size q) in
    if ltb (length buffer) need
    then some (nothing, save_uncomplete fd filled q)
    else (if length buffer == need
        then some (type_data fd whole, q)
        else (later >>= λ q'. some (type_more, q')))

-- the entry when its header is complete
abbrev pub complete_entry : Uncomplete → List ℕ → ℕ → Option (List ℕ) → Bool → Uncomplete
complete_entry uc header size mask handshake = record uc {
  pack = record {
    id = uc.pack.id;
    size = size;
    buffer = if handshake then take size header else [];
  };
  header = header;
  read = some (if handshake then min (length header) size else 0);
  masking = masking_of mask;
}

-- what `filter_data_` does with the result of the loop
unfoldable pub after_header :
    ℕ → Uncomplete → Bool → Size × List ℕ × List ℕ → Queue → Option (Filtered × Queue)
unfolding save_uncomplete fill_body
after_header fd uc handshake (header_short, header, rest) q =
    some (nothing, save_uncomplete fd (record uc { header = header }) q)
after_header fd uc handshake (header_invalid, header, rest) q = none
after_header fd uc handshake (size_negative, header, rest) q = none
after_header fd uc handshake (pack_size offset size mask, header, rest) q =
    let read = if handshake then min (length header) size else 0 in
    fill_body fd (complete_entry uc header size mask handshake) read rest handshake q

-- the branch of `filter_data_` with an entry
unfoldable pub fill_entry : ℕ → Uncomplete → List ℕ → Bool → Queue → Option (Filtered × Queue)
unfolding fill_body header_loop after_header
fill_entry fd uc buffer handshake q = elim uc.read [
  | some read ↦ fill_body fd uc read buffer handshake q
  | none ↦ header_loop handshake uc.header buffer >>= λ r. after_header fd uc handshake r q
]

-- the branch of `filter_data_` without an entry, from the test for -1 on
unfoldable pub begin_step : ℕ → Bool → Queue → Size × List ℕ → Option (Filtered × Queue)
unfolding decode_wsmask_data push_data push_more save_uncomplete
begin_step fd handshake q (header_short, buffer) =
    header_entry fd buffer >>= λ uc. some (nothing, save_uncomplete fd uc q)
begin_step fd handshake q (header_invalid, buffer) = none
begin_step fd handshake q (size_negative, buffer) = none
begin_step fd handshake q (pack_size offset size mask, buffer) =
    let bytes = drop offset buffer in
    let decoded = (decode_wsmask_data bytes size (masking_of mask)).0 in
    let rest = drop size bytes in
    let later = push_more (suc (length rest)) fd rest handshake (push_data fd decoded size q) in
    if ltb (length bytes) size && not handshake
    then some (nothing, save_uncomplete fd (part_entry fd size mask bytes) q)
    else (if length bytes == size
        then some (type_data fd decoded, q)
        else (later >>= λ q'. some (type_more, q')))

-- the branch of `filter_data_` without an entry
unfoldable pub begin : ℕ → List ℕ → Bool → Queue → Option (Filtered × Queue)
unfolding next_size begin_step
begin fd buffer handshake q = next_size handshake false buffer >>= begin_step fd handshake q

-- `filter_data_` after its search
unfoldable pub after_search :
    ℕ → List ℕ → Bool → Option Uncomplete × Queue → Option (Filtered × Queue)
unfolding fill_entry begin
after_search fd buffer handshake (none, q) = begin fd buffer handshake q
after_search fd buffer handshake (some uc, q) = fill_entry fd uc buffer handshake q

unfoldable pub filter_data : ℕ → List ℕ → Bool → Queue → Option (Filtered × Queue)
unfolding find_uncomplete after_search
filter_data fd buffer handshake q = after_search fd buffer handshake (find_uncomplete fd q)

unfoldable pub lfilter : SocketEvent → Bool → Queue → Option (Filtered × Queue)
unfolding filter_data close_uncomplete
lfilter (data_event id bytes) handshake q = filter_data id bytes handshake q
lfilter connect_event handshake q = some (nothing, q)
lfilter (close_event id) handshake q = some (type_close id, close_uncomplete id q)
lfilter (accept_event ud text) handshake q = some (type_open ud text, q)
lfilter (error_event id text) handshake q = some (type_error id text, close_uncomplete id q)
lfilter (warning_event id ud) handshake q = some (type_warning id ud, q)
lfilter other_event handshake q = some (nothing, q)

unfoldable pub lpop : Queue → Option Pack × Queue
lpop q = if q.ring.head == q.ring.tail then (none, q) else (
  some (get_or q.ring.queue q.ring.head NetPack.blank),
  record q { ring = record q.ring { head = NetPack.next_head q.ring } },
)

unfoldable pub lclear : Queue → Queue
lclear q = record { ring = record q.ring { head = 0; tail = 0 }; uncomplete = λ fd. none }
