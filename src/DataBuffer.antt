-- ===== src/DataBuffer.antt =====
-- skynet/service-src/databuffer.h: the bytes that a gate has received on a connection, in the blocks in which they
-- arrived, and the pool of the nodes that hold the blocks.
--
-- A node of the pool is named by a number: node `i` of the `c`-th chunk is `c * 1023 + i`. A dereference of NULL
-- and a failed assertion are `none`. The list of blocks stands for `head`, `tail` and the `next` fields; `tail` itself, with the two
-- assertions on it in `_return_message` and `databuffer_push`, is not modelled. The memory for chunks is never exhausted.
pub mod Stream
pub mod Pool
pub mod Header
use jsmj_server.Base.{
  ℕ, zero, suc, ◌+◌, ◌-◌, ◌*◌, ◌^◌, Option, none, some, List, [], ◌∷◌, ◌++◌, ltb, leb, ◌==◌,
  if◌then◌else◌, length, take, drop, get_or,
}

-- `struct message`
pub record Node : Type 0 where
  pub id : ℕ
  pub bytes : List ℕ

-- `struct databuffer`; `header` is the bit pattern of an `int`.
pub record DataBuffer : Type 0 where
  pub header : ℕ
  pub offset : ℕ
  pub size : ℕ
  pub messages : List Node

-- `struct messagepool`
pub record MessagePool : Type 0 where
  pub chunks : ℕ
  pub freelist : List ℕ

abbrev pub message_pool : ℕ
message_pool = 1023

abbrev pub empty_buffer : DataBuffer
empty_buffer = record { header = 0; offset = 0; size = 0; messages = [] }

-- `messagepool_free`
unfoldable pub messagepool_free : MessagePool → MessagePool
messagepool_free mp = record { chunks = 0; freelist = [] }

-- What `_return_message` does to the free list for the node at the head.
abbrev pub return_message : Node → MessagePool → MessagePool
return_message m mp = record mp { freelist = m.id ∷ mp.freelist }

-- what the loop of `databuffer_read` leaves
pub record ReadResult : Type 0 where
  pub bytes : List ℕ
  pub rest : List Node
  pub offset : ℕ
  pub pool : MessagePool

-- `memcpy` of `front` before what the later rounds copy
unfoldable pub copied : List ℕ → Option ReadResult → Option ReadResult
copied front none = none
copied front (some r) = some (record r { bytes = front ++ r.bytes })

-- The loop of `databuffer_read`; each round but the last drops the head.
unfoldable pub read_loop : List Node → ℕ → ℕ → MessagePool → Option ReadResult
unfolding copied
read_loop [] offset sz mp = none
read_loop (m ∷ ms) offset sz mp =
    let block = drop offset m.bytes in
    let bsz = length m.bytes - offset in
    let later = copied block (read_loop ms 0 (sz - bsz) (return_message m mp)) in
    if ltb sz bsz
    then some (record { bytes = take sz block; rest = m ∷ ms; offset = offset + sz; pool = mp })
    else if bsz == sz
    then some (record { bytes = take sz block; rest = ms; offset = 0; pool = return_message m mp })
    else later

-- `databuffer_read`
unfoldable pub read : ℕ → DataBuffer → MessagePool → Option (List ℕ × DataBuffer × MessagePool)
read sz db mp = if ltb db.size sz then none else elim (read_loop db.messages db.offset sz mp) [
  | none ↦ none
  | some r ↦
      some
        (r.bytes, record db { size = db.size - sz; offset = r.offset; messages = r.rest }, r.pool)
]

-- the numbers from `base` on
unfoldable pub ids_from : ℕ → ℕ → List ℕ
ids_from base zero = []
ids_from base (suc n) = base ∷ ids_from (base + 1) n

-- The node that `databuffer_push` takes, from the free list or from a chunk that it allocates.
unfoldable pub new_node : MessagePool → ℕ × MessagePool
unfolding ids_from
new_node mp = elim mp.freelist [
  | id ∷ ids ↦ (id, record mp { freelist = ids })
  | [] ↦ (
    mp.chunks * message_pool,
    record {
      chunks = mp.chunks + 1;
      freelist = ids_from (mp.chunks * message_pool + 1) (message_pool - 1);
    },
  )
]

-- `databuffer_push`
unfoldable pub push : List ℕ → DataBuffer → MessagePool → DataBuffer × MessagePool
push block db mp =
    let (id, mp') = new_node mp in
    (
      record db {
        size = db.size + length block;
        messages = db.messages ++ record { id = id; bytes = block } ∷ [];
      },
      mp',
    )

-- The big-endian value of 2 or 4 bytes. As an `int` it is negative from 2^31 on.
unfoldable pub header_value : ℕ → List ℕ → ℕ
header_value header_size b =
    if header_size == 2
    then get_or b 0 0 * 2 ^ 8 + get_or b 1 0
    else get_or b 0 0 * 2 ^ 24 + get_or b 1 0 * 2 ^ 16 + get_or b 2 0 * 2 ^ 8 + get_or b 3 0

-- the bit pattern of -1
abbrev pub not_yet : ℕ
not_yet = 2 ^ 32 - 1

-- `if (db->size < db->header) return -1; return db->header;`
unfoldable pub header_ready : DataBuffer → ℕ
header_ready db =
    if leb (2 ^ 31) db.header
    then db.header
    else if ltb db.size db.header
    then not_yet
    else db.header

-- `databuffer_readheader`
unfoldable pub readheader : ℕ → DataBuffer → MessagePool → Option (ℕ × DataBuffer × MessagePool)
unfolding header_ready
readheader header_size db mp =
    if db.header == 0
    then if ltb db.size header_size then some (not_yet, db, mp) else elim (read header_size db mp) [
      | none ↦ none
      | some (plen, db', mp') ↦
          let db'' = record db' { header = header_value header_size plen } in
          some (header_ready db'', db'', mp')
    ]
    else some (header_ready db, db, mp)

-- `databuffer_reset`
unfoldable pub reset : DataBuffer → DataBuffer
reset db = record db { header = 0 }

-- the `while` of `databuffer_clear`
unfoldable pub return_all : List Node → MessagePool → MessagePool
return_all [] mp = mp
return_all (m ∷ ms) mp = return_all ms (return_message m mp)

-- `databuffer_clear`
unfoldable pub clear : DataBuffer → MessagePool → DataBuffer × MessagePool
unfolding return_all
clear db mp = (empty_buffer, return_all db.messages mp)
