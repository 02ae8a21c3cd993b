-- ===== src/Examples/Buffers.antt =====
-- Buffers of a connection: a packet whose header and payload cross the border of two blocks.
use jsmj_server.Base.{ℕ, ◌≡◌, refl, some, List, [], ◌∷◌, arith, inl, drop, take}
use jsmj_server.DataBuffer.{
  DataBuffer, MessagePool, read, read_loop, copied, readheader, header_ready, header_value, push,
  new_node, ids_from, clear, return_all, reset, empty_buffer, not_yet, messagepool_free,
}
use jsmj_server.DataBuffer.Stream.{flat, unread, contents, IsValid, read_lem}
use jsmj_server.DataBuffer.Pool.{occurrences, node_ids, Conserved, nodes-Conserved}
use jsmj_server.DataBuffer.Header.{readheader_lem}

buffers : Unit {0}
unfolding read read_loop copied readheader header_ready header_value push new_node ids_from clear
    return_all reset messagepool_free flat unread occurrences node_ids
buffers = tt

abbrev two_blocks : DataBuffer
two_blocks = record {
  header = 0;
  offset = 1;
  size = 6;
  messages =
      record { id = 0; bytes = 9 ∷ 0 ∷ [] }
      ∷ record { id = 1; bytes = 3 ∷ 65 ∷ 66 ∷ 67 ∷ 8 ∷ [] }
      ∷ [];
}

abbrev pool : MessagePool
pool = record { chunks = 0; freelist = [] }

two_blocks-IsValid : IsValid two_blocks
unfolding buffers
two_blocks-IsValid = record { sized = refl; in_head = omega arith }

header_read :
    readheader 2 two_blocks pool
    ≡ some (
      3,
      record {
        header = 3;
        offset = 1;
        size = 4;
        messages = record { id = 1; bytes = 3 ∷ 65 ∷ 66 ∷ 67 ∷ 8 ∷ [] } ∷ [];
      },
      record { chunks = 0; freelist = 0 ∷ [] },
    )
unfolding buffers
header_read = refl

short_stays : readheader 4 empty_buffer pool ≡ some (not_yet, empty_buffer, pool)
unfolding buffers
short_stays = refl

freed : messagepool_free pool ≡ pool
unfolding buffers
freed = refl

cleared : (clear two_blocks pool).1.freelist ≡ 1 ∷ 0 ∷ []
unfolding buffers
cleared = refl

header_forgotten : (reset (record two_blocks { header = 3 })).header ≡ 0
unfolding buffers
header_forgotten = refl

read_lem_example :
    (r : List ℕ × DataBuffer × MessagePool) × (read 3 two_blocks pool ≡ some r)
    × (r.0 ≡ take 3 (contents two_blocks))
    × (contents r.1 ≡ drop 3 (contents two_blocks))
    × (r.1.header ≡ 0)
    × IsValid r.1
unfolding buffers
read_lem_example = read_lem 3 two_blocks pool two_blocks-IsValid (omega arith) (omega arith)

readheader_lem_example :
    (r : ℕ × DataBuffer × MessagePool) × (readheader 2 two_blocks pool ≡ some r)
    × (r.0 ≡ 3)
    × (contents r.1 ≡ 65 ∷ 66 ∷ 67 ∷ 8 ∷ [])
    × (r.1.header ≡ 3)
    × IsValid r.1
unfolding buffers
readheader_lem_example =
    readheader_lem 2 (65 ∷ 66 ∷ 67 ∷ []) (8 ∷ []) two_blocks pool (inl refl) two_blocks-IsValid refl
      (omega arith) refl

empty-Conserved : Conserved [] empty_buffer pool
unfolding buffers
empty-Conserved i = ground arith

abbrev one_block : DataBuffer × MessagePool
one_block = push (1 ∷ 2 ∷ 3 ∷ []) empty_buffer pool

one_block-Conserved : Conserved [] one_block.0 one_block.1
one_block-Conserved = (nodes-Conserved [] empty_buffer pool empty-Conserved).0 (1 ∷ 2 ∷ 3 ∷ [])

nodes-Conserved_example :
    ((block : List ℕ)
      → Conserved [] (push block one_block.0 one_block.1).0 (push block one_block.0 one_block.1).1)
    × ((sz : ℕ) (r : List ℕ × DataBuffer × MessagePool)
        → read sz one_block.0 one_block.1 ≡ some r
        → Conserved [] r.1 r.2)
    × Conserved [] (clear one_block.0 one_block.1).0 (clear one_block.0 one_block.1).1
nodes-Conserved_example = nodes-Conserved [] one_block.0 one_block.1 one_block-Conserved
