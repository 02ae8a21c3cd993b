-- ===== src/Examples/Packs.antt =====
-- Packets of two sockets that arrive in pieces.
use jsmj_server.Base.{
  true, ◌==◌, ℕ, ◌≤◌, ◌^◌, ◌≡◌, ◌⊎◌, refl, none, some, Option, List, [], ◌∷◌, ◌++◌, arith,
}
use jsmj_server.NetPack.{
  Pack, Queue, packet, new_queue, hash_fd, find_in, find_uncomplete, expand_queue, push_data,
  save_uncomplete, push_more, close_uncomplete, fill_body, fill_entry, begin, after_search,
  filter_data, data_event, lfilter, lpop, lclear, write_size, lpack,
}
use jsmj_server.NetPack.Dispatch.{dispatch_queue, dispatch, serve}
use jsmj_server.NetPack.Frames.{idle, read_bytes, after}
use jsmj_server.NetPack.Sound.{new_queue-Sound}
use jsmj_server.NetPack.Results.{IsFiltered}
use jsmj_server.NetPack.Filter.{filter_data_lem}
use jsmj_server.NetPack.Stream.{read_blocks}
use jsmj_server.NetPack.Packed.{lpack_lem, serve-packed, payloads_of}
use jsmj_server.NetPack.Events.{IsHandled, lfilter_lem}

packs : Unit {0}
unfolding new_queue hash_fd find_in find_uncomplete expand_queue push_data save_uncomplete push_more
    close_uncomplete fill_body fill_entry begin after_search filter_data lfilter lpop lclear
    write_size lpack dispatch_queue dispatch serve read_bytes read_blocks
packs = tt

-- one whole packet and the first byte of the next size
abbrev block : List ℕ
block = 0 ∷ 2 ∷ 65 ∷ 66 ∷ 0 ∷ []

-- the packets AB and C of the socket 7 in three pieces, around one of the socket 4103, which has the same list
abbrev blocks : List (ℕ × List ℕ)
blocks = (7, 0 ∷ []) ∷ (4103, 0 ∷ 1 ∷ 70 ∷ []) ∷ (7, 2 ∷ 65 ∷ []) ∷ (7, 66 ∷ 0 ∷ 1 ∷ 67 ∷ []) ∷ []

filter_data_lem_example :
    IsFiltered (λ y. idle) [] 7 (read_bytes idle block) (filter_data 7 block none)
filter_data_lem_example = filter_data_lem (λ y. idle) [] 7 block none new_queue-Sound (omega arith)

serve-packed_example :
    (delivered : List Pack) × (o : Option Queue) × (serve (λ y. true) blocks none
      ≡ some (delivered, o))
    × (payloads_of 7 delivered ≡ (65 ∷ 66 ∷ []) ∷ (67 ∷ []) ∷ [])
serve-packed_example =
    serve-packed (λ y. true) 7 ((65 ∷ 66 ∷ []) ∷ (67 ∷ []) ∷ []) (0 ∷ 2 ∷ 65 ∷ 66 ∷ 0 ∷ 1 ∷ 67 ∷ [])
      blocks refl (omega arith, (omega arith, (omega arith, (omega arith, tt))))
      (unfold packs in refl) refl

lpack_lem_example :
    ((2 ^ 16 ≤ 2) × (lpack (65 ∷ 66 ∷ []) ≡ none))
    ⊎ ((bytes : List ℕ) × (lpack (65 ∷ 66 ∷ []) ≡ some bytes)
        × ((rest : List ℕ)
            → read_bytes idle (bytes ++ rest) ≡ after ((65 ∷ 66 ∷ []) ∷ []) (read_bytes idle rest)))
lpack_lem_example = lpack_lem (65 ∷ 66 ∷ [])

lfilter_lem_example :
    IsHandled (λ y. idle) [] none (data_event 7 block) (lfilter (data_event 7 block) none)
lfilter_lem_example =
    lfilter_lem (λ y. idle) [] none (data_event 7 block) (omega arith) new_queue-Sound

abbrev delivered_of : Option (List Pack × Option Queue) → List Pack
delivered_of none = []
delivered_of (some r) = r.0

-- the packets of both sockets arrive
test_serve :
    delivered_of (serve (λ y. true) blocks none)
    ≡ packet 4103 (70 ∷ []) ∷ packet 7 (65 ∷ 66 ∷ []) ∷ packet 7 (67 ∷ []) ∷ []
test_serve = unfold packs in refl

-- a socket that is not open gets nothing
test_dropped : delivered_of (serve (λ y. y == 4103) blocks none) ≡ packet 4103 (70 ∷ []) ∷ []
test_dropped = unfold packs in refl
