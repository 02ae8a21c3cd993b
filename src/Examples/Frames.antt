-- ===== src/Examples/Frames.antt =====
-- Websocket frames with and without a mask, and HTTP headers.
use jsmj_server.Base.{
  ◌<◌, ◌↔◌, ℕ, ◌≡◌, refl, none, some, Option, List, [], ◌∷◌, ◌++◌, arith, drop, take, true, false,
}
use jsmj_server.NetPack
use jsmj_server.NetPack.{Filtered, type_data, type_more, nothing}
use jsmj_server.WebPack.{
  from_network, read_size, unmask, decode_wsmask_data, masking_of, strnpos_loop, websocket_strnpos,
  get_http_header, frame_header, lpack, pack_size,
}
use jsmj_server.WebPack.Mask.{decode_wsmask_data_pieces}
use jsmj_server.WebPack.Frame.{read_size-lpack}
use jsmj_server.WebPack.Header.{get_http_header-Ends, Ends}
use jsmj_server.WebPack.Client.{ClientFrame, stream}
use jsmj_server.WebPack.Blocks.{Outcome, filter_blocks, filter_blocks-stream}
use jsmj_server.WebPack.Protocol.{head, body, read_bytes}
use jsmj_server.WebPack.Sound.{new_queue-Sound}
use jsmj_server.WebPack.Results.{IsFiltered}
use jsmj_server.WebPack.Filter.{filter_data_refines}
use jsmj_server.WebPack.Socket.{
  Queue, new_queue, find_uncomplete, save_uncomplete, push_data, size_loop, next_size, push_more,
  header_loop, fill_body, after_header, fill_entry, begin, after_search, filter_data,
}

frames : Unit {0}
unfolding from_network read_size unmask decode_wsmask_data strnpos_loop websocket_strnpos
    get_http_header frame_header lpack new_queue find_uncomplete save_uncomplete push_data size_loop
    next_size push_more header_loop fill_body after_header fill_entry begin after_search filter_data
    NetPack.new_queue NetPack.push_data NetPack.expand_queue
frames = tt

-- the mask of the example of RFC 6455, and the data that it masks
abbrev mask : List ℕ
mask = 0x37 ∷ 0xfa ∷ 0x21 ∷ 0x3d ∷ []

abbrev hello : List ℕ
hello = 0x7f ∷ 0x9f ∷ 0x4d ∷ 0x51 ∷ 0x58 ∷ []

test_hello :
    (decode_wsmask_data hello 5 (masking_of (some mask))).0 ≡ 72 ∷ 101 ∷ 108 ∷ 108 ∷ 111 ∷ []
test_hello = unfold frames in refl

abbrev delivered : Option (Filtered × Queue) → Filtered
delivered none = nothing
delivered (some r) = r.0

-- the frame of the example arrives at once
test_frame :
    delivered (filter_data 7 (0x81 ∷ 0x85 ∷ mask ++ hello) false new_queue)
    ≡ type_data 7 (72 ∷ 101 ∷ 108 ∷ 108 ∷ 111 ∷ [])
test_frame = unfold frames in refl

decode_wsmask_data_pieces_example :
    decode_wsmask_data (0x7f ∷ 0x9f ∷ 0x4d ∷ []) 3 (masking_of (some mask))
    ≡ (72 ∷ 101 ∷ 108 ∷ [], record { mask = mask; ismask = true; hasunmask_size = 3 })
unfolding frames
decode_wsmask_data_pieces_example =
    decode_wsmask_data_pieces (0x7f ∷ []) (0x9f ∷ 0x4d ∷ []) (masking_of (some mask))

read_size-lpack_example :
    (read_size (lpack (72 ∷ 105 ∷ [])) ≡ pack_size 2 2 none)
    × (drop 2 (lpack (72 ∷ 105 ∷ [])) ≡ 72 ∷ 105 ∷ [])
read_size-lpack_example = read_size-lpack (72 ∷ 105 ∷ []) (omega arith)

get_http_header-Ends_example :
    ((get_http_header (71 ∷ 13 ∷ 10 ∷ 13 ∷ 10 ∷ 1 ∷ []) ≡ none) ↔ (6 < 3))
    × Ends (71 ∷ 13 ∷ 10 ∷ 13 ∷ 10 ∷ 1 ∷ []) (get_http_header (71 ∷ 13 ∷ 10 ∷ 13 ∷ 10 ∷ 1 ∷ []))
get_http_header-Ends_example = get_http_header-Ends (71 ∷ 13 ∷ 10 ∷ 13 ∷ 10 ∷ 1 ∷ []) (omega arith)

-- the loop reads past a buffer of two bytes
test_past : get_http_header (71 ∷ 69 ∷ []) ≡ none
test_past = unfold frames in refl

-- a mask and the first bytes of a frame
abbrev beginning : List ℕ
beginning = 0x81 ∷ 0x85 ∷ mask ++ 0x7f ∷ 0x9f ∷ []

filter_data_refines_example :
    IsFiltered
      (λ y. head [])
      []
      7
      (body 5 (some mask) (0x7f ∷ 0x9f ∷ []), [])
      (filter_data 7 beginning false new_queue)
unfolding frames read_bytes
filter_data_refines_example =
    filter_data_refines (λ y. head []) [] 7 beginning new_queue
      (body 5 (some mask) (0x7f ∷ 0x9f ∷ []), []) new_queue-Sound (omega arith) refl

-- two frames, cut within the first mask and the second data
abbrev sent : List ClientFrame
sent =
    record { first = 0x82; masks = mask; content = 1 ∷ 2 ∷ [] }
    ∷ record { first = 0x81; masks = mask; content = 72 ∷ 105 ∷ 33 ∷ [] }
    ∷ []

abbrev cut_stream : List (List ℕ)
cut_stream = take 3 (stream sent) ∷ take 12 (drop 3 (stream sent)) ∷ drop 15 (stream sent) ∷ []

filter_blocks-stream_example :
    Outcome 7 []
      (head [], (1 ∷ 2 ∷ []) ∷ (72 ∷ 105 ∷ 33 ∷ []) ∷ [])
      (filter_blocks 7 cut_stream new_queue)
unfolding frames
filter_blocks-stream_example =
    filter_blocks-stream 7 sent cut_stream
      (
        record { whole = refl; four = refl; small = omega arith },
        (record { whole = refl; four = refl; small = omega arith }, tt),
      )
      (omega arith, (omega arith, (omega arith, tt))) refl

abbrev results : Option (List Filtered × Queue) → List Filtered
results none = []
results (some r) = r.0

-- the second block completes the first frame, and the third the second
test_blocks :
    results (filter_blocks 7 cut_stream new_queue)
    ≡ nothing ∷ type_more ∷ type_data 7 (72 ∷ 105 ∷ 33 ∷ []) ∷ []
test_blocks = unfold frames filter_blocks in refl
