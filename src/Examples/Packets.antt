-- ===== src/Examples/Packets.antt =====
-- A gate that cuts a block into packets.
use jsmj_server.Base.{inr, ℕ, ◌≡◌, ◌≢◌, refl, none, some, List, [], ◌∷◌, arith, inl}
use jsmj_server.DataBuffer.{
  read, read_loop, copied, readheader, header_ready, header_value, push, new_node, ids_from, reset,
  clear, return_all,
}
use jsmj_server.DataBuffer.Stream.{flat, unread, IsValid}
use jsmj_server.Gate.{
  Connection, Gate, Outcome, decimal, data_head, addressed, forward, dispatch_loop,
  dispatch_message,
}
use jsmj_server.Gate.Packets.{stream, messages, IsSplit, dispatch_message_lem}

gates : Unit {0}
unfolding read read_loop copied readheader header_ready header_value push new_node ids_from reset
    clear return_all flat unread decimal data_head addressed forward dispatch_loop dispatch_message
    stream messages
gates = tt

abbrev half_packet : Connection
half_packet = record {
  id = 12;
  agent = 0;
  client = 0;
  buffer = record {
    header = 3;
    offset = 3;
    size = 1;
    messages = record { id = 0; bytes = 9 ∷ 0 ∷ 3 ∷ 65 ∷ [] } ∷ [];
  };
}

abbrev watched : Gate
watched = record {
  watchdog = 7;
  broker = 0;
  client_tag = 3;
  header_size = 2;
  mp = record { chunks = 1; freelist = 1 ∷ 2 ∷ [] };
}

abbrev arrived : List ℕ
arrived = 66 ∷ 67 ∷ 0 ∷ 0 ∷ 7 ∷ []

abbrev payloads : List (List ℕ)
payloads = (65 ∷ 66 ∷ 67 ∷ []) ∷ [] ∷ []

half_packet-IsValid : IsValid half_packet.buffer
unfolding gates
half_packet-IsValid = record { sized = refl; in_head = omega arith }

head_of_twelve : data_head 12 ≡ 49 ∷ 50 ∷ 32 ∷ 100 ∷ 97 ∷ 116 ∷ 97 ∷ 32 ∷ []
unfolding gates
head_of_twelve = refl

to_watchdog : addressed watched half_packet [] ≢ none
unfolding gates
to_watchdog e = absurd cc

dispatch_message_lem_example :
    (o : Outcome) × (dispatch_message arrived watched half_packet ≡ some o)
    × IsSplit watched half_packet payloads (7 ∷ []) o
unfolding gates
dispatch_message_lem_example =
    dispatch_message_lem arrived payloads (7 ∷ []) watched half_packet (inl refl) to_watchdog
      half_packet-IsValid (omega arith, (omega arith, tt)) (omega arith)
      (inr (65, 66 ∷ 67 ∷ [], [] ∷ [], refl, refl, refl))
