-- ===== src/Examples/Connections.antt =====
-- The connections of a gate: identifiers that share a list, and the life of a connection.
use jsmj_server.Base.{
  ℕ, ◌+◌, ◌<◌, ◌≤◌, ◌^◌, ◌≡◌, ◌≢◌, ◌↔◌, refl, sym, ◌∙◌, subst, none, some, some_inj, [], ◌∷◌,
  update, arith,
}
use jsmj_server.DataBuffer.{
  read, read_loop, copied, readheader, header_ready, header_value, push, new_node, ids_from, reset,
  clear, return_all, empty_buffer,
}
use jsmj_server.DataBuffer.Stream.{flat, unread}
use jsmj_server.HashId.{
  HashId, hash_cap, hashid_init, hashid_clear, lookup_loop, hashid_lookup, before_loop, clear_node,
  hashid_remove, free_node, hashid_insert, hashid_full,
}
use jsmj_server.HashId.Table.{IsValid, used, hashid_init_lem, hashid_init-IsValid}
use jsmj_server.HashId.Search.{hashid_lookup_iff}
use jsmj_server.HashId.Insert.{hashid_insert_lem}
use jsmj_server.HashId.Remove.{IsRemoved, hashid_remove_lem}
use jsmj_server.Gate.{
  Connection, Gate, decimal, data_head, addressed, forward, dispatch_loop, dispatch_message,
}
use jsmj_server.Gate.Service.{
  Service, socket_close, socket_send, gate_init, report, close_text, until_null, open_text,
  forward_agent, socket_data, socket_accept, on_data, on_connect, on_close, on_accept,
  dispatch_socket_message, on_client,
}
use jsmj_server.Gate.Service.Sound.{connection_at}

connections : Unit {0}
unfolding read read_loop copied readheader header_ready header_value push new_node ids_from reset
    clear return_all flat unread hash_cap hashid_init hashid_clear lookup_loop hashid_lookup
    before_loop clear_node hashid_remove free_node hashid_insert hashid_full used decimal data_head
    addressed forward dispatch_loop dispatch_message gate_init report close_text until_null
    open_text forward_agent on_data on_connect on_close on_accept dispatch_socket_message on_client
    connection_at
connections = tt

-- the identifier 7 in a table for two
abbrev one_id : HashId
one_id = record {
  hashmod = 15;
  cap = 2;
  count = 1;
  id = update (λ i. none) 1 (some 7);
  next = update (λ i. none) 1 none;
  hash = update (λ h. none) 7 (some 1);
}

one_id_run : hashid_insert 7 (hashid_init 2) ≡ some (1, one_id)
unfolding connections
one_id_run = refl

one_id-IsValid : IsValid one_id
unfolding connections
one_id-IsValid =
    let q = hashid_insert_lem 7 (hashid_init-IsValid 2) refl (omega arith) (omega arith) in
    subst (λ (t : ℕ × HashId). IsValid t.1) (some_inj (sym q.1 ∙ one_id_run)) q.2

-- 23 hangs at the same place as 7.
two_ids :
    (hashid_insert 23 one_id)
    ≡ some (
      0,
      record {
        hashmod = 15;
        cap = 2;
        count = 2;
        id = update one_id.id 0 (some 23);
        next = update one_id.next 0 (some 1);
        hash = update one_id.hash 7 (some 0);
      },
    )
unfolding connections
two_ids = refl

cleared_table : (hashid_clear one_id).cap ≡ 0
unfolding connections
cleared_table = refl

hashid_init_lem_example :
    IsValid (hashid_init 20)
    × ((hashid_init 20).hashmod + 1 < 2 ^ 31)
    × (20 ≤ (hashid_init 20).hashmod + 1)
    × ((k : ℕ) × ((hashid_init 20).hashmod + 1 ≡ 2 ^ k))
hashid_init_lem_example = hashid_init_lem 20 (omega arith)

hashid_lookup_iff_example : (hashid_lookup 7 one_id ≡ some 1) ↔ (one_id.id 1 ≡ some 7)
hashid_lookup_iff_example = hashid_lookup_iff 7 1 one_id-IsValid

hashid_insert_lem_example :
    (r : ℕ × HashId) × (hashid_insert 23 one_id ≡ some r)
    × IsValid r.1
    × (r.0 < 2)
    × (r.1.count ≡ 2)
    × (hashid_lookup 23 r.1 ≡ some r.0)
    × ((y : ℕ) → hashid_lookup y one_id ≢ some r.0)
    × ((y : ℕ) → y ≢ 23 → hashid_lookup y r.1 ≡ hashid_lookup y one_id)
unfolding connections
hashid_insert_lem_example = hashid_insert_lem 23 one_id-IsValid refl (omega arith) (omega arith)

hashid_remove_lem_example : IsRemoved 7 one_id (hashid_remove 7 one_id)
hashid_remove_lem_example = hashid_remove_lem 7 one_id-IsValid

-- a gate without a receiver, and a connection with the beginning of a packet
abbrev deaf : Gate
deaf = record {
  watchdog = 0;
  broker = 0;
  client_tag = 3;
  header_size = 2;
  mp = record { chunks = 0; freelist = [] };
}

abbrev fresh : Connection
fresh = record { id = 7; agent = 0; client = 0; buffer = empty_buffer }

-- a gate that listens on socket 5
abbrev listening : Service
listening = record (gate_init (record deaf { watchdog = 9 }) 2) { listen_id = some 5 }

abbrev opened : Service
opened = record listening { hash = one_id; conn = update listening.conn 1 fresh }

accepted :
    dispatch_socket_message (socket_accept 5 7 (49 ∷ 0 ∷ [])) listening
    ≡ some (report (open_text 7 (49 ∷ 0 ∷ [])) listening, opened)
unfolding connections
accepted = refl

unknown :
    dispatch_socket_message (socket_data 8 (1 ∷ [])) opened ≡ some (socket_close 8 ∷ [], opened)
unfolding connections
unknown = refl

to_agent : ((forward_agent 7 20 21 opened).conn 1).agent ≡ 20
unfolding connections
to_agent = refl

to_client : on_client (65 ∷ 66 ∷ 7 ∷ 0 ∷ 0 ∷ 0 ∷ []) opened ≡ socket_send 7 (65 ∷ 66 ∷ []) ∷ []
unfolding connections
to_client = refl
