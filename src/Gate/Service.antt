-- ===== src/Gate/Service.antt =====
-- The connections of the gate, and what it does with the messages of the socket server: `dispatch_socket_message`,
-- `_forward_agent`, `_report`, and the messages of clients in `_cb` of skynet/service-src/service_gate.c.
--
-- The result of a handler is what it sends and the operations on sockets that it calls, in order. What `skynet_error` writes to the log is
-- left out.
pub mod Sound
use jsmj_server.Base.{
  ℕ, zero, suc, ◌+◌, ◌-◌, ◌*◌, ◌^◌, Bool, true, false, Option, none, some, List, [], ◌∷◌, ◌++◌, map,
  leb, ◌==◌, if◌then◌else◌, length, take, drop, get_or, update,
}
use jsmj_server.DataBuffer.{MessagePool, empty_buffer, clear}
use jsmj_server.HashId.{
  HashId, hashid_init, hashid_lookup, hashid_insert, hashid_remove, hashid_full,
}
use jsmj_server.Gate.{Connection, Gate, Sent, Outcome, ptype_text, decimal, dispatch_message}

-- `struct gate`: the part that Gate has, and the rest. -1 as `listen_id` is `none`.
pub record Service : Type 0 where
  pub gate : Gate
  pub listen_id : Option ℕ
  pub hash : HashId
  pub conn : ℕ → Connection

-- what the gate does to its surroundings
pub data Effect : Type 0 where
  send : Sent → Effect
  socket_close : ℕ → Effect
  socket_send : ℕ → List ℕ → Effect

-- the bit pattern of -1
abbrev pub no_id : ℕ
no_id = 2 ^ 32 - 1

-- a place of `conn` after `gate_init`, and after a connection is closed
abbrev pub idle_connection : Connection
idle_connection = record { id = no_id; agent = 0; client = 0; buffer = empty_buffer }

-- the connections that `gate_init` makes
unfoldable pub gate_init : Gate → ℕ → Service
gate_init g max = record {
  gate = g;
  listen_id = none;
  hash = hashid_init max;
  conn = λ i. idle_connection;
}

unfoldable pub report : List ℕ → Service → List Effect
report text s =
    if s.gate.watchdog == 0
    then []
    else send (record {
      source = 0;
      destination = s.gate.watchdog;
      type = ptype_text;
      session = 0;
      msg = text;
    })
      ∷ []

-- `"%d close"`
unfoldable pub close_text : ℕ → List ℕ
close_text id = decimal 10 id ++ (32 ∷ 99 ∷ 108 ∷ 111 ∷ 115 ∷ 101 ∷ [])

-- the characters before a null
unfoldable pub until_null : List ℕ → List ℕ
until_null [] = []
until_null (b ∷ bs) = if b == 0 then [] else b ∷ until_null bs

-- `"%d open %d %s:0"`; `remote_name` holds 31 characters and a null.
unfoldable pub open_text : ℕ → List ℕ → List ℕ
unfolding until_null
open_text id name =
    decimal 10 id
    ++ ((32 ∷ 111 ∷ 112 ∷ 101 ∷ 110 ∷ 32 ∷ [])
        ++ (decimal 10 id ++ (32 ∷ []) ++ (until_null (take 31 name) ++ (58 ∷ 48 ∷ []))))

-- `_forward_agent`
unfoldable pub forward_agent : ℕ → ℕ → ℕ → Service → Service
forward_agent fd agent client s = elim (hashid_lookup fd s.hash) [
  | none ↦ s
  | some i ↦ record s {
    conn = update s.conn i (record (s.conn i) { agent = agent; client = client });
  }
]

-- `struct skynet_socket_message`: `block` is what `buffer` points to, and `padding` what follows the struct
pub data SocketMessage : Type 0 where
  socket_data : ℕ → List ℕ → SocketMessage
  socket_connect : ℕ → SocketMessage
  socket_closed : ℕ → SocketMessage
  socket_accept : ℕ → ℕ → List ℕ → SocketMessage
  socket_error : ℕ → SocketMessage
  socket_warning : ℕ → ℕ → SocketMessage

-- `c->id == g->listen_id`
abbrev pub is_listen_id : ℕ → Service → Bool
is_listen_id id s = elim s.listen_id [ none ↦ false | some l ↦ id == l ]

-- SKYNET_SOCKET_TYPE_DATA
unfoldable pub on_data : ℕ → List ℕ → Service → Option (List Effect × Service)
on_data id block s = elim (hashid_lookup id s.hash) [
  | none ↦ some (socket_close id ∷ [], s)
  | some i ↦ elim (dispatch_message block s.gate (s.conn i)) [
    | none ↦ none
    | some o ↦ some (
      map send o.sent ++ (if o.closed then socket_close id ∷ [] else []),
      record s { gate = o.gate; conn = update s.conn i o.connection },
    )
  ]
]

-- SKYNET_SOCKET_TYPE_CONNECT
unfoldable pub on_connect : ℕ → Service → List Effect
on_connect id s =
    if is_listen_id id s
    then []
    else elim (hashid_lookup id s.hash) [ none ↦ socket_close id ∷ [] | some _ ↦ [] ]

-- SKYNET_SOCKET_TYPE_CLOSE and SKYNET_SOCKET_TYPE_ERROR
unfoldable pub on_close : ℕ → Service → List Effect × Service
on_close id s = elim (hashid_remove id s.hash).0 [
  | none ↦ ([], record s { hash = (hashid_remove id s.hash).1 })
  | some i ↦ (
    report (close_text id) s,
    record s {
      gate = record s.gate { mp = (clear (s.conn i).buffer s.gate.mp).1 };
      hash = (hashid_remove id s.hash).1;
      conn = update s.conn i idle_connection;
    },
  )
]

-- SKYNET_SOCKET_TYPE_ACCEPT: `id` is the socket that listens, `ud` the new one.
unfoldable pub on_accept : ℕ → ℕ → List ℕ → Service → Option (List Effect × Service)
on_accept id ud padding s =
    if is_listen_id id s
    then if hashid_full s.hash
      then some (socket_close ud ∷ [], s)
      else elim (hashid_insert ud s.hash) [
        | none ↦ none
        | some (i, hash) ↦ some (
          report (open_text ud padding) s,
          record s { hash = hash; conn = update s.conn i (record (s.conn i) { id = ud }) },
        )
      ]
    else none

-- `dispatch_socket_message`
unfoldable pub dispatch_socket_message : SocketMessage → Service → Option (List Effect × Service)
unfolding on_data on_connect on_close on_accept
dispatch_socket_message (socket_data id block) s = on_data id block s
dispatch_socket_message (socket_connect id) s = some (on_connect id s, s)
dispatch_socket_message (socket_closed id) s = some (on_close id s)
dispatch_socket_message (socket_accept id ud padding) s = on_accept id ud padding s
dispatch_socket_message (socket_error id) s = some (on_close id s)
dispatch_socket_message (socket_warning id ud) s = some ([], s)

-- PTYPE_CLIENT in `_cb`: the last four bytes are the socket to which the others go.
unfoldable pub on_client : List ℕ → Service → List Effect
on_client msg s =
    let size = length msg in
    let tail = drop (size - 4) msg in
    let uid =
      get_or tail 0 0
      + get_or tail 1 0 * 2 ^ 8
      + get_or tail 2 0 * 2 ^ 16
      + get_or tail 3 0 * 2 ^ 24 in
    if leb size 4 then [] else elim (hashid_lookup uid s.hash) [
      | none ↦ []
      | some _ ↦ socket_send uid (take (size - 4) msg) ∷ []
    ]
