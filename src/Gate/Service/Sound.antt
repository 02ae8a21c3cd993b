-- ===== src/Gate/Service/Sound.antt =====
-- The invariant of the connections: a used place belongs to one socket and has a valid buffer, and every other place is as `gate_init`
-- left it, so that a new connection starts with nothing.
use jsmj_server.Base.{false, ◌+◌, ◌^◌, ◌≤◌, ℕ, ◌≤◌, ◌≡◌, ◌≢◌, refl, Option, none, some, List}
use jsmj_server.DataBuffer.Stream
use jsmj_server.HashId.{hashid_init, hashid_lookup}
use jsmj_server.HashId.Table
use jsmj_server.HashId.Table.{hashid_init-IsValid}
use jsmj_server.HashId.Search.{hashid_lookup_iff}
use jsmj_server.Gate.{Connection, Gate}
use jsmj_server.Gate.Service.{
  Service, Effect, idle_connection, gate_init, SocketMessage, socket_data, socket_connect,
  socket_closed, socket_accept, socket_error, socket_warning, is_listen_id,
}

pub record IsSound (s : Service) : Type 0 where
  pub table : Table.IsValid s.hash
  pub header : 2 ≤ s.gate.header_size
  pub live :
      (uid i : ℕ)
      → hashid_lookup uid s.hash ≡ some i
      → ((s.conn i).id ≡ uid) × Stream.IsValid (s.conn i).buffer
  pub idle : (i : ℕ) → ((uid : ℕ) → hashid_lookup uid s.hash ≢ some i) → s.conn i ≡ idle_connection

-- the connection of a socket
unfoldable pub connection_at : Option ℕ → (ℕ → Connection) → Option Connection
connection_at none conn = none
connection_at (some i) conn = some (conn i)

abbrev pub connection_of : ℕ → Service → Option Connection
connection_of uid s = connection_at (hashid_lookup uid s.hash) s.conn

-- What is expected of a new socket: it is not one that is open, and its identifier with the size of the table stays below
-- the range of an `int`.
abbrev pub IsExpected : SocketMessage → Service → Type 0
IsExpected (socket_accept id ud padding) s =
    (hashid_lookup ud s.hash ≡ none) × (ud + s.hash.cap ≤ 2 ^ 31)
IsExpected (socket_data id block) s = Unit {0}
IsExpected (socket_connect id) s = Unit {0}
IsExpected (socket_closed id) s = Unit {0}
IsExpected (socket_error id) s = Unit {0}
IsExpected (socket_warning id ud) s = Unit {0}

-- a new socket that does not come from the socket that the gate listens on, as when that was closed in the meantime
abbrev pub IsStray : SocketMessage → Service → Type 0
IsStray (socket_accept id ud padding) s = is_listen_id id s ≡ false
IsStray m s = ⊥

-- the socket that a message is about
abbrev pub concerned : SocketMessage → ℕ
concerned (socket_accept id ud padding) = ud
concerned (socket_data id block) = id
concerned (socket_connect id) = id
concerned (socket_closed id) = id
concerned (socket_error id) = id
concerned (socket_warning id ud) = id

-- the invariant, and that other connections stay as they are
abbrev pub KeepsOthers : ℕ → Service → Service → Type 0
KeepsOthers id s s' =
    IsSound s' × ((uid : ℕ) → uid ≢ id → connection_of uid s' ≡ connection_of uid s)

-- `gate_init` makes a sound service.
pub gate_init-IsSound : (g : Gate) (max : ℕ) → 2 ≤ g.header_size → IsSound (gate_init g max)
unfolding gate_init hashid_init
gate_init-IsSound g max two = record {
  table = hashid_init-IsValid max;
  header = two;
  live = λ uid i e.
      absurd
        (let q : none ≡ some uid = (hashid_lookup_iff uid i (hashid_init-IsValid max)).0 e in cc);
  idle = λ i away. refl;
}

-- what becomes of a message that is handled: the service is sound, and other connections are as they were
abbrev pub IsServed : SocketMessage → Service → Option (List Effect × Service) → Type 0
IsServed m s x =
    (r : List Effect × Service) × (x ≡ some r)
    × IsSound r.1
    × ((uid : ℕ) → uid ≢ concerned m → connection_of uid r.1 ≡ connection_of uid s)
