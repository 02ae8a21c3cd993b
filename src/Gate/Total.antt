-- ===== src/Gate/Total.antt =====
-- Whatever bytes arrive, `dispatch_message` ends, and reads only bytes that are there.
use jsmj_server.Base.{ℕ, ◌+◌, ◌/◌, ◌^◌, ◌≤◌, ◌<◌, ◌≡◌, ◌≢◌, refl, true, ltb, ◌==◌, if◌then◌else◌}
use jsmj_server.DataBuffer.{DataBuffer, MessagePool, empty_buffer}
use jsmj_server.DataBuffer.Stream.{unread, IsValid}
use jsmj_server.Gate.{Connection, Gate, Outcome}

-- What `databuffer_readheader` returns, for the loop.
record IsHeaderRead (size : ℕ) (db : DataBuffer) (r : ℕ × DataBuffer × MessagePool) : Type 0 where
  valid : IsValid r.1
  waits_or_fits : (r.0 < 2 ^ 31) → (r.0 ≡ r.1.header) × (r.0 ≤ r.1.size)
  fewer : (r.0 < 2 ^ 31) → db.header ≡ 0 → r.1.size + size ≤ db.size
  pending : db.header ≢ 0 → r.1 ≡ db
  pending_short : db.size < db.header → db.header ≢ 0 → 2 ^ 31 ≤ r.0

-- What a run leaves: only the buffer and the pool change, and a connection that is closed has an empty buffer.
pub record IsDispatched (g : Gate) (c : Connection) (o : Outcome) : Type 0 where
  pub valid : IsValid o.connection.buffer
  pub gate : o.gate ≡ record g { mp = o.gate.mp }
  pub connection : o.connection ≡ record c { buffer = o.connection.buffer }
  pub emptied : o.closed ≡ true → o.connection.buffer ≡ empty_buffer

-- the rounds that the loop still needs
rounds_left : DataBuffer → ℕ
rounds_left db =
    if db.header == 0 then db.size / 2 + 1 else if ltb db.size db.header then 1 else db.size / 2 + 2

pub empty-IsValid : IsValid empty_buffer
unfolding unread
empty-IsValid = record { sized = refl; in_head = refl }
