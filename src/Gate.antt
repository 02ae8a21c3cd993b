-- ===== src/Gate.antt =====
-- skynet/service-src/service_gate.c: what the gate does with the bytes that arrive on a connection. It cuts them
-- into packets and sends each on, to the broker, the agent of the connection, or the watchdog.
pub mod Packets
pub mod Total
pub mod Service
use jsmj_server.Base.{
  ℕ, zero, suc, ◌+◌, ◌-◌, ◌*◌, ◌/◌, ◌%◌, ◌^◌, Bool, true, false, Option, none, some, List, [], ◌∷◌,
  ◌++◌, ltb, leb, ◌==◌, if◌then◌else◌, length,
}
use jsmj_server.DataBuffer.{DataBuffer, MessagePool, read, push, readheader, reset, clear}

-- `struct connection`, without the name of the peer
pub record Connection : Type 0 where
  pub id : ℕ
  pub agent : ℕ
  pub client : ℕ
  pub buffer : DataBuffer

-- the fields of `struct gate` that the functions below use
pub record Gate : Type 0 where
  pub watchdog : ℕ
  pub broker : ℕ
  pub client_tag : ℕ
  pub header_size : ℕ
  pub mp : MessagePool

-- The arguments of `skynet_send`; `PTYPE_TAG_DONTCOPY` says who owns the memory and is left out of `type`.
pub record Sent : Type 0 where
  pub source : ℕ
  pub destination : ℕ
  pub type : ℕ
  pub session : ℕ
  pub msg : List ℕ

abbrev pub ptype_text : ℕ
ptype_text = 0

-- `%d` of a number below 10^10; the fuel is the number of digits.
unfoldable pub decimal : ℕ → ℕ → List ℕ
decimal zero n = []
decimal (suc fuel) n =
    let front = decimal fuel (n / 10) in
    if ltb n 10 then (48 + n) ∷ [] else front ++ (48 + n % 10) ∷ []

-- `snprintf(tmp, 32, "%d data ", c->id)`
unfoldable pub data_head : ℕ → List ℕ
unfolding decimal
data_head id = decimal 10 id ++ 32 ∷ 100 ∷ 97 ∷ 116 ∷ 97 ∷ 32 ∷ []

-- the message for a payload, if anyone is to get it
unfoldable pub addressed : Gate → Connection → List ℕ → Option Sent
addressed g c payload =
    if g.broker == 0
    then if c.agent == 0
      then if g.watchdog == 0
        then none
        else some (record {
          source = 0;
          destination = g.watchdog;
          type = ptype_text;
          session = 1;
          msg = data_head c.id ++ payload;
        })
      else some (record {
        source = c.client;
        destination = c.agent;
        type = g.client_tag;
        session = 1;
        msg = payload;
      })
    else some (record {
      source = 0;
      destination = g.broker;
      type = g.client_tag;
      session = 1;
      msg = payload;
    })

-- what a function sends, whether it closes the connection, and what it leaves
pub record Outcome : Type 0 where
  pub sent : List Sent
  pub closed : Bool
  pub gate : Gate
  pub connection : Connection

-- `_forward`: without a receiver the payload is not read.
unfoldable pub forward : ℕ → Gate → Connection → Option Outcome
forward size g c = elim (addressed g c []) [
  | none ↦ some (record { sent = []; closed = false; gate = g; connection = c })
  | some _ ↦ elim (read size c.buffer g.mp) [
    | none ↦ none
    | some (payload, db, mp) ↦ elim (addressed g c payload) [
      | none ↦ none
      | some m ↦ some (record {
        sent = m ∷ [];
        closed = false;
        gate = record g { mp = mp };
        connection = record c { buffer = db };
      })
    ]
  ]
]

-- The `for (;;)` of `dispatch_message`. A size is negative from 2^31 on.
unfoldable pub dispatch_loop : ℕ → Gate → Connection → Option Outcome
dispatch_loop zero g c = none
dispatch_loop (suc fuel) g c = elim (readheader g.header_size c.buffer g.mp) [
  | none ↦ none
  | some (size, db, mp) ↦
      let g₁ = record g { mp = mp } in
      let c₁ = record c { buffer = db } in
      let again = dispatch_loop fuel g₁ c₁ in
      if leb (2 ^ 31) size
      then some (record { sent = []; closed = false; gate = g₁; connection = c₁ })
      else if size == 0
      then again
      else if leb (2 ^ 24) size
      then some (record {
        sent = [];
        closed = true;
        gate = record g { mp = (clear db mp).1 };
        connection = record c { buffer = (clear db mp).0 };
      })
      else elim (forward size g₁ c₁) [
        | none ↦ none
        | some first ↦
            elim (dispatch_loop fuel first.gate
              (record first.connection { buffer = reset first.connection.buffer })) [
                | none ↦ none
                | some later ↦ some (record later { sent = first.sent ++ later.sent })
              ]
      ]
]

-- `dispatch_message`. A round that goes on takes bytes off the buffer, at least a header.
unfoldable pub dispatch_message : List ℕ → Gate → Connection → Option Outcome
unfolding dispatch_loop
dispatch_message block g c =
    let (db, mp) = push block c.buffer g.mp in
    dispatch_loop (db.size + 1) (record g { mp = mp }) (record c { buffer = db })
