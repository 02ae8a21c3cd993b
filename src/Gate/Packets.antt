-- ===== src/Gate/Packets.antt =====
-- A block that completes packets: every payload is sent on, in order.
use jsmj_server.Base.{
  subst, ltb, ℕ, zero, suc, ◌+◌, ◌^◌, ◌≤◌, ◌<◌, ◌≡◌, ◌≢◌, ◌⊎◌, inl, inr, refl, ap, sym, ◌∙◌, true,
  false, none, some, Option-cases, Bool-cases, List, [], ◌∷◌, ◌++◌, leb, ◌==◌, length, take, drop,
  arith, take-length, drop-length, lt→ltb, length-append,
}
use jsmj_server.DataBuffer.{DataBuffer, MessagePool, push, readheader, header_ready, reset, not_yet}
use jsmj_server.DataBuffer.Stream.{contents, IsValid, read_lem, push_lem}
use jsmj_server.DataBuffer.Header.{encode_header, readheader_lem}
use jsmj_server.Gate.{
  Connection, Gate, Sent, Outcome, addressed, forward, dispatch_loop, dispatch_message,
}

-- the packets with these payloads, and then the bytes `rest`
unfoldable pub stream : ℕ → List (List ℕ) → List ℕ → List ℕ
stream size [] rest = rest
stream size (p ∷ ps) rest = encode_header size (length p) ++ (p ++ stream size ps rest)

-- the messages for these payloads; an empty packet is passed over
unfoldable pub messages : Gate → Connection → List (List ℕ) → List Sent
messages g c [] = []
messages g c ([] ∷ ps) = messages g c ps
messages g c ((b ∷ p) ∷ ps) = elim (addressed g c (b ∷ p)) [
  | none ↦ messages g c ps
  | some m ↦ m ∷ messages g c ps
]

abbrev pub AreShort : List (List ℕ) → Type 0
AreShort [] = Unit
AreShort (p ∷ ps) = (length p < 2 ^ 24) × AreShort ps

readheader_short :
    (size : ℕ) (db : DataBuffer) (mp : MessagePool)
    → IsValid db
    → db.header ≡ 0
    → length (contents db) < size
    → readheader size db mp ≡ some (not_yet, db, mp)
unfolding readheader
readheader_short size db mp v fresh h =
    let unread_yet : (db.header == 0) ≡ true = ground (arith, fresh) in
    rw (readheader, unread_yet, lt→ltb db.size size (omega (arith, v.sized, h))) refl

some_ne_none : {m : Sent} → some m ≢ none
some_ne_none e = absurd cc

nobody : (g : Gate) (c : Connection) (p : List ℕ) → addressed g c p ≡ none → addressed g c [] ≡ none
unfolding addressed
nobody g c p e = elim (Bool-cases (g.broker == 0)) [
  | inr broker ↦ absurd (some_ne_none (rw (addressed, broker) at e))
  | inl no_broker ↦ elim (Bool-cases (c.agent == 0)) [
    | inr agent ↦ absurd (some_ne_none (rw (addressed, no_broker, agent) at e))
    | inl no_agent ↦ elim (Bool-cases (g.watchdog == 0)) [
      | inr watchdog ↦ absurd (some_ne_none (rw (addressed, no_broker, no_agent, watchdog) at e))
      | inl none_left ↦ rw (addressed, no_broker, no_agent, none_left) refl
    ]
  ]
]

-- Whoever gets one payload gets every other.
pub addressed_all :
    (g : Gate) (c : Connection) (p : List ℕ)
    → addressed g c [] ≢ none
    → (m₀ : Sent) × (m : Sent) × (addressed g c [] ≡ some m₀) × (addressed g c p ≡ some m)
addressed_all g c p someone = elim (Option-cases (addressed g c [])) [
  | inl e ↦ absurd (someone e)
  | inr (m₀, known) ↦ elim (Option-cases (addressed g c p)) [
    | inl e ↦ absurd (someone (nobody g c p e))
    | inr (m, it) ↦ (m₀, m, known, it)
  ]
]

forward_lem :
    (g : Gate) (c : Connection) (p later : List ℕ)
    → addressed g c [] ≢ none
    → IsValid c.buffer
    → 0 < length p
    → contents c.buffer ≡ p ++ later
    → (m : Sent) × (db : DataBuffer) × (mp : MessagePool) × (addressed g c p ≡ some m)
      × (forward (length p) g c
          ≡ some (record {
            sent = m ∷ [];
            closed = false;
            gate = record g { mp = mp };
            connection = record c { buffer = db };
          }))
      × IsValid db
      × (contents db ≡ later)
unfolding forward
forward_lem g c p later some_one v pos e =
    let (m₀, m, known, it) = addressed_all g c p some_one in
    let (r, run, bytes, left, _, v') =
      read_lem (length p) c.buffer g.mp v pos (omega (arith, ap length e, length-append p later)) in
    let payload : r.0 ≡ p = bytes ∙ ap (take (length p)) e ∙ take-length p later in
    (
      m,
      r.1,
      r.2,
      it,
      rw (forward, known, run, payload, it) refl,
      v',
      left ∙ ap (drop (length p)) e ∙ drop-length p later,
    )

-- what the loop leaves of a stream of packets
pub record IsSplit (g : Gate) (c : Connection) (ps : List (List ℕ)) (rest : List ℕ) (o : Outcome)
    : Type 0 where
  pub sent : o.sent ≡ messages g c ps
  pub open_still : o.closed ≡ false
  pub left : contents o.connection.buffer ≡ rest
  pub valid : IsValid o.connection.buffer
  pub fresh : o.connection.buffer.header ≡ 0

messages-same :
    (g : Gate) (c : Connection) (mp : MessagePool) (db : DataBuffer) (ps : List (List ℕ))
    → messages (record g { mp = mp }) (record c { buffer = db }) ps ≡ messages g c ps
unfolding messages addressed
messages-same g c mp db [] = refl
messages-same g c mp db ([] ∷ ps) = messages-same g c mp db ps
messages-same g c mp db ((b ∷ p) ∷ ps) =
    ap (λ l. elim (addressed g c (b ∷ p)) as (λ _. List Sent) [ none ↦ l | some m ↦ m ∷ l ])
      (messages-same g c mp db ps)

-- a round for a packet with bytes
loop_step :
    (fuel : ℕ) (g : Gate) (c : Connection) {r : ℕ × DataBuffer × MessagePool} {n : ℕ}
    {first later : Outcome}
    → readheader g.header_size c.buffer g.mp ≡ some r
    → r.0 ≡ n
    → 0 < n
    → n < 2 ^ 24
    → forward n (record g { mp = r.2 }) (record c { buffer = r.1 }) ≡ some first
    → dispatch_loop fuel first.gate
        (record first.connection { buffer = reset first.connection.buffer })
      ≡ some later
    → dispatch_loop (suc fuel) g c ≡ some (record later { sent = first.sent ++ later.sent })
unfolding dispatch_loop
loop_step fuel g c {n = n} run size pos small sends next =
    let in_range : leb (2 ^ 31) n ≡ false = ground (arith, small) in
    let some_bytes : (n == 0) ≡ false = ground (arith, pos) in
    let not_large : leb (2 ^ 24) n ≡ false = ground (arith, small) in
    rw (dispatch_loop, run, size, in_range, some_bytes, not_large, sends, next) refl

dispatch_loop-IsSplit :
    (ps : List (List ℕ)) (rest : List ℕ) (fuel : ℕ) (g : Gate) (c : Connection)
    → (g.header_size ≡ 2) ⊎ (g.header_size ≡ 4)
    → addressed g c [] ≢ none
    → IsValid c.buffer
    → c.buffer.header ≡ 0
    → AreShort ps
    → length rest < g.header_size
    → contents c.buffer ≡ stream g.header_size ps rest
    → length ps < fuel
    → (o : Outcome) × (dispatch_loop fuel g c ≡ some o) × IsSplit g c ps rest o
unfolding dispatch_loop stream messages addressed reset
dispatch_loop-IsSplit ps rest zero g c two someone v fresh small few e enough = absurd (omega arith)
dispatch_loop-IsSplit [] rest (suc fuel) g c two someone v fresh small few e enough =
    let wait =
      readheader_short g.header_size c.buffer g.mp v fresh (omega (arith, ap length e, few)) in
    (
      record { sent = []; closed = false; gate = g; connection = c },
      rw (dispatch_loop, wait) refl,
      record { sent = refl; open_still = refl; left = e; valid = v; fresh = fresh },
    )
dispatch_loop-IsSplit ([] ∷ ps) rest (suc fuel) g c two someone v fresh small few e enough =
    let (r, run, is_zero, left, header, v') =
      readheader_lem g.header_size [] (stream g.header_size ps rest) c.buffer g.mp two v fresh
        (omega arith) e in
    let (o, run', q) =
      dispatch_loop-IsSplit ps rest fuel (record g { mp = r.2 }) (record c { buffer = r.1 }) two
        someone v' header small.1 few left (omega arith) in
    (
      o,
      rw (dispatch_loop, run, is_zero, run') refl,
      record {
        sent = q.sent ∙ messages-same g c r.2 r.1 ps;
        open_still = q.open_still;
        left = q.left;
        valid = q.valid;
        fresh = q.fresh;
      },
    )
dispatch_loop-IsSplit ((b ∷ p) ∷ ps) rest (suc fuel) g c two someone v fresh small few e enough =
    let (r, run, size, left, header, v') =
      readheader_lem g.header_size (b ∷ p) (stream g.header_size ps rest) c.buffer g.mp two v fresh
        (omega (arith, small.0)) e in
    let (m, db, mp, it, read_run, v'', left') =
      forward_lem (record g { mp = r.2 }) (record c { buffer = r.1 }) (b ∷ p)
        (stream g.header_size ps rest) someone v' (omega arith) left in
    let (o, run', q) =
      dispatch_loop-IsSplit ps rest fuel (record g { mp = mp }) (record c { buffer = reset db }) two
        someone (record { sized = v''.sized; in_head = v''.in_head }) refl small.1 few left'
        (omega arith) in
    (
      record o { sent = m ∷ o.sent },
      loop_step fuel g c run size (omega arith) small.0 read_run run',
      record {
        sent =
            ap (λ l. m ∷ l) (q.sent ∙ messages-same g c mp (reset db) ps)
            ∙ sym (
                ap
                  (λ t. elim t as (λ _. List Sent) [
                    | none ↦ messages g c ps
                    | some n ↦ n ∷ messages g c ps
                  ])
                  it);
        open_still = q.open_still;
        left = q.left;
        valid = q.valid;
        fresh = q.fresh;
      },
    )

length-stream :
    (size : ℕ) (ps : List (List ℕ)) (rest : List ℕ) → length ps ≤ length (stream size ps rest)
unfolding stream
length-stream size [] rest = omega arith
length-stream size (p ∷ ps) rest = elim (Bool-cases (size == 2)) [
  | inl two ↦
      rw (stream, two)
        (omega (arith, length-append p (stream size ps rest), length-stream size ps rest))
  | inr other ↦
      rw (stream, other)
        (omega (arith, length-append p (stream size ps rest), length-stream size ps rest))
]

-- what is still to come: a stream of packets, or, where a header was read before, first the payload that it announced
abbrev pub IsAwaited : ℕ → ℕ → List (List ℕ) → List ℕ → List ℕ → Type 0
IsAwaited header size ps rest bytes =
    ((header ≡ 0) × (bytes ≡ stream size ps rest))
    ⊎ ((b : ℕ) × (p : List ℕ) × (later : List (List ℕ)) × (ps ≡ (b ∷ p) ∷ later)
        × (header ≡ length (b ∷ p))
        × (bytes ≡ b ∷ p ++ stream size later rest))

readheader_known :
    (size n : ℕ) (db : DataBuffer) (mp : MessagePool)
    → db.header ≡ n
    → 0 < n
    → n < 2 ^ 24
    → n ≤ db.size
    → readheader size db mp ≡ some (n, db, mp)
unfolding readheader header_ready
readheader_known size n db mp e pos small enough =
    let known : (db.header == 0) ≡ false = ground (arith, e, pos) in
    let there : ltb db.size db.header ≡ false = ground (arith, e, enough) in
    let in_range : leb (2 ^ 31) db.header ≡ false = ground (arith, e, small) in
    rw (readheader, known, in_range, there) (ap (λ k. some (k, db, mp)) e)

-- the loop where a header was read before
dispatch_loop_resumed :
    (b : ℕ) (p : List ℕ) (ps : List (List ℕ)) (rest : List ℕ) (fuel : ℕ) (g : Gate) (c : Connection)
    → (g.header_size ≡ 2) ⊎ (g.header_size ≡ 4)
    → addressed g c [] ≢ none
    → IsValid c.buffer
    → c.buffer.header ≡ length (b ∷ p)
    → AreShort ((b ∷ p) ∷ ps)
    → length rest < g.header_size
    → contents c.buffer ≡ b ∷ p ++ stream g.header_size ps rest
    → length ps < fuel
    → (o : Outcome) × (dispatch_loop (suc fuel) g c ≡ some o) × IsSplit g c ((b ∷ p) ∷ ps) rest o
unfolding messages addressed reset
dispatch_loop_resumed b p ps rest fuel g c two someone v header small few e enough =
    let all = length-append p (stream g.header_size ps rest) in
    let run =
      readheader_known g.header_size (length (b ∷ p)) c.buffer g.mp header (omega arith) small.0
        (omega (arith, v.sized, ap length e, all)) in
    let (m, db, mp, it, sends, v', left) =
      forward_lem g c (b ∷ p) (stream g.header_size ps rest) someone v (omega arith) e in
    let (o, run', q) =
      dispatch_loop-IsSplit ps rest fuel (record g { mp = mp }) (record c { buffer = reset db }) two
        someone (record { sized = v'.sized; in_head = v'.in_head }) refl small.1 few left enough in
    (
      record o { sent = m ∷ o.sent },
      loop_step fuel g c run refl (omega arith) small.0 sends run',
      record {
        sent =
            ap (λ l. m ∷ l) (q.sent ∙ messages-same g c mp (reset db) ps)
            ∙ sym (
                ap
                  (λ t. elim t as (λ _. List Sent) [
                    | none ↦ messages g c ps
                    | some n ↦ n ∷ messages g c ps
                  ])
                  it);
        open_still = q.open_still;
        left = q.left;
        valid = q.valid;
        fresh = q.fresh;
      },
    )

-- the loop, whether a header was read before or not
dispatch_loop_awaited :
    (ps : List (List ℕ)) (rest : List ℕ) (g : Gate) (c : Connection)
    → (g.header_size ≡ 2) ⊎ (g.header_size ≡ 4)
    → addressed g c [] ≢ none
    → IsValid c.buffer
    → AreShort ps
    → length rest < g.header_size
    → IsAwaited c.buffer.header g.header_size ps rest (contents c.buffer)
    → (o : Outcome) × (dispatch_loop (c.buffer.size + 1) g c ≡ some o) × IsSplit g c ps rest o
dispatch_loop_awaited ps rest g c two someone v small few (inl (fresh, e)) =
    dispatch_loop-IsSplit ps rest (c.buffer.size + 1) g c two someone v fresh small few e
      (omega (arith, v.sized, ap length e, length-stream g.header_size ps rest))
dispatch_loop_awaited ps rest g c two someone v small few (inr (b, p, later, same, header, e)) =
    let all = length-append p (stream g.header_size later rest) in
    let (o, run, q) =
      dispatch_loop_resumed b p later rest c.buffer.size g c two someone v header
        (subst AreShort same small) few e
        (omega (arith, v.sized, ap length e, all, length-stream g.header_size later rest)) in
    (
      o,
      ap (λ k. dispatch_loop k g c) (omega arith) ∙ run,
      subst (λ l. IsSplit g c l rest o) (sym same) q,
    )

-- When a block completes packets, at most the beginning of a header being left over, `dispatch_message` ends, sends every payload
-- that is not empty to its receiver, in order, keeps the connection open, and leaves what is left over in the buffer;
-- the header of the first packet may have been read with an earlier block. Somebody must be there to receive, and a
-- payload must be shorter than 2^24 bytes.
pub dispatch_message_lem :
    (block : List ℕ) (ps : List (List ℕ)) (rest : List ℕ) (g : Gate) (c : Connection)
    → (g.header_size ≡ 2) ⊎ (g.header_size ≡ 4)
    → addressed g c [] ≢ none
    → IsValid c.buffer
    → AreShort ps
    → length rest < g.header_size
    → IsAwaited c.buffer.header g.header_size ps rest (contents c.buffer ++ block)
    → (o : Outcome) × (dispatch_message block g c ≡ some o) × IsSplit g c ps rest o
unfolding dispatch_message messages addressed
dispatch_message_lem block ps rest g c two someone v small few awaited =
    let (joined, header, v') = push_lem block c.buffer g.mp v in
    let (db, mp) = push block c.buffer g.mp in
    let still : IsAwaited db.header g.header_size ps rest (contents db) =
      subst (λ h. IsAwaited h g.header_size ps rest (contents db)) (sym header)
        (subst (λ l. IsAwaited c.buffer.header g.header_size ps rest l) (sym joined) awaited) in
    let (o, run, q) =
      dispatch_loop_awaited ps rest (record g { mp = mp }) (record c { buffer = db }) two someone v'
        small few still in
    (
      o,
      run,
      record {
        sent = q.sent ∙ messages-same g c mp db ps;
        open_still = q.open_still;
        left = q.left;
        valid = q.valid;
        fresh = q.fresh;
      },
    )
