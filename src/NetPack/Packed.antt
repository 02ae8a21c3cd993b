-- ===== src/NetPack/Packed.antt =====
-- What `netpack.pack` writes, the filter of skynet/lualib-src/lua-netpack.c reads back.
use native.Mathlib.Decide.{ℕ_discrete}
use jsmj_server.Base.{
  Bool, ==_iff, ℕ, ◌+◌, ◌*◌, ◌/◌, ◌%◌, ◌^◌, ◌≤◌, ◌<◌, ◌≡◌, ◌≢◌, ◌⊎◌, inl, inr, refl, ap, ap₂, ◌∙◌,
  sym, subst, List, [], ◌∷◌, ◌++◌, arith, length, take, drop, map, update, update_ne, ◌==◌, true,
  false, leb, if◌then◌else◌, Bool-cases, Option, none, some, ◌>>=◌, Option-cases, some_inj,
  take-length, drop-length, length-append,
}
use jsmj_server.NetPack.{Pack, Queue, packet, lpack, write_size}
use jsmj_server.NetPack.Dispatch.{dispatch_msg, serve}
use jsmj_server.NetPack.Frames.{
  Frame, idle, read_bytes, read_bytes-append, after, read_bytes_first, read_bytes_sized_whole,
}
use jsmj_server.NetPack.Sound.{new_queue-Sound}
use jsmj_server.NetPack.Stream.{read_blocks, Filled, serve_lem}

-- the data of the packets of one socket
abbrev pub payloads_of : ℕ → List Pack → List (List ℕ)
payloads_of fd [] = []
payloads_of fd (np ∷ nps) =
    let later = payloads_of fd nps in if np.id == fd then np.buffer ∷ later else later

-- the stream of one socket, out of the blocks of all
abbrev pub bytes_of : ℕ → List (ℕ × List ℕ) → List ℕ
bytes_of fd [] = []
bytes_of fd (block ∷ blocks) =
    let later = bytes_of fd blocks in if block.0 == fd then block.1 ++ later else later

payloads_of-append :
    (fd : ℕ) (xs ys : List Pack)
    → payloads_of fd (xs ++ ys) ≡ payloads_of fd xs ++ payloads_of fd ys
payloads_of-append fd [] ys = refl
payloads_of-append fd (x ∷ xs) ys = elim (Bool-cases (x.id == fd)) [
  | inl here ↦ rw here (ap (λ l. x.buffer ∷ l) (payloads_of-append fd xs ys))
  | inr there ↦ rw there (payloads_of-append fd xs ys)
]

payloads_self : (fd : ℕ) (ps : List (List ℕ)) → payloads_of fd (map (packet fd) ps) ≡ ps
payloads_self fd [] = refl
payloads_self fd (p ∷ ps) =
    let here : (fd == fd) ≡ true = ground arith in rw here (ap (λ l. p ∷ l) (payloads_self fd ps))

payloads_ne : {y fd : ℕ} (ps : List (List ℕ)) → y ≢ fd → payloads_of fd (map (packet y) ps) ≡ []
payloads_ne [] ne = refl
payloads_ne {y} {fd} (p ∷ ps) ne =
    let there : (y == fd) ≡ false = ground (arith, ne) in rw there (payloads_ne ps ne)

-- However the blocks of other sockets come between its own, a socket gets the packets of its own stream.
pub payloads_of-read_blocks :
    (fd : ℕ) (frames : ℕ → Frame) (blocks : List (ℕ × List ℕ))
    → payloads_of fd (read_blocks frames blocks).1 ≡ (read_bytes (frames fd) (bytes_of fd blocks)).1
unfolding read_blocks read_bytes
payloads_of-read_blocks fd frames [] = refl
payloads_of-read_blocks fd frames ((y, bytes) ∷ blocks) =
    let r = read_bytes (frames y) bytes in
    let later = payloads_of-read_blocks fd (update frames y r.0) blocks in
    payloads_of-append fd (map (packet y) r.1) (read_blocks (update frames y r.0) blocks).1
    ∙ elim (ℕ_discrete y fd) [
      | yes e ↦
          let here : (y == fd) ≡ true = ground (arith, e) in
          let own : payloads_of fd (map (packet y) r.1) ≡ r.1 =
            subst (λ z. payloads_of fd (map (packet z) r.1) ≡ r.1) (sym e) (payloads_self fd r.1) in
          let now : update frames y r.0 fd ≡ r.0 = rw here refl in
          let rest = bytes_of fd blocks in
          rw here (
            ap₂ ◌++◌ own (later ∙ ap (λ f. (read_bytes f rest).1) now)
            ∙ ap
                (λ z.
                  (read_bytes (frames z) bytes).1
                  ++ (read_bytes (read_bytes (frames z) bytes).0 rest).1)
                e
            ∙ ap (λ (x : Frame × List (List ℕ)). x.1)
                (sym (read_bytes-append (frames fd) bytes rest)))
      | no ne ↦
          let there : (y == fd) ≡ false = ground (arith, ne) in
          rw (there, payloads_ne r.1 ne)
            (later ∙ ap (λ f. (read_bytes f (bytes_of fd blocks)).1) (update_ne frames r.0 ne))
    ]

-- the bytes that `netpack.pack` writes for packets in a row
abbrev pub packed : List (List ℕ) → Option (List ℕ)
packed [] = some []
packed (p ∷ ps) = do bytes ← lpack p; rest ← packed ps; some (bytes ++ rest)

size_bytes : (n : ℕ) → n < 2 ^ 16 → n / 2 ^ 8 % 2 ^ 8 * 2 ^ 8 + n % 2 ^ 8 ≡ n
size_bytes n h = omega arith

read_bytes-write_size :
    (p rest : List ℕ)
    → length p < 2 ^ 16
    → read_bytes idle ((write_size (length p) ++ p) ++ rest) ≡ after (p ∷ []) (read_bytes idle rest)
unfolding write_size
read_bytes-write_size p rest h =
    let n = length p in
    let size = size_bytes n h in
    read_bytes_first (n / 2 ^ 8 % 2 ^ 8) (n % 2 ^ 8 ∷ p ++ rest)
    ∙ read_bytes_sized_whole (n / 2 ^ 8 % 2 ^ 8) (n % 2 ^ 8) (p ++ rest)
        (omega (arith, size, length-append p rest))
    ∙ ap (λ k. after (take k (p ++ rest) ∷ []) (read_bytes idle (drop k (p ++ rest)))) size
    ∙ ap₂ (λ t d. after (t ∷ []) (read_bytes idle d)) (take-length p rest) (drop-length p rest)

-- `lpack` refuses a packet of 2^16 bytes or more, and the reader gets any other back, whatever follows it.
pub lpack_lem :
    (p : List ℕ)
    → ((2 ^ 16 ≤ length p) × (lpack p ≡ none))
      ⊎ ((bytes : List ℕ) × (lpack p ≡ some bytes)
          × ((rest : List ℕ)
              → read_bytes idle (bytes ++ rest) ≡ after (p ∷ []) (read_bytes idle rest)))
unfolding lpack write_size
lpack_lem p = elim (Bool-cases (leb (2 ^ 16) (length p))) [
  | inl long ↦ inl (ground (arith, long), rw long refl)
  | inr fits ↦ inr (
    write_size (length p) ++ p,
    rw fits refl,
    λ rest. read_bytes-write_size p rest (ground (arith, fits)),
  )
]

-- Packets in a row are read back as they are, and the reader stands between packets.
pub read_bytes-packed :
    (ps : List (List ℕ)) (bytes : List ℕ)
    → packed ps ≡ some bytes
    → read_bytes idle bytes ≡ (idle, ps)
unfolding read_bytes
read_bytes-packed [] bytes e = ap (read_bytes idle) (some_inj (sym e))
read_bytes-packed (p ∷ ps) bytes e = elim (lpack_lem p) [
  | inl long ↦
      absurd (cc (subst (λ o. (o >>= λ l. packed ps >>= λ r. some (l ++ r)) ≡ some bytes) long.1 e))
  | inr (first, run, reads) ↦
      let both : (packed ps >>= λ rest. some (first ++ rest)) ≡ some bytes =
        subst (λ o. (o >>= λ l. packed ps >>= λ r. some (l ++ r)) ≡ some bytes) run e in
      elim (Option-cases (packed ps)) [
        | inl failed ↦
            absurd (cc (subst (λ o. (o >>= λ r. some (first ++ r)) ≡ some bytes) failed both))
        | inr (rest, later) ↦
            let whole =
              some_inj (subst (λ o. (o >>= λ r. some (first ++ r)) ≡ some bytes) later both) in
            ap (read_bytes idle) (sym whole)
            ∙ reads rest
            ∙ ap (after (p ∷ [])) (read_bytes-packed ps rest later)
      ]
]

-- For an open socket, its packets are not dropped.
payloads_of-dispatch_msg :
    (connection : ℕ → Bool) (fd : ℕ) (nps : List Pack)
    → connection fd ≡ true
    → payloads_of fd (dispatch_msg connection nps) ≡ payloads_of fd nps
payloads_of-dispatch_msg connection fd [] served = refl
payloads_of-dispatch_msg connection fd (np ∷ nps) served =
    let later = payloads_of-dispatch_msg connection fd nps served in
    elim (Bool-cases (np.id == fd)) [
      | inl here ↦
          let there : connection np.id ≡ true = ap connection ((==_iff np.id fd).0 here) ∙ served in
          rw (there, here) (ap (λ l. np.buffer ∷ l) later)
      | inr other ↦ elim (Bool-cases (connection np.id)) [
        | inl there ↦ rw (there, other) later
        | inr away ↦ rw (away, other) later
      ]
    ]

-- From the start, when there is no queue yet, the packets that `netpack.pack` wrote for an open socket are the packets of the
-- socket that the handlers get, in order, however the stream is cut into blocks that are not empty and whatever
-- blocks of other sockets, not empty either, come between. No read is past a block.
pub serve-packed :
    (connection : ℕ → Bool) (fd : ℕ) (ps : List (List ℕ)) (bytes : List ℕ)
    (blocks : List (ℕ × List ℕ))
    → connection fd ≡ true
    → Filled blocks
    → packed ps ≡ some bytes
    → bytes_of fd blocks ≡ bytes
    → (delivered : List Pack) × (o : Option Queue) × (serve connection blocks none
        ≡ some (delivered, o))
      × (payloads_of fd delivered ≡ ps)
serve-packed connection fd ps bytes blocks served filled written arrived =
    let run = serve_lem connection (λ y. idle) blocks none filled new_queue-Sound in
    (
      dispatch_msg connection (read_blocks (λ y. idle) blocks).1,
      run.0,
      run.1,
      payloads_of-dispatch_msg connection fd (read_blocks (λ y. idle) blocks).1 served
          ∙ payloads_of-read_blocks fd (λ y. idle) blocks
          ∙ ap (λ l. (read_bytes idle l).1) arrived
          ∙ ap (λ (x : Frame × List (List ℕ)). x.1) (read_bytes-packed ps bytes written),
    )
