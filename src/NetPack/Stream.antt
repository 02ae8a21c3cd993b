-- ===== src/NetPack/Stream.antt =====
-- Blocks of many connections through skynet/lualib-src/lua-netpack.c: each connection gets the packets of its own stream.
use jsmj_server.Base.{
  Bool, Bool-cases, inl, inr, ℕ, ◌<◌, ◌≡◌, refl, ap, List, [], ◌∷◌, ◌++◌, arith, length, map,
  update, Option, some,
}
use jsmj_server.NetPack.{
  Pack, Queue, Filtered, nothing, type_data, type_more, type_error, type_open, type_close,
  type_warning, get_queue, packet,
}
use jsmj_server.NetPack.Dispatch.{dispatch_msg, dispatch, serve}
use jsmj_server.NetPack.Frames.{Frame, read_bytes}
use jsmj_server.NetPack.Ring.{held-cap}
use jsmj_server.NetPack.Sound.{Sound}
use jsmj_server.NetPack.Results.{Returned, in_queue}
use jsmj_server.NetPack.Filter.{filter_data_lem}
use jsmj_server.NetPack.Pop.{dispatch_queue_lem, held-length}

-- what the protocol says of blocks of many connections: the frames and the packets
unfoldable pub read_blocks : (ℕ → Frame) → List (ℕ × List ℕ) → (ℕ → Frame) × List Pack
unfolding read_bytes
read_blocks frames [] = (frames, [])
read_blocks frames ((fd, bytes) ∷ blocks) =
    let r = read_bytes (frames fd) bytes in
    let later = read_blocks (update frames fd r.0) blocks in
    (later.0, map (packet fd) r.1 ++ later.1)

-- no block is empty
abbrev pub Filled : List (ℕ × List ℕ) → Type 0
Filled [] = Unit
Filled (block ∷ blocks) = (0 < length block.1) × Filled blocks

dispatch_msg-append :
    (connection : ℕ → Bool) (xs ys : List Pack)
    → dispatch_msg connection (xs ++ ys) ≡ dispatch_msg connection xs ++ dispatch_msg connection ys
dispatch_msg-append connection [] ys = refl
dispatch_msg-append connection (x ∷ xs) ys = elim (Bool-cases (connection x.id)) [
  | inl served ↦ rw served (ap (λ l. x ∷ l) (dispatch_msg-append connection xs ys))
  | inr away ↦ rw away (dispatch_msg-append connection xs ys)
]

-- The handlers get all packets of the block at once, if the socket is open.
dispatch_lem :
    (connection : ℕ → Bool) {frames : ℕ → Frame} (fd : ℕ) (r : Filtered) (ps : List (List ℕ))
    (o : Option Queue)
    → Returned fd r ps
    → Sound frames (map (packet fd) (in_queue r ps)) o
    → (o' : Option Queue) × (dispatch connection r o
        ≡ (dispatch_msg connection (map (packet fd) ps), o'))
      × Sound frames [] o'
unfolding dispatch
dispatch_lem connection fd nothing ps o none_there s = (o, rw none_there refl, s)
dispatch_lem connection fd (type_data id bytes) ps o there s = (o, rw (there.0, there.1) refl, s)
dispatch_lem connection fd type_more ps o there s =
    let (o', run, s') =
      dispatch_queue_lem (get_queue o).cap (map (packet fd) ps) o
        (omega (arith, held-cap s.ring, held-length (get_queue o), ap length s.waiting)) s in
    (o', rw run refl, s')
dispatch_lem connection fd (type_error id text) ps o there s = absurd there
dispatch_lem connection fd (type_open id text) ps o there s = absurd there
dispatch_lem connection fd (type_close id) ps o there s = absurd there
dispatch_lem connection fd (type_warning id size) ps o there s = absurd there

-- From a sound state with an empty ring, and with no empty block, `serve` never reads past a block, gives the packets
-- of the protocol that are of open sockets, in order, and leaves a sound state with an empty ring.
pub serve_lem :
    (connection : ℕ → Bool) (frames : ℕ → Frame) (blocks : List (ℕ × List ℕ)) (o : Option Queue)
    → Filled blocks
    → Sound frames [] o
    → (o' : Option Queue) × (serve connection blocks o
        ≡ some (dispatch_msg connection (read_blocks frames blocks).1, o'))
      × Sound (read_blocks frames blocks).0 [] o'
unfolding serve read_blocks
serve_lem connection frames [] o filled s = (o, refl, s)
serve_lem connection frames ((fd, bytes) ∷ blocks) o filled s =
    let r = read_bytes (frames fd) bytes in
    let f = filter_data_lem frames [] fd bytes o s filled.0 in
    let d = dispatch_lem connection fd f.0.0 r.1 f.0.1 f.2 f.3 in
    let later = serve_lem connection (update frames fd r.0) blocks d.0 filled.1 d.2 in
    let parts =
      dispatch_msg-append connection (map (packet fd) r.1)
        (read_blocks (update frames fd r.0) blocks).1 in
    (later.0, rw (serve, f.1, d.1, later.1, parts) refl, later.2)
