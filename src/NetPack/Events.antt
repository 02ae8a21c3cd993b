-- ===== src/NetPack/Events.antt =====
-- `netpack.filter` of skynet/lualib-src/lua-netpack.c on every message of the socket server, and `netpack.clear`.
use jsmj_server.Base.{
  ℕ, ◌<◌, ◌≡◌, refl, sym, subst, List, [], ◌++◌, length, map, update, Option, none, some,
  append-nil, arith,
}
use jsmj_server.NetPack.{
  Pack, Queue, packet, Filtered, nothing, type_close, type_error, type_open, type_warning,
  SocketEvent, data_event, connect_event, close_event, accept_event, error_event, warning_event,
  other_event, lfilter, lclear,
}
use jsmj_server.NetPack.Frames.{Frame, idle, read_bytes}
use jsmj_server.NetPack.Sound.{Sound, find_uncomplete-Sound, new_queue-Sound}
use jsmj_server.NetPack.Results.{Returned, in_queue}
use jsmj_server.NetPack.Filter.{filter_data_lem}

-- The socket server sends no empty block.
abbrev pub IsPossible : SocketEvent → Type 0
IsPossible (data_event fd bytes) = 0 < length bytes
IsPossible e = Unit

-- where the sockets stand after a message: a socket that is closed or fails loses its incomplete packet
abbrev pub frames_after : (ℕ → Frame) → SocketEvent → ℕ → Frame
frames_after frames (data_event fd bytes) = update frames fd (read_bytes (frames fd) bytes).0
frames_after frames (close_event fd) = update frames fd idle
frames_after frames (error_event fd text) = update frames fd idle
frames_after frames e = frames

-- the packets that a result leaves in the ring
abbrev pub queued_by : (ℕ → Frame) → SocketEvent → Filtered → List Pack
queued_by frames (data_event fd bytes) r =
    map (packet fd) (in_queue r (read_bytes (frames fd) bytes).1)
queued_by frames e r = []

-- what the Lua side is told
abbrev pub Answers : (ℕ → Frame) → SocketEvent → Filtered → Type 0
Answers frames (data_event fd bytes) r = Returned fd r (read_bytes (frames fd) bytes).1
Answers frames connect_event r = r ≡ nothing
Answers frames (close_event fd) r = r ≡ type_close fd
Answers frames (accept_event fd text) r = r ≡ type_open fd text
Answers frames (error_event fd text) r = r ≡ type_error fd text
Answers frames (warning_event fd size) r = r ≡ type_warning fd size
Answers frames other_event r = r ≡ nothing

module _ (frames : ℕ → Frame) (packets : List Pack) (o : Option Queue) where
  -- what a message makes of a sound state
  abbrev pub IsHandled : SocketEvent → Option (Filtered × Option Queue) → Type 0
  IsHandled e x =
      (r : Filtered) × (o' : Option Queue) × (x ≡ some (r, o'))
      × Answers frames e r
      × Sound (frames_after frames e) (packets ++ queued_by frames e r) o'

  none_queued :
      {f : ℕ → Frame} {o' : Option Queue} → Sound f packets o' → Sound f (packets ++ []) o'
  none_queued {f} {o'} s = subst (λ l. Sound f l o') (sym (append-nil packets)) s

  -- In a sound state `netpack.filter` handles every message, whose block is not empty, without reading past the block:
  -- it answers as it should and leaves a sound state, where a socket that was closed or failed has no incomplete packet.
  pub lfilter_lem :
      (e : SocketEvent) → IsPossible e → Sound frames packets o → IsHandled e (lfilter e o)
  unfolding lfilter
  lfilter_lem (data_event fd bytes) h s =
      let f = filter_data_lem frames packets fd bytes o s h in (f.0.0, f.0.1, f.1, f.2, f.3)
  lfilter_lem connect_event h s = (nothing, o, refl, refl, none_queued s)
  lfilter_lem (close_event fd) h s =
      (type_close fd, _, refl, refl, none_queued (find_uncomplete-Sound fd o s))
  lfilter_lem (accept_event fd text) h s = (type_open fd text, o, refl, refl, none_queued s)
  lfilter_lem (error_event fd text) h s =
      (type_error fd text, _, refl, refl, none_queued (find_uncomplete-Sound fd o s))
  lfilter_lem (warning_event fd size) h s = (type_warning fd size, o, refl, refl, none_queued s)
  lfilter_lem other_event h s = (nothing, o, refl, refl, none_queued s)

-- `netpack.clear` forgets every incomplete packet and every packet that waits.
pub lclear_lem :
    {frames : ℕ → Frame} {packets : List Pack} (o : Option Queue)
    → Sound frames packets o
    → Sound (λ y. idle) [] (lclear o)
unfolding lclear
lclear_lem none s = new_queue-Sound
lclear_lem (some q) s = record {
  ring = record {
    storage = s.ring.storage;
    head_in = omega (arith, s.ring.head_in);
    tail_in = omega (arith, s.ring.head_in);
  };
  waiting = refl;
  shown = λ y. refl;
}
