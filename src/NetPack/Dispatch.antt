-- ===== src/NetPack/Dispatch.antt =====
-- skynet/lualib/snax/gateserver.lua on top of skynet/lualib-src/lua-netpack.c: what the handlers get of the packets.
use jsmj_server.Base.{
  Bool, if◌then◌else◌, ℕ, zero, suc, Option, none, some, List, [], ◌∷◌, ◌++◌, ◌>>=◌,
}
use jsmj_server.NetPack.{
  Pack, Queue, Filtered, type_data, type_more, get_queue, lpop, packet, filter_data,
}

-- one round of the loop: what was popped, before the later rounds
abbrev pub after_pop :
    Option Pack × Option Queue → List Pack × Option Queue → List Pack × Option Queue
after_pop (none, q) later = ([], q)
after_pop (some np, q) later = (np ∷ later.0, later.1)

-- `dispatch_queue` of skynet/lualib/snax/gateserver.lua, for handlers that do not block: pops until there is nothing
unfoldable pub dispatch_queue : ℕ → Option Queue → List Pack × Option Queue
unfolding lpop
dispatch_queue zero q = ([], q)
dispatch_queue (suc rounds) q =
    let popped = lpop q in after_pop popped (dispatch_queue rounds popped.1)

-- `dispatch_msg` of packets in a row: those of the sockets that are open go to `handler.message`, the others are dropped.
abbrev pub dispatch_msg : (ℕ → Bool) → List Pack → List Pack
dispatch_msg connection [] = []
dispatch_msg connection (np ∷ nps) =
    let later = dispatch_msg connection nps in if connection np.id then np ∷ later else later

-- What the handlers get for the result of `netpack.filter`. A ring holds fewer packets than `cap`.
unfoldable pub dispatch : (ℕ → Bool) → Filtered → Option Queue → List Pack × Option Queue
unfolding dispatch_queue
dispatch connection (type_data fd bytes) q = (dispatch_msg connection (packet fd bytes ∷ []), q)
dispatch connection type_more q =
    let popped = dispatch_queue (get_queue q).cap q in (dispatch_msg connection popped.0, popped.1)
dispatch connection r q = ([], q)

-- Blocks of any connections in the order of their arrival, and all the packets that the handlers get. No socket is
-- opened or closed between the blocks.
unfoldable pub serve :
    (ℕ → Bool) → List (ℕ × List ℕ) → Option Queue → Option (List Pack × Option Queue)
unfolding filter_data dispatch
serve connection [] q = some ([], q)
serve connection ((fd, bytes) ∷ blocks) q = do
  filtered ← filter_data fd bytes q
  let now = dispatch connection filtered.0 filtered.1
  rest ← serve connection blocks now.1
  some (now.0 ++ rest.0, rest.1)
