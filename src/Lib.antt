-- ===== src/Lib.antt =====
-- The C core of the game server: the skynet runtime (skynet/skynet-src, skynet/service-src and
-- skynet/lualib-src), on which the services of the games run.
--
-- Services are contexts, each with a message queue. A worker thread takes a queue off the global queue,
-- dispatches messages from it to the callback of the service, and puts it back while it has messages. A service
-- pushes messages to others by handle, and the timer thread pushes responses of timers.
--
-- Mq: skynet/skynet-src/skynet_mq.c, the ring of one message queue. Mq.put is `skynet_mq_push` up to its test of
-- `in_global`, Mq.pop is `skynet_mq_pop`, Mq.len is `skynet_mq_length`, and the others go by the names of the source. Mq.Ring
-- is the invariant and the list of the messages held; Mq.Refine, Mq.Frame and Mq.Trace prove the operations.
-- GlobalMq: the global queue of the same file. A queue is an address in a store, and the list is linked through the
-- `next` fields as in the source; GlobalMq.Chain reads it as a list, GlobalMq.Laws and GlobalMq.Drop prove the
-- operations. A failed assertion is the result `none`.
-- Sched: the part of skynet/skynet-src/skynet_server.c that moves queues between threads, as a step relation over
-- any number of threads; Sched.Inv is the invariant, Sched.Safety what follows of it.
-- Timer: skynet/skynet-src/skynet_timer.c, the timing wheel. Timer.Place is the arithmetic of the levels, Timer.Count
-- and Timer.Wheel the lists, Timer.Fire one round, Timer.Deadline rounds in a row.
-- DataBuffer: skynet/service-src/databuffer.h, the bytes received on a connection. The functions drop the prefix `databuffer_`,
-- and `_return_message` is return_message. DataBuffer.Stream reads a buffer as a stream, DataBuffer.Header its packet
-- headers, DataBuffer.Pool counts the nodes of the pool.
-- Handle: skynet/skynet-src/skynet_handle.c, the table of contexts by handle, without the prefix `skynet_handle_`. Handle.Table is
-- its invariant and the scan for a free slot, Handle.Table.Grow the doubling, Handle.Table.Register the entry of a context, with the store
-- of its handle by `skynet_context_new` in the same step, Handle.Table.Retire the removal of a handle.
-- Handle.Names is the sorted table of names of the same file, with one search loop for `skynet_handle_findname` and `_insert_name`;
-- Handle.Names.Find proves the search, Handle.Names.Lookup and Handle.Names.Insert the operations on names.
-- Gate: `dispatch_message` and `_forward` of skynet/service-src/service_gate.c, which cut the stream of a connection into packets.
-- Gate.Packets proves them for the packets that a block completes.
-- HashId: skynet/service-src/hashid.h. HashId.Chain and HashId.Table are the lists of nodes and the invariant, HashId.Search,
-- HashId.Insert and HashId.Remove the operations.
-- Gate.Total follows `dispatch_message` on any bytes. Gate.Service has the connections and `dispatch_socket_message`, Gate.Service.Sound its invariant.
-- NetPack: skynet/lualib-src/lua-netpack.c, which cuts the streams of sockets into packets for the Lua side. `filter_data_` is filter_data, with its
-- two branches begin and fill_entry. NetPack.Frames is the protocol one byte at a time. NetPack.Ring, NetPack.Entries and NetPack.Sound are the
-- ring of packets, the table of incomplete packets and the state read as one frame for each socket; NetPack.More and NetPack.Filter
-- prove `push_more` and `filter_data_`, whose results NetPack.Results describes, NetPack.Pop `netpack.pop`, NetPack.Events the other messages. NetPack.Dispatch is the loop of
-- skynet/lualib/snax/gateserver.lua that pops the packets and gives
-- those of open sockets to the handlers; which sockets are open is an argument. NetPack.Stream and NetPack.Packed run blocks of many sockets through both.
-- Crypt: the hexadecimal and base 64 texts of skynet/lualib-src/lua-crypt.c. Crypt.Tables are the tables of characters, Crypt.Hex and Crypt.Base64 the
-- round trips, Crypt.Room the buffer of the decoder.
-- Seri: skynet/lualib-src/lua-seri.c, Lua values as bytes; Seri.Stream has its readers. wb_table_array, wb_table_hash and wb_table_metapairs are
-- the loops pack_items, pack_fields and pack_pairs, and unpack_table is get_array_size, unpack_items and unpack_fields. Seri.Blocks proves the blocks of
-- `wb_push` and `seri`, Seri.Encode and Seri.Pack what is written, Seri.Read and Seri.Unpack what is read, Seri.RoundTrip both together;
-- Seri.Consume and Seri.Fuel follow the readers on any stream.
-- WebPack: lualib-src/lua-websocketnetpack.c, which cuts the streams of sockets into websocket frames, and into HTTP headers during the
-- handshake. WebPack.Mask proves the masks, WebPack.Frame the headers of frames, WebPack.Header the search for the end of an HTTP header.
-- WebPack.Socket has `push_more`, `filter_data_` and the functions of the library; the loops around `read_size` take a round more than there are bytes.
-- WebPack.Protocol is the protocol one byte at a time, which refuses frames that are longer than MAX_PACKSIZE, and those that are
-- no header. WebPack.Parse and WebPack.Heads are headers that arrive in pieces, WebPack.Sound the state read as one place for each socket, WebPack.More and WebPack.Filter
-- `push_more` and `filter_data_`, whose results WebPack.Results describes.
-- WebPack.Client has the frames of RFC 6455 as clients send them, and WebPack.Blocks runs their stream through the filter in blocks.
-- Base: tests on numbers, C arrays as lists, rings in arrays (Base.Ring has the loop that copies a ring to a larger
-- array, for Mq and NetPack), memory as functions. Examples: the theorems at concrete inputs, and tests.
--
-- Bounds and fuel. The loop of `skynet_mq_pop` that raises the threshold has the length as its fuel,
-- as every round doubles the threshold; the loop of `_drop_queue` has one round more than the messages. The search in
-- the table of names has one round more than there are names, as every round makes the interval shorter. The registration of a
-- context has two rounds, one before and one after a doubling, which leaves half of the table free. The loop of `dispatch_message` has one
-- round more than there are bytes, as every round that goes on takes a header off the buffer. `push_more` has a round more than
-- bytes, as every round takes two or more, and the loop of `dispatch_queue` as many as the ring has places. The readers of Seri have three for
-- each byte left, as every value takes a byte and every call that takes none is followed by one that does. `timer_shift` has
-- four rounds for its four levels, and `add_node` three. A C `int` that counts messages or entries is a natural number: its
-- overflow, undefined in C, would need a queue of 2^30 messages. In HashId, Crypt and Seri, where an identifier or a size
-- may come near 2^31, the definitions fail there (`none`), or the theorems ask for smaller ones. `uint32_t` times wrap at 2^32 as written, and handles wrap at
-- 2^24. Memory that `malloc` returns is never exhausted.
--
-- Not modelled: the callbacks of services and everything that Lua scripts do, input and output, start-up, and the vendored
-- libraries. Clock readings are arguments. In Sched a thread that pops messages, and a sender, hold a reference
-- to the context, so that its queue is not marked for release; reference counts themselves are not modelled.
-- A registration and the store of its handle are one step of Handle, as no other thread is modelled there. The `tail` of a buffer
-- of DataBuffer is not modelled, nor are the hash lists of WebPack.Socket, which are a map from sockets to entries.
pub mod Base
pub mod Mq
pub mod GlobalMq
pub mod Sched
pub mod Timer
pub mod WebPack
pub mod DataBuffer
pub mod Handle
pub mod HashId
pub mod Gate
pub mod NetPack
pub mod Crypt
pub mod Seri
mod Examples
