-- ===== src/WebPack.antt =====
-- lualib-src/lua-websocketnetpack.c: the bytes of a connection cut into websocket frames, or into HTTP headers while the
-- handshake lasts.
--
-- The host is little endian. `none` is a read or a write outside of an array, or an allocation of a negative size. The
-- ring of packets has the code of skynet/lualib-src/lua-netpack.c and is the one of its model. The table of incomplete
-- packets is a map, since a socket has at most one. Before there is a queue it is `new_queue`.
pub mod Mask
pub mod Frame
pub mod Header
pub mod Socket
pub mod Parse
pub mod Protocol
pub mod Heads
pub mod Sound
pub mod More
pub mod Results
pub mod Filter
pub mod Client
pub mod Blocks
use Prim.Native.Nat.{bit_xor}
use jsmj_server.Base.{
  ℕ, zero, suc, ◌+◌, ◌-◌, ◌*◌, ◌/◌, ◌%◌, ◌^◌, Bool, true, false, not, ◌&&◌, ◌||◌, Option, none,
  some, ◌>>=◌, List, [], ◌∷◌, ◌++◌, ltb, leb, ◌==◌, if◌then◌else◌, length, take, drop, get_or,
}

-- `MAX_PACKSIZE`, `HEADERSIZE` and `WEBSOCKET_MASK_LEN`
abbrev pub max_packsize : ℕ
max_packsize = 10 * 1024

abbrev pub headersize : ℕ
headersize = 1024

abbrev pub websocket_mask_len : ℕ
websocket_mask_len = 4

-- The result of `read_size`: -1, -2, a smaller number, or the size of the data with the length of the header and the
-- mask, if there is one.
pub data Size : Type 0 where
  header_short : Size
  header_invalid : Size
  size_negative : Size
  pack_size : ℕ → ℕ → Option (List ℕ) → Size

-- the number that `ntohs` and `ntoh64` give for bytes of the network
unfoldable pub from_network : ℕ → List ℕ → ℕ
from_network acc [] = acc
from_network acc (b ∷ bytes) = from_network (acc * 2 ^ 8 + b) bytes

-- the conversion of a size to `int`, and what its value is to the callers
abbrev pub as_int : ℕ → ℕ → Option (List ℕ) → Size
as_int offset size mask =
    let w = size % 2 ^ 32 in
    if ltb w (2 ^ 31)
    then pack_size offset w mask
    else (if w == 2 ^ 32 - 1
        then header_short
        else (if w == 2 ^ 32 - 2 then header_invalid else size_negative))

-- `buffer[0]` has a reserved bit, or is not a whole message
abbrev pub is_refused : ℕ → Bool
is_refused first =
    let fin = first / 2 ^ 7 % 2 in
    let rsv1 = first / 2 ^ 6 % 2 in
    let rsv2 = first / 2 ^ 5 % 2 in
    let rsv3 = first / 2 ^ 4 % 2 in
    let opcode = first % 2 ^ 4 in
    not (rsv1 == 0) || not (rsv2 == 0) || not (rsv3 == 0) || fin == 0 || opcode == 0

-- the bytes of the size behind the first two
abbrev pub size_width : ℕ → ℕ
size_width second =
    let len = second % 2 ^ 7 in if ltb len 0x7E then 0 else (if len == 0x7E then 2 else 8)

abbrev pub is_mask : ℕ → Bool
is_mask second = second / 2 ^ 7 % 2 == 1

-- `read_size` from the mask on: the offset, the size, and the bytes from the offset on
abbrev pub read_mask : ℕ → ℕ → ℕ → List ℕ → Size
read_mask second offset size bytes =
    if is_mask second
    then (if ltb (length bytes) websocket_mask_len
        then header_short
        else as_int (offset + websocket_mask_len) size (some (take websocket_mask_len bytes)))
    else as_int offset size none

unfoldable pub read_size : List ℕ → Size
unfolding from_network
read_size [] = header_short
read_size (first ∷ []) = header_short
read_size (first ∷ second ∷ bytes) =
    let width = size_width second in
    let size = if width == 0 then second % 2 ^ 7 else from_network 0 (take width bytes) in
    if is_refused first
    then header_invalid
    else (if ltb (length bytes) width
        then header_short
        else read_mask second (2 + width) size (drop width bytes))

-- the exclusive or of bytes with the mask, from the place `i` of the data on
unfoldable pub unmask : List ℕ → ℕ → List ℕ → List ℕ
unmask masks i [] = []
unmask masks i (b ∷ bytes) =
    bit_xor b (get_or masks (i % websocket_mask_len) 0) ∷ unmask masks (suc i) bytes

-- `mask`, `ismask` and `hasunmask_size` of `struct uncomplete`
pub record Masking : Type 0 where
  pub mask : List ℕ
  pub ismask : Bool
  pub hasunmask_size : ℕ

-- what the callers of `read_size` make of the mask
abbrev pub masking_of : Option (List ℕ) → Masking
masking_of none = record { mask = 0 ∷ 0 ∷ 0 ∷ 0 ∷ []; ismask = false; hasunmask_size = 0 }
masking_of (some masks) = record { mask = masks; ismask = true; hasunmask_size = 0 }

-- The first `size` bytes of the buffer are unmasked in place.
unfoldable pub decode_wsmask_data : List ℕ → ℕ → Masking → List ℕ × Masking
unfolding unmask
decode_wsmask_data buffer size uc = if not uc.ismask then (buffer, uc) else (
  unmask uc.mask uc.hasunmask_size (take size buffer) ++ drop size buffer,
  record uc { hasunmask_size = uc.hasunmask_size + size },
)

-- whether the bytes begin with the needle, `memcmp`
abbrev pub begins_with : List ℕ → List ℕ → Bool
begins_with bytes [] = true
begins_with [] (n ∷ needle) = false
begins_with (b ∷ bytes) (n ∷ needle) = b == n && begins_with bytes needle

-- The loop of `websocket_strnpos` for as many rounds as its bound allows; the result -1 is `none`.
unfoldable pub strnpos_loop : ℕ → ℕ → List ℕ → List ℕ → Option (Option ℕ)
strnpos_loop zero i haystack needle = some none
strnpos_loop (suc rounds) i [] needle = none
strnpos_loop (suc rounds) i (b ∷ haystack) needle =
    let later = strnpos_loop rounds (suc i) haystack needle in
    if not (b == get_or needle 0 0)
    then later
    else (if ltb (suc (length haystack)) (length needle)
        then none
        else (if begins_with (b ∷ haystack) needle then some (some i) else later))

-- The bound is an `int` that the comparison with the `uint32_t` counter makes unsigned again.
unfoldable pub websocket_strnpos : List ℕ → List ℕ → Option (Option ℕ)
unfolding strnpos_loop
websocket_strnpos haystack needle =
    strnpos_loop ((length haystack + 2 ^ 32 - length needle + 1) % 2 ^ 32) 0 haystack needle

-- "\r\n\r\n"
abbrev pub blank_line : List ℕ
blank_line = 13 ∷ 10 ∷ 13 ∷ 10 ∷ []

unfoldable pub get_http_header : List ℕ → Option (Option ℕ)
unfolding websocket_strnpos
get_http_header buffer = do
  found ← websocket_strnpos buffer blank_line
  some (elim found [ none ↦ none | some n ↦ some (n + 4) ])

-- `FRAME_SET_LENGTH`
abbrev pub length_byte : ℕ → ℕ → ℕ
length_byte len idx = len / 2 ^ (idx * 8) % 2 ^ 8

-- the header that `lpack` writes: a whole binary message without a mask
unfoldable pub frame_header : ℕ → List ℕ
frame_header len =
    (2 ^ 7 + 2)
    ∷ (if ltb len 126
        then length_byte len 0 ∷ []
        else (if ltb len 65536
            then 126 ∷ length_byte len 1 ∷ length_byte len 0 ∷ []
            else 127
              ∷ length_byte len 7
              ∷ length_byte len 6
              ∷ length_byte len 5
              ∷ length_byte len 4
              ∷ length_byte len 3
              ∷ length_byte len 2
              ∷ length_byte len 1
              ∷ length_byte len 0
              ∷ []))

unfoldable pub lpack : List ℕ → List ℕ
unfolding frame_header
lpack bytes = frame_header (length bytes) ++ bytes
