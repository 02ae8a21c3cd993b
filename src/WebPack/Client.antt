-- ===== src/WebPack/Client.antt =====
-- Frames as clients send them, through lualib-src/lua-websocketnetpack.c.
use Prim.Native.Nat.{bit_xor}
use jsmj_server.Base.{
  get_or, ℕ, suc, ◌+◌, ◌/◌, ◌%◌, ◌^◌, ◌≤◌, ◌<◌, ◌≡◌, inl, inr, refl, ap, ap₂, ◌∙◌, sym, List, [],
  ◌∷◌, ◌++◌, arith, length, length-append, take, drop, take-length, drop-length, take_all, Option,
  some, ◌>>=◌, map, true, false, ltb, ltb→lt, lt→ltb, if◌then◌else◌, Bool-cases, append_assoc,
}
use jsmj_server.WebPack.{
  unmask, pack_size, as_int, is_refused, from_network, max_packsize, read_size,
}
use jsmj_server.WebPack.Mask.{length-unmask, unmask_twice}
use jsmj_server.WebPack.Parse.{head_rest, whole_header, read_size_above, read_size_before}
use jsmj_server.WebPack.Protocol.{
  head, payload, accept, so_far, read_bytes, read_after, read_after_nothing, so_far_start,
}

not_above : (n k : ℕ) → k ≤ n → ltb n k ≡ false
not_above n k h = ground arith

-- A header that is read byte by byte to its end.
read_header :
    (h : List ℕ) (b : ℕ) (c t : List ℕ) {k n : ℕ} {m : Option (List ℕ)}
    → read_size (h ++ b ∷ c) ≡ pack_size k n m
    → k ≡ length (h ++ b ∷ c)
    → k ≤ 14
    → ltb max_packsize n ≡ false
    → read_bytes (head h) (b ∷ c ++ t) ≡ read_after (so_far n m []) t
unfolding read_bytes
read_header h b [] t {k} {n} {m} e at few fits =
    ap (λ s. accept s (h ++ b ∷ []) >>= λ first. read_after first t) e ∙ rw fits refl
read_header h b (b' ∷ c) t {k} {n} {m} e at few fits =
    let same : (h ++ b ∷ []) ++ b' ∷ c ≡ h ++ b ∷ b' ∷ c = append_assoc h (b ∷ []) (b' ∷ c) in
    let e' = ap read_size same ∙ e in
    let at' = at ∙ ap length (sym same) in
    let short = read_size_before (h ++ b ∷ []) b' c e' at' in
    let room : ltb (length (h ++ b ∷ [])) 14 ≡ true =
      lt→ltb (length (h ++ b ∷ [])) 14
        (omega (arith, at', few, length-append (h ++ b ∷ []) (b' ∷ c))) in
    ap (λ s. accept s (h ++ b ∷ []) >>= λ first. read_after first (b' ∷ c ++ t)) short
    ∙ rw room (read_after_nothing (head (h ++ b ∷ [])) (b' ∷ c ++ t))
    ∙ read_header (h ++ b ∷ []) b' c t e' at' few fits

-- the four bytes of the mask in turn, from the one whose turn it is
abbrev in_turn : ℕ → ℕ → ℕ → ℕ → List ℕ → List ℕ
in_turn a b c d [] = []
in_turn a b c d (x ∷ xs) = bit_xor x a ∷ in_turn b c d a xs

module _ (masks : List ℕ) where
  turn : ℕ → ℕ
  turn k = get_or masks k 0

  unmask-in_turn :
      (xs : List ℕ) (i : ℕ)
      → (i % 4 ≡ 0 → unmask masks i xs ≡ in_turn (turn 0) (turn 1) (turn 2) (turn 3) xs)
        × (i % 4 ≡ 1 → unmask masks i xs ≡ in_turn (turn 1) (turn 2) (turn 3) (turn 0) xs)
        × (i % 4 ≡ 2 → unmask masks i xs ≡ in_turn (turn 2) (turn 3) (turn 0) (turn 1) xs)
        × (i % 4 ≡ 3 → unmask masks i xs ≡ in_turn (turn 3) (turn 0) (turn 1) (turn 2) xs)
  unfolding unmask turn
  unmask-in_turn [] i = (λ e. refl, λ e. refl, λ e. refl, λ e. refl)
  unmask-in_turn (x ∷ xs) i =
      let later = unmask-in_turn xs (suc i) in
      (
        λ e. ap₂ (λ k l. bit_xor x (get_or masks k 0) ∷ l) e (later.1 (omega (arith, e))),
        λ e. ap₂ (λ k l. bit_xor x (get_or masks k 0) ∷ l) e (later.2 (omega (arith, e))),
        λ e. ap₂ (λ k l. bit_xor x (get_or masks k 0) ∷ l) e (later.3 (omega (arith, e))),
        λ e. ap₂ (λ k l. bit_xor x (get_or masks k 0) ∷ l) e (later.0 (omega (arith, e))),
      )

-- the data as a client masks them
abbrev client_data : List ℕ → List ℕ → List ℕ
client_data masks bytes =
    in_turn (get_or masks 0 0) (get_or masks 1 0) (get_or masks 2 0) (get_or masks 3 0) bytes

unmask-client_data : (masks bytes : List ℕ) → unmask masks 0 bytes ≡ client_data masks bytes
unfolding turn
unmask-client_data masks bytes = (unmask-in_turn masks bytes 0).0 refl

-- a frame that is a whole message, its mask and its data before they are masked
pub record ClientFrame : Type 0 where
  pub first : ℕ
  pub masks : List ℕ
  pub content : List ℕ

-- a frame that is a whole message: the first byte has the FIN bit, no reserved bit and an opcode other than 0
pub record IsSent (f : ClientFrame) : Type 0 where
  pub whole : is_refused f.first ≡ false
  pub four : length f.masks ≡ 4
  pub small : length f.content ≤ max_packsize

-- the second byte, with the bit of the mask, and the bytes of the size behind it
abbrev second_byte : ℕ → ℕ
second_byte n = if ltb n 126 then 128 + n else 128 + 126

abbrev size_bytes : ℕ → List ℕ
size_bytes n = if ltb n 126 then [] else n / 2 ^ 8 ∷ n % 2 ^ 8 ∷ []

-- the frame as RFC 6455 has it
abbrev pub frame_bytes : ClientFrame → List ℕ
frame_bytes f =
    f.first ∷ second_byte (length f.content) ∷ (size_bytes (length f.content) ++ f.masks)
    ++ client_data f.masks f.content

abbrev header_end : ℕ → ℕ
header_end n = if ltb n 126 then 6 else 8

as_int_masked :
    (offset n : ℕ) (mask : Option (List ℕ))
    → n ≤ max_packsize
    → as_int offset n mask ≡ pack_size offset n mask
as_int_masked offset n mask h =
    let whole : n % 2 ^ 32 ≡ n = omega arith in
    let low : ltb n (2 ^ 31) ≡ true = ground arith in rw (whole, low) refl

short_header :
    (n : ℕ) (masks : List ℕ)
    → n < 126
    → length masks ≡ 4
    → (head_rest (128 + n) ≡ 4) × (whole_header (128 + n) masks ≡ as_int 6 n (some masks))
short_header n masks h four =
    let low : (128 + n) % 2 ^ 7 ≡ n = omega arith in
    let small : ltb n 0x7E ≡ true = ground arith in
    let bit : (128 + n) / 2 ^ 7 % 2 ≡ 1 = omega arith in
    rw (low, small, bit)
      (refl, ap (λ l. as_int 6 n (some l)) (take_all 4 masks (omega (arith, four))))

long_header :
    (n : ℕ) (masks : List ℕ)
    → n < 2 ^ 16
    → length masks ≡ 4
    → whole_header 254 (n / 2 ^ 8 ∷ n % 2 ^ 8 ∷ masks) ≡ as_int 8 n (some masks)
unfolding from_network
long_header n masks h four =
    let value : from_network 0 (n / 2 ^ 8 ∷ n % 2 ^ 8 ∷ []) ≡ n = omega arith in
    ap₂ (λ k l. as_int 8 k (some l)) value (take_all 4 masks (omega (arith, four)))

read_size_frame :
    (first n : ℕ) (masks : List ℕ)
    → is_refused first ≡ false
    → length masks ≡ 4
    → n ≤ max_packsize
    → read_size (first ∷ second_byte n ∷ size_bytes n ++ masks)
      ≡ pack_size (header_end n) n (some masks)
read_size_frame first n masks whole four small = elim (Bool-cases (ltb n 126)) [
  | inl short ↦
      let both = short_header n masks (ltb→lt n 126 short) four in
      rw short (
        read_size_above first (128 + n) masks whole (omega (arith, both.0, four))
        ∙ both.1
        ∙ as_int_masked 6 n (some masks) small)
  | inr long ↦ rw long (
      read_size_above first 254 (n / 2 ^ 8 ∷ n % 2 ^ 8 ∷ masks) whole (omega (arith, four))
      ∙ long_header n masks (omega (arith, small)) four
      ∙ as_int_masked 8 n (some masks) small)
]

frame_header_length :
    (n : ℕ) (masks : List ℕ)
    → length masks ≡ 4
    → (header_end n ≡ suc (suc (length (size_bytes n ++ masks)))) × (header_end n ≤ 14)
frame_header_length n masks four = elim (Bool-cases (ltb n 126)) [
  | inl short ↦ rw short (omega (arith, four), omega arith)
  | inr long ↦ rw long (omega (arith, four), omega arith)
]

-- A frame of a client is read as its data, whatever follows it.
read_bytes-frame_bytes :
    (f : ClientFrame) (rest : List ℕ)
    → IsSent f
    → read_bytes (head []) (frame_bytes f ++ rest) ≡ read_after (head [], f.content ∷ []) rest
read_bytes-frame_bytes f rest sent =
    let n = length f.content in
    let masked = client_data f.masks f.content in
    let same = unmask-client_data f.masks f.content in
    let size = read_size_frame f.first n f.masks sent.whole sent.four sent.small in
    let ends = frame_header_length n f.masks sent.four in
    let fits : ltb max_packsize n ≡ false = not_above max_packsize n sent.small in
    let all : n ≡ length masked = sym (ap length (sym same) ∙ length-unmask f.masks 0 f.content) in
    let header = size_bytes n ++ f.masks in
    ap (λ l. read_bytes (head []) (f.first ∷ second_byte n ∷ l)) (append_assoc header masked rest)
    ∙ read_header [] f.first (second_byte n ∷ header) (masked ++ rest) size ends.0 ends.1 fits
    ∙ so_far_start n (some f.masks) (masked ++ rest) (omega (arith, all, length-append masked rest))
    ∙ ap₂ (λ p l. read_after (head [], payload (some f.masks) p ∷ []) l)
        (ap (λ k. take k (masked ++ rest)) all ∙ take-length masked rest)
        (ap (λ k. drop k (masked ++ rest)) all ∙ drop-length masked rest)
    ∙ ap (λ p. read_after (head [], p ∷ []) rest)
        (ap (unmask f.masks 0) (sym same) ∙ unmask_twice f.masks 0 f.content)

-- frames in a row, their data, and that all of them may be sent
abbrev pub stream : List ClientFrame → List ℕ
stream [] = []
stream (f ∷ fs) = frame_bytes f ++ stream fs

abbrev pub AllSent : List ClientFrame → Type 0
AllSent [] = Unit
AllSent (f ∷ fs) = IsSent f × AllSent fs

pub read_bytes-stream :
    (fs : List ClientFrame)
    → AllSent fs
    → read_bytes (head []) (stream fs) ≡ some (head [], map (λ f. f.content) fs)
unfolding read_bytes
read_bytes-stream [] sent = refl
read_bytes-stream (f ∷ fs) sent =
    read_bytes-frame_bytes f (stream fs) sent.0
    ∙ ap (λ o. o >>= λ later. some (later.0, f.content ∷ later.1)) (read_bytes-stream fs sent.1)
