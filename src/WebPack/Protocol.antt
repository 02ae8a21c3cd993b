-- ===== src/WebPack/Protocol.antt =====
-- The frames of a socket in lualib-src/lua-websocketnetpack.c, read one byte at a time.
use jsmj_server.Base.{
  ℕ, suc, ◌+◌, ◌-◌, ◌≤◌, ◌<◌, ◌≡◌, inl, inr, refl, ap, ◌∙◌, subst, List, [], ◌∷◌, ◌++◌, arith,
  length, length-append, take, drop, Option, none, some, ◌>>=◌, false, Bool-cases, ltb, ltb→lt,
  lt→ltb, if◌then◌else◌, append-nil, append_assoc,
}
use jsmj_server.WebPack.{
  Size, header_short, header_invalid, size_negative, pack_size, max_packsize, read_size, masking_of,
}
use jsmj_server.WebPack.Mask.{decoded}

-- where a socket stands: after the first bytes of a header, or of the data of a packet with its size and mask
pub data Place : Type 0 where
  head : List ℕ → Place
  body : ℕ → Option (List ℕ) → List ℕ → Place

-- the data of a packet as they come out
abbrev pub payload : Option (List ℕ) → List ℕ → List ℕ
payload mask bytes = (decoded bytes (masking_of mask)).0

-- the place within the data, and the packet if it is complete
abbrev pub so_far : ℕ → Option (List ℕ) → List ℕ → Place × List (List ℕ)
so_far n mask bytes =
    if ltb (length bytes) n then (body n mask bytes, []) else (head [], payload mask bytes ∷ [])

-- A header has at most 14 bytes. What is no header, or says that the packet is too long, is refused.
abbrev pub accept : Size → List ℕ → Option (Place × List (List ℕ))
accept header_short h = if ltb (length h) 14 then some (head h, []) else none
accept header_invalid h = none
accept size_negative h = none
accept (pack_size offset n mask) h = if ltb max_packsize n then none else some (so_far n mask [])

abbrev pub read_byte : Place → ℕ → Option (Place × List (List ℕ))
read_byte (head h) b = accept (read_size (h ++ b ∷ [])) (h ++ b ∷ [])
read_byte (body n mask bytes) b = some (so_far n mask (bytes ++ b ∷ []))

-- the packets that the bytes complete, and the place afterwards
unfoldable pub read_bytes : Place → List ℕ → Option (Place × List (List ℕ))
read_bytes p [] = some (p, [])
read_bytes p (b ∷ bytes) = do
  first ← read_byte p b
  later ← read_bytes first.0 bytes
  some (later.0, first.1 ++ later.1)

-- the same after a place and packets
abbrev pub read_after : Place × List (List ℕ) → List ℕ → Option (Place × List (List ℕ))
read_after r bytes = read_bytes r.0 bytes >>= λ later. some (later.0, r.1 ++ later.1)

pub read_after_nothing :
    (p : Place) (bytes : List ℕ) → read_after (p, []) bytes ≡ read_bytes p bytes
read_after_nothing p bytes = again (read_bytes p bytes)
  where
    again : (o : Option (Place × List (List ℕ))) → (o >>= λ later. some (later.0, later.1)) ≡ o
    again none = refl
    again (some r) = refl

-- Data that do not complete the packet, and data that do.
pub so_far_part :
    (n : ℕ) (mask : Option (List ℕ)) (xs ys : List ℕ)
    → length xs + length ys < n
    → read_after (so_far n mask xs) ys ≡ some (body n mask (xs ++ ys), [])
unfolding read_bytes
so_far_part n mask xs [] h =
    let more = lt→ltb (length xs) n (omega arith) in rw (more, append-nil xs) refl
so_far_part n mask xs (y ∷ ys) h =
    let more = lt→ltb (length xs) n (omega arith) in
    rw more (
      read_after_nothing (body n mask xs) (y ∷ ys)
      ∙ so_far_part n mask (xs ++ y ∷ []) ys (omega (arith, length-append xs (y ∷ [])))
      ∙ ap (λ l. some (body n mask l, [])) (append_assoc xs (y ∷ []) ys))

pub so_far_whole :
    (n : ℕ) (mask : Option (List ℕ)) (xs ys : List ℕ)
    → length xs ≤ n
    → n ≤ length xs + length ys
    → read_after (so_far n mask xs) ys
      ≡ read_after
          (head [], payload mask (xs ++ take (n - length xs) ys) ∷ [])
          (drop (n - length xs) ys)
unfolding read_bytes
so_far_whole n mask xs [] lo hi =
    let done : ltb (length xs) n ≡ false = ground arith in
    let last : n - length xs ≡ 0 = omega arith in rw (done, last, append-nil xs) refl
so_far_whole n mask xs (y ∷ ys) lo hi = elim (Bool-cases (ltb (length xs) n)) [
  | inl more ↦
      let grown = length-append xs (y ∷ []) in
      let less = ltb→lt (length xs) n more in
      let one : n - length xs ≡ suc (n - length (xs ++ y ∷ [])) = omega (arith, grown, less) in
      rw (more, one)
        (read_after_nothing (body n mask xs) (y ∷ ys)
          ∙ so_far_whole n mask (xs ++ y ∷ []) ys (omega (arith, grown, less))
              (omega (arith, grown, hi))
          ∙ ap
              (λ l. read_after (head [], payload mask l ∷ []) (drop (n - length (xs ++ y ∷ [])) ys))
              (append_assoc xs (y ∷ []) (take (n - length (xs ++ y ∷ [])) ys)))
  | inr done ↦
      let last : n - length xs ≡ 0 = ground (arith, done) in rw (done, last, append-nil xs) refl
]

-- All the data of a packet that begins with them.
pub so_far_start :
    (n : ℕ) (mask : Option (List ℕ)) (ys : List ℕ)
    → n ≤ length ys
    → read_after (so_far n mask []) ys
      ≡ read_after (head [], payload mask (take n ys) ∷ []) (drop n ys)
so_far_start n mask ys h =
    subst
      (λ k.
        read_after (so_far n mask []) ys
        ≡ read_after (head [], payload mask (take k ys) ∷ []) (drop k ys))
      {y = n} (omega arith) (so_far_whole n mask [] ys (omega arith) (omega (arith, h)))
