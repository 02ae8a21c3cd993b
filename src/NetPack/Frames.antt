-- ===== src/NetPack/Frames.antt =====
-- The protocol of skynet/lualib-src/lua-netpack.c, read one byte at a time.
use jsmj_server.Base.{
  ℕ, zero, suc, ◌+◌, ◌-◌, ◌*◌, ◌^◌, ◌≤◌, ◌<◌, ◌≡◌, refl, ap, ◌∙◌, sym, subst, List, [], ◌∷◌, ◌++◌,
  arith, ltb, ltb→lt, lt→ltb, length-append, if◌then◌else◌, length, take, drop, Bool-cases, inl,
  inr, append-nil, append_assoc,
}

-- where a connection stands: between packets, after the first byte of a size, or within the data
pub data Frame : Type 0 where
  idle : Frame
  half : ℕ → Frame
  body : ℕ → List ℕ → Frame

-- the data of a packet of `n` bytes so far, and the packet if it is complete
abbrev pub data_so_far : ℕ → List ℕ → Frame × List (List ℕ)
data_so_far n xs = if ltb (length xs) n then (body n xs, []) else (idle, xs ∷ [])

abbrev pub read_byte : Frame → ℕ → Frame × List (List ℕ)
read_byte idle b = (half b, [])
read_byte (half a) b = data_so_far (a * 2 ^ 8 + b) []
read_byte (body n xs) b = data_so_far n (xs ++ b ∷ [])

-- the packets that the bytes complete, and where the connection stands afterwards
unfoldable pub read_bytes : Frame → List ℕ → Frame × List (List ℕ)
read_bytes f [] = (f, [])
read_bytes f (b ∷ bs) =
    let first = read_byte f b in let later = read_bytes first.0 bs in (later.0, first.1 ++ later.1)

-- packets before what is read later
abbrev pub after : List (List ℕ) → Frame × List (List ℕ) → Frame × List (List ℕ)
after ps r = (r.0, ps ++ r.1)

-- It does not matter where a stream is cut.
pub read_bytes-append :
    (f : Frame) (xs ys : List ℕ)
    → read_bytes f (xs ++ ys) ≡ after (read_bytes f xs).1 (read_bytes (read_bytes f xs).0 ys)
unfolding read_bytes
read_bytes-append f [] ys = refl
read_bytes-append f (x ∷ xs) ys =
    ap (after (read_byte f x).1) (read_bytes-append (read_byte f x).0 xs ys)
    ∙ ap (λ ps. ((read_bytes (read_bytes (read_byte f x).0 xs).0 ys).0, ps))
        (sym (append_assoc (read_byte f x).1 _ _))

-- Bytes that do not complete the data are added to it.
pub read_bytes_part :
    (n : ℕ) (xs ys : List ℕ)
    → length xs + length ys < n
    → read_bytes (body n xs) ys ≡ (body n (xs ++ ys), [])
unfolding read_bytes
read_bytes_part n xs [] h = ap (λ l. (body n l, [])) (sym (append-nil xs))
read_bytes_part n xs (y ∷ ys) h =
    let grown = length-append xs (y ∷ []) in
    let short = lt→ltb (length (xs ++ y ∷ [])) n (omega (arith, grown)) in
    rw (short, read_bytes_part n (xs ++ y ∷ []) ys (omega (arith, grown)), append_assoc xs) refl

-- Bytes that complete the data give the packet; the rest is read between packets.
pub read_bytes_whole :
    (n : ℕ) (xs ys : List ℕ)
    → length xs < n
    → n ≤ length xs + length ys
    → read_bytes (body n xs) ys
      ≡ after ((xs ++ take (n - length xs) ys) ∷ []) (read_bytes idle (drop (n - length xs) ys))
unfolding read_bytes
read_bytes_whole n xs [] lo hi = absurd (omega arith)
read_bytes_whole n xs (y ∷ ys) lo hi =
    let grown : length (xs ++ y ∷ []) ≡ suc (length xs) = length-append xs (y ∷ []) ∙ omega arith in
    let one : n - length xs ≡ suc (n - length (xs ++ y ∷ [])) = omega (arith, grown) in
    elim (Bool-cases (ltb (length (xs ++ y ∷ [])) n)) [
      | inl more ↦
          rw (more, one)
            (read_bytes_whole n (xs ++ y ∷ []) ys (ltb→lt (length (xs ++ y ∷ [])) n more)
                (omega (arith, grown, hi))
              ∙ ap (λ p. after (p ∷ []) (read_bytes idle (drop (n - length (xs ++ y ∷ [])) ys)))
                  (append_assoc xs (y ∷ []) (take (n - length (xs ++ y ∷ [])) ys)))
      | inr done ↦
          let last : n - length (xs ++ y ∷ []) ≡ 0 = ground (arith, done, grown) in
          rw (done, one, last) refl
    ]

starts : (n : ℕ) → data_so_far (suc n) [] ≡ (body (suc n) [], [])
starts n = rw (lt→ltb 0 (suc n) (omega arith)) refl

-- The bytes after the size of a packet.
read_bytes_body :
    (n : ℕ) (ys : List ℕ)
    → n ≤ length ys
    → after (data_so_far n []).1 (read_bytes (data_so_far n []).0 ys)
      ≡ after (take n ys ∷ []) (read_bytes idle (drop n ys))
unfolding read_bytes
read_bytes_body zero ys h = refl
read_bytes_body (suc n) ys h = rw (starts n) (
    subst
      (λ k. read_bytes (body (suc n) []) ys ≡ after (take k ys ∷ []) (read_bytes idle (drop k ys)))
      {y = suc n} (omega arith) (read_bytes_whole (suc n) [] ys (omega arith) (omega (arith, h))))

read_bytes_short :
    (n : ℕ) (ys : List ℕ)
    → length ys < n
    → after (data_so_far n []).1 (read_bytes (data_so_far n []).0 ys) ≡ (body n ys, [])
unfolding read_bytes
read_bytes_short zero ys h = absurd (omega arith)
read_bytes_short (suc n) ys h = rw (starts n) (read_bytes_part (suc n) [] ys (omega (arith, h)))

-- The second byte of a size and what comes after it.
pub read_bytes_sized_whole :
    (a b : ℕ) (ys : List ℕ)
    → a * 2 ^ 8 + b ≤ length ys
    → read_bytes (half a) (b ∷ ys)
      ≡ after (take (a * 2 ^ 8 + b) ys ∷ []) (read_bytes idle (drop (a * 2 ^ 8 + b) ys))
unfolding read_bytes
read_bytes_sized_whole a b ys h = read_bytes_body (a * 2 ^ 8 + b) ys h

pub read_bytes_sized_short :
    (a b : ℕ) (ys : List ℕ)
    → length ys < a * 2 ^ 8 + b
    → read_bytes (half a) (b ∷ ys) ≡ (body (a * 2 ^ 8 + b) ys, [])
unfolding read_bytes
read_bytes_sized_short a b ys h = read_bytes_short (a * 2 ^ 8 + b) ys h

-- Between packets the first byte of a size is kept.
pub read_bytes_first : (a : ℕ) (ys : List ℕ) → read_bytes idle (a ∷ ys) ≡ read_bytes (half a) ys
unfolding read_bytes
read_bytes_first a ys = refl
