-- ===== src/DataBuffer/Header.antt =====
-- The header of a packet: two bytes, or four, in front of its payload.
use jsmj_server.Base.{
  ℕ, ◌/◌, ◌%◌, ◌^◌, ◌≤◌, ◌<◌, ◌≡◌, false, true, ◌⊎◌, inl, inr, refl, ap, sym, ◌∙◌, some, List, [],
  ◌∷◌, ◌++◌, arith, ltb, ◌==◌, if◌then◌else◌, length, take, drop, take-length, drop-length,
  length-append,
}
use jsmj_server.DataBuffer.{DataBuffer, MessagePool, readheader, header_value, header_ready}
use jsmj_server.DataBuffer.Stream.{contents, IsValid, read_lem}

-- the header that a sender puts in front of a payload of `n` bytes
abbrev pub encode_header : ℕ → ℕ → List ℕ
encode_header size n =
    if size == 2
    then n / 2 ^ 8 ∷ n % 2 ^ 8 ∷ []
    else n / 2 ^ 24 ∷ n / 2 ^ 16 % 2 ^ 8 ∷ n / 2 ^ 8 % 2 ^ 8 ∷ n % 2 ^ 8 ∷ []

value_of_encoded :
    (size n : ℕ)
    → (size ≡ 2) ⊎ (size ≡ 4)
    → (header_value size (encode_header size n) ≡ n) × (length (encode_header size n) ≡ size)
unfolding header_value
value_of_encoded size n (inl e) = rw e (omega arith, refl)
value_of_encoded size n (inr e) = rw e (omega arith, refl)

-- With a packet at the front of the stream, whatever follows, `databuffer_readheader` returns the length of its payload
-- and leaves the payload at the front.
pub readheader_lem :
    (size : ℕ) (payload rest : List ℕ) (db : DataBuffer) (mp : MessagePool)
    → (size ≡ 2) ⊎ (size ≡ 4)
    → IsValid db
    → db.header ≡ 0
    → length payload < 2 ^ 31
    → contents db ≡ encode_header size (length payload) ++ (payload ++ rest)
    → (r : ℕ × DataBuffer × MessagePool) × (readheader size db mp ≡ some r)
      × (r.0 ≡ length payload)
      × (contents r.1 ≡ payload ++ rest)
      × (r.1.header ≡ length payload)
      × IsValid r.1
unfolding readheader header_ready
readheader_lem size payload rest db mp two v fresh small e =
    let (r, run, bytes, left, _, v') = read_lem size db mp v (omega (arith, two)) there in
    let db' : DataBuffer = record r.1 { header = header_value size r.0 } in
    let value : header_value size r.0 ≡ length payload =
      ap (header_value size) (bytes ∙ at_front take take-length) ∙ encoded.0 in
    let stream : contents r.1 ≡ payload ++ rest = left ∙ at_front drop drop-length in
    (
      (header_ready db', db', r.2),
      rw (unread_yet, enough, run),
      ground (arith, value, v'.sized, ap length stream, length-append payload rest),
      stream,
      value,
      record { sized = v'.sized; in_head = v'.in_head },
    )
  where
    encoded :
        (header_value size (encode_header size (length payload)) ≡ length payload)
        × (length (encode_header size (length payload)) ≡ size)
    encoded = value_of_encoded size (length payload) two

    there : size ≤ length (contents db)
    there = omega (
      arith,
      ap length e,
      encoded.1,
      length-append (encode_header size (length payload)) (payload ++ rest),
    )

    unread_yet : (db.header == 0) ≡ true
    unread_yet = ground (arith, fresh)

    enough : ltb db.size size ≡ false
    enough = ground (arith, v.sized, there)

    at_front :
        (f : ℕ → List ℕ → List ℕ) {g : List ℕ → List ℕ → List ℕ}
        → ((xs ys : List ℕ) → f (length xs) (xs ++ ys) ≡ g xs ys)
        → f size (contents db) ≡ g (encode_header size (length payload)) (payload ++ rest)
    at_front f h = rw e (
        ap (λ k. f k (encode_header size (length payload) ++ (payload ++ rest))) (sym encoded.1)
        ∙ h (encode_header size (length payload)) (payload ++ rest))
