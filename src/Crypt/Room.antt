-- ===== src/Crypt/Room.antt =====
-- `lb64decode` of skynet/lualib-src/lua-crypt.c writes no more bytes than its buffer has room for, whatever the text.
use jsmj_server.Base.{
  leb, Bool-cases, inl, inr, subst, ◌<◌, ℕ, zero, suc, ◌+◌, ◌*◌, ◌/◌, ◌≤◌, ◌≡◌, ap, List, [], ◌∷◌,
  arith, length, Option, none, some, ◌>>=◌, some_inj, length-append, bind_some, ◌==◌, Bool, true,
  false, ◌%◌, ◌^◌, if◌then◌else◌,
}
use jsmj_server.Crypt.{
  Index, bad, pad, value, b64index, gather, decode_quad, decode_loop, lb64decode,
}

abbrev Used : ℕ → List ℕ → List Index × List ℕ → Type 0
Used n text r = length r.1 + n ≤ length text

-- One more character, before the others.
Used-one :
    (n c : ℕ) (x : Index) (text : List ℕ) (r : List Index × List ℕ)
    → (gather n text >>= λ s. some (x ∷ s.0, s.1)) ≡ some r
    → ((s : List Index × List ℕ) → gather n text ≡ some s → Used n text s)
    → Used (suc n) (c ∷ text) r
Used-one n c x text r e before =
    let inner = bind_some (gather n text) (λ s. some (x ∷ s.0, s.1)) e in
    let same = ap length (ap (λ (s : List Index × List ℕ). s.1) (some_inj inner.2)) in
    omega (arith, before inner.0 inner.1, same)

-- what `gather` does when the index of the next character is known
abbrev step : ℕ → List ℕ → Index → Option (List Index × List ℕ)
step n text x = elim x [
  | bad ↦ gather (suc n) text
  | pad ↦ gather n text >>= λ r. some (pad ∷ r.0, r.1)
  | value v ↦ gather n text >>= λ r. some (value v ∷ r.0, r.1)
]

step-Used :
    (n c : ℕ) (text : List ℕ) (x : Index) (r : List Index × List ℕ)
    → step n text x ≡ some r
    → ((s : List Index × List ℕ) → gather n text ≡ some s → Used n text s)
    → ((s : List Index × List ℕ) → gather (suc n) text ≡ some s → Used (suc n) text s)
    → Used (suc n) (c ∷ text) r
step-Used n c text bad r e fewer same = omega (arith, same r e)
step-Used n c text pad r e fewer same = Used-one n c pad text r e fewer
step-Used n c text (value v) r e fewer same = Used-one n c (value v) text r e fewer

-- The characters that `gather` returns are taken off the text.
gather-Used :
    (n : ℕ) (text : List ℕ) (r : List Index × List ℕ) → gather n text ≡ some r → Used n text r
unfolding gather
gather-Used zero text r e =
    omega (arith, ap length (ap (λ (s : List Index × List ℕ). s.1) (some_inj e)))
gather-Used (suc n) [] r e = absurd (cc e)
gather-Used (suc n) (c ∷ text) r e =
    step-Used n c text (b64index c) r e (gather-Used n text) (gather-Used (suc n) text)

then_some : (t : Bool) (xs bytes : List ℕ) → (if t then some xs else none) ≡ some bytes → xs ≡ bytes
then_some true xs bytes e = some_inj e
then_some false xs bytes e = absurd (cc e)

-- Four characters give three bytes at most.
quad_bound : (cs : List Index) (bytes : List ℕ) → decode_quad cs ≡ some bytes → length bytes ≤ 3
unfolding decode_quad
quad_bound (value a ∷ value b ∷ value c ∷ value d ∷ []) bytes e =
    omega (arith, ap length (some_inj e))
quad_bound (value a ∷ value b ∷ value c ∷ pad ∷ []) bytes e =
    omega (arith, ap length (then_some (c % 2 ^ 2 == 0) _ bytes e))
quad_bound (value a ∷ value b ∷ pad ∷ pad ∷ []) bytes e =
    omega (arith, ap length (then_some (b % 2 ^ 4 == 0) _ bytes e))
quad_bound cs bytes e = absurd (cc e)

decode_loop_bound :
    (rounds : ℕ) (text bytes : List ℕ)
    → decode_loop rounds text ≡ some bytes
    → length bytes ≤ (length text + 3) / 4 * 3
unfolding decode_loop
decode_loop_bound zero [] bytes e = omega (arith, ap length (some_inj e))
decode_loop_bound (suc rounds) [] bytes e = omega (arith, ap length (some_inj e))
decode_loop_bound zero (c ∷ text) bytes e = absurd (cc e)
decode_loop_bound (suc rounds) (c ∷ text) bytes e =
    let four = bind_some (gather 4 (c ∷ text)) _ e in
    let quad = bind_some (decode_quad four.0.0) _ four.2 in
    let later = bind_some (decode_loop rounds four.0.1) _ quad.2 in
    omega (
      arith,
      gather-Used 4 (c ∷ text) four.0 four.1,
      quad_bound four.0.0 quad.0 quad.1,
      decode_loop_bound rounds four.0.1 later.0 later.1,
      length-append quad.0 later.0,
      ap length (some_inj later.2),
    )

-- Where `lb64decode` accepts a text, `decode_sz` is in the range of an `int`, and the bytes that are written fit into it.
pub length-lb64decode :
    (text bytes : List ℕ)
    → lb64decode text ≡ some bytes
    → (length bytes ≤ (length text + 3) / 4 * 3) × ((length text + 3) / 4 * 3 < 2 ^ 31)
unfolding lb64decode
length-lb64decode text bytes e = elim (Bool-cases (leb (2 ^ 31) (length text))) [
  | inl long ↦
      absurd
        (cc (subst (λ t. (if t then none else decode_loop (length text) text) ≡ some bytes) long e))
  | inr fits ↦ (
    decode_loop_bound (length text) text bytes
        (subst (λ t. (if t then none else decode_loop (length text) text) ≡ some bytes) fits e),
    ground (arith, fits),
  )
]
