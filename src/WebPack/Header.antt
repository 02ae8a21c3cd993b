-- ===== src/WebPack/Header.antt =====
-- The search for the end of an HTTP header in lualib-src/lua-websocketnetpack.c.
use jsmj_server.Base.{
  ℕ, zero, suc, ◌+◌, ◌-◌, ◌%◌, ◌^◌, ◌≤◌, ◌<◌, ◌≡◌, ◌↔◌, inl, inr, refl, ap, ap₂, ◌∙◌, sym, List, [],
  ◌∷◌, ◌++◌, arith, length, drop, Option, none, some, true, false, Bool-cases, ltb, ltb→lt, ◌==◌,
  if◌then◌else◌, ==_iff, ◌≢◌,
}
use jsmj_server.WebPack.{begins_with, strnpos_loop, websocket_strnpos, blank_line, get_http_header}

-- the first place within the text where it goes on with the needle
abbrev pub first_place : List ℕ → List ℕ → Option ℕ
first_place [] needle = none
first_place (b ∷ text) needle =
    let later = first_place text needle in
    if begins_with (b ∷ text) needle
    then some 0
    else elim later [ none ↦ none | some n ↦ some (suc n) ]

-- a place counted from further on
abbrev moved : ℕ → Option ℕ → Option ℕ
moved i none = none
moved i (some n) = some (i + n)

later_place :
    (i : ℕ) (o : Option ℕ)
    → moved (suc i) o ≡ moved i (elim o [ none ↦ none | some n ↦ some (suc n) ])
later_place i none = refl
later_place i (some n) = ap some (omega arith)

begins_with_short :
    (text needle : List ℕ) → length text < length needle → begins_with text needle ≡ false
begins_with_short text [] h = absurd (omega arith)
begins_with_short [] (n ∷ needle) h = refl
begins_with_short (b ∷ text) (n ∷ needle) h =
    rw (begins_with_short text needle (omega arith)) (ground arith)

-- A text shorter than the needle has no such place.
first_place_short :
    (text needle : List ℕ) → length text < length needle → first_place text needle ≡ none
first_place_short [] needle h = refl
first_place_short (b ∷ text) needle h =
    rw (begins_with_short (b ∷ text) needle h, first_place_short text needle (omega arith)) refl

strnpos_loop_lem :
    (rounds i : ℕ) (text : List ℕ)
    → rounds + 3 ≡ length text
    → strnpos_loop rounds i text blank_line ≡ some (moved i (first_place text blank_line))
unfolding strnpos_loop
strnpos_loop_lem zero i text h = rw (first_place_short text blank_line (omega (arith, h))) refl
strnpos_loop_lem (suc rounds) i [] h = absurd (omega arith)
strnpos_loop_lem (suc rounds) i (b ∷ text) h =
    let later =
      strnpos_loop_lem rounds (suc i) text (omega arith)
      ∙ ap some (later_place i (first_place text blank_line)) in
    elim (Bool-cases (b == 13)) [
      | inl cr ↦
          let long : ltb (suc (length text)) 4 ≡ false = ground arith in
          rw (cr, long)
            (elim (Bool-cases (begins_with text (10 ∷ 13 ∷ 10 ∷ []))) [
              | inl here ↦ rw here (ap (λ k. some (some k)) (omega arith))
              | inr further ↦ rw further later
            ])
      | inr other ↦ rw (other) later
    ]

-- Rounds that are more than the bytes lead past a text that is too short.
strnpos_loop_past :
    (rounds i : ℕ) (text : List ℕ)
    → length text < 4
    → length text < rounds
    → strnpos_loop rounds i text blank_line ≡ none
unfolding strnpos_loop
strnpos_loop_past zero i text h lo = absurd (omega arith)
strnpos_loop_past (suc rounds) i [] h lo = refl
strnpos_loop_past (suc rounds) i (b ∷ text) h lo =
    let later = strnpos_loop_past rounds (suc i) text (omega arith) (omega arith) in
    let few : ltb (suc (length text)) 4 ≡ true = ground arith in
    elim (Bool-cases (b == 13)) [ inl cr ↦ rw (cr, few) refl | inr other ↦ rw other later ]

begins_with-append : (needle post : List ℕ) → begins_with (needle ++ post) needle ≡ true
begins_with-append [] post = refl
begins_with-append (n ∷ needle) post =
    let same : (n == n) ≡ true = ground arith in rw (same, begins_with-append needle post) refl

begins_with_rest :
    (text needle : List ℕ)
    → begins_with text needle ≡ true
    → (post : List ℕ) × (text ≡ needle ++ post)
begins_with_rest text [] h = (text, refl)
begins_with_rest [] (n ∷ needle) h = absurd (cc h)
begins_with_rest (b ∷ text) (n ∷ needle) h =
    let both : ((b == n) ≡ true) × (begins_with text needle ≡ true) = ground (arith, h) in
    let rest = begins_with_rest text needle both.1 in
    (rest.0, ap₂ ◌∷◌ ((==_iff b n).0 both.0) rest.1)

-- Where the text does not begin with the needle, the needle stands in the rest.
stands_later :
    (b : ℕ) (text needle pre post : List ℕ)
    → begins_with (b ∷ text) needle ≡ false
    → b ∷ text ≡ pre ++ needle ++ post
    → (pre' : List ℕ) × (text ≡ pre' ++ needle ++ post) × (length pre ≡ suc (length pre'))
stands_later b text needle [] post unmet e =
    absurd
      (cc (sym (begins_with-append needle post) ∙ ap (λ l. begins_with l needle) (sym e) ∙ unmet))
stands_later b text needle (x ∷ pre) post unmet e = (pre, ap (drop 1) e, refl)

-- what `first_place` says: there is a first place, or none
abbrev pub Places : List ℕ → List ℕ → Option ℕ → Type 0
Places text needle none = (pre post : List ℕ) → text ≢ pre ++ needle ++ post
Places text needle (some n) =
    ((pre : List ℕ) × (post : List ℕ) × (text ≡ pre ++ needle ++ post) × (length pre ≡ n))
    × ((pre post : List ℕ) → text ≡ pre ++ needle ++ post → n ≤ length pre)

Places-suc :
    (b : ℕ) (text needle : List ℕ) (o : Option ℕ)
    → begins_with (b ∷ text) needle ≡ false
    → Places text needle o
    → Places (b ∷ text) needle (elim o [ none ↦ none | some n ↦ some (suc n) ])
Places-suc b text needle none unmet absent = λ pre post e.
    let later = stands_later b text needle pre post unmet e in absent later.0 post later.1
Places-suc b text needle (some n) unmet ((pre, post, e, size), first) = (
  (b ∷ pre, post, ap (λ l. b ∷ l) e, ap suc size),
  λ pre' post' e'.
      let later = stands_later b text needle pre' post' unmet e' in
      let before = first later.0 post' later.1 in omega (arith, before, later.2),
)

nothing_before : (n : ℕ) (pre needle post : List ℕ) → [] ≢ pre ++ n ∷ needle ++ post
nothing_before n [] needle post e = cc e
nothing_before n (x ∷ pre) needle post e = cc e

first_place-Places :
    (b : ℕ) (text needle : List ℕ) → Places text (b ∷ needle) (first_place text (b ∷ needle))
first_place-Places n [] needle = λ pre post e. nothing_before n pre needle post e
first_place-Places n (b ∷ text) needle = elim (Bool-cases (begins_with (b ∷ text) (n ∷ needle))) [
  | inl here ↦
      let rest = begins_with_rest (b ∷ text) (n ∷ needle) here in
      rw here (([], rest.0, rest.1, refl), λ pre post e. omega arith)
  | inr there ↦ rw there (
      Places-suc b text (n ∷ needle) (first_place text (n ∷ needle)) there
        (first_place-Places n text needle))
]

-- the end of the header that is searched for
abbrev pub Ends : List ℕ → Option (Option ℕ) → Type 0
Ends buffer none = length buffer < 3
Ends buffer (some none) = (pre post : List ℕ) → buffer ≢ pre ++ blank_line ++ post
Ends buffer (some (some n)) =
    ((pre : List ℕ) × (post : List ℕ) × (buffer ≡ pre ++ blank_line ++ post) × (n ≡ length pre + 4))
    × ((pre post : List ℕ) → buffer ≡ pre ++ blank_line ++ post → n ≤ length pre + 4)

Places-Ends :
    (buffer : List ℕ) (o : Option ℕ)
    → Places buffer blank_line o
    → Ends buffer (some (elim o [ none ↦ none | some n ↦ some (n + 4) ]))
Places-Ends buffer none absent = absent
Places-Ends buffer (some n) ((pre, post, e, size), first) =
    ((pre, post, e, omega (arith, size)), λ pre' post' e'. omega (arith, first pre' post' e'))

moved_none : (o : Option ℕ) → moved 0 o ≡ o
moved_none none = refl
moved_none (some n) = ap some (omega arith)

-- `get_http_header` on a buffer shorter than 2^31 bytes: it reads past the buffer exactly when that has fewer than three
-- bytes; in any other it gives the end of the first blank line, or nothing exactly when there is no blank line.
pub get_http_header-Ends :
    (buffer : List ℕ)
    → length buffer < 2 ^ 31
    → ((get_http_header buffer ≡ none) ↔ (length buffer < 3)) × Ends buffer (get_http_header buffer)
unfolding get_http_header websocket_strnpos
get_http_header-Ends buffer small = elim (Bool-cases (ltb (length buffer) 3)) [
  | inl few ↦
      let short = ltb→lt (length buffer) 3 few in
      let past =
        strnpos_loop_past ((length buffer + 2 ^ 32 - 4 + 1) % 2 ^ 32) 0 buffer
          (omega (arith, short)) (omega (arith, short)) in
      rw past ((λ p. short, λ p. refl), short)
  | inr enough ↦
      let rounds : ((length buffer + 2 ^ 32 - 4 + 1) % 2 ^ 32) + 3 ≡ length buffer =
        ground (arith, enough, small) in
      let found = strnpos_loop_lem ((length buffer + 2 ^ 32 - 4 + 1) % 2 ^ 32) 0 buffer rounds in
      rw (found, moved_none (first_place buffer blank_line))
        (
          (λ p. absurd (cc p), λ few. absurd (ground (arith, enough, few))),
          Places-Ends buffer (first_place buffer blank_line)
              (first_place-Places 13 buffer (10 ∷ 13 ∷ 10 ∷ [])),
        )
]
