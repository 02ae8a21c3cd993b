-- ===== src/WebPack/Heads.antt =====
-- Headers in lualib-src/lua-websocketnetpack.c, in a buffer at once and through the loop that adds single bytes.
use jsmj_server.Base.{
  ℕ, suc, ◌<◌, ◌≡◌, ◌⊎◌, inl, inr, refl, ap, ◌∙◌, sym, subst, List, [], ◌∷◌, ◌++◌, arith, length,
  length-append, drop, Option, none, some, some_inj, ◌>>=◌, true, false, Bool, ltb, ltb→lt, lt→ltb,
  if◌then◌else◌, append-nil, append_assoc,
}
use jsmj_server.WebPack.{
  Size, header_short, header_invalid, size_negative, pack_size, max_packsize, headersize, read_size,
}
use jsmj_server.WebPack.Parse.{read_size-snoc}
use jsmj_server.WebPack.Socket.{size_loop, size_step, next_size, header_loop, header_step}
use jsmj_server.WebPack.Protocol.{
  Place, head, accept, read_bytes, read_after, so_far, read_after_nothing,
}

-- The loop around `read_size` stops at a header, and where a header may begin.
pub size_loop_short :
    (below : Bool) (rounds : ℕ) (xs : List ℕ)
    → read_size xs ≡ header_short
    → size_loop below (suc rounds) xs ≡ (header_short, xs)
unfolding size_loop
size_loop_short below rounds xs e =
    ap (λ s. size_step below s xs (size_loop below rounds (drop 2 xs))) e

pub size_loop_sized :
    (below : Bool) (rounds : ℕ) (xs : List ℕ) {k n : ℕ} {m : Option (List ℕ)}
    → read_size xs ≡ pack_size k n m
    → ltb max_packsize n ≡ false
    → size_loop below (suc rounds) xs ≡ (pack_size k n m, xs)
unfolding size_loop
size_loop_sized below rounds xs e fits =
    ap (λ s. size_step below s xs (size_loop below rounds (drop 2 xs))) e ∙ rw fits refl

-- bytes after `h` that do not complete a header
pub record IsShort (h bytes : List ℕ) (r : Place × List (List ℕ)) : Type 0 where
  pub short : read_size (h ++ bytes) ≡ header_short
  pub place : r ≡ (head (h ++ bytes), [])
  pub few : length (h ++ bytes) < 14
  pub loop : 0 < length bytes → header_loop false h bytes ≡ some (header_short, h ++ bytes, [])

-- bytes after `h` that complete a header
pub record IsWhole (h bytes : List ℕ) (r : Place × List (List ℕ)) : Type 0 where
  pub offset : ℕ
  pub size : ℕ
  pub mask : Option (List ℕ)
  pub first : List ℕ
  pub rest : List ℕ
  pub begun : 0 < length first
  pub cut : bytes ≡ first ++ rest
  pub parsed : read_size (h ++ first) ≡ pack_size offset size mask
  pub ends : offset ≡ length (h ++ first)
  pub fits : ltb max_packsize size ≡ false
  pub reads : read_after (so_far size mask []) rest ≡ some r
  pub loop : header_loop false h bytes ≡ some (pack_size offset size mask, h ++ first, rest)

pub next_size_short :
    (below : Bool) (xs : List ℕ)
    → read_size xs ≡ header_short
    → next_size false below xs ≡ some (header_short, xs)
unfolding next_size
next_size_short below xs e = ap some (size_loop_short below (length xs) xs e)

pub next_size_sized :
    (below : Bool) (xs : List ℕ) {k n : ℕ} {m : Option (List ℕ)}
    → read_size xs ≡ pack_size k n m
    → ltb max_packsize n ≡ false
    → next_size false below xs ≡ some (pack_size k n m, xs)
unfolding next_size
next_size_sized below xs e fits = ap some (size_loop_sized below (length xs) xs e fits)

header_loop_step :
    (h : List ℕ) (b : ℕ) (bytes : List ℕ) (f : Size × List ℕ)
    → length h < 14
    → next_size false false (h ++ b ∷ []) ≡ some f
    → header_loop false h (b ∷ bytes) ≡ header_step bytes (header_loop false f.1 bytes) f
unfolding header_loop
header_loop_step h b bytes f few e =
    let room = lt→ltb (length h) headersize (omega (arith, few)) in
    rw room (ap (λ o. o >>= header_step bytes (o >>= λ g. header_loop false g.1 bytes)) e)

-- a test that must have gone one way
if_some :
    {A B : Type 0} (c : Bool) (x : A) (f : A → Option B) {y : B}
    → ((if c then some x else none) >>= f) ≡ some y
    → (c ≡ true) × (f x ≡ some y)
if_some true x f e = (refl, e)
if_some false x f e = absurd (cc e)

if_none :
    {A B : Type 0} (c : Bool) (x : A) (f : A → Option B) {y : B}
    → ((if c then none else some x) >>= f) ≡ some y
    → (c ≡ false) × (f x ≡ some y)
if_none true x f e = absurd (cc e)
if_none false x f e = (refl, e)

module _ (h : List ℕ) (b : ℕ) (few : length h < 14)
    (e : read_size (h ++ b ∷ []) ≡ header_short) where
  loop_short :
      (bytes : List ℕ)
      → header_loop false h (b ∷ bytes)
        ≡ header_step bytes (header_loop false (h ++ b ∷ []) bytes) (header_short, h ++ b ∷ [])
  loop_short bytes =
      header_loop_step h b bytes (header_short, h ++ b ∷ []) few
        (next_size_short false (h ++ b ∷ []) e)

  IsShort-cons :
      (bytes : List ℕ) (r : Place × List (List ℕ))
      → IsShort (h ++ b ∷ []) bytes r
      → IsShort h (b ∷ bytes) r
  IsShort-cons bytes r s =
      let same : (h ++ b ∷ []) ++ bytes ≡ h ++ b ∷ bytes = append_assoc h (b ∷ []) bytes in
      record {
        short = subst (λ l. read_size l ≡ header_short) same s.short;
        place = s.place ∙ ap (λ l. (head l, [])) same;
        few = subst (λ l. length l < 14) same s.few;
        loop =
            λ lt. loop_short bytes ∙ rest bytes s.loop ∙ ap (λ l. some (header_short, l, [])) same;
      }
    where
      rest :
          (bytes : List ℕ)
          → (0 < length bytes
              → header_loop false (h ++ b ∷ []) bytes
                ≡ some (header_short, (h ++ b ∷ []) ++ bytes, []))
          → header_step bytes (header_loop false (h ++ b ∷ []) bytes) (header_short, h ++ b ∷ [])
            ≡ some (header_short, (h ++ b ∷ []) ++ bytes, [])
      rest [] loop = ap (λ l. some (header_short, l, [])) (sym (append-nil (h ++ b ∷ [])))
      rest (c ∷ bytes) loop = loop (omega arith)

  IsWhole-cons :
      (bytes : List ℕ) (r : Place × List (List ℕ))
      → IsWhole (h ++ b ∷ []) bytes r
      → IsWhole h (b ∷ bytes) r
  IsWhole-cons bytes r w =
      let same : (h ++ b ∷ []) ++ w.first ≡ h ++ b ∷ w.first = append_assoc h (b ∷ []) w.first in
      record {
        offset = w.offset;
        size = w.size;
        mask = w.mask;
        first = b ∷ w.first;
        rest = w.rest;
        begun = omega arith;
        cut = ap (λ l. b ∷ l) w.cut;
        parsed = subst (λ l. read_size l ≡ pack_size w.offset w.size w.mask) same w.parsed;
        ends = w.ends ∙ ap length same;
        fits = w.fits;
        reads = w.reads;
        loop =
            loop_short bytes
            ∙ rest bytes w.cut w.loop
            ∙ ap (λ l. some (pack_size w.offset w.size w.mask, l, w.rest)) same;
      }
    where
      rest :
          (bytes : List ℕ)
          → bytes ≡ w.first ++ w.rest
          → header_loop false (h ++ b ∷ []) bytes
            ≡ some (pack_size w.offset w.size w.mask, (h ++ b ∷ []) ++ w.first, w.rest)
          → header_step bytes (header_loop false (h ++ b ∷ []) bytes) (header_short, h ++ b ∷ [])
            ≡ some (pack_size w.offset w.size w.mask, (h ++ b ∷ []) ++ w.first, w.rest)
      rest [] cut loop =
          let none_left : 0 ≡ length (w.first ++ w.rest) = ap length cut in
          absurd (omega (arith, none_left, w.begun, length-append w.first w.rest))
      rest (c ∷ bytes) cut loop = loop

-- Bytes that are accepted complete a header or do not, and the loop finds the same.
pub head_lem :
    (h bytes : List ℕ) (r : Place × List (List ℕ))
    → read_size h ≡ header_short
    → length h < 14
    → read_bytes (head h) bytes ≡ some r
    → IsShort h bytes r ⊎ IsWhole h bytes r
unfolding read_bytes
head_lem h [] r short few run = inl (record {
  short = ap read_size (append-nil h) ∙ short;
  place = some_inj (sym run) ∙ ap (λ l. (head l, [])) (sym (append-nil h));
  few = subst (λ l. length l < 14) (sym (append-nil h)) few;
  loop = λ lt. absurd (omega arith);
})
head_lem h (b ∷ bytes) r short few run =
    by_size (λ e lt later. head_lem (h ++ b ∷ []) bytes r e lt later) (read_size (h ++ b ∷ [])) refl
      run
  where
    by_size :
        (read_size (h ++ b ∷ []) ≡ header_short
          → length (h ++ b ∷ []) < 14
          → read_bytes (head (h ++ b ∷ [])) bytes ≡ some r
          → IsShort (h ++ b ∷ []) bytes r ⊎ IsWhole (h ++ b ∷ []) bytes r)
        → (s : Size) → read_size (h ++ b ∷ []) ≡ s
        → (accept s (h ++ b ∷ []) >>= λ first. read_after first bytes) ≡ some r
        → IsShort h (b ∷ bytes) r ⊎ IsWhole h (b ∷ bytes) r
    by_size again header_short e go =
        let more =
          if_some (ltb (length (h ++ b ∷ [])) 14) (head (h ++ b ∷ []), [])
            (λ first. read_after first bytes) go in
        let later = sym (read_after_nothing (head (h ++ b ∷ [])) bytes) ∙ more.1 in
        elim (again e (ltb→lt (length (h ++ b ∷ [])) 14 more.0) later) [
          | inl s ↦ inl (IsShort-cons h b few e bytes r s)
          | inr w ↦ inr (IsWhole-cons h b few e bytes r w)
        ]
    by_size again header_invalid e go = absurd (cc go)
    by_size again size_negative e go = absurd (cc go)
    by_size again (pack_size k n m) e go =
        let sized =
          if_none (ltb max_packsize n) (so_far n m []) (λ first. read_after first bytes) go in
        inr (record {
          offset = k;
          size = n;
          mask = m;
          first = b ∷ [];
          rest = bytes;
          begun = omega arith;
          cut = refl;
          parsed = e;
          ends = read_size-snoc h b short e;
          fits = sized.0;
          reads = sized.1;
          loop =
              header_loop_step h b bytes (pack_size k n m, h ++ b ∷ []) few
                (next_size_sized false (h ++ b ∷ []) e sized.0);
        })
