-- ===== src/Seri/Blocks.antt =====
-- The write blocks of skynet/lualib-src/lua-seri.c hold the bytes that were pushed, in order.
use jsmj_server.Base.{
  ◌^◌, leb, ◌<◌, ℕ, zero, suc, ◌+◌, ◌-◌, ◌≤◌, ◌<◌, ◌≡◌, refl, ap, ◌∙◌, sym, subst, List, [], ◌∷◌,
  ◌++◌, arith, length, take, drop, take_all, take-append-drop, length-take, length-drop,
  length-append, append_assoc, append-nil, leb, true, false, ◌==◌, Bool-cases, inl, inr, some,
}
use jsmj_server.Seri.{
  WriteBlock, block_size, next_block, push_loop, wb_push, seri_loop, seri, wb_init,
}

abbrev pub joined_blocks : List (List ℕ) → List ℕ
joined_blocks [] = []
joined_blocks (b ∷ bs) = b ++ joined_blocks bs

-- what was pushed
abbrev pub flat : WriteBlock → List ℕ
flat b = joined_blocks b.before ++ b.current

abbrev pub AllFull : List (List ℕ) → Type 0
AllFull [] = Unit
AllFull (b ∷ bs) = (length b ≡ block_size) × AllFull bs

-- every block but the current one is full
pub record IsValid (b : WriteBlock) : Type 0 where
  pub full : AllFull b.before
  pub fits : length b.current ≤ block_size
  pub counted : b.len ≡ length (flat b)

joined_blocks_snoc :
    (bs : List (List ℕ)) (b : List ℕ) → joined_blocks (bs ++ b ∷ []) ≡ joined_blocks bs ++ b
joined_blocks_snoc [] b = append-nil b
joined_blocks_snoc (c ∷ bs) b =
    ap (λ l. c ++ l) (joined_blocks_snoc bs b) ∙ sym (append_assoc c (joined_blocks bs) b)

AllFull-snoc :
    (bs : List (List ℕ)) (b : List ℕ) → AllFull bs → length b ≡ block_size → AllFull (bs ++ b ∷ [])
AllFull-snoc [] b f h = (h, tt)
AllFull-snoc (c ∷ bs) b f h = (f.0, AllFull-snoc bs b f.1 h)

flat-next_block : (b : WriteBlock) → flat (next_block b) ≡ flat b
flat-next_block b =
    append-nil (joined_blocks (b.before ++ b.current ∷ [])) ∙ joined_blocks_snoc b.before b.current

next_block-IsValid :
    {b : WriteBlock} → IsValid b → length b.current ≡ block_size → IsValid (next_block b)
next_block-IsValid {b} v h = record {
  full = AllFull-snoc b.before b.current v.full h;
  fits = omega arith;
  counted = v.counted ∙ ap length (sym (flat-next_block b));
}

-- what the pushes leave
pub record Holds (bytes : List ℕ) (b : WriteBlock) : Type 0 where
  pub valid : IsValid b
  pub held : flat b ≡ bytes

-- bytes behind the current ones
grown :
    (b : WriteBlock) (buf : List ℕ)
    → IsValid b
    → length b.current + length buf ≤ block_size
    → Holds (flat b ++ buf) (record b { current = b.current ++ buf; len = b.len + length buf })
grown b buf v h =
    let same = append_assoc (joined_blocks b.before) b.current buf in
    record {
      valid = record {
        full = v.full;
        fits = omega (arith, length-append b.current buf);
        counted = omega (arith, v.counted, ap length same, length-append (flat b) buf);
      };
      held = sym same;
    }

push_loop_lem :
    (rounds : ℕ) (buf : List ℕ) (b : WriteBlock)
    → IsValid b
    → length b.current < block_size
    → length buf < rounds
    → Holds (flat b ++ buf) (push_loop rounds buf b)
unfolding push_loop
push_loop_lem zero buf b v below h = absurd (omega arith)
push_loop_lem (suc rounds) buf b v below h =
    let room = block_size - length b.current in
    elim (Bool-cases (leb (length buf) room)) [
      | inl all ↦ rw all (grown b buf v (ground (arith, all)))
      | inr more ↦
          let over : room < length buf = ground (arith, more) in
          let taken = length-take room buf in
          let part = record b { current = b.current ++ take room buf; len = b.len + room } in
          let p : Holds (flat b ++ take room buf) part =
            subst
              (λ k.
                Holds (flat b ++ take room buf)
                  (record b { current = b.current ++ take room buf; len = b.len + k }))
              (omega (arith, taken, over))
              (grown b (take room buf) v (omega (arith, taken, over))) in
          let filled : length part.current ≡ block_size =
            length-append b.current (take room buf) ∙ omega (arith, taken, over) in
          let fewer : length (drop room buf) < rounds =
            omega (arith, length-drop room buf, below, over, h) in
          let later =
            push_loop_lem rounds (drop room buf) (next_block part)
              (next_block-IsValid p.valid filled) (omega arith) fewer in
          rw more (record {
            valid = later.valid;
            held =
                later.held
                ∙ ap (λ l. l ++ drop room buf) (flat-next_block part ∙ p.held)
                ∙ append_assoc (flat b) (take room buf) (drop room buf)
                ∙ ap (λ l. flat b ++ l) (take-append-drop room buf);
          })
    ]

-- `wb_push` appends its bytes, over the borders of the blocks.
pub wb_push-Holds :
    {bytes : List ℕ} {b : WriteBlock} (buf : List ℕ)
    → Holds bytes b
    → Holds (bytes ++ buf) (wb_push buf b)
unfolding wb_push
wb_push-Holds {bytes} {b} buf h =
    subst (λ l. Holds (l ++ buf) (wb_push buf b)) h.held
      (elim (Bool-cases (length b.current == block_size)) [
        | inl full ↦
            let e : length b.current ≡ block_size = ground (arith, full) in
            rw full (
              subst (λ l. Holds (l ++ buf) (push_loop (suc (length buf)) buf (next_block b)))
                (flat-next_block b)
                (push_loop_lem (suc (length buf)) buf (next_block b) (next_block-IsValid h.valid e)
                  (omega arith) (omega arith)))
        | inr not_full ↦ rw not_full (
            push_loop_lem (suc (length buf)) buf b h.valid (ground (arith, not_full, h.valid.fits))
              (omega arith))
      ])

pub wb_init-Holds : Holds [] wb_init
wb_init-Holds = record {
  valid = record { full = tt; fits = omega arith; counted = refl };
  held = refl;
}

no_length : (c : List ℕ) → length c ≡ 0 → c ≡ []
no_length [] e = refl
no_length (x ∷ c) e = absurd (omega (arith, e))

seri_loop_lem :
    (bs : List (List ℕ)) (c : List ℕ)
    → AllFull bs
    → length c ≤ block_size
    → seri_loop (bs ++ c ∷ []) (length (joined_blocks bs ++ c)) ≡ some (joined_blocks bs ++ c)
unfolding seri_loop
seri_loop_lem [] c f h = elim (Bool-cases (length c == 0)) [
  | inl nothing ↦ rw nothing (ap some (sym (no_length c (ground (arith, nothing)))))
  | inr some_there ↦ elim (Bool-cases (leb block_size (length c))) [
    | inl all ↦
        let none_left : (length c - block_size == 0) ≡ true = ground (arith, h) in
        rw (some_there, all, none_left)
          (ap some (append-nil (take block_size c) ∙ take_all block_size c h))
    | inr fewer ↦ rw (some_there, fewer) (ap some (take_all (length c) c (omega arith)))
  ]
]
seri_loop_lem (b ∷ bs) c f h =
    let rest = joined_blocks bs ++ c in
    let same = append_assoc b (joined_blocks bs) c in
    let total : length ((b ++ joined_blocks bs) ++ c) ≡ block_size + length rest =
      ap length same ∙ length-append b rest ∙ omega (arith, f.0) in
    let some_there : (block_size + length rest == 0) ≡ false = ground arith in
    let all : leb block_size (block_size + length rest) ≡ true = ground arith in
    let left : block_size + length rest - block_size ≡ length rest = omega arith in
    rw (total, some_there, all, left, seri_loop_lem bs c f.1 h, same)
      (ap (λ l. some (l ++ rest)) (take_all block_size b (omega (arith, f.0))))

-- `seri` copies what was pushed, if the number of bytes is below the range of an `int`.
pub seri_lem :
    {bytes : List ℕ} {b : WriteBlock} → Holds bytes b → length bytes < 2 ^ 31 → seri b ≡ some bytes
unfolding seri
seri_lem {bytes} {b} h short =
    let fits : leb (2 ^ 31) b.len ≡ false =
      ground (arith, h.valid.counted, ap length h.held, short) in
    rw fits (ap (seri_loop (b.before ++ b.current ∷ [])) h.valid.counted)
    ∙ seri_loop_lem b.before b.current h.valid.full h.valid.fits
    ∙ ap some h.held
