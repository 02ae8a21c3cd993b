-- ===== src/WebPack/More.antt =====
-- `push_more` of lualib-src/lua-websocketnetpack.c, the packets after the first one of a block.
use jsmj_server.Base.{
  ℕ, zero, suc, ◌≤◌, ◌<◌, ◌≡◌, inl, inr, refl, ap, ap₂, ◌∙◌, sym, subst, List, [], ◌∷◌, ◌++◌, arith,
  length, length-append, length-take, length-drop, take, drop, drop-length, drop_all, update,
  Option, some, some_inj, bind_some, ◌>>=◌, true, false, ltb, ltb→lt, Bool-cases, map, append-nil,
  append_assoc,
}
use jsmj_server.NetPack.{Pack, packet}
use jsmj_server.WebPack.{pack_size, read_size, masking_of, decode_wsmask_data}
use jsmj_server.WebPack.Mask.{decode_within, length-decoded}
use jsmj_server.WebPack.Parse.{le_of, read_size-append}
use jsmj_server.WebPack.Socket.{
  Queue, push_data, push_more, push_step, save_uncomplete, part_entry, header_entry,
}
use jsmj_server.WebPack.Protocol.{
  Place, head, body, payload, so_far, read_bytes, read_after, so_far_part, so_far_start,
}
use jsmj_server.WebPack.Heads.{IsShort, IsWhole, head_lem, next_size_short, next_size_sized}
use jsmj_server.WebPack.Sound.{
  Sound, save_uncomplete-Sound, push_data-Sound, header_entry-Tells, part_entry-Tells,
}

-- A whole header at the front of a buffer is found there, with the data behind it.
pub record IsFound (bytes : List ℕ) (r : Place × List (List ℕ)) : Type 0 where
  pub offset : ℕ
  pub size : ℕ
  pub mask : Option (List ℕ)
  pub fits : ltb 10240 size ≡ false
  pub parsed : read_size bytes ≡ pack_size offset size mask
  pub reads : read_after (so_far size mask []) (drop offset bytes) ≡ some r
  pub later : length (drop offset bytes) < length bytes

pub IsWhole-IsFound :
    (bytes : List ℕ) (r : Place × List (List ℕ)) → IsWhole [] bytes r → IsFound bytes r
IsWhole-IsFound bytes r w =
    let behind : drop w.offset bytes ≡ w.rest =
      ap₂ drop w.ends w.cut ∙ drop-length w.first w.rest in
    record {
      offset = w.offset;
      size = w.size;
      mask = w.mask;
      fits = w.fits;
      parsed = ap read_size w.cut ∙ (read_size-append w.first w.rest w.parsed).0;
      reads = subst (λ l. read_after (so_far w.size w.mask []) l ≡ some r) (sym behind) w.reads;
      later =
          subst (λ l. length l < length bytes) (sym behind)
            (let total : length bytes ≡ length (w.first ++ w.rest) = ap length w.cut in
              omega (arith, total, w.begun, length-append w.first w.rest));
    }

-- the data of a packet that are all in the buffer
pub whole_data :
    (n : ℕ) (mask : Option (List ℕ)) (bytes : List ℕ)
    → n ≤ length bytes
    → (take n (decode_wsmask_data bytes n (masking_of mask)).0 ≡ payload mask (take n bytes))
      × (n ≡ length (payload mask (take n bytes)))
whole_data n mask bytes fits = (
  decode_within bytes n (masking_of mask) fits,
  sym (length-decoded (take n bytes) (masking_of mask) ∙ omega (arith, length-take n bytes, fits)),
)

-- reading on after a packet
pub read_after_packet :
    (p : List ℕ) (rest : List ℕ) (r : Place × List (List ℕ))
    → read_after (head [], p ∷ []) rest ≡ some r
    → (later : Place × List (List ℕ)) × (read_bytes (head []) rest ≡ some later)
      × (r ≡ (later.0, p ∷ later.1))
read_after_packet p rest r e =
    let found =
      bind_some (read_bytes (head []) rest) (λ later. some (later.0, (p ∷ []) ++ later.1)) e in
    (found.0, found.1, some_inj (sym found.2))

pub read_after_last :
    (p : List ℕ) (rest : List ℕ) (r : Place × List (List ℕ))
    → rest ≡ []
    → read_after (head [], p ∷ []) rest ≡ some r
    → r ≡ (head [], p ∷ [])
unfolding read_bytes
read_after_last p rest r done e =
    some_inj (sym (subst (λ l. read_after (head [], p ∷ []) l ≡ some r) done e))

-- The packets of a block after the first one, where the bytes are accepted: `push_more` does not fail, puts them into
-- the ring in order, and leaves the socket at its place.
module _ (places : ℕ → Place) (fd : ℕ) where
  abbrev pub Pushed : List Pack → Place × List (List ℕ) → Option Queue → Type 0
  Pushed packets r x =
      (q : Queue) × (x ≡ some q) × Sound (update places fd r.0) (packets ++ map (packet fd) r.1) q

  -- the bytes of a header at the end of a block
  pub saved_header :
      (packets : List Pack) (q : Queue) (bytes : List ℕ) (r : Place × List (List ℕ))
      → 0 < length bytes
      → IsShort [] bytes r
      → Sound (update places fd (head [])) packets q
      → Pushed packets r (header_entry fd bytes >>= λ uc. some (save_uncomplete fd uc q))
  saved_header packets q bytes r lo e s =
      let entry = header_entry-Tells fd bytes lo e.few e.short in
      (
        save_uncomplete fd entry.0 q,
        ap (λ o. o >>= λ uc. some (save_uncomplete fd uc q)) entry.1,
        at_reading r e.place (save_uncomplete fd entry.0 q)
            (save_uncomplete-Sound places fd (head bytes) entry.0 entry.2 s),
      )
    where
      at_reading :
          (r : Place × List (List ℕ))
          → r ≡ (head bytes, [])
          → (q' : Queue) → Sound (update places fd (head bytes)) packets q'
          → Sound (update places fd r.0) (packets ++ map (packet fd) r.1) q'
      at_reading r e q' s' = rw (e, append-nil packets) s'

  -- the data of a packet at the end of a block
  pub saved_part :
      (packets : List Pack) (q : Queue) (n : ℕ) (mask : Option (List ℕ)) (bytes : List ℕ)
      (r : Place × List (List ℕ))
      → length bytes < n
      → read_after (so_far n mask []) bytes ≡ some r
      → Sound (update places fd (head [])) packets q
      → Sound
          (update places fd r.0)
          (packets ++ map (packet fd) r.1)
          (save_uncomplete fd (part_entry fd n mask bytes) q)
  saved_part packets q n mask bytes r few reads s =
      let place : r ≡ (body n mask bytes, []) =
        some_inj (sym reads ∙ so_far_part n mask [] bytes (omega (arith, few))) in
      rw (place, append-nil packets)
        (save_uncomplete-Sound places fd (body n mask bytes) (part_entry fd n mask bytes)
          (part_entry-Tells fd n mask bytes few) s)

  -- the last packet of a block
  pub last_packet :
      (packets : List Pack) (q : Queue) (p rest : List ℕ) (r : Place × List (List ℕ))
      → rest ≡ []
      → read_after (head [], p ∷ []) rest ≡ some r
      → Sound (update places fd (head [])) (packets ++ packet fd p ∷ []) q
      → Sound (update places fd r.0) (packets ++ map (packet fd) r.1) q
  last_packet packets q p rest r done reads s = rw (read_after_last p rest r done reads) s

  -- a packet and those behind it
  pub Pushed-cons :
      (packets : List Pack) (p rest : List ℕ) (r : Place × List (List ℕ)) (x : Option Queue)
      → read_after (head [], p ∷ []) rest ≡ some r
      → ((later : Place × List (List ℕ))
          → read_bytes (head []) rest ≡ some later
          → Pushed (packets ++ packet fd p ∷ []) later x)
      → Pushed packets r x
  Pushed-cons packets p rest r x reads go =
      let found = read_after_packet p rest r reads in
      let pushed = go found.0 found.1 in
      rw (found.2) (
        pushed.0,
        pushed.1,
        subst (λ l. Sound (update places fd found.0.0) l pushed.0)
            (append_assoc packets (packet fd p ∷ []) (map (packet fd) found.0.1)) pushed.2,
      )

  -- a packet that is pushed whole, and what comes behind it
  pub pushed_whole :
      (packets : List Pack) (q : Queue) (n : ℕ) (mask : Option (List ℕ)) (bytes : List ℕ)
      (r : Place × List (List ℕ))
      → n ≤ length bytes
      → read_after (so_far n mask []) bytes ≡ some r
      → Sound (update places fd (head [])) packets q
      → let p = payload mask (take n bytes) in
        (read_after (head [], p ∷ []) (drop n bytes) ≡ some r)
        × Sound
            (update places fd (head []))
            (packets ++ packet fd p ∷ [])
            (push_data fd (decode_wsmask_data bytes n (masking_of mask)).0 n q)
  pushed_whole packets q n mask bytes r fits reads s =
      let whole = whole_data n mask bytes fits in
      (
        sym (so_far_start n mask bytes fits) ∙ reads,
        push_data-Sound fd (decode_wsmask_data bytes n (masking_of mask)).0 n
            (payload mask (take n bytes)) whole.0 whole.1 s,
      )

  pub push_more_lem :
      (rounds : ℕ) (bytes : List ℕ) (packets : List Pack) (q : Queue) (r : Place × List (List ℕ))
      → length bytes < rounds
      → 0 < length bytes
      → read_bytes (head []) bytes ≡ some r
      → Sound (update places fd (head [])) packets q
      → Pushed packets r (push_more rounds fd bytes false q)
  unfolding push_more push_step read_size
  push_more_lem zero bytes packets q r h lo run s = absurd (omega arith)
  push_more_lem (suc rounds) bytes packets q r h lo run s =
      let again : List ℕ → Queue → Option Queue =
        λ rest pushed. push_more rounds fd rest false pushed in
      elim (head_lem [] bytes r refl (omega arith) run) [
        | inl short ↦
            subst (Pushed packets r)
              (sym (
                ap (λ o. o >>= push_step fd false again q)
                  (next_size_short true bytes (short.short))))
              (saved_header packets q bytes r lo short s)
        | inr whole ↦
            let f = IsWhole-IsFound bytes r whole in
            subst (Pushed packets r)
              (sym (
                ap (λ o. o >>= push_step fd false again q)
                  (next_size_sized true bytes f.parsed f.fits)))
              (elim (Bool-cases (ltb (length (drop f.offset bytes)) f.size)) [
                | inl few ↦ rw few (
                  save_uncomplete fd (part_entry fd f.size f.mask (drop f.offset bytes)) q,
                  refl,
                  saved_part packets q f.size f.mask (drop f.offset bytes) r
                      (ltb→lt (length (drop f.offset bytes)) f.size few) f.reads s,
                )
                | inr enough ↦
                    let rest = drop f.offset bytes in
                    let n = f.size in
                    let fits : n ≤ length rest = le_of n (length rest) enough in
                    let p = payload f.mask (take n rest) in
                    let pushed =
                      push_data fd (decode_wsmask_data rest n (masking_of f.mask)).0 n q in
                    let now = pushed_whole packets q n f.mask rest r fits f.reads s in
                    rw enough (elim (Bool-cases (ltb n (length rest))) [
                      | inl more ↦
                          let left = length-drop n rest in
                          let fewer = f.later in
                          let others = ltb→lt n (length rest) more in
                          rw more (
                            Pushed-cons packets p (drop n rest) r (again (drop n rest) pushed) now.0
                              (λ later run'.
                                push_more_lem rounds (drop n rest) (packets ++ packet fd p ∷ [])
                                  pushed later (omega (arith, left, fewer, h))
                                  (omega (arith, left, others)) run' now.1))
                      | inr last ↦ rw last (
                        pushed,
                        refl,
                        last_packet packets pushed p (drop n rest) r
                            (drop_all n rest (le_of (length rest) n last)) now.0 now.1,
                      )
                    ])
              ])
      ]
