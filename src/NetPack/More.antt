-- ===== src/NetPack/More.antt =====
-- `push_more` of skynet/lualib-src/lua-netpack.c, the packets after the first one of a block.
use jsmj_server.Base.{
  Option, ℕ, zero, suc, ◌-◌, ◌≤◌, ◌<◌, ◌≡◌, refl, ◌∙◌, sym, subst, List, [], ◌∷◌, ◌++◌, arith,
  length, take, drop, update, some, map, ltb, ltb→lt, if◌then◌else◌, Bool-cases, inl, inr,
  append-nil, append_assoc, length-drop, drop_all,
}
use jsmj_server.NetPack.{
  Pack, Queue, half_entry, part_entry, push_data, push_more, save_uncomplete, read_size, packet,
}
use jsmj_server.NetPack.Frames.{
  Frame, idle, half, body, read_bytes, after, read_bytes_sized_whole, read_bytes_sized_short,
  read_bytes_first,
}
use jsmj_server.NetPack.Sound.{Sound, save_uncomplete-Sound, push_data-Sound}

module _ (frames : ℕ → Frame) (fd : ℕ) where
  -- the state after the packets and the frame of a reading
  abbrev pub SoundAfter : List Pack → Frame × List (List ℕ) → Queue → Type 0
  SoundAfter packets r q = Sound (update frames fd r.0) (packets ++ map (packet fd) r.1) (some q)

  -- the same of a result: there is a queue
  abbrev pub IsPushed : List Pack → Frame × List (List ℕ) → Option Queue → Type 0
  IsPushed packets r x = (q : Queue) × (x ≡ some q) × SoundAfter packets r q

  no_more :
      {packets : List Pack} (f : Frame) (q : Queue)
      → Sound (update frames fd f) packets (some q)
      → IsPushed packets (f, []) (some q)
  no_more {packets} f q s =
      (q, refl, subst (λ l. Sound (update frames fd f) l (some q)) (sym (append-nil packets)) s)

  pub one_more :
      (packets : List Pack) (p : List ℕ) (r : Frame × List (List ℕ)) (x : Option Queue)
      → IsPushed (packets ++ packet fd p ∷ []) r x
      → IsPushed packets (after (p ∷ []) r) x
  one_more packets p r x (q, run, s) = (
    q,
    run,
    subst (λ l. Sound (update frames fd r.0) l (some q)) (append_assoc packets (packet fd p ∷ []) _)
        s,
  )

  pub at_reading :
      (packets : List Pack) {r r' : Frame × List (List ℕ)}
      → r ≡ r'
      → (x : Option Queue) → IsPushed packets r x
      → IsPushed packets r' x
  at_reading packets e x s = subst (λ r. IsPushed packets r x) e s

  -- the first bytes of the data are kept
  pub saved_part :
      {packets : List Pack} (n : ℕ) (xs : List ℕ) (q : Queue)
      → length xs < n
      → Sound (update frames fd idle) packets (some q)
      → IsPushed packets (body n xs, []) (some (save_uncomplete (part_entry fd n xs) q))
  saved_part n xs q short s = no_more (body n xs) (save_uncomplete (part_entry fd n xs) q) (
      save_uncomplete-Sound frames fd (body n xs) (part_entry fd n xs) q refl
        (part_entry fd n xs, refl, refl, (refl, refl, refl, short)) s)

  -- `push_more` of at least one byte does not read past the block and reads the bytes as the protocol says, and every packet goes into the ring.
  pub push_more_lem :
      (rounds : ℕ) (bytes : List ℕ) (packets : List Pack) (q : Queue)
      → 0 < length bytes
      → length bytes < rounds
      → Sound (update frames fd idle) packets (some q)
      → IsPushed packets (read_bytes idle bytes) (push_more rounds fd bytes q)
  unfolding push_more read_bytes
  push_more_lem zero bytes packets q some_there h s = absurd (omega arith)
  push_more_lem (suc rounds) [] packets q some_there h s = absurd (omega arith)
  push_more_lem (suc rounds) (a ∷ []) packets q some_there h s =
      no_more (half a) (save_uncomplete (half_entry fd a) q) (
        save_uncomplete-Sound frames fd (half a) (half_entry fd a) q refl
          (half_entry fd a, refl, refl, (refl, refl)) s)
  push_more_lem (suc rounds) (a ∷ b ∷ buffer) packets q some_there h s =
      let n = read_size a b in
      let rest = drop n buffer in
      elim (Bool-cases (ltb (length buffer) n)) [
        | inl short ↦ rw short (
            at_reading packets
              (sym (
                read_bytes_first a (b ∷ buffer)
                ∙ read_bytes_sized_short a b buffer (ltb→lt (length buffer) n short)))
              (some (save_uncomplete (part_entry fd n buffer) q))
              (saved_part n buffer q (ltb→lt (length buffer) n short) s))
        | inr enough ↦
            let fits : n ≤ length buffer = ground (arith, enough) in
            let pushed = push_data-Sound fd buffer n (some q) fits s in
            let left = length-drop n buffer in
            let reading =
              sym (read_bytes_first a (b ∷ buffer) ∙ read_bytes_sized_whole a b buffer fits) in
            rw enough (
              at_reading packets reading
                (if ltb 0 (length buffer - n)
                  then push_more rounds fd rest (push_data fd buffer n q)
                  else some (push_data fd buffer n q))
                (one_more packets (take n buffer) (read_bytes idle rest) _
                  (elim (Bool-cases (ltb 0 (length buffer - n))) [
                    | inl more ↦ rw more (
                        push_more_lem rounds rest (packets ++ packet fd (take n buffer) ∷ [])
                          (push_data fd buffer n q) (ground (arith, left, more))
                          (omega (arith, left, h)) pushed)
                    | inr last ↦
                        rw (last, drop_all n buffer (ground (arith, last)))
                          (no_more idle (push_data fd buffer n q) pushed)
                  ])))
      ]
