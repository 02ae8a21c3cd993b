-- ===== src/NetPack/Filter.antt =====
-- `filter_data` of skynet/lualib-src/lua-netpack.c cuts a block of any connection as the protocol says.
use jsmj_server.Base.{
  ℕ, ◌+◌, ◌-◌, ◌≤◌, ◌<◌, ◌≡◌, refl, ap, ◌∙◌, sym, subst, List, [], ◌∷◌, ◌++◌, arith, length, take,
  drop, update, Option, some, ltb, ltb→lt, ◌==◌, Bool-cases, inl, inr, length-take, length-append,
  length-drop, take_all, drop_all,
}
use jsmj_server.NetPack.{
  Filtered, Uncomplete, Pack, Queue, get_queue, half_entry, part_entry, push_data, save_uncomplete,
  read_size, fill_body, fill_entry, begin, after_search, filter_data, packet, find_uncomplete,
  sized,
}
use jsmj_server.NetPack.Frames.{
  Frame, idle, half, body, read_bytes, after, read_bytes_sized_whole, read_bytes_sized_short,
  read_bytes_first, read_bytes_part, read_bytes_whole,
}
use jsmj_server.NetPack.Sound.{
  get_queue-Sound, Sound, Shows, Tells, save_uncomplete-Sound, push_data-Sound,
  find_uncomplete-Sound,
}
use jsmj_server.NetPack.Entries.{first_of, entries_of, find_uncomplete-IsTaken}
use jsmj_server.NetPack.Results.{IsFiltered, none_complete, one_complete, more_complete}

module _ (frames : ℕ → Frame) (packets : List Pack) (fd : ℕ) (o : Option Queue)
    (s : Sound (update frames fd idle) packets o) where
  by_reading :
      {r r' : Frame × List (List ℕ)}
      → r ≡ r'
      → (x : Option (Filtered × Option Queue)) → IsFiltered frames packets fd r' x
      → IsFiltered frames packets fd r x
  by_reading e x f = subst (λ r. IsFiltered frames packets fd r x) (sym e) f

  -- A block for a socket without an entry.
  pub begin_lem :
      (bytes : List ℕ)
      → 0 < length bytes
      → IsFiltered frames packets fd (read_bytes idle bytes) (begin fd bytes o)
  unfolding begin read_bytes
  begin_lem [] h = absurd (omega arith)
  begin_lem (a ∷ []) h =
      none_complete frames packets fd (half a)
        (some (save_uncomplete (half_entry fd a) (get_queue o)))
        (save_uncomplete-Sound frames fd (half a) (half_entry fd a) (get_queue o) refl
          (half_entry fd a, refl, refl, (refl, refl)) (get_queue-Sound s))
  begin_lem (a ∷ b ∷ buffer) h =
      let n = read_size a b in
      let rest = drop n buffer in
      elim (Bool-cases (ltb (length buffer) n)) [
        | inl short ↦
            let few = ltb→lt (length buffer) n short in
            rw short (
              by_reading (read_bytes_first a (b ∷ buffer) ∙ read_bytes_sized_short a b buffer few) _
                (none_complete frames packets fd (body n buffer)
                  (some (save_uncomplete (part_entry fd n buffer) (get_queue o)))
                  (save_uncomplete-Sound frames fd (body n buffer) (part_entry fd n buffer)
                    (get_queue o) refl (part_entry fd n buffer, refl, refl, (refl, refl, refl, few))
                    (get_queue-Sound s))))
        | inr enough ↦
            let fits : n ≤ length buffer = ground (arith, enough) in
            let reading =
              read_bytes_first a (b ∷ buffer) ∙ read_bytes_sized_whole a b buffer fits in
            rw enough (
              by_reading reading _ (elim (Bool-cases (length buffer == n)) [
                | inl just ↦
                    let all : length buffer ≤ n = ground (arith, just) in
                    rw (just, take_all n buffer all, drop_all n buffer all)
                      (one_complete frames packets fd buffer o s)
                | inr more ↦ rw more (
                    more_complete frames packets fd (take n buffer) rest
                      (push_data fd buffer n (get_queue o))
                      (ground (arith, more, fits, length-drop n buffer))
                      (push_data-Sound fd buffer n o fits s))
              ]))
      ]

  -- The data of a packet of known size goes on.
  fill_body_lem :
      (uc : Uncomplete) (xs bytes : List ℕ) (r : Frame × List (List ℕ))
      → uc.pack.id ≡ fd
      → take (length xs) uc.pack.buffer ≡ xs
      → (length xs + length bytes < uc.pack.size → r ≡ (body uc.pack.size (xs ++ bytes), []))
      → (uc.pack.size ≤ length xs + length bytes
          → r
            ≡ after
                ((xs ++ take (uc.pack.size - length xs) bytes) ∷ [])
                (read_bytes idle (drop (uc.pack.size - length xs) bytes)))
      → length xs ≤ uc.pack.size
      → IsFiltered frames packets fd r (fill_body fd uc (length xs) bytes o)
  unfolding fill_body read_bytes
  fill_body_lem uc xs bytes r id start short whole within =
      let n = uc.pack.size in
      let need = n - length xs in
      let p = xs ++ take need bytes in
      let rest = drop need bytes in
      let filled : Uncomplete = record uc {
        pack = record { id = uc.pack.id; size = n; buffer = xs ++ bytes };
        read = some (length xs + length bytes);
      } in
      rw start (elim (Bool-cases (ltb (length bytes) need)) [
        | inl few ↦
            let part : length xs + length bytes < n =
              omega (arith, ltb→lt (length bytes) need few) in
            rw few (
              by_reading (short part) _ (
                none_complete frames packets fd (body n (xs ++ bytes))
                  (some (save_uncomplete filled (get_queue o)))
                  (save_uncomplete-Sound frames fd (body n (xs ++ bytes)) filled (get_queue o) id
                    (
                      filled,
                      refl,
                      id,
                      (
                        ap some (sym (length-append xs bytes)),
                        refl,
                        refl,
                        omega (arith, part, length-append xs bytes),
                      ),
                    )
                    (get_queue-Sound s))))
        | inr enough ↦
            let fits : need ≤ length bytes = ground (arith, enough) in
            let full : length p ≡ n =
              length-append xs (take need bytes)
              ∙ omega (arith, length-take need bytes, fits, within) in
            rw enough (
              by_reading (whole (omega (arith, fits, within))) _
                (elim (Bool-cases (length bytes - need == 0)) [
                  | inl just ↦
                      rw (just, drop_all need bytes (ground (arith, just)))
                        (one_complete frames packets fd p o s)
                  | inr more ↦ rw more (
                      more_complete frames packets fd p rest (push_data fd p n (get_queue o))
                        (ground (arith, more, fits, length-drop need bytes))
                        (subst
                          (λ l.
                            Sound (update frames fd idle) (packets ++ packet fd l ∷ [])
                              (some (push_data fd p n (get_queue o))))
                          (take_all n p (omega (arith, full)))
                          (push_data-Sound fd p n o (omega (arith, full)) s)))
                ]))
      ])

  -- A block for a socket with an entry.
  fill_entry_lem :
      (f : Frame) (uc : Uncomplete) (bytes : List ℕ)
      → uc.pack.id ≡ fd
      → Tells f uc
      → 0 < length bytes
      → IsFiltered frames packets fd (read_bytes f bytes) (fill_entry fd uc bytes o)
  unfolding fill_entry
  fill_entry_lem idle uc bytes id told h = absurd told
  fill_entry_lem (half a) uc [] id told h = absurd (omega arith)
  fill_entry_lem (half a) uc (b ∷ rest) id told h = rw (told.0) (
      fill_body_lem (sized uc b) [] rest (read_bytes (half a) (b ∷ rest)) id refl
        (λ few. rw (← told.1) (read_bytes_sized_short uc.header b rest (omega (arith, few))))
        (λ enough.
          let size : read_size uc.header b - 0 ≡ read_size uc.header b = omega arith in
          rw (← told.1, size) (read_bytes_sized_whole uc.header b rest (omega (arith, enough))))
        (omega arith))
  fill_entry_lem (body n xs) uc bytes id told h = rw (told.0) (
      fill_body_lem uc xs bytes (read_bytes (body n xs) bytes) id
        (rw (told.2) (take_all (length xs) xs (omega arith)))
        (λ few. rw (← told.1) (read_bytes_part uc.pack.size xs bytes few))
        (λ enough.
          rw (← told.1)
            (read_bytes_whole uc.pack.size xs bytes (omega (arith, told.1, told.3)) enough))
        (omega (arith, told.1, told.3)))

  pub after_search_lem :
      (f : Frame) (us : List Uncomplete) (c : Option Uncomplete) (bytes : List ℕ)
      → Shows fd f us
      → c ≡ first_of us
      → 0 < length bytes
      → IsFiltered frames packets fd (read_bytes f bytes) (after_search fd bytes (c, o))
  unfolding after_search
  after_search_lem idle us c bytes shown e h = rw (e, shown) (begin_lem bytes h)
  after_search_lem (half a) us c bytes (uc, just, id, told) e h =
      rw (e, just) (fill_entry_lem (half a) uc bytes id told h)
  after_search_lem (body n xs) us c bytes (uc, just, id, told) e h =
      rw (e, just) (fill_entry_lem (body n xs) uc bytes id told h)

-- On a block that is not empty, of any socket and in any sound state, `filter_data` reads as the protocol does: the
-- packets completed are returned or stand in the ring in order, the socket is at its frame after the block, and the
-- other sockets are where they were.
pub filter_data_lem :
    (frames : ℕ → Frame) (packets : List Pack) (fd : ℕ) (bytes : List ℕ) (o : Option Queue)
    → Sound frames packets o
    → 0 < length bytes
    → IsFiltered frames packets fd (read_bytes (frames fd) bytes) (filter_data fd bytes o)
unfolding filter_data
filter_data_lem frames packets fd bytes o s h =
    let search = find_uncomplete fd o in
    after_search_lem frames packets fd search.1 (find_uncomplete-Sound fd o s) (frames fd)
      (entries_of fd (get_queue o)) search.0 bytes (s.shown fd) (find_uncomplete-IsTaken fd o).found
      h
