-- ===== src/WebPack/Filter.antt =====
-- `filter_data` of lualib-src/lua-websocketnetpack.c cuts a block of any socket into frames as the protocol says.
use jsmj_server.Base.{
  ℕ, ◌+◌, ◌-◌, ◌≤◌, ◌<◌, ◌≡◌, inl, inr, refl, ap, ◌∙◌, sym, subst, List, [], ◌∷◌, ◌++◌, arith,
  length, length-append, length-take, take, drop, drop_all, take_all, update, Option, none, some,
  some_inj, ◌>>=◌, false, ltb, ltb→lt, lt→ltb, Bool-cases, ◌==◌, ==_iff,
}
use jsmj_server.NetPack.{Pack, nothing}
use jsmj_server.WebPack.{read_size, masking_of, decode_wsmask_data}
use jsmj_server.WebPack.Mask.{decoded, length-decoded}
use jsmj_server.WebPack.Parse.{le_of}
use jsmj_server.WebPack.Socket.{
  Uncomplete, Queue, push_data, save_uncomplete, find_uncomplete, part_entry, fill_body,
  complete_entry, after_header, fill_entry, begin_step, begin, after_search, filter_data,
}
use jsmj_server.WebPack.Protocol.{
  Place, head, body, payload, so_far, read_bytes, read_after, read_after_nothing, so_far_part,
  so_far_whole,
}
use jsmj_server.WebPack.Heads.{head_lem, next_size_short, next_size_sized}
use jsmj_server.WebPack.Sound.{
  Sound, Tells, save_uncomplete-Sound, find_uncomplete-Sound, push_data-Sound, header_entry-Tells,
  part_entry-Tells,
}
use jsmj_server.WebPack.More.{IsWhole-IsFound, pushed_whole}
use jsmj_server.WebPack.Results.{
  IsFiltered, just_data, more_data, last_data, no_data, bytes_left, none_complete, one_complete,
  more_complete,
}

module _ (places : ℕ → Place) (packets : List Pack) (fd : ℕ) (q : Queue)
    (s : Sound (update places fd (head [])) packets q) where
  -- A block for a socket without an entry.
  begin_lem :
      (bytes : List ℕ) (r : Place × List (List ℕ))
      → 0 < length bytes
      → read_bytes (head []) bytes ≡ some r
      → IsFiltered places packets fd r (begin fd bytes false q)
  unfolding begin begin_step read_size
  begin_lem bytes r lo run = elim (head_lem [] bytes r refl (omega arith) run) [
    | inl short ↦
        let entry = header_entry-Tells fd bytes lo short.few short.short in
        subst (IsFiltered places packets fd r)
          (sym (
            ap (λ o. o >>= begin_step fd false q) (next_size_short false bytes (short.short))
            ∙ ap (λ o. o >>= λ uc. some (nothing, save_uncomplete fd uc q)) entry.1))
          (none_complete places packets fd q s r (head bytes) (save_uncomplete fd entry.0 q)
            short.place (save_uncomplete-Sound places fd (head bytes) entry.0 entry.2 s))
    | inr whole ↦
        let f = IsWhole-IsFound bytes r whole in
        let rest = drop f.offset bytes in
        let n = f.size in
        subst (IsFiltered places packets fd r)
          (sym
            (ap (λ o. o >>= begin_step fd false q) (next_size_sized false bytes f.parsed f.fits)))
          (elim (Bool-cases (ltb (length rest) n)) [
            | inl few ↦
                let less = ltb→lt (length rest) n few in
                let place : r ≡ (body n f.mask rest, []) =
                  some_inj (sym (f.reads) ∙ so_far_part n f.mask [] rest (omega (arith, less))) in
                rw few (
                  none_complete places packets fd q s r (body n f.mask rest)
                    (save_uncomplete fd (part_entry fd n f.mask rest) q) place
                    (save_uncomplete-Sound places fd (body n f.mask rest)
                      (part_entry fd n f.mask rest) (part_entry-Tells fd n f.mask rest less) s))
            | inr enough ↦
                let fits : n ≤ length rest = le_of n (length rest) enough in
                let p = payload f.mask (take n rest) in
                let now = pushed_whole places fd packets q n f.mask rest r fits f.reads s in
                rw enough (elim (Bool-cases (length rest == n)) [
                  | inl just ↦
                      let all : length rest ≡ n = (==_iff (length rest) n).0 just in
                      rw (just, just_data n f.mask rest all)
                        (one_complete places packets fd q s r p (drop n rest)
                          (drop_all n rest (omega (arith, all))) now.0)
                  | inr more ↦
                      let left = bytes_left n rest fits more in
                      rw more (
                        more_complete places packets fd q s r p (drop n rest)
                          (push_data fd (decode_wsmask_data rest n (masking_of f.mask)).0 n q) left
                          now.0 now.1)
                ])
          ])
  ]

  -- The data of a packet of which `xs` arrived before.
  fill_body_lem :
      (uc : Uncomplete) (n : ℕ) (mask : Option (List ℕ)) (xs bytes : List ℕ)
      (r : Place × List (List ℕ))
      → uc.pack.size ≡ n
      → uc.pack.buffer ≡ payload mask xs
      → uc.masking ≡ (decoded xs (masking_of mask)).1
      → length xs ≤ n
      → read_after (so_far n mask xs) bytes ≡ some r
      → IsFiltered places packets fd r (fill_body fd uc (length xs) bytes false q)
  unfolding fill_body
  fill_body_lem uc n mask xs bytes r size buffer masking within reads =
      let u = (decoded xs (masking_of mask)).1 in
      let need = n - length xs in
      let all : length xs ≡ length (payload mask xs) = sym (length-decoded xs (masking_of mask)) in
      let front : take (length xs) (payload mask xs) ≡ payload mask xs =
        take_all (length xs) (payload mask xs) (omega (arith, all)) in
      rw (size, buffer, masking, front)
        (elim (Bool-cases (ltb (length bytes) need)) [
          | inl few ↦
              let less : length xs + length bytes < n =
                omega (arith, ltb→lt (length bytes) need few) in
              let part = decode_wsmask_data bytes (length bytes) u in
              let filled : Uncomplete = record uc {
                pack = record { id = uc.pack.id; size = n; buffer = payload mask xs ++ part.0 };
                read = some (length xs + length bytes);
                masking = part.1;
              } in
              let place : r ≡ (body n mask (xs ++ bytes), []) =
                some_inj (sym reads ∙ so_far_part n mask xs bytes less) in
              let both = more_data mask xs bytes in
              rw few (
                none_complete places packets fd q s r (body n mask (xs ++ bytes))
                  (save_uncomplete fd filled q) place
                  (save_uncomplete-Sound places fd (body n mask (xs ++ bytes)) filled
                    (
                      filled,
                      refl,
                      ap some (sym (length-append xs bytes)),
                      refl,
                      both.0,
                      both.1,
                      omega (arith, less, length-append xs bytes),
                    )
                    s))
          | inr enough ↦
              let fits = le_of need (length bytes) enough in
              let p = payload mask (xs ++ take need bytes) in
              let rest = drop need bytes in
              let reads' : read_after (head [], p ∷ []) rest ≡ some r =
                sym (so_far_whole n mask xs bytes within (omega (arith, fits))) ∙ reads in
              let full : n ≡ length p = omega (
                arith,
                within,
                fits,
                length-decoded (xs ++ take need bytes) (masking_of mask),
                length-append xs (take need bytes),
                length-take need bytes,
              ) in
              rw (enough, last_data mask xs bytes need fits)
                (elim (Bool-cases (length bytes == need)) [
                  | inl just ↦
                      let done =
                        drop_all need bytes (omega (arith, (==_iff (length bytes) need).0 just)) in
                      rw just (one_complete places packets fd q s r p rest done reads')
                  | inr more ↦ rw more (
                      more_complete places packets fd q s r p rest (push_data fd p n q)
                        (bytes_left need bytes fits more) reads'
                        (push_data-Sound fd p n p (take_all n p (omega (arith, full))) full s))
                ])
        ])

  -- A block for a socket with an entry.
  fill_entry_lem :
      (p : Place) (o : Option Uncomplete) (bytes : List ℕ) (r : Place × List (List ℕ))
      → Tells p o
      → 0 < length bytes
      → read_bytes p bytes ≡ some r
      → IsFiltered places packets fd r (after_search fd bytes false (o, q))
  unfolding after_search fill_entry after_header
  fill_entry_lem (head []) o bytes r told lo run = rw told (begin_lem bytes r lo run)
  fill_entry_lem (head (x ∷ h)) o bytes r (uc, just, read, header, short, few) lo run =
      rw (just, read, header)
        (elim (head_lem (x ∷ h) bytes r short few run) [
          | inl e ↦
              let entry : Uncomplete = record uc { header = x ∷ h ++ bytes; read = none } in
              rw (e.loop lo) (
                none_complete places packets fd q s r (head (x ∷ h ++ bytes))
                  (save_uncomplete fd entry q) (e.place)
                  (save_uncomplete-Sound places fd (head (x ∷ h ++ bytes)) entry
                    (entry, refl, refl, refl, e.short, e.few) s))
          | inr w ↦
              let before : Uncomplete = record uc { header = x ∷ h; read = none } in
              let nothing_yet = no_data w.mask in
              rw (w.loop) (
                fill_body_lem (complete_entry before (x ∷ h ++ w.first) w.size w.mask false) w.size
                  w.mask [] (w.rest) r refl nothing_yet.0 nothing_yet.1 (omega arith) w.reads)
        ])
  fill_entry_lem (body n mask xs) o bytes r (uc, just, read, size, buffer, masking, less) lo run =
      let more = lt→ltb (length xs) n less in
      let reads : read_after (so_far n mask xs) bytes ≡ some r =
        rw more (read_after_nothing (body n mask xs) bytes ∙ run) in
      rw (just, read)
        (fill_body_lem uc n mask xs bytes r size buffer masking (omega (arith, less)) reads)

-- On a block that is not empty, of any socket and in any sound state, where the protocol accepts the bytes, `filter_data`
-- does not fail and reads as the protocol does: the packets completed are returned or stand in the ring in order and
-- unmasked, the socket is at its place after the block, and the other sockets are where they were. The block is no part of
-- a handshake.
pub filter_data_refines :
    (places : ℕ → Place) (packets : List Pack) (fd : ℕ) (bytes : List ℕ) (q : Queue)
    (r : Place × List (List ℕ))
    → Sound places packets q
    → 0 < length bytes
    → read_bytes (places fd) bytes ≡ some r
    → IsFiltered places packets fd r (filter_data fd bytes false q)
unfolding filter_data find_uncomplete
filter_data_refines places packets fd bytes q r s lo run =
    fill_entry_lem places packets fd (find_uncomplete fd q).1 (find_uncomplete-Sound fd s)
      (places fd) (q.uncomplete fd) bytes r (s.told fd) lo run
