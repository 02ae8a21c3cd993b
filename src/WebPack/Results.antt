-- ===== src/WebPack/Results.antt =====
-- What `filter_data` of lualib-src/lua-websocketnetpack.c returns, and the results that its branches share.
use jsmj_server.Base.{
  ℕ, suc, ◌≤◌, ◌<◌, ◌≡◌, refl, ap, ◌∙◌, sym, subst, List, [], ◌∷◌, ◌++◌, arith, length, length-drop,
  take, drop, take_all, update, Option, none, some, ◌>>=◌, false, map, append-nil, ◌==◌,
}
use jsmj_server.NetPack.{Pack, packet, Filtered, nothing, type_data, type_more}
use jsmj_server.NetPack.Results.{in_queue, Returned}
use jsmj_server.WebPack.{unmask, Masking, masking_of, decode_wsmask_data}
use jsmj_server.WebPack.Mask.{decoded, decoded_pieces, decode_whole, decode_within}
use jsmj_server.WebPack.Socket.{Queue, push_more}
use jsmj_server.WebPack.Protocol.{Place, head, payload, read_after}
use jsmj_server.WebPack.Sound.{Sound}
use jsmj_server.WebPack.More.{push_more_lem, Pushed-cons, read_after_packet, read_after_last}

-- what `filter_data` of a block of the socket makes of a sound state
abbrev pub IsFiltered :
    (ℕ → Place) → List Pack → ℕ → Place × List (List ℕ) → Option (Filtered × Queue) → Type 0
IsFiltered places packets fd r x =
    (res : Filtered × Queue) × (x ≡ some res)
    × Returned fd res.0 r.1
    × Sound (update places fd r.0) (packets ++ map (packet fd) (in_queue res.0 r.1)) res.1

pub just_data :
    (n : ℕ) (mask : Option (List ℕ)) (bytes : List ℕ)
    → length bytes ≡ n
    → (decode_wsmask_data bytes n (masking_of mask)).0 ≡ payload mask (take n bytes)
just_data n mask bytes e =
    ap (λ k. (decode_wsmask_data bytes k (masking_of mask)).0) (sym e)
    ∙ ap (λ (r : List ℕ × Masking). r.0) (decode_whole bytes (masking_of mask))
    ∙ ap (payload mask) (sym (take_all n bytes (omega (arith, e))))

-- Data behind others of the same packet, all of them and the first of them.
pub more_data :
    (mask : Option (List ℕ)) (xs bytes : List ℕ)
    → let u = (decoded xs (masking_of mask)).1 in
      let part = decode_wsmask_data bytes (length bytes) u in
      (payload mask xs ++ part.0 ≡ payload mask (xs ++ bytes))
      × (part.1 ≡ (decoded (xs ++ bytes) (masking_of mask)).1)
more_data mask xs bytes =
    let u = (decoded xs (masking_of mask)).1 in
    let pieces = decoded_pieces xs bytes (masking_of mask) in
    rw (decode_whole bytes u) (
      ap (λ (x : List ℕ × Masking). x.0) (sym pieces),
      ap (λ (x : List ℕ × Masking). x.1) (sym pieces),
    )

pub last_data :
    (mask : Option (List ℕ)) (xs bytes : List ℕ) (n : ℕ)
    → n ≤ length bytes
    → payload mask xs ++ take n (decode_wsmask_data bytes n (decoded xs (masking_of mask)).1).0
      ≡ payload mask (xs ++ take n bytes)
last_data mask xs bytes n h =
    ap (λ l. payload mask xs ++ l) (decode_within bytes n (decoded xs (masking_of mask)).1 h)
    ∙ ap (λ (x : List ℕ × Masking). x.0) (sym (decoded_pieces xs (take n bytes) (masking_of mask)))

pub no_data :
    (mask : Option (List ℕ))
    → ([] ≡ payload mask []) × (masking_of mask ≡ (decoded [] (masking_of mask)).1)
unfolding unmask
no_data none = (refl, refl)
no_data (some masks) = (refl, refl)

pub bytes_left :
    (n : ℕ) (bytes : List ℕ)
    → n ≤ length bytes
    → (length bytes == n) ≡ false
    → 0 < length (drop n bytes)
bytes_left n bytes h e = let left = length-drop n bytes in ground (arith, left)

module _ (places : ℕ → Place) (packets : List Pack) (fd : ℕ) (q : Queue)
    (s : Sound (update places fd (head [])) packets q) where
  -- the results of a block that completes nothing, just one packet, and more
  pub none_complete :
      (r : Place × List (List ℕ)) (p : Place) (q' : Queue)
      → r ≡ (p, [])
      → Sound (update places fd p) packets q'
      → IsFiltered places packets fd r (some (nothing, q'))
  none_complete r p q' e s' = rw e (
    (nothing, q'),
    refl,
    refl,
    subst (λ l. Sound (update places fd p) l q') (sym (append-nil packets)) s',
  )

  pub one_complete :
      (r : Place × List (List ℕ)) (p rest : List ℕ)
      → rest ≡ []
      → read_after (head [], p ∷ []) rest ≡ some r
      → IsFiltered places packets fd r (some (type_data fd p, q))
  one_complete r p rest done reads = rw (read_after_last p rest r done reads) (
    (type_data fd p, q),
    refl,
    (refl, refl),
    subst (λ l. Sound (update places fd (head [])) l q) (sym (append-nil packets)) s,
  )

  pub more_complete :
      (r : Place × List (List ℕ)) (p rest : List ℕ) (pushed : Queue)
      → 0 < length rest
      → read_after (head [], p ∷ []) rest ≡ some r
      → Sound (update places fd (head [])) (packets ++ packet fd p ∷ []) pushed
      → IsFiltered places packets fd r
          (push_more (suc (length rest)) fd rest false pushed >>= λ q'. some (type_more, q'))
  more_complete r p rest pushed lo reads s' =
      let found = read_after_packet p rest r reads in
      let later =
        Pushed-cons places fd packets p rest r (push_more (suc (length rest)) fd rest false pushed)
          reads
          (λ later run.
            push_more_lem places fd (suc (length rest)) rest (packets ++ packet fd p ∷ []) pushed
              later (omega arith) lo run s') in
      (
        (type_more, later.0),
        ap (λ o. o >>= λ q'. some (type_more, q')) later.1,
        (p, found.0.1, ap (λ (x : Place × List (List ℕ)). x.1) found.2),
        later.2,
      )
