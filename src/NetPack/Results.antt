-- ===== src/NetPack/Results.antt =====
-- What `filter_data` of skynet/lualib-src/lua-netpack.c returns, and the results that its branches share.
use jsmj_server.Base.{
  ap, ℕ, suc, ◌<◌, ◌≡◌, refl, sym, subst, List, [], ◌∷◌, ◌++◌, arith, length, update, Option, some,
  map, append-nil,
}
use jsmj_server.NetPack.{
  Pack, Queue, Filtered, nothing, type_data, type_more, push_more, with_more, packet,
}
use jsmj_server.NetPack.Frames.{Frame, idle, read_bytes, after}
use jsmj_server.NetPack.More.{one_more, push_more_lem}
use jsmj_server.NetPack.Sound.{Sound}

-- the packets of the block that `filter_data` leaves in the ring
abbrev pub in_queue : Filtered → List (List ℕ) → List (List ℕ)
in_queue type_more ps = ps
in_queue r ps = []

-- how the result tells the packets that a block of the socket completes
abbrev pub Returned : ℕ → Filtered → List (List ℕ) → Type 0
Returned fd nothing ps = ps ≡ []
Returned fd (type_data id bytes) ps = (id ≡ fd) × (ps ≡ bytes ∷ [])
Returned fd type_more ps = (p : List ℕ) × (rest : List (List ℕ)) × (ps ≡ p ∷ rest)
Returned fd r ps = ⊥

-- what `filter_data` of a block of the socket makes of a sound state
abbrev pub IsFiltered :
    (ℕ → Frame) → List Pack → ℕ → Frame × List (List ℕ) → Option (Filtered × Option Queue) → Type 0
IsFiltered frames packets fd r x =
    (res : Filtered × Option Queue) × (x ≡ some res)
    × Returned fd res.0 r.1
    × Sound (update frames fd r.0) (packets ++ map (packet fd) (in_queue res.0 r.1)) res.1

-- the result of a block that completes nothing
pub none_complete :
    (frames : ℕ → Frame) (packets : List Pack) (fd : ℕ) (f : Frame) (o : Option Queue)
    → Sound (update frames fd f) packets o
    → IsFiltered frames packets fd (f, []) (some (nothing, o))
none_complete frames packets fd f o s = (
  (nothing, o),
  refl,
  refl,
  subst (λ l. Sound (update frames fd f) l o) (sym (append-nil packets)) s,
)

-- the result of a block that completes just one packet
pub one_complete :
    (frames : ℕ → Frame) (packets : List Pack) (fd : ℕ) (p : List ℕ) (o : Option Queue)
    → Sound (update frames fd idle) packets o
    → IsFiltered frames packets fd (idle, p ∷ []) (some (type_data fd p, o))
one_complete frames packets fd p o s = (
  (type_data fd p, o),
  refl,
  (refl, refl),
  subst (λ l. Sound (update frames fd idle) l o) (sym (append-nil packets)) s,
)

-- the result of a block that completes a packet and has more bytes
pub more_complete :
    (frames : ℕ → Frame) (packets : List Pack) (fd : ℕ) (p rest : List ℕ) (q : Queue)
    → 0 < length rest
    → Sound (update frames fd idle) (packets ++ packet fd p ∷ []) (some q)
    → IsFiltered frames packets fd
        (after (p ∷ []) (read_bytes idle rest))
        (with_more (push_more (suc (length rest)) fd rest q))
more_complete frames packets fd p rest q some_left s =
    let (q', run, s') =
      one_more frames fd packets p (read_bytes idle rest) (push_more (suc (length rest)) fd rest q)
        (push_more_lem frames fd (suc (length rest)) rest (packets ++ packet fd p ∷ []) q some_left
          (omega arith) s) in
    ((type_more, some q'), ap with_more run, (p, (read_bytes idle rest).1, refl), s')
