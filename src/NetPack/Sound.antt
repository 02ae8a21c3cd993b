-- ===== src/NetPack/Sound.antt =====
-- The state of skynet/lualib-src/lua-netpack.c read as one frame for each socket and a list of packets.
use native.Mathlib.Decide.{ℕ_discrete}
use jsmj_server.Base.{
  ℕ, ◌<◌, ◌≡◌, ◌≢◌, refl, ap, ap₂, ◌≤◌, ◌∙◌, sym, subst, length-take, List, [], ◌∷◌, ◌++◌, arith,
  length, take, update, update_self, update_ne, Option, none, some,
}
use jsmj_server.NetPack.{
  Uncomplete, Pack, Queue, save_uncomplete, new_queue, get_queue, push_data, find_uncomplete,
  packet,
}
use jsmj_server.NetPack.Frames.{Frame, idle, half, body}
use jsmj_server.NetPack.Ring.{
  IsValid, contents, push_data-contents, push_data-hash, push_data-IsValid, new_queue-IsValid,
  contents_of_new,
}
use jsmj_server.NetPack.Entries.{
  entries_of, others_of, find_uncomplete-IsTaken, save_uncomplete_self, save_uncomplete_ne,
}

-- what an entry says of its socket
abbrev pub Tells : Frame → Uncomplete → Type 0
Tells idle uc = ⊥
Tells (half a) uc = (uc.read ≡ none) × (uc.header ≡ a)
Tells (body n xs) uc =
    (uc.read ≡ some (length xs)) × (uc.pack.size ≡ n) × (uc.pack.buffer ≡ xs) × (length xs < n)

-- The entries of a socket are none between packets, and one within a packet.
abbrev pub Shows : ℕ → Frame → List Uncomplete → Type 0
Shows fd idle us = us ≡ []
Shows fd f us = (uc : Uncomplete) × (us ≡ uc ∷ []) × (uc.pack.id ≡ fd) × Tells f uc

-- every socket stands at its frame, and the packets wait in the ring
pub record Sound (frames : ℕ → Frame) (packets : List Pack) (o : Option Queue) : Type 0 where
  pub ring : IsValid (get_queue o)
  pub waiting : contents (get_queue o) ≡ packets
  pub shown : (y : ℕ) → Shows y (frames y) (entries_of y (get_queue o))

pub new_queue-Sound : Sound (λ y. idle) [] none
unfolding new_queue
new_queue-Sound = record { ring = new_queue-IsValid; waiting = contents_of_new; shown = λ y. refl }

others_of-Shows : (fd : ℕ) (f : Frame) (us : List Uncomplete) → Shows fd f us → others_of us ≡ []
others_of-Shows fd idle us s = ap others_of s
others_of-Shows fd (half a) us s = ap others_of s.1
others_of-Shows fd (body n xs) us s = ap others_of s.1

update_same :
    (frames : ℕ → Frame) (fd : ℕ) (P : Frame → Type 0) (y : ℕ)
    → P (frames y)
    → P (update frames fd (frames fd) y)
update_same frames fd P y p = elim (ℕ_discrete fd y) [
  | yes e ↦ rw (← e, update_self frames fd (frames fd)) (subst (λ z. P (frames z)) (sym e) p)
  | no ne ↦ rw (update_ne frames (frames fd) ne) p
]

-- A change to the entries of one socket leaves what the others show.
shown_after :
    (frames : ℕ → Frame) (fd : ℕ) (f f' : Frame) (q q' : Queue)
    → ((y : ℕ) → y ≢ fd → entries_of y q' ≡ entries_of y q)
    → ((y : ℕ) → Shows y (update frames fd f y) (entries_of y q))
    → Shows fd f' (entries_of fd q')
    → (y : ℕ) → Shows y (update frames fd f' y) (entries_of y q')
shown_after frames fd f f' q q' same before now y = elim (ℕ_discrete fd y) [
  | yes e ↦
      subst (λ z. Shows z (update frames fd f' z) (entries_of z q')) e
        (rw (update_self frames fd f') now)
  | no ne ↦
      subst (λ us. Shows y (update frames fd f' y) us) (sym (same y (λ e. ne (sym e))))
        (subst (λ g. Shows y g (entries_of y q))
          (update_ne frames f ne ∙ sym (update_ne frames f' ne)) (before y))
]

-- `find_uncomplete` leaves the socket between packets.
pub find_uncomplete-Sound :
    {frames : ℕ → Frame} {packets : List Pack} (fd : ℕ) (o : Option Queue)
    → Sound frames packets o
    → Sound (update frames fd idle) packets (find_uncomplete fd o).1
find_uncomplete-Sound {frames} fd o s =
    let t = find_uncomplete-IsTaken fd o in
    record {
      ring = t.ring s.ring;
      waiting = t.packets ∙ s.waiting;
      shown =
          shown_after frames fd (frames fd) idle (get_queue o) (get_queue (find_uncomplete fd o).1)
            t.kept
            (λ y. update_same frames fd (λ z. Shows y z (entries_of y (get_queue o))) y (s.shown y))
            (t.taken ∙ others_of-Shows fd (frames fd) (entries_of fd (get_queue o)) (s.shown fd));
    }

-- A new entry brings its socket to the frame that the entry tells.
pub save_uncomplete-Sound :
    (frames : ℕ → Frame) {packets : List Pack} (fd : ℕ) (f : Frame) (uc : Uncomplete) (q : Queue)
    → uc.pack.id ≡ fd
    → Shows fd f (uc ∷ [])
    → Sound (update frames fd idle) packets (some q)
    → Sound (update frames fd f) packets (some (save_uncomplete uc q))
unfolding save_uncomplete
save_uncomplete-Sound frames fd f uc q id now s =
    let alone : entries_of fd q ≡ [] =
      subst (λ g. Shows fd g (entries_of fd q)) (update_self frames fd idle) (s.shown fd) in
    record {
      ring = record {
        storage = s.ring.storage;
        head_in = s.ring.head_in;
        tail_in = s.ring.tail_in;
      };
      waiting = s.waiting;
      shown =
          shown_after frames fd idle f q (save_uncomplete uc q)
            (λ y ne. save_uncomplete_ne uc q (λ e. ne (sym e ∙ id))) s.shown
            (subst (λ z. Shows z f (entries_of z (save_uncomplete uc q))) id
              (subst (λ us. Shows uc.pack.id f us)
                (sym (
                  save_uncomplete_self uc q
                  ∙ ap (λ us. uc ∷ us) (subst (λ z. entries_of z q ≡ []) (sym id) alone)))
                (subst (λ z. Shows z f (uc ∷ [])) (sym id) now)));
    }

-- A packet that is pushed waits behind the others.
pub push_data-Sound :
    {frames : ℕ → Frame} {packets : List Pack} (fd : ℕ) (buffer : List ℕ) (size : ℕ)
    (o : Option Queue)
    → size ≤ length buffer
    → Sound frames packets o
    → Sound frames
        (packets ++ packet fd (take size buffer) ∷ [])
        (some (push_data fd buffer size (get_queue o)))
push_data-Sound {frames} {packets} fd buffer size o fits s = record {
  ring = push_data-IsValid fd buffer size s.ring;
  waiting =
      push_data-contents fd buffer size s.ring
      ∙ ap₂ (λ ps n. ps ++ record { id = fd; size = n; buffer = take size buffer } ∷ []) s.waiting
          (omega (arith, length-take size buffer, fits));
  shown = λ y. rw (push_data-hash (get_queue o) fd buffer size) (s.shown y);
}

-- There is a queue from the first write on.
pub get_queue-Sound :
    {frames : ℕ → Frame} {packets : List Pack} {o : Option Queue}
    → Sound frames packets o
    → Sound frames packets (some (get_queue o))
get_queue-Sound s = record { ring = s.ring; waiting = s.waiting; shown = s.shown }
