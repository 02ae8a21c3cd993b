-- ===== src/WebPack/Sound.antt =====
-- The state of lualib-src/lua-websocketnetpack.c read as one place for each socket and a list of packets.
use native.Mathlib.Decide.{ℕ_discrete}
use jsmj_server.Base.{
  ℕ, ◌<◌, ◌≡◌, refl, ap, ap₂, ◌∙◌, subst, List, [], ◌∷◌, ◌++◌, arith, length, take, leb, update,
  update_self, update_ne, Option, none, some, true,
}
use jsmj_server.NetPack.{Pack, packet}
use jsmj_server.NetPack.Ring.{
  IsValid, contents, push_data-contents, push_data-IsValid, new_queue-IsValid, contents_of_new,
}
use jsmj_server.WebPack.{header_short, headersize, read_size, masking_of}
use jsmj_server.WebPack.Mask.{decoded, decode_whole}
use jsmj_server.WebPack.Socket.{
  Uncomplete, Queue, new_queue, find_uncomplete, save_uncomplete, push_data, header_entry,
  part_entry,
}
use jsmj_server.WebPack.Protocol.{Place, head, body, payload}

-- what the table says of a socket at its place
abbrev pub Tells : Place → Option Uncomplete → Type 0
Tells (head []) o = o ≡ none
Tells (head (x ∷ h)) o =
    (uc : Uncomplete) × (o ≡ some uc)
    × (uc.read ≡ none)
    × (uc.header ≡ x ∷ h)
    × (read_size (x ∷ h) ≡ header_short)
    × (length (x ∷ h) < 14)
Tells (body n mask xs) o =
    (uc : Uncomplete) × (o ≡ some uc)
    × (uc.read ≡ some (length xs))
    × (uc.pack.size ≡ n)
    × (uc.pack.buffer ≡ payload mask xs)
    × (uc.masking ≡ (decoded xs (masking_of mask)).1)
    × (length xs < n)

-- every socket stands at its place, and the packets wait in the ring
pub record Sound (places : ℕ → Place) (packets : List Pack) (q : Queue) : Type 0 where
  pub ring : IsValid q.ring
  pub waiting : contents q.ring ≡ packets
  pub told : (y : ℕ) → Tells (places y) (q.uncomplete y)

pub new_queue-Sound : Sound (λ y. head []) [] new_queue
unfolding new_queue
new_queue-Sound = record { ring = new_queue-IsValid; waiting = contents_of_new; told = λ y. refl }

-- The socket that is looked up is left between packets.
pub find_uncomplete-Sound :
    {places : ℕ → Place} {packets : List Pack} {q : Queue} (fd : ℕ)
    → Sound places packets q
    → Sound (update places fd (head [])) packets (find_uncomplete fd q).1
unfolding find_uncomplete
find_uncomplete-Sound {places} {packets} {q} fd s = record {
  ring = s.ring;
  waiting = s.waiting;
  told = λ y. elim (ℕ_discrete fd y) [
    | yes e ↦ rw (← e, update_self places fd (head []), update_self q.uncomplete fd none) refl
    | no ne ↦ rw (update_ne places (head []) ne, update_ne q.uncomplete none ne) (s.told y)
  ];
}

-- An entry that is saved brings its socket to the place that it tells.
pub save_uncomplete-Sound :
    (places : ℕ → Place) {packets : List Pack} {q : Queue} (fd : ℕ) (p : Place) (uc : Uncomplete)
    → Tells p (some uc)
    → Sound (update places fd (head [])) packets q
    → Sound (update places fd p) packets (save_uncomplete fd uc q)
unfolding save_uncomplete
save_uncomplete-Sound places {packets} {q} fd p uc now s = record {
  ring = s.ring;
  waiting = s.waiting;
  told = λ y. elim (ℕ_discrete fd y) [
    | yes e ↦ rw (← e, update_self places fd p, update_self q.uncomplete fd (some uc)) now
    | no ne ↦
        rw (update_ne places p ne, update_ne q.uncomplete (some uc) ne)
          (subst (λ x. Tells x (q.uncomplete y)) (update_ne places (head []) ne) (s.told y))
  ];
}

-- A packet that is pushed waits behind the others.
pub push_data-Sound :
    {places : ℕ → Place} {packets : List Pack} {q : Queue} (fd : ℕ) (buffer : List ℕ) (size : ℕ)
    (p : List ℕ)
    → take size buffer ≡ p
    → size ≡ length p
    → Sound places packets q
    → Sound places (packets ++ packet fd p ∷ []) (push_data fd buffer size q)
unfolding push_data
push_data-Sound {places} {packets} {q} fd buffer size p front full s = record {
  ring = push_data-IsValid fd buffer size s.ring;
  waiting =
      push_data-contents fd buffer size s.ring
      ∙ ap₂ (λ ps np. ps ++ np ∷ []) s.waiting
          (ap₂ (λ n l. record { id = fd; size = n; buffer = l }) full front);
  told = s.told;
}

-- The entry of a header that is not complete.
pub header_entry-Tells :
    (fd : ℕ) (bytes : List ℕ)
    → 0 < length bytes
    → length bytes < 14
    → read_size bytes ≡ header_short
    → (uc : Uncomplete) × (header_entry fd bytes ≡ some uc) × Tells (head bytes) (some uc)
header_entry-Tells fd [] lo hi short = absurd (omega arith)
header_entry-Tells fd (x ∷ bytes) lo hi short =
    let uc : Uncomplete = record {
      pack = record { id = fd; size = 0; buffer = [] };
      header = x ∷ bytes;
      read = none;
      masking = masking_of none;
    } in
    let room : leb (length (x ∷ bytes)) headersize ≡ true = ground (arith, hi) in
    (uc, rw room refl, (uc, refl, refl, refl, short, hi))

-- The entry of data that are not complete.
pub part_entry-Tells :
    (fd n : ℕ) (mask : Option (List ℕ)) (bytes : List ℕ)
    → length bytes < n
    → Tells (body n mask bytes) (some (part_entry fd n mask bytes))
part_entry-Tells fd n mask bytes few =
    let all = decode_whole bytes (masking_of mask) in
    (
      part_entry fd n mask bytes,
      refl,
      refl,
      refl,
      ap (λ (r : List ℕ × _). r.0) all,
      ap (λ (r : List ℕ × _). r.1) all,
      few,
    )
