-- ===== src/NetPack/Entries.antt =====
-- The entries of incomplete packets in skynet/lualib-src/lua-netpack.c: those of one socket, and what a search and an
-- insertion change.
use native.Mathlib.Decide.{ℕ_discrete}
use jsmj_server.Base.{
  ℕ, ◌≡◌, ◌≢◌, refl, ap, ◌∙◌, List, [], ◌∷◌, arith, ◌==◌, if◌then◌else◌, Bool-cases, inl, inr,
  update, update_self, update_ne, Option, none, some,
}
use jsmj_server.NetPack.{
  Uncomplete, Queue, hash_fd, find_in, find_uncomplete, save_uncomplete, new_queue, get_queue,
}
use jsmj_server.NetPack.Ring.{IsValid, contents}

-- the entries of the socket on a list
abbrev pub entries : ℕ → List Uncomplete → List Uncomplete
entries fd [] = []
entries fd (uc ∷ next) =
    let later = entries fd next in if uc.pack.id == fd then uc ∷ later else later

abbrev pub first_of : List Uncomplete → Option Uncomplete
first_of [] = none
first_of (uc ∷ next) = some uc

abbrev pub others_of : List Uncomplete → List Uncomplete
others_of [] = []
others_of (uc ∷ next) = next

find_in_first : (fd : ℕ) (us : List Uncomplete) → (find_in fd us).0 ≡ first_of (entries fd us)
unfolding find_in
find_in_first fd [] = refl
find_in_first fd (uc ∷ next) = elim (Bool-cases (uc.pack.id == fd)) [
  | inl here ↦ rw here refl
  | inr there ↦ rw there (find_in_first fd next)
]

find_in_others :
    (fd : ℕ) (us : List Uncomplete) → entries fd (find_in fd us).1 ≡ others_of (entries fd us)
unfolding find_in
find_in_others fd [] = refl
find_in_others fd (uc ∷ next) = elim (Bool-cases (uc.pack.id == fd)) [
  | inl here ↦ rw here refl
  | inr there ↦ rw (there, there) (find_in_others fd next)
]

find_in_keeps :
    {fd y : ℕ} (us : List Uncomplete) → y ≢ fd → entries y (find_in fd us).1 ≡ entries y us
unfolding find_in
find_in_keeps [] ne = refl
find_in_keeps {fd} {y} (uc ∷ next) ne = elim (Bool-cases (uc.pack.id == fd)) [
  | inl here ↦ ground (arith, here, ne)
  | inr there ↦ rw there (ap (λ l. if uc.pack.id == y then uc ∷ l else l) (find_in_keeps next ne))
]

-- the entries of the socket in the table
abbrev pub entries_of : ℕ → Queue → List Uncomplete
entries_of fd q = entries fd (q.hash (hash_fd fd))

-- A list of the table that is replaced by one with the same entries of `y`.
entries-update :
    (y h : ℕ) (hash : ℕ → List Uncomplete) (us : List Uncomplete)
    → entries y us ≡ entries y (hash h)
    → entries y (update hash h us (hash_fd y)) ≡ entries y (hash (hash_fd y))
entries-update y h hash us same = elim (ℕ_discrete h (hash_fd y)) [
  | yes e ↦ rw (← e, update_self hash h us) same
  | no ne ↦ rw (update_ne hash us ne) refl
]

-- `find_uncomplete` returns the first entry of the socket and takes it off; nothing else changes.
pub record IsTaken (fd : ℕ) (o : Option Queue) (r : Option Uncomplete × Option Queue) : Type 0 where
  pub found : r.0 ≡ first_of (entries_of fd (get_queue o))
  pub taken : entries_of fd (get_queue r.1) ≡ others_of (entries_of fd (get_queue o))
  pub kept : (y : ℕ) → y ≢ fd → entries_of y (get_queue r.1) ≡ entries_of y (get_queue o)
  pub packets : contents (get_queue r.1) ≡ contents (get_queue o)
  pub ring : IsValid (get_queue o) → IsValid (get_queue r.1)

pub find_uncomplete-IsTaken : (fd : ℕ) (o : Option Queue) → IsTaken fd o (find_uncomplete fd o)
unfolding find_uncomplete
find_uncomplete-IsTaken fd none =
    unfold new_queue in
    record { found = refl; taken = refl; kept = λ y ne. refl; packets = refl; ring = λ v. v }
find_uncomplete-IsTaken fd (some q) =
    let us = q.hash (hash_fd fd) in
    record {
      found = find_in_first fd us;
      taken =
          ap (entries fd) (update_self q.hash (hash_fd fd) (find_in fd us).1)
          ∙ find_in_others fd us;
      kept = λ y ne. entries-update y (hash_fd fd) q.hash (find_in fd us).1 (find_in_keeps us ne);
      packets = refl;
      ring = λ v. record { storage = v.storage; head_in = v.head_in; tail_in = v.tail_in };
    }

pub save_uncomplete_self :
    (uc : Uncomplete) (q : Queue)
    → entries_of uc.pack.id (save_uncomplete uc q) ≡ uc ∷ entries_of uc.pack.id q
unfolding save_uncomplete
save_uncomplete_self uc q =
    ap (entries uc.pack.id) (update_self q.hash (hash_fd uc.pack.id) _) ∙ ground arith

pub save_uncomplete_ne :
    {y : ℕ} (uc : Uncomplete) (q : Queue)
    → uc.pack.id ≢ y
    → entries_of y (save_uncomplete uc q) ≡ entries_of y q
unfolding save_uncomplete
save_uncomplete_ne {y} uc q ne =
    entries-update y (hash_fd uc.pack.id) q.hash (uc ∷ q.hash (hash_fd uc.pack.id))
      (ground (arith, ne))
