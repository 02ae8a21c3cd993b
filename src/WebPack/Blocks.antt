-- ===== src/WebPack/Blocks.antt =====
-- The stream of a socket cut into blocks, through lualib-src/lua-websocketnetpack.c.
use jsmj_server.Base.{
  ℕ, ◌<◌, ◌≡◌, refl, ap, ◌∙◌, sym, subst, List, [], ◌∷◌, ◌++◌, length, update, update_self, Option,
  none, some, false, some_inj, bind_some, ◌>>=◌, map, append-nil, append_assoc,
}
use jsmj_server.NetPack.{Pack, packet, Filtered}
use jsmj_server.NetPack.Results.{in_queue, Returned}
use jsmj_server.WebPack.Socket.{Queue, new_queue, filter_data}
use jsmj_server.WebPack.Protocol.{
  Place, head, read_byte, read_bytes, read_after, read_after_nothing,
}
use jsmj_server.WebPack.Sound.{Sound, new_queue-Sound}
use jsmj_server.WebPack.Filter.{filter_data_refines}
use jsmj_server.WebPack.Client.{ClientFrame, AllSent, stream, read_bytes-stream}

-- blocks of one socket in the order of their arrival, and the results of the filter
unfoldable pub filter_blocks : ℕ → List (List ℕ) → Queue → Option (List Filtered × Queue)
unfolding filter_data
filter_blocks fd [] q = some ([], q)
filter_blocks fd (block ∷ blocks) q = do
  first ← filter_data fd block false q
  later ← filter_blocks fd blocks first.1
  some (first.0 ∷ later.0, later.1)

-- the bytes of the blocks, none of which is empty
abbrev pub joined : List (List ℕ) → List ℕ
joined [] = []
joined (block ∷ blocks) = block ++ joined blocks

abbrev pub AllFilled : List (List ℕ) → Type 0
AllFilled [] = Unit
AllFilled (block ∷ blocks) = (0 < length block) × AllFilled blocks

-- The results tell the packets in order; those of a result that says so are in the queue, in order too.
abbrev pub Delivers : ℕ → List Filtered → List (List ℕ) → List (List ℕ) → Type 0
Delivers fd [] ps queued = (ps ≡ []) × (queued ≡ [])
Delivers fd (result ∷ results) ps queued =
    (now : List (List ℕ)) × (later : List (List ℕ)) × (others : List (List ℕ)) × Returned fd result
      now
    × (ps ≡ now ++ later)
    × (queued ≡ in_queue result now ++ others)
    × Delivers fd results later others

-- packets before what is read later
abbrev before : List (List ℕ) → Option (Place × List (List ℕ)) → Option (Place × List (List ℕ))
before ps o = o >>= λ later. some (later.0, ps ++ later.1)

before_twice :
    (ps ps' : List (List ℕ)) (o : Option (Place × List (List ℕ)))
    → before ps (before ps' o) ≡ before (ps ++ ps') o
before_twice ps ps' none = refl
before_twice ps ps' (some l) = ap (λ z. some (l.0, z)) (sym (append_assoc ps ps' l.1))

-- It does not matter where a stream is cut.
read_bytes-append :
    (p : Place) (xs ys : List ℕ)
    → read_bytes p (xs ++ ys) ≡ (read_bytes p xs >>= λ r. read_after r ys)
unfolding read_bytes
read_bytes-append p [] ys = sym (read_after_nothing p ys)
read_bytes-append p (x ∷ xs) ys = go (read_byte p x) (λ p'. read_bytes-append p' xs ys)
  where
    past :
        (ps : List (List ℕ)) (o : Option (Place × List (List ℕ)))
        → before ps (o >>= λ r. read_after r ys) ≡ (before ps o >>= λ r. read_after r ys)
    past ps none = refl
    past ps (some r) = before_twice ps r.1 (read_bytes r.0 ys)

    go :
        (o : Option (Place × List (List ℕ)))
        → ((p' : Place) → read_bytes p' (xs ++ ys) ≡ (read_bytes p' xs >>= λ r. read_after r ys))
        → (o >>= λ first. read_after first (xs ++ ys))
          ≡ ((o >>= λ first. read_after first xs) >>= λ r. read_after r ys)
    go none ih = refl
    go (some first) ih = ap (before first.1) (ih first.0) ∙ past first.1 (read_bytes first.0 xs)

-- the outcome of blocks, from the packets that waited before
abbrev pub Outcome : ℕ → List Pack → Place × List (List ℕ) → Option (List Filtered × Queue) → Type 0
Outcome fd packets r x =
    (results : List Filtered) × (q : Queue) × (queued : List (List ℕ)) × (places : ℕ → Place) × (x
      ≡ some (results, q))
    × Delivers fd results r.1 queued
    × Sound places (packets ++ map (packet fd) queued) q
    × (places fd ≡ r.0)

map-append :
    (fd : ℕ) (xs ys : List (List ℕ))
    → map (packet fd) (xs ++ ys) ≡ map (packet fd) xs ++ map (packet fd) ys
map-append fd [] ys = refl
map-append fd (x ∷ xs) ys = ap (λ l. packet fd x ∷ l) (map-append fd xs ys)

filter_blocks_lem :
    (fd : ℕ) (blocks : List (List ℕ)) (places : ℕ → Place) (packets : List Pack) (q : Queue)
    (r : Place × List (List ℕ))
    → Sound places packets q
    → AllFilled blocks
    → read_bytes (places fd) (joined blocks) ≡ some r
    → Outcome fd packets r (filter_blocks fd blocks q)
unfolding filter_blocks read_bytes
filter_blocks_lem fd [] places packets q r s filled run =
    let e : (places fd, []) ≡ r = some_inj run in
    (
      [],
      q,
      [],
      places,
      refl,
      (ap (λ (x : Place × List (List ℕ)). x.1) (sym e), refl),
      subst (λ l. Sound places l q) (sym (append-nil packets)) s,
      ap (λ (x : Place × List (List ℕ)). x.0) e,
    )
filter_blocks_lem fd (block ∷ blocks) places packets q r s filled run =
    let cut =
      bind_some (read_bytes (places fd) block) (λ r. read_after r (joined blocks))
        (sym (read_bytes-append (places fd) block (joined blocks)) ∙ run) in
    let first = cut.0 in
    let f = filter_data_refines places packets fd block q first s filled.0 cut.1 in
    let behind =
      bind_some (read_bytes first.0 (joined blocks)) (λ later. some (later.0, first.1 ++ later.1))
        cut.2 in
    let at : update places fd first.0 fd ≡ first.0 = update_self places fd first.0 in
    let packets' = packets ++ map (packet fd) (in_queue f.0.0 first.1) in
    let later =
      filter_blocks_lem fd blocks (update places fd first.0) packets' f.0.1 behind.0 f.3 filled.1
        (ap (λ p. read_bytes p (joined blocks)) at ∙ behind.1) in
    let whole : (behind.0.0, first.1 ++ behind.0.1) ≡ r = some_inj behind.2 in
    (
      f.0.0 ∷ later.0,
      later.1,
      in_queue f.0.0 first.1 ++ later.2,
      later.3,
      ap (λ o. o >>= λ x. filter_blocks fd blocks x.1 >>= λ l. some (x.0 ∷ l.0, l.1)) f.1
          ∙ ap (λ o. o >>= λ l. some (f.0.0 ∷ l.0, l.1)) later.4,
      (
        first.1,
        behind.0.1,
        later.2,
        f.2,
        ap (λ (x : Place × List (List ℕ)). x.1) (sym whole),
        refl,
        later.5,
      ),
      subst (λ l. Sound later.3 l later.1)
          (append_assoc packets (map (packet fd) (in_queue f.0.0 first.1)) (map (packet fd) later.2)
            ∙ ap (λ l. packets ++ l) (sym (map-append fd (in_queue f.0.0 first.1) later.2)))
          later.6,
      later.7 ∙ ap (λ (x : Place × List (List ℕ)). x.0) whole,
    )

-- From the start, frames that a client sends as whole messages (the FIN bit set, no reserved bit, an opcode other than 0),
-- each with a mask of four bytes and at most MAX_PACKSIZE bytes of data, are accepted however their stream is cut into blocks that are not empty: the results of the filter tell the data of the frames in
-- order and unmasked, those that are not returned stand in the ring in order, and the socket is left between packets.
pub filter_blocks-stream :
    (fd : ℕ) (fs : List ClientFrame) (blocks : List (List ℕ))
    → AllSent fs
    → AllFilled blocks
    → joined blocks ≡ stream fs
    → Outcome fd [] (head [], map (λ f. f.content) fs) (filter_blocks fd blocks new_queue)
filter_blocks-stream fd fs blocks sent filled arrived =
    filter_blocks_lem fd blocks (λ y. head []) [] new_queue (head [], map (λ f. f.content) fs)
      new_queue-Sound filled (ap (read_bytes (head [])) arrived ∙ read_bytes-stream fs sent)
