-- ===== src/DataBuffer/Stream.antt =====
-- A buffer is the stream of the bytes that arrived and were not read: a push appends to it, a read takes from its
-- front, across the borders of the blocks.
use jsmj_server.Base.{
  ℕ, zero, suc, ◌+◌, ◌-◌, ◌≤◌, ◌<◌, ◌≡◌, refl, ap, sym, ◌∙◌, none, some, List, [], ◌∷◌, ◌++◌, arith,
  ltb, false, ◌==◌, length, take, drop, Bool-cases, inl, inr, append_assoc, append-nil,
  length-append, length-drop, lt→ltb,
}
use jsmj_server.DataBuffer.{
  Node, DataBuffer, MessagePool, return_message, ReadResult, copied, read_loop, read, push,
  new_node,
}

-- the bytes of the blocks in order
unfoldable pub flat : List Node → List ℕ
flat [] = []
flat (m ∷ ms) = m.bytes ++ flat ms

-- the bytes from `offset` of the first block on
unfoldable pub unread : List Node → ℕ → List ℕ
unfolding flat
unread [] offset = []
unread (m ∷ ms) offset = drop offset m.bytes ++ flat ms

abbrev pub contents : DataBuffer → List ℕ
contents db = unread db.messages db.offset

abbrev pub InHead : List Node → ℕ → Type 0
InHead [] offset = offset ≡ 0
InHead (m ∷ ms) offset = offset ≤ length m.bytes

pub record IsValid (db : DataBuffer) : Type 0 where
  pub sized : db.size ≡ length (contents db)
  pub in_head : InHead db.messages db.offset

take_of_append_le :
    (n : ℕ) (xs ys : List ℕ)
    → n ≤ length xs
    → (take n (xs ++ ys) ≡ take n xs) × (drop n (xs ++ ys) ≡ drop n xs ++ ys)
take_of_append_le zero xs ys h = (refl, refl)
take_of_append_le (suc n) [] ys h = absurd (omega arith)
take_of_append_le (suc n) (x ∷ xs) ys h =
    let (a, b) = take_of_append_le n xs ys (omega arith) in (ap (λ l. x ∷ l) a, b)

take_of_append_ge :
    (n : ℕ) (xs ys : List ℕ)
    → length xs ≤ n
    → (take n (xs ++ ys) ≡ xs ++ take (n - length xs) ys)
      × (drop n (xs ++ ys) ≡ drop (n - length xs) ys)
take_of_append_ge n [] ys h = (ap (λ k. take k ys) (omega arith), ap (λ k. drop k ys) (omega arith))
take_of_append_ge zero (x ∷ xs) ys h = absurd (omega arith)
take_of_append_ge (suc n) (x ∷ xs) ys h =
    let (a, b) = take_of_append_ge n xs ys (omega arith) in
    let e : n - length xs ≡ suc n - suc (length xs) = omega arith in rw (← e) (ap (λ l. x ∷ l) a, b)

drop_nil : (n : ℕ) → drop {A = ℕ} n [] ≡ []
drop_nil zero = refl
drop_nil (suc n) = refl

drop-drop : (a b : ℕ) (xs : List ℕ) → drop b (drop a xs) ≡ drop (a + b) xs
drop-drop zero b xs = ap (λ k. drop k xs) (omega arith)
drop-drop (suc a) b [] = drop_nil b ∙ sym (drop_nil (suc a + b))
drop-drop (suc a) b (x ∷ xs) =
    let e : suc (a + b) ≡ suc a + b = omega arith in rw (← e) (drop-drop a b xs)

unread_zero : (ms : List Node) → unread ms 0 ≡ flat ms
unfolding unread flat
unread_zero [] = refl
unread_zero (m ∷ ms) = refl

-- What a run of the loop does to the stream.
pub record Reads (ms : List Node) (offset sz : ℕ) (r : ReadResult) : Type 0 where
  pub bytes : r.bytes ≡ take sz (unread ms offset)
  pub rest : unread r.rest r.offset ≡ drop sz (unread ms offset)
  pub in_head : InHead r.rest r.offset

read_loop-Reads :
    (ms : List Node) (offset sz : ℕ) (mp : MessagePool)
    → InHead ms offset
    → 0 < sz
    → sz ≤ length (unread ms offset)
    → (r : ReadResult) × (read_loop ms offset sz mp ≡ some r) × Reads ms offset sz r
unfolding read_loop unread flat copied
read_loop-Reads [] offset sz mp h pos fits = absurd (omega arith)
read_loop-Reads (m ∷ ms) offset sz mp h pos fits =
    elim (Bool-cases (ltb sz (length m.bytes - offset))) [
      | inl part ↦ (
        record { bytes = take sz block; rest = m ∷ ms; offset = offset + sz; pool = mp },
        rw part,
        record {
          bytes = sym (cut_le sz (ground (arith, len))).0;
          rest =
              ap (λ l. l ++ flat ms) (sym (drop-drop offset sz m.bytes))
              ∙ sym (cut_le sz (ground (arith, len))).1;
          in_head = ground (arith, len);
        },
      )
      | inr more ↦ elim (Bool-cases (length m.bytes - offset == sz)) [
        | inl all ↦ (
          record { bytes = take sz block; rest = ms; offset = 0; pool = return_message m mp },
          rw (more, all),
          record {
            bytes = sym (cut_le sz (ground (arith, len))).0;
            rest =
                unread_zero ms
                ∙ sym (
                    (cut_ge sz (ground (arith, len))).1
                    ∙ ap (λ k. drop k (flat ms)) (all_read (ground arith)));
            in_head = start_of ms;
          },
        )
        | inr beyond ↦
            let left = sz - (length m.bytes - offset) in
            let (r, run, d) =
              read_loop-Reads ms 0 left (return_message m mp) (start_of ms) (ground arith)
                (omega (arith, length-append block (flat ms), len, ap length (unread_zero ms))) in
            (
              record r { bytes = block ++ r.bytes },
              rw (more, beyond, run),
              record {
                bytes = ap (λ l. block ++ l) d.bytes ∙ sym (beyond_head (ground arith)).0;
                rest = d.rest ∙ sym (beyond_head (ground arith)).1;
                in_head = d.in_head;
              },
            )
      ]
    ]
  where
    block : List ℕ
    block = drop offset m.bytes

    len : length block ≡ length m.bytes - offset
    len = length-drop offset m.bytes

    cut_le :
        (n : ℕ)
        → n ≤ length block
        → (take n (block ++ flat ms) ≡ take n block)
          × (drop n (block ++ flat ms) ≡ drop n block ++ flat ms)
    cut_le n h = take_of_append_le n block (flat ms) h

    cut_ge :
        (n : ℕ)
        → length block ≤ n
        → (take n (block ++ flat ms) ≡ block ++ take (n - length block) (flat ms))
          × (drop n (block ++ flat ms) ≡ drop (n - length block) (flat ms))
    cut_ge n h = take_of_append_ge n block (flat ms) h

    all_read : length m.bytes - offset ≡ sz → sz - length block ≡ 0
    all_read e = omega (arith, len)

    beyond_head :
        length m.bytes - offset ≤ sz
        → (take sz (block ++ flat ms)
            ≡ block ++ take (sz - (length m.bytes - offset)) (unread ms 0))
          × (drop sz (block ++ flat ms) ≡ drop (sz - (length m.bytes - offset)) (unread ms 0))
    beyond_head h = rw (unread_zero ms, ← len) (cut_ge sz (omega (arith, len)))

    start_of : (ks : List Node) → InHead ks 0
    start_of [] = refl
    start_of (k ∷ ks) = omega arith

-- `databuffer_read` of at least one byte that is there succeeds: it returns the first bytes of the stream across the
-- blocks, leaves the rest of the stream and the header, and keeps the invariant.
pub read_lem :
    (sz : ℕ) (db : DataBuffer) (mp : MessagePool)
    → IsValid db
    → 0 < sz
    → sz ≤ length (contents db)
    → (r : List ℕ × DataBuffer × MessagePool) × (read sz db mp ≡ some r)
      × (r.0 ≡ take sz (contents db))
      × (contents r.1 ≡ drop sz (contents db))
      × (r.1.header ≡ db.header)
      × IsValid r.1
unfolding read
read_lem sz db mp v pos fits =
    let (r, run, d) = read_loop-Reads db.messages db.offset sz mp v.in_head pos fits in
    (
      (r.bytes, record db { size = db.size - sz; offset = r.offset; messages = r.rest }, r.pool),
      rw (enough, run),
      d.bytes,
      d.rest,
      refl,
      record {
        sized = omega (arith, v.sized, ap length d.rest, length-drop sz (contents db));
        in_head = d.in_head;
      },
    )
  where
    enough : ltb db.size sz ≡ false
    enough = ground (arith, v.sized)

-- A read of more than has arrived fails the assertion.
pub read_short :
    (sz : ℕ) (db : DataBuffer) (mp : MessagePool)
    → IsValid db
    → length (contents db) < sz
    → read sz db mp ≡ none
unfolding read
read_short sz db mp v h = rw (lt→ltb db.size sz (omega (arith, v.sized)))

flat-append : (ms ks : List Node) → flat (ms ++ ks) ≡ flat ms ++ flat ks
unfolding flat
flat-append [] ks = refl
flat-append (m ∷ ms) ks = rw (flat-append ms ks) (sym (append_assoc m.bytes (flat ms) (flat ks)))

unread_snoc :
    (ms : List Node) (offset : ℕ) (m : Node)
    → InHead ms offset
    → unread (ms ++ m ∷ []) offset ≡ unread ms offset ++ m.bytes
unfolding unread flat
unread_snoc [] offset m h = rw (h, append-nil) refl
unread_snoc (k ∷ ms) offset m h =
    ap (λ l. drop offset k.bytes ++ l) (flat-append ms (m ∷ []))
    ∙ rw append-nil (sym (append_assoc (drop offset k.bytes) (flat ms) m.bytes))

-- `databuffer_push` appends its block to the stream, keeps the header and the invariant.
pub push_lem :
    (block : List ℕ) (db : DataBuffer) (mp : MessagePool)
    → IsValid db
    → let (db', _) = push block db mp in
      (contents db' ≡ contents db ++ block) × (db'.header ≡ db.header) × IsValid db'
unfolding push
push_lem block db mp v =
    let m : Node = record { id = (new_node mp).0; bytes = block } in
    let stream = unread_snoc db.messages db.offset m v.in_head in
    (
      stream,
      refl,
      record {
        sized = omega (arith, v.sized, ap length stream, length-append (contents db) block);
        in_head = still db.messages v.in_head;
      },
    )
  where
    still :
        (ms : List Node)
        → InHead ms db.offset
        → InHead (ms ++ record { id = (new_node mp).0; bytes = block } ∷ []) db.offset
    still [] h = omega arith
    still (k ∷ ms) h = h
