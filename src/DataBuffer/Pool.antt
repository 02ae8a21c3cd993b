-- ===== src/DataBuffer/Pool.antt =====
-- The pool is shared by the connections: every node of its chunks is in one buffer or on the free list, once.
use jsmj_server.Base.{
  ℕ, zero, suc, ◌+◌, ◌-◌, ◌*◌, ◌≡◌, refl, subst, ◌∙◌, Option, none, some, List, [], ◌∷◌, ◌++◌,
  arith, ltb, drop, Bool, true, false, ◌==◌, if◌then◌else◌, length, Bool-cases, some_inj, inl, inr,
}
use jsmj_server.DataBuffer.{
  Node, DataBuffer, MessagePool, ReadResult, copied, read_loop, read, push, new_node, ids_from,
  message_pool, return_message, return_all, clear,
}

-- how often the list has the number
unfoldable pub occurrences : ℕ → List ℕ → ℕ
occurrences i [] = 0
occurrences i (x ∷ xs) = if x == i then suc (occurrences i xs) else occurrences i xs

unfoldable pub node_ids : List Node → List ℕ
node_ids [] = []
node_ids (m ∷ ms) = m.id ∷ node_ids ms

-- With `others` the nodes of the other connections: a node of the chunks has one place, another number has none.
abbrev pub Conserved : List ℕ → DataBuffer → MessagePool → Type 0
Conserved others db mp =
    (i : ℕ)
    → occurrences i (node_ids db.messages) + occurrences i mp.freelist + occurrences i others
      ≡ (if ltb i (mp.chunks * message_pool) then 1 else 0)

node_ids-snoc :
    (i : ℕ) (ms : List Node) (m : Node)
    → occurrences i (node_ids (ms ++ m ∷ []))
      ≡ occurrences i (node_ids ms) + (if m.id == i then 1 else 0)
unfolding occurrences node_ids
node_ids-snoc i [] m = ground arith
node_ids-snoc i (k ∷ ms) m = ground (arith, node_ids-snoc i ms m)

occurrences-ids_from :
    (i base n : ℕ)
    → occurrences i (ids_from base n)
      ≡ (if ltb i base then 0 else if ltb i (base + n) then 1 else 0)
unfolding occurrences ids_from
occurrences-ids_from i base zero = ground arith
occurrences-ids_from i base (suc n) = ground (arith, occurrences-ids_from i (base + 1) n)

fresh_chunk :
    (i base : ℕ)
    → occurrences i (ids_from (base + 1) (message_pool - 1))
        + (if base == i then 1 else 0)
        + (if ltb i base then 1 else 0)
      ≡ (if ltb i (base + message_pool) then 1 else 0)
fresh_chunk i base = rw (occurrences-ids_from i (base + 1) (message_pool - 1)) (ground arith)

new_node-nodes :
    (i chunks : ℕ) (freelist : List ℕ)
    → let (id, mp') = new_node (record { chunks = chunks; freelist = freelist }) in
      occurrences i mp'.freelist
        + (if id == i then 1 else 0)
        + (if ltb i (chunks * message_pool) then 1 else 0)
      ≡ occurrences i freelist + (if ltb i (mp'.chunks * message_pool) then 1 else 0)
unfolding new_node occurrences
new_node-nodes i chunks (x ∷ xs) = ground arith
new_node-nodes i chunks [] =
    let next : (chunks + 1) * message_pool ≡ chunks * message_pool + message_pool = omega arith in
    rw next (fresh_chunk i (chunks * message_pool) ∙ zero_plus _)
  where
    zero_plus : (n : ℕ) → n ≡ 0 + n
    zero_plus n = omega arith

push-Conserved :
    (others : List ℕ) (block : List ℕ) (db : DataBuffer) (mp : MessagePool)
    → Conserved others db mp
    → let (db', mp') = push block db mp in Conserved others db' mp'
unfolding push
push-Conserved others block db mp c i = omega (
  arith,
  c i,
  new_node-nodes i mp.chunks mp.freelist,
  node_ids-snoc i db.messages (record { id = (new_node mp).0; bytes = block }),
)

return_all-freelist :
    (i : ℕ) (ms : List Node) (mp : MessagePool)
    → (occurrences i (return_all ms mp).freelist
        ≡ occurrences i (node_ids ms) + occurrences i mp.freelist)
      × ((return_all ms mp).chunks ≡ mp.chunks)
unfolding occurrences node_ids return_all
return_all-freelist i [] mp = (omega arith, refl)
return_all-freelist i (m ∷ ms) mp =
    let (a, b) = return_all-freelist i ms (return_message m mp) in (ground (arith, a), b)

-- Whatever the loop returns, it keeps the nodes of the list and of the pool.
abbrev KeepsNodes : ℕ → List Node → MessagePool → Option ReadResult → Type 0
KeepsNodes i ms mp none = Unit
KeepsNodes i ms mp (some r) =
    (occurrences i (node_ids r.rest) + occurrences i r.pool.freelist
      ≡ occurrences i (node_ids ms) + occurrences i mp.freelist)
    × (r.pool.chunks ≡ mp.chunks)

read_loop-KeepsNodes :
    (i : ℕ) (ms : List Node) (offset sz : ℕ) (mp : MessagePool)
    → KeepsNodes i ms mp (read_loop ms offset sz mp)
unfolding read_loop copied occurrences node_ids
read_loop-KeepsNodes i [] offset sz mp = tt
read_loop-KeepsNodes i (m ∷ ms) offset sz mp =
    elim (Bool-cases (ltb sz (length m.bytes - offset))) [
      | inl part ↦ rw part (refl, refl)
      | inr more ↦ elim (Bool-cases (length m.bytes - offset == sz)) [
        | inl all ↦ rw (more, all) (ground arith, refl)
        | inr beyond ↦
            rw (more, beyond)
              (later (drop offset m.bytes) _ (
                read_loop-KeepsNodes i ms 0 (sz - (length m.bytes - offset)) (return_message m mp)))
      ]
    ]
  where
    later :
        (front : List ℕ) (o : Option ReadResult)
        → KeepsNodes i ms (return_message m mp) o
        → KeepsNodes i (m ∷ ms) mp (copied front o)
    later front none k = tt
    later front (some r) k = (ground (arith, k.0), k.1)

read-Conserved :
    (others : List ℕ) (sz : ℕ) (db : DataBuffer) (mp : MessagePool)
    {r : List ℕ × DataBuffer × MessagePool}
    → Conserved others db mp
    → read sz db mp ≡ some r
    → Conserved others r.1 r.2
unfolding read
read-Conserved others sz db mp {r} c e =
    by_result (ltb db.size sz) (read_loop db.messages db.offset sz mp)
      (λ i. read_loop-KeepsNodes i db.messages db.offset sz mp) e
  where
    by_result :
        (short : Bool) (o : Option ReadResult)
        → ((i : ℕ) → KeepsNodes i db.messages mp o)
        → (if short then none else elim o [
          | none ↦ none
          | some q ↦ some (
            q.bytes,
            record db { size = db.size - sz; offset = q.offset; messages = q.rest },
            q.pool,
          )
        ])
          ≡ some r
        → Conserved others r.1 r.2
    by_result true o k run = absurd cc
    by_result false none k run = absurd cc
    by_result false (some q) k run =
        subst (λ (t : List ℕ × DataBuffer × MessagePool). Conserved others t.1 t.2) (some_inj run)
          (λ i. rw (k i).1 (omega (arith, (k i).0, c i)))

clear-Conserved :
    (others : List ℕ) (db : DataBuffer) (mp : MessagePool)
    → Conserved others db mp
    → let (db', mp') = clear db mp in Conserved others db' mp'
unfolding clear node_ids occurrences
clear-Conserved others db mp c i =
    let (a, b) = return_all-freelist i db.messages mp in rw b (omega (arith, a, c i))

-- No operation on a buffer loses a node of the pool or puts one in two places, nor does one of another connection.
pub nodes-Conserved :
    (others : List ℕ) (db : DataBuffer) (mp : MessagePool)
    → Conserved others db mp
    → ((block : List ℕ) → Conserved others (push block db mp).0 (push block db mp).1)
      × ((sz : ℕ) (r : List ℕ × DataBuffer × MessagePool)
          → read sz db mp ≡ some r
          → Conserved others r.1 r.2)
      × Conserved others (clear db mp).0 (clear db mp).1
nodes-Conserved others db mp c = (
  λ block. push-Conserved others block db mp c,
  λ sz r. read-Conserved others sz db mp c,
  clear-Conserved others db mp c,
)
