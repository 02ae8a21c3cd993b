-- ===== src/Sched/Inv/Steps/Moves.antt =====
-- The steps that move a queue between the global queue and a thread.
use jsmj_server.Base.{ℕ, ◌<◌, ◌≡◌, ap, some, List, [], ◌∷◌, ◌++◌, arith}
use jsmj_server.GlobalMq.{Store, update, globalmq_push, globalmq_pop}
use jsmj_server.GlobalMq.Chain.{Listed, listings, listings-append}
use jsmj_server.GlobalMq.Laws.{Same, globalmq_push-result, globalmq_pop-result}
use jsmj_server.Sched.{System}
use jsmj_server.Sched.Places.{held-update, listings-le-held}
use jsmj_server.Sched.Inv.{Inv, Fine-congr, places, places-le-one}

-- A queue that stands at as many places as before, with its fields as before, is fine.
moved :
    {n : ℕ} {s : System} (i : Inv n s) (st : Store) (hold : ℕ → List ℕ) (xs : List ℕ)
    → Listed st xs
    → Same s.store st
    → ((b : ℕ) → places n hold xs b ≡ places n s.hold i.listing b)
    → Inv n (record { store = st; hold = hold })
moved {n} {s} i st hold xs l same p = record {
  listing = xs;
  listed = l;
  fine = λ b.
      rw (p b, same.lives)
        (Fine-congr (s.store.mq b) (st.mq b) (s.store.live b) (places n s.hold i.listing b)
          (same.bodies b) (i.fine b));
}

-- What a thread holds is not on the global queue.
pub off_list :
    {n t : ℕ} {s : System} (i : Inv n s) (a : ℕ)
    → t < n
    → 0 < listings a (s.hold t)
    → listings a i.listing ≡ 0
off_list {n} {t} {s} i a lt h = omega (
  arith,
  listings-le-held n t s.hold a lt,
  places-le-one (s.store.mq a) (s.store.live a) (places n s.hold i.listing a) (i.fine a),
)

module _ {n : ℕ} {s : System} (i : Inv n s) (t a : ℕ) {st : Store} (lt : t < n) where
  pub launch-Inv :
      s.hold t ≡ a ∷ []
      → globalmq_push a s.store ≡ some st
      → Inv n (record { store = st; hold = update s.hold t [] })
  launch-Inv h e =
      let (l, same) = globalmq_push-result a i.listed (off_list i a lt (rw h (ground arith))) e in
      moved i st (update s.hold t []) (i.listing ++ a ∷ []) l same (λ b. omega (
        arith,
        listings-append b i.listing (a ∷ []),
        held-update n t s.hold [] b lt,
        ap (listings b) h,
      ))

  pub fetch-Inv :
      s.hold t ≡ []
      → globalmq_pop s.store ≡ some (some a, st)
      → Inv n (record { store = st; hold = update s.hold t (a ∷ []) })
  fetch-Inv h e =
      let (ys, was, l, same) = globalmq_pop-result i.listing a i.listed e in
      moved i st (update s.hold t (a ∷ [])) ys l same (λ b.
        omega (arith, ap (listings b) was, held-update n t s.hold (a ∷ []) b lt, ap (listings b) h))

  pub swap-Inv :
      (b : ℕ)
      → s.hold t ≡ a ∷ []
      → globalmq_pop s.store ≡ some (some b, st)
      → Inv n (record { store = st; hold = update s.hold t (b ∷ a ∷ []) })
  swap-Inv b h e =
      let (ys, was, l, same) = globalmq_pop-result i.listing b i.listed e in
      moved i st (update s.hold t (b ∷ a ∷ [])) ys l same (λ c.
        omega
          (arith, ap (listings c) was, held-update n t s.hold (b ∷ a ∷ []) c lt, ap (listings c) h))

  pub yield_queue-Inv :
      (b : ℕ)
      → s.hold t ≡ b ∷ a ∷ []
      → globalmq_push a s.store ≡ some st
      → Inv n (record { store = st; hold = update s.hold t (b ∷ []) })
  yield_queue-Inv b h e =
      let (l, same) = globalmq_push-result a i.listed (off_list i a lt (rw h (ground arith))) e in
      moved i st (update s.hold t (b ∷ [])) (i.listing ++ a ∷ []) l same (λ c. omega (
        arith,
        listings-append c i.listing (a ∷ []),
        held-update n t s.hold (b ∷ []) c lt,
        ap (listings c) h,
      ))
