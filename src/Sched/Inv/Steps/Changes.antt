-- ===== src/Sched/Inv/Steps/Changes.antt =====
-- What a step that changes one queue leaves of the others.
use native.Mathlib.Decide.{ℕ_discrete}
use jsmj_server.Base.{ℕ, ◌<◌, ◌≡◌, ◌≢◌, refl, Bool, true, false, List, arith}
use jsmj_server.Mq.{MessageQueue}
use jsmj_server.GlobalMq.{Store}
use jsmj_server.GlobalMq.Chain.{Listed}
use jsmj_server.GlobalMq.Laws.{body}
use jsmj_server.Sched.{System}
use jsmj_server.Sched.Inv.{Inv, Fine, Placed, Fine-congr, places}

pub Placed-of : (q : MessageQueue) (l : Bool) (p : ℕ) → Fine q l p → 0 < p → (l ≡ true) × Placed q p
Placed-of q true p f h = (refl, f)
Placed-of q false p f h = absurd (omega arith)

pub Placed-of_live : (q : MessageQueue) (l : Bool) (p : ℕ) → Fine q l p → l ≡ true → Placed q p
Placed-of_live q true p f h = f
Placed-of_live q false p f h = cc

pub nowhere : (q : MessageQueue) (l : Bool) (p : ℕ) → Fine q l p → l ≡ false → p ≡ 0
nowhere q true p f h = cc
nowhere q false p f h = f

-- What a step leaves alone, apart from the queue `a`.
unfoldable pub Others :
    (n a : ℕ) (s : System) (xs : List ℕ) (st : Store) (hold : ℕ → List ℕ) (ys : List ℕ) → Type 0
Others n a s xs st hold ys =
    (b : ℕ)
    → b ≢ a
    → (body (st.mq b) ≡ body (s.store.mq b))
      × (st.live b ≡ s.store.live b)
      × (places n hold ys b ≡ places n s.hold xs b)

pub changed :
    {n : ℕ} {s : System} (i : Inv n s) (a : ℕ) (st : Store) (hold : ℕ → List ℕ) (ys : List ℕ)
    → Listed st ys
    → Others n a s i.listing st hold ys
    → Fine (st.mq a) (st.live a) (places n hold ys a)
    → Inv n (record { store = st; hold = hold })
unfolding Others
changed {n} {s} i a st hold ys l others f = record { listing = ys; listed = l; fine = fine }
  where
    fine : (b : ℕ) → Fine (st.mq b) (st.live b) (places n hold ys b)
    fine b = elim (ℕ_discrete b a) [
      | yes e ↦ rw e f
      | no ne ↦
          let o = others b ne in
          rw (o.1, o.2)
            (Fine-congr (s.store.mq b) (st.mq b) (s.store.live b) (places n s.hold i.listing b) o.0
              (i.fine b))
    ]
