-- ===== src/Timer/Count.antt =====
-- Counting a node in a list of the wheel, and what `link_clear`, `link` and `move_list` do to the counts.
use jsmj_server.Base.{
  ℕ, ◌+◌, ◌<◌, ◌≡◌, ◌↔◌, inl, inr, refl, ap, ◌∙◌, Bool, true, List, [], ◌∷◌, ◌++◌, arith, ◌==◌,
  ◌&&◌, if◌then◌else◌, Bool-cases,
}
use jsmj_server.Timer.{TimerNode, Slot, near, far, same_slot, Timer, place, add_node, add_nodes}

pub same_slot_iff : (p q : Slot) → (same_slot p q ≡ true) ↔ (p ≡ q)
same_slot_iff (near a) (near b) = ground arith
same_slot_iff (near a) (far l b) = ground arith
same_slot_iff (far k a) (near b) = ground arith
same_slot_iff (far k a) (far l b) = ground arith

abbrev pub same_node : TimerNode → TimerNode → Bool
same_node x y = x.expire == y.expire && (x.handle == y.handle && x.session == y.session)

pub same_node_iff : (x y : TimerNode) → (same_node x y ≡ true) ↔ (x ≡ y)
same_node_iff x y = (λ h. ground arith, λ h. rw h (ground arith))

abbrev pub count : TimerNode → List TimerNode → ℕ
count x [] = 0
count x (y ∷ ys) = (if same_node x y then 1 else 0) + count x ys

pub count-append :
    (x : TimerNode) (xs ys : List TimerNode) → count x (xs ++ ys) ≡ count x xs + count x ys
count-append x [] ys = omega arith
count-append x (y ∷ xs) ys = omega (arith, count-append x xs ys)

abbrev pub All {ℓ} : (TimerNode → Type ℓ) → List TimerNode → Type ℓ
All P [] = Unit
All P (x ∷ xs) = P x × All P xs

pub All-imp {ℓ κ} :
    (P : TimerNode → Type ℓ) (Q : TimerNode → Type κ) (l : List TimerNode)
    → ((x : TimerNode) → P x → Q x)
    → All P l
    → All Q l
All-imp P Q [] f h = tt
All-imp P Q (x ∷ xs) f h = (f x h.0, All-imp P Q xs f h.1)

pub All-append {ℓ} :
    (P : TimerNode → Type ℓ) (l : List TimerNode) (x : TimerNode)
    → All P l
    → P x
    → All P (l ++ x ∷ [])
All-append P [] x h p = (p, tt)
All-append P (y ∷ ys) x h p = (h.0, All-append P ys x h.1 p)

-- A node that is counted has what all the nodes of the list have.
pub All-count {ℓ} :
    (P : TimerNode → Type ℓ) (x : TimerNode) (l : List TimerNode) → All P l → 0 < count x l → P x
All-count P x [] h c = absurd (omega arith)
All-count P x (y ∷ ys) h c = elim (Bool-cases (same_node x y)) [
  | inl e ↦ rw ((same_node_iff x y).0 e) h.0
  | inr ne ↦ All-count P x ys h.1 (ground arith)
]

-- `move_list` adds each node to the list of its place, and leaves the time.
pub count-add_nodes :
    (x : TimerNode) (l : List TimerNode) (T : Timer) (p : Slot)
    → count x ((add_nodes l T).lists p)
      ≡ count x (T.lists p) + (if same_slot (place x.expire T.time) p then count x l else 0)
unfolding add_nodes add_node
count-add_nodes x [] T p = ground arith
count-add_nodes x (y ∷ ys) T p =
    count-add_nodes x ys (add_node y T) p ∙ elim (Bool-cases (same_node x y)) [
      | inl e ↦ ground (
        arith,
        count-append x (T.lists p) (y ∷ []),
        ap (λ (n : TimerNode). place n.expire T.time) ((same_node_iff x y).0 e),
      )
      | inr ne ↦ ground (arith, count-append x (T.lists p) (y ∷ []))
    ]

pub time-add_nodes : (l : List TimerNode) (T : Timer) → (add_nodes l T).time ≡ T.time
unfolding add_nodes add_node
time-add_nodes [] T = refl
time-add_nodes (y ∷ ys) T = time-add_nodes ys (add_node y T)
