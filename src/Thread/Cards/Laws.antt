-- ===== src/Thread/Cards/Laws.antt =====
-- One card for each approval.
use cubestack.Prelude.{
  ◌≡◌, refl, false, ◌||◌, List, [], ◌∷◌, ◌++◌, arith, Text, text_eq_iff, map, Bool-cases, inl, inr,
}
use cubestack.Thread.{AgentApproval, AgentMsg}
use cubestack.Thread.Cards.{has_approval, add_approval}

-- No two cards have one id.
abbrev pub Distinct : List AgentApproval → Type 0
Distinct [] = Unit
Distinct (a ∷ cards) = (has_approval cards a.call_id ≡ false) × Distinct cards

pub has_approval-append :
    (xs ys : List AgentApproval) (id : Text)
    → has_approval (xs ++ ys) id ≡ (has_approval xs id || has_approval ys id)
has_approval-append [] ys id = refl
has_approval-append (x ∷ xs) ys id = ground (arith, has_approval-append xs ys id)

Distinct-append :
    (xs : List AgentApproval) (a : AgentApproval)
    → Distinct xs
    → has_approval xs a.call_id ≡ false
    → Distinct (xs ++ a ∷ [])
Distinct-append [] a d h = (refl, tt)
Distinct-append (x ∷ xs) a (n, d) h = (
  ground (
    arith,
    has_approval-append xs (a ∷ []) x.call_id,
    text_eq_iff a.call_id x.call_id,
    text_eq_iff x.call_id a.call_id,
  ),
  Distinct-append xs a d (ground arith),
)

pub add_approval-Distinct :
    (msg : AgentMsg) (card : AgentApproval)
    → Distinct msg.approvals
    → Distinct (add_approval msg card).approvals
unfolding add_approval
add_approval-Distinct msg card d = elim (Bool-cases (has_approval msg.approvals card.call_id)) [
  | inl h ↦ rw h d
  | inr h ↦ rw h (Distinct-append msg.approvals card d h)
]

-- A change of state, or of anything but the id, keeps the ids.
pub has_approval-map :
    (f : AgentApproval → AgentApproval)
    → ((a : AgentApproval) → (f a).call_id ≡ a.call_id)
    → (cards : List AgentApproval) (id : Text)
    → has_approval (map f cards) id ≡ has_approval cards id
has_approval-map f keep [] id = refl
has_approval-map f keep (a ∷ cards) id = rw (keep a, has_approval-map f keep cards id)

pub Distinct-map :
    (f : AgentApproval → AgentApproval)
    → ((a : AgentApproval) → (f a).call_id ≡ a.call_id)
    → (cards : List AgentApproval) → Distinct cards
    → Distinct (map f cards)
Distinct-map f keep [] d = tt
Distinct-map f keep (a ∷ cards) (n, d) =
    (rw (keep a, has_approval-map f keep cards a.call_id) n, Distinct-map f keep cards d)
