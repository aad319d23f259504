-- ===== src/Thread/Tools/Order.antt =====
-- Results without ids reach the calls in the order in which the calls were made.
use cubestack.Prelude.{
  ℕ, suc, zero, ◌+◌, ◌-◌, ◌≤◌, ◌<◌, ◌≡◌, refl, ap, none, some, List, [], ◌∷◌, arith, Text,
  if◌then◌else◌, Bool-cases, inl, inr, update_at, find_index, length, ◌∙◌,
}
use cubestack.Thread.{AgentBlock}
use cubestack.Thread.Tools.{by_id, by_arrival, attach_tool_result, with_result, on_tool, is_open}

abbrev pub attach_all : List AgentBlock → List Text → List AgentBlock
attach_all bs [] = bs
attach_all bs (o ∷ os) = attach_all (attach_tool_result bs none o) os

abbrev pub open_calls : List AgentBlock → ℕ
open_calls [] = 0
open_calls (AgentBlock.text b ∷ bs) = open_calls bs
open_calls (AgentBlock.tool b ∷ bs) = (if b.done then 0 else 1) + open_calls bs

-- The i-th result on the i-th open call, the texts and the finished calls as they were.
abbrev pub answer_in_order : List AgentBlock → List Text → List AgentBlock
answer_in_order [] os = []
answer_in_order (b ∷ bs) [] = b ∷ bs
answer_in_order (AgentBlock.text b ∷ bs) (o ∷ os) = AgentBlock.text b ∷ answer_in_order bs (o ∷ os)
answer_in_order (AgentBlock.tool b ∷ bs) (o ∷ os) =
    let kept = AgentBlock.tool b ∷ answer_in_order bs (o ∷ os) in
    let given = with_result o (AgentBlock.tool b) ∷ answer_in_order bs os in
    if b.done then kept else given

first_open-some :
    (bs : List AgentBlock)
    → 0 < open_calls bs
    → (i : ℕ) × (find_index (on_tool is_open) bs ≡ some i)
first_open-some [] h = absurd (omega arith)
first_open-some (AgentBlock.text b ∷ bs) h = let (i, e) = first_open-some bs h in (suc i, rw e)
first_open-some (AgentBlock.tool b ∷ bs) h = elim (Bool-cases b.done) [
  | inl d ↦ let (i, e) = first_open-some bs (ground arith) in (suc i, rw (d, e))
  | inr d ↦ (0, rw d)
]

update_first_open :
    (bs : List AgentBlock) (o : Text) (i : ℕ)
    → find_index (on_tool is_open) bs ≡ some i
    → update_at i (with_result o) bs ≡ answer_in_order bs (o ∷ [])
update_first_open [] o i h = refl
update_first_open (AgentBlock.text b ∷ bs) o zero h = absurd (ground arith)
update_first_open (AgentBlock.text b ∷ bs) o (suc i) h =
    ap (λ t. AgentBlock.text b ∷ t) (update_first_open bs o i (ground arith))
update_first_open (AgentBlock.tool b ∷ []) o i h = ground arith
update_first_open (AgentBlock.tool b ∷ c ∷ bs) o zero h = ground arith
update_first_open (AgentBlock.tool b ∷ c ∷ bs) o (suc i) h =
    ground (arith, update_first_open (c ∷ bs) o i)

attach-none :
    (bs : List AgentBlock) (o : Text)
    → 0 < open_calls bs
    → attach_tool_result bs none o ≡ answer_in_order bs (o ∷ [])
unfolding attach_tool_result by_id by_arrival
attach-none bs o h = let (i, e) = first_open-some bs h in rw e (update_first_open bs o i e)

open_calls-answer :
    (bs : List AgentBlock) (o : Text) → open_calls (answer_in_order bs (o ∷ [])) ≡ open_calls bs - 1
open_calls-answer [] o = omega arith
open_calls-answer (AgentBlock.text b ∷ bs) o = open_calls-answer bs o
open_calls-answer (AgentBlock.tool b ∷ []) o = ground arith
open_calls-answer (AgentBlock.tool b ∷ c ∷ bs) o = ground (arith, open_calls-answer (c ∷ bs) o)

answer-nil : (bs : List AgentBlock) → answer_in_order bs [] ≡ bs
answer-nil [] = refl
answer-nil (b ∷ bs) = refl

answer_in_order-step :
    (bs : List AgentBlock) (o : Text) (os : List Text)
    → answer_in_order (answer_in_order bs (o ∷ [])) os ≡ answer_in_order bs (o ∷ os)
answer_in_order-step [] o os = refl
answer_in_order-step (AgentBlock.text b ∷ bs) o [] = refl
answer_in_order-step (AgentBlock.text b ∷ bs) o (p ∷ os) =
    ap (λ t. AgentBlock.text b ∷ t) (answer_in_order-step bs o (p ∷ os))
answer_in_order-step (AgentBlock.tool b ∷ bs) o [] = answer-nil _
answer_in_order-step (AgentBlock.tool b ∷ bs) o (p ∷ os) =
    ground (arith, answer_in_order-step bs o (p ∷ os), answer-nil bs)

-- While no more results come than there are open calls, the i-th result lands on the i-th open
-- call, and nothing else changes.
pub attach_all-eq-answer_in_order :
    (bs : List AgentBlock) (os : List Text)
    → length os ≤ open_calls bs
    → attach_all bs os ≡ answer_in_order bs os
attach_all-eq-answer_in_order [] [] h = refl
attach_all-eq-answer_in_order (b ∷ bs) [] h = refl
attach_all-eq-answer_in_order bs (o ∷ os) h = rw (attach-none bs o (omega arith)) (
    attach_all-eq-answer_in_order (answer_in_order bs (o ∷ [])) os
      (omega (arith, open_calls-answer bs o))
    ∙ answer_in_order-step bs o os)
