-- ===== src/Thread/Carry.antt =====
-- agentThread.ts: the cards that a reader still has open, over a refresh of the transcript.
pub mod Adds
pub mod Laws
use cubestack.Prelude.{
  is_empty, ℕ, zero, suc, ◌-◌, min, Text, text_eq, Bool, true, false, not, Option, none, some, List,
  [], ◌∷◌, ◌++◌, map, any, filter, length, get_elem?, update_at, includes, if◌then◌else◌, ◌&&◌,
}
use cubestack.Thread.{Entry, AgentMsg, AgentApproval, AgentQuestion}
use cubestack.Thread.Cards.{add_approval, open_approvals, open_questions}

-- `approvals.reduce(addApproval, msg)`
abbrev pub add_approvals : AgentMsg → List AgentApproval → AgentMsg
add_approvals msg [] = msg
add_approvals msg (a ∷ cards) = add_approvals (add_approval msg a) cards

abbrev pub question_ids : List AgentQuestion → List Text
question_ids qs = map (λ q. q.call_id) qs

-- With nothing to add the message is the same, as it is with an empty list added.
abbrev pub add_questions : AgentMsg → List AgentQuestion → AgentMsg
add_questions msg cards = record msg {
  questions =
      msg.questions ++ filter (λ q. not (includes (question_ids msg.questions) q.call_id)) cards;
}

unfoldable pub merge_open_cards : AgentMsg → List AgentApproval → List AgentQuestion → AgentMsg
merge_open_cards msg approvals questions = add_questions (add_approvals msg approvals) questions

module _ {ℓ} {A : Type ℓ} where
  abbrev pub agent_indices : ℕ → List (Entry A) → List ℕ
  agent_indices i [] = []
  agent_indices i (Entry.agent m ∷ es) = i ∷ agent_indices (suc i) es
  agent_indices i (Entry.other a ∷ es) = agent_indices (suc i) es

  abbrev pub agents : List (Entry A) → List AgentMsg
  agents [] = []
  agents (Entry.agent m ∷ es) = m ∷ agents es
  agents (Entry.other a ∷ es) = agents es

  abbrev pub merge_entry : AgentMsg → Entry A → Entry A
  merge_entry from (Entry.agent m) =
      Entry.agent (merge_open_cards m (open_approvals from) (open_questions from))
  merge_entry from (Entry.other a) = Entry.other a

  abbrev pub write_at : AgentMsg → List (Entry A) → Option ℕ → List (Entry A)
  write_at from out none = out
  write_at from out (some at) = update_at at (merge_entry from) out

  -- The body of `agents.forEach`, at the i-th agent turn.
  pub carry_turn : List ℕ → ℕ → AgentMsg → List (Entry A) → List (Entry A)
  carry_turn idx i from out =
      if is_empty (open_approvals from) && is_empty (open_questions from)
      then out
      else write_at from out (get_elem? idx (min i (length idx - 1)))

  pub carry_turns : List ℕ → ℕ → List AgentMsg → List (Entry A) → List (Entry A)
  unfolding carry_turn
  carry_turns idx i [] out = out
  carry_turns idx i (from ∷ rest) out = carry_turns idx (suc i) rest (carry_turn idx i from out)

  unfoldable pub carry_open_cards : List (Entry A) → List (Entry A) → List (Entry A)
  unfolding carry_turns
  carry_open_cards prev next =
      if is_empty (agent_indices 0 next)
      then next
      else carry_turns (agent_indices 0 next) 0 (agents prev) next
