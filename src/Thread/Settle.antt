-- ===== src/Thread/Settle.antt =====
-- agentThread.ts: the cards that a read of the pending collection no longer carries.
pub mod Laws
use cubestack.Prelude.{
  Text, Bool, true, false, not, ◌&&◌, List, [], ◌∷◌, ◌++◌, map, includes, if◌then◌else◌,
}
use cubestack.Thread.{Entry, AgentMsg, AgentApproval, ApprovalState, AgentQuestion, QuestionState}
use cubestack.Thread.Cards.{open_approvals, open_questions}

pub data CardKind : Type 0 where
  approvals questions : CardKind

abbrev pub is_pending_approval : ApprovalState → Bool
is_pending_approval ApprovalState.pending = true
is_pending_approval _ = false

abbrev pub is_pending_question : QuestionState → Bool
is_pending_question QuestionState.pending = true
is_pending_question _ = false

module _ (pending before : List Text) where
  abbrev pub gone : Bool → Text → Bool
  gone is_pending id = is_pending && includes before id && not (includes pending id)

  abbrev pub settle_approval : AgentApproval → AgentApproval
  settle_approval a =
      if gone (is_pending_approval a.state) a.call_id
      then record a { state = ApprovalState.stopped }
      else a

  abbrev pub settle_question : AgentQuestion → AgentQuestion
  settle_question q =
      if gone (is_pending_question q.state) q.call_id
      then record q { state = QuestionState.expired }
      else q

  abbrev pub settle_entry {ℓ} : {A : Type ℓ} → CardKind → Entry A → Entry A
  settle_entry kind (Entry.other a) = Entry.other a
  settle_entry CardKind.approvals (Entry.agent m) =
      Entry.agent (record m { approvals = map settle_approval m.approvals })
  settle_entry CardKind.questions (Entry.agent m) =
      Entry.agent (record m { questions = map settle_question m.questions })

-- A thread in which nothing settles is the same thread: its entries are equal one by one.
unfoldable pub settle_cards_absent {ℓ} :
    {A : Type ℓ} → List (Entry A) → CardKind → List Text → List Text → List (Entry A)
settle_cards_absent msgs kind pending before = map (settle_entry pending before kind) msgs

abbrev pub open_approval_ids {ℓ} : {A : Type ℓ} → List (Entry A) → List Text
open_approval_ids [] = []
open_approval_ids (Entry.other a ∷ es) = open_approval_ids es
open_approval_ids (Entry.agent m ∷ es) =
    map (λ a. a.call_id) (open_approvals m) ++ open_approval_ids es

abbrev pub open_question_ids {ℓ} : {A : Type ℓ} → List (Entry A) → List Text
open_question_ids [] = []
open_question_ids (Entry.other a ∷ es) = open_question_ids es
open_question_ids (Entry.agent m ∷ es) =
    map (λ q. q.call_id) (open_questions m) ++ open_question_ids es

-- `openCardIds(msgs)`: the sets as lists
unfoldable pub open_card_ids {ℓ} : {A : Type ℓ} → List (Entry A) → List Text × List Text
open_card_ids msgs = (open_approval_ids msgs, open_question_ids msgs)
