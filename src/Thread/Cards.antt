-- ===== src/Thread/Cards.antt =====
-- agentThread.ts: the cards of a turn, which hold a write or a question for the user.
pub mod Laws
use cubestack.Prelude.{
  ℕ, zero, suc, ◌+◌, ◌*◌, ◌-◌, ◌/◌, Text, codes, text_eq, Bool, true, false, Option, none, some,
  List, [], ◌∷◌, ◌++◌, any, filter, includes, map, if◌then◌else◌, ◌==◌,
}
use cubestack.Thread.{
  AgentApproval, ApprovalState, AgentQuestion, QuestionState, QuestionItem, BlockIndex, AgentMsg,
}

-- What either channel says of an approval, the id under one name.
pub record ApprovalWire : Type 0 where
  pub approval_id : Text
  pub name : Option Text
  pub command : Option Text
  pub level : Option Text
  pub message : Option Text
  pub after_block : Option BlockIndex
  pub created_at_ms : Option ℕ
  pub expires_at_ms : Option ℕ

unfoldable pub new_approval : ApprovalWire → AgentApproval
new_approval wire = record {
  call_id = wire.approval_id;
  name = wire.name;
  command = wire.command;
  level = wire.level;
  message = wire.message;
  state = ApprovalState.pending;
  error = none;
  after_block = wire.after_block;
  created_at_ms = wire.created_at_ms;
  expires_at_ms = wire.expires_at_ms;
}

abbrev pub has_approval : List AgentApproval → Text → Bool
has_approval cards id = any (λ a. text_eq a.call_id id) cards

unfoldable pub add_approval : AgentMsg → AgentApproval → AgentMsg
add_approval msg card =
    if has_approval msg.approvals card.call_id
    then msg
    else record msg { approvals = msg.approvals ++ card ∷ [] }

-- `timeoutSeconds ? { deadline: now + timeoutSeconds * 1000 } : {}`
abbrev pub deadline_of : Option ℕ → ℕ → Option ℕ
deadline_of none now = none
deadline_of (some zero) now = none
deadline_of (some (suc n)) now = some (now + suc n * 1000)

unfoldable pub new_question :
    Text → List QuestionItem → Option ℕ → ℕ → Option BlockIndex → AgentQuestion
new_question call_id questions timeout now after_block = record {
  call_id = call_id;
  questions = questions;
  state = QuestionState.pending;
  after_block = after_block;
  deadline = deadline_of timeout now;
  answers = none;
  error = none;
}

unfoldable pub resolve_outcome : Option Text → QuestionState
resolve_outcome none = QuestionState.answered
resolve_outcome (some message) =
    if text_eq message (codes "cancelled")
    then QuestionState.cancelled
    else if text_eq message (codes "expired")
    then QuestionState.expired
    else QuestionState.answered

abbrev pub is_open_approval : ApprovalState → Bool
is_open_approval ApprovalState.pending = true
is_open_approval ApprovalState.deciding = true
is_open_approval _ = false

abbrev pub is_open_question : QuestionState → Bool
is_open_question QuestionState.pending = true
is_open_question QuestionState.submitting = true
is_open_question _ = false

unfoldable pub open_approvals : AgentMsg → List AgentApproval
open_approvals msg = filter (λ a. is_open_approval a.state) msg.approvals

unfoldable pub open_questions : AgentMsg → List AgentQuestion
open_questions msg = filter (λ q. is_open_question q.state) msg.questions

-- `Math.max(0, Math.round((until - now) / 1000))`: a half rounds up, and what is over counts as 0.
unfoldable pub seconds_left : ℕ → ℕ → ℕ
seconds_left until now = (until - now + 500) / 1000

abbrev pub left_until : Option ℕ → ℕ → Option ℕ
left_until none now = none
left_until (some until) now = some (seconds_left until now)

abbrev pub is_zero_left : Option ℕ → Bool
is_zero_left none = false
is_zero_left (some n) = n == 0

unfoldable pub remaining_seconds : AgentQuestion → ℕ → Option ℕ
unfolding seconds_left
remaining_seconds q now = left_until q.deadline now

unfoldable pub is_expiring : AgentQuestion → ℕ → Bool
unfolding remaining_seconds
is_expiring q now =
    if is_open_question q.state then is_zero_left (remaining_seconds q now) else false

unfoldable pub approval_seconds_left : AgentApproval → ℕ → Option ℕ
unfolding seconds_left
approval_seconds_left a now = left_until a.expires_at_ms now

unfoldable pub approval_expiring : AgentApproval → ℕ → Bool
unfolding approval_seconds_left
approval_expiring a now =
    if is_open_approval a.state then is_zero_left (approval_seconds_left a now) else false
