-- ===== src/Thread.antt =====
-- web/lib/cubepilot/agentThread.ts: the data of an agent conversation. The functions over it stand
-- in the modules below.
pub mod Narration
pub mod Tools
pub mod Args
pub mod Cards
pub mod Fold
pub mod Select
pub mod View
pub mod Carry
pub mod Settle
pub mod History
mod Tests
use cubestack.Prelude.{ℕ, zero, suc, Text, Bool, true, false, Option, none, List, []}

pub data AgentPhase : Type 0 where
  thinking tools streaming done : AgentPhase

pub record TextBlock : Type 0 where
  pub text : Text
  pub superseded : Option (List Text)
  pub block_id : Option Text

pub record ToolBlock : Type 0 where
  pub call_id : Option Text
  pub name : Text
  pub args : Option Text
  pub output : Option Text
  pub done : Bool

pub data AgentBlock : Type 0 where
  text : TextBlock → AgentBlock
  tool : ToolBlock → AgentBlock

-- `blocks.length - 1`, which is -1 on an empty turn.
pub data BlockIndex : Type 0 where
  before_first : BlockIndex
  at_block : ℕ → BlockIndex

pub data ApprovalState : Type 0 where
  pending deciding approved rejected stopped : ApprovalState

pub record AgentApproval : Type 0 where
  pub call_id : Text
  pub name : Option Text
  pub command : Option Text
  pub level : Option Text
  pub message : Option Text
  pub state : ApprovalState
  pub error : Option Text
  pub after_block : Option BlockIndex
  pub created_at_ms : Option ℕ
  pub expires_at_ms : Option ℕ

pub record QuestionOption : Type 0 where
  pub label : Text
  pub description : Option Text

pub record QuestionItem : Type 0 where
  pub question_id : Text
  pub header : Option Text
  pub question : Text
  pub options : Option (List QuestionOption)
  pub multi_select : Option Bool
  pub is_other : Option Bool

pub data QuestionState : Type 0 where
  pending submitting answered cancelled expired : QuestionState

pub record AgentQuestion : Type 0 where
  pub call_id : Text
  pub questions : List QuestionItem
  pub state : QuestionState
  pub after_block : Option BlockIndex
  pub deadline : Option ℕ
  -- `Record<string, string[]>`, in the order of its keys
  pub answers : Option (List (Text × List Text))
  pub error : Option Text

pub record AgentMsg : Type 0 where
  pub id : ℕ
  pub blocks : List AgentBlock
  pub approvals : List AgentApproval
  pub questions : List AgentQuestion
  pub phase : AgentPhase
  pub phase_at : ℕ
  pub error : Option Text
  pub stopped : Option Bool
  pub transport_lost : Option Text

-- One entry of a thread: an agent turn (role "agent"), or an entry of another role.
pub data Entry {ℓ} (A : Type ℓ) : Type ℓ where
  agent : AgentMsg → Entry A
  other : A → Entry A

pub record UserMsg : Type 0 where
  pub id : ℕ
  pub text : Text

abbrev pub ThreadMsg : Type 0
ThreadMsg = Entry UserMsg

unfoldable pub new_agent_msg : ℕ → ℕ → AgentMsg
new_agent_msg id now = record {
  id = id;
  blocks = [];
  approvals = [];
  questions = [];
  phase = AgentPhase.thinking;
  phase_at = now;
  error = none;
  stopped = none;
  transport_lost = none;
}

abbrev pub same_phase : AgentPhase → AgentPhase → Bool
same_phase AgentPhase.thinking AgentPhase.thinking = true
same_phase AgentPhase.tools AgentPhase.tools = true
same_phase AgentPhase.streaming AgentPhase.streaming = true
same_phase AgentPhase.done AgentPhase.done = true
same_phase _ _ = false

abbrev pub last_index : ℕ → BlockIndex
last_index zero = BlockIndex.before_first
last_index (suc n) = BlockIndex.at_block n

abbrev pub is_tool : AgentBlock → Bool
is_tool (AgentBlock.tool b) = true
is_tool (AgentBlock.text b) = false
