-- ===== src/Thread/Fold.antt =====
-- agentThread.ts: the fold of one SSE event onto a turn.
pub mod WellFormed
pub mod Invariant
pub mod Terminal
use cubestack.Prelude.{
  ℕ, Text, codes, text_eq, Bool, true, false, Option, none, some, List, [], ◌∷◌, ◌++◌, map, length,
  get_or, if◌then◌else◌,
}
use cubestack.Thread.{
  AgentMsg, AgentPhase, same_phase, AgentBlock, AgentApproval, ApprovalState, AgentQuestion,
  QuestionState, QuestionItem, last_index,
}
use cubestack.Thread.Narration.{narrate, append_text, replace_text}
use cubestack.Thread.Tools.{attach_tool_result}
use cubestack.Thread.Args.{Json, JsonText, fmt_tool_args}
use cubestack.Thread.Cards.{
  new_approval, add_approval, new_question, resolve_outcome, is_open_approval, is_open_question,
}

pub record ApprovalPending : Type 0 where
  pub call_id : Text
  pub name : Option Text
  pub command : Option Text
  pub level : Option Text
  pub message : Option Text
  pub created_at_ms : Option ℕ
  pub expires_at_ms : Option ℕ

pub record QuestionPrompt : Type 0 where
  pub questions : Option (List QuestionItem)
  pub timeout_seconds : Option ℕ

-- The events of `AgentSseEvent` without their session ids, which the fold does not read. `unknown`
-- is an event of a type that this build has not been taught.
pub data AgentEvent : Type 0 where
  message_start agent_thinking unknown : AgentEvent
  message_delta text_replace : (delta : Text) → AgentEvent
  narration : (block_id text : Text) → AgentEvent
  tool_call : (name : Text) (call_id : Option Text) (arguments : Option Json) → AgentEvent
  tool_result : (call_id : Option Text) (output : Option Text) → AgentEvent
  message_done : (error : Option Text) (stopped : Option Bool) → AgentEvent
  approval_pending : ApprovalPending → AgentEvent
  approval_resolved : (call_id : Text) (approved : Option Bool) → AgentEvent
  question_pending : (call_id : Text) (question : Option QuestionPrompt) → AgentEvent
  question_resolved : (call_id : Text) (message : Option Text) → AgentEvent

unfoldable pub set_phase : AgentMsg → AgentPhase → ℕ → AgentMsg
set_phase msg phase now =
    if same_phase msg.phase phase then msg else record msg { phase = phase; phase_at = now }

-- `approved` absent means that nobody decided.
abbrev pub decided : Option Bool → ApprovalState
decided none = ApprovalState.stopped
decided (some true) = ApprovalState.approved
decided (some false) = ApprovalState.rejected

abbrev pub resolve_approval : Text → Option Bool → AgentApproval → AgentApproval
resolve_approval id answer a =
    if text_eq a.call_id id then record a { state = decided answer } else a

abbrev pub resolve_question : Text → Option Text → AgentQuestion → AgentQuestion
resolve_question id message q =
    if text_eq q.call_id id then record q { state = resolve_outcome message } else q

abbrev pub stop_approval : AgentApproval → AgentApproval
stop_approval a = if is_open_approval a.state then record a { state = ApprovalState.stopped } else a

abbrev pub cancel_question : AgentQuestion → AgentQuestion
cancel_question q =
    if is_open_question q.state then record q { state = QuestionState.cancelled } else q

-- `stopped === true`
abbrev pub is_true : Option Bool → Bool
is_true (some true) = true
is_true _ = false

-- `error || undefined`
abbrev pub non_empty : Option Text → Option Text
non_empty (some (c ∷ e)) = some (c ∷ e)
non_empty _ = none

abbrev pub prompt_questions : Option QuestionPrompt → List QuestionItem
prompt_questions none = []
prompt_questions (some p) = get_or p.questions []

abbrev pub prompt_timeout : Option QuestionPrompt → Option ℕ
prompt_timeout none = none
prompt_timeout (some p) = p.timeout_seconds

-- The case "message_done": the terminal settles both channels.
unfoldable pub finish : AgentMsg → Option Text → Option Bool → AgentMsg
finish msg error stopped = record msg {
  phase = AgentPhase.done;
  error = if is_true stopped then none else non_empty error;
  stopped = some (is_true stopped);
  approvals = map stop_approval msg.approvals;
  questions = map cancel_question msg.questions;
}

module _ (runtime : JsonText) where
  unfoldable pub apply_agent_event : AgentMsg → AgentEvent → ℕ → AgentMsg
  unfolding finish
  apply_agent_event msg AgentEvent.message_start now = set_phase msg AgentPhase.thinking now
  apply_agent_event msg AgentEvent.agent_thinking now = set_phase msg AgentPhase.thinking now
  apply_agent_event msg (AgentEvent.message_delta delta) now =
      append_text (set_phase msg AgentPhase.streaming now) delta
  apply_agent_event msg (AgentEvent.text_replace delta) now =
      replace_text (set_phase msg AgentPhase.streaming now) delta
  apply_agent_event msg (AgentEvent.narration id text) now = narrate msg id text
  apply_agent_event msg (AgentEvent.tool_call name call_id arguments) now =
      set_phase
        (record msg {
          blocks =
              msg.blocks
              ++ AgentBlock.tool (record {
                call_id = call_id;
                name = name;
                args = fmt_tool_args runtime arguments;
                output = none;
                done = false;
              })
                ∷ [];
        })
        AgentPhase.tools now
  apply_agent_event msg (AgentEvent.tool_result call_id output) now =
      set_phase (record msg { blocks = attach_tool_result msg.blocks call_id (get_or output []) })
        AgentPhase.tools now
  apply_agent_event msg (AgentEvent.approval_pending e) now =
      set_phase
        (add_approval msg (
          new_approval (record {
            approval_id = e.call_id;
            name = e.name;
            command = e.command;
            level = e.level;
            message = e.message;
            after_block = some (last_index (length msg.blocks));
            created_at_ms = e.created_at_ms;
            expires_at_ms = e.expires_at_ms;
          })))
        AgentPhase.tools now
  apply_agent_event msg (AgentEvent.approval_resolved call_id approved) now = record msg {
    approvals = map (resolve_approval call_id approved) msg.approvals;
  }
  apply_agent_event msg (AgentEvent.question_pending call_id question) now =
      set_phase
        (record msg {
          questions =
              msg.questions
              ++ new_question call_id (prompt_questions question) (prompt_timeout question) now
                  (some (last_index (length msg.blocks)))
                ∷ [];
        })
        AgentPhase.tools now
  apply_agent_event msg (AgentEvent.question_resolved call_id message) now = record msg {
    questions = map (resolve_question call_id message) msg.questions;
  }
  apply_agent_event msg (AgentEvent.message_done error stopped) now = finish msg error stopped
  apply_agent_event msg AgentEvent.unknown now = msg

  -- A stream: its events in order, each with the time at which it is folded.
  abbrev pub apply_events : AgentMsg → List (AgentEvent × ℕ) → AgentMsg
  apply_events msg [] = msg
  apply_events msg ((e, now) ∷ es) = apply_events (apply_agent_event msg e now) es
