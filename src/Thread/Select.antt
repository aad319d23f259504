-- ===== src/Thread/Select.antt =====
-- agentThread.ts: what the view reads off a thread.
pub mod Laws
use cubestack.Prelude.{
  is_empty, ℕ, Text, codes, Bool, true, false, not, ◌&&◌, Option, none, some, List, [], ◌∷◌, any,
  filter, length, get_or, is_truthy, if◌then◌else◌, ◌==◌, text_eq,
}
use cubestack.Thread.{Entry, AgentMsg, AgentPhase, AgentBlock, ToolBlock, ThreadMsg}
use cubestack.Thread.Cards.{open_approvals, open_questions, seconds_left}

pub data StatusTone : Type 0 where
  run done stopped lost error wait : StatusTone

pub record StatusLine : Type 0 where
  pub tone : StatusTone
  pub key : Text
  pub vars : List (Text × ℕ)

abbrev pub is_running : AgentBlock → Bool
is_running (AgentBlock.tool b) = not b.done
is_running (AgentBlock.text b) = false

-- A string that is missing or empty is false.
abbrev pub is_set : Option Text → Bool
is_set none = false
is_set (some t) = is_truthy t

abbrev pub is_flag : Option Bool → Bool
is_flag none = false
is_flag (some b) = b

tools_status : ℕ → ℕ → StatusLine
tools_status running secs =
    if running == 0
    then record {
      tone = StatusTone.run;
      key = codes "cubepilot.chat.statusCollating";
      vars = (codes "secs", secs) ∷ [];
    }
    else record {
      tone = StatusTone.run;
      key = codes "cubepilot.chat.statusTools";
      vars = (codes "count", running) ∷ (codes "secs", secs) ∷ [];
    }

phase_status : AgentMsg → ℕ → AgentPhase → StatusLine
phase_status msg secs AgentPhase.done =
    if is_flag msg.stopped
    then record { tone = StatusTone.stopped; key = codes "cubepilot.chat.statusStopped"; vars = [] }
    else if is_set msg.error
    then record { tone = StatusTone.error; key = codes "cubepilot.chat.statusFailed"; vars = [] }
    else record { tone = StatusTone.done; key = codes "cubepilot.chat.statusDone"; vars = [] }
phase_status msg secs AgentPhase.tools = tools_status (length (filter is_running msg.blocks)) secs
phase_status msg secs AgentPhase.streaming = record {
  tone = StatusTone.run;
  key = codes "cubepilot.chat.statusStreaming";
  vars = (codes "secs", secs) ∷ [];
}
phase_status msg secs AgentPhase.thinking = record {
  tone = StatusTone.run;
  key = codes "cubepilot.chat.statusThinking";
  vars = (codes "secs", secs) ∷ [];
}

unfoldable pub turn_status : AgentMsg → ℕ → StatusLine
unfolding phase_status tools_status seconds_left
turn_status msg now =
    if is_set msg.transport_lost
    then record { tone = StatusTone.lost; key = codes "cubepilot.chat.statusLost"; vars = [] }
    else phase_status msg (seconds_left now msg.phase_at) msg.phase

pub data Waiting : Type 0 where
  approval question : Waiting

abbrev pub has_open_questions {ℓ} : {A : Type ℓ} → Entry A → Bool
has_open_questions (Entry.agent m) = not (is_empty (open_questions m))
has_open_questions (Entry.other a) = false

abbrev pub has_open_approvals {ℓ} : {A : Type ℓ} → Entry A → Bool
has_open_approvals (Entry.agent m) = not (is_empty (open_approvals m))
has_open_approvals (Entry.other a) = false

-- The turn is parked on a human, in any part of the transcript.
unfoldable pub waiting_on_user : List ThreadMsg → Option Waiting
waiting_on_user msgs =
    if any has_open_questions msgs
    then some Waiting.question
    else if any has_open_approvals msgs
    then some Waiting.approval
    else none

-- `adoptsRestoredThread(restored, handedOver)`
unfoldable pub adopts_restored_thread {ℓ} : {A : Type ℓ} → List A → Bool → Bool
adopts_restored_thread restored handed_over = not (is_empty restored) && not handed_over
