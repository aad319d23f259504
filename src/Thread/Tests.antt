-- ===== src/Thread/Tests.antt =====
-- Runs of agentThread.ts at small inputs, and its theorems at inputs that meet their hypotheses.
use cubestack.Prelude.{
  is_empty, ℕ, suc, ◌≡◌, refl, ◌⊎◌, arith, Text, codes, text_eq, true, false, none, some, List, [],
  ◌∷◌, map, any, filter, length, All, if◌then◌else◌, trim, is_space,
}
use cubestack.Thread.{
  AgentMsg, AgentPhase, AgentBlock, TextBlock, ToolBlock, AgentApproval, ApprovalState, Entry,
  ThreadMsg, new_agent_msg,
}
use cubestack.Thread.Narration.{narrate, append_text, replace_text}
use cubestack.Thread.Narration.Laws.{narration_of, narration_of-narrate}
use cubestack.Thread.Tools.{attach_tool_result}
use cubestack.Thread.Tools.Laws.{Extend, attach-Extend}
use cubestack.Thread.Tools.Order.{attach_all, answer_in_order, attach_all-eq-answer_in_order}
use cubestack.Thread.Args.{
  redact, Json, num, str, obj, end, field, JsonText, fmt_tool_args, is_secret_key,
}
use cubestack.Thread.Args.Laws.{
  fmt_tool_args-Alike, alike_obj, hidden, visible, alike_end, same_str,
}
use cubestack.Thread.Cards.{
  has_approval, open_approvals, open_questions, add_approval, new_approval,
}
use cubestack.Thread.Fold.{set_phase, AgentEvent, apply_agent_event, apply_events}
use cubestack.Thread.Fold.Terminal.{message_done-settles}
use cubestack.Thread.View.{tool_summary}
use cubestack.Thread.Select.{waiting_on_user, Waiting}
use cubestack.Thread.Carry.{carry_open_cards, agents}
use cubestack.Thread.Carry.Adds.{AddsAll}
use cubestack.Thread.Carry.Laws.{carry_open_cards-keeps, holds}
use cubestack.Thread.Settle.{settle_cards_absent, open_card_ids, CardKind}
use cubestack.Thread.Settle.Laws.{
  carried, settle_cards_absent-sweep, settle_cards_absent-arrived, InRead, thread_approvals,
  thread_questions, is_deciding, arrived,
}
use cubestack.Thread.History.{history_to_msgs, HistoryMessage, HistoryRole, HistoryContent}
use Prim.Native.String.{String}

-- A runtime that parses nothing and prints a number as its text.
abbrev printed : Json → Text
printed (num t) = t
printed v = []

abbrev runtime : JsonText
runtime = record { parse = λ t. none; stringify = printed }

abbrev card : Text → ApprovalState → AgentApproval
card id state = record {
  call_id = id;
  name = none;
  command = none;
  level = none;
  message = none;
  state = state;
  error = none;
  after_block = none;
  created_at_ms = none;
  expires_at_ms = none;
}

abbrev open_call : String → AgentBlock
open_call name =
    AgentBlock.tool
      (record { call_id = none; name = codes name; args = none; output = none; done = false })

abbrev events : List (AgentEvent × ℕ)
events =
    (AgentEvent.message_start, 1)
    ∷ (AgentEvent.narration (codes "n1") (codes "look"), 2)
    ∷ (
      AgentEvent.tool_call (codes "exec") (some (codes "c1"))
          (some (obj (field (codes "command") (str (codes "ls")) end))),
      3,
    )
    ∷ (
      AgentEvent.approval_pending (record {
        call_id = codes "a1";
        name = none;
        command = none;
        level = none;
        message = none;
        created_at_ms = none;
        expires_at_ms = some 9000;
      }),
      4,
    )
    ∷ (AgentEvent.approval_resolved (codes "a1") (some true), 5)
    ∷ (AgentEvent.tool_result (some (codes "c1")) (some (codes "x")), 6)
    ∷ (AgentEvent.message_delta (codes "do"), 7)
    ∷ (AgentEvent.message_delta (codes "ne"), 8)
    ∷ (AgentEvent.question_pending (codes "q1") none, 9)
    ∷ (AgentEvent.message_done none none, 10)
    ∷ []

abbrev turn_so_far : AgentMsg
turn_so_far = apply_events runtime (new_agent_msg 1 0) events

-- Everything that a test computes with.
runs : Unit {0}
unfolding apply_agent_event fmt_tool_args is_secret_key attach_tool_result narrate append_text
    replace_text new_agent_msg open_approvals open_questions text_eq redact set_phase add_approval
    new_approval
runs = tt

streamed :
    (turn_so_far.phase ≡ AgentPhase.done)
    × (turn_so_far.phase_at ≡ 9)
    × (map (λ (a : AgentApproval). a.state) turn_so_far.approvals ≡ ApprovalState.approved ∷ [])
    × (length turn_so_far.blocks ≡ 3)
unfolding runs
streamed = (refl, refl, refl, refl)

abbrev waiting_turn : AgentMsg
waiting_turn = record (new_agent_msg 7 0) {
  blocks = open_call "a" ∷ open_call "b" ∷ [];
  approvals =
      card (codes "a1") ApprovalState.pending ∷ card (codes "a2") ApprovalState.approved ∷ [];
}

message_done-settles_example :
    let n =
      apply_agent_event runtime waiting_turn
        (AgentEvent.message_done (some (codes "boom")) none)
        5 in
    (n.phase ≡ AgentPhase.done)
    × (open_approvals n ≡ [])
    × (open_questions n ≡ [])
    × ((n.error ≡ none) ⊎ (n.stopped ≡ some false))
    × (n.blocks ≡ waiting_turn.blocks)
    × (apply_agent_event runtime n (AgentEvent.message_done (some (codes "boom")) none) 6 ≡ n)
message_done-settles_example =
    message_done-settles runtime waiting_turn (some (codes "boom")) none 5 6

attach-Extend_example :
    Extend waiting_turn.blocks (attach_tool_result waiting_turn.blocks none (codes "x"))
attach-Extend_example = attach-Extend waiting_turn.blocks none (codes "x")

attach_all-eq-answer_in_order_example :
    attach_all (open_call "a" ∷ open_call "b" ∷ []) (codes "1" ∷ codes "2" ∷ [])
    ≡ answer_in_order (open_call "a" ∷ open_call "b" ∷ []) (codes "1" ∷ codes "2" ∷ [])
attach_all-eq-answer_in_order_example =
    attach_all-eq-answer_in_order (open_call "a" ∷ open_call "b" ∷ []) (codes "1" ∷ codes "2" ∷ [])
      (omega arith)

abbrev named_call : ToolBlock
named_call = record {
  call_id = some (codes "c");
  name = codes "n";
  args = none;
  output = none;
  done = false;
}

narration_of-narrate_example :
    narration_of (codes "m") (narrate turn_so_far (codes "n1") (codes "t")).blocks ≡ (
      if text_eq (codes "n1") (codes "m")
      then some (codes "t")
      else narration_of (codes "m") turn_so_far.blocks)
narration_of-narrate_example = narration_of-narrate turn_so_far (codes "m") (codes "n1") (codes "t")

abbrev said : TextBlock
said = record { text = codes "done"; superseded = none; block_id = none }

abbrev spoken_turn : AgentMsg
spoken_turn = record (new_agent_msg 7 0) { blocks = open_call "a" ∷ AgentBlock.text said ∷ [] }

abbrev with_key : String → Json
with_key secret =
    obj (field (codes "url") (str (codes "u")) (field (codes "apiKey") (str (codes secret)) end))

fmt_tool_args-Alike_example :
    (fmt_tool_args runtime (some (with_key "one")) ≡ fmt_tool_args runtime (some (with_key "two")))
    × ((s t : Text)
        → runtime.parse s ≡ some (with_key "one")
        → runtime.parse t ≡ some (with_key "two")
        → fmt_tool_args runtime (some (str s)) ≡ fmt_tool_args runtime (some (str t)))
unfolding is_secret_key
fmt_tool_args-Alike_example =
    fmt_tool_args-Alike runtime (alike_obj (visible (same_str (codes "u")) (hidden refl alike_end)))

masked : fmt_tool_args runtime (some (with_key "one")) ≡ some (codes "url: u  apiKey: ••••••")
unfolding runs
masked = refl

abbrev thread : List ThreadMsg
thread = Entry.other (record { id = 1; text = codes "hi" }) ∷ Entry.agent waiting_turn ∷ []

abbrev reread : List ThreadMsg
reread = Entry.other (record { id = 8; text = codes "hi" }) ∷ Entry.agent (new_agent_msg 9 0) ∷ []

carry_open_cards-keeps_example :
    AddsAll reread (carry_open_cards thread reread)
    × ((id : Text)
        → is_empty (agents reread) ≡ false
        → any (λ m. has_approval (open_approvals m) id) (agents thread) ≡ true
        → holds id (carry_open_cards thread reread) ≡ true)
carry_open_cards-keeps_example = carry_open_cards-keeps thread reread

settle_cards_absent-sweep_example :
    let before = (open_card_ids thread).0 in
    let out = settle_cards_absent thread CardKind.approvals [] before in
    All (InRead []) (thread_approvals out)
    × (carried [] (thread_approvals out) ≡ carried [] (thread_approvals thread))
    × (filter is_deciding (thread_approvals out) ≡ filter is_deciding (thread_approvals thread))
    × (thread_questions out ≡ thread_questions thread)
    × (settle_cards_absent out CardKind.approvals [] before ≡ out)
settle_cards_absent-sweep_example = settle_cards_absent-sweep thread []

settle_cards_absent-arrived_example :
    arrived [] (thread_approvals (settle_cards_absent thread CardKind.approvals [] []))
    ≡ arrived [] (thread_approvals thread)
settle_cards_absent-arrived_example = settle_cards_absent-arrived thread [] []

abbrev said_by : HistoryRole → String → HistoryMessage
said_by role t = record {
  role = role;
  content = HistoryContent.plain (codes t);
  tool_call_id = none;
}

abbrev document : List HistoryMessage
document =
    said_by HistoryRole.user "hi"
    ∷ said_by HistoryRole.assistant "a"
    ∷ said_by HistoryRole.tool_result "r"
    ∷ said_by HistoryRole.user " "
    ∷ said_by HistoryRole.assistant "b"
    ∷ []

restored : length (history_to_msgs runtime suc 0 document) ≡ 2
unfolding history_to_msgs trim runs
restored = refl

parked : waiting_on_user thread ≡ some Waiting.approval
unfolding waiting_on_user runs
parked = refl

summary : tool_summary (some (codes "\n  kubectl get pods \n| jq")) ≡ codes "kubectl get pods"
unfolding tool_summary trim is_space
summary = refl
