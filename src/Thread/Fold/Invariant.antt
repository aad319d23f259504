-- ===== src/Thread/Fold/Invariant.antt =====
-- What every event of a stream keeps of a turn.
use cubestack.Prelude.{ℕ, refl, [], arith, length, All-append, get_or}
use cubestack.Thread.{AgentMsg, AgentPhase}
use cubestack.Thread.Narration.Laws.{narrate-Grows, append_text-Grows, replace_text-Grows}
use cubestack.Thread.Tools.{attach_tool_result}
use cubestack.Thread.Tools.Laws.{length-attach}
use cubestack.Thread.Args.{JsonText}
use cubestack.Thread.Cards.{new_approval, new_question}
use cubestack.Thread.Cards.Laws.{add_approval-Distinct}
use cubestack.Thread.Fold.{AgentEvent, apply_agent_event, set_phase}
use cubestack.Thread.Fold.WellFormed.{
  Anchored-last, IsWellFormed, set_phase-IsWellFormed, set_phase_of, Grows-IsWellFormed,
  map_approvals-IsWellFormed, map_questions-IsWellFormed, resolve_approval-keeps,
  resolve_question-keeps, finish-IsWellFormed, tool_call-IsWellFormed, add_approval-Anchored,
  add_approval-questions,
}

module _ (runtime : JsonText) where
  -- An event of any type keeps a turn well formed: its approvals have distinct ids, each card stands
  -- behind a block of the turn, and a turn that is over holds no open card.
  pub apply_agent_event-IsWellFormed :
      (m : AgentMsg) (e : AgentEvent) (now : ℕ)
      → IsWellFormed m
      → IsWellFormed (apply_agent_event runtime m e now)
  unfolding apply_agent_event new_approval new_question
  apply_agent_event-IsWellFormed m AgentEvent.message_start now w = set_phase_of m _ now (λ h. cc) w
  apply_agent_event-IsWellFormed m AgentEvent.agent_thinking now w =
      set_phase_of m _ now (λ h. cc) w
  apply_agent_event-IsWellFormed m (AgentEvent.message_delta d) now w =
      Grows-IsWellFormed (append_text-Grows (set_phase m AgentPhase.streaming now) d)
        (set_phase_of m _ now (λ h. cc) w)
  apply_agent_event-IsWellFormed m (AgentEvent.text_replace d) now w =
      Grows-IsWellFormed (replace_text-Grows (set_phase m AgentPhase.streaming now) d)
        (set_phase_of m _ now (λ h. cc) w)
  apply_agent_event-IsWellFormed m (AgentEvent.narration id t) now w =
      Grows-IsWellFormed (narrate-Grows m id t) w
  apply_agent_event-IsWellFormed m (AgentEvent.tool_call name id args) now w =
      set_phase_of _ _ now (λ h. cc) (tool_call-IsWellFormed m _ w)
  apply_agent_event-IsWellFormed m (AgentEvent.tool_result id out) now w =
      set_phase_of _ _ now (λ h. cc)
        (Grows-IsWellFormed
          (
            attach_tool_result m.blocks id (get_or out []),
            refl,
            omega (arith, length-attach m.blocks id (get_or out [])),
          )
          w)
  apply_agent_event-IsWellFormed m (AgentEvent.approval_pending e) now w =
      set_phase-IsWellFormed _ _ now (λ h. cc) (add_approval-Distinct m _ w.distinct)
        (add_approval-Anchored m _ (Anchored-last (length m.blocks)) w.anchored_approvals)
        (add_approval-questions m _ w.anchored_questions)
  apply_agent_event-IsWellFormed m (AgentEvent.approval_resolved id o) now w =
      map_approvals-IsWellFormed m _ (resolve_approval-keeps id o) w
  apply_agent_event-IsWellFormed m (AgentEvent.question_pending id q) now w =
      set_phase-IsWellFormed _ _ now (λ h. cc) w.distinct w.anchored_approvals
        (All-append _ m.questions _ w.anchored_questions (Anchored-last (length m.blocks), tt))
  apply_agent_event-IsWellFormed m (AgentEvent.question_resolved id t) now w =
      map_questions-IsWellFormed m _ (resolve_question-keeps id t) w
  apply_agent_event-IsWellFormed m (AgentEvent.message_done error stopped) now w =
      finish-IsWellFormed m error stopped w
  apply_agent_event-IsWellFormed m AgentEvent.unknown now w = w
