-- ===== src/Thread/Fold/Terminal.antt =====
-- What the terminal of a turn settles.
use cubestack.Prelude.{
  ℕ, ◌≡◌, refl, Bool, false, Option, none, some, List, [], ◌∷◌, arith, Text, map, filter, ◌⊎◌,
}
use cubestack.Thread.{AgentMsg, AgentPhase, AgentApproval, AgentQuestion}
use cubestack.Thread.Args.{JsonText}
use cubestack.Thread.Cards.{open_approvals, open_questions, is_open_approval, is_open_question}
use cubestack.Thread.Fold.{AgentEvent, apply_agent_event, stop_approval, cancel_question}

no_open_approval :
    (as' : List AgentApproval) → filter (λ a. is_open_approval a.state) (map stop_approval as') ≡ []
no_open_approval [] = refl
no_open_approval (a ∷ rest) = ground (arith, no_open_approval rest)

no_open_question :
    (qs : List AgentQuestion) → filter (λ q. is_open_question q.state) (map cancel_question qs) ≡ []
no_open_question [] = refl
no_open_question (q ∷ rest) = ground (arith, no_open_question rest)

stop_approval_idem :
    (cards : List AgentApproval)
    → map stop_approval (map stop_approval cards) ≡ map stop_approval cards
stop_approval_idem [] = refl
stop_approval_idem (a ∷ rest) = ground (arith, stop_approval_idem rest)

cancel_question_idem :
    (cards : List AgentQuestion)
    → map cancel_question (map cancel_question cards) ≡ map cancel_question cards
cancel_question_idem [] = refl
cancel_question_idem (a ∷ rest) = ground (arith, cancel_question_idem rest)

module _ (runtime : JsonText) where
  -- A terminal ends the turn with no card open on either channel, reports it as stopped or as failed
  -- and never as both, leaves what the turn has said, and is the same when it comes a second time.
  pub message_done-settles :
      (m : AgentMsg) (error : Option Text) (stopped : Option Bool) (now later : ℕ)
      → let e = AgentEvent.message_done error stopped in
        let n = apply_agent_event runtime m e now in
        (n.phase ≡ AgentPhase.done)
        × (open_approvals n ≡ [])
        × (open_questions n ≡ [])
        × ((n.error ≡ none) ⊎ (n.stopped ≡ some false))
        × (n.blocks ≡ m.blocks)
        × (apply_agent_event runtime n e later ≡ n)
  unfolding apply_agent_event open_approvals open_questions
  message_done-settles m error stopped now later = (
    refl,
    no_open_approval m.approvals,
    no_open_question m.questions,
    ground arith,
    refl,
    cc (stop_approval_idem m.approvals, cancel_question_idem m.questions),
  )
