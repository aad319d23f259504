-- ===== src/Thread/Select/Laws.antt =====
-- agentThread.ts: what the view reads off a thread agrees with the cards and with the terminal.
use cubestack.Prelude.{
  ℕ, ◌≡◌, refl, Text, Bool, true, false, not, ◌||◌, Option, none, some, is_some, List, [], ◌∷◌,
  ◌++◌, map, any, is_empty, if◌then◌else◌,
}
use cubestack.Thread.{Entry, ThreadMsg, AgentMsg}
use cubestack.Thread.Args.{JsonText}
use cubestack.Thread.Cards.{open_approvals, open_questions}
use cubestack.Thread.Settle.{open_card_ids, open_approval_ids, open_question_ids}
use cubestack.Thread.Fold.{AgentEvent, apply_agent_event, is_true, non_empty, finish}
use cubestack.Thread.Select.{
  Waiting, waiting_on_user, has_open_questions, has_open_approvals, StatusTone, turn_status,
}

is_empty-map {ℓ κ} :
    {A : Type ℓ} {B : Type κ} (f : A → B) (xs : List A) → is_empty (map f xs) ≡ is_empty xs
is_empty-map f [] = refl
is_empty-map f (x ∷ xs) = refl

is_empty-append {ℓ} :
    {A : Type ℓ} (xs ys : List A)
    → not (is_empty (xs ++ ys)) ≡ (not (is_empty xs) || not (is_empty ys))
is_empty-append [] ys = refl
is_empty-append (x ∷ xs) ys = refl

any-has_open_questions :
    (msgs : List ThreadMsg) → any has_open_questions msgs ≡ not (is_empty (open_question_ids msgs))
any-has_open_questions [] = refl
any-has_open_questions (Entry.other a ∷ es) = any-has_open_questions es
any-has_open_questions (Entry.agent m ∷ es) = rw (
  is_empty-append (map (λ q. q.call_id) (open_questions m)) (open_question_ids es),
  is_empty-map (λ q. q.call_id) (open_questions m),
  any-has_open_questions es,
)

any-has_open_approvals :
    (msgs : List ThreadMsg) → any has_open_approvals msgs ≡ not (is_empty (open_approval_ids msgs))
any-has_open_approvals [] = refl
any-has_open_approvals (Entry.other a ∷ es) = any-has_open_approvals es
any-has_open_approvals (Entry.agent m ∷ es) = rw (
  is_empty-append (map (λ a. a.call_id) (open_approvals m)) (open_approval_ids es),
  is_empty-map (λ a. a.call_id) (open_approvals m),
  any-has_open_approvals es,
)

-- What a thread waits for, by the ids of its open cards
abbrev pub waits_for : List Text × List Text → Option Waiting
waits_for (approvals, questions) =
    if not (is_empty questions)
    then some Waiting.question
    else if not (is_empty approvals)
    then some Waiting.approval
    else none

-- The thread waits for the user exactly while it has an open card, and for a question first.
pub waiting_on_user-open_card_ids :
    (msgs : List ThreadMsg) → waiting_on_user msgs ≡ waits_for (open_card_ids msgs)
unfolding waiting_on_user open_card_ids
waiting_on_user-open_card_ids msgs = rw (any-has_open_questions msgs, any-has_open_approvals msgs)

-- The tone of a terminal: a stop wins over an error.
abbrev pub tone_of : Option Text → Option Bool → StatusTone
tone_of error stopped =
    if is_true stopped
    then StatusTone.stopped
    else if is_some (non_empty error)
    then StatusTone.error
    else StatusTone.done

terminal_tone :
    (m : AgentMsg) (error : Option Text) (stopped : Option Bool) (later : ℕ)
    → m.transport_lost ≡ none
    → (turn_status (finish m error stopped) later).tone ≡ tone_of error stopped
unfolding turn_status finish
terminal_tone m error (some true) later h = rw h
terminal_tone m none (some false) later h = rw h
terminal_tone m (some []) (some false) later h = rw h
terminal_tone m (some (c ∷ t)) (some false) later h = rw h
terminal_tone m none none later h = rw h
terminal_tone m (some []) none later h = rw h
terminal_tone m (some (c ∷ t)) none later h = rw h

-- A turn that the server ended, with its stream intact, is reported as stopped, failed or done, as
-- the terminal says, and at no time as running.
pub turn_status-message_done :
    (runtime : JsonText) (m : AgentMsg) (error : Option Text) (stopped : Option Bool)
    (now later : ℕ)
    → m.transport_lost ≡ none
    → (turn_status
        (apply_agent_event runtime m (AgentEvent.message_done error stopped) now)
        later).tone
      ≡ tone_of error stopped
unfolding apply_agent_event
turn_status-message_done runtime m error stopped now later h = terminal_tone m error stopped later h
