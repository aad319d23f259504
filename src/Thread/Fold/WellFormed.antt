-- ===== src/Thread/Fold/WellFormed.antt =====
-- A well-formed turn, and that the steps of the fold keep it so.
use cubestack.Prelude.{
  ℕ, suc, ◌≤◌, ◌<◌, ◌≡◌, refl, Bool, true, false, Option, none, some, List, [], ◌∷◌, ◌++◌, arith,
  Text, map, length, length-append, Bool-cases, inl, inr, All, All-append, All-map, subst, sym, ◌≢◌,
}
use cubestack.Thread.{
  AgentMsg, AgentPhase, same_phase, AgentBlock, AgentApproval, AgentQuestion, BlockIndex,
  last_index,
}
use cubestack.Thread.Narration.Laws.{Grows}
use cubestack.Thread.Cards.{
  add_approval, has_approval, resolve_outcome, is_open_approval, is_open_question,
}
use cubestack.Thread.Cards.Laws.{Distinct, Distinct-map}
use cubestack.Thread.Fold.{
  set_phase, finish, resolve_approval, resolve_question, stop_approval, cancel_question, decided,
}

-- The block that a card was raised after is one of the n that the turn has.
abbrev pub Anchored : ℕ → Option BlockIndex → Type 0
Anchored n (some (BlockIndex.at_block i)) = i < n
Anchored n _ = Unit

pub record IsWellFormed (m : AgentMsg) : Type 0 where
  pub distinct : Distinct m.approvals
  pub anchored_approvals : All (λ a. Anchored (length m.blocks) a.after_block) m.approvals
  pub anchored_questions : All (λ q. Anchored (length m.blocks) q.after_block) m.questions
  -- A turn that is over holds nothing for the user.
  pub settled_approvals :
      m.phase ≡ AgentPhase.done → All (λ a. is_open_approval a.state ≡ false) m.approvals
  pub settled_questions :
      m.phase ≡ AgentPhase.done → All (λ q. is_open_question q.state ≡ false) m.questions

Anchored-le : {n k : ℕ} → n ≤ k → (o : Option BlockIndex) → Anchored n o → Anchored k o
Anchored-le h none a = tt
Anchored-le h (some BlockIndex.before_first) a = tt
Anchored-le h (some (BlockIndex.at_block i)) a = omega arith

pub Anchored-last : (n : ℕ) → Anchored n (some (last_index n))
Anchored-last ℕ.zero = tt
Anchored-last (suc n) = omega arith

pub Grows-IsWellFormed : {m n : AgentMsg} → Grows m n → IsWellFormed m → IsWellFormed n
Grows-IsWellFormed {m} {n} (bs, e, le) w = subst IsWellFormed (sym e) (record {
  distinct = w.distinct;
  anchored_approvals =
      All-map _ _ (λ a. Anchored-le le a.after_block) m.approvals w.anchored_approvals;
  anchored_questions =
      All-map _ _ (λ q. Anchored-le le q.after_block) m.questions w.anchored_questions;
  settled_approvals = w.settled_approvals;
  settled_questions = w.settled_questions;
})

same_phase-eq : (p q : AgentPhase) → same_phase p q ≡ true → p ≡ q
same_phase-eq p q h = ground arith

-- A live phase asks nothing of the cards' states.
pub set_phase-IsWellFormed :
    (m : AgentMsg) (p : AgentPhase) (now : ℕ)
    → p ≢ AgentPhase.done
    → Distinct m.approvals
    → All (λ a. Anchored (length m.blocks) a.after_block) m.approvals
    → All (λ q. Anchored (length m.blocks) q.after_block) m.questions
    → IsWellFormed (set_phase m p now)
unfolding set_phase
set_phase-IsWellFormed m p now live d a q = elim (Bool-cases (same_phase m.phase p)) [
  | inl e ↦ rw e (record {
    distinct = d;
    anchored_approvals = a;
    anchored_questions = q;
    settled_approvals = λ h. absurd (live (ground (arith, same_phase-eq m.phase p e)));
    settled_questions = λ h. absurd (live (ground (arith, same_phase-eq m.phase p e)));
  })
  | inr e ↦ rw e (record {
    distinct = d;
    anchored_approvals = a;
    anchored_questions = q;
    settled_approvals = λ h. absurd (live h);
    settled_questions = λ h. absurd (live h);
  })
]

pub set_phase_of :
    (m : AgentMsg) (p : AgentPhase) (now : ℕ)
    → p ≢ AgentPhase.done
    → IsWellFormed m
    → IsWellFormed (set_phase m p now)
set_phase_of m p now live w =
    set_phase-IsWellFormed m p now live w.distinct w.anchored_approvals w.anchored_questions

All-map_state {ℓ} :
    {A : Type ℓ} (P : A → Type 0) (f : A → A)
    → ((x : A) → P x → P (f x))
    → (xs : List A) → All P xs
    → All P (map f xs)
All-map_state P f keep [] h = tt
All-map_state P f keep (x ∷ xs) (p, h) = (keep x p, All-map_state P f keep xs h)

All-map-All {ℓ} :
    {A : Type ℓ} (P : A → Type 0) (f : A → A)
    → ((x : A) → P (f x))
    → (xs : List A) → All P (map f xs)
All-map-All P f all [] = tt
All-map-All P f all (x ∷ xs) = (all x, All-map-All P f all xs)

closed_decided : (o : Option Bool) → is_open_approval (decided o) ≡ false
closed_decided none = refl
closed_decided (some true) = refl
closed_decided (some false) = refl

closed_outcome : (o : Option Text) → is_open_question (resolve_outcome o) ≡ false
unfolding resolve_outcome
closed_outcome none = refl
closed_outcome (some t) = ground arith

-- What a change of cards keeps: ids and places, and a card that is settled stays so.
pub record KeepsApproval (f : AgentApproval → AgentApproval) : Type 0 where
  pub id : (a : AgentApproval) → (f a).call_id ≡ a.call_id
  pub place : (a : AgentApproval) → (f a).after_block ≡ a.after_block
  pub settled :
      (a : AgentApproval) → is_open_approval a.state ≡ false → is_open_approval (f a).state ≡ false

pub record KeepsQuestion (f : AgentQuestion → AgentQuestion) : Type 0 where
  pub place : (q : AgentQuestion) → (f q).after_block ≡ q.after_block
  pub settled :
      (q : AgentQuestion) → is_open_question q.state ≡ false → is_open_question (f q).state ≡ false

pub map_approvals-IsWellFormed :
    (m : AgentMsg) (f : AgentApproval → AgentApproval)
    → KeepsApproval f
    → IsWellFormed m
    → IsWellFormed (record m { approvals = map f m.approvals })
map_approvals-IsWellFormed m f k w = record {
  distinct = Distinct-map f k.id m.approvals w.distinct;
  anchored_approvals = All-map_state _ f (λ a h. rw (k.place a) h) m.approvals w.anchored_approvals;
  anchored_questions = w.anchored_questions;
  settled_approvals = λ h. All-map_state _ f k.settled m.approvals (w.settled_approvals h);
  settled_questions = w.settled_questions;
}

pub map_questions-IsWellFormed :
    (m : AgentMsg) (f : AgentQuestion → AgentQuestion)
    → KeepsQuestion f
    → IsWellFormed m
    → IsWellFormed (record m { questions = map f m.questions })
map_questions-IsWellFormed m f k w = record {
  distinct = w.distinct;
  anchored_approvals = w.anchored_approvals;
  anchored_questions = All-map_state _ f (λ q h. rw (k.place q) h) m.questions w.anchored_questions;
  settled_approvals = w.settled_approvals;
  settled_questions = λ h. All-map_state _ f k.settled m.questions (w.settled_questions h);
}

pub resolve_approval-keeps : (id : Text) (o : Option Bool) → KeepsApproval (resolve_approval id o)
resolve_approval-keeps id o = record {
  id = λ a. ground arith;
  place = λ a. ground arith;
  settled = λ a h. ground (arith, closed_decided o);
}

pub resolve_question-keeps : (id : Text) (o : Option Text) → KeepsQuestion (resolve_question id o)
resolve_question-keeps id o = record {
  place = λ q. ground arith;
  settled = λ q h. ground (arith, closed_outcome o);
}

stop_approval-place : (a : AgentApproval) → (stop_approval a).after_block ≡ a.after_block
stop_approval-place a = ground arith

cancel_question-place : (q : AgentQuestion) → (cancel_question q).after_block ≡ q.after_block
cancel_question-place q = ground arith

pub finish-IsWellFormed :
    (m : AgentMsg) (error : Option Text) (stopped : Option Bool)
    → IsWellFormed m
    → IsWellFormed (finish m error stopped)
unfolding finish
finish-IsWellFormed m error stopped w = record {
  distinct = Distinct-map stop_approval (λ a. ground arith) m.approvals w.distinct;
  anchored_approvals =
      All-map_state _ stop_approval (λ a h. rw (stop_approval-place a) h) m.approvals
        w.anchored_approvals;
  anchored_questions =
      All-map_state _ cancel_question (λ q h. rw (cancel_question-place q) h) m.questions
        w.anchored_questions;
  settled_approvals = λ _. All-map-All _ stop_approval (λ a. ground arith) m.approvals;
  settled_questions = λ _. All-map-All _ cancel_question (λ q. ground arith) m.questions;
}

pub tool_call-IsWellFormed :
    (m : AgentMsg) (b : AgentBlock)
    → IsWellFormed m
    → IsWellFormed (record m { blocks = m.blocks ++ b ∷ [] })
tool_call-IsWellFormed m b w =
    Grows-IsWellFormed (_, refl, omega (arith, length-append m.blocks (b ∷ []))) w

pub add_approval-Anchored :
    (m : AgentMsg) (card : AgentApproval)
    → Anchored (length m.blocks) card.after_block
    → All (λ a. Anchored (length m.blocks) a.after_block) m.approvals
    → (All
        (λ a. Anchored (length (add_approval m card).blocks) a.after_block)
        (add_approval m card).approvals)
unfolding add_approval
add_approval-Anchored m card a h = elim (Bool-cases (has_approval m.approvals card.call_id)) [
  | inl e ↦ rw e h
  | inr e ↦ rw e (All-append _ m.approvals (card ∷ []) h (a, tt))
]

pub add_approval-questions :
    (m : AgentMsg) (card : AgentApproval)
    → All (λ q. Anchored (length m.blocks) q.after_block) m.questions
    → All
        (λ q. Anchored (length (add_approval m card).blocks) q.after_block)
        (add_approval m card).questions
unfolding add_approval
add_approval-questions m card h = elim (Bool-cases (has_approval m.approvals card.call_id)) [
  | inl e ↦ rw e h
  | inr e ↦ rw e h
]
