-- ===== src/Thread/Carry/Adds.antt =====
-- What the merge of open cards adds to a thread.
use cubestack.Prelude.{
  is_empty, ◌&&◌, ℕ, zero, suc, ◌≡◌, ap, sym, Text, text_eq, text_eq_iff, true, not, ◌||◌, Option,
  none, some, List, [], ◌∷◌, ◌++◌, append-nil, append_assoc, arith, filter, update_at, Bool-cases,
  inl, inr, includes,
}
use cubestack.Thread.{Entry, AgentMsg, AgentApproval, AgentQuestion}
use cubestack.Thread.Cards.{add_approval, open_approvals, open_questions, has_approval}
use cubestack.Thread.Cards.Laws.{has_approval-append}
use cubestack.Thread.Carry.{
  add_approvals, merge_open_cards, merge_entry, write_at, carry_turn, carry_turns, add_questions,
  question_ids,
}

-- The turn with some cards more, behind those that it had, and nothing else changed.
abbrev pub AddsCards : AgentMsg → AgentMsg → Type 0
AddsCards m n =
    (more : List AgentApproval) × (asked : List AgentQuestion) × (n
      ≡ record m { approvals = m.approvals ++ more; questions = m.questions ++ asked })

-- The same thread with some cards more.
pub data AddsAll {A : Type 0} : List (Entry A) → List (Entry A) → Type 0 where
  empty : AddsAll [] []
  turn :
      {m n : AgentMsg} {ds es : List (Entry A)}
      → AddsCards m n
      → AddsAll ds es
      → AddsAll (Entry.agent m ∷ ds) (Entry.agent n ∷ es)
  same :
      {a : A} {ds es : List (Entry A)}
      → AddsAll ds es
      → AddsAll (Entry.other a ∷ ds) (Entry.other a ∷ es)

pub AddsCards-refl : (m : AgentMsg) → AddsCards m m
AddsCards-refl m = ([], [], ground (arith, append-nil m.approvals, append-nil m.questions))

AddsCards-trans : (l m n : AgentMsg) → AddsCards l m → AddsCards m n → AddsCards l n
AddsCards-trans l m n (as1, qs1, e) (as2, qs2, f) = (
  as1 ++ as2,
  qs1 ++ qs2,
  ground (arith, append_assoc l.approvals as1 as2, append_assoc l.questions qs1 qs2),
)

add_approval-AddsCards : (m : AgentMsg) (c : AgentApproval) → AddsCards m (add_approval m c)
unfolding add_approval
add_approval-AddsCards m c = elim (Bool-cases (has_approval m.approvals c.call_id)) [
  | inl h ↦ rw h (AddsCards-refl m)
  | inr h ↦ rw h (
    c ∷ [],
    [],
    ap (λ q. record m { approvals = m.approvals ++ c ∷ []; questions = q })
        (sym (append-nil m.questions)),
  )
]

add_approvals-AddsCards :
    (m : AgentMsg) (cards : List AgentApproval) → AddsCards m (add_approvals m cards)
add_approvals-AddsCards m [] = AddsCards-refl m
add_approvals-AddsCards m (c ∷ cards) =
    AddsCards-trans m (add_approval m c) _ (add_approval-AddsCards m c)
      (add_approvals-AddsCards (add_approval m c) cards)

add_questions-AddsCards :
    (m : AgentMsg) (qs : List AgentQuestion) → AddsCards m (add_questions m qs)
add_questions-AddsCards m qs = (
  [],
  filter (λ q. not (includes (question_ids m.questions) q.call_id)) qs,
  ground (arith, append-nil m.approvals),
)

merge-AddsCards :
    (m : AgentMsg) (cards : List AgentApproval) (qs : List AgentQuestion)
    → AddsCards m (merge_open_cards m cards qs)
unfolding merge_open_cards
merge-AddsCards m cards qs =
    AddsCards-trans m (add_approvals m cards) _ (add_approvals-AddsCards m cards)
      (add_questions-AddsCards (add_approvals m cards) qs)

has_approval-eq :
    (cards : List AgentApproval) (i j : Text)
    → text_eq i j ≡ true
    → has_approval cards i ≡ has_approval cards j
has_approval-eq cards i j h = rw ((text_eq_iff i j).0 h)

-- An approval with the id stands in the turn afterwards if it did before or came with the cards.
has_approval-add :
    (m : AgentMsg) (c : AgentApproval) (id : Text)
    → has_approval (add_approval m c).approvals id
      ≡ (has_approval m.approvals id || text_eq c.call_id id)
unfolding add_approval
has_approval-add m c id = elim (Bool-cases (has_approval m.approvals c.call_id)) [
  | inl h ↦ rw h (ground (arith, has_approval-eq m.approvals c.call_id id))
  | inr h ↦ rw h (ground (arith, has_approval-append m.approvals (c ∷ []) id))
]

pub has_approval-add_all :
    (m : AgentMsg) (cards : List AgentApproval) (id : Text)
    → has_approval (add_approvals m cards).approvals id
      ≡ (has_approval m.approvals id || has_approval cards id)
has_approval-add_all m [] id = ground arith
has_approval-add_all m (c ∷ cards) id =
    ground (arith, has_approval-add_all (add_approval m c) cards id, has_approval-add m c id)

module _ {A : Type 0} where
  pub AddsAll-refl : (es : List (Entry A)) → AddsAll es es
  AddsAll-refl [] = empty
  AddsAll-refl (Entry.agent m ∷ es) = turn (AddsCards-refl m) (AddsAll-refl es)
  AddsAll-refl (Entry.other a ∷ es) = same (AddsAll-refl es)

  pub AddsAll-trans : {bs cs ds : List (Entry A)} → AddsAll bs cs → AddsAll cs ds → AddsAll bs ds
  AddsAll-trans empty empty = empty
  AddsAll-trans (turn p h) (turn q k) = turn (AddsCards-trans _ _ _ p q) (AddsAll-trans h k)
  AddsAll-trans (same h) (same k) = same (AddsAll-trans h k)

  pub merge_at-AddsAll :
      (from : AgentMsg) (i : ℕ) (es : List (Entry A))
      → AddsAll es (update_at i (merge_entry from) es)
  merge_at-AddsAll from i [] = empty
  merge_at-AddsAll from zero (Entry.agent m ∷ es) =
      turn (merge-AddsCards m (open_approvals from) (open_questions from)) (AddsAll-refl es)
  merge_at-AddsAll from zero (Entry.other a ∷ es) = same (AddsAll-refl es)
  merge_at-AddsAll from (suc i) (Entry.agent m ∷ es) =
      turn (AddsCards-refl m) (merge_at-AddsAll from i es)
  merge_at-AddsAll from (suc i) (Entry.other a ∷ es) = same (merge_at-AddsAll from i es)

  write_at-AddsAll :
      (from : AgentMsg) (es : List (Entry A)) (o : Option ℕ) → AddsAll es (write_at from es o)
  write_at-AddsAll from es none = AddsAll-refl es
  write_at-AddsAll from es (some i) = merge_at-AddsAll from i es

  pub carry_turn-AddsAll :
      (idx : List ℕ) (i : ℕ) (from : AgentMsg) (es : List (Entry A))
      → AddsAll es (carry_turn idx i from es)
  unfolding carry_turn
  carry_turn-AddsAll idx i from es =
      elim (Bool-cases (is_empty (open_approvals from) && is_empty (open_questions from))) [
        | inl h ↦ rw h (AddsAll-refl es)
        | inr h ↦ rw h (write_at-AddsAll from es _)
      ]

  pub carry_turns-AddsAll :
      (idx : List ℕ) (i : ℕ) (froms : List AgentMsg) (es : List (Entry A))
      → AddsAll es (carry_turns idx i froms es)
  unfolding carry_turns
  carry_turns-AddsAll idx i [] es = AddsAll-refl es
  carry_turns-AddsAll idx i (from ∷ rest) es =
      AddsAll-trans (carry_turn-AddsAll idx i from es)
        (carry_turns-AddsAll idx (suc i) rest (carry_turn idx i from es))
