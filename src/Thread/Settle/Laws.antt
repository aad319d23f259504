-- ===== src/Thread/Settle/Laws.antt =====
-- What a sweep of the cards settles.
use cubestack.Prelude.{
  subst, sym, Text, text_eq_refl, ◌≡◌, refl, ap, inl, inr, Bool, true, false, not, ◌||◌, List, [],
  ◌∷◌, ◌++◌, arith, map, map-append, includes, All, All-map, All-append, if◌then◌else◌, Bool-cases,
  filter,
}
use cubestack.Thread.{Entry, AgentApproval, AgentQuestion}
use cubestack.Thread.Cards.{open_approvals, is_open_approval}
use cubestack.Thread.Settle.{
  CardKind, settle_approval, settle_entry, settle_cards_absent, open_approval_ids, open_card_ids,
  is_pending_approval,
}

-- The approvals of a thread, turn by turn.
abbrev pub thread_approvals : {A : Type 0} → List (Entry A) → List AgentApproval
thread_approvals [] = []
thread_approvals (Entry.agent m ∷ es) = m.approvals ++ thread_approvals es
thread_approvals (Entry.other a ∷ es) = thread_approvals es

abbrev pub thread_questions : {A : Type 0} → List (Entry A) → List AgentQuestion
thread_questions [] = []
thread_questions (Entry.agent m ∷ es) = m.questions ++ thread_questions es
thread_questions (Entry.other a ∷ es) = thread_questions es

map-approvals :
    {A : Type 0} (pending before : List Text) (es : List (Entry A))
    → thread_approvals (map (settle_entry pending before CardKind.approvals) es)
      ≡ map (settle_approval pending before) (thread_approvals es)
map-approvals pending before [] = refl
map-approvals pending before (Entry.other a ∷ es) = map-approvals pending before es
map-approvals pending before (Entry.agent m ∷ es) = rw (map-append, map-approvals pending before es)

includes-append :
    (xs ys : List Text) (t : Text) → includes (xs ++ ys) t ≡ (includes xs t || includes ys t)
includes-append [] ys t = refl
includes-append (x ∷ xs) ys t = ground (arith, includes-append xs ys t)

-- The ids before cover the cards that are open.
abbrev Covers : List Text → List AgentApproval → Type 0
Covers ids cards = All (λ a. is_open_approval a.state ≡ true → includes ids a.call_id ≡ true) cards

Covers-more :
    (ids more : List Text) (cards : List AgentApproval)
    → Covers ids cards
    → Covers (ids ++ more) cards
Covers-more ids more cards h =
    All-map _ _ (λ a k o. ground (arith, includes-append ids more a.call_id, k o)) cards h

Covers-before :
    (ids more : List Text) (cards : List AgentApproval)
    → Covers ids cards
    → Covers (more ++ ids) cards
Covers-before ids more cards h =
    All-map _ _ (λ a k o. ground (arith, includes-append more ids a.call_id, k o)) cards h

open_ids : List AgentApproval → List Text
open_ids cards = map (λ a. a.call_id) (filter (λ a. is_open_approval a.state) cards)

Covers-cons :
    (t : Text) (ids : List Text) (cards : List AgentApproval)
    → Covers ids cards
    → Covers (t ∷ ids) cards
Covers-cons t ids cards h = Covers-before ids (t ∷ []) cards h

open_ids-open :
    (a : AgentApproval) (cards : List AgentApproval)
    → is_open_approval a.state ≡ true
    → open_ids (a ∷ cards) ≡ a.call_id ∷ open_ids cards
unfolding open_ids
open_ids-open a cards h = rw h

open_ids-closed :
    (a : AgentApproval) (cards : List AgentApproval)
    → is_open_approval a.state ≡ false
    → open_ids (a ∷ cards) ≡ open_ids cards
unfolding open_ids
open_ids-closed a cards h = rw h

Covers-open_ids : (cards : List AgentApproval) → Covers (open_ids cards) cards
Covers-open_ids [] = tt
Covers-open_ids (a ∷ cards) = elim (Bool-cases (is_open_approval a.state)) [
  | inl o ↦
      subst (λ ids. Covers ids (a ∷ cards)) (sym (open_ids-open a cards o))
        (
          λ _. ground (arith, text_eq_refl a.call_id),
          Covers-cons a.call_id (open_ids cards) cards (Covers-open_ids cards),
        )
  | inr o ↦
      subst (λ ids. Covers ids (a ∷ cards)) (sym (open_ids-closed a cards o))
        (λ k. absurd (ground arith), Covers-open_ids cards)
]

Covers-snapshot :
    {A : Type 0} (es : List (Entry A)) → Covers (open_approval_ids es) (thread_approvals es)
unfolding open_approvals open_ids
Covers-snapshot [] = tt
Covers-snapshot (Entry.other a ∷ es) = Covers-snapshot es
Covers-snapshot (Entry.agent m ∷ es) =
    All-append _ m.approvals (thread_approvals es)
      (Covers-more _ (open_approval_ids es) m.approvals (Covers-open_ids m.approvals))
      (Covers-before (open_approval_ids es) _ (thread_approvals es) (Covers-snapshot es))

-- A pending card is one that the read carries.
abbrev pub InRead : List Text → AgentApproval → Type 0
InRead read a = is_pending_approval a.state ≡ true → includes read a.call_id ≡ true

settle-InRead :
    (read before : List Text) (cards : List AgentApproval)
    → Covers before cards
    → All (InRead read) (map (settle_approval read before) cards)
settle-InRead read before [] h = tt
settle-InRead read before (a ∷ cards) (p, h) = (ground arith, settle-InRead read before cards h)

abbrev pub is_deciding : AgentApproval → Bool
is_deciding a = if is_open_approval a.state then not (is_pending_approval a.state) else false

settle-deciding :
    (read before : List Text) (cards : List AgentApproval)
    → filter is_deciding (map (settle_approval read before) cards) ≡ filter is_deciding cards
settle-deciding read before [] = refl
settle-deciding read before (a ∷ cards) = ground (arith, settle-deciding read before cards)

settle-settle :
    (read before : List Text) (cards : List AgentApproval)
    → map (settle_approval read before) (map (settle_approval read before) cards)
      ≡ map (settle_approval read before) cards
settle-settle read before [] = refl
settle-settle read before (a ∷ cards) = ground (arith, settle-settle read before cards)

settle_entries-settle :
    {A : Type 0} (read before : List Text) (es : List (Entry A))
    → map
        (settle_entry read before CardKind.approvals)
        (map (settle_entry read before CardKind.approvals) es)
      ≡ map (settle_entry read before CardKind.approvals) es
settle_entries-settle read before [] = refl
settle_entries-settle read before (Entry.other a ∷ es) =
    ap (λ t. Entry.other a ∷ t) (settle_entries-settle read before es)
settle_entries-settle read before (Entry.agent m ∷ es) =
    cc (settle-settle read before m.approvals, settle_entries-settle read before es)

settle-questions :
    {A : Type 0} (read before : List Text) (es : List (Entry A))
    → thread_questions (map (settle_entry read before CardKind.approvals) es) ≡ thread_questions es
settle-questions read before [] = refl
settle-questions read before (Entry.other a ∷ es) = settle-questions read before es
settle-questions read before (Entry.agent m ∷ es) = rw (settle-questions read before es)

-- The approvals that the read carries.
abbrev pub carried : List Text → List AgentApproval → List AgentApproval
carried read cards = filter (λ a. includes read a.call_id) cards

settle-carried :
    (read before : List Text) (cards : List AgentApproval)
    → carried read (map (settle_approval read before) cards) ≡ carried read cards
settle-carried read before [] = refl
settle-carried read before (a ∷ cards) = ground (arith, settle-carried read before cards)

-- A sweep by a read of the pending approvals, over the cards that were open before it: each
-- approval that is pending afterwards is in the read, one that the read carries and one that is
-- being decided here are as they were, no question changes, and the same sweep again changes
-- nothing.
pub settle_cards_absent-sweep :
    {A : Type 0} (es : List (Entry A)) (read : List Text)
    → let before = (open_card_ids es).0 in
      let out = settle_cards_absent es CardKind.approvals read before in
      All (InRead read) (thread_approvals out)
      × (carried read (thread_approvals out) ≡ carried read (thread_approvals es))
      × (filter is_deciding (thread_approvals out) ≡ filter is_deciding (thread_approvals es))
      × (thread_questions out ≡ thread_questions es)
      × (settle_cards_absent out CardKind.approvals read before ≡ out)
unfolding settle_cards_absent open_card_ids
settle_cards_absent-sweep es read =
    let before = open_approval_ids es in
    (
      rw (map-approvals read before es)
          (settle-InRead read before (thread_approvals es) (Covers-snapshot es)),
      rw (map-approvals read before es) (settle-carried read before (thread_approvals es)),
      rw (map-approvals read before es) (settle-deciding read before (thread_approvals es)),
      settle-questions read before es,
      settle_entries-settle read before es,
    )

-- The approvals that the snapshot does not list.
abbrev pub arrived : List Text → List AgentApproval → List AgentApproval
arrived before cards = filter (λ a. not (includes before a.call_id)) cards

settle-arrived :
    (read before : List Text) (cards : List AgentApproval)
    → arrived before (map (settle_approval read before) cards) ≡ arrived before cards
settle-arrived read before [] = refl
settle-arrived read before (a ∷ cards) = ground (arith, settle-arrived read before cards)

-- A sweep leaves the approvals as they were that arrived after its snapshot, whatever the read says.
pub settle_cards_absent-arrived :
    {A : Type 0} (es : List (Entry A)) (read before : List Text)
    → arrived before (thread_approvals (settle_cards_absent es CardKind.approvals read before))
      ≡ arrived before (thread_approvals es)
unfolding settle_cards_absent
settle_cards_absent-arrived es read before =
    rw (map-approvals read before es) (settle-arrived read before (thread_approvals es))
