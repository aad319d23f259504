-- ===== src/Thread/Carry/Laws.antt =====
-- What a refresh keeps of a thread and of its open cards.
use cubestack.Prelude.{
  is_empty, ℕ, zero, suc, ◌-◌, ◌<◌, min, ◌≡◌, refl, ap, Text, Bool, true, false, ◌||◌, some, List,
  [], ◌∷◌, arith, map, any, length, get_elem?, update_at, All, All-map, Bool-cases, inl, inr,
}
use cubestack.Thread.{Entry, AgentMsg, AgentApproval}
use cubestack.Thread.Cards.{open_approvals, has_approval}
use cubestack.Thread.Cards.Laws.{has_approval-append}
use cubestack.Thread.Carry.{
  merge_open_cards, agent_indices, agents, merge_entry, carry_turn, carry_turns, carry_open_cards,
}
use cubestack.Thread.Carry.Adds.{
  AddsAll, empty, turn, same, AddsAll-refl, carry_turn-AddsAll, carry_turns-AddsAll,
  has_approval-add_all,
}

non_empty :
    (cards : List AgentApproval) (id : Text) → has_approval cards id ≡ true → is_empty cards ≡ false
non_empty [] id h = absurd (ground arith)
non_empty (c ∷ cards) id h = refl

All-map-suc : (P : ℕ → Type 0) (xs : List ℕ) → All (λ i. P (suc i)) xs → All P (map suc xs)
All-map-suc P [] h = tt
All-map-suc P (x ∷ xs) (p, h) = (p, All-map-suc P xs h)

All-get :
    (P : ℕ → Type 0) (xs : List ℕ) (j : ℕ)
    → All P xs
    → j < length xs
    → (i : ℕ) × (get_elem? xs j ≡ some i) × P i
All-get P [] j h k = elim k [ ]
All-get P (x ∷ xs) zero (p, h) k = (x, refl, p)
All-get P (x ∷ xs) (suc j) (p, h) k = All-get P xs j h (omega arith)

module _ {A : Type 0} where
  -- Some agent turn of the thread has a card for the approval.
  abbrev pub holds : Text → List (Entry A) → Bool
  holds id [] = false
  holds id (Entry.agent m ∷ es) = has_approval m.approvals id || holds id es
  holds id (Entry.other a ∷ es) = holds id es

  abbrev is_agent_at : List (Entry A) → ℕ → Bool
  is_agent_at [] i = false
  is_agent_at (Entry.agent m ∷ es) zero = true
  is_agent_at (Entry.other a ∷ es) zero = false
  is_agent_at (e ∷ es) (suc i) = is_agent_at es i

  holds-AddsAll :
      (id : Text) {ds es : List (Entry A)} → AddsAll ds es → holds id ds ≡ true → holds id es ≡ true
  holds-AddsAll id empty k = k
  holds-AddsAll id (turn {m} {n} (more, asked, e) h) k = ground (
    arith,
    has_approval-append m.approvals more id,
    holds-AddsAll id h,
    ap (λ (t : AgentMsg). has_approval t.approvals id) e,
  )
  holds-AddsAll id (same h) k = holds-AddsAll id h k

  is_agent_at-AddsAll :
      {ds es : List (Entry A)}
      → AddsAll ds es
      → (i : ℕ) → is_agent_at ds i ≡ true
      → is_agent_at es i ≡ true
  is_agent_at-AddsAll empty i k = k
  is_agent_at-AddsAll (turn p h) zero k = refl
  is_agent_at-AddsAll (turn p h) (suc i) k = is_agent_at-AddsAll h i k
  is_agent_at-AddsAll (same h) zero k = k
  is_agent_at-AddsAll (same h) (suc i) k = is_agent_at-AddsAll h i k

  -- At an agent turn the open approvals of the old turn arrive.
  holds-merge_at :
      (from : AgentMsg) (id : Text) (i : ℕ) (es : List (Entry A))
      → has_approval (open_approvals from) id ≡ true
      → is_agent_at es i ≡ true
      → holds id (update_at i (merge_entry from) es) ≡ true
  unfolding merge_open_cards
  holds-merge_at from id i [] h k = absurd (ground arith)
  holds-merge_at from id zero (Entry.agent m ∷ es) h k =
      ground (arith, has_approval-add_all m (open_approvals from) id)
  holds-merge_at from id zero (Entry.other a ∷ es) h k = absurd (ground arith)
  holds-merge_at from id (suc i) (Entry.agent m ∷ es) h k =
      ground (arith, holds-merge_at from id i es h k)
  holds-merge_at from id (suc i) (Entry.other a ∷ es) h k = holds-merge_at from id i es h k

  agent_indices-suc :
      (k : ℕ) (es : List (Entry A)) → agent_indices (suc k) es ≡ map suc (agent_indices k es)
  agent_indices-suc k [] = refl
  agent_indices-suc k (Entry.agent m ∷ es) = ap (λ t. suc k ∷ t) (agent_indices-suc (suc k) es)
  agent_indices-suc k (Entry.other a ∷ es) = agent_indices-suc (suc k) es

  agent_indices-agents :
      (es : List (Entry A)) → All (λ i. is_agent_at es i ≡ true) (agent_indices 0 es)
  agent_indices-agents [] = tt
  agent_indices-agents (Entry.agent m ∷ es) = (
    refl,
    rw (agent_indices-suc 0 es) (
        All-map-suc (λ i. is_agent_at (Entry.agent m ∷ es) i ≡ true) (agent_indices 0 es)
          (agent_indices-agents es)),
  )
  agent_indices-agents (Entry.other a ∷ es) = rw (agent_indices-suc 0 es) (
      All-map-suc (λ i. is_agent_at (Entry.other a ∷ es) i ≡ true) (agent_indices 0 es)
        (agent_indices-agents es))

  holds-carry_turn :
      (idx : List ℕ) (i : ℕ) (from : AgentMsg) (id : Text) (es : List (Entry A))
      → 0 < length idx
      → All (λ i. is_agent_at es i ≡ true) idx
      → has_approval (open_approvals from) id ≡ true
      → holds id (carry_turn idx i from es) ≡ true
  unfolding carry_turn
  holds-carry_turn idx i from id es pos all h =
      let (at, e, agent) =
        All-get (λ j. is_agent_at es j ≡ true) idx (min i (length idx - 1)) all (omega arith) in
      let some_open : is_empty (open_approvals from) ≡ false =
        non_empty (open_approvals from) id h in
      rw (some_open, e) (holds-merge_at from id at es h agent)

  holds-carry_turns :
      (idx : List ℕ) (i : ℕ) (froms : List AgentMsg) (id : Text) (es : List (Entry A))
      → 0 < length idx
      → All (λ i. is_agent_at es i ≡ true) idx
      → any (λ m. has_approval (open_approvals m) id) froms ≡ true
      → holds id (carry_turns idx i froms es) ≡ true
  unfolding carry_turns
  holds-carry_turns idx i [] id es pos all h = absurd (ground arith)
  holds-carry_turns idx i (from ∷ rest) id es pos all h =
      let out = carry_turn idx i from es in
      let kept =
        All-map (λ i. is_agent_at es i ≡ true) (λ i. is_agent_at out i ≡ true)
          (is_agent_at-AddsAll (carry_turn-AddsAll idx i from es)) idx all in
      elim (Bool-cases (has_approval (open_approvals from) id)) [
        | inl here ↦
            holds-AddsAll id (carry_turns-AddsAll idx (suc i) rest out)
              (holds-carry_turn idx i from id es pos all here)
        | inr later ↦ holds-carry_turns idx (suc i) rest id out pos kept (rw later at h)
      ]

  no_agents_from :
      (k : ℕ) (es : List (Entry A))
      → is_empty (agent_indices k es) ≡ true
      → is_empty (agents es) ≡ true
  no_agents_from k [] h = refl
  no_agents_from k (Entry.agent m ∷ es) h = h
  no_agents_from k (Entry.other a ∷ es) h = no_agents_from (suc k) es h

  no_agents :
      (es : List (Entry A))
      → is_empty (agent_indices 0 es) ≡ true
      → is_empty (agents es) ≡ false
      → ⊥
  no_agents es h k = ground (arith, no_agents_from 0 es h)

  length-agent_indices :
      (es : List (Entry A))
      → is_empty (agent_indices 0 es) ≡ false
      → 0 < length (agent_indices 0 es)
  length-agent_indices es h = ground arith

  -- A refresh adds cards to turns of the new transcript and changes nothing else of it. If the new
  -- transcript has an agent turn, every approval that is open in the old thread has a card in it.
  pub carry_open_cards-keeps :
      (prev next : List (Entry A))
      → AddsAll next (carry_open_cards prev next)
        × ((id : Text)
            → is_empty (agents next) ≡ false
            → any (λ m. has_approval (open_approvals m) id) (agents prev) ≡ true
            → holds id (carry_open_cards prev next) ≡ true)
  unfolding carry_open_cards
  carry_open_cards-keeps prev next = elim (Bool-cases (is_empty (agent_indices 0 next))) [
    | inl h ↦ rw h (AddsAll-refl next, λ id n k. absurd (no_agents next h n))
    | inr h ↦ rw h (
      carry_turns-AddsAll _ 0 (agents prev) next,
      λ id n k.
          holds-carry_turns _ 0 (agents prev) id next (length-agent_indices next h)
            (agent_indices-agents next) k,
    )
  ]
