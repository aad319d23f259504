-- ===== src/Thread/Tools/Laws.antt =====
-- Where a tool's result goes, and what it leaves alone.
use cubestack.Prelude.{
  ℕ, suc, ◌≡◌, refl, ◌↔◌, true, false, Option, none, some, List, [], ◌∷◌, ◌++◌, append-nil, arith,
  Text, codes, update_at, All, Option-cases, inl, inr, or_else, find_index-none, find_index-eq-none,
  find_index-append, update_at-append, All-map, All-both, length, ap,
}
use cubestack.Thread.{AgentBlock, ToolBlock}
use cubestack.Thread.Tools.{
  target, by_id, by_arrival, attach_tool_result, attach_at, with_result, joined, answers_open,
  answers_call, is_open, has_no_output, on_tool,
}

-- A later state of a block: the text is the same, and a call keeps its identity, stays finished
-- once it is, and only adds to its output.
abbrev pub Extends : AgentBlock → AgentBlock → Type 0
Extends (AgentBlock.text b) (AgentBlock.text c) = b ≡ c
Extends (AgentBlock.tool b) (AgentBlock.tool c) =
    (c.call_id ≡ b.call_id)
    × (c.name ≡ b.name)
    × (c.args ≡ b.args)
    × (b.done ≡ true → c.done ≡ true)
    × ((old : Text) → b.output ≡ some old → (more : Text) × (c.output ≡ some (old ++ more)))
Extends _ _ = ⊥

abbrev pub Extend : List AgentBlock → List AgentBlock → Type 0
Extend [] [] = Unit
Extend (b ∷ bs) (c ∷ cs) = Extends b c × Extend bs cs
Extend _ _ = ⊥

joined_more :
    (o : Option Text) (old out : Text) → o ≡ some old → (more : Text) × (joined o out ≡ old ++ more)
joined_more none old out h = absurd (ground arith)
joined_more (some []) old out h = (out, ground arith)
joined_more (some (c ∷ cs)) old out h = (codes "\n" ++ out, ground arith)

Extends-refl : (b : AgentBlock) → Extends b b
Extends-refl (AgentBlock.text b) = refl
Extends-refl (AgentBlock.tool b) = (refl, refl, refl, λ h. h, λ old h. ([], rw append-nil h))

Extends-with_result : (out : Text) (b : AgentBlock) → Extends b (with_result out b)
Extends-with_result out (AgentBlock.text b) = refl
Extends-with_result out (AgentBlock.tool b) = (
  refl,
  refl,
  refl,
  λ _. refl,
  λ old h. let (more, e) = joined_more b.output old out h in (more, ground arith),
)

Extend-refl : (bs : List AgentBlock) → Extend bs bs
Extend-refl [] = tt
Extend-refl (b ∷ bs) = (Extends-refl b, Extend-refl bs)

Extend-update_at :
    (out : Text) (i : ℕ) (bs : List AgentBlock) → Extend bs (update_at i (with_result out) bs)
Extend-update_at out i [] = tt
Extend-update_at out ℕ.zero (b ∷ bs) = (Extends-with_result out b, Extend-refl bs)
Extend-update_at out (suc i) (b ∷ bs) = (Extends-refl b, Extend-update_at out i bs)

-- A result, whatever its id, changes no text, drops and reorders no block, takes no call back to
-- unfinished, and keeps every output that is recorded as the beginning of the new one.
pub attach-Extend :
    (bs : List AgentBlock) (id : Option Text) (out : Text)
    → Extend bs (attach_tool_result bs id out)
unfolding attach_tool_result attach_at
attach-Extend bs id out = elim (Option-cases (target bs id)) [
  | inl e ↦ rw (e, attach_at) (Extend-refl bs)
  | inr (i, e) ↦ rw (e, attach_at) (Extend-update_at out i bs)
]

-- No call carries the id; an absent or empty id is carried by none.
abbrev pub Unmatched : Option Text → List AgentBlock → Type 0
Unmatched (some (c ∷ cs)) bs = All (λ b. on_tool (answers_call (c ∷ cs)) b ≡ false) bs
Unmatched _ bs = Unit

-- Each call is finished and has an output.
abbrev pub Answered : AgentBlock → Type 0
Answered b = (on_tool is_open b ≡ false) × (on_tool has_no_output b ≡ false)

-- An open call with the id of the result takes it, the first such one, and no other block changes.
pub attach-append_match :
    (pre post : List AgentBlock) (b : ToolBlock) (c : ℕ) (cs out : Text)
    → All (λ a. on_tool (answers_open (c ∷ cs)) a ≡ false) pre
    → answers_open (c ∷ cs) b ≡ true
    → attach_tool_result (pre ++ AgentBlock.tool b ∷ post) (some (c ∷ cs)) out
      ≡ pre ++ with_result out (AgentBlock.tool b) ∷ post
unfolding attach_tool_result
attach-append_match pre post b c cs out h e =
    rw (find_index-append (on_tool (answers_open (c ∷ cs))) pre post (AgentBlock.tool b) h e)
      (update_at-append (with_result out) pre post (AgentBlock.tool b))

or_else-none {ℓ} : {A : Type ℓ} (o p : Option A) → or_else o p ≡ none → (o ≡ none) × (p ≡ none)
or_else-none none p h = (refl, h)
or_else-none (some a) p h = absurd (ground arith)

Unmatched-by_id : (bs : List AgentBlock) (id : Option Text) → by_id bs id ≡ none → Unmatched id bs
unfolding by_id
Unmatched-by_id bs none h = tt
Unmatched-by_id bs (some []) h = tt
Unmatched-by_id bs (some (c ∷ cs)) h =
    find_index-none (on_tool (answers_call (c ∷ cs))) bs (or_else-none _ _ h).1

open-answers_call :
    (id : Text) (b : AgentBlock)
    → on_tool (answers_call id) b ≡ false
    → on_tool (answers_open id) b ≡ false
open-answers_call id (AgentBlock.text b) h = refl
open-answers_call id (AgentBlock.tool b) h = rw h

by_id-Unmatched : (bs : List AgentBlock) (id : Option Text) → Unmatched id bs → by_id bs id ≡ none
unfolding by_id
by_id-Unmatched bs none h = refl
by_id-Unmatched bs (some []) h = refl
by_id-Unmatched bs (some (c ∷ cs)) h =
    rw
      (find_index-eq-none (on_tool (answers_open (c ∷ cs))) bs (
        All-map (λ b. on_tool (answers_call (c ∷ cs)) b ≡ false)
          (λ b. on_tool (answers_open (c ∷ cs)) b ≡ false) (open-answers_call (c ∷ cs)) bs h))
      (find_index-eq-none (on_tool (answers_call (c ∷ cs))) bs h)

-- A result is dropped exactly when no call carries its id and each call of the turn is finished
-- and has an output.
pub target-eq-none_iff :
    (bs : List AgentBlock) (id : Option Text)
    → (target bs id ≡ none) ↔ (Unmatched id bs × All Answered bs)
unfolding target by_arrival
target-eq-none_iff bs id = (
  λ h.
      let (a, r) = or_else-none _ _ h in
      let (o, n) = or_else-none _ _ r in
      (
        Unmatched-by_id bs id a,
        All-both _ _ bs (find_index-none (on_tool is_open) bs o)
            (find_index-none (on_tool has_no_output) bs n),
      ),
  λ h.
      rw
        (
          by_id-Unmatched bs id h.0,
          find_index-eq-none (on_tool is_open) bs (All-map Answered _ (λ b q. q.0) bs h.1),
        )
        (find_index-eq-none (on_tool has_no_output) bs (All-map Answered _ (λ b q. q.1) bs h.1)),
)

length-Extend : (bs cs : List AgentBlock) → Extend bs cs → length cs ≡ length bs
length-Extend [] [] h = refl
length-Extend (b ∷ bs) (c ∷ cs) h = ap suc (length-Extend bs cs h.1)
length-Extend [] (c ∷ cs) h = elim h [ ]
length-Extend (b ∷ bs) [] h = elim h [ ]

pub length-attach :
    (bs : List AgentBlock) (id : Option Text) (out : Text)
    → length (attach_tool_result bs id out) ≡ length bs
length-attach bs id out = length-Extend bs (attach_tool_result bs id out) (attach-Extend bs id out)
