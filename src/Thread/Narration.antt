-- ===== src/Thread/Narration.antt =====
-- agentThread.ts: the text of a turn. Narration snapshots, streamed deltas and rewrites.
pub mod Laws
pub mod Answer
use cubestack.Prelude.{
  ℕ, Text, text_eq, is_text, is_truthy, Bool, true, false, not, ◌&&◌, if◌then◌else◌, Option, none,
  some, get_or, is_some, List, [], ◌∷◌, ◌++◌, find_index, update_at, get_elem?,
}
use cubestack.Thread.{AgentBlock, TextBlock, AgentMsg}

-- `b.kind === "text" && b.blockId === blockId`
abbrev pub is_narration : Text → AgentBlock → Bool
is_narration id (AgentBlock.text b) = is_text b.block_id id
is_narration id (AgentBlock.tool b) = false

abbrev pub with_text : Text → AgentBlock → AgentBlock
with_text t (AgentBlock.text b) = AgentBlock.text (record b { text = t })
with_text t (AgentBlock.tool b) = AgentBlock.tool b

abbrev pub shows : Text → Option AgentBlock → Bool
shows t (some (AgentBlock.text b)) = text_eq b.text t
shows t _ = false

abbrev pub text_block : Text → Option Text → AgentBlock
text_block t id = AgentBlock.text (record { text = t; superseded = none; block_id = id })

narrate_at : AgentMsg → Text → Text → Option ℕ → AgentMsg
narrate_at msg id t none = record msg { blocks = msg.blocks ++ text_block t (some id) ∷ [] }
narrate_at msg id t (some i) =
    if shows t (get_elem? msg.blocks i)
    then msg
    else record msg { blocks = update_at i (with_text t) msg.blocks }

unfoldable pub narrate : AgentMsg → Text → Text → AgentMsg
unfolding narrate_at
narrate msg id t = narrate_at msg id t (find_index (is_narration id) msg.blocks)

-- The last block, where it is the turn's own text.
unfoldable pub answer_block : List AgentBlock → Option TextBlock
answer_block [] = none
answer_block (AgentBlock.text b ∷ []) = if is_some b.block_id then none else some b
answer_block (AgentBlock.tool b ∷ []) = none
answer_block (b ∷ c ∷ bs) = answer_block (c ∷ bs)

-- `blocks[blocks.length - 1] = b`
abbrev pub set_last : AgentBlock → List AgentBlock → List AgentBlock
set_last b [] = []
set_last b (c ∷ []) = b ∷ []
set_last b (c ∷ d ∷ bs) = c ∷ set_last b (d ∷ bs)

append_to : List AgentBlock → Text → Option TextBlock → List AgentBlock
append_to blocks delta none = blocks ++ text_block delta none ∷ []
append_to blocks delta (some cur) =
    set_last (AgentBlock.text (record cur { text = cur.text ++ delta })) blocks

unfoldable pub append_text : AgentMsg → Text → AgentMsg
unfolding append_to answer_block
append_text msg delta = record msg { blocks = append_to msg.blocks delta (answer_block msg.blocks) }

-- `...(superseded?.length ? { superseded } : {})`
abbrev pub drop_empty : Option (List Text) → Option (List Text)
drop_empty (some (t ∷ ts)) = some (t ∷ ts)
drop_empty _ = none

displaced : TextBlock → Text → Option (List Text)
displaced last next =
    if is_truthy last.text && not (text_eq last.text next)
    then some (get_or last.superseded [] ++ last.text ∷ [])
    else last.superseded

rewritten : TextBlock → Text → AgentBlock
rewritten last next =
    AgentBlock.text
      (record { text = next; superseded = drop_empty (displaced last next); block_id = none })

replace_in : List AgentBlock → Text → Option TextBlock → List AgentBlock
replace_in blocks next none = blocks ++ text_block next none ∷ []
replace_in blocks next (some last) = set_last (rewritten last next) blocks

unfoldable pub replace_text : AgentMsg → Text → AgentMsg
unfolding replace_in rewritten displaced answer_block
replace_text msg next = record msg { blocks = replace_in msg.blocks next (answer_block msg.blocks) }
