-- ===== src/Thread/Tools.antt =====
-- agentThread.ts: pairing a tool's result with its call.
pub mod Laws
pub mod Order
use cubestack.Prelude.{
  ℕ, Text, codes, is_text, is_truthy, Bool, true, false, not, ◌&&◌, Option, none, some, is_some,
  or_else, List, [], ◌∷◌, ◌++◌, find_index, update_at,
}
use cubestack.Thread.{AgentBlock, ToolBlock}

-- `tools.find(p)?.i`: the first call that passes, by its place among the blocks.
abbrev pub on_tool : (ToolBlock → Bool) → AgentBlock → Bool
on_tool p (AgentBlock.tool b) = p b
on_tool p (AgentBlock.text b) = false

abbrev pub find_tool : (ToolBlock → Bool) → List AgentBlock → Option ℕ
find_tool p blocks = find_index (on_tool p) blocks

abbrev pub answers_open : Text → ToolBlock → Bool
answers_open id b = is_text b.call_id id && not b.done

abbrev pub answers_call : Text → ToolBlock → Bool
answers_call id b = is_text b.call_id id

abbrev pub is_open : ToolBlock → Bool
is_open b = not b.done

abbrev pub has_no_output : ToolBlock → Bool
has_no_output b = not (is_some b.output)

-- An absent or empty id pairs with nothing.
by_id : List AgentBlock → Option Text → Option ℕ
by_id blocks none = none
by_id blocks (some []) = none
by_id blocks (some id) =
    or_else (find_tool (answers_open id) blocks) (find_tool (answers_call id) blocks)

by_arrival : List AgentBlock → Option ℕ
by_arrival blocks = or_else (find_tool is_open blocks) (find_tool has_no_output blocks)

unfoldable pub target : List AgentBlock → Option Text → Option ℕ
unfolding by_id by_arrival
target blocks id = or_else (by_id blocks id) (by_arrival blocks)

-- `b.output ? b.output + "\n" + output : output`
abbrev pub joined : Option Text → Text → Text
joined none output = output
joined (some []) output = output
joined (some (c ∷ old)) output = (c ∷ old) ++ (codes "\n" ++ output)

abbrev pub with_result : Text → AgentBlock → AgentBlock
with_result output (AgentBlock.tool b) =
    AgentBlock.tool (record b { output = some (joined b.output output); done = true })
with_result output (AgentBlock.text b) = AgentBlock.text b

attach_at : List AgentBlock → Text → Option ℕ → List AgentBlock
attach_at blocks output none = blocks
attach_at blocks output (some i) = update_at i (with_result output) blocks

unfoldable pub attach_tool_result : List AgentBlock → Option Text → Text → List AgentBlock
unfolding attach_at target
attach_tool_result blocks id output = attach_at blocks output (target blocks id)
