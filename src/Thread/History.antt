-- ===== src/Thread/History.antt =====
-- agentThread.ts: the runtime's history document folded into a thread.
pub mod Laws
use cubestack.Prelude.{
  ℕ, suc, Text, codes, join, trim, is_truthy, map, filter, Bool, true, false, Option, none, some,
  List, [], ◌∷◌, ◌++◌, get_or, if◌then◌else◌,
}
use cubestack.Thread.{
  Entry, AgentMsg, AgentPhase, AgentBlock, TextBlock, UserMsg, ThreadMsg, new_agent_msg,
}
use cubestack.Thread.Tools.{attach_tool_result}
use cubestack.Thread.Args.{Json, JsonText, fmt_tool_args}

pub data BlockType : Type 0 where
  text tool_call : BlockType

pub record HistoryBlock : Type 0 where
  pub type : BlockType
  pub text : Option Text
  pub name : Option Text
  pub id : Option Text
  pub arguments : Option Json

pub data HistoryContent : Type 0 where
  plain : Text → HistoryContent
  blocks : List HistoryBlock → HistoryContent

pub data HistoryRole : Type 0 where
  user assistant tool_result : HistoryRole

pub record HistoryMessage : Type 0 where
  pub role : HistoryRole
  pub content : HistoryContent
  pub tool_call_id : Option Text

-- The thread so far, and how many ids were drawn from `nextId`.
pub record Folding : Type 0 where
  pub out : List ThreadMsg
  pub drawn : ℕ

abbrev pub is_text_type : BlockType → Bool
is_text_type BlockType.text = true
is_text_type BlockType.tool_call = false

abbrev pub is_text_block : HistoryBlock → Bool
is_text_block b = is_text_type b.type

abbrev pub block_text : HistoryBlock → Text
block_text b = get_or b.text []

-- The text of a user message: its text blocks, a line for each.
abbrev pub user_text : HistoryContent → Text
user_text (HistoryContent.plain t) = t
user_text (HistoryContent.blocks bs) = join (codes "\n") (map block_text (filter is_text_block bs))

-- The output of a tool result: the text of every block, whatever its type.
abbrev pub result_text : HistoryContent → Text
result_text (HistoryContent.plain t) = t
result_text (HistoryContent.blocks bs) = join (codes "\n") (map block_text bs)

-- A plain text read as one text block.
abbrev pub blocks_of : HistoryContent → List HistoryBlock
blocks_of (HistoryContent.plain t) =
    record { type = BlockType.text; text = some t; name = none; id = none; arguments = none } ∷ []
blocks_of (HistoryContent.blocks bs) = bs

-- The last agent block of a turn grows by a paragraph, or a text block is added.
abbrev pub add_paragraph : List AgentBlock → Text → List AgentBlock
add_paragraph [] t = AgentBlock.text (record { text = t; superseded = none; block_id = none }) ∷ []
add_paragraph (AgentBlock.text b ∷ []) t =
    AgentBlock.text (record b { text = b.text ++ (codes "\n\n" ++ t) }) ∷ []
add_paragraph (AgentBlock.tool b ∷ []) t =
    AgentBlock.tool b
    ∷ AgentBlock.text (record { text = t; superseded = none; block_id = none })
    ∷ []
add_paragraph (b ∷ c ∷ bs) t = b ∷ add_paragraph (c ∷ bs) t

module _ (runtime : JsonText) where
  -- One round of the loop over the blocks of an assistant message.
  fold_block : List AgentBlock → HistoryBlock → BlockType → List AgentBlock
  fold_block bs b BlockType.tool_call =
      bs
      ++ AgentBlock.tool (record {
        call_id = b.id;
        name = get_or b.name (codes "tool");
        args = fmt_tool_args runtime b.arguments;
        output = none;
        done = false;
      })
        ∷ []
  fold_block bs b BlockType.text =
      if is_truthy (block_text b) then add_paragraph bs (block_text b) else bs

  fold_blocks : List AgentBlock → List HistoryBlock → List AgentBlock
  unfolding fold_block
  fold_blocks bs [] = bs
  fold_blocks bs (b ∷ rest) = fold_blocks (fold_block bs b b.type) rest

  -- The blocks of a turn after an assistant message or a tool result.
  fold_content : HistoryRole → HistoryMessage → List AgentBlock → List AgentBlock
  unfolding fold_blocks
  fold_content HistoryRole.tool_result it bs =
      attach_tool_result bs it.tool_call_id (result_text it.content)
  fold_content _ it bs = fold_blocks bs (blocks_of it.content)

  module _ (next_id : ℕ → ℕ) (now : ℕ) where
    finished : ℕ → List AgentBlock → ThreadMsg
    unfolding new_agent_msg
    finished id bs =
        Entry.agent (record (new_agent_msg id now) { phase = AgentPhase.done; blocks = bs })

    -- The trailing agent bubble is reused; after a user's message, or at the start, there is a new one.
    fold_agent : HistoryMessage → List ThreadMsg → ℕ → Folding
    unfolding finished fold_content
    fold_agent it [] n = record {
      out = finished (next_id n) (fold_content it.role it []) ∷ [];
      drawn = suc n;
    }
    fold_agent it (Entry.agent m ∷ []) n = record {
      out = Entry.agent (record m { blocks = fold_content it.role it m.blocks }) ∷ [];
      drawn = n;
    }
    fold_agent it (Entry.other u ∷ []) n = record {
      out = Entry.other u ∷ finished (next_id n) (fold_content it.role it []) ∷ [];
      drawn = suc n;
    }
    fold_agent it (e ∷ d ∷ es) n =
        let rest = fold_agent it (d ∷ es) n in record { out = e ∷ rest.out; drawn = rest.drawn }

    fold_user : HistoryMessage → Folding → Folding
    fold_user it s =
        if is_truthy (trim (user_text it.content))
        then record {
          out =
              s.out
              ++ Entry.other (record { id = next_id s.drawn; text = user_text it.content }) ∷ [];
          drawn = suc s.drawn;
        }
        else s

    fold_item : HistoryRole → HistoryMessage → Folding → Folding
    unfolding fold_user fold_agent
    fold_item HistoryRole.user it s = fold_user it s
    fold_item _ it s = fold_agent it s.out s.drawn

    fold_items : List HistoryMessage → Folding → Folding
    unfolding fold_item
    fold_items [] s = s
    fold_items (it ∷ items) s = fold_items items (fold_item it.role it s)

    -- The k-th call of `nextId` returns `next_id k`.
    unfoldable pub history_to_msgs : List HistoryMessage → List ThreadMsg
    unfolding fold_items
    history_to_msgs items = (fold_items items (record { out = []; drawn = 0 })).out
