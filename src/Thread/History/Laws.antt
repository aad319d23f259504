-- ===== src/Thread/History/Laws.antt =====
-- The thread that a history document is read as.
use cubestack.Prelude.{
  join, codes, get_or, ◌≡◌, Text, trim, is_truthy, List, [], ◌∷◌, ◌++◌, if◌then◌else◌,
}
use cubestack.Thread.{Entry, AgentMsg, AgentPhase, ThreadMsg}
use cubestack.Thread.History.{HistoryMessage, HistoryRole, HistoryBlock, HistoryContent, BlockType}

-- The texts of a thread's user messages.
abbrev pub user_texts : List ThreadMsg → List Text
user_texts [] = []
user_texts (Entry.agent m ∷ es) = user_texts es
user_texts (Entry.other u ∷ es) = u.text ∷ user_texts es

abbrev with_line : BlockType → Text → List Text → List Text
with_line BlockType.text t ts = t ∷ ts
with_line BlockType.tool_call t ts = ts

-- The texts of the blocks of text, in their order
abbrev pub text_lines : List HistoryBlock → List Text
text_lines [] = []
text_lines (b ∷ bs) = with_line b.type (get_or b.text []) (text_lines bs)

-- What a message says: a plain text as it is, of blocks the texts, a line for each.
abbrev pub said : HistoryContent → Text
said (HistoryContent.plain t) = t
said (HistoryContent.blocks bs) = join (codes "\n") (text_lines bs)

-- The prompts of a document: the texts of the user messages that are not blank.
abbrev pub prompt_of : HistoryRole → HistoryMessage → List Text
prompt_of HistoryRole.user it =
    if is_truthy (trim (said it.content)) then said it.content ∷ [] else []
prompt_of _ it = []

abbrev pub prompts : List HistoryMessage → List Text
prompts [] = []
prompts (it ∷ items) = prompt_of it.role it ++ prompts items

-- No two agent turns are neighbours, and each is over and has no cards.
abbrev pub IsRestored : AgentMsg → Type 0
IsRestored m = (m.phase ≡ AgentPhase.done) × (m.approvals ≡ []) × (m.questions ≡ [])

abbrev pub IsTranscript : List ThreadMsg → Type 0
IsTranscript [] = Unit
IsTranscript (Entry.other u ∷ es) = IsTranscript es
IsTranscript (Entry.agent m ∷ []) = IsRestored m
IsTranscript (Entry.agent m ∷ Entry.agent n ∷ es) = ⊥
IsTranscript (Entry.agent m ∷ Entry.other u ∷ es) = IsRestored m × IsTranscript es
