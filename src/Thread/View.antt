-- ===== src/Thread/View.antt =====
-- agentThread.ts: the line of a collapsed tool card, and the answers that a question's card shows.
use cubestack.Prelude.{
  ℕ, ltb, ◌==◌, Text, codes, text_eq, includes, is_empty, onto_first, trim, trim_end, Option, none,
  some, get_or, List, [], ◌∷◌, ◌++◌, map, filter, length, take, if◌then◌else◌,
}
use cubestack.Thread.{AgentQuestion, QuestionItem}

abbrev pub tool_summary_chars : ℕ
tool_summary_chars = 160

-- `args.split("\n")`
abbrev pub split_newlines : Text → List Text
split_newlines [] = [] ∷ []
split_newlines (c ∷ t) =
    let rest = split_newlines t in if c == 10 then [] ∷ rest else onto_first c rest

abbrev pub first_filled : List Text → Text
first_filled [] = []
first_filled (l ∷ ls) = let rest = first_filled ls in if is_empty (trim l) then rest else trim l

abbrev pub cut : Text → Text
cut line =
    if ltb tool_summary_chars (length line)
    then trim_end (take tool_summary_chars line) ++ codes "…"
    else line

unfoldable pub tool_summary : Option Text → Text
tool_summary none = []
tool_summary (some args) = cut (first_filled (split_newlines args))

-- A `Record`, in the order of the first write of each key
abbrev pub with_key {ℓ} : {A : Type ℓ} → Text → A → List (Text × A) → List (Text × A)
with_key key a [] = (key, a) ∷ []
with_key key a ((name, old) ∷ rest) =
    let more = with_key key a rest in
    if text_eq name key then (name, a) ∷ rest else (name, old) ∷ more

abbrev pub under_key {ℓ} : {A : Type ℓ} → Text → List (Text × A) → Option A
under_key key [] = none
under_key key ((name, a) ∷ rest) =
    let more = under_key key rest in if text_eq name key then some a else more

pub record SeededAnswers : Type 0 where
  pub picked : List (Text × List Text)
  pub other : List (Text × Text)

abbrev pub labels_of : QuestionItem → List Text
labels_of item = map (λ o. o.label) (get_or item.options [])

abbrev pub typed_in : List Text → List Text → Text
typed_in labels [] = []
typed_in labels (a ∷ rest) =
    let more = typed_in labels rest in if includes labels a then more else a

abbrev pub add_picked : Text → List Text → SeededAnswers → SeededAnswers
add_picked id chosen seeded =
    if is_empty chosen then seeded else record seeded { picked = with_key id chosen seeded.picked }

abbrev pub add_other : Text → Text → SeededAnswers → SeededAnswers
add_other id typed seeded =
    if is_empty typed then seeded else record seeded { other = with_key id typed seeded.other }

abbrev pub seed_item : Option (List Text) → QuestionItem → SeededAnswers → SeededAnswers
seed_item none item seeded = seeded
seed_item (some given) item seeded =
    add_other item.question_id (typed_in (labels_of item) given)
      (add_picked item.question_id (filter (includes (labels_of item)) given) seeded)

abbrev pub seed_items : List (Text × List Text) → List QuestionItem → SeededAnswers → SeededAnswers
seed_items answers [] seeded = seeded
seed_items answers (item ∷ items) seeded =
    seed_items answers items (seed_item (under_key item.question_id answers) item seeded)

unfoldable pub seed_answers : AgentQuestion → SeededAnswers
seed_answers q = seed_items (get_or q.answers []) q.questions (record { picked = []; other = [] })
