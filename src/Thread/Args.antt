-- ===== src/Thread/Args.antt =====
-- agentThread.ts: the display line of a tool call's arguments, with secrets masked.
pub mod Laws
use cubestack.Prelude.{
  ℕ, Text, codes, map, Bool, true, false, Option, none, some, List, [], ◌∷◌, ◌++◌, any, contains,
  lower, join, text_eq, if◌then◌else◌, is_some, or_else,
}

-- A value of JSON. A number is the text that it prints as, and an object's entries are in the order
-- of its own keys.
mutual
  pub data Json : Type 0 where
    null : Json
    bool : Bool → Json
    num : Text → Json
    str : Text → Json
    arr : Items → Json
    obj : Fields → Json

  pub data Items : Type 0 where
    nil : Items
    cons : Json → Items → Items

  pub data Fields : Type 0 where
    end : Fields
    field : Text → Json → Fields → Fields

-- `JSON.parse`, `none` where it throws, and `JSON.stringify`.
pub record JsonText : Type 0 where
  pub parse : Text → Option Json
  pub stringify : Json → Text

-- The alternatives of SECRET_KEY, in lower case, an optional `[-_]` spelled out.
abbrev pub secret_words : List Text
secret_words = map codes (
    "pass" ∷ "token" ∷ "secret" ∷ "apikey" ∷ "api-key" ∷ "api_key" ∷ "accesskey" ∷ "access-key"
    ∷ "access_key" ∷ "authorization" ∷ "credential" ∷ "privatekey" ∷ "private-key" ∷ "private_key"
    ∷ [])

unfoldable pub is_secret_key : Text → Bool
is_secret_key key = any (λ word. contains word (map lower key)) secret_words

abbrev pub mask : Json
mask = str (codes "••••••")

unfoldable mutual
  pub redact : Json → Json
  redact (arr xs) = arr (redact_items xs)
  redact (obj fs) = obj (redact_fields fs)
  redact null = null
  redact (bool b) = bool b
  redact (num n) = num n
  redact (str s) = str s

  pub redact_items : Items → Items
  redact_items nil = nil
  redact_items (cons x xs) = cons (redact x) (redact_items xs)

  pub redact_fields : Fields → Fields
  redact_fields end = end
  redact_fields (field k v fs) =
      field k (if is_secret_key k then mask else redact v) (redact_fields fs)

-- `rec[key]`, with `null` read as missing, as `??` reads it
abbrev pub value_of : Text → Fields → Option Json
value_of key end = none
value_of key (field k null fs) = if text_eq k key then none else value_of key fs
value_of key (field k v fs) = if text_eq k key then some v else value_of key fs

module _ (runtime : JsonText) where
  abbrev pub shown : Json → Text
  shown (str s) = s
  shown v = runtime.stringify v

  abbrev pub entry_lines : Fields → List Text
  entry_lines end = []
  entry_lines (field k v fs) = (k ++ (codes ": " ++ shown v)) ∷ entry_lines fs

  line_of_entries : List Text → Option Text
  line_of_entries [] = none
  line_of_entries (l ∷ ls) = some (join (codes "  ") (l ∷ ls))

  line_of_object : Fields → Option Json → Option Text
  line_of_object fs (some (str cmd)) = some cmd
  line_of_object fs _ = line_of_entries (entry_lines fs)

  line_of : Json → Option Text
  line_of (obj fs) =
      line_of_object fs (or_else (value_of (codes "command") fs) (value_of (codes "cmd") fs))
  line_of (str s) = some s
  line_of v = some (runtime.stringify v)

  line_of_text : Text → Option Json → Option Text
  line_of_text raw none = some raw
  line_of_text raw (some v) = line_of (redact v)

  unfoldable pub fmt_tool_args : Option Json → Option Text
  unfolding line_of line_of_object line_of_entries line_of_text
  fmt_tool_args none = none
  fmt_tool_args (some null) = none
  fmt_tool_args (some (str raw)) = line_of_text raw (runtime.parse raw)
  fmt_tool_args (some v) = line_of (redact v)
