-- ===== src/Panels/Rules.antt =====
-- conditional-panels.ts: the rules that the descriptions of the panels carry.
use cubestack.Prelude.{
  not_both, ℕ, ◌≡◌, refl, ap, inl, inr, sym, ◌∙◌, append-nil, append_assoc, Bool-cases, ap,
  Bool-cases, true, false, Bool, ◌&&◌, ◌||◌, Text, codes, text_eq, starts_with, Option, none, some,
  get_or, or_else, List, [], ◌∷◌, ◌++◌, leb, ◌==◌, if◌then◌else◌, append_assoc, append-nil, is_text,
  text_eq_iff,
}
use cubestack.Panels.{Panel, slice_after}

-- `[A-Za-z_]`
abbrev pub is_name_start : ℕ → Bool
is_name_start c = leb b'A' c && leb c b'Z' || (leb b'a' c && leb c b'z' || c == b'_')

-- `[A-Za-z0-9_]`
abbrev pub is_name_unit : ℕ → Bool
is_name_unit c = is_name_start c || leb b'0' c && leb c b'9'

abbrev pub name_units : Text → Text
name_units [] = []
name_units (c ∷ t) = let rest = name_units t in if is_name_unit c then c ∷ rest else []

-- The capture of `([A-Za-z_][A-Za-z0-9_]*)` at the start of a text
abbrev pub name_of : Text → Option Text
name_of [] = none
name_of (c ∷ t) = if is_name_start c then some (c ∷ name_units t) else none

abbrev pub marker : Text
marker = codes "@hide-when-specific:"

-- `HIDE_WHEN_SPECIFIC_RE` at the start of a text, and at its first place in it
abbrev pub marker_at : Text → Option Text
marker_at t = if starts_with marker t then name_of (slice_after marker t) else none

unfoldable pub hidden_by : Text → Option Text
hidden_by [] = none
hidden_by (c ∷ t) = or_else (marker_at (c ∷ t)) (hidden_by t)

-- `byVariable`, in the order in which the variables were met
abbrev pub Rules : Type 0
Rules = List (Text × List Text)

abbrev pub add_key : Text → Text → Rules → Rules
add_key variable key [] = (variable, key ∷ []) ∷ []
add_key variable key ((name, keys) ∷ rules) =
    let rest = add_key variable key rules in
    if text_eq name variable then (name, keys ++ key ∷ []) ∷ rules else (name, keys) ∷ rest

abbrev pub add_rule : Option Text → Text → Rules → Rules
add_rule none key rules = rules
add_rule (some variable) key rules = add_key variable key rules

module _ {ℓ} {A : Type ℓ} where
  abbrev pub variable_of : Panel A → Option Text
  variable_of panel = hidden_by (get_or panel.description [])

  abbrev pub add_rules : List (Text × Panel A) → Rules → Rules
  add_rules [] rules = rules
  add_rules ((key, panel) ∷ panels) rules =
      add_rules panels (add_rule (variable_of panel) key rules)

  unfoldable pub extract_hide_rules : List (Text × Panel A) → Rules
  extract_hide_rules panels = add_rules panels []

-- `byVariable.get(variable) ?? []`
abbrev pub keys_under : Rules → Text → List Text
keys_under [] variable = []
keys_under ((name, keys) ∷ rules) variable =
    let rest = keys_under rules variable in if text_eq name variable then keys else rest

-- The keys of the panels whose description names the variable, in the order of the panels.
abbrev pub hidden_keys {ℓ} : {A : Type ℓ} → List (Text × Panel A) → Text → List Text
hidden_keys [] variable = []
hidden_keys ((key, panel) ∷ panels) variable =
    let rest = hidden_keys panels variable in
    if is_text (variable_of panel) variable then key ∷ rest else rest

added_to_entry :
    (n name : Text) (keys : List Text) (rules : Rules) (key variable : Text)
    → n ≡ name
    → keys_under ((n, keys ++ key ∷ []) ∷ rules) variable
      ≡ keys_under ((n, keys) ∷ rules) variable ++ (if text_eq name variable then key ∷ [] else [])
added_to_entry n name keys rules key variable e = elim (Bool-cases (text_eq n variable)) [
  | inl f ↦ rw (← e, f)
  | inr f ↦ rw (← e, f) (sym (append-nil (keys_under rules variable)))
]

added_behind :
    (n name : Text) (keys : List Text) (rules : Rules) (key variable : Text)
    → text_eq n name ≡ false
    → keys_under (add_key name key rules) variable
      ≡ keys_under rules variable ++ (if text_eq name variable then key ∷ [] else [])
    → keys_under ((n, keys) ∷ add_key name key rules) variable
      ≡ keys_under ((n, keys) ∷ rules) variable ++ (if text_eq name variable then key ∷ [] else [])
added_behind n name keys rules key variable e h = elim (Bool-cases (text_eq n variable)) [
  | inl f ↦ let other = not_both n name variable e f in rw (f, other) (sym (append-nil keys))
  | inr f ↦ rw f h
]

keys_under-add_key :
    (rules : Rules) (name key variable : Text)
    → keys_under (add_key name key rules) variable
      ≡ keys_under rules variable ++ (if text_eq name variable then key ∷ [] else [])
keys_under-add_key [] name key variable = refl
keys_under-add_key ((n, keys) ∷ rules) name key variable = elim (Bool-cases (text_eq n name)) [
  | inl e ↦ rw e (added_to_entry n name keys rules key variable ((text_eq_iff n name).0 e))
  | inr e ↦
      rw e
        (added_behind n name keys rules key variable e (keys_under-add_key rules name key variable))
]

keys_under-add_rule :
    (found : Option Text) (key : Text) (rules : Rules) (variable : Text)
    → keys_under (add_rule found key rules) variable
      ≡ keys_under rules variable ++ (if is_text found variable then key ∷ [] else [])
keys_under-add_rule none key rules variable = sym (append-nil (keys_under rules variable))
keys_under-add_rule (some name) key rules variable = keys_under-add_key rules name key variable

cons-if {ℓ} :
    {A : Type ℓ} (b : Bool) (xs rest : List A) (x : A)
    → (xs ++ (if b then x ∷ [] else [])) ++ rest ≡ xs ++ (if b then x ∷ rest else rest)
cons-if true xs rest x = append_assoc xs (x ∷ []) rest
cons-if false xs rest x = ap (λ l. l ++ rest) (append-nil xs)

keys_under-add_rules {ℓ} :
    {A : Type ℓ} (panels : List (Text × Panel A)) (rules : Rules) (variable : Text)
    → keys_under (add_rules panels rules) variable
      ≡ keys_under rules variable ++ hidden_keys panels variable
keys_under-add_rules [] rules variable = sym (append-nil (keys_under rules variable))
keys_under-add_rules ((key, panel) ∷ panels) rules variable =
    let found = variable_of panel in
    keys_under-add_rules panels (add_rule found key rules) variable
    ∙ (ap (λ l. l ++ hidden_keys panels variable) (keys_under-add_rule found key rules variable)
        ∙ cons-if (is_text found variable) (keys_under rules variable) (hidden_keys panels variable)
            key)

-- Under a variable stand the keys of exactly the panels whose description names it, in the order
-- of the panels.
pub extract_hide_rules-groups {ℓ} :
    {A : Type ℓ} (panels : List (Text × Panel A)) (variable : Text)
    → keys_under (extract_hide_rules panels) variable ≡ hidden_keys panels variable
unfolding extract_hide_rules
extract_hide_rules-groups panels variable = keys_under-add_rules panels [] variable
