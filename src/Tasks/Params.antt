-- ===== src/Tasks/Params.antt =====
-- The parameters of a task in lib/cubepilot/taskcrd.ts: `resolveParams`, `renderInstruction`.
use cubestack.Prelude.{
  ◌⊎◌, inl, inr, ℕ, zero, suc, ◌-◌, ltb, leb, Text, codes, text_eq, includes, starts_with,
  onto_first, join, number_from, decimal, all, length, get_or, is_some, Bool, true, false, not,
  ◌&&◌, ◌||◌, List, [], ◌∷◌, ◌++◌, Option, none, some, if◌then◌else◌,
}
use cubestack.Tasks.{Fields, get, get_in, TaskParam}

-- A key that the language lists before the others, by its number: a canonical index below 2 ^ 32 - 1
unfoldable pub is_index : Text → Bool
unfolding decimal text_eq
is_index key =
    all (λ c. leb b'0' c && leb c b'9') key
    && (text_eq (decimal (number_from 0 key)) key && ltb (number_from 0 key) 4294967295)

-- Whether a new key is listed before one that is there
unfoldable pub comes_before : Text → Text → Bool
unfolding is_index
comes_before key k = is_index key && (not (is_index k) || ltb (number_from 0 key) (number_from 0 k))

unfoldable pub insert_key : Text → Text → Fields → Fields
unfolding comes_before
insert_key key value [] = (key, value) ∷ []
insert_key key value ((k, v) ∷ fields) =
    let rest = insert_key key value fields in
    if comes_before key k then (key, value) ∷ (k, v) ∷ fields else (k, v) ∷ rest

abbrev pub replace_key : Text → Text → Fields → Fields
replace_key key value [] = []
replace_key key value ((k, v) ∷ fields) =
    let rest = replace_key key value fields in
    if text_eq k key then (k, value) ∷ fields else (k, v) ∷ rest

-- `o[key] = value`
unfoldable pub put : Text → Text → Fields → Fields
unfolding insert_key
put key value fields =
    if is_some (get key fields) then replace_key key value fields else insert_key key value fields

-- The names that each object has from its prototype
abbrev pub inherited : List Text
inherited =
    codes "constructor"
    ∷ codes "__defineGetter__"
    ∷ codes "__defineSetter__"
    ∷ codes "hasOwnProperty"
    ∷ codes "__lookupGetter__"
    ∷ codes "__lookupSetter__"
    ∷ codes "isPrototypeOf"
    ∷ codes "propertyIsEnumerable"
    ∷ codes "toString"
    ∷ codes "valueOf"
    ∷ codes "__proto__"
    ∷ codes "toLocaleString"
    ∷ []

unfoldable pub is_inherited : Text → Bool
is_inherited key = includes inherited key

-- `key in o`
unfoldable pub is_in : Text → Fields → Bool
unfolding is_inherited
is_in key fields = is_some (get key fields) || is_inherited key

-- The value that the override or the default gives a parameter
unfoldable pub value_of : Option Fields → TaskParam → Text
value_of overrides p = get_or (get_in overrides p.name) (get_or p.default [])

-- The members of an `enum` that has any
unfoldable pub fits_choices : Option (List Text) → Text → Bool
fits_choices none value = true
fits_choices (some []) value = true
fits_choices (some (c ∷ cs)) value = includes (c ∷ cs) value

-- The loop over the schema: the name of the parameter where it throws. A schema is taken to name no
-- member that every object has.
unfoldable pub merge_schema : Option Fields → List TaskParam → Fields → Text ⊎ Fields
unfolding value_of fits_choices put
merge_schema overrides [] merged = inr merged
merge_schema overrides (p ∷ schema) merged = elim (fits_choices p.choices (value_of overrides p)) [
  | true ↦ merge_schema overrides schema (put p.name (value_of overrides p) merged)
  | false ↦ inl p.name
]

-- The loop over the overrides that the schema does not name
unfoldable pub add_extra : Fields → Fields → Fields
unfolding is_in put
add_extra [] merged = merged
add_extra ((k, v) ∷ overrides) merged =
    add_extra overrides (if is_in k merged then merged else put k v merged)

unfoldable pub extra_onto : Fields → Text ⊎ Fields → Text ⊎ Fields
unfolding add_extra
extra_onto overrides (inl name) = inl name
extra_onto overrides (inr merged) = inr (add_extra overrides merged)

unfoldable pub resolve_params : List TaskParam → Option Fields → Text ⊎ Fields
unfolding merge_schema
resolve_params schema overrides =
    extra_onto (get_or overrides []) (merge_schema overrides schema [])

-- `text.split(sep)` of a separator that is not empty; the number counts the units of it to skip.
unfoldable pub split_from : Text → ℕ → Text → List Text
split_from sep n [] = [] ∷ []
split_from sep (suc n) (c ∷ t) = split_from sep n t
split_from sep zero (c ∷ t) =
    let behind = split_from sep (length sep - 1) t in
    let rest = split_from sep 0 t in
    if starts_with sep (c ∷ t) then [] ∷ behind else onto_first c rest

-- `"{{" + k + "}}"`
abbrev pub placeholder : Text → Text
placeholder k = codes "{{" ++ (k ++ codes "}}")

unfoldable pub render_instruction : Text → Fields → Text
unfolding split_from
render_instruction out [] = out
render_instruction out ((k, v) ∷ params) =
    render_instruction (join v (split_from (placeholder k) 0 out)) params
