-- ===== src/Tasks/Resolving.antt =====
-- What `resolveParams` of lib/cubepilot/taskcrd.ts gives and refuses.
use cubestack.Prelude.{
  All, ◌≡◌, ◌⊎◌, ◌||◌, inl, inr, refl, ap, ◌∙◌, arith, Text, text_eq, text_eq_iff, get_or, or_else,
  is_some, Bool, true, false, List, [], ◌∷◌, Option, none, some, if◌then◌else◌, Bool-cases, subst,
  sym,
}
use mathlib.Core.List.{Mem, mem-cons_self, mem-cons_of_mem}
use cubestack.Tasks.{Fields, get, TaskParam}
use cubestack.Tasks.Choices.{
  chosen, IsAdmitted, fits_choices-IsAdmitted, fits_choices-misfit, value_of-chosen,
}
use cubestack.Tasks.Params.{
  insert_key, replace_key, put, is_in, value_of, fits_choices, merge_schema, add_extra,
  resolve_params, is_inherited, extra_onto,
}

replace_key-get :
    (key value : Text) (fields : Fields) (k : Text)
    → is_some (get key fields) ≡ true
    → get k (replace_key key value fields) ≡ (if text_eq key k then some value else get k fields)
replace_key-get key value [] k h = absurd (ground arith)
replace_key-get key value ((j, v) ∷ fields) k h = ground (
  arith,
  h,
  replace_key-get key value fields k,
  text_eq_iff j key,
  text_eq_iff key k,
  text_eq_iff j k,
)

insert_key-get :
    (key value : Text) (fields : Fields) (k : Text)
    → is_some (get key fields) ≡ false
    → get k (insert_key key value fields) ≡ (if text_eq key k then some value else get k fields)
unfolding insert_key
insert_key-get key value [] k h = refl
insert_key-get key value ((j, v) ∷ fields) k h = ground (
  arith,
  h,
  insert_key-get key value fields k,
  text_eq_iff j key,
  text_eq_iff key k,
  text_eq_iff j k,
)

put-get :
    (key value : Text) (fields : Fields) (k : Text)
    → get k (put key value fields) ≡ (if text_eq key k then some value else get k fields)
unfolding put
put-get key value fields k = elim (Bool-cases (is_some (get key fields))) [
  | inl e ↦ rw e (replace_key-get key value fields k e)
  | inr e ↦ rw e (insert_key-get key value fields k e)
]

-- The value of the last parameter with a name
abbrev pub schema_value : Option Fields → List TaskParam → Text → Option Text
schema_value overrides [] k = none
schema_value overrides (p ∷ schema) k =
    or_else (schema_value overrides schema k)
      (if text_eq p.name k then some (chosen overrides p) else none)

or_else-if :
    (later before : Option Text) (test : Bool) (value : Text)
    → or_else later (if test then some value else before)
      ≡ or_else (or_else later (if test then some value else none)) before
or_else-if none before true value = refl
or_else-if none before false value = refl
or_else-if (some t) before test value = refl

-- What the schema gives, or the parameter that it refuses
abbrev Merged : Option Fields → List TaskParam → Fields → Text ⊎ Fields → Type 0
Merged overrides schema before result =
    ((merged : Fields) × (result ≡ inr merged)
      × All (IsAdmitted overrides) schema
      × ((k : Text) → get k merged ≡ or_else (schema_value overrides schema k) (get k before)))
    ⊎ ((p : TaskParam) × Mem p schema × ¬ IsAdmitted overrides p × (result ≡ inl p.name))

merge_step :
    (overrides : Option Fields) (p : TaskParam) (schema : List TaskParam) (before : Fields)
    (fits : Bool)
    → fits_choices p.choices (value_of overrides p) ≡ fits
    → Merged overrides schema
        (put p.name (value_of overrides p) before)
        (merge_schema overrides schema (put p.name (value_of overrides p) before))
    → Merged overrides (p ∷ schema) before (elim fits [
      | true ↦ merge_schema overrides schema (put p.name (value_of overrides p) before)
      | false ↦ inl p.name
    ])
merge_step overrides p schema before true e (inl (merged, q, admitted, values)) = inl (
  merged,
  q,
  (fits_choices-IsAdmitted overrides p e, admitted),
  λ k.
      values k
      ∙ (ap (or_else (schema_value overrides schema k))
            (put-get p.name (value_of overrides p) before k)
          ∙ rw (value_of-chosen overrides p) (
              or_else-if (schema_value overrides schema k) (get k before) (text_eq p.name k)
                (chosen overrides p))),
)
merge_step overrides p schema before true e (inr (q, member, misfit, h)) =
    inr (q, mem-cons_of_mem p member, misfit, h)
merge_step overrides p schema before false e h =
    inr (p, mem-cons_self, fits_choices-misfit overrides p e, refl)

merge_schema-Merged :
    (overrides : Option Fields) (schema : List TaskParam) (before : Fields)
    → Merged overrides schema before (merge_schema overrides schema before)
unfolding merge_schema
merge_schema-Merged overrides [] before = inl (before, refl, tt, λ k. refl)
merge_schema-Merged overrides (p ∷ schema) before =
    merge_step overrides p schema before (fits_choices p.choices (value_of overrides p)) refl
      (merge_schema-Merged overrides schema (put p.name (value_of overrides p) before))

or_else-none : (o : Option Text) (test : Bool) → o ≡ or_else o (if test then none else none)
or_else-none none true = refl
or_else-none none false = refl
or_else-none (some t) test = refl

or_else-skip :
    (o rest other : Option Text) (test : Bool)
    → (is_some o || test) ≡ true
    → or_else o (if test then none else rest) ≡ or_else o (if test then none else other)
or_else-skip none rest other true h = refl
or_else-skip none rest other false h = absurd (ground arith)
or_else-skip (some t) rest other test h = refl

or_else-new :
    (o : Option Text) (test : Bool) (value : Text)
    → (is_some o || test) ≡ false
    → some value ≡ or_else o (if test then none else some value)
or_else-new none true value h = absurd (ground arith)
or_else-new none false value h = refl
or_else-new (some t) test value h = absurd (ground arith)

is_in_lem :
    (key : Text) (fields : Fields)
    → is_in key fields ≡ (is_some (get key fields) || is_inherited key)
unfolding is_in
is_in_lem key fields = refl

-- One more override, for a key that is not there, or is
extra_step :
    (j v : Text) (overrides merged : Fields) (k : Text) (present : Bool)
    → is_in j merged ≡ present
    → or_else
        (get k (if present then merged else put j v merged))
        (if is_inherited k then none else get k overrides)
      ≡ or_else (get k merged) (if is_inherited k then none else get k ((j, v) ∷ overrides))
extra_step j v overrides merged k true e = elim (Bool-cases (text_eq j k)) [
  | inl q ↦
      or_else-skip (get k merged) (get k overrides) (get k ((j, v) ∷ overrides)) (is_inherited k) (
        subst (λ t. (is_some (get t merged) || is_inherited t) ≡ true) ((text_eq_iff j k).0 q)
          (sym (is_in_lem j merged) ∙ e))
  | inr q ↦ rw q refl
]
extra_step j v overrides merged k false e = elim (Bool-cases (text_eq j k)) [
  | inl q ↦
      rw (put-get j v merged k, q)
        (or_else-new (get k merged) (is_inherited k) v (
          subst (λ t. (is_some (get t merged) || is_inherited t) ≡ false) ((text_eq_iff j k).0 q)
            (sym (is_in_lem j merged) ∙ e)))
  | inr q ↦ rw (put-get j v merged k, q) refl
]

add_extra-get :
    (overrides merged : Fields) (k : Text)
    → get k (add_extra overrides merged)
      ≡ or_else (get k merged) (if is_inherited k then none else get k overrides)
unfolding add_extra
add_extra-get [] merged k = or_else-none (get k merged) (is_inherited k)
add_extra-get ((j, v) ∷ overrides) merged k =
    add_extra-get overrides (if is_in j merged then merged else put j v merged) k
    ∙ extra_step j v overrides merged k (is_in j merged) refl

or_else-right_none : (o : Option Text) → or_else o none ≡ o
or_else-right_none none = refl
or_else-right_none (some t) = refl

-- Either the parameters are resolved: each name of the schema has its override, or else its default,
-- which is one of its choices where it has any, and the other overrides are kept, but for the names
-- that each object has. Or some parameter of the schema has a value that is not one of its choices,
-- and the error names it.
pub resolve_params-merges :
    (schema : List TaskParam) (overrides : Option Fields)
    → ((merged : Fields) × (resolve_params schema overrides ≡ inr merged)
        × All (IsAdmitted overrides) schema
        × ((k : Text)
            → get k merged
              ≡ or_else
                  (schema_value overrides schema k)
                  (if is_inherited k then none else get k (get_or overrides []))))
      ⊎ ((p : TaskParam) × Mem p schema
          × ¬ IsAdmitted overrides p
          × (resolve_params schema overrides ≡ inl p.name))
unfolding resolve_params add_extra extra_onto
resolve_params-merges schema overrides = elim (merge_schema-Merged overrides schema []) [
  | inl (merged, e, admitted, values) ↦ inl (
    add_extra (get_or overrides []) merged,
    ap (extra_onto (get_or overrides [])) e,
    admitted,
    λ k.
        add_extra-get (get_or overrides []) merged k
        ∙ rw (values k, or_else-right_none (schema_value overrides schema k)) refl,
  )
  | inr (p, member, misfit, e) ↦ inr (p, member, misfit, ap (extra_onto (get_or overrides [])) e)
]
