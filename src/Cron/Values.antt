-- ===== src/Cron/Values.antt =====
-- `fieldValues` of cron.ts: the values of one field of an expression.
use cubestack.Prelude.{
  number_from, ℕ, zero, suc, ◌+◌, ◌-◌, leb, ◌==◌, max, Text, codes, text_eq, starts_with, trim,
  Bool, false, ◌&&◌, ◌||◌, List, [], ◌∷◌, ◌++◌, if◌then◌else◌, drop,
}
use cubestack.Cron.{is_digits, split_commas}

-- `set.has(n)` of a set of numbers
abbrev pub has : List ℕ → ℕ → Bool
has [] n = false
has (m ∷ set) n = n == m || has set n

-- `set.add(n)`, which keeps the order of insertion
unfoldable pub add : ℕ → List ℕ → List ℕ
add n set = if has set n then set else set ++ n ∷ []

-- `for (let i = from; i <= max; i += step) out.add(i)`
unfoldable pub add_steps : ℕ → ℕ → ℕ → ℕ → List ℕ → List ℕ
unfolding add
add_steps zero from last step out = out
add_steps (suc fuel) from last step out =
    let more = add_steps fuel (from + step) last step (add from out) in
    if leb from last then more else out

-- `Math.max(1, Number(text) || 1)`. A text that is no row of digits is taken as no number, which
-- no valid field holds.
unfoldable pub step_of : Text → ℕ
step_of text = max 1 (if is_digits text then number_from 0 text else 1)

-- one part of a field, trimmed
unfoldable pub add_part : ℕ → ℕ → Text → List ℕ → List ℕ
unfolding add_steps step_of text_eq add
add_part first last t out =
    if text_eq t (codes "*")
    then add_steps (last + 1 - first) first last 1 out
    else if starts_with (codes "*/") t
    then add_steps (last + 1 - first) first last (step_of (drop 2 t)) out
    else if is_digits t
    then (let n = number_from 0 t in if leb first n && leb n last then add n out else out)
    else out

unfoldable pub add_parts : ℕ → ℕ → List Text → List ℕ → List ℕ
unfolding add_part trim
add_parts first last [] out = out
add_parts first last (part ∷ parts) out =
    add_parts first last parts (add_part first last (trim part) out)

unfoldable pub field_values : Text → ℕ → ℕ → List ℕ
unfolding add_parts
field_values field first last = add_parts first last (split_commas field) []
