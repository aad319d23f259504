-- ===== src/Cron.antt =====
-- cron.ts: the expressions of the schedules that are accepted.
mod Tests
mod Calendar
mod Values
mod Next
mod Months
mod Fields
mod Search
mod First
mod Description
mod Daily
use cubestack.Prelude.{
  ℕ, ◌+◌, ◌-◌, ◌*◌, leb, ltb, ◌==◌, Text, codes, text_eq, starts_with, trim, is_space, onto_first,
  is_empty, Bool, true, false, not, ◌&&◌, all, List, [], ◌∷◌, if◌then◌else◌, number_from,
}

-- `FIELD_BOUNDS`: minute, hour, day of the month, month and day of the week
abbrev pub field_bounds : List (ℕ × ℕ)
field_bounds = (0, 59) ∷ (0, 23) ∷ (1, 31) ∷ (1, 12) ∷ (0, 7) ∷ []

-- `/^\d+$/`
abbrev pub is_digits : Text → Bool
is_digits t = not (is_empty t) && all (λ c. leb b'0' c && leb c b'9') t

abbrev pub step_ok : Text → Bool
step_ok (star ∷ slash ∷ step) = is_digits step && leb 1 (number_from 0 step)
step_ok _ = false

abbrev pub number_ok : Text → ℕ → ℕ → Bool
number_ok token min max =
    is_digits token && (leb min (number_from 0 token) && leb (number_from 0 token) max)

unfoldable pub token_ok : Text → ℕ → ℕ → Bool
token_ok token min max =
    if text_eq token (codes "*")
    then true
    else if starts_with (codes "*/") token
    then step_ok token
    else number_ok token min max

-- `spec.split(",")`
abbrev pub split_commas : Text → List Text
split_commas [] = [] ∷ []
split_commas (c ∷ t) =
    let rest = split_commas t in if c == b',' then [] ∷ rest else onto_first c rest

abbrev pub part_ok : ℕ → ℕ → Text → Bool
unfolding token_ok
part_ok min max p = not (is_empty (trim p)) && token_ok (trim p) min max

unfoldable pub field_ok : Text → ℕ → ℕ → Bool
unfolding part_ok
field_ok spec min max = not (is_empty spec) && all (part_ok min max) (split_commas spec)

abbrev pub begins_with_space : Text → Bool
unfolding is_space
begins_with_space [] = false
begins_with_space (c ∷ t) = is_space c

-- `expr.split(/\s+/)`: a run of white space separates once, at its end.
unfoldable pub split_spaces : Text → List Text
unfolding begins_with_space is_space
split_spaces [] = [] ∷ []
split_spaces (c ∷ t) =
    let rest = split_spaces t in
    if is_space c then if begins_with_space t then rest else [] ∷ rest else onto_first c rest

-- The fields and their bounds, one by one, which are as many.
abbrev pub fields_ok : List Text → List (ℕ × ℕ) → Bool
unfolding field_ok
fields_ok [] [] = true
fields_ok (spec ∷ specs) ((min, max) ∷ bounds) =
    let rest = fields_ok specs bounds in field_ok spec min max && rest
fields_ok _ _ = false

unfoldable pub is_valid_cron : Text → Bool
unfolding fields_ok split_spaces
is_valid_cron expr = fields_ok (split_spaces (trim expr)) field_bounds
