-- ===== src/Cron/Next.antt =====
-- `nextCronRun` of cron.ts: the first minute behind a time that an expression admits.
use cubestack.Prelude.{
  ℕ, zero, suc, ◌+◌, ◌*◌, ◌/◌, ltb, Text, codes, text_eq, trim, not, Bool, true, false, ◌&&◌, ◌||◌,
  List, [], ◌∷◌, Option, none, some, if◌then◌else◌,
}
use cubestack.Cron.{is_valid_cron, split_spaces}
use cubestack.Cron.Values.{has, add, field_values}
use cubestack.Cron.Calendar.{
  utc_minutes, utc_hours, utc_day, utc_date, utc_month, next_month, next_date, next_hour,
}

pub record Schedule : Type 0 where
  pub minutes : List ℕ
  pub hours : List ℕ
  pub dates : List ℕ
  pub months : List ℕ
  pub days : List ℕ
  pub dates_restricted : Bool
  pub days_restricted : Bool

-- Sunday is 0 and 7.
unfoldable pub both_sundays : List ℕ → List ℕ
unfolding add
both_sundays days =
    let days' = (if has days 7 && not (has days 0) then add 0 days else days) in
    if has days' 0 && not (has days' 7) then add 7 days' else days'

unfoldable pub schedule : Text → Text → Text → Text → Text → Schedule
unfolding field_values both_sundays text_eq
schedule m h dom mon dow = record {
  minutes = field_values m 0 59;
  hours = field_values h 0 23;
  dates = field_values dom 1 31;
  months = field_values mon 1 12;
  days = both_sundays (field_values dow 0 7);
  dates_restricted = not (text_eq dom (codes "*"));
  days_restricted = not (text_eq dow (codes "*"));
}

-- `dayOk`, on the date and the day of the week
abbrev pub day_ok : Schedule → ℕ → ℕ → Bool
day_ok s date day =
    if s.dates_restricted && s.days_restricted
    then has s.dates date || has s.days day
    else has s.dates date && has s.days day

-- One round of the loop: the time to go on from, or none where the round returns.
unfoldable pub advance : Schedule → ℕ → Option ℕ
unfolding utc_date utc_month next_month
advance s t =
    if not (has s.months (utc_month t))
    then some (next_month t)
    else if not (day_ok s (utc_date t) (utc_day t))
    then some (next_date t)
    else if not (has s.hours (utc_hours t))
    then some (next_hour t)
    else if not (has s.minutes (utc_minutes t))
    then some (t + 1)
    else none

-- The time that is found, in minutes, or `null`.
pub data Run : Type 0 where
  run_at : ℕ → Run
  no_run out_of_fuel : Run

unfoldable pub search : Schedule → ℕ → ℕ → ℕ → Run
unfolding advance
search s limit zero t = out_of_fuel
search s limit (suc fuel) t = elim (ltb (t * 60_000) limit) [
  | true ↦ elim (advance s t) [ some later ↦ search s limit fuel later | none ↦ run_at t ]
  | false ↦ no_run
]

abbrev pub window : ℕ
window = 31_622_400_000

-- The fuel is the minutes of 366 days, and one.
abbrev pub search_fuel : ℕ
search_fuel = 527_042

unfoldable pub next_run : List Text → ℕ → Run
unfolding search schedule
next_run (m ∷ h ∷ dom ∷ mon ∷ dow ∷ []) from =
    search (schedule m h dom mon dow) (from + window) search_fuel (from / 60_000 + 1)
next_run _ from = no_run

-- `from` is in milliseconds since 1970-01-01.
unfoldable pub next_cron_run : Text → ℕ → Run
unfolding is_valid_cron next_run split_spaces trim
next_cron_run expr from =
    if not (is_valid_cron expr) then no_run else next_run (split_spaces (trim expr)) from
