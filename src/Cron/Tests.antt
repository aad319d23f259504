-- ===== src/Cron/Tests.antt =====
-- Expressions that are accepted, and some that are not.
use cubestack.Prelude.{
  decimal, ℕ, ◌+◌, ◌*◌, ◌≤◌, ◌<◌, ◌≢◌, arith, some, none, ◌++◌, ◌≡◌, refl, codes, text_eq, trim,
  is_space, true, false,
}
use cubestack.Cron.{is_valid_cron, split_spaces, field_ok, token_ok}
use cubestack.Cron.Fields.{field_matches, field_values-eq-field_matches}
use cubestack.Cron.First.{
  cron_matches, next_cron_run-run_at, next_cron_run-finds, next_cron_run-ends,
}
use cubestack.Cron.Daily.{next_cron_run-daily}
use cubestack.Cron.Description.{
  cron_description, shape_text, plain, weekday, clock, padded, by_step, every_n,
}
use cubestack.Cron.Values.{has, field_values, add_parts, add_part, add_steps, add, step_of}
use cubestack.Cron.Next.{
  next_cron_run, next_run, search, advance, schedule, both_sundays, run_at, no_run, window,
  out_of_fuel,
}
use cubestack.Cron.Calendar.{
  utc_hours, utc_minutes, utc_date, utc_month, day_at, day_after, days_in_month, is_leap,
  next_month,
}

nightly : is_valid_cron (codes " 0  2 * * 0,7 ") ≡ true
unfolding is_valid_cron split_spaces field_ok token_ok trim is_space text_eq
nightly = refl

no_minute : is_valid_cron (codes "60 * * * *") ≡ false
unfolding is_valid_cron split_spaces field_ok token_ok trim is_space text_eq
no_minute = refl

no_step : is_valid_cron (codes "*/0 * * * *") ≡ false
unfolding is_valid_cron split_spaces field_ok token_ok trim is_space text_eq
no_step = refl

four_fields : is_valid_cron (codes "* * * *") ≡ false
unfolding is_valid_cron split_spaces field_ok token_ok trim is_space text_eq
four_fields = refl

-- 1970-01-04 was a Sunday.
sunday : next_cron_run (codes "30 6 * * 7") 1_000 ≡ run_at 4710
unfolding next_cron_run next_run search advance is_valid_cron split_spaces field_ok token_ok trim
    is_space text_eq schedule both_sundays field_values add_parts add_part add_steps add step_of
    utc_date utc_month day_at day_after days_in_month is_leap next_month
sunday = refl

-- 1970 has no February 29.
no_leap_day : next_cron_run (codes "0 0 29 2 *") 0 ≡ no_run
unfolding next_cron_run next_run search advance is_valid_cron split_spaces field_ok token_ok trim
    is_space text_eq schedule both_sundays field_values add_parts add_part add_steps add step_of
    utc_date utc_month day_at day_after days_in_month is_leap next_month
no_leap_day = refl

field_values-eq-field_matches_example :
    has (field_values (codes "*/20,5") 0 59) 40 ≡ field_matches (codes "*/20,5") 0 40
unfolding field_ok token_ok trim is_space text_eq
field_values-eq-field_matches_example =
    field_values-eq-field_matches (codes "*/20,5") 0 59 40 refl (omega arith) (omega arith)

next_cron_run-run_at_example :
    (1_000 < 4710 * 60_000)
    × (4710 * 60_000 < 1_000 + window)
    × (cron_matches (codes "30 6 * * 7") 4710 ≡ true)
next_cron_run-run_at_example = next_cron_run-run_at (codes "30 6 * * 7") 1_000 4710 sunday

next_cron_run-finds_example :
    (t : ℕ) × (next_cron_run (codes "30 6 * * 7") 1_000 ≡ run_at t) × (t ≤ 4710)
unfolding is_valid_cron split_spaces field_ok token_ok trim is_space text_eq
next_cron_run-finds_example =
    next_cron_run-finds (codes "30 6 * * 7") 1_000 4710 refl (omega arith) (omega arith)
      next_cron_run-run_at_example.2

next_cron_run-ends_example : next_cron_run (codes "0 0 29 2 *") 0 ≢ out_of_fuel
next_cron_run-ends_example = next_cron_run-ends (codes "0 0 29 2 *") 0

next_cron_run-daily_example :
    (cron_description (codes "30 6 * * *")
      ≡ record { text = some (codes "每天 " ++ clock 6 30); error = none })
    × ((t : ℕ) × (next_cron_run (codes "30 6 * * *") 5_000 ≡ run_at t)
        × (5_000 < t * 60_000)
        × (t * 60_000 ≤ 5_000 + 86_400_000)
        × (utc_hours t ≡ 6)
        × (utc_minutes t ≡ 30))
unfolding is_valid_cron split_spaces field_ok token_ok trim is_space text_eq
next_cron_run-daily_example =
    next_cron_run-daily (codes "30 6 * * *") (codes "30") (codes "6") 5_000
      (refl, refl, refl, refl, refl)

weekly :
    cron_description (codes "30 8 * * 7") ≡ record { text = some (codes "每周日 08:30"); error = none }
unfolding cron_description is_valid_cron split_spaces field_ok token_ok trim is_space text_eq
    shape_text plain weekday clock padded decimal by_step every_n
weekly = refl

-- A list of dates is no number, so that the text names every day, where the 1st and the 15th are
-- meant.
twice_a_month :
    cron_description (codes "0 2 1,15 * *")
    ≡ record { text = some (codes "每天 02:00"); error = none }
unfolding cron_description is_valid_cron split_spaces field_ok token_ok trim is_space text_eq
    shape_text plain weekday clock padded decimal by_step every_n
twice_a_month = refl

-- The next run behind noon of 1970-01-02 is on the 15th.
not_the_next_day : next_cron_run (codes "0 2 1,15 * *") 129_600_000 ≡ run_at 20_280
unfolding next_cron_run next_run search advance is_valid_cron split_spaces field_ok token_ok trim
    is_space text_eq schedule both_sundays field_values add_parts add_part add_steps add step_of
    utc_date utc_month day_at day_after days_in_month is_leap next_month
not_the_next_day = refl
