-- ===== src/Cron/First.antt =====
-- `nextCronRun` of cron.ts against the expression: it ends, and with the first minute that fits.
use cubestack.Prelude.{
  ℕ, ◌+◌, ◌*◌, ◌/◌, ◌≤◌, ◌<◌, ◌≡◌, ◌≢◌, arith, ◌==◌, Text, codes, text_eq, Bool, true, false, ◌&&◌,
  ◌||◌, List, [], ◌∷◌, if◌then◌else◌, trim, ◌∙◌,
}
use cubestack.Cron.{is_valid_cron, split_spaces, field_ok, fields_ok, field_bounds}
use cubestack.Cron.Values.{has, add, field_values}
use cubestack.Cron.Calendar.{utc_minutes, utc_hours, utc_day, utc_date, utc_month}
use cubestack.Cron.Months.{utc_month_range, utc_date_range}
use cubestack.Cron.Next.{
  schedule, both_sundays, run_at, out_of_fuel, next_run, next_cron_run, window, search_fuel,
}
use cubestack.Cron.Fields.{field_matches, has-add, field_values-eq-field_matches}
use cubestack.Cron.Search.{admits, search-run_at, search-finds, search-ends}

-- The field of the days of the week admits a day; 7 admits Sundays.
abbrev pub weekday_matches : Text → ℕ → Bool
weekday_matches dow d = field_matches dow 0 d || ((d == 0) && field_matches dow 0 7)

-- The month, the hour and the minute fit, and the day: by the date and by the day of the week, or
-- by one of them where neither field is "*".
unfoldable pub fields_match : List Text → ℕ → Bool
unfolding text_eq
fields_match (m ∷ h ∷ dom ∷ mon ∷ dow ∷ []) t =
    let by_date = field_matches dom 1 (utc_date t) in
    let by_day = weekday_matches dow (utc_day t) in
    field_matches mon 1 (utc_month t)
    && ((if text_eq dom (codes "*") || text_eq dow (codes "*")
          then by_date && by_day
          else by_date || by_day)
        && (field_matches h 0 (utc_hours t) && field_matches m 0 (utc_minutes t)))
fields_match _ t = false

unfoldable pub cron_matches : Text → ℕ → Bool
unfolding fields_match split_spaces trim
cron_matches expr t = fields_match (split_spaces (trim expr)) t

has-both_sundays :
    (days : List ℕ) (d : ℕ)
    → d ≤ 6
    → has (both_sundays days) d ≡ has days d || ((d == 0) && has days 7)
unfolding both_sundays
has-both_sundays days d h =
    ground (arith, has-add 0 d days, has-add 7 d days, has-add 7 d (add 0 days), has-add 0 0 days)

abbrev FieldsOk : Text → Text → Text → Text → Text → Type 0
FieldsOk m h dom mon dow =
    (field_ok m 0 59 ≡ true)
    × (field_ok h 0 23 ≡ true)
    × (field_ok dom 1 31 ≡ true)
    × (field_ok mon 1 12 ≡ true)
    × (field_ok dow 0 7 ≡ true)

admits-schedule :
    (m h dom mon dow : Text) (t : ℕ)
    → FieldsOk m h dom mon dow
    → admits (schedule m h dom mon dow) t ≡ fields_match (m ∷ h ∷ dom ∷ mon ∷ dow ∷ []) t
unfolding admits schedule fields_match
admits-schedule m h dom mon dow t (m_ok, h_ok, dom_ok, mon_ok, dow_ok) = ground (
  arith,
  utc_month_range t,
  utc_date_range t,
  field_values-eq-field_matches m 0 59 (utc_minutes t) m_ok,
  field_values-eq-field_matches h 0 23 (utc_hours t) h_ok,
  field_values-eq-field_matches dom 1 31 (utc_date t) dom_ok,
  field_values-eq-field_matches mon 1 12 (utc_month t) mon_ok,
  field_values-eq-field_matches dow 0 7 (utc_day t) dow_ok,
  field_values-eq-field_matches dow 0 7 7 dow_ok,
  has-both_sundays (field_values dow 0 7) (utc_day t),
)

fields_ok-FieldsOk :
    (m h dom mon dow : Text)
    → fields_ok (m ∷ h ∷ dom ∷ mon ∷ dow ∷ []) field_bounds ≡ true
    → FieldsOk m h dom mon dow
unfolding fields_ok
fields_ok-FieldsOk m h dom mon dow e = ground arith

next_run-run_at :
    (fields : List Text) (from t : ℕ)
    → fields_ok fields field_bounds ≡ true
    → next_run fields from ≡ run_at t
    → (from < t * 60_000) × (t * 60_000 < from + window) × (fields_match fields t ≡ true)
unfolding next_run
next_run-run_at (m ∷ h ∷ dom ∷ mon ∷ dow ∷ []) from t ok e = ground (
  arith,
  admits-schedule m h dom mon dow t (fields_ok-FieldsOk m h dom mon dow ok),
  search-run_at (schedule m h dom mon dow) (from + window) search_fuel (from / 60_000 + 1) t e,
)
next_run-run_at (a ∷ b ∷ c ∷ d ∷ e ∷ f ∷ rest) from t ok r = absurd (ground arith)
next_run-run_at _ from t ok e = absurd (ground arith)

next_run-finds :
    (fields : List Text) (from u : ℕ)
    → fields_ok fields field_bounds ≡ true
    → from < u * 60_000
    → u * 60_000 < from + window
    → fields_match fields u ≡ true
    → (t : ℕ) × (next_run fields from ≡ run_at t) × (t ≤ u)
unfolding next_run fields_match
next_run-finds (m ∷ h ∷ dom ∷ mon ∷ dow ∷ []) from u ok l h' e =
    search-finds (schedule m h dom mon dow) (from + window) search_fuel (from / 60_000 + 1) u
      (omega arith) (omega arith) h'
      (admits-schedule m h dom mon dow u (fields_ok-FieldsOk m h dom mon dow ok) ∙ e)
next_run-finds (a ∷ b ∷ c ∷ d ∷ e ∷ f ∷ rest) from u ok l h r = absurd (ground arith)
next_run-finds _ from u ok l h e = absurd (ground arith)

next_run-ends : (fields : List Text) (from : ℕ) → next_run fields from ≢ out_of_fuel
unfolding next_run
next_run-ends (m ∷ h ∷ dom ∷ mon ∷ dow ∷ []) from =
    search-ends (schedule m h dom mon dow) (from + window) 527_041 (from / 60_000 + 1) (omega arith)
next_run-ends (a ∷ b ∷ c ∷ d ∷ e ∷ f ∷ rest) from = ground arith
next_run-ends _ from = ground arith

-- The run that is found is later than `from`, less than 366 days, and a minute that the expression
-- fits: its month, its hour, its minute and its day.
pub next_cron_run-run_at :
    (expr : Text) (from t : ℕ)
    → next_cron_run expr from ≡ run_at t
    → (from < t * 60_000) × (t * 60_000 < from + window) × (cron_matches expr t ≡ true)
unfolding next_cron_run cron_matches is_valid_cron
next_cron_run-run_at expr from t e =
    ground (arith, next_run-run_at (split_spaces (trim expr)) from t)

-- Whenever a minute within 366 days fits an expression that is accepted, a run is found, and none
-- of the minutes that fit is earlier.
pub next_cron_run-finds :
    (expr : Text) (from u : ℕ)
    → is_valid_cron expr ≡ true
    → from < u * 60_000
    → u * 60_000 < from + window
    → cron_matches expr u ≡ true
    → (t : ℕ) × (next_cron_run expr from ≡ run_at t) × (t ≤ u)
unfolding next_cron_run cron_matches is_valid_cron
next_cron_run-finds expr from u ok l h e =
    rw ok (next_run-finds (split_spaces (trim expr)) from u ok l h e)

-- The loop ends for every expression and every time.
pub next_cron_run-ends : (expr : Text) (from : ℕ) → next_cron_run expr from ≢ out_of_fuel
unfolding next_cron_run
next_cron_run-ends expr from = ground (arith, next_run-ends (split_spaces (trim expr)) from)
