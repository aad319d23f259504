-- ===== src/Cron/Search.antt =====
-- The loop of `nextCronRun` in cron.ts: each round goes on, past nothing that the schedule admits.
use cubestack.Prelude.{
  ℕ, zero, suc, ◌+◌, ◌*◌, ◌/◌, ◌≤◌, ◌<◌, ◌≡◌, ◌≢◌, ap, arith, Bool, true, false, ◌&&◌, none, some,
  Option-cases, inl, inr,
}
use cubestack.Cron.Values.{has}
use cubestack.Cron.Calendar.{utc_minutes, utc_hours, utc_day, utc_date, utc_month, day_at}
use cubestack.Cron.Months.{next_month-later, utc_month-eq_until_next}
use cubestack.Cron.Next.{Schedule, day_ok, advance, run_at, out_of_fuel, search}

-- The schedule admits the minute.
unfoldable pub admits : Schedule → ℕ → Bool
admits s t =
    has s.months (utc_month t)
    && (day_ok s (utc_date t) (utc_day t)
        && (has s.hours (utc_hours t) && has s.minutes (utc_minutes t)))

utc_date-eq : (t u : ℕ) → u / 1440 ≡ t / 1440 → utc_date u ≡ utc_date t
unfolding utc_date
utc_date-eq t u e = ap (λ d. (day_at d).date) e

advance-none : (s : Schedule) (t : ℕ) → advance s t ≡ none → admits s t ≡ true
unfolding advance admits
advance-none s t h = ground arith

advance-later : (s : Schedule) (t later : ℕ) → advance s t ≡ some later → t < later
unfolding advance
advance-later s t later h = ground (arith, next_month-later t)

advance-skips :
    (s : Schedule) (t later u : ℕ)
    → advance s t ≡ some later
    → t ≤ u
    → u < later
    → admits s u ≡ false
unfolding advance admits
advance-skips s t later u h l m = ground (arith, utc_month-eq_until_next t u l, utc_date-eq t u)

-- The time that is found is admitted, not before the start and before the limit.
pub search-run_at :
    (s : Schedule) (limit fuel t r : ℕ)
    → search s limit fuel t ≡ run_at r
    → (t ≤ r) × (r * 60_000 < limit) × (admits s r ≡ true)
unfolding search
search-run_at s limit zero t r h = absurd (ground arith)
search-run_at s limit (suc fuel) t r h = elim (Option-cases (advance s t)) [
  | inl e ↦ ground (arith, e, advance-none s t e)
  | inr (later, e) ↦
      ground (arith, e, advance-later s t later e, search-run_at s limit fuel later r)
]

-- With more fuel than minutes up to the limit, an admitted time ends the search, there or before.
pub search-finds :
    (s : Schedule) (limit fuel t u : ℕ)
    → limit < (t + fuel) * 60_000
    → t ≤ u
    → u * 60_000 < limit
    → admits s u ≡ true
    → (r : ℕ) × (search s limit fuel t ≡ run_at r) × (r ≤ u)
unfolding search
search-finds s limit zero t u f l h a = absurd (omega arith)
search-finds s limit (suc fuel) t u f l h a = elim (Option-cases (advance s t)) [
  | inl e ↦ (t, ground (arith, e), l)
  | inr (later, e) ↦
      let rest =
        search-finds s limit fuel later u (omega (arith, advance-later s t later e))
          (ground (arith, advance-skips s t later u e l)) h a in
      (rest.0, ground (arith, e, rest.1), rest.2)
]

-- With one round more than minutes up to the limit the search ends.
pub search-ends :
    (s : Schedule) (limit fuel t : ℕ)
    → limit ≤ (t + fuel) * 60_000
    → search s limit (suc fuel) t ≢ out_of_fuel
unfolding search
search-ends s limit zero t f h = elim (Option-cases (advance s t)) [
  | inl e ↦ ground (arith, e)
  | inr (later, e) ↦ ground (arith, e)
]
search-ends s limit (suc fuel) t f h = elim (Option-cases (advance s t)) [
  | inl e ↦ ground (arith, e)
  | inr (later, e) ↦ ground (arith, e, advance-later s t later e, search-ends s limit fuel later)
]
