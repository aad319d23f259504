-- ===== src/Cron/Months.antt =====
-- The days of a month follow one another in the calendar of Calendar.antt.
use cubestack.Prelude.{ℕ, zero, suc, ◌+◌, ◌≤◌, ◌≡◌, refl, arith, ◌/◌, ◌<◌, ◌-◌, ap, ◌∙◌}
use native.Mathlib.Nat.{zero-add, suc-add}
use cubestack.Cron.Calendar.{Day, days_in_month, day_after, day_at, utc_month, utc_date, next_month}

pub days_in_month_range : (y m : ℕ) → (28 ≤ days_in_month y m) × (days_in_month y m ≤ 31)
unfolding days_in_month
days_in_month_range y m = ground arith

pub record IsDay (n : ℕ) (d : Day) : Type 0 where
  pub month_in : (1 ≤ d.month) × (d.month ≤ 12)
  pub date_in : (1 ≤ d.date) × (d.date ≤ days_in_month d.year d.month)
  pub reached : d.date ≤ n + 1

pub day_after-IsDay : (n : ℕ) (d : Day) → IsDay n d → IsDay (suc n) (day_after d)
unfolding day_after
day_after-IsDay n d v = ground (
  arith,
  v.month_in,
  v.date_in,
  v.reached,
  days_in_month_range d.year (d.month + 1),
  days_in_month_range (d.year + 1) 1,
)

pub day_at-IsDay : (n : ℕ) → IsDay n (day_at n)
unfolding day_at
day_at-IsDay zero = record {
  month_in = (omega arith, omega arith);
  date_in = (omega arith, omega (arith, days_in_month_range 1970 1));
  reached = omega arith;
}
day_at-IsDay (suc n) = day_after-IsDay n (day_at n) (day_at-IsDay n)

-- Up to the end of its month, a day that is k days on has the same month and a date k higher.
pub day_at-add :
    (n k : ℕ)
    → (day_at n).date + k ≤ days_in_month (day_at n).year (day_at n).month
    → ((day_at (k + n)).year ≡ (day_at n).year)
      × ((day_at (k + n)).month ≡ (day_at n).month)
      × ((day_at (k + n)).date ≡ (day_at n).date + k)
unfolding day_at day_after
day_at-add n zero h = rw zero-add (refl, refl, omega arith)
day_at-add n (suc k) h = rw suc-add (ground (arith, day_at-add n k (omega arith)))

pub utc_month_range : (t : ℕ) → (1 ≤ utc_month t) × (utc_month t ≤ 12)
unfolding utc_month
utc_month_range t = (day_at-IsDay (t / 1440)).month_in

pub utc_date_range : (t : ℕ) → (1 ≤ utc_date t) × (utc_date t ≤ 31)
unfolding utc_date
utc_date_range t =
    let v = day_at-IsDay (t / 1440) in
    omega (arith, v.date_in, days_in_month_range (day_at (t / 1440)).year (day_at (t / 1440)).month)

-- The next month begins later, and up to there the month stays.
pub next_month-later : (t : ℕ) → t < next_month t
unfolding next_month
next_month-later t = let v = day_at-IsDay (t / 1440) in omega (arith, v.date_in, v.reached)

pub utc_month-eq_until_next : (t u : ℕ) → t ≤ u → u < next_month t → utc_month u ≡ utc_month t
unfolding next_month utc_month
utc_month-eq_until_next t u h l =
    let v = day_at-IsDay (t / 1440) in
    let n = t / 1440 in
    let k = u / 1440 - n in
    let same = day_at-add n k (omega (arith, v.date_in, v.reached)) in
    let e : u / 1440 ≡ k + n = omega arith in ap (λ d. (day_at d).month) e ∙ same.1
