-- ===== src/Cron/Calendar.antt =====
-- The part of a `Date` in UTC that `nextCronRun` of cron.ts reads and sets. A time is the whole
-- minutes since 1970-01-01, since the loop clears the seconds first.
use cubestack.Prelude.{
  ℕ, zero, suc, ◌+◌, ◌-◌, ◌*◌, ◌/◌, ◌%◌, ltb, ◌==◌, not, ◌&&◌, ◌||◌, Bool, if◌then◌else◌,
}

pub record Day : Type 0 where
  pub year : ℕ
  pub month : ℕ
  pub date : ℕ

unfoldable pub is_leap : ℕ → Bool
is_leap y = (y % 4 == 0) && (not (y % 100 == 0) || (y % 400 == 0))

unfoldable pub days_in_month : ℕ → ℕ → ℕ
unfolding is_leap
days_in_month y m =
    if m == 2
    then (if is_leap y then 29 else 28)
    else if (m == 4) || ((m == 6) || ((m == 9) || (m == 11)))
    then 30
    else 31

unfoldable pub day_after : Day → Day
unfolding days_in_month
day_after d =
    if ltb d.date (days_in_month d.year d.month)
    then record d { date = d.date + 1 }
    else if ltb d.month 12
    then record { year = d.year; month = d.month + 1; date = 1 }
    else record { year = d.year + 1; month = 1; date = 1 }

-- the day that many days behind 1970-01-01
unfoldable pub day_at : ℕ → Day
unfolding day_after
day_at zero = record { year = 1970; month = 1; date = 1 }
day_at (suc n) = day_after (day_at n)

abbrev pub utc_minutes : ℕ → ℕ
utc_minutes t = t % 60

abbrev pub utc_hours : ℕ → ℕ
utc_hours t = t / 60 % 24

-- `getUTCDay()`, 0 on Sundays: 1970-01-01 was a Thursday.
abbrev pub utc_day : ℕ → ℕ
utc_day t = (t / 1440 + 4) % 7

unfoldable pub utc_date : ℕ → ℕ
unfolding day_at
utc_date t = (day_at (t / 1440)).date

-- `getUTCMonth() + 1`
unfoldable pub utc_month : ℕ → ℕ
unfolding day_at
utc_month t = (day_at (t / 1440)).month

-- `setUTCDate(1)`, the hours to 0, and one month more: the days of this month behind its first.
unfoldable pub next_month : ℕ → ℕ
unfolding day_at days_in_month
next_month t =
    let d = day_at (t / 1440) in (t / 1440 - (d.date - 1) + days_in_month d.year d.month) * 1440

-- one date more, the hours to 0
abbrev pub next_date : ℕ → ℕ
next_date t = (t / 1440 + 1) * 1440

-- one hour more, the minutes to 0
abbrev pub next_hour : ℕ → ℕ
next_hour t = (t / 60 + 1) * 60
