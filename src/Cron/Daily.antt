-- ===== src/Cron/Daily.antt =====
-- A schedule that cron.ts describes as daily, with "*" for the day, the month and the weekday.
use cubestack.Prelude.{
  number_from, ◌==◌, ℕ, ◌+◌, ◌-◌, ◌*◌, ◌/◌, ◌%◌, ◌≤◌, ◌<◌, ◌≡◌, ◌∙◌, refl, ap, arith, Text, codes,
  text_eq, trim, is_space, true, ◌&&◌, [], ◌∷◌, ◌++◌, some, trim_start, trim_end, all, leb, none,
  subst,
}
use cubestack.Cron.{
  is_valid_cron, split_spaces, is_digits, split_commas, field_ok, fields_ok, part_ok, field_bounds,
  token_ok,
}
use cubestack.Cron.Calendar.{utc_minutes, utc_hours}
use cubestack.Cron.Next.{next_cron_run, run_at}
use cubestack.Cron.Fields.{field_matches}
use cubestack.Cron.First.{fields_match, cron_matches, next_cron_run-run_at, next_cron_run-finds}
use cubestack.Cron.Description.{cron_description, shape_text, clock, plain}

split_commas_digits :
    (c : ℕ) (t : Text)
    → all (λ d. leb b'0' d && leb d b'9') (c ∷ t) ≡ true
    → split_commas (c ∷ t) ≡ (c ∷ t) ∷ []
split_commas_digits c [] h = ground arith
split_commas_digits c (d ∷ t) h = ground (arith, split_commas_digits d t)

trim_end_digits :
    (c : ℕ) (t : Text)
    → all (λ d. leb b'0' d && leb d b'9') (c ∷ t) ≡ true
    → trim_end (c ∷ t) ≡ c ∷ t
unfolding trim_end is_space
trim_end_digits c [] h = ground arith
trim_end_digits c (d ∷ t) h = ground (arith, trim_end_digits d t)

trim_digits :
    (c : ℕ) (t : Text) → all (λ d. leb b'0' d && leb d b'9') (c ∷ t) ≡ true → trim (c ∷ t) ≡ c ∷ t
unfolding trim trim_start is_space
trim_digits c t h = ground (arith, trim_end_digits c t h)

-- A field of digits admits the number it writes, and no other.
field_matches_digits :
    (field : Text) (first n : ℕ)
    → is_digits field ≡ true
    → field_matches field first n ≡ (n == number_from 0 field)
unfolding field_matches text_eq
field_matches_digits [] first n h = absurd (ground arith)
field_matches_digits (c ∷ t) first n h = ground (arith, split_commas_digits c t, trim_digits c t)

field_ok_digits :
    (field : Text) (first last : ℕ)
    → is_digits field ≡ true
    → field_ok field first last ≡ true
    → number_from 0 field ≤ last
unfolding field_ok part_ok token_ok text_eq
field_ok_digits [] first last h ok = absurd (ground arith)
field_ok_digits (c ∷ t) first last h ok = ground (arith, split_commas_digits c t, trim_digits c t)

fields_ok-daily :
    (m h : Text)
    → is_digits m ≡ true
    → is_digits h ≡ true
    → fields_ok (m ∷ h ∷ codes "*" ∷ codes "*" ∷ codes "*" ∷ []) field_bounds ≡ true
    → (number_from 0 m ≤ 59) × (number_from 0 h ≤ 23)
unfolding fields_ok
fields_ok-daily m h dm dh ok = ground (arith, field_ok_digits m 0 59 dm, field_ok_digits h 0 23 dh)

-- the first minute from n on whose time of the day is that
abbrev time_from : ℕ → ℕ → ℕ
time_from n time = n + (time + 1440 - n % 1440) % 1440

time_from_lem :
    (n m h : ℕ)
    → m ≤ 59
    → h ≤ 23
    → (time_from n (h * 60 + m) % 60 ≡ m)
      × (time_from n (h * 60 + m) / 60 % 24 ≡ h)
      × (time_from n (h * 60 + m) < n + 1440)
      × (n ≤ time_from n (h * 60 + m))
time_from_lem n m h lm lh = omega arith

fields_match-daily :
    (m h : Text) (t : ℕ)
    → is_digits m ≡ true
    → is_digits h ≡ true
    → fields_match (m ∷ h ∷ codes "*" ∷ codes "*" ∷ codes "*" ∷ []) t
      ≡ (utc_hours t == number_from 0 h) && (utc_minutes t == number_from 0 m)
unfolding fields_match field_matches trim trim_start trim_end is_space text_eq
fields_match-daily m h t dm dh =
    rw (field_matches_digits h 0 (utc_hours t) dh, field_matches_digits m 0 (utc_minutes t) dm) refl

shape_text-daily :
    (m h e : Text)
    → is_digits m ≡ true
    → is_digits h ≡ true
    → shape_text (m ∷ h ∷ codes "*" ∷ codes "*" ∷ codes "*" ∷ []) e
      ≡ codes "每天 " ++ clock (number_from 0 h) (number_from 0 m)
unfolding shape_text plain text_eq
shape_text-daily [] h e dm dh = absurd (ground arith)
shape_text-daily (c ∷ m) [] e dm dh = absurd (ground arith)
shape_text-daily (c ∷ m) (d ∷ h) e dm dh = ground arith

abbrev IsDaily : Text → Text → Text → Type 0
IsDaily expr m h =
    (trim expr ≡ expr)
    × (split_spaces expr ≡ m ∷ h ∷ codes "*" ∷ codes "*" ∷ codes "*" ∷ [])
    × (is_digits m ≡ true)
    × (is_digits h ≡ true)
    × (is_valid_cron expr ≡ true)

cron_description-daily :
    (expr m h : Text)
    → IsDaily expr m h
    → cron_description expr ≡ record {
      text = some (codes "每天 " ++ clock (number_from 0 h) (number_from 0 m));
      error = none;
    }
unfolding cron_description is_valid_cron
cron_description-daily [] m h (e, s, dm, dh, ok) = absurd (ground arith)
cron_description-daily (c ∷ expr) m h (e, s, dm, dh, ok) =
    rw (e, ok, s) (ground (arith, shape_text-daily m h (c ∷ expr) dm dh))

daily-run :
    (expr m h : Text) (from : ℕ)
    → IsDaily expr m h
    → (t : ℕ) × (next_cron_run expr from ≡ run_at t) × (t * 60_000 ≤ from + 86_400_000)
unfolding is_valid_cron cron_matches
daily-run expr m h from (e, s, dm, dh, ok) =
    let n = from / 60_000 + 1 in
    let bounds =
      fields_ok-daily m h dm dh
        (subst (λ f. fields_ok f field_bounds ≡ true) (ap split_spaces e ∙ s) ok) in
    let u = time_from n (number_from 0 h * 60 + number_from 0 m) in
    let at_time = time_from_lem n (number_from 0 m) (number_from 0 h) bounds.0 bounds.1 in
    let fits : cron_matches expr u ≡ true =
      rw (e, s) (fields_match-daily m h u dm dh ∙ ground (arith, at_time.0, at_time.1)) in
    let found = next_cron_run-finds expr from u ok (omega arith) (omega arith) fits in
    (found.0, found.1, omega (arith, found.2, at_time.2))

daily_time :
    (expr m h : Text) (t : ℕ)
    → IsDaily expr m h
    → cron_matches expr t ≡ true
    → (utc_hours t ≡ number_from 0 h) × (utc_minutes t ≡ number_from 0 m)
unfolding cron_matches
daily_time expr m h t (e, s, dm, dh, ok) fits =
    ground (arith, fields_match-daily m h t dm dh, (rw (e, s) at fits))

-- An expression "m h * * *" with numbers m and h, without space around it, that is accepted is
-- described as every day at that hour and minute. It has a run after any time, within 24 hours,
-- and that run is at that hour and minute.
pub next_cron_run-daily :
    (expr m h : Text) (from : ℕ)
    → IsDaily expr m h
    → (cron_description expr ≡ record {
      text = some (codes "每天 " ++ clock (number_from 0 h) (number_from 0 m));
      error = none;
    })
      × ((t : ℕ) × (next_cron_run expr from ≡ run_at t)
          × (from < t * 60_000)
          × (t * 60_000 ≤ from + 86_400_000)
          × (utc_hours t ≡ number_from 0 h)
          × (utc_minutes t ≡ number_from 0 m))
next_cron_run-daily expr m h from d =
    let run = daily-run expr m h from d in
    let right = next_cron_run-run_at expr from run.0 run.1 in
    let time = daily_time expr m h run.0 d right.2 in
    (cron_description-daily expr m h d, (run.0, run.1, right.0, run.2, time.0, time.1))
