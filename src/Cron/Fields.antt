-- ===== src/Cron/Fields.antt =====
-- The values of a field against its parts: `fieldValues` of cron.ts.
use cubestack.Prelude.{
  number_from, ℕ, zero, suc, ◌+◌, ◌-◌, ◌%◌, ◌≤◌, ◌<◌, ◌≡◌, refl, arith, leb, ◌==◌, Text, codes,
  text_eq, starts_with, trim, Bool, true, ◌&&◌, ◌||◌, List, [], ◌∷◌, ◌++◌, if◌then◌else◌, drop, any,
  and-true,
}
use native.Mathlib.Nat.{mod-eq_of_lt, mod-eq-sub-mod}
use cubestack.Cron.{is_digits, split_commas, token_ok, part_ok, field_ok, all}
use cubestack.Cron.Values.{has, add, add_steps, step_of, add_part, add_parts, field_values}

-- A part admits a number: all of them, each so many from the first on, or the one it writes.
abbrev pub part_matches : ℕ → ℕ → Text → Bool
part_matches first n t =
    if text_eq t (codes "*")
    then true
    else if starts_with (codes "*/") t
    then (n - first) % number_from 0 (drop 2 t) == 0
    else n == number_from 0 t

unfoldable pub field_matches : Text → ℕ → ℕ → Bool
unfolding trim text_eq
field_matches field first n = any (λ p. part_matches first n (trim p)) (split_commas field)

pub has-append : (s t : List ℕ) (n : ℕ) → has (s ++ t) n ≡ has s n || has t n
has-append [] t n = refl
has-append (m ∷ s) t n = ground (arith, has-append s t n)

pub has-add : (m n : ℕ) (s : List ℕ) → has (add m s) n ≡ (n == m) || has s n
unfolding add
has-add m n s = ground (arith, has-append s (m ∷ []) n)

step_lem :
    (n from step : ℕ)
    → 1 ≤ step
    → (leb from n && ((n - from) % step == 0))
      ≡ (n == from) || (leb (from + step) n && ((n - (from + step)) % step == 0))
step_lem n from step h = grind (arith, mod-eq_of_lt, mod-eq-sub-mod)

-- The loop adds exactly the numbers that are a multiple of the step above the first, up to the last.
pub has-add_steps :
    (fuel from last step n : ℕ) (out : List ℕ)
    → 1 ≤ step
    → last < from + fuel
    → n ≤ last
    → has (add_steps fuel from last step out) n
      ≡ has out n || (leb from n && ((n - from) % step == 0))
unfolding add_steps
has-add_steps zero from last step n out h l m = ground arith
has-add_steps (suc fuel) from last step n out h l m = ground (
  arith,
  has-add_steps fuel (from + step) last step n (add from out) h,
  has-add from n out,
  step_lem n from step h,
)

abbrev InRange : ℕ → ℕ → ℕ → Type 0
InRange first last n = (first ≤ n) × (n ≤ last)

has-add_step :
    (first last n : ℕ) (step : Text) (out : List ℕ)
    → is_digits step && leb 1 (number_from 0 step) ≡ true
    → InRange first last n
    → has (add_steps (last + 1 - first) first last (step_of step) out) n
      ≡ has out n || ((n - first) % number_from 0 step == 0)
unfolding step_of
has-add_step first last n step out ok r =
    let both = and-true (is_digits step) _ ok in
    let e : step_of step ≡ number_from 0 step = ground (arith, both) in
    rw e (
      ground
        (arith, both, r, has-add_steps (last + 1 - first) first last (number_from 0 step) n out))

has-add_part :
    (first last n : ℕ) (t : Text) (out : List ℕ)
    → token_ok t first last ≡ true
    → InRange first last n
    → has (add_part first last t out) n ≡ has out n || part_matches first n t
unfolding add_part token_ok
has-add_part first last n [] out ok r = absurd (ground arith)
has-add_part first last n (c ∷ []) out ok r = ground (
  arith,
  r,
  has-add (number_from 0 (c ∷ [])) n out,
  has-add_steps (last + 1 - first) first last 1 n out,
)
has-add_part first last n (c ∷ d ∷ step) out ok r = ground (
  arith,
  r,
  has-add (number_from 0 (c ∷ d ∷ step)) n out,
  has-add_steps (last + 1 - first) first last 1 n out,
  has-add_step first last n step out,
)

has-add_parts :
    (first last n : ℕ) (parts : List Text) (out : List ℕ)
    → all (part_ok first last) parts ≡ true
    → InRange first last n
    → has (add_parts first last parts out) n
      ≡ has out n || any (λ p. part_matches first n (trim p)) parts
unfolding add_parts part_ok
has-add_parts first last n [] out ok r = ground arith
has-add_parts first last n (p ∷ parts) out ok r = ground (
  arith,
  r,
  has-add_part first last n (trim p) out,
  has-add_parts first last n parts (add_part first last (trim p) out),
)

-- Of a field that the grammar accepts, the values within its bounds are the numbers that one of
-- its parts admits: any, a multiple of the step above the lower bound, or the number that is
-- written.
pub field_values-eq-field_matches :
    (field : Text) (first last n : ℕ)
    → field_ok field first last ≡ true
    → first ≤ n
    → n ≤ last
    → has (field_values field first last) n ≡ field_matches field first n
unfolding field_values field_matches field_ok
field_values-eq-field_matches field first last n ok l h =
    has-add_parts first last n (split_commas field) [] (and-true _ _ ok).1 (l, h)
