-- ===== src/DevEnvironments/Names.antt =====
-- The names that app/api/devenvironments/route.ts derives for the volumes: `volumeNameBase`, and
-- the loop that makes a name unique.
use cubestack.Prelude.{
  All, distinct, length-le_of_distinct, Option-cases, ℕ, zero, suc, ◌+◌, ◌<◌, ◌≡◌, ◌≢◌, refl, arith,
  ◌==◌, Text, codes, text_eq, text_eq_iff, trim, includes, take, decimal, decimal-injective,
  is_truthy, get_or, length, Bool, true, false, List, [], ◌∷◌, ◌++◌, Option, none, some,
  if◌then◌else◌, inl, inr, subst,
}
use cubestack.DevEnvironments.Words.{is_small}

-- `.replace(/[^a-z0-9]+/g, "-")`; the flag says that the unit before was replaced.
abbrev pub slug_runs : Bool → Text → Text
slug_runs in_run [] = []
slug_runs in_run (c ∷ t) =
    let rest = slug_runs (if is_small c then false else true) t in
    if is_small c then c ∷ rest else if in_run then rest else b'-' ∷ rest

-- `.replace(/^-+|-+$/g, "")`, its two halves
abbrev pub without_dashes : Text → Text
without_dashes [] = []
without_dashes (c ∷ t) = let rest = without_dashes t in if c == b'-' then rest else c ∷ t

abbrev pub keep_unit : ℕ → Text → Text
keep_unit c [] = if c == b'-' then [] else c ∷ []
keep_unit c (d ∷ t) = c ∷ d ∷ t

abbrev pub without_end_dashes : Text → Text
without_end_dashes [] = []
without_end_dashes (c ∷ t) = keep_unit c (without_end_dashes t)

-- `to_lower_case` is `toLowerCase`.
unfoldable pub volume_name_base : (Text → Text) → Text → Text
unfolding trim
volume_name_base to_lower_case pvc_name =
    let slug =
      take 57
        (without_end_dashes (without_dashes (slug_runs false (to_lower_case (trim pvc_name))))) in
    if is_truthy slug then slug else codes "volume"

-- `${base}-${n}`
abbrev pub numbered : Text → ℕ → Text
numbered base n = base ++ b'-' ∷ decimal n

-- `for (let n = 2; names.has(name); n++) name = ...`: `none` where the fuel ends.
unfoldable pub next_free : ℕ → List Text → Text → Text → ℕ → Option Text
unfolding text_eq
next_free zero names base name n = none
next_free (suc fuel) names base name n = elim (includes names name) [
  | true ↦ next_free fuel names base (numbered base n) (n + 1)
  | false ↦ some name
]

-- The loop runs once more, at most, than there are names, and one for the first name.
unfoldable pub unique_name : List Text → Text → Text
unfolding next_free
unique_name names base = get_or (next_free (length names + 2) names base base 2) base

next_free-some :
    (fuel : ℕ) (names : List Text) (base name : Text) (n : ℕ) (found : Text)
    → next_free fuel names base name n ≡ some found
    → includes names found ≡ false
unfolding next_free
next_free-some zero names base name n found h = absurd (ground arith)
next_free-some (suc fuel) names base name n found h =
    ground (arith, next_free-some fuel names base (numbered base n) (n + 1) found)

abbrev candidates : ℕ → Text → ℕ → List Text
candidates zero base n = []
candidates (suc fuel) base n = numbered base n ∷ candidates fuel base (n + 1)

length-candidates : (fuel : ℕ) (base : Text) (n : ℕ) → length (candidates fuel base n) ≡ fuel
length-candidates zero base n = refl
length-candidates (suc fuel) base n = omega (arith, length-candidates fuel base (n + 1))

append-cancel : (a s t : Text) → a ++ s ≡ a ++ t → s ≡ t
append-cancel [] s t e = e
append-cancel (c ∷ a) s t e = append-cancel a s t (ground (arith, e))

numbered-injective : (base : Text) (m n : ℕ) → numbered base m ≡ numbered base n → m ≡ n
numbered-injective base m n e =
    let tails = append-cancel base (b'-' ∷ decimal m) (b'-' ∷ decimal n) e in
    decimal-injective m n (cc)

candidates-after :
    (fuel : ℕ) (base : Text) (m n : ℕ)
    → m < n
    → includes (candidates fuel base n) (numbered base m) ≡ false
candidates-after zero base m n h = refl
candidates-after (suc fuel) base m n h = ground (
  arith,
  numbered-injective base n m,
  text_eq_iff (numbered base n) (numbered base m),
  candidates-after fuel base m (n + 1),
)

candidates-distinct : (fuel : ℕ) (base : Text) (n : ℕ) → distinct (candidates fuel base n) ≡ true
candidates-distinct zero base n = refl
candidates-distinct (suc fuel) base n =
    ground (arith, candidates-after fuel base n (n + 1), candidates-distinct fuel base (n + 1))

next_free-none :
    (fuel : ℕ) (names : List Text) (base name : Text) (n : ℕ)
    → next_free (suc fuel) names base name n ≡ none
    → includes names name ≡ true
unfolding next_free
next_free-none fuel names base name n h = ground (arith, h)

candidates-taken :
    (fuel : ℕ) (names : List Text) (base name : Text) (n : ℕ)
    → next_free (suc fuel) names base name n ≡ none
    → All (λ t. includes names t ≡ true) (candidates fuel base n)
unfolding next_free
candidates-taken zero names base name n h = tt
candidates-taken (suc fuel) names base name n h =
    let later : next_free (suc fuel) names base (numbered base n) (n + 1) ≡ none =
      ground (arith, h) in
    (
      next_free-none fuel names base (numbered base n) (n + 1) later,
      candidates-taken fuel names base (numbered base n) (n + 1) later,
    )

-- The loop ends, since the names that it tries are all different.
next_free-ends :
    (names : List Text) (base : Text) → next_free (length names + 2) names base base 2 ≢ none
next_free-ends names base h =
    let fuel = length names + 1 in
    let e : length names + 2 ≡ suc fuel = omega arith in
    let none_left = subst (λ f. next_free f names base base 2 ≡ none) e h in
    omega (
      arith,
      length-candidates fuel base 2,
      length-le_of_distinct (candidates fuel base 2) names (candidates-distinct fuel base 2)
          (candidates-taken fuel names base base 2 none_left),
    )

-- The name of a volume is not one of those before it.
pub unique_name-fresh :
    (names : List Text) (base : Text) → includes names (unique_name names base) ≡ false
unfolding unique_name
unique_name-fresh names base =
    elim (Option-cases (next_free (length names + 2) names base base 2)) [
      | inl e ↦ absurd (next_free-ends names base e)
      | inr (found, e) ↦ rw e (next_free-some (length names + 2) names base base 2 found e)
    ]
