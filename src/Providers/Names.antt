-- ===== src/Providers/Names.antt =====
-- llm.ts: a sanitized name can name an object of Kubernetes.
use cubestack.Prelude.{
  ℕ, suc, zero, ◌≤◌, ltb, ◌==◌, ◌≡◌, ◌⊎◌, refl, inl, inr, Bool-cases, Text, trim, Bool, true, false,
  List, [], ◌∷◌, length, take, if◌then◌else◌, All, arith,
}
use cubestack.Providers.{
  is_alphanumeric, is_label_unit, is_label_tail, is_label, dash_runs, strip_start, keep_before,
  strip_end, sanitize_provider_name, provider_name_error, is_platform_provider_name, reserved_name,
  max_provider_name,
}

abbrev LabelUnit : ℕ → Type 0
LabelUnit c = is_label_unit c ≡ true

after_dash :
    (in_run : Bool) (rest : Text)
    → All LabelUnit rest
    → All LabelUnit (if in_run then rest else b'-' ∷ rest)
after_dash true rest h = h
after_dash false rest h = (refl, h)

no_dash : (c : ℕ) → is_label_unit c ≡ true → (c == b'-') ≡ false → is_alphanumeric c ≡ true
no_dash c h e = ground (arith, h, e)

keep_before-is_label_tail :
    (c : ℕ) (t : Text)
    → is_label_unit c ≡ true
    → is_label_tail t ≡ true
    → is_label_tail (keep_before c t) ≡ true
keep_before-is_label_tail c [] p h = elim (Bool-cases (c == b'-')) [
  | inl e ↦ rw e
  | inr e ↦ rw e (no_dash c p e)
]
keep_before-is_label_tail c (d ∷ t) p h = rw (p, h)

keep_before-is_label :
    (c : ℕ) (t : Text)
    → is_alphanumeric c ≡ true
    → is_label_tail t ≡ true
    → is_label (keep_before c t) ≡ true
keep_before-is_label c [] p h = elim (Bool-cases (c == b'-')) [
  | inl e ↦ absurd (ground (arith, e, p))
  | inr e ↦ rw (e, p)
]
keep_before-is_label c (d ∷ t) p h = rw (p, h)

length-keep_before-le : (c : ℕ) (t : Text) → length (keep_before c t) ≤ suc (length t)
length-keep_before-le c [] = ground arith
length-keep_before-le c (d ∷ t) = omega arith

dash_runs-LabelUnit : (in_run : Bool) (t : Text) → All LabelUnit (dash_runs in_run t)
unfolding dash_runs
dash_runs-LabelUnit in_run [] = tt
dash_runs-LabelUnit in_run (c ∷ t) = elim (Bool-cases (is_label_unit c)) [
  | inl e ↦ rw e (e, dash_runs-LabelUnit false t)
  | inr e ↦ rw e (after_dash in_run (dash_runs true t) (dash_runs-LabelUnit true t))
]

take-All {ℓ κ} : {A : Type ℓ} (P : A → Type κ) (n : ℕ) (xs : List A) → All P xs → All P (take n xs)
take-All P zero xs h = tt
take-All P (suc n) [] h = tt
take-All P (suc n) (x ∷ xs) (p, h) = (p, take-All P n xs h)

length-take-le {ℓ} : {A : Type ℓ} (n : ℕ) (xs : List A) → length (take n xs) ≤ n
length-take-le zero xs = omega arith
length-take-le (suc n) [] = omega arith
length-take-le (suc n) (x ∷ xs) = omega (arith, length-take-le n xs)

-- A text of label units that does not begin with a dash
abbrev StartsWell : Text → Type 0
StartsWell [] = Unit
StartsWell (c ∷ t) = (is_alphanumeric c ≡ true) × All LabelUnit t

strip_start-StartsWell : (t : Text) → All LabelUnit t → StartsWell (strip_start t)
unfolding strip_start
strip_start-StartsWell [] h = tt
strip_start-StartsWell (c ∷ t) (p, h) = elim (Bool-cases (c == b'-')) [
  | inl e ↦ rw e (strip_start-StartsWell t h)
  | inr e ↦ rw e (no_dash c p e, h)
]

length-strip_start-le : (t : Text) → length (strip_start t) ≤ length t
unfolding strip_start
length-strip_start-le [] = omega arith
length-strip_start-le (c ∷ t) = ground (arith, length-strip_start-le t)

length-strip_end-le : (t : Text) → length (strip_end t) ≤ length t
unfolding strip_end
length-strip_end-le [] = omega arith
length-strip_end-le (c ∷ t) =
    omega (arith, length-keep_before-le c (strip_end t), length-strip_end-le t)

strip_end-is_label_tail : (t : Text) → All LabelUnit t → is_label_tail (strip_end t) ≡ true
unfolding strip_end
strip_end-is_label_tail [] h = refl
strip_end-is_label_tail (c ∷ t) (p, h) =
    keep_before-is_label_tail c (strip_end t) p (strip_end-is_label_tail t h)

strip_end-is_label :
    (t : Text) → StartsWell t → (strip_end t ≡ []) ⊎ (is_label (strip_end t) ≡ true)
unfolding strip_end
strip_end-is_label [] h = inl refl
strip_end-is_label (c ∷ t) (p, h) =
    inr (keep_before-is_label c (strip_end t) p (strip_end-is_label_tail t h))

sanitized_units :
    (to_lower_case : Text → Text) (raw : Text)
    → StartsWell (strip_start (take max_provider_name (dash_runs false (to_lower_case (trim raw)))))
sanitized_units to_lower_case raw =
    let runs = dash_runs false (to_lower_case (trim raw)) in
    strip_start-StartsWell (take max_provider_name runs) (
      take-All LabelUnit max_provider_name runs
        (dash_runs-LabelUnit false (to_lower_case (trim raw))))

sanitized_length : (t : Text) → length (strip_end (strip_start (take max_provider_name t))) ≤ 63
sanitized_length t = omega (
  arith,
  length-strip_end-le (strip_start (take max_provider_name t)),
  length-strip_start-le (take max_provider_name t),
  length-take-le max_provider_name t,
)

error_of_label :
    (name : Text)
    → is_label name ≡ true
    → length name ≤ 63
    → provider_name_error name ≡ (if is_platform_provider_name name then reserved_name name else [])
unfolding provider_name_error
error_of_label [] h k = absurd (ground (arith, h))
error_of_label (c ∷ t) h k =
    let short : ltb max_provider_name (length (c ∷ t)) ≡ false = ground (arith, k) in rw (h, short)

-- A sanitized name is empty, or a DNS label of at most 63 characters, which is refused only where
-- it is the platform's. This holds whatever case mapping the language has.
pub sanitize_provider_name-is_label :
    (to_lower_case : Text → Text) (raw : Text)
    → let name = sanitize_provider_name to_lower_case raw in
      (name ≡ [])
      ⊎ ((is_label name ≡ true)
          × (length name ≤ 63)
          × (provider_name_error name
              ≡ (if is_platform_provider_name name then reserved_name name else [])))
unfolding sanitize_provider_name
sanitize_provider_name-is_label to_lower_case raw =
    let runs = dash_runs false (to_lower_case (trim raw)) in
    let short = sanitized_length runs in
    elim (strip_end-is_label (strip_start (take max_provider_name runs))
      (sanitized_units to_lower_case raw)) [
        | inl e ↦ inl e
        | inr e ↦ inr (e, short, error_of_label _ e short)
      ]
