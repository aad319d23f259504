-- ===== src/Providers/Models.antt =====
-- llm.ts: the model ids of a provider.
use cubestack.Prelude.{
  sym, ◌∙◌, ◌≢◌, Option, none, some, ◌≤◌, ◌<◌, ◌==◌, ℕ, ltb, ◌≡◌, ◌↔◌, refl, inl, inr, Bool-cases,
  Text, codes, text_eq, text_eq_iff, text_eq_refl, includes, starts_with, contains, trim, is_space,
  any, Bool, true, false, not, ◌&&◌, ◌||◌, List, [], ◌∷◌, ◌++◌, length, if◌then◌else◌, is_empty,
  arith, map, All, ◌<◌, ◌≤◌,
}
use cubestack.Providers.{
  is_platform_provider_name, normalize_loop, normalize_model_ids, is_dropped_id, max_model_id,
  max_provider_models,
}

-- `id.endsWith("/")`
abbrev pub ends_with_slash : Text → Bool
ends_with_slash [] = false
ends_with_slash (c ∷ []) = c == b'/'
ends_with_slash (c ∷ d ∷ t) = ends_with_slash (d ∷ t)

unfoldable pub is_unusable : Text → Bool
is_unusable id =
    is_empty id
    || (text_eq id (codes "*")
        || (ltb max_model_id (length id)
            || (any is_space id
                || (contains (codes "//") id
                    || (starts_with (codes "/") id || ends_with_slash id)))))

abbrev pub unusable : Text → Text
unusable id =
    codes "model id \""
    ++ (id
        ++ codes
            "\" is unusable: it must be non-empty, at most 256 characters, with no whitespace, no empty path segment and no leading or trailing \"/\"")

unfoldable pub model_id_error : Text → Text
unfolding is_unusable
model_id_error id = if is_unusable id then unusable id else []

-- The first error of the ids
abbrev pub first_error : List Text → Text
unfolding model_id_error
first_error [] = []
first_error (id ∷ ids) =
    let rest = first_error ids in if is_empty (model_id_error id) then rest else model_id_error id

-- `decimal` writes a number out.
unfoldable pub model_ids_error : (ℕ → Text) → List Text → Text
unfolding first_error
model_ids_error decimal ids =
    if is_empty ids
    then codes "the provider needs at least one model id: list the ids the endpoint serves"
    else if ltb max_provider_models (length ids)
    then codes "a provider serves at most 64 model ids (got " ++ (decimal (length ids) ++ codes ")")
    else first_error ids

abbrev pub Distinct : List Text → Type 0
Distinct [] = Unit
Distinct (k ∷ ks) = (includes ks k ≡ false) × Distinct ks

dropped_id :
    (seen : List Text) (t id : Text)
    → is_dropped_id seen t ≡ true
    → text_eq t id ≡ true
    → (is_empty id || includes seen id) ≡ true
dropped_id seen t id h e = rw ((text_eq_iff t id).0 e) at h

kept_id :
    (seen : List Text) (t id : Text)
    → is_dropped_id seen t ≡ false
    → text_eq t id ≡ true
    → (is_empty id || includes seen id) ≡ false
kept_id seen t id h e = rw ((text_eq_iff t id).0 e) at h

includes_after :
    (seen : List Text) (ids : List Text) (id : Text)
    → includes (normalize_loop seen ids) id
      ≡ (not (includes seen id) && (not (is_empty id) && includes (map trim ids) id))
unfolding normalize_loop
includes_after seen [] id = ground arith
includes_after seen (raw ∷ ids) id = elim (Bool-cases (is_dropped_id seen (trim raw))) [
  | inl e ↦ rw e (ground (arith, includes_after seen ids id, dropped_id seen (trim raw) id e))
  | inr e ↦
      rw e (ground (arith, includes_after (trim raw ∷ seen) ids id, kept_id seen (trim raw) id e))
]

normalize_loop-Distinct : (seen ids : List Text) → Distinct (normalize_loop seen ids)
unfolding normalize_loop
normalize_loop-Distinct seen [] = tt
normalize_loop-Distinct seen (raw ∷ ids) = elim (Bool-cases (is_dropped_id seen (trim raw))) [
  | inl e ↦ rw e (normalize_loop-Distinct seen ids)
  | inr e ↦
      let absent : includes (normalize_loop (trim raw ∷ seen) ids) (trim raw) ≡ false =
        rw (includes_after (trim raw ∷ seen) ids (trim raw), text_eq_refl (trim raw)) in
      rw e (absent, normalize_loop-Distinct (trim raw ∷ seen) ids)
]

-- The normalized ids are distinct, and they are the trimmed ones that are not empty.
pub normalize_model_ids-includes :
    (ids : List Text)
    → Distinct (normalize_model_ids ids)
      × ((id : Text)
          → includes (normalize_model_ids ids) id
            ≡ (not (is_empty id) && includes (map trim ids) id))
unfolding normalize_model_ids
normalize_model_ids-includes ids = (normalize_loop-Distinct [] ids, includes_after [] ids)

-- Between its slashes, a text has a part that is empty; the flag says that the part begun is.
abbrev pub has_empty_part : Bool → Text → Bool
has_empty_part begun [] = begun
has_empty_part begun (c ∷ t) =
    let at_end = has_empty_part true t in
    let inside = has_empty_part false t in if c == b'/' then begun || at_end else inside

-- An id that can be selected: of 1 to 256 units, none of them white space, with no empty part between
-- slashes, and not "*" alone.
abbrev pub IsSelectable : Text → Type 0
IsSelectable id =
    (0 < length id)
    × (length id ≤ 256)
    × All (λ c. is_space c ≡ false) id
    × (has_empty_part true id ≡ false)
    × (id ≢ codes "*")

part-slashes : (t : Text) → has_empty_part false t ≡ contains (codes "//") t || ends_with_slash t
part-slashes [] = refl
part-slashes (c ∷ []) = ground arith
part-slashes (c ∷ d ∷ t) = ground (arith, part-slashes (d ∷ t))

parts_lem :
    (c : ℕ) (t : Text)
    → has_empty_part true (c ∷ t)
      ≡ contains (codes "//") (c ∷ t)
        || (starts_with (codes "/") (c ∷ t) || ends_with_slash (c ∷ t))
parts_lem c t = ground (arith, part-slashes (c ∷ t))

any-All : (t : Text) → any is_space t ≡ false → All (λ c. is_space c ≡ false) t
any-All [] h = tt
any-All (c ∷ t) h = (ground (arith, h), any-All t (ground (arith, h)))

All-any : (t : Text) → All (λ c. is_space c ≡ false) t → any is_space t ≡ false
All-any [] h = refl
All-any (c ∷ t) (e, h) = ground (arith, e, All-any t h)

-- The tests of an id fail all, or one does not.
tests_lem :
    (star long spaced parts : Bool)
    → ((star || (long || (spaced || parts))) ≡ false)
      ↔ ((star ≡ false) × (long ≡ false) × (spaced ≡ false) × (parts ≡ false))
tests_lem star long spaced parts = ground arith

is_unusable_iff :
    (c : ℕ) (t : Text)
    → (is_unusable (c ∷ t) ≡ false) ↔ (
        (text_eq (c ∷ t) (codes "*") ≡ false)
        × (ltb max_model_id (length (c ∷ t)) ≡ false)
        × (any is_space (c ∷ t) ≡ false)
        × (contains (codes "//") (c ∷ t)
              || (starts_with (codes "/") (c ∷ t) || ends_with_slash (c ∷ t))
            ≡ false))
unfolding is_unusable
is_unusable_iff c t =
    tests_lem (text_eq (c ∷ t) (codes "*")) (ltb max_model_id (length (c ∷ t)))
      (any is_space (c ∷ t))
      (contains (codes "//") (c ∷ t)
        || (starts_with (codes "/") (c ∷ t) || ends_with_slash (c ∷ t)))

usable-IsSelectable : (id : Text) → is_unusable id ≡ false → IsSelectable id
unfolding is_unusable
usable-IsSelectable [] h = absurd (ground arith)
usable-IsSelectable (c ∷ t) h =
    let (star, long, spaced, parts) = (is_unusable_iff c t).0 h in
    (
      omega arith,
      ground (arith, long),
      any-All (c ∷ t) spaced,
      parts_lem c t ∙ parts,
      λ e. absurd (ground (arith, star, (text_eq_iff (c ∷ t) (codes "*")).1 e)),
    )

IsSelectable-usable : (id : Text) → IsSelectable id → is_unusable id ≡ false
unfolding is_unusable
IsSelectable-usable [] h = absurd (omega (arith, h.0))
IsSelectable-usable (c ∷ t) (some_unit, short, plain, parts, star) = (is_unusable_iff c t).1 (
  ground (arith, star, text_eq_iff (c ∷ t) (codes "*")),
  ground (arith, short),
  All-any (c ∷ t) plain,
  sym (parts_lem c t) ∙ parts,
)

first_error-All : (ids : List Text) → first_error ids ≡ [] → All IsSelectable ids
unfolding first_error model_id_error
first_error-All [] h = tt
first_error-All (id ∷ ids) h = elim (Bool-cases (is_unusable id)) [
  | inl e ↦ absurd (ground (arith, rw e at h))
  | inr e ↦ (usable-IsSelectable id e, first_error-All ids (rw e at h))
]

first_error-eq-nil : (ids : List Text) → All IsSelectable ids → first_error ids ≡ []
unfolding first_error model_id_error
first_error-eq-nil [] h = refl
first_error-eq-nil (id ∷ ids) (e, h) = rw (IsSelectable-usable id e) (first_error-eq-nil ids h)

accepted :
    (decimal : ℕ → Text) (ids : List Text)
    → model_ids_error decimal ids ≡ []
    → (0 < length ids) × (length ids ≤ 64) × All IsSelectable ids
unfolding model_ids_error
accepted decimal [] h = absurd (ground (arith, h))
accepted decimal (id ∷ ids) h = elim (Bool-cases (ltb max_provider_models (length (id ∷ ids)))) [
  | inl e ↦ absurd (ground (arith, rw e at h))
  | inr e ↦ (omega arith, ground (arith, e), first_error-All (id ∷ ids) (rw e at h))
]

accepts :
    (decimal : ℕ → Text) (ids : List Text)
    → (0 < length ids) × (length ids ≤ 64) × All IsSelectable ids
    → model_ids_error decimal ids ≡ []
unfolding model_ids_error
accepts decimal [] (some_id, short, usable) = absurd (omega (arith, some_id))
accepts decimal (id ∷ ids) (some_id, short, usable) =
    let few : ltb max_provider_models (length (id ∷ ids)) ≡ false = ground (arith, short) in
    rw few (first_error-eq-nil (id ∷ ids) usable)

-- A list of ids is accepted exactly if it has at least one and at most 64, and each of them has 1 to
-- 256 units, no white space, no empty part between slashes or at an end, and is not "*".
pub model_ids_error-eq-nil_iff :
    (decimal : ℕ → Text) (ids : List Text)
    → (model_ids_error decimal ids ≡ [])
      ↔ ((0 < length ids) × (length ids ≤ 64) × All IsSelectable ids)
model_ids_error-eq-nil_iff decimal ids = (accepted decimal ids, accepts decimal ids)

abbrev pub exclusive : Text
exclusive = codes "apiKey and public are mutually exclusive: a public provider has no credential"

abbrev pub key_required : Text
key_required = codes "apiKey is required unless the provider is declared public (public=true)"

-- `credentialChoiceError(apiKey, isPublic)`
unfoldable pub credential_choice_error : Text → Bool → Text
credential_choice_error api_key is_public =
    if is_public && not (is_empty api_key)
    then exclusive
    else if not is_public && is_empty api_key
    then key_required
    else []

-- `to_lower_case` stands for the language's.
module _ (to_lower_case : Text → Text) where
  abbrev pub key_of : Text → Text → Text
  key_of p id =
      if is_empty p
      then id
      else if is_empty id
      then p
      else if starts_with (to_lower_case p ++ codes "/") (to_lower_case id)
      then id
      else p ++ (codes "/" ++ id)

  unfoldable pub model_key : Text → Text → Text
  model_key provider model_id = key_of (trim provider) (trim model_id)

abbrev pub and_before : ℕ → Option (Text × Text) → Option (Text × Text)
and_before c none = none
and_before c (some (a, b)) = some (c ∷ a, b)

-- What stands before and behind the first "/"
abbrev pub at_slash : Text → Option (Text × Text)
at_slash [] = none
at_slash (c ∷ t) = let rest = and_before c (at_slash t) in if c == b'/' then some ([], t) else rest

abbrev pub display_of : Text → Option (Text × Text) → Text
unfolding is_platform_provider_name
display_of whole none = whole
display_of whole (some (provider, id)) = if is_platform_provider_name provider then id else whole

unfoldable pub display_model_name : Text → Text
unfolding display_of
display_model_name selected = display_of selected (at_slash selected)
