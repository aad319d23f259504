-- ===== src/Providers.antt =====
-- llm.ts, and the platform's provider names of types.ts: the names and the models of a provider.
pub mod Names
pub mod Models
pub mod Meanings
mod Tests
use cubestack.Prelude.{
  ℕ, ltb, leb, ◌==◌, Text, codes, text_eq, includes, starts_with, contains, trim, is_space, any,
  Bool, true, false, not, ◌&&◌, ◌||◌, Option, none, some, List, [], ◌∷◌, ◌++◌, length, take,
  if◌then◌else◌, is_empty, find_index, is_text,
}

-- What of a provider is read here.
pub record TemplateProviderCr : Type 0 where
  pub name : Option Text
  pub models : List Text

unfoldable pub llm_credential_name : Text → Text
llm_credential_name provider_name = codes "llm-" ++ provider_name

abbrev pub max_provider_name : ℕ
max_provider_name = 63

abbrev pub max_provider_models : ℕ
max_provider_models = 64

abbrev pub max_model_id : ℕ
max_model_id = 256

-- `[a-z0-9]`
abbrev pub is_alphanumeric : ℕ → Bool
is_alphanumeric c = leb b'a' c && leb c b'z' || leb b'0' c && leb c b'9'

-- `[-a-z0-9]`
abbrev pub is_label_unit : ℕ → Bool
is_label_unit c = c == b'-' || is_alphanumeric c

-- `([-a-z0-9]*[a-z0-9])?$`
abbrev pub is_label_tail : Text → Bool
is_label_tail [] = true
is_label_tail (c ∷ []) = is_alphanumeric c
is_label_tail (c ∷ d ∷ t) = is_label_unit c && is_label_tail (d ∷ t)

-- `DNS_1123_LABEL`
abbrev pub is_label : Text → Bool
is_label [] = false
is_label (c ∷ t) = is_alphanumeric c && is_label_tail t

-- `.replace(/[^a-z0-9-]+/g, "-")`, with whether the unit before was replaced
unfoldable pub dash_runs : Bool → Text → Text
dash_runs in_run [] = []
dash_runs in_run (c ∷ t) =
    let rest = dash_runs (not (is_label_unit c)) t in
    if is_label_unit c then c ∷ rest else if in_run then rest else b'-' ∷ rest

-- `.replace(/^-+|-+$/g, "")`, at the start and at the end
unfoldable pub strip_start : Text → Text
strip_start [] = []
strip_start (c ∷ t) = let rest = strip_start t in if c == b'-' then rest else c ∷ t

abbrev pub keep_before : ℕ → Text → Text
keep_before c [] = if c == b'-' then [] else c ∷ []
keep_before c (d ∷ t) = c ∷ d ∷ t

unfoldable pub strip_end : Text → Text
strip_end [] = []
strip_end (c ∷ t) = keep_before c (strip_end t)

-- `to_lower_case` stands for the language's, whose tables of letters are not written out.
unfoldable pub sanitize_provider_name : (Text → Text) → Text → Text
unfolding dash_runs strip_start strip_end
sanitize_provider_name to_lower_case raw =
    strip_end (strip_start (take max_provider_name (dash_runs false (to_lower_case (trim raw)))))

abbrev pub platform_model_name : Text
platform_model_name = codes "cubestack"

unfoldable pub is_platform_provider_name : Text → Bool
is_platform_provider_name name =
    text_eq name platform_model_name || starts_with (platform_model_name ++ codes "-") name

abbrev pub not_a_label : Text → Text
not_a_label name =
    codes "provider name \""
    ++ (name
        ++ codes
            "\" must be a DNS-1123 label: lowercase letters, digits and \"-\", at most 63 characters")

abbrev pub reserved_name : Text → Text
reserved_name name =
    codes "provider name \""
    ++ (name ++ codes "\" is reserved for the platform's AI Gateway providers")

unfoldable pub provider_name_error : Text → Text
unfolding is_platform_provider_name
provider_name_error name =
    if is_empty name || (ltb max_provider_name (length name) || not (is_label name))
    then not_a_label name
    else if is_platform_provider_name name
    then reserved_name name
    else []

-- The id is dropped: it is empty, or it was seen.
abbrev pub is_dropped_id : List Text → Text → Bool
is_dropped_id seen id = is_empty id || includes seen id

unfoldable pub normalize_loop : List Text → List Text → List Text
normalize_loop seen [] = []
normalize_loop seen (raw ∷ ids) =
    let id = trim raw in
    let dropped = is_dropped_id seen id in
    let rest = normalize_loop (if dropped then seen else id ∷ seen) ids in
    if dropped then rest else id ∷ rest

unfoldable pub normalize_model_ids : List Text → List Text
unfolding normalize_loop
normalize_model_ids ids = normalize_loop [] ids

unfoldable pub provider_index : Option (List TemplateProviderCr) → Text → Option ℕ
provider_index none name = none
provider_index (some providers) name = find_index (λ p. is_text p.name name) providers
