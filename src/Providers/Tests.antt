-- ===== src/Providers/Tests.antt =====
-- Names and model ids as a user types them.
use cubestack.Prelude.{
  all, ℕ, ◌≡◌, ◌↔◌, ◌⊎◌, ◌≤◌, ◌<◌, refl, Text, codes, text_eq, includes, trim, is_space, lower,
  false, true, List, [], ◌∷◌, map, length, All, if◌then◌else◌, arith,
}
use mathlib.Core.List.{Mem, mem-cons_self}
use cubestack.Providers.Meanings.{
  reserved_plugin_providers, builtin_providers, provider_name_notice, ProviderNameNotice, Official,
  suggestion_for,
}
use cubestack.Providers.Meanings.Notices.{is_lower_ascii}
use cubestack.Providers.{
  sanitize_provider_name, is_label, provider_name_error, is_platform_provider_name, reserved_name,
  normalize_model_ids,
}
use cubestack.Providers.Names.{sanitize_provider_name-is_label}
use cubestack.Providers.Models.{IsSelectable, model_ids_error, model_ids_error-eq-nil_iff}

abbrev typed : Text
typed = codes " --My Provider!!v2- "

abbrev lower_all : Text → Text
lower_all t = map lower t

sanitizes : sanitize_provider_name lower_all typed ≡ codes "my-provider-v2"
unfolding sanitize_provider_name trim is_space
sanitizes = refl

reserves :
    provider_name_error (codes "cubestack-private") ≡ reserved_name (codes "cubestack-private")
unfolding provider_name_error text_eq
reserves = refl

sanitize_provider_name-is_label_example :
    (sanitize_provider_name lower_all typed ≡ [])
    ⊎ ((is_label (sanitize_provider_name lower_all typed) ≡ true)
        × (length (sanitize_provider_name lower_all typed) ≤ 63)
        × (provider_name_error (sanitize_provider_name lower_all typed) ≡ (
            if is_platform_provider_name (sanitize_provider_name lower_all typed)
            then reserved_name (sanitize_provider_name lower_all typed)
            else [])))
sanitize_provider_name-is_label_example = sanitize_provider_name-is_label lower_all typed

abbrev ids : List Text
ids = codes " gpt-5 " ∷ codes "" ∷ codes "a/b" ∷ codes "gpt-5" ∷ []

normalizes : normalize_model_ids ids ≡ codes "gpt-5" ∷ codes "a/b" ∷ []
unfolding normalize_model_ids trim is_space text_eq
normalizes = refl

abbrev no_digits : ℕ → Text
no_digits n = []

model_ids_error-eq-nil_iff_example :
    (model_ids_error no_digits ids ≡ [])
    ↔ ((0 < length ids) × (length ids ≤ 64) × All IsSelectable ids)
model_ids_error-eq-nil_iff_example = model_ids_error-eq-nil_iff no_digits ids

bedrock_free : includes (map codes builtin_providers) (codes "amazon-bedrock") ≡ false
unfolding text_eq
bedrock_free = refl

bedrock_reserved : Mem ("amazon-bedrock", "Amazon Bedrock") reserved_plugin_providers
bedrock_reserved = mem-cons_self

lower_kept : (c : ℕ) → is_lower_ascii c ≡ true → lower c ≡ c
lower_kept c h = ground (arith, h)

kept : (t : Text) → all is_lower_ascii t ≡ true → map lower t ≡ t
kept [] h = refl
kept (c ∷ t) h = rw (lower_kept c (ground (arith, h)), kept t (ground (arith, h)))

suggests_proxy : suggestion_for (codes "amazon-bedrock") ≡ codes "amazon-bedrock-proxy"
unfolding suggestion_for
suggests_proxy = refl

-- A name that an object inherits is taken for a reserved one, without a title.
inherits :
    provider_name_notice lower_all (codes "constructor")
    ≡ ProviderNameNotice.reserved_plugin Official.inherited (codes "constructor-proxy")
unfolding provider_name_notice trim is_space text_eq suggestion_for
inherits = refl
