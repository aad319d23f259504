-- ===== src/Providers/Meanings/Notices.antt =====
-- provider-names.ts: what is suggested in place of a reserved name.
use Prim.Native.String.{String}
use cubestack.Prelude.{
  all-Mem, ◌∙◌, ℕ, ltb, leb, ◌≡◌, refl, ap, Text, codes, text_eq, text_eq_iff, includes, trim,
  is_space, Bool, true, false, not, ◌&&◌, ◌||◌, [], ◌∷◌, map, all, and-true, is_empty, arith,
}
use mathlib.Core.List.{Mem}
use cubestack.Providers.{provider_name_error}
use cubestack.Providers.Meanings.{
  reserved_plugin_providers, builtin_providers, ProviderNameNotice, Official, notice_of,
  provider_name_notice, suggestion_for,
}

-- An ASCII unit that is no capital letter
abbrev pub is_lower_ascii : ℕ → Bool
is_lower_ascii c = ltb c 128 && not (leb b'A' c && leb c b'Z')

abbrev is_custom : ProviderNameNotice → Bool
is_custom ProviderNameNotice.custom = true
is_custom _ = false

abbrev suggests : Text → ProviderNameNotice → Bool
suggests s (ProviderNameNotice.reserved_plugin (Official.title t) u) = text_eq u s
suggests s _ = false

-- A text that the normalization of a name keeps
abbrev is_normal : Text → Bool
is_normal t = all is_lower_ascii t && text_eq (trim t) t

abbrev is_suggested : Text → Bool
is_suggested id =
    includes (map codes builtin_providers) id || suggests (suggestion_for id) (notice_of id)

abbrev is_usable : Text → Bool
is_usable s = is_custom (notice_of s) && is_empty (provider_name_error s)

-- What is checked of each reserved name
abbrev is_sound : String × String → Bool
is_sound (name, meaning) =
    is_normal (codes name)
    && (is_normal (suggestion_for (codes name))
        && (is_suggested (codes name) && is_usable (suggestion_for (codes name))))

reserved_sound : all is_sound reserved_plugin_providers ≡ true
unfolding notice_of text_eq trim is_space suggestion_for provider_name_error
reserved_sound = refl

suggests-eq :
    (s : Text) (n : ProviderNameNotice)
    → suggests s n ≡ true
    → (t : Text) × (n ≡ ProviderNameNotice.reserved_plugin (Official.title t) s)
suggests-eq s ProviderNameNotice.builtin h = absurd (ground arith)
suggests-eq s ProviderNameNotice.custom h = absurd (ground arith)
suggests-eq s (ProviderNameNotice.reserved_plugin (Official.title t) u) h =
    (t, ap (ProviderNameNotice.reserved_plugin (Official.title t)) ((text_eq_iff u s).0 h))
suggests-eq s (ProviderNameNotice.reserved_plugin Official.inherited u) h = absurd (ground arith)

is_custom-eq : (n : ProviderNameNotice) → is_custom n ≡ true → n ≡ ProviderNameNotice.custom
is_custom-eq ProviderNameNotice.builtin h = absurd (ground arith)
is_custom-eq ProviderNameNotice.custom h = refl
is_custom-eq (ProviderNameNotice.reserved_plugin o u) h = absurd (ground arith)

is_empty-eq : (t : Text) → is_empty t ≡ true → t ≡ []
is_empty-eq [] h = refl
is_empty-eq (c ∷ t) h = absurd (ground arith)

module _ (to_lower_case : Text → Text)
    (keeps : (t : Text) → all is_lower_ascii t ≡ true → to_lower_case t ≡ t) where
  notice-normal :
      (t : Text)
      → all is_lower_ascii t ≡ true
      → text_eq (trim t) t ≡ true
      → provider_name_notice to_lower_case t ≡ notice_of t
  unfolding provider_name_notice
  notice-normal t h k = rw ((text_eq_iff (trim t) t).0 k, keeps t h)

  -- A reserved name, unless it is a builtin one too, comes with a suggestion that means nothing to
  -- the runtime and that a provider can have. The case mapping is to keep texts of ASCII units that
  -- are no capital letters.
  pub provider_name_notice-suggests :
      (name meaning : String)
      → Mem (name, meaning) reserved_plugin_providers
      → includes (map codes builtin_providers) (codes name) ≡ false
      → let s = suggestion_for (codes name) in
        ((t : Text) × (provider_name_notice to_lower_case (codes name)
            ≡ ProviderNameNotice.reserved_plugin (Official.title t) s))
        × (provider_name_notice to_lower_case s ≡ ProviderNameNotice.custom)
        × (provider_name_error s ≡ [])
  provider_name_notice-suggests name meaning m free =
      let s = suggestion_for (codes name) in
      let sound = all-Mem is_sound (name, meaning) reserved_plugin_providers reserved_sound m in
      let (n, more) =
        and-true (is_normal (codes name))
          (is_normal s && (is_suggested (codes name) && is_usable s)) sound in
      let (k, last) = and-true (is_normal s) (is_suggested (codes name) && is_usable s) more in
      let (g, u) = and-true (is_suggested (codes name)) (is_usable s) last in
      let (lower_name, trim_name) = and-true (all is_lower_ascii (codes name)) _ n in
      let (lower_s, trim_s) = and-true (all is_lower_ascii s) _ k in
      let (c, e) = and-true (is_custom (notice_of s)) _ u in
      let given : suggests s (notice_of (codes name)) ≡ true = rw free at g in
      let (t, same) = suggests-eq s (notice_of (codes name)) given in
      (
        (t, notice-normal (codes name) lower_name trim_name ∙ same),
        notice-normal s lower_s trim_s ∙ is_custom-eq (notice_of s) c,
        is_empty-eq (provider_name_error s) e,
      )
