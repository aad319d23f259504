-- ===== src/Allowlist/Validation.antt =====
-- allowlist.ts: validateRule, and the identity of the rules that pass it.
use cubestack.Prelude.{
  ℕ, leb, ◌==◌, ◌≡◌, refl, inl, inr, Bool-cases, Text, codes, contains, starts_with, trim, is_empty,
  Bool, false, ◌&&◌, ◌||◌, Option, none, some, get_or, [], ◌∷◌, ◌++◌, if◌then◌else◌, arith,
}
use cubestack.Allowlist.{AllowlistRule, rule_key}

-- Somewhere in a text, from its first place on
abbrev pub somewhere : (Text → Bool) → Text → Bool
somewhere p [] = p []
somewhere p (c ∷ t) = p (c ∷ t) || somewhere p t

-- `[a-zA-Z-]`
abbrev pub is_flag_unit : ℕ → Bool
is_flag_unit c = leb b'a' c && leb c b'z' || (leb b'A' c && leb c b'Z' || c == b'-')

abbrev pub opens_flags : Text → Bool
opens_flags (a ∷ b ∷ c ∷ t) = a == b'(' && (b == b'?' && is_flag_unit c)
opens_flags _ = false

abbrev pub opens_property : Text → Bool
opens_property t = starts_with (codes "\\p{") t || starts_with (codes "\\P{") t

abbrev named_group : Text
named_group = codes "a named group (?P<name>...), which JavaScript spells (?<name>...)"

abbrev flag_group : Text
flag_group = codes "an inline flag group such as (?i); pass flags to RegExp instead"

abbrev posix_class : Text
posix_class = codes "a POSIX class such as [[:alpha:]]"

abbrev unicode_property : Text
unicode_property = codes "a Unicode property such as \\p{L}, which needs the RegExp u flag"

-- The first construct of `JS_INCOMPATIBLE` in a text
unfoldable pub js_incompatible : Text → Option Text
js_incompatible t =
    if contains (codes "(?P<") t
    then some named_group
    else if somewhere opens_flags t
    then some flag_group
    else if contains (codes "[[:") t
    then some posix_class
    else if somewhere opens_property t
    then some unicode_property
    else none

-- `compile_error` is what `new RegExp` throws on a text, its message.
module _ (compile_error : Text → Option Text) where
  abbrev pub uncompiled : Option Text → Option Text
  uncompiled none = none
  uncompiled (some e) = some (codes "argPattern is not a valid regular expression: " ++ e)

  abbrev pub screened : Text → Option Text → Option Text
  screened arg (some why) = some (
      codes "argPattern uses "
      ++ (why
          ++ codes
              ", which JavaScript's new RegExp does not accept: the gateway matches argPattern with new RegExp, not RE2"))
  screened arg none = uncompiled (compile_error arg)

  abbrev pub arg_error : Option Text → Option Text
  unfolding js_incompatible
  arg_error none = none
  arg_error (some []) = none
  arg_error (some (c ∷ t)) = screened (c ∷ t) (js_incompatible (c ∷ t))

  unfoldable pub validate_rule : Text → Option Text → Option Text
  unfolding arg_error
  validate_rule pattern arg_pattern =
      if is_empty pattern || is_empty (trim pattern)
      then some (codes "pattern is required")
      else if contains (codes "|") pattern
      then some (
          codes
            "pattern must not contain '|': it is a command name, and '|' is the separator the allowlist identity joins pattern and argPattern with")
      else arg_error arg_pattern

-- Where the separator is in neither of the first parts, the parts can be told from the whole.
split_at_bar :
    (a b x y : Text)
    → contains (codes "|") a ≡ false
    → contains (codes "|") b ≡ false
    → a ++ b'|' ∷ x ≡ b ++ b'|' ∷ y
    → (a ≡ b) × (x ≡ y)
split_at_bar [] [] x y h k e = (refl, ground (arith, e))
split_at_bar [] (d ∷ b) x y h k e = absurd (ground (arith, e, k))
split_at_bar (c ∷ a) [] x y h k e = absurd (ground (arith, e, h))
split_at_bar (c ∷ a) (d ∷ b) x y h k e =
    let (f, g) = split_at_bar a b x y (ground (arith, h)) (ground (arith, k)) (ground (arith, e)) in
    let same : c ≡ d = ground (arith, e) in (rw (same, f), g)

validate_rule-none :
    (compile_error : Text → Option Text) (pattern : Text) (arg : Option Text)
    → validate_rule compile_error pattern arg ≡ none
    → contains (codes "|") pattern ≡ false
unfolding validate_rule
validate_rule-none compile_error pattern arg h =
    elim (Bool-cases (is_empty pattern || is_empty (trim pattern))) [
      | inl e ↦ absurd (ground (arith, rw e at h))
      | inr e ↦ elim (Bool-cases (contains (codes "|") pattern)) [
        | inl f ↦ absurd (ground (arith, rw (e, f) at h))
        | inr f ↦ f
      ]
    ]

-- Two rules that pass the check have one key only if they have the same pattern and the same
-- argument pattern, a missing one counted as an empty one.
pub rule_key-injective :
    (compile_error : Text → Option Text) (r s : AllowlistRule)
    → validate_rule compile_error r.pattern r.arg_pattern ≡ none
    → validate_rule compile_error s.pattern s.arg_pattern ≡ none
    → rule_key r ≡ rule_key s
    → (r.pattern ≡ s.pattern) × (get_or r.arg_pattern [] ≡ get_or s.arg_pattern [])
rule_key-injective compile_error r s h k e =
    split_at_bar r.pattern s.pattern (get_or r.arg_pattern []) (get_or s.arg_pattern [])
      (validate_rule-none compile_error r.pattern r.arg_pattern h)
      (validate_rule-none compile_error s.pattern s.arg_pattern k) e
