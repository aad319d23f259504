-- ===== src/Allowlist/Tests.antt =====
-- Rules that are merged, added to the builtin ones, and checked.
use Prim.Native.String.{String}
use cubestack.Prelude.{
  get_or, ◌≡◌, refl, Text, codes, text_eq, true, false, Option, none, some, List, [], ◌∷◌, ◌++◌,
  filter, All, length, is_some, trim,
}
use cubestack.Allowlist.{
  AllowlistRule, members, merge_rules, effective_allowlist, builtin_allowlist,
  kubectl_read_arg_pattern,
}
use cubestack.Allowlist.Merge.{
  keys, Distinct, first_of, has_pattern, merge_rules-first, effective_allowlist-widens,
}
use cubestack.Allowlist.Validation.{validate_rule, rule_key-injective}

abbrev rule_for : String → Option Text → AllowlistRule
rule_for pattern arg = record {
  pattern = codes pattern;
  arg_pattern = arg;
  label = none;
  owned = false;
}

abbrev groups : List (List AllowlistRule)
groups =
    (rule_for "git" none ∷ rule_for "" none ∷ [])
    ∷ (rule_for "git" (some []) ∷ rule_for "go" (some (codes "^env$")) ∷ [])
    ∷ []

merged : merge_rules groups ≡ rule_for "git" none ∷ rule_for "go" (some (codes "^env$")) ∷ []
unfolding merge_rules text_eq
merged = refl

in_effect : length (effective_allowlist (some (rule_for "git" none ∷ []))) ≡ 13
unfolding effective_allowlist text_eq
in_effect = refl

kubectl_pattern :
    kubectl_read_arg_pattern
    ≡ codes
        "^((--[A-Za-z0-9][A-Za-z0-9-]*(=[A-Za-z0-9_./:=,%+*?@~\"#'-]+)?|-[a-zA-Z0-9](\\s+[A-Za-z0-9_./:=,%+*?@~\"#'-]+)?|--namespace\\s+[A-Za-z0-9_./:=,%+*?@~\"#'-]+|--context\\s+[A-Za-z0-9_./:=,%+*?@~\"#'-]+)\\s+)*(get|list|watch|describe|logs|events|top|api-resources|api-versions|explain|version|diff|cluster-info)(\\b[\\s\\S]*)?$"
kubectl_pattern = refl

abbrev compiles : Text → Option Text
compiles t = none

accepted : validate_rule compiles (codes "git") none ≡ none
unfolding validate_rule trim
accepted = refl

flags : is_some (validate_rule compiles (codes "git") (some (codes "(?i)log"))) ≡ true
unfolding validate_rule trim
flags = refl

merge_rules-first_example :
    Distinct (keys (merge_rules groups))
    × ((k : Text)
        → first_of k (merge_rules groups) ≡ first_of k (filter has_pattern (members groups)))
merge_rules-first_example = merge_rules-first groups

effective_allowlist-widens_example :
    (more : List AllowlistRule) × (effective_allowlist (some (rule_for "git" none ∷ []))
      ≡ builtin_allowlist ++ more)
    × All (λ r. r.owned ≡ true) more
effective_allowlist-widens_example = effective_allowlist-widens (some (rule_for "git" none ∷ []))

accepted_empty : validate_rule compiles (codes "git") (some []) ≡ none
unfolding validate_rule trim
accepted_empty = refl

rule_key-injective_example :
    ((rule_for "git" none).pattern ≡ (rule_for "git" (some [])).pattern)
    × (get_or (rule_for "git" none).arg_pattern []
        ≡ get_or (rule_for "git" (some [])).arg_pattern [])
rule_key-injective_example =
    rule_key-injective compiles (rule_for "git" none) (rule_for "git" (some [])) accepted
      accepted_empty refl
