-- ===== src/Allowlist.antt =====
-- allowlist.ts: the commands that an assistant runs without asking.
pub mod Merge
pub mod Validation
mod Tests
use Prim.Native.String.{String}
use cubestack.Prelude.{
  ℕ, leb, ◌==◌, Text, codes, text_eq, includes, starts_with, contains, trim, is_truthy, Bool, true,
  false, not, ◌&&◌, ◌||◌, Option, none, some, get_or, List, [], ◌∷◌, ◌++◌, map, if◌then◌else◌,
  is_empty,
}

pub record AllowlistRule : Type 0 where
  pub pattern : Text
  pub arg_pattern : Option Text
  pub label : Option Text
  pub owned : Bool

abbrev words : Text
words = codes "[A-Za-z0-9_./:=,%+*?@~\"#'-]+"

abbrev space : Text
space = codes "\\s+"

abbrev kubectl_global_flag : Text
kubectl_global_flag =
    codes "--[A-Za-z0-9][A-Za-z0-9-]*(="
    ++ (words
        ++ (codes ")?|-[a-zA-Z0-9]("
            ++ (space
                ++ (words
                    ++ (codes ")?|--namespace"
                        ++ (space ++ (words ++ (codes "|--context" ++ (space ++ words)))))))))

abbrev kubectl_read_verbs : Text
kubectl_read_verbs =
    codes
      "get|list|watch|describe|logs|events|top|api-resources|api-versions|explain|version|diff|cluster-info"

abbrev pub kubectl_read_arg_pattern : Text
kubectl_read_arg_pattern =
    codes "^(("
    ++ (kubectl_global_flag
        ++ (codes ")\\s+)*(" ++ (kubectl_read_verbs ++ codes ")(\\b[\\s\\S]*)?$")))

abbrev pub safe_arg_pattern : Text
safe_arg_pattern = codes "^" ++ (words ++ (codes "(" ++ (space ++ (words ++ codes ")*$"))))

abbrev pub safe_bins : List String
safe_bins =
    "ls" ∷ "cat" ∷ "pwd" ∷ "grep" ∷ "head" ∷ "tail" ∷ "wc" ∷ "jq" ∷ "echo" ∷ "printf" ∷ "which" ∷ []

abbrev pub safe_rule : String → AllowlistRule
safe_rule bin = record {
  pattern = codes bin;
  arg_pattern = some safe_arg_pattern;
  label = some (codes bin ++ codes " — read-only, plain args");
  owned = false;
}

abbrev pub builtin_allowlist : List AllowlistRule
builtin_allowlist =
    (record {
      pattern = codes "kubectl";
      arg_pattern = some kubectl_read_arg_pattern;
      label =
          some (codes "kubectl — read-only operations (get/list/watch/describe/logs/events/top/…)");
      owned = false;
    })
    ∷ map safe_rule safe_bins

abbrev pub rule_key : AllowlistRule → Text
rule_key r = r.pattern ++ (codes "|" ++ get_or r.arg_pattern [])

-- The rule is passed over: it has no pattern, or its key is there.
abbrev pub is_skipped : List Text → AllowlistRule → Bool
is_skipped seen rule = is_empty rule.pattern || includes seen (rule_key rule)

unfoldable pub merge_loop : List Text → List AllowlistRule → List AllowlistRule
merge_loop seen [] = []
merge_loop seen (rule ∷ rules) =
    let skipped = is_skipped seen rule in
    let rest = merge_loop (if skipped then seen else rule_key rule ∷ seen) rules in
    if skipped then rest else rule ∷ rest

-- The members of the groups, in the order of the two loops.
abbrev pub members : List (List AllowlistRule) → List AllowlistRule
members [] = []
members (group ∷ groups) = group ++ members groups

unfoldable pub merge_rules : List (List AllowlistRule) → List AllowlistRule
unfolding merge_loop
merge_rules groups = merge_loop [] (members groups)

abbrev pub as_owned : AllowlistRule → AllowlistRule
as_owned r = record r { owned = true }

unfoldable pub effective_allowlist : Option (List AllowlistRule) → List AllowlistRule
unfolding merge_rules
effective_allowlist owned = merge_rules (builtin_allowlist ∷ map as_owned (get_or owned []) ∷ [])

pub record OwnedRuleCr : Type 0 where
  pub pattern : Text
  pub arg_pattern : Option Text

-- `t || undefined`
abbrev pub non_empty : Text → Option Text
non_empty [] = none
non_empty (c ∷ t) = some (c ∷ t)

abbrev pub trimmed : Option Text → Option Text
trimmed none = none
trimmed (some t) = non_empty (trim t)

abbrev pub sanitized : AllowlistRule → AllowlistRule
sanitized r = record {
  pattern = trim r.pattern;
  arg_pattern = trimmed r.arg_pattern;
  label = none;
  owned = true;
}

abbrev pub to_cr : AllowlistRule → OwnedRuleCr
to_cr r = record { pattern = r.pattern; arg_pattern = r.arg_pattern }

unfoldable pub owned_rules : Option (List AllowlistRule) → List OwnedRuleCr
unfolding merge_rules
owned_rules rules = map to_cr (merge_rules (map sanitized (get_or rules []) ∷ []))
