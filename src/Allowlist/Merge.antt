-- ===== src/Allowlist/Merge.antt =====
-- allowlist.ts: what mergeRules keeps.
use cubestack.Prelude.{
  All-append, ◌≡◌, refl, ap, sym, ◌∙◌, inl, inr, Bool-cases, Text, text_eq, text_eq_iff,
  text_eq_refl, includes, Bool, true, false, not, ◌||◌, Option, none, some, get_or, append-nil,
  List, [], ◌∷◌, ◌++◌, map, filter, All, is_empty, if◌then◌else◌, arith,
}
use cubestack.Allowlist.{
  AllowlistRule, rule_key, is_skipped, merge_loop, members, merge_rules, effective_allowlist,
  builtin_allowlist, as_owned,
}

abbrev pub keys : List AllowlistRule → List Text
keys [] = []
keys (r ∷ rs) = rule_key r ∷ keys rs

abbrev pub Distinct : List Text → Type 0
Distinct [] = Unit
Distinct (k ∷ ks) = (includes ks k ≡ false) × Distinct ks

-- The first rule of a key
abbrev pub first_of : Text → List AllowlistRule → Option AllowlistRule
first_of k [] = none
first_of k (r ∷ rs) = let rest = first_of k rs in if text_eq (rule_key r) k then some r else rest

abbrev pub has_pattern : AllowlistRule → Bool
has_pattern r = not (is_empty r.pattern)

clash :
    (seen : List Text) (j k : Text) → includes seen j ≡ false → includes seen k ≡ true → j ≡ k → ⊥
clash seen j k h m e = absurd (cc (sym h ∙ (ap (includes seen) e ∙ m)))

-- A key that was seen is no key that was not.
other_key :
    (seen : List Text) (j k : Text)
    → includes seen j ≡ false
    → includes seen k ≡ true
    → text_eq j k ≡ false
other_key seen j k h m = elim (Bool-cases (text_eq j k)) [
  | inl e ↦ absurd (clash seen j k h m ((text_eq_iff j k).0 e))
  | inr e ↦ e
]

or-false : (a b : Bool) → a || b ≡ false → (a ≡ false) × (b ≡ false)
or-false a b h = (ground arith, ground arith)

or_right : (a b : Bool) → b ≡ true → a || b ≡ true
or_right a b h = ground arith

-- A key that was seen is not among those that are kept.
seen_key-absent :
    (seen : List Text) (rules : List AllowlistRule) (k : Text)
    → includes seen k ≡ true
    → includes (keys (merge_loop seen rules)) k ≡ false
unfolding merge_loop
seen_key-absent seen [] k h = refl
seen_key-absent seen (r ∷ rs) k h = elim (Bool-cases (is_skipped seen r)) [
  | inl e ↦ rw e (seen_key-absent seen rs k h)
  | inr e ↦ rw e (
      let (_, fresh) = or-false (is_empty r.pattern) (includes seen (rule_key r)) e in
      let different = other_key seen (rule_key r) k fresh h in
      let seen_again = or_right (text_eq (rule_key r) k) (includes seen k) h in
      rw (different, seen_key-absent (rule_key r ∷ seen) rs k seen_again))
]

merge_loop-Distinct :
    (seen : List Text) (rules : List AllowlistRule) → Distinct (keys (merge_loop seen rules))
unfolding merge_loop
merge_loop-Distinct seen [] = tt
merge_loop-Distinct seen (r ∷ rs) = elim (Bool-cases (is_skipped seen r)) [
  | inl e ↦ rw e (merge_loop-Distinct seen rs)
  | inr e ↦ rw e (
    seen_key-absent (rule_key r ∷ seen) rs (rule_key r) (rw (text_eq_refl (rule_key r))),
    merge_loop-Distinct (rule_key r ∷ seen) rs,
  )
]

text_eq-false_comm : (s t : Text) → text_eq s t ≡ false → text_eq t s ≡ false
text_eq-false_comm s t h = ground (arith, text_eq_iff s t, text_eq_iff t s)

merge_loop-first :
    (seen : List Text) (rules : List AllowlistRule) (k : Text)
    → includes seen k ≡ false
    → first_of k (merge_loop seen rules) ≡ first_of k (filter has_pattern rules)
unfolding merge_loop
merge_loop-first seen [] k h = refl
merge_loop-first seen (r ∷ rs) k h = elim (Bool-cases (is_empty r.pattern)) [
  | inl empty ↦ rw empty (merge_loop-first seen rs k h)
  | inr named ↦ elim (Bool-cases (includes seen (rule_key r))) [
    | inl old ↦
        let different = text_eq-false_comm k (rule_key r) (other_key seen k (rule_key r) h old) in
        rw (named, old, different) (merge_loop-first seen rs k h)
    | inr new ↦ elim (Bool-cases (text_eq (rule_key r) k)) [
      | inl same ↦ rw (named, new, same)
      | inr different ↦
          let fresh : includes (rule_key r ∷ seen) k ≡ false = rw (different, h) in
          rw (named, new, different) (merge_loop-first (rule_key r ∷ seen) rs k fresh)
    ]
  ]
]

-- The merged rules have distinct keys, and each key has the first rule of the groups with that key
-- and a pattern.
pub merge_rules-first :
    (groups : List (List AllowlistRule))
    → Distinct (keys (merge_rules groups))
      × ((k : Text)
          → first_of k (merge_rules groups) ≡ first_of k (filter has_pattern (members groups)))
unfolding merge_rules
merge_rules-first groups =
    (merge_loop-Distinct [] (members groups), λ k. merge_loop-first [] (members groups) k refl)

merge_loop-All {ℓ} :
    (P : AllowlistRule → Type ℓ) (seen : List Text) (rules : List AllowlistRule)
    → All P rules
    → All P (merge_loop seen rules)
unfolding merge_loop
merge_loop-All P seen [] h = tt
merge_loop-All P seen (r ∷ rs) (p, h) = elim (Bool-cases (is_skipped seen r)) [
  | inl e ↦ rw e (merge_loop-All P seen rs h)
  | inr e ↦ rw e (p, merge_loop-All P (rule_key r ∷ seen) rs h)
]

All-as_owned : (rules : List AllowlistRule) → All (λ r. r.owned ≡ true) (map as_owned rules)
All-as_owned [] = tt
All-as_owned (r ∷ rs) = (refl, All-as_owned rs)

abbrev seen_after : List AllowlistRule → List Text → List Text
seen_after [] seen = seen
seen_after (r ∷ rs) seen = seen_after rs (rule_key r ∷ seen)

-- The rules in effect are the builtin ones, whatever the instance has, and behind them rules that
-- are marked as its own.
pub effective_allowlist-widens :
    (owned : Option (List AllowlistRule))
    → (more : List AllowlistRule) × (effective_allowlist owned ≡ builtin_allowlist ++ more)
      × All (λ r. r.owned ≡ true) more
unfolding effective_allowlist merge_loop text_eq
effective_allowlist-widens owned = (
  merge_loop (seen_after builtin_allowlist []) (map as_owned (get_or owned []) ++ []),
  refl,
  merge_loop-All (λ r. r.owned ≡ true) (seen_after builtin_allowlist [])
      (map as_owned (get_or owned []) ++ [])
      (All-append (λ r. r.owned ≡ true) (map as_owned (get_or owned [])) []
        (All-as_owned (get_or owned [])) tt),
)

still_new :
    (seen : List Text) (j : Text) (ks : List Text)
    → includes ks j ≡ false
    → All (λ k. includes seen k ≡ false) ks
    → All (λ k. includes (j ∷ seen) k ≡ false) ks
still_new seen j [] h new = tt
still_new seen j (k ∷ ks) h (n, new) =
    let (different, rest) = or-false (text_eq k j) (includes ks j) h in
    (rw (text_eq-false_comm k j different, n), still_new seen j ks rest new)

merge_loop-fixed :
    (seen : List Text) (rules : List AllowlistRule)
    → All (λ r. is_empty r.pattern ≡ false) rules
    → Distinct (keys rules)
    → All (λ k. includes seen k ≡ false) (keys rules)
    → merge_loop seen rules ≡ rules
unfolding merge_loop
merge_loop-fixed seen [] h d new = refl
merge_loop-fixed seen (r ∷ rs) (e, h) (absent, d) (n, new) =
    rw (e, n)
      (ap (◌∷◌ r) (
        merge_loop-fixed (rule_key r ∷ seen) rs h d
          (still_new seen (rule_key r) (keys rs) absent new)))

merge_loop-named :
    (seen : List Text) (rules : List AllowlistRule)
    → All (λ r. is_empty r.pattern ≡ false) (merge_loop seen rules)
unfolding merge_loop
merge_loop-named seen [] = tt
merge_loop-named seen (r ∷ rs) = elim (Bool-cases (is_skipped seen r)) [
  | inl e ↦ rw e (merge_loop-named seen rs)
  | inr e ↦
      let (named, _) = or-false (is_empty r.pattern) (includes seen (rule_key r)) e in
      rw e (named, merge_loop-named (rule_key r ∷ seen) rs)
]

All-new : (ks : List Text) → All (λ k. includes [] k ≡ false) ks
All-new [] = tt
All-new (k ∷ ks) = (refl, All-new ks)

-- Merging what is merged changes nothing.
pub merge_rules_idempotent :
    (groups : List (List AllowlistRule))
    → merge_rules (merge_rules groups ∷ []) ≡ merge_rules groups
unfolding merge_rules
merge_rules_idempotent groups =
    let merged = merge_loop [] (members groups) in
    rw (append-nil merged) (
      merge_loop-fixed [] merged (merge_loop-named [] (members groups))
        (merge_loop-Distinct [] (members groups)) (All-new (keys merged)))
