-- ===== src/Namespaces/Offers.antt =====
-- namespaces.ts: what is offered is there, in order, and a wizard opens on one of what is offered.
use cubestack.Prelude.{
  ◌≡◌, refl, ap, ◌∙◌, inl, inr, Bool-cases, Text, text_eq, text_eq_iff, text_eq_refl, includes,
  is_truthy, true, false, ◌&&◌, ◌||◌, Option, none, some, List, [], ◌∷◌, filter, arith, and-true,
}
use cubestack.Namespaces.{
  default_namespace, configured, text_leb, insert_text, sort_texts, is_offered, offered_namespaces,
  first, default_namespace_of,
}

abbrev pub Sorted : List Text → Type 0
Sorted [] = Unit
Sorted (s ∷ []) = Unit
Sorted (s ∷ t ∷ ts) = (text_leb s t ≡ true) × Sorted (t ∷ ts)

text_leb-total : (s t : Text) → text_leb s t ≡ false → text_leb t s ≡ true
text_leb-total [] t h = absurd (ground arith)
text_leb-total (c ∷ s) [] h = refl
text_leb-total (c ∷ s) (d ∷ t) h = ground (arith, text_leb-total s t)

insert_after :
    (s t u : Text) (ts : List Text)
    → text_leb t s ≡ true
    → text_leb t u ≡ true
    → Sorted (u ∷ ts)
    → Sorted (insert_text s (u ∷ ts))
    → Sorted (t ∷ insert_text s (u ∷ ts))
insert_after s t u ts a b h ih = elim (Bool-cases (text_leb s u)) [
  | inl e ↦ rw e (a, (e, h))
  | inr e ↦ rw e (b, rw e at ih)
]

insert_text-Sorted : (s : Text) (ts : List Text) → Sorted ts → Sorted (insert_text s ts)
insert_text-Sorted s [] h = tt
insert_text-Sorted s (t ∷ []) h = elim (Bool-cases (text_leb s t)) [
  | inl e ↦ rw e (e, tt)
  | inr e ↦ rw e (text_leb-total s t e, tt)
]
insert_text-Sorted s (t ∷ u ∷ ts) (l, h) = elim (Bool-cases (text_leb s t)) [
  | inl e ↦ rw e (e, (l, h))
  | inr e ↦
      rw e (insert_after s t u ts (text_leb-total s t e) l h (insert_text-Sorted s (u ∷ ts) h))
]

sort_texts-Sorted : (ss : List Text) → Sorted (sort_texts ss)
unfolding sort_texts
sort_texts-Sorted [] = tt
sort_texts-Sorted (s ∷ ss) = insert_text-Sorted s (sort_texts ss) (sort_texts-Sorted ss)

includes-insert :
    (s : Text) (ts : List Text) (n : Text)
    → includes (insert_text s ts) n ≡ (text_eq s n || includes ts n)
includes-insert s [] n = refl
includes-insert s (t ∷ ts) n = elim (Bool-cases (text_leb s t)) [
  | inl e ↦ rw e
  | inr e ↦ rw (e, includes-insert s ts n) (ground arith)
]

includes-sort : (ss : List Text) (n : Text) → includes (sort_texts ss) n ≡ includes ss n
unfolding sort_texts
includes-sort [] n = refl
includes-sort (s ∷ ss) n = rw (includes-insert s (sort_texts ss) n, includes-sort ss n)

same_offer : (chosen s n : Text) → text_eq s n ≡ true → is_offered chosen s ≡ is_offered chosen n
same_offer chosen s n e = ap (is_offered chosen) ((text_eq_iff s n).0 e)

includes-filter :
    (chosen : Text) (names : List Text) (n : Text)
    → includes (filter (is_offered chosen) names) n ≡ (includes names n && is_offered chosen n)
includes-filter chosen [] n = refl
includes-filter chosen (s ∷ names) n = elim (Bool-cases (is_offered chosen s)) [
  | inl e ↦ rw e (ground (arith, includes-filter chosen names n, same_offer chosen s n))
  | inr e ↦ rw e (ground (arith, includes-filter chosen names n, same_offer chosen s n))
]

-- The offer is sorted, and it has of the names just those that are "default" or the configured one.
pub offered_namespaces-includes :
    (variable : Option Text) (names : List Text)
    → Sorted (offered_namespaces variable names)
      × ((n : Text)
          → includes (offered_namespaces variable names) n
            ≡ (includes names n && is_offered (configured variable) n))
unfolding offered_namespaces
offered_namespaces-includes variable names = (
  sort_texts-Sorted (filter (is_offered (configured variable)) names),
  λ n.
      includes-sort (filter (is_offered (configured variable)) names) n
      ∙ includes-filter (configured variable) names n,
)

-- A wizard opens on one of the names, and on none only if there is none.
abbrev pub Opens : List Text → Option Text → Type 0
Opens names none = names ≡ []
Opens names (some n) = includes names n ≡ true

first-Opens : (names : List Text) → Opens names (first names)
first-Opens [] = refl
first-Opens (s ∷ names) = rw (text_eq_refl s)

-- The namespace that a wizard opens on is one that it is given, and it is missing only if none is
-- given, whatever is configured.
pub default_namespace_of-Opens :
    (variable : Option Text) (names : List Text) → Opens names (default_namespace_of variable names)
unfolding default_namespace_of
default_namespace_of-Opens variable names =
    elim (Bool-cases (is_truthy (configured variable) && includes names (configured variable))) [
      | inl e ↦
          let (_, there) =
            and-true (is_truthy (configured variable)) (includes names (configured variable)) e in
          rw e there
      | inr e ↦ elim (Bool-cases (includes names default_namespace)) [
        | inl f ↦ rw (e, f) f
        | inr f ↦ rw (e, f) (first-Opens names)
      ]
    ]
