-- ===== src/Namespaces.antt =====
-- namespaces.ts: which namespaces a wizard offers, and which one it opens on.
pub mod Offers
mod Tests
use cubestack.Prelude.{
  ℕ, ltb, ◌==◌, Text, codes, text_eq, includes, trim, is_truthy, Bool, true, false, ◌&&◌, ◌||◌,
  Option, none, some, get_or, List, [], ◌∷◌, filter, if◌then◌else◌,
}

abbrev pub default_namespace : Text
default_namespace = codes "default"

-- `(process.env.CUBESTACK_DEFAULT_NAMESPACE ?? "").trim()`, with the variable as an argument
unfoldable pub configured : Option Text → Text
configured variable = trim (get_or variable [])

-- The order of the code units, in which `sort` puts strings
abbrev pub text_leb : Text → Text → Bool
text_leb [] t = true
text_leb (c ∷ s) [] = false
text_leb (c ∷ s) (d ∷ t) = ltb c d || (c == d && text_leb s t)

abbrev pub insert_text : Text → List Text → List Text
insert_text s [] = s ∷ []
insert_text s (t ∷ ts) =
    let rest = insert_text s ts in if text_leb s t then s ∷ t ∷ ts else t ∷ rest

unfoldable pub sort_texts : List Text → List Text
sort_texts [] = []
sort_texts (s ∷ ss) = insert_text s (sort_texts ss)

-- `offered.has(name)`
abbrev pub is_offered : Text → Text → Bool
is_offered chosen name = text_eq default_namespace name || (is_truthy chosen && text_eq chosen name)

unfoldable pub offered_namespaces : Option Text → List Text → List Text
unfolding sort_texts configured
offered_namespaces variable names = sort_texts (filter (is_offered (configured variable)) names)

abbrev pub first : List Text → Option Text
first [] = none
first (s ∷ ss) = some s

unfoldable pub default_namespace_of : Option Text → List Text → Option Text
unfolding configured
default_namespace_of variable names =
    if is_truthy (configured variable) && includes names (configured variable)
    then some (configured variable)
    else if includes names default_namespace
    then some default_namespace
    else first names
