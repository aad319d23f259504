-- ===== src/Namespaces/Tests.antt =====
-- A cluster with three namespaces, of which the platform has configured one.
use cubestack.Prelude.{◌≡◌, refl, Text, codes, text_eq, trim, is_space, Option, some, List, [], ◌∷◌}
use cubestack.Namespaces.{offered_namespaces, default_namespace_of}

abbrev cluster : List Text
cluster = codes "monitoring" ∷ codes "team-a" ∷ codes "default" ∷ []

abbrev variable : Option Text
variable = some (codes " team-a ")

offers : offered_namespaces variable cluster ≡ codes "default" ∷ codes "team-a" ∷ []
unfolding offered_namespaces trim is_space text_eq
offers = refl

opens : default_namespace_of variable cluster ≡ some (codes "team-a")
unfolding default_namespace_of trim is_space text_eq
opens = refl
