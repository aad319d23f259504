-- ===== src/Pilot/Tests.antt =====
-- Requests that are passed on, and some that are not.
use cubestack.Prelude.{◌≡◌, ◌↔◌, refl, Text, codes, text_eq, List, [], ◌∷◌, some, none}
use cubestack.Pilot.{Mapped, upstream_path}
use cubestack.Pilot.Encoding.{encode_uri_component, is_unreserved}
use cubestack.Pilot.Sound.{Allowed}
use cubestack.Pilot.Paths.{IsPlainPath, upstream_path-IsPlainPath}
use cubestack.Pilot.Complete.{upstream_path-eq-mapped_iff}

abbrev segments : List Text
segments =
    codes "api"
    ∷ codes "v1"
    ∷ codes "sessions"
    ∷ codes "a?"
    ∷ codes "main"
    ∷ codes "turn"
    ∷ codes "events"
    ∷ []

abbrev events_path : Text
events_path = codes "/api/v1/sessions/a%3F/main/turn/events"

passes : upstream_path (codes "GET") segments ≡ Mapped.mapped events_path
unfolding upstream_path encode_uri_component is_unreserved text_eq
passes = refl

refuses_post : upstream_path (codes "POST") segments ≡ Mapped.refused
unfolding upstream_path text_eq
refuses_post = refl

refuses_dots :
    upstream_path (codes "DELETE") (codes "api" ∷ codes "v1" ∷ codes "sessions" ∷ codes ".." ∷ [])
    ≡ Mapped.refused
unfolding upstream_path text_eq
refuses_dots = refl

-- U+00E9 and the pair of U+1F600
escapes : encode_uri_component (0xe9 ∷ 0xd83d ∷ 0xde00 ∷ []) ≡ some (codes "%C3%A9%F0%9F%98%80")
unfolding encode_uri_component is_unreserved
escapes = refl

throws : encode_uri_component (0xd83d ∷ []) ≡ none
unfolding encode_uri_component is_unreserved
throws = refl

upstream_path-eq-mapped_iff_example :
    (upstream_path (codes "GET") segments ≡ Mapped.mapped events_path)
    ↔ Allowed (codes "GET") segments events_path
upstream_path-eq-mapped_iff_example = upstream_path-eq-mapped_iff (codes "GET") segments events_path

upstream_path-IsPlainPath_example : IsPlainPath events_path
upstream_path-IsPlainPath_example =
    upstream_path-IsPlainPath (codes "GET") segments events_path passes
