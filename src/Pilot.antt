-- ===== src/Pilot.antt =====
-- pilotpath.ts: the requests that the portal passes on to the agent API.
pub mod Encoding
pub mod Safety
pub mod Sound
pub mod Paths
pub mod Complete
mod Tests
use cubestack.Prelude.{
  ℕ, suc, ◌+◌, ◌-◌, ltb, Text, codes, text_eq, join, any, Bool, true, false, not, ◌&&◌, ◌||◌,
  Option, none, some, List, [], ◌∷◌, ◌++◌, length, if◌then◌else◌, ◌>>=◌, is_empty, take, drop,
}
use cubestack.Pilot.Encoding.{encode_uri_component}

-- What a mapping gives: null, a path, or the URIError that `encodeURIComponent` throws.
pub data Mapped : Type 0 where
  refused : Mapped
  mapped : Text → Mapped
  uri_error : Mapped

abbrev pub is_bad_segment : Text → Bool
is_bad_segment s = text_eq s [] || (text_eq s (codes ".") || text_eq s (codes ".."))

abbrev pub encode_all : List Text → Option (List Text)
encode_all [] = some []
encode_all (s ∷ ss) = do e ← encode_uri_component s; es ← encode_all ss; some (e ∷ es)

abbrev pub joined : Option (List Text) → Mapped
joined none = Mapped.uri_error
joined (some segments) = Mapped.mapped (join (codes "/") segments)

unfoldable pub enc : List Text → Mapped
enc segments = if any is_bad_segment segments then Mapped.refused else joined (encode_all segments)

pub record Subresource : Type 0 where
  pub tail : List Text
  pub answers : Text

abbrev get : List Text → Subresource
get tail = record { tail = tail; answers = codes "GET" }

abbrev post : List Text → Subresource
post tail = record { tail = tail; answers = codes "POST" }

abbrev pub subresources : List Subresource
subresources =
    get (codes "messages" ∷ [])
    ∷ post (codes "messages" ∷ [])
    ∷ get (codes "turn" ∷ [])
    ∷ get (codes "turn" ∷ codes "events" ∷ [])
    ∷ post (codes "abort" ∷ [])
    ∷ get (codes "approvals" ∷ [])
    ∷ post (codes "approvals" ∷ codes "decision" ∷ [])
    ∷ get (codes "questions" ∷ [])
    ∷ post (codes "questions" ∷ codes "answer" ∷ [])
    ∷ post (codes "questions" ∷ codes "cancel" ∷ [])
    ∷ []

abbrev pub sessions_path : Text
sessions_path = codes "/api/v1/sessions"

-- `key === null ? null : prefix + key + suffix`
abbrev pub around : Text → Text → Mapped → Mapped
around before after Mapped.refused = Mapped.refused
around before after (Mapped.mapped key) = Mapped.mapped (before ++ (key ++ after))
around before after Mapped.uri_error = Mapped.uri_error

-- `tail.every((segment, i) => xs[i] === segment)`
abbrev pub begins_with : List Text → List Text → Bool
begins_with [] xs = true
begins_with (segment ∷ tail) [] = false
begins_with (segment ∷ tail) (x ∷ xs) = text_eq x segment && begins_with tail xs

-- The tests of the loop's body. `path` is what stands behind "sessions", one less than `rest`.
abbrev pub addresses : Text → List Text → Subresource → Bool
addresses method path entry =
    text_eq entry.answers method
    && (not (ltb (suc (length path)) (length entry.tail + 2))
        && begins_with entry.tail (drop (length path - length entry.tail) path))

unfoldable pub address : List Text → Subresource → Mapped
unfolding enc
address path entry =
    around (sessions_path ++ codes "/") (codes "/" ++ join (codes "/") entry.tail)
      (enc (take (length path - length entry.tail) path))

abbrev pub find_resource : Text → List Text → List Subresource → Mapped
unfolding address
find_resource method path [] = Mapped.refused
find_resource method path (entry ∷ entries) =
    let rest = find_resource method path entries in
    if addresses method path entry then address path entry else rest

-- `route` is what `upstreamPath` does behind "api" and "v1".
unfoldable pub route : Text → List Text → Mapped
unfolding find_resource
route method [] = Mapped.refused
route method (head ∷ path) =
    let is_sessions = text_eq head (codes "sessions") in
    if is_empty path && (is_sessions && text_eq method (codes "GET"))
    then Mapped.mapped sessions_path
    else if not (is_empty path) && (is_sessions && text_eq method (codes "DELETE"))
    then around (sessions_path ++ codes "/") [] (enc path)
    else if ltb (length path) 2 || not is_sessions
    then Mapped.refused
    else find_resource method path subresources

unfoldable pub upstream_path : Text → List Text → Mapped
unfolding route
upstream_path method (api ∷ v1 ∷ rest) =
    if text_eq api (codes "api") && text_eq v1 (codes "v1")
    then route method rest
    else Mapped.refused
upstream_path method _ = Mapped.refused
