-- ===== src/Credentials.antt =====
-- auth/htpasswd.ts: the users and password hashes of a Secret, and the check of a login.
pub mod Entries
pub mod Login
mod Freshness
mod Tests
use cubestack.Prelude.{
  onto_first, ℕ, ◌-◌, ltb, ◌==◌, Text, codes, text_eq, starts_with, has_unit, trim, is_empty, Bool,
  true, false, not, ◌&&◌, ◌||◌, Option, none, some, List, [], ◌∷◌, ◌++◌, if◌then◌else◌,
}

-- A `Map` from users to hashes, in the order of the first `set` of each
abbrev pub Entries : Type 0
Entries = List (Text × Text)

abbrev pub set : Text → Text → Entries → Entries
set user hash [] = (user, hash) ∷ []
set user hash ((name, old) ∷ entries) =
    let rest = set user hash entries in
    if text_eq name user then (name, hash) ∷ entries else (name, old) ∷ rest

abbrev pub get : Entries → Text → Option Text
get [] user = none
get ((name, hash) ∷ entries) user =
    let rest = get entries user in if text_eq name user then some hash else rest

-- `content.split(/\r?\n/)`
unfoldable pub split_lines : Text → List Text
split_lines [] = [] ∷ []
split_lines (c ∷ t) =
    let rest = split_lines t in
    if c == 10
    then [] ∷ rest
    else if c == 13 && starts_with (codes "\n") t
    then rest
    else onto_first c rest

abbrev pub before_colon : ℕ → Option (Text × Text) → Option (Text × Text)
before_colon c none = none
before_colon c (some (user, hash)) = some (c ∷ user, hash)

-- What stands before and behind the first colon
abbrev pub split_colon : Text → Option (Text × Text)
split_colon [] = none
split_colon (c ∷ t) =
    let rest = before_colon c (split_colon t) in if c == b':' then some ([], t) else rest

abbrev pub named : Text → Text → Option (Text × Text)
named user hash = if is_empty user || is_empty hash then none else some (user, hash)

abbrev pub entry_at : Option (Text × Text) → Option (Text × Text)
entry_at none = none
entry_at (some ([], hash)) = none
entry_at (some (c ∷ user, hash)) = named (trim (c ∷ user)) (trim hash)

-- The entry of a line, trimmed
unfoldable pub entry_of : Text → Option (Text × Text)
entry_of line =
    if is_empty (trim line) || starts_with (codes "#") (trim line)
    then none
    else entry_at (split_colon (trim line))

abbrev pub add_entry : Option (Text × Text) → Entries → Entries
add_entry none entries = entries
add_entry (some (user, hash)) entries = set user hash entries

abbrev pub add_lines : List Text → Entries → Entries
unfolding entry_of
add_lines [] entries = entries
add_lines (line ∷ lines) entries = add_lines lines (add_entry (entry_of line) entries)

unfoldable pub parse_htpasswd : Text → Entries
unfolding add_lines split_lines
parse_htpasswd content = add_lines (split_lines content) []
