-- ===== src/Credentials/Entries.antt =====
-- auth/htpasswd.ts: the hash that a user has in a file.
use cubestack.Prelude.{
  not_both, ◌≡◌, refl, ap, sym, ◌∙◌, inl, inr, Bool-cases, Text, text_eq, text_eq_iff, Option, none,
  some, or_else, List, [], ◌∷◌, if◌then◌else◌,
}
use cubestack.Credentials.{
  Entries, set, get, entry_of, add_entry, add_lines, split_lines, parse_htpasswd,
}

-- The hash that one line gives a user
abbrev pub hash_for : Text → Option (Text × Text) → Option Text
hash_for user none = none
hash_for user (some (name, hash)) = if text_eq name user then some hash else none

-- The hash of the last line for a user
abbrev pub last_hash : Text → List Text → Option Text
last_hash user [] = none
last_hash user (line ∷ lines) = or_else (last_hash user lines) (hash_for user (entry_of line))

over_same :
    (n name hash old : Text) (entries : Entries) (user : Text)
    → n ≡ name
    → get ((n, hash) ∷ entries) user
      ≡ or_else (hash_for user (some (name, hash))) (get ((n, old) ∷ entries) user)
over_same n name hash old entries user e = elim (Bool-cases (text_eq n user)) [
  | inl f ↦ rw (← e, f)
  | inr f ↦ rw (← e, f)
]

get-set :
    (name hash : Text) (entries : Entries) (user : Text)
    → get (set name hash entries) user
      ≡ or_else (hash_for user (some (name, hash))) (get entries user)
get-set name hash [] user = elim (Bool-cases (text_eq name user)) [ inl e ↦ rw e | inr e ↦ rw e ]
get-set name hash ((n, old) ∷ entries) user = elim (Bool-cases (text_eq n name)) [
  | inl e ↦ rw e (over_same n name hash old entries user ((text_eq_iff n name).0 e))
  | inr e ↦ elim (Bool-cases (text_eq n user)) [
    | inl f ↦ let different = not_both n name user e f in rw (e, f, different)
    | inr f ↦ rw (e, f) (get-set name hash entries user)
  ]
]

or_else_assoc {ℓ} :
    {A : Type ℓ} (a b c : Option A) → or_else (or_else a b) c ≡ or_else a (or_else b c)
or_else_assoc none b c = refl
or_else_assoc (some x) b c = refl

get-add_entry :
    (found : Option (Text × Text)) (entries : Entries) (user : Text)
    → get (add_entry found entries) user ≡ or_else (hash_for user found) (get entries user)
get-add_entry none entries user = refl
get-add_entry (some (name, hash)) entries user = get-set name hash entries user

get-add_lines :
    (lines : List Text) (entries : Entries) (user : Text)
    → get (add_lines lines entries) user ≡ or_else (last_hash user lines) (get entries user)
unfolding add_lines
get-add_lines [] entries user = refl
get-add_lines (line ∷ lines) entries user =
    get-add_lines lines (add_entry (entry_of line) entries) user
    ∙ (ap (or_else (last_hash user lines)) (get-add_entry (entry_of line) entries user)
        ∙ sym (
            or_else_assoc (last_hash user lines) (hash_for user (entry_of line))
              (get entries user)))

or_else-none {ℓ} : {A : Type ℓ} (a : Option A) → or_else a none ≡ a
or_else-none none = refl
or_else-none (some x) = refl

-- A user has the hash of the last line that is an entry for it, whatever the other lines are.
pub get-parse_htpasswd :
    (content user : Text) → get (parse_htpasswd content) user ≡ last_hash user (split_lines content)
unfolding parse_htpasswd
get-parse_htpasswd content user =
    get-add_lines (split_lines content) [] user
    ∙ or_else-none (last_hash user (split_lines content))
