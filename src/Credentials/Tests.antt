-- ===== src/Credentials/Tests.antt =====
-- A file with a comment, a user that has two lines, and lines that are no entries.
use cubestack.Prelude.{
  ℕ, List, ◌-◌, ◌<◌, ◌≡◌, refl, Text, codes, text_eq, trim, is_space, true, Bool, Option, none,
  some, [], ◌∷◌,
}
use cubestack.Credentials.{Entries, get, parse_htpasswd}
use cubestack.Credentials.Login.{
  SecretAnswer, Loading, Verdict, load_htpasswd, verify_credentials, verify_credentials-accepted,
}
use cubestack.Credentials.Freshness.{cache_after, IsReadAt, load_htpasswd-fresh}

abbrev content : Text
content = codes "# users\r\nann:h1\n:none\nann : h2\r\n\nbob"

parses : parse_htpasswd content ≡ (codes "ann", codes "h2") ∷ []
unfolding parse_htpasswd trim is_space text_eq
parses = refl

abbrev plain : Text → Text
plain t = t

-- A hash that is the password itself
abbrev equals : Text → Text → Option Bool
equals pass hash = some (text_eq pass hash)

abbrev answer : SecretAnswer
answer = SecretAnswer.value (some content)

accepts :
    (verify_credentials plain equals answer 5 none (codes " ann ") (codes "h2")).0
    ≡ Verdict.accepted (codes "ann")
unfolding verify_credentials parse_htpasswd trim is_space text_eq
accepts = refl

refuses :
    (verify_credentials plain equals answer 5 none (codes "ann") (codes "h1")).0 ≡ Verdict.refused
unfolding verify_credentials parse_htpasswd trim is_space text_eq
refuses = refl

loads : (load_htpasswd plain answer 5 none).0 ≡ Loading.loaded ((codes "ann", codes "h2") ∷ [])
unfolding load_htpasswd parse_htpasswd trim is_space text_eq
loads = refl

-- A read at 5, and a load at 20000 that takes it from the cache
abbrev history : List (SecretAnswer × ℕ)
history = (answer, 5) ∷ []

abbrev entries : Entries
entries = (codes "ann", codes "h2") ∷ []

loads_again :
    (load_htpasswd plain SecretAnswer.unreadable 20000 (cache_after plain history)).0
    ≡ Loading.loaded entries
unfolding load_htpasswd parse_htpasswd trim is_space text_eq
loads_again = refl

-- Half a minute after the read, the Secret is read again.
reads_again :
    (load_htpasswd plain SecretAnswer.unreadable 30005 (cache_after plain history)).0
    ≡ Loading.thrown
unfolding load_htpasswd parse_htpasswd trim is_space text_eq
reads_again = refl

load_htpasswd-fresh_example :
    (t : ℕ) × (20000 - t < 30000)
    × IsReadAt plain ((SecretAnswer.unreadable, 20000) ∷ history) entries t
load_htpasswd-fresh_example =
    load_htpasswd-fresh plain history SecretAnswer.unreadable 20000 entries loads_again

verify_credentials-accepted_example :
    (codes "ann" ≡ trim (codes " ann "))
    × (es : Entries) × (hash : Text) × ((load_htpasswd plain answer 5 none).0 ≡ Loading.loaded es)
    × (get es (codes "ann") ≡ some hash)
    × (equals (codes "h2") hash ≡ some true)
verify_credentials-accepted_example =
    verify_credentials-accepted plain equals answer 5 none (codes " ann ") (codes "h2")
      (codes "ann") accepts
