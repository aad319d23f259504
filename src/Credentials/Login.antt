-- ===== src/Credentials/Login.antt =====
-- auth/htpasswd.ts: the Secret is read at most every half minute, and a login is checked against it.
use cubestack.Prelude.{
  ap, ◌∙◌, ℕ, ◌-◌, ltb, ◌≡◌, refl, inl, inr, Bool-cases, Text, contains, trim, is_empty, Bool, true,
  false, ◌||◌, Option, none, some, [], ◌∷◌, if◌then◌else◌, arith,
}
use cubestack.Credentials.{Entries, get, parse_htpasswd}

pub record LoadedHtpasswd : Type 0 where
  pub entries : Entries
  pub loaded_at : ℕ

abbrev pub Cache : Type 0
Cache = Option LoadedHtpasswd

abbrev pub ttl_ms : ℕ
ttl_ms = 30000

-- What the API answers to the read of the Secret: an error, or the value under the key.
pub data SecretAnswer : Type 0 where
  unreadable : SecretAnswer
  value : Option Text → SecretAnswer

-- A result, or an error that is thrown. Its text is not told apart.
pub data Loading : Type 0 where
  thrown : Loading
  loaded : Entries → Loading

pub data Verdict : Type 0 where
  failed refused : Verdict
  accepted : Text → Verdict

abbrev pub is_fresh : Cache → ℕ → Bool
is_fresh none now = false
is_fresh (some l) now = ltb (now - l.loaded_at) ttl_ms

-- `decode_base64` is `Buffer.from(value, "base64").toString("utf8")`.
module _ (decode_base64 : Text → Text) where
  abbrev pub read_secret_data : Text → Text
  read_secret_data v = if contains (0xfffd ∷ []) (decode_base64 v) then v else decode_base64 v

  abbrev pub store : Text → ℕ → Cache → Loading × Cache
  store raw now cache =
      let entries = parse_htpasswd (read_secret_data raw) in
      if is_empty (trim raw)
      then (Loading.thrown, cache)
      else (Loading.loaded entries, some (record { entries = entries; loaded_at = now }))

  abbrev pub fetch : SecretAnswer → ℕ → Cache → Loading × Cache
  fetch SecretAnswer.unreadable now cache = (Loading.thrown, cache)
  fetch (SecretAnswer.value none) now cache = (Loading.thrown, cache)
  fetch (SecretAnswer.value (some raw)) now cache = store raw now cache

  abbrev pub cached : Cache → Loading
  cached none = Loading.thrown
  cached (some l) = Loading.loaded l.entries

  unfoldable pub load_htpasswd : SecretAnswer → ℕ → Cache → Loading × Cache
  load_htpasswd answer now cache =
      if is_fresh cache now then (cached cache, cache) else fetch answer now cache

  -- `compare` is bcrypt's, `none` where it throws.
  module _ (compare : Text → Text → Option Bool) where
    abbrev pub matched : Text → Option Bool → Verdict
    matched user none = Verdict.refused
    matched user (some false) = Verdict.refused
    matched user (some true) = Verdict.accepted user

    abbrev pub checked : Text → Text → Option Text → Verdict
    checked user pass none = Verdict.refused
    checked user pass (some []) = Verdict.refused
    checked user pass (some (c ∷ hash)) = matched user (compare pass (c ∷ hash))

    abbrev pub verdict : Text → Text → Loading → Verdict
    verdict user pass Loading.thrown = Verdict.failed
    verdict user pass (Loading.loaded entries) = checked user pass (get entries user)

    unfoldable pub verify_credentials : SecretAnswer → ℕ → Cache → Text → Text → Verdict × Cache
    unfolding load_htpasswd
    verify_credentials answer now cache username pass =
        let (loading, next) = load_htpasswd answer now cache in
        if is_empty (trim username) || is_empty pass
        then (Verdict.refused, cache)
        else (verdict (trim username) pass loading, next)

    matched-accepted :
        (user : Text) (b : Option Bool) (u : Text)
        → matched user b ≡ Verdict.accepted u
        → (u ≡ user) × (b ≡ some true)
    matched-accepted user none u h = absurd (ground arith)
    matched-accepted user (some false) u h = absurd (ground arith)
    matched-accepted user (some true) u h = (ground (arith, h), refl)

    checked-accepted :
        (user pass : Text) (found : Option Text) (u : Text)
        → checked user pass found ≡ Verdict.accepted u
        → (u ≡ user) × (hash : Text) × (found ≡ some hash) × (compare pass hash ≡ some true)
    checked-accepted user pass none u h = absurd (ground arith)
    checked-accepted user pass (some []) u h = absurd (ground arith)
    checked-accepted user pass (some (c ∷ hash)) u h =
        let (e, g) = matched-accepted user (compare pass (c ∷ hash)) u h in (e, c ∷ hash, refl, g)

    verdict-accepted :
        (user pass : Text) (l : Loading) (u : Text)
        → verdict user pass l ≡ Verdict.accepted u
        → (u ≡ user)
          × (es : Entries) × (hash : Text) × (l ≡ Loading.loaded es)
          × (get es u ≡ some hash)
          × (compare pass hash ≡ some true)
    verdict-accepted user pass Loading.thrown u h = absurd (ground arith)
    verdict-accepted user pass (Loading.loaded es) u h =
        let (e, hash, f, g) = checked-accepted user pass (get es user) u h in
        (e, es, hash, refl, ap (get es) e ∙ f, g)

    -- A login is accepted only for the trimmed name itself, where the entries that were loaded have a
    -- hash for it that the password matches.
    pub verify_credentials-accepted :
        (answer : SecretAnswer) (now : ℕ) (cache : Cache) (username pass u : Text)
        → (verify_credentials answer now cache username pass).0 ≡ Verdict.accepted u
        → (u ≡ trim username)
          × (es : Entries) × (hash : Text) × ((load_htpasswd answer now cache).0
              ≡ Loading.loaded es)
          × (get es u ≡ some hash)
          × (compare pass hash ≡ some true)
    unfolding verify_credentials
    verify_credentials-accepted answer now cache username pass u h =
        elim (Bool-cases (is_empty (trim username) || is_empty pass)) [
          | inl e ↦ absurd (ground (arith, rw e at h))
          | inr e ↦
              verdict-accepted (trim username) pass (load_htpasswd answer now cache).0 u (rw e at h)
        ]
