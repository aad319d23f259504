-- ===== src/Credentials/Freshness.antt =====
-- auth/htpasswd.ts: which read of the Secret a login is checked against.
use mathlib.Core.List.{Mem, mem-cons_self, mem-cons_of_mem}
use cubestack.Prelude.{
  ap, ℕ, ◌-◌, ◌<◌, ltb, ◌≡◌, refl, inl, inr, Bool-cases, Text, trim, is_empty, none, some, List, [],
  ◌∷◌, arith, ◌⊎◌, subst, sym, ◌∙◌,
}
use cubestack.Credentials.{Entries, parse_htpasswd}
use cubestack.Credentials.Login.{
  LoadedHtpasswd, Cache, SecretAnswer, Loading, ttl_ms, read_secret_data, load_htpasswd, fetch,
}

abbrev entries_of : Loading → Entries
entries_of Loading.thrown = []
entries_of (Loading.loaded es) = es

loaded-injective : (es fs : Entries) → Loading.loaded es ≡ Loading.loaded fs → es ≡ fs
loaded-injective es fs h = ap entries_of h

cache-injective : (k l : LoadedHtpasswd) → some k ≡ some l → k ≡ l
cache-injective k l h = cc

module _ (decode_base64 : Text → Text) where
  -- The cache after a history of loads, the last one first: what the Secret answers to a read at the
  -- time, and the time
  abbrev pub cache_after : List (SecretAnswer × ℕ) → Cache
  cache_after [] = none
  cache_after ((answer, now) ∷ history) =
      (load_htpasswd decode_base64 answer now (cache_after history)).1

  -- The entries are those of the Secret as it was at the time of one of the loads.
  abbrev pub IsReadAt : List (SecretAnswer × ℕ) → Entries → ℕ → Type 0
  IsReadAt history es t =
      (raw : Text) × Mem (SecretAnswer.value (some raw), t) history
      × (es ≡ parse_htpasswd (read_secret_data decode_base64 raw))

  IsReadAt-later :
      (e : SecretAnswer × ℕ) (history : List (SecretAnswer × ℕ)) (es : Entries) (t : ℕ)
      → IsReadAt history es t
      → IsReadAt (e ∷ history) es t
  IsReadAt-later e history es t (raw, m, q) = (raw, mem-cons_of_mem e m, q)

  -- What a read gives, and what it leaves in the cache
  abbrev Reads : SecretAnswer → ℕ → Cache → Loading × Cache → Type 0
  Reads answer now cache result =
      ((result.0 ≡ Loading.thrown) × (result.1 ≡ cache))
      ⊎ ((raw : Text) × (es : Entries) × (answer ≡ SecretAnswer.value (some raw))
          × (es ≡ parse_htpasswd (read_secret_data decode_base64 raw))
          × (result.0 ≡ Loading.loaded es)
          × (result.1 ≡ some (record { entries = es; loaded_at = now })))

  fetch-Reads :
      (answer : SecretAnswer) (now : ℕ) (cache : Cache)
      → Reads answer now cache (fetch decode_base64 answer now cache)
  fetch-Reads SecretAnswer.unreadable now cache = inl (refl, refl)
  fetch-Reads (SecretAnswer.value none) now cache = inl (refl, refl)
  fetch-Reads (SecretAnswer.value (some raw)) now cache = elim (Bool-cases (is_empty (trim raw))) [
    | inl e ↦ rw e (inl (refl, refl))
    | inr e ↦ rw e (inr (raw, _, refl, refl, refl, refl))
  ]

  -- A load takes the cache as it is, or reads.
  load_htpasswd-cases :
      (answer : SecretAnswer) (now : ℕ) (cache : Cache)
      → ((l : LoadedHtpasswd) × (cache ≡ some l)
          × (now - l.loaded_at < 30000)
          × (load_htpasswd decode_base64 answer now cache ≡ (Loading.loaded l.entries, cache)))
        ⊎ Reads answer now cache (load_htpasswd decode_base64 answer now cache)
  unfolding load_htpasswd
  load_htpasswd-cases answer now none = inr (fetch-Reads answer now none)
  load_htpasswd-cases answer now (some l) = elim (Bool-cases (ltb (now - l.loaded_at) ttl_ms)) [
    | inl e ↦ inl (l, refl, ground (arith, e), rw e refl)
    | inr e ↦ rw e (inr (fetch-Reads answer now (some l)))
  ]

  cache_after-IsReadAt :
      (history : List (SecretAnswer × ℕ)) (l : LoadedHtpasswd)
      → cache_after history ≡ some l
      → IsReadAt history l.entries l.loaded_at
  cache_after-IsReadAt [] l h = absurd (ground arith)
  cache_after-IsReadAt ((answer, now) ∷ history) l h =
      elim (load_htpasswd-cases answer now (cache_after history)) [
        | inl (k, e, young, q) ↦
            IsReadAt-later (answer, now) history l.entries l.loaded_at
              (cache_after-IsReadAt history l (sym (ap (λ (r : Loading × Cache). r.1) q) ∙ h))
        | inr (inl (t, q)) ↦
            IsReadAt-later (answer, now) history l.entries l.loaded_at
              (cache_after-IsReadAt history l (sym q ∙ h))
        | inr (inr (raw, es, a, parsed, t, q)) ↦
            let same = cache-injective (record { entries = es; loaded_at = now }) l (sym q ∙ h) in
            subst (λ (k : LoadedHtpasswd). IsReadAt ((answer, now) ∷ history) k.entries k.loaded_at)
              same (raw, rw a mem-cons_self, parsed)
      ]

  -- Whatever loads came before, a login is checked against the entries of the Secret as it was at a
  -- load less than half a minute ago, the present one included.
  pub load_htpasswd-fresh :
      (history : List (SecretAnswer × ℕ)) (answer : SecretAnswer) (now : ℕ) (es : Entries)
      → (load_htpasswd decode_base64 answer now (cache_after history)).0 ≡ Loading.loaded es
      → (t : ℕ) × (now - t < 30000) × IsReadAt ((answer, now) ∷ history) es t
  load_htpasswd-fresh history answer now es h =
      elim (load_htpasswd-cases answer now (cache_after history)) [
        | inl (l, e, young, q) ↦
            let same = loaded-injective l.entries es (rw q at h) in
            (
              l.loaded_at,
              young,
              IsReadAt-later (answer, now) history es l.loaded_at
                  (subst (λ fs. IsReadAt history fs l.loaded_at) same
                    (cache_after-IsReadAt history l e)),
            )
        | inr (inl (t, q)) ↦ absurd (let g = rw t at h in ground (arith, g))
        | inr (inr (raw, fs, a, parsed, t, q)) ↦
            let same = loaded-injective fs es (rw t at h) in
            (now, omega arith, (raw, rw a mem-cons_self, sym same ∙ parsed))
      ]
