-- ===== src/Sessions/Secret.antt =====
-- auth/config.ts: the lifetime of a session and the key that signs it.
use cubestack.Prelude.{
  is_text, Bool-cases, inl, inr, ℕ, ltb, ◌*◌, ◌≡◌, refl, ap, Text, codes, Bool, true, false, Option,
  none, some, [], ◌∷◌, if◌then◌else◌, is_text,
}

abbrev pub day_ms : ℕ
day_ms = 24 * 60 * 60 * 1000

abbrev pub positive_or_day : Option ℕ → ℕ
positive_or_day none = day_ms
positive_or_day (some n) = if ltb 0 n then n else day_ms

-- `to_number` is `Number`, in milliseconds, and `none` where that is not finite or negative.
unfoldable pub session_ttl_ms : (Text → Option ℕ) → Option Text → ℕ
session_ttl_ms to_number none = day_ms
session_ttl_ms to_number (some []) = day_ms
session_ttl_ms to_number (some (c ∷ raw)) = positive_or_day (to_number (c ∷ raw))

pub record Key (K : Type 0) : Type 0 where
  pub key : K
  pub ephemeral : Bool

-- The random key of the process, once there is one.
abbrev pub KeyState : Type 0 → Type 0
KeyState K = Option K

module _ {K : Type 0} (encode : Text → K) where
  -- `ephemeralSecret`: `random` is what the source of randomness gives now.
  abbrev pub ephemeral_secret : K → KeyState K → K × KeyState K
  ephemeral_secret random none = (random, some random)
  ephemeral_secret random (some key) = (key, some key)

  abbrev pub ephemeral_key : K × KeyState K → Option (Key K) × KeyState K
  ephemeral_key (key, state) = (some (record { key = key; ephemeral = true }), state)

  abbrev pub fallback : Option Text → K → KeyState K → Option (Key K) × KeyState K
  fallback node_env random state =
      if is_text node_env (codes "production")
      then (none, state)
      else ephemeral_key (ephemeral_secret random state)

  -- The variables are SESSION_SECRET and NODE_ENV. The answer is `none` where the code throws.
  unfoldable pub session_secret :
      Option Text → Option Text → K → KeyState K → Option (Key K) × KeyState K
  session_secret none node_env random state = fallback node_env random state
  session_secret (some []) node_env random state = fallback node_env random state
  session_secret (some (c ∷ secret)) node_env random state =
      (some (record { key = encode (c ∷ secret); ephemeral = false }), state)

  ephemeral_secret-again :
      (random later : K) (state : KeyState K)
      → (ephemeral_secret later (ephemeral_secret random state).1).0
        ≡ (ephemeral_secret random state).0
  ephemeral_secret-again random later none = refl
  ephemeral_secret-again random later (some key) = refl

  fallback-again :
      (node_env : Option Text) (random later : K) (state : KeyState K)
      → (fallback node_env later (fallback node_env random state).1).0
        ≡ (fallback node_env random state).0
  fallback-again node_env random later state =
      elim (Bool-cases (is_text node_env (codes "production"))) [
        | inl e ↦ rw e refl
        | inr e ↦ rw e (
            ap (λ (k : K). some (record { key = k; ephemeral = true }))
              (ephemeral_secret-again random later state))
      ]

  -- The key of a process stays the same, whatever the source of randomness gives later.
  pub session_secret-again :
      (secret node_env : Option Text) (random later : K) (state : KeyState K)
      → (session_secret secret node_env later (session_secret secret node_env random state).1).0
        ≡ (session_secret secret node_env random state).0
  unfolding session_secret
  session_secret-again none node_env random later state = fallback-again node_env random later state
  session_secret-again (some []) node_env random later state =
      fallback-again node_env random later state
  session_secret-again (some (c ∷ secret)) node_env random later state = refl
