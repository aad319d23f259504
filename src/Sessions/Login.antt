-- ===== src/Sessions/Login.antt =====
-- app/api/auth/login with proxy.ts and guard.ts: who has signed in is let in.
use cubestack.Prelude.{ℕ, ◌<◌, ◌≡◌, Text, is_truthy, Bool, true, Option, some}
use cubestack.Sessions.{Payload, sign_session}
use cubestack.Credentials.Login.{SecretAnswer, Cache, Verdict, verify_credentials}
use cubestack.Sessions.Routes.{Context, LoginBody, LoginResponse, login, cookie_for}

abbrev pub Gives : (ℕ → Text → Option Payload) → (Payload → Text) → Type 0
Gives jwt_verify jwt_sign =
    (later exp : ℕ) (p : Payload)
    → p.exp ≡ some exp
    → later < exp
    → (is_truthy (jwt_sign p) ≡ true) × (jwt_verify later (jwt_sign p) ≡ some p)

module _ (decode_base64 : Text → Text) (compare : Text → Text → Option Bool)
    (jwt_sign : Payload → Text) (utc_string : ℕ → Text) where
  abbrev Answers : Context → SecretAnswer → ℕ → Cache → Option LoginBody → Text → Text → Type 0
  Answers c answer now cache body user cookie =
      (login decode_base64 compare jwt_sign utc_string c answer now cache body).0
      ≡ LoginResponse.signed_in user cookie

  -- The login's check passed for the user.
  abbrev pub Checked : SecretAnswer → ℕ → Cache → Option LoginBody → Text → Type 0
  Checked answer now cache body user =
      (username : Text) × (password : Text) × (body
        ≡ some (record { username = some username; password = some password }))
      × ((verify_credentials decode_base64 compare answer now cache username password).0
          ≡ Verdict.accepted user)

  abbrev cookie_of : Context → ℕ → Text → Text
  cookie_of c now user =
      cookie_for decode_base64 compare jwt_sign utc_string c now
        (sign_session jwt_sign now c.ttl_ms user)

  -- The check of the two fields passed for the user.
  abbrev CheckedWith : SecretAnswer → ℕ → Cache → Option Text → Option Text → Text → Type 0
  CheckedWith answer now cache name pass user =
      (username : Text) × (password : Text) × (name ≡ some username)
      × (pass ≡ some password)
      × ((verify_credentials decode_base64 compare answer now cache username password).0
          ≡ Verdict.accepted user)
