-- ===== src/Sessions/Lifetime.antt =====
-- auth/session.ts: a session that was signed is one for as long as it lasts.
use cubestack.Prelude.{ℕ, ◌+◌, ◌<◌, ◌≡◌, refl, Text, is_truthy, true, Option, some, [], ◌∷◌, arith}
use cubestack.Sessions.{
  session_of, verified, Payload, SessionClaims, verify_session, sign_session, with_auth, Answer,
}

abbrev signed : ℕ → ℕ → Text → Payload
signed now ttl user = record { sub = some user; iat = some now; exp = some (now + ttl) }

session_of-token :
    (jwt_verify : ℕ → Text → Option Payload) (now : ℕ) (token : Text)
    → is_truthy token ≡ true
    → session_of jwt_verify now (some token) ≡ verified (jwt_verify now token)
unfolding session_of verify_session
session_of-token jwt_verify now [] h = absurd (ground (arith, h))
session_of-token jwt_verify now (c ∷ token) h = refl

-- A token that is signed for a user lets the user through, as that user, until its lifetime is
-- over. The library is to give a token's claims back until they expire, and no empty token.
pub with_auth-sign_session :
    (jwt_verify : ℕ → Text → Option Payload) (jwt_sign : Payload → Text)
    → ((later exp : ℕ) (p : Payload)
        → p.exp ≡ some exp
        → later < exp
        → (is_truthy (jwt_sign p) ≡ true) × (jwt_verify later (jwt_sign p) ≡ some p))
    → {R : Type 0} (handler : SessionClaims → R) (now ttl later : ℕ) (user : Text)
    → is_truthy user ≡ true
    → later < now + ttl
    → with_auth jwt_verify handler later (some (sign_session jwt_sign now ttl user))
      ≡ Answer.handled (handler (record { user = user; iat = now; exp = now + ttl }))
unfolding with_auth sign_session verify_session
with_auth-sign_session jwt_verify jwt_sign gives handler now ttl later [] named h =
    absurd (ground (arith, named))
with_auth-sign_session jwt_verify jwt_sign gives handler now ttl later (c ∷ user) named h =
    let p = signed now ttl (c ∷ user) in
    let (some_token, back) = gives later (now + ttl) p refl h in
    rw (session_of-token jwt_verify later (jwt_sign p) some_token, back)
