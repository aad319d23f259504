-- ===== src/Sessions.antt =====
-- auth/config.ts, auth/session.ts and auth/guard.ts: the session of a user, its cookie, and the
-- guard of the routes. A variable of the environment is an argument.
mod Tests
pub mod Lifetime
pub mod Secret
pub mod Routes
pub mod Login
use cubestack.Prelude.{
  ℕ, ◌+◌, ◌*◌, Text, codes, text_eq, join, trim, is_truthy, Bool, true, false, Option, none, some,
  get_or, List, [], ◌∷◌, ◌++◌, if◌then◌else◌, ◌==◌,
}

unfoldable pub session_cookie_name : Option Text → Text
session_cookie_name variable = get_or variable (codes "cubestack-session")

-- `SESSION_COOKIE_SECURE`
unfoldable pub secure_cookie_override : Option Text → Option Bool
secure_cookie_override none = none
secure_cookie_override (some raw) =
    if text_eq raw (codes "true")
    then some true
    else if text_eq raw (codes "false")
    then some false
    else none

-- The claims of a token: `none` where a claim is missing or of another type. A time is in
-- thousandths of the token's seconds.
pub record Payload : Type 0 where
  pub sub : Option Text
  pub iat : Option ℕ
  pub exp : Option ℕ

pub record SessionClaims : Type 0 where
  pub user : Text
  pub iat : ℕ
  pub exp : ℕ

abbrev pub with_times : Text → Option ℕ → Option ℕ → Option SessionClaims
with_times user none exp = none
with_times user (some iat) none = none
with_times user (some iat) (some exp) = some (record { user = user; iat = iat; exp = exp })

abbrev pub claims_from : Option Text → Option ℕ → Option ℕ → Option SessionClaims
claims_from none iat exp = none
claims_from (some []) iat exp = none
claims_from (some (c ∷ user)) iat exp = with_times (c ∷ user) iat exp

abbrev pub claims_of : Payload → Option SessionClaims
claims_of payload = claims_from payload.sub payload.iat payload.exp

abbrev pub verified : Option Payload → Option SessionClaims
verified none = none
verified (some payload) = claims_of payload

-- The answer of a guarded route: 401, or what the handler answers.
pub data Answer (R : Type 0) : Type 0 where
  unauthorized : Answer R
  handled : R → Answer R

abbrev pub guarded : {R : Type 0} → (SessionClaims → R) → Option SessionClaims → Answer R
guarded handler none = Answer.unauthorized
guarded handler (some session) = Answer.handled (handler session)

-- `jwt_verify` is the library's check of a token at a time, `none` where it throws, and `jwt_sign`
-- its signature, with the key of the process.
module _ (jwt_verify : ℕ → Text → Option Payload) where
  unfoldable pub verify_session : ℕ → Text → Option SessionClaims
  verify_session now token = verified (jwt_verify now token)

  unfoldable pub session_of : ℕ → Option Text → Option SessionClaims
  unfolding verify_session
  session_of now none = none
  session_of now (some []) = none
  session_of now (some (c ∷ token)) = verify_session now (c ∷ token)

  unfoldable pub with_auth : {R : Type 0} → (SessionClaims → R) → ℕ → Option Text → Answer R
  unfolding session_of
  with_auth handler now cookie = guarded handler (session_of now cookie)

unfoldable pub sign_session : (Payload → Text) → ℕ → ℕ → Text → Text
sign_session jwt_sign now ttl user =
    jwt_sign (record { sub = some user; iat = some now; exp = some (now + ttl) })

-- `forwarded.split(",")[0]`
abbrev pub before_comma : Text → Text
before_comma [] = []
before_comma (c ∷ t) = let rest = before_comma t in if c == b',' then [] else c ∷ rest

abbrev pub from_scheme : Option Text → Text → Bool
from_scheme none protocol = text_eq protocol (codes "https:")
from_scheme (some []) protocol = text_eq protocol (codes "https:")
from_scheme (some (c ∷ forwarded)) protocol =
    text_eq (trim (before_comma (c ∷ forwarded))) (codes "https")

-- The arguments are the override, the header x-forwarded-proto and the protocol of the request.
unfoldable pub secure_cookie_for_request : Option Bool → Option Text → Text → Bool
secure_cookie_for_request none forwarded protocol = from_scheme forwarded protocol
secure_cookie_for_request (some secure) forwarded protocol = secure

abbrev pub secure_part : Bool → List Text
secure_part true = codes "Secure" ∷ []
secure_part false = []

-- `decimal` writes a number out, and `utc_string` a time.
unfoldable pub session_cookie_header : (ℕ → Text) → (ℕ → Text) → Text → ℕ → Text → ℕ → Bool → Text
session_cookie_header decimal utc_string name now token max_age secure = join (codes "; ") (
    (name ++ (codes "=" ++ token))
    ∷ codes "Path=/"
    ∷ codes "SameSite=Lax"
    ∷ codes "HttpOnly"
    ∷ (secure_part secure
        ++ (codes "Max-Age=" ++ decimal max_age)
          ∷ (codes "Expires=" ++ utc_string (now + max_age * 1000))
          ∷ []))

unfoldable pub clear_session_cookie_header : Text → Bool → Text
clear_session_cookie_header name secure = join (codes "; ") (
    (name ++ codes "=")
    ∷ codes "Path=/"
    ∷ codes "SameSite=Lax"
    ∷ codes "HttpOnly"
    ∷ codes "Max-Age=0"
    ∷ codes "Expires=Thu, 01 Jan 1970 00:00:00 GMT"
    ∷ secure_part secure)
