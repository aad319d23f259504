-- ===== src/Sessions/Routes.antt =====
-- app/api/auth/login, logout and me, and proxy.ts: the routes around a session.
use cubestack.Prelude.{
  ℕ, ◌/◌, Text, codes, text_eq, decimal, or_else, Bool, true, false, not, Option, none, some, [],
  ◌∷◌, ◌++◌, if◌then◌else◌,
}
use cubestack.Sessions.{
  Payload, SessionClaims, session_cookie_name, session_of, with_auth, Answer, sign_session,
  secure_cookie_for_request, session_cookie_header, clear_session_cookie_header,
}
use cubestack.Credentials.Login.{SecretAnswer, Cache, Verdict, verify_credentials}

-- What the login answers: 400, 500, 401, or the user with the cookie that is set.
pub data LoginResponse : Type 0 where
  invalid_request not_configured wrong_password : LoginResponse
  signed_in : Text → Text → LoginResponse

-- The fields of the body: `none` where a field is no string.
pub record LoginBody : Type 0 where
  pub username : Option Text
  pub password : Option Text

-- What the process and the request bring: the cookie's name, the lifetime in milliseconds, the
-- override of the flag, the forwarded scheme and the scheme of the request.
pub record Context : Type 0 where
  pub cookie_name : Option Text
  pub ttl_ms : ℕ
  pub secure_override : Option Bool
  pub forwarded : Option Text
  pub protocol : Text

abbrev pub is_secure : Context → Bool
is_secure c = secure_cookie_for_request c.secure_override c.forwarded c.protocol

module _ (decode_base64 : Text → Text) (compare : Text → Text → Option Bool)
    (jwt_sign : Payload → Text) (utc_string : ℕ → Text) where
  unfoldable pub cookie_for : Context → ℕ → Text → Text
  unfolding session_cookie_header session_cookie_name
  cookie_for c now token =
      session_cookie_header decimal utc_string (session_cookie_name c.cookie_name) now token
        (c.ttl_ms / 1000) (is_secure c)

  unfoldable pub answer_of : Context → ℕ → Verdict → LoginResponse
  unfolding cookie_for sign_session
  answer_of c now Verdict.failed = LoginResponse.not_configured
  answer_of c now Verdict.refused = LoginResponse.wrong_password
  answer_of c now (Verdict.accepted user) =
      LoginResponse.signed_in user (cookie_for c now (sign_session jwt_sign now c.ttl_ms user))

  unfoldable pub login_with :
      Context → SecretAnswer → ℕ → Cache → Option Text → Option Text → LoginResponse × Cache
  unfolding answer_of verify_credentials
  login_with c answer now cache none password = (LoginResponse.invalid_request, cache)
  login_with c answer now cache (some username) none = (LoginResponse.invalid_request, cache)
  login_with c answer now cache (some username) (some password) =
      let checked = verify_credentials decode_base64 compare answer now cache username password in
      (answer_of c now checked.0, checked.1)

  -- The body is `none` where it is no JSON.
  unfoldable pub login :
      Context → SecretAnswer → ℕ → Cache → Option LoginBody → LoginResponse × Cache
  unfolding login_with
  login c answer now cache none = (LoginResponse.invalid_request, cache)
  login c answer now cache (some body) = login_with c answer now cache body.username body.password

abbrev pub same_origin : Option Text → Option Text → Bool
unfolding text_eq
same_origin none own = false
same_origin (some origin) none = false
same_origin (some origin) (some own) = text_eq origin own

abbrev pub origin_is : (Text → Option Text) → Option Text → Text → Bool
unfolding same_origin
origin_is origin_of none url = true
origin_is origin_of (some []) url = true
origin_is origin_of (some (c ∷ candidate)) url =
    same_origin (origin_of (c ∷ candidate)) (origin_of url)

-- `origin_of` is `new URL(...).origin`, `none` where it throws. The headers are origin and referer.
unfoldable pub is_same_origin : (Text → Option Text) → Option Text → Option Text → Text → Bool
unfolding origin_is
is_same_origin origin_of origin referer url = origin_is origin_of (or_else origin referer) url

-- The cookie that is cleared, or `none` where the answer is 403.
unfoldable pub logout :
    (Text → Option Text) → Context → Option Text → Option Text → Text → Option Text
unfolding is_same_origin clear_session_cookie_header session_cookie_name
logout origin_of c origin referer url =
    if not (is_same_origin origin_of origin referer url)
    then none
    else some (clear_session_cookie_header (session_cookie_name c.cookie_name) (is_secure c))

pub data Passage : Type 0 where
  passes : Passage
  to_login : Text → Passage

abbrev pub unless_session : Option SessionClaims → Text → Passage
unless_session none next = to_login next
unless_session (some session) next = passes

module _ (jwt_verify : ℕ → Text → Option Payload) where
  -- `me`
  unfoldable pub me : ℕ → Option Text → Answer Text
  unfolding with_auth
  me now cookie = with_auth jwt_verify (λ (session : SessionClaims). session.user) now cookie

  -- The path, the query with its "?", and the cookie. A redirect brings the path and the query.
  unfoldable pub proxy : ℕ → Text → Text → Option Text → Passage
  unfolding session_of text_eq
  proxy now pathname search cookie =
      if text_eq pathname (codes "/login")
      then passes
      else unless_session (session_of jwt_verify now cookie) (pathname ++ search)
