-- ===== src/Sessions/Tests.antt =====
-- A token that is the claims themselves, and the cookies for it.
use cubestack.Prelude.{
  Bool, true, false, zero, suc, ltb, ◌<◌, arith, if◌then◌else◌, is_truthy, ℕ, ◌<◌, ltb, ◌≡◌, refl,
  Text, codes, text_eq, trim, is_space, is_truthy, true, Option, some, none, [], ◌∷◌, arith,
  if◌then◌else◌,
}
use cubestack.Sessions.{
  Payload, SessionClaims, Answer, with_auth, verify_session, secure_cookie_for_request,
  clear_session_cookie_header,
}
use cubestack.Sessions.Routes.{Context, LoginBody, proxy, logout, is_same_origin, to_login}
use cubestack.Sessions.Secret.{session_secret, session_secret-again}
use cubestack.Credentials.Login.{SecretAnswer}

abbrev handler : SessionClaims → Text
handler session = session.user

-- A library of tokens: the times and the name of the claims in a row, without a signature.
abbrev number : Option ℕ → ℕ
number none = zero
number (some n) = suc n

abbrev back : ℕ → Option ℕ
back zero = none
back (suc n) = some n

abbrev units_of : Option Text → Text
units_of none = []
units_of (some t) = 1 ∷ t

abbrev sub_of : Text → Option Text
sub_of [] = none
sub_of (c ∷ t) = some t

abbrev put : Payload → Text
put p = number p.iat ∷ number p.exp ∷ units_of p.sub

abbrev unless_expired : ℕ → Option ℕ → Payload → Option Payload
unless_expired now none p = some p
unless_expired now (some exp) p = if ltb now exp then some p else none

abbrev take_back : ℕ → Text → Option Payload
take_back now (i ∷ e ∷ t) =
    unless_expired now (back e) (record { sub = sub_of t; iat = back i; exp = back e })
take_back now _ = none

rejects : with_auth (λ now t. none) handler 5 (some (codes "t")) ≡ Answer.unauthorized
unfolding with_auth verify_session
rejects = refl

forwards : secure_cookie_for_request none (some (codes "https, http")) (codes "http:") ≡ true
unfolding secure_cookie_for_request trim is_space text_eq
forwards = refl

clears :
    clear_session_cookie_header (codes "s") true
    ≡ codes
        "s=; Path=/; SameSite=Lax; HttpOnly; Max-Age=0; Expires=Thu, 01 Jan 1970 00:00:00 GMT; Secure"
unfolding clear_session_cookie_header
clears = refl

-- A login of "ann" with the password "h", against a Secret that has it.
abbrev plain : Text → Text
plain t = t

abbrev equals : Text → Text → Option Bool
equals pass hash = some (text_eq pass hash)

abbrev stamp : ℕ → Text
stamp n = []

abbrev context : Context
context = record {
  cookie_name = none;
  ttl_ms = 10;
  secure_override = some false;
  forwarded = none;
  protocol = codes "http:";
}

abbrev secret : SecretAnswer
secret = SecretAnswer.value (some (codes "ann:h"))

abbrev credentials : LoginBody
credentials = record { username = some (codes " ann"); password = some (codes "h") }

redirects : proxy take_back 8 (codes "/a") (codes "?b=1") none ≡ to_login (codes "/a?b=1")
unfolding proxy text_eq
redirects = refl

foreign_logout : logout (λ url. some url) context (some (codes "x")) none (codes "y") ≡ none
unfolding logout is_same_origin text_eq
foreign_logout = refl

kept_key :
    (session_secret
      (λ (t : Text). t)
      none
      none
      (codes "b")
      (session_secret (λ (t : Text). t) none none (codes "a") none).1).0
    ≡ (session_secret (λ (t : Text). t) none none (codes "a") none).0
kept_key = session_secret-again (λ (t : Text). t) none none (codes "a") (codes "b") none
