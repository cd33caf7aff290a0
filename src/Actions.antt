-- ===== src/Actions.antt =====
-- portal/app/actions/auth.ts: the server actions that open and close an admin's session. The form's
-- fields, the relay's answer and the time are arguments; the browser's cookies are threaded through.
pub mod Laws
use audio_server.Common.{
  Bool, List, Option, String, [], false, if◌then◌else◌, is_text, none, not, some, template, true, ℕ,
  ◌*◌, ◌==◌, ◌∷◌,
}
use audio_server.Http.{Env, FetchRequest, Fetched, is_ok, or_else, rejected, replied, truthy}
use audio_server.Http.Cookies
use audio_server.Http.Cookies.{Cookie, CookieOptions, Jar, delete, set}
use audio_server.Auth.{Jose, admin_cookie, secret, sign_admin_token}

-- `formData.get(name)`: a text, a file, or null.
pub data FormValue : Type 0 where
  text : String → FormValue
  file absent : FormValue

-- A state with an error, a call of `redirect`, or an exception that leaves the action.
pub data ActionResult : Type 0 where
  failed : (error : String) → ActionResult
  redirected : (path : String) → ActionResult
  threw : ActionResult

-- A JSON object of texts, as a request's body.
abbrev pub JsonTexts : Type 0
JsonTexts = List (String × String)

abbrev pub relay_url : Env → String
relay_url env = or_else env.backend_url "http://localhost:3000"

-- `COOKIE_OPTS`
abbrev pub cookie_opts : Env → CookieOptions
cookie_opts env = record {
  http_only = true;
  secure = is_text env.node_env "production";
  same_site = "strict";
  max_age = 60 * 60 * 12;
  path = "/";
}

abbrev pub session : Env → String → Cookie
session env jwt = record { value = jwt; options = cookie_opts env }

-- A text that is not empty.
abbrev pub given : FormValue → Option String
given (text s) = truthy (some s)
given _ = none

abbrev pub login_request : Env → String → String → FetchRequest JsonTexts
login_request env username password = record {
  url = template (relay_url env ∷ "/api/auth/login" ∷ []);
  method = "POST";
  headers = ("Content-Type", "application/json") ∷ [];
  body = some (("username", username) ∷ ("password", password) ∷ []);
}

-- What follows the call of the relay; the body that is read is the field `jwt`.
unfoldable pub login_reply : Env → Fetched String → Jar → ActionResult × Jar
login_reply env rejected jar = (failed "Could not reach the relay server.", jar)
login_reply env (replied res) jar =
    if res.status == 401
    then (failed "Invalid username or password.", jar)
    else if res.status == 503
    then (failed "Server error — database not available.", jar)
    else if not (is_ok res)
    then (failed "Authentication failed. Try again.", jar)
    else elim res.body [
      | none ↦ (threw, jar)
      | some jwt ↦ (redirected "/dashboard", Cookies.set admin_cookie (session env jwt) jar)
    ]

unfoldable pub login_with_credentials :
    Env
    → (FetchRequest JsonTexts → Fetched String)
    → FormValue
    → FormValue
    → Jar
    → ActionResult × Jar
unfolding login_reply
login_with_credentials env fetch username password jar = elim (given username) [
  | none ↦ (failed "Username and password are required.", jar)
  | some u ↦ elim (given password) [
    | none ↦ (failed "Username and password are required.", jar)
    | some p ↦ login_reply env (fetch (login_request env u p)) jar
  ]
]

abbrev pub is_secret : Env → FormValue → Bool
is_secret env (text s) = is_text env.admin_secret s
is_secret env _ = false

unfoldable pub login_with_secret : Env → Jose → ℕ → FormValue → Jar → ActionResult × Jar
login_with_secret env jose now secret jar =
    if not (is_secret env secret) then (failed "Invalid admin secret.", jar) else (
      redirected "/dashboard",
      Cookies.set admin_cookie (session env (sign_admin_token env jose now)) jar,
    )

unfoldable pub logout : Jar → ActionResult × Jar
logout jar = (redirected "/login", Cookies.delete admin_cookie jar)
