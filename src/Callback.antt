-- ===== src/Callback.antt =====
-- portal/app/auth/callback/route.ts, portal/app/auth/admin-callback/route.ts and
-- portal/app/auth/error/page.tsx: the links from the game that open a session, and the page that
-- says why one did not.
pub mod Laws
use audio_server.Common.{
  Option, String, [], if◌then◌else◌, none, not, some, str_eq, template, ◌==◌, ◌∷◌,
}
use audio_server.Http.{Env, FetchRequest, Fetched, is_ok, or_else, rejected, replied, truthy}
use audio_server.Http.Cookies
use audio_server.Http.Cookies.{Jar, set}
use audio_server.Auth.{admin_cookie, player_cookie}
use audio_server.Actions.{JsonTexts, relay_url, session}

-- Where a callback redirects to, or an exception. `auth_error reason` is `/auth/error?reason=…`.
pub data Landing : Type 0 where
  page : (path : String) → Landing
  auth_error : (reason : String) → Landing
  crashed : Landing

-- The request that exchanges the token of the link.
abbrev pub exchange_request : Env → String → String → FetchRequest JsonTexts
exchange_request env path token = record {
  url = template (relay_url env ∷ path ∷ []);
  method = "POST";
  headers = ("Content-Type", "application/json") ∷ [];
  body = some (("token", token) ∷ []);
}

-- The end of both callbacks: the body that is read is the field `jwt`.
abbrev pub open_session : Env → String → String → Option String → Jar → Landing × Jar
open_session env cookie path none jar = (crashed, jar)
open_session env cookie path (some jwt) jar = (page path, Cookies.set cookie (session env jwt) jar)

player_reply : Env → Fetched String → Jar → Landing × Jar
player_reply env rejected jar = (auth_error "relay-unreachable", jar)
player_reply env (replied res) jar =
    if res.status == 503
    then (auth_error "no-database", jar)
    else if not (is_ok res)
    then (auth_error "invalid-token", jar)
    else open_session env player_cookie "/preferences" res.body jar

-- `GET /auth/callback?token=…`
unfoldable pub player_callback :
    Env → (FetchRequest JsonTexts → Fetched String) → Option String → Jar → Landing × Jar
unfolding player_reply
player_callback env fetch token jar = elim (truthy token) [
  | none ↦ (auth_error "missing-token", jar)
  | some ott ↦ player_reply env (fetch (exchange_request env "/api/auth/player-callback" ott)) jar
]

admin_reply : Env → Fetched String → Jar → Landing × Jar
admin_reply env rejected jar = (auth_error "relay-unreachable", jar)
admin_reply env (replied res) jar =
    if not (is_ok res)
    then (auth_error "invalid-token", jar)
    else open_session env admin_cookie "/dashboard" res.body jar

-- `GET /auth/admin-callback?token=…`
unfoldable pub admin_callback :
    Env → (FetchRequest JsonTexts → Fetched String) → Option String → Jar → Landing × Jar
unfolding admin_reply
admin_callback env fetch token jar = elim (truthy token) [
  | none ↦ (auth_error "missing-token", jar)
  | some ott ↦ admin_reply env (fetch (exchange_request env "/api/auth/admin-ott" ott)) jar
]

-- `REASONS[reason]`; the names that every JavaScript object inherits are left out.
unfoldable pub reasons : String → Option String
reasons reason =
    if str_eq reason "missing-token"
    then some "No login token was found in the URL."
    else if str_eq reason "invalid-token"
    then some "Your login link has expired or already been used."
    else if str_eq reason "relay-unreachable"
    then some "The audio server is currently unreachable. Try again shortly."
    else if str_eq reason "no-database"
    then some "The server is not configured for player accounts yet."
    else none

abbrev pub unexpected : String
unexpected = "An unexpected error occurred during login."

-- `(reason && REASONS[reason]) ?? unexpected`: an empty reason is kept by `??`.
unfoldable pub error_message : Option String → String
error_message none = unexpected
error_message (some reason) = if str_eq reason "" then "" else or_else (reasons reason) unexpected
