-- ===== src/Relay.antt =====
-- The ways from the portal to the relay: portal/lib/relay.ts, the two same-origin proxies
-- portal/app/api/relay/[...path]/route.ts and portal/app/api/player-relay/[...path]/route.ts, and
-- portal/app/api/admin-ticket/route.ts. A handler gives the requests that it sends to the relay, in
-- order, and its answer.
pub mod Laws
pub mod Ticket
use audio_server.Common.{
  Bool, List, Option, String, [], if◌then◌else◌, join, none, not, some, str_eq, template, ℕ, ◌&&◌,
  ◌==◌, ◌||◌, ◌∷◌,
}
use audio_server.Http.{Env, FetchRequest, Fetched, or_else, rejected, replied, truthy}
use audio_server.Http.Cookies
use audio_server.Http.Cookies.{Jar, get, value_of}
use audio_server.Auth.{admin_cookie, player_cookie}
use audio_server.Actions.{relay_url}

-- Headers as an object: a later entry replaces an earlier one of its name.
abbrev pub Headers : Type 0
Headers = List (String × String)

unfoldable pub set_header : String → String → Headers → Headers
set_header name value [] = (name, value) ∷ []
set_header name value ((k, v) ∷ headers) =
    if str_eq k name then (name, value) ∷ headers else (k, v) ∷ set_header name value headers

unfoldable pub header : String → Headers → Option String
header name [] = none
header name ((k, v) ∷ headers) = if str_eq k name then some v else header name headers

abbrev pub bearer : String → String
bearer token = template ("Bearer " ∷ token ∷ [])

-- `relayFetch`: the request that it sends; `init` gives the method, the headers and the body.
unfoldable pub relay_fetch : {B : Type 0} → Env → Jar → String → FetchRequest B → FetchRequest B
relay_fetch env jar path init =
    let token = or_else (Cookies.value_of (Cookies.get admin_cookie jar)) "" in
    record {
      url = template (relay_url env ∷ "/" ∷ path ∷ []);
      method = init.method;
      headers = set_header "Authorization" (bearer token) init.headers;
      body = init.body;
    }

-- The request of a browser to a proxy.
pub record Incoming (B : Type 0) : Type 0 where
  pub method : String
  pub content_type : Option String
  pub body : B

-- What a handler answers: an object with an error, a body of bytes, or an exception, for which
-- Next.js answers with the status 500.
pub data Answer (B : Type 0) : Type 0 where
  json_error : (error : String) → (status : ℕ) → Answer B
  answered : (status : ℕ) → (content_type : String) → B → Answer B
  server_error : Answer B

-- The constructor of a Response with a body throws at a status that allows none: the null body
-- statuses of the Fetch standard.
abbrev pub is_null_body : ℕ → Bool
is_null_body status =
    status == 101 || status == 103 || status == 204 || status == 205 || status == 304

abbrev pub new_response : {B : Type 0} → ℕ → String → B → Answer B
new_response status content_type body =
    if is_null_body status then server_error else answered status content_type body

abbrev pub content_headers : Option String → Headers
content_headers none = []
content_headers (some ct) = ("Content-Type", ct) ∷ []

-- The request that a proxy sends: a body only with the methods that may have one.
abbrev pub forwarded : {B : Type 0} → Env → String → List String → Incoming B → FetchRequest B
forwarded env token path request = record {
  url = template (relay_url env ∷ "/api/" ∷ join "/" path ∷ []);
  method = request.method;
  headers = ("Authorization", bearer token) ∷ content_headers (truthy request.content_type);
  body =
      if not (str_eq request.method "GET") && not (str_eq request.method "HEAD")
      then some request.body
      else none;
}

-- What a proxy makes of the relay's response; reading its bytes can fail.
abbrev pub passed_on : {B : Type 0} → Fetched B → Answer B
passed_on rejected = json_error "Relay unreachable" 502
passed_on (replied res) = elim res.body [
  | none ↦ server_error
  | some bytes ↦ new_response res.status (or_else res.content_type "application/json") bytes
]

module _ {B : Type 0} (env : Env) (fetch : FetchRequest B → Fetched B) where
  -- `proxy` of api/relay
  unfoldable pub admin_relay : Jar → List String → Incoming B → List (FetchRequest B) × Answer B
  admin_relay jar path request = elim (truthy (Cookies.value_of (Cookies.get admin_cookie jar))) [
    | none ↦ ([], json_error "Not authenticated" 401)
    | some token ↦ (
      forwarded env token path request ∷ [],
      passed_on (fetch (forwarded env token path request)),
    )
  ]

  -- `proxy` of api/player-relay
  unfoldable pub player_relay : Jar → List String → Incoming B → List (FetchRequest B) × Answer B
  player_relay jar path request = elim (truthy (Cookies.value_of (Cookies.get player_cookie jar))) [
    | none ↦ ([], json_error "Not authenticated" 401)
    | some token ↦ (
      forwarded env token path request ∷ [],
      passed_on (fetch (forwarded env token path request)),
    )
  ]

-- The methods for which each module has a handler.
abbrev pub admin_relay_methods : List String
admin_relay_methods = "GET" ∷ "POST" ∷ "PUT" ∷ "DELETE" ∷ []

abbrev pub player_relay_methods : List String
player_relay_methods = "GET" ∷ "PUT" ∷ []
