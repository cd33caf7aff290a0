-- ===== src/Relay/Laws.antt =====
-- What the proxies promise.

use audio_server.Common.{
  List, Option, Option-cases, String, [], join, template, eq_iff, arith, true, ◌⊎◌, ◌≢◌, ap, false,
  inl, inr, none, refl, some, ◌∙◌, ◌∷◌, ◌≡◌,
}
use audio_server.Http.{Env, FetchRequest, Fetched, Reply, or_else, rejected, replied, truthy}
use audio_server.Http.Cookies
use audio_server.Http.Cookies.{Cookie, Jar, get, get-set, set, value_of}
use audio_server.Auth.{admin_cookie, player_cookie}
use audio_server.Actions.{relay_url}
use audio_server.Relay.{
  Answer, content_headers, header, Incoming, admin_relay, answered, forwarded, is_null_body,
  json_error, passed_on, player_relay, server_error,
}

-- The request that the relay gets for one to a proxy.
pub record IsRelayed {B : Type 0} (env : Env) (token : String) (path : List String)
    (request : Incoming B) (sent : FetchRequest B) : Type 0 where
  pub url : sent.url ≡ template (relay_url env ∷ "/api/" ∷ join "/" path ∷ [])
  pub method : sent.method ≡ request.method
  pub authorised : header "Authorization" sent.headers ≡ some (template ("Bearer " ∷ token ∷ []))
  pub content_type : header "Content-Type" sent.headers ≡ truthy request.content_type
  pub no_body : (request.method ≡ "GET") ⊎ (request.method ≡ "HEAD") → sent.body ≡ none
  pub body : request.method ≢ "GET" → request.method ≢ "HEAD" → sent.body ≡ some request.body

-- What a proxy does with a request of someone with a session, by cases of what the relay does.
pub record Relays {B : Type 0} (env : Env) (fetch : FetchRequest B → Fetched B) (token : String)
    (path : List String) (request : Incoming B) (out : List (FetchRequest B) × Answer B)
    : Type 0 where
  pub outgoing : FetchRequest B
  pub sends : out.0 ≡ outgoing ∷ []
  pub is_relayed : IsRelayed env token path request outgoing
  pub unreachable : fetch outgoing ≡ rejected → out.1 ≡ json_error "Relay unreachable" 502
  pub passes :
      (res : Reply B) (bytes : B)
      → fetch outgoing ≡ replied res
      → res.body ≡ some bytes
      → is_null_body res.status ≡ false
      → out.1 ≡ answered res.status (or_else res.content_type "application/json") bytes
  pub no_body_allowed :
      (res : Reply B)
      → fetch outgoing ≡ replied res
      → is_null_body res.status ≡ true
      → out.1 ≡ server_error

header-content_headers : (o : Option String) → header "Content-Type" (content_headers o) ≡ o
unfolding header
header-content_headers none = refl
header-content_headers (some ct) = refl

forwarded-IsRelayed :
    {B : Type 0} (env : Env) (token : String) (path : List String) (request : Incoming B)
    → IsRelayed env token path request (forwarded env token path request)
unfolding header
forwarded-IsRelayed env token path request = record {
  url = refl;
  method = refl;
  authorised = refl;
  content_type = header-content_headers (truthy request.content_type);
  no_body = λ h. elim h [ inl e ↦ rw e refl | inr e ↦ rw e refl ];
  body = λ g h. ground (arith, eq_iff request.method "GET", eq_iff request.method "HEAD");
}

passed_on-null_body :
    {B : Type 0} (res : Reply B)
    → is_null_body res.status ≡ true
    → passed_on (replied res) ≡ server_error
passed_on-null_body res n = elim (Option-cases res.body) [
  | inl b ↦ rw b refl
  | inr (bytes, b) ↦ rw b (rw n refl)
]

passed_on-no_content :
    {B : Type 0} (res : Reply B) → res.status ≡ 204 → passed_on (replied res) ≡ server_error
passed_on-no_content res s = elim (Option-cases res.body) [
  | inl b ↦ rw b
  | inr (bytes, b) ↦ rw b (rw s)
]

module _ {B : Type 0} (env : Env) (fetch : FetchRequest B → Fetched B) (path : List String)
    (request : Incoming B) where
  passed_on-Relays :
      (token : String)
      → Relays env fetch token path request (
        forwarded env token path request ∷ [],
        passed_on (fetch (forwarded env token path request)),
      )
  passed_on-Relays token = record {
    outgoing = forwarded env token path request;
    sends = refl;
    is_relayed = forwarded-IsRelayed env token path request;
    unreachable = λ e. rw e;
    passes = λ res bytes e r n. rw e (rw r (rw n));
    no_body_allowed = λ res e n. ap passed_on e ∙ passed_on-null_body res n;
  }

  -- A proxy with a session of its own sends the relay one request: to the same path below its own
  -- `/api/`, with the same method, the session's token as bearer, the request's content type if it has
  -- one, and its body unless the method is GET or HEAD. It passes the status, the type and the bytes of
  -- the response on, if the status allows a body, throws if it allows none, and answers 502 where the
  -- relay cannot be reached.
  pub relay-Relays :
      (jar : Jar) (token : String)
      → (truthy (Cookies.value_of (Cookies.get admin_cookie jar)) ≡ some token
          → Relays env fetch token path request (admin_relay env fetch jar path request))
        × (truthy (Cookies.value_of (Cookies.get player_cookie jar)) ≡ some token
            → Relays env fetch token path request (player_relay env fetch jar path request))
  unfolding admin_relay player_relay
  relay-Relays jar token = (
    λ h. rw (h, admin_relay) (passed_on-Relays token),
    λ h. rw (h, player_relay) (passed_on-Relays token),
  )

  -- A request to a player's proxy is answered by the player's cookie alone: whatever becomes of the
  -- admin's cookie, the same requests are sent and the same answer is given. So it is the other way
  -- round for the admin's proxy and the player's cookie.
  relays_separate :
      (jar : Jar) (c : Cookie)
      → (player_relay env fetch (Cookies.set admin_cookie c jar) path request
          ≡ player_relay env fetch jar path request)
        × (admin_relay env fetch (Cookies.set player_cookie c jar) path request
            ≡ admin_relay env fetch jar path request)
  unfolding player_relay admin_relay
  relays_separate jar c = (
    rw (Cookies.get-set admin_cookie player_cookie c jar, player_relay),
    rw (Cookies.get-set player_cookie admin_cookie c jar, admin_relay),
  )

  -- Without a session of its own a proxy sends nothing and answers 401.
  pub no_session :
      (jar : Jar)
      → (truthy (Cookies.value_of (Cookies.get admin_cookie jar)) ≡ none
          → admin_relay env fetch jar path request ≡ ([], json_error "Not authenticated" 401))
        × (truthy (Cookies.value_of (Cookies.get player_cookie jar)) ≡ none
            → player_relay env fetch jar path request ≡ ([], json_error "Not authenticated" 401))
  unfolding player_relay admin_relay
  no_session jar = (λ h. rw (h, admin_relay), λ h. rw (h, player_relay))

  admin_relay-some :
      (jar : Jar) (token : String)
      → truthy (Cookies.value_of (Cookies.get admin_cookie jar)) ≡ some token
      → admin_relay env fetch jar path request ≡ (
        forwarded env token path request ∷ [],
        passed_on (fetch (forwarded env token path request)),
      )
  unfolding admin_relay
  admin_relay-some jar token h = rw (h, admin_relay)

  -- Where the relay answers without content, with the status 204, a proxy with a session has sent
  -- the request and throws.
  pub no_content_throws :
      (jar : Jar) (token : String)
      → truthy (Cookies.value_of (Cookies.get admin_cookie jar)) ≡ some token
      → (res : Reply B) → fetch (forwarded env token path request) ≡ replied res
      → res.status ≡ 204
      → admin_relay env fetch jar path request
        ≡ (forwarded env token path request ∷ [], server_error)
  unfolding admin_relay
  no_content_throws jar token h res e s =
      admin_relay-some jar token h
      ∙ ap (λ a. (forwarded env token path request ∷ [], a))
          (ap passed_on e ∙ passed_on-no_content res s)
