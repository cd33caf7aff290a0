-- ===== src/Preferences/EndToEnd.antt =====
-- The profile of a player on its way from the relay through the portal's proxy to the page.
use mathlib.Core.Path.{subst}
use audio_server.Common.{
  Bool-cases, List, Option, Option-cases, String, [], ap, arith, false, inl, inr, none, refl, some,
  sym, template, true, ◌∙◌, ◌∷◌, ◌↔◌, ◌≡◌, ◌≢◌,
}
use audio_server.Http.{Env, FetchRequest, Fetched, Reply, is_ok, or_else, rejected, replied, truthy}
use audio_server.Http.Cookies
use audio_server.Http.Cookies.{Jar}
use audio_server.Auth.{player_cookie}
use audio_server.Actions.{relay_url}
use audio_server.Api.{Body}
use audio_server.Forms.{Texts}
use audio_server.Relay.{
  Answer, bearer, Incoming, answered, is_null_body, json_error, passed_on, player_relay,
  server_error,
}
use audio_server.Preferences.{
  Page, PlayerProfile, failure, get_me, initial, on_profile, profile_answered, step, view,
}

-- What a browser's `fetch` gives of a handler's answer, with bodies that `parse` reads.
abbrev pub seen : {B J : Type 0} → (B → Option J) → Answer B → Fetched J
seen parse (json_error error status) =
    replied (record { status = status; content_type = some "application/json"; body = none })
seen parse (answered status content_type bytes) =
    replied (record { status = status; content_type = some content_type; body = parse bytes })
seen parse server_error = replied (record { status = 500; content_type = none; body = none })

-- The segments of the path that the page asks for, behind `/api/player-relay/`.
abbrev pub me : List String
me = "player" ∷ "me" ∷ []

abbrev pub failure_text : String
failure_text = "Could not load your profile. Is the server online?"

-- The request that reaches the relay.
abbrev pub profile_request : {B : Type 0} → Env → String → FetchRequest B
profile_request env token = record {
  url = template (relay_url env ∷ "/api/player/me" ∷ []);
  method = "GET";
  headers = ("Authorization", bearer token) ∷ [];
  body = none;
}

-- The page's request as it comes to the proxy.
abbrev pub incoming : {B : Type 0} → B → Incoming B
incoming body =
    let sent : FetchRequest (Body (Unit {0})) = get_me in
    record { method = sent.method; content_type = none; body = body }

module _ {B V : Type 0} (parse : B → Option (PlayerProfile V)) where
  -- An answer of the relay with a profile.
  pub record Brings (r : Fetched B) (d : PlayerProfile V) : Type 0 where
    pub res : Reply B
    pub bytes : B
    pub came : r ≡ replied res
    pub accepted : is_ok res ≡ true
    pub has_body : is_null_body res.status ≡ false
    pub read : res.body ≡ some bytes
    pub parsed : parse bytes ≡ some d

  -- What the page has read, once its request is answered.
  asked : Fetched B → Page V
  asked r = on_profile (seen parse (passed_on r)) initial

  on_profile-read :
      (reply : Reply (PlayerProfile V)) (d : PlayerProfile V)
      → ((on_profile (replied reply) initial).profile ≡ some d)
        ↔ ((is_ok reply ≡ true) × (reply.body ≡ some d))
  unfolding on_profile
  on_profile-read reply d = ground arith

  on_profile-unread :
      (r : Fetched (PlayerProfile V))
      → (on_profile r initial).profile ≡ none
      → (on_profile r initial).error ≡ some failure_text
  unfolding on_profile
  on_profile-unread rejected h = refl
  on_profile-unread (replied reply) h = ground arith

  passed_on-body :
      (res : Reply B) (bytes : B)
      → res.body ≡ some bytes
      → is_null_body res.status ≡ false
      → passed_on (replied res)
        ≡ answered res.status (or_else res.content_type "application/json") bytes
  passed_on-body res bytes read has_body = rw read (rw has_body refl)

  passed_on-unread : (res : Reply B) → res.body ≡ none → passed_on (replied res) ≡ server_error
  passed_on-unread res unread = rw unread refl

  passed_on-null_body :
      (res : Reply B) (bytes : B)
      → res.body ≡ some bytes
      → is_null_body res.status ≡ true
      → passed_on (replied res) ≡ server_error
  passed_on-null_body res bytes read no_body = rw read (rw no_body refl)

  asked-Brings : (r : Fetched B) (d : PlayerProfile V) → Brings r d → (asked r).profile ≡ some d
  unfolding asked
  asked-Brings r d b =
      ap (λ (q : Fetched B). (on_profile (seen parse (passed_on q)) initial).profile) b.came
      ∙ ap (λ (a : Answer B). (on_profile (seen parse a) initial).profile)
          (passed_on-body b.res b.bytes b.read b.has_body)
      ∙ (on_profile-read _ d).1 (b.accepted, b.parsed)

  thrown : (d : PlayerProfile V) → (on_profile (seen parse server_error) initial).profile ≢ some d
  unfolding on_profile
  thrown d h = cc

  not_thrown :
      (r : Fetched B) (d : PlayerProfile V)
      → passed_on r ≡ server_error
      → (asked r).profile ≢ some d
  unfolding asked
  not_thrown r d e h =
      thrown d (sym (ap (λ (a : Answer B). (on_profile (seen parse a) initial).profile) e) ∙ h)

  Brings-read :
      (res : Reply B) (bytes : B) (d : PlayerProfile V)
      → res.body ≡ some bytes
      → is_null_body res.status ≡ false
      → (asked (replied res)).profile ≡ some d
      → Brings (replied res) d
  unfolding asked
  Brings-read res bytes d read has_body h =
      let same =
        ap (λ (a : Answer B). (on_profile (seen parse a) initial).profile)
          (passed_on-body res bytes read has_body) in
      let (accepted, parsed) = (on_profile-read _ d).0 (sym same ∙ h) in
      record {
        res = res;
        bytes = bytes;
        came = refl;
        accepted = accepted;
        has_body = has_body;
        read = read;
        parsed = parsed;
      }

  no_answer : (d : PlayerProfile V) → (asked rejected).profile ≢ some d
  unfolding asked on_profile
  no_answer d h = cc

  Brings-asked : (r : Fetched B) (d : PlayerProfile V) → (asked r).profile ≡ some d → Brings r d
  Brings-asked rejected d h = absurd (no_answer d h)
  Brings-asked (replied res) d h = elim (Option-cases res.body) [
    | inl unread ↦ absurd (not_thrown (replied res) d (passed_on-unread res unread) h)
    | inr (bytes, read) ↦ elim (Bool-cases (is_null_body res.status)) [
      | inl no_body ↦
          absurd (not_thrown (replied res) d (passed_on-null_body res bytes read no_body) h)
      | inr has_body ↦ Brings-read res bytes d read has_body h
    ]
  ]

  view-failed : (p : Page V) → p.error ≡ some failure_text → view p ≡ failure failure_text
  unfolding view
  view-failed p e = rw e refl

  relayed :
      (env : Env) (relay : FetchRequest B → Fetched B) (jar : Jar) (token : String) (body : B)
      → truthy (Cookies.value_of (Cookies.get player_cookie jar)) ≡ some token
      → player_relay env relay jar me (incoming body)
        ≡ (profile_request env token ∷ [], passed_on (relay (profile_request env token)))
  unfolding player_relay
  relayed env relay jar token body h = rw (h, player_relay) refl

  -- A player's page asks the relay for the profile by one request, with the token of the player's
  -- session. It has the profile `d` exactly if the relay answers with a status that is ok and allows
  -- a body, and a body that is read and parsed to `d`; and if it has none, it shows that it could not
  -- load it.
  pub profile_end_to_end :
      (env : Env) (relay : FetchRequest B → Fetched B) (jar : Jar) (token : String) (body : B)
      (texts : Texts V)
      → truthy (Cookies.value_of (Cookies.get player_cookie jar)) ≡ some token
      → let out = player_relay env relay jar me (incoming body) in
        let p = step texts (profile_answered (seen parse out.1)) initial in
        (out.0 ≡ profile_request env token ∷ [])
        × ((d : PlayerProfile V)
            → (p.profile ≡ some d) ↔ Brings (relay (profile_request env token)) d)
        × (p.profile ≡ none → view p ≡ failure failure_text)
  unfolding step asked
  profile_end_to_end env relay jar token body texts h =
      let req = profile_request env token in
      subst
        (λ (out : List (FetchRequest B) × Answer B).
          let p = on_profile (seen parse out.1) initial in
          (out.0 ≡ req ∷ [])
          × ((d : PlayerProfile V) → (p.profile ≡ some d) ↔ Brings (relay req) d)
          × (p.profile ≡ none → view p ≡ failure failure_text))
        (sym (relayed env relay jar token body h))
        (
          refl,
          λ d. (Brings-asked (relay req) d, asked-Brings (relay req) d),
          λ unread. view-failed _ (on_profile-unread (seen parse (passed_on (relay req))) unread),
        )
