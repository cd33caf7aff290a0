-- ===== src/EndToEnd/Links.antt =====
-- A link of the game, from the token in Redis through the relay and the portal to the player's page.
pub mod Exchange
use mathlib.Core.Path.{subst}
use native.Mathlib.Decide.{dec_lt}
use audio_server.Common.{
  List, Option, String, [], ap, arith, eq_iff, none, refl, some, sym, template, true, ℕ, ◌+◌, ◌<◌,
  ◌↔◌, ◌∙◌, ◌∷◌, ◌≡◌, ◌≢◌,
}
use audio_server.Http.{Env, FetchRequest, Fetched, Reply, replied}
use audio_server.Http.Cookies
use audio_server.Http.Cookies.{Jar, aged, aged-set, delete, kept, set}
use audio_server.Auth.{Jose, player_cookie, secret, verify_player_token}
use audio_server.Actions.{JsonTexts, relay_url, session}
use audio_server.Proxy.{next, proxy}
use audio_server.Proxy.Sessions.{
  authed_iff, player_authed-delete, player_authed-set, preferences_iff,
}
use audio_server.Callback.{auth_error, exchange_request, Landing, page, player_callback}
use audio_server.Callback.Laws.{player_callback-session}
use audio_server.Backend.{Answer, Database, got}
use audio_server.Backend.Jwt.{player_claims, sign}
use audio_server.Backend.Jwt.Agreement.{Agrees, payload_of}
use audio_server.Backend.Tokens.{
  key_of, portal, split_once, and_then, player_value, PlayerOtt, validate_player,
}
use audio_server.Backend.Handlers.{Node, json, jwt_response, plain, player_answer, upserted}
use audio_server.Backend.Handlers
use audio_server.EndToEnd.{
  Access, accessed, requested, handle, route_of, fetch_at, field, serve, serve_all,
}
use audio_server.EndToEnd.Spent.{IsGone, serve_all-IsGone}
use audio_server.EndToEnd.Links.Exchange.{IsStored, exchanged, serve-player, spent}

answered-401 :
    (env : Env) (fetch : FetchRequest JsonTexts → Fetched String) (ott : String) (jar : Jar)
    → ott ≢ ""
    → fetch (exchange_request env "/api/auth/player-callback" ott) ≡ replied (plain 401)
    → player_callback env fetch (some ott) jar ≡ (auth_error "invalid-token", jar)
unfolding player_callback
answered-401 env fetch ott jar given h = ground (arith, eq_iff ott "")

module _ (node : Node) where
  open node use {crates, redis, db, config}
  open crates use {Uuid, parse_str, uuid_text}
  open redis use {Store, live, get_del}

  -- A token that the relay signs for a player is one for the portal until it expires.
  verify-relay :
      (env : Env) (jose : Jose)
      → Agrees jose crates
      → (now : ℕ) (u : Uuid) (jwt : String) (t : ℕ) → config.jwt_secret ≡ secret env jose
      → sign crates config now (uuid_text u) ≡ some jwt
      → (verify_player_token env jose t jwt ≡ true) ↔ (t < now + config.jwt_expiry_seconds)
  unfolding verify_player_token
  verify-relay env jose agrees now u jwt t same signed =
      let claims = player_claims config now (uuid_text u) in
      elim (dec_lt t (now + config.jwt_expiry_seconds)) [
        | yes early ↦
            let fresh =
              subst (λ k. jose.verify t jwt k ≡ some (payload_of claims)) same
                (agrees.fresh claims config.jwt_secret jwt t signed early) in
            (λ _. early, λ _. rw (fresh, verify_player_token) refl)
        | no late ↦
            let over =
              subst (λ k. jose.verify t jwt k ≡ none) same
                (agrees.expired claims config.jwt_secret jwt t signed (omega arith)) in
            (λ h. absurd (ground arith), λ early. absurd (late early))
      ]

  module _ (env : Env) (jose : Jose) where
    first_visit :
        (jar : Jar) (now : ℕ) (ott : String) (s : Store) (u : Uuid) (name jwt : String)
        → ott ≢ ""
        → IsStored node now ott s u name
        → sign crates config now (uuid_text u) ≡ some jwt
        → player_callback env (fetch_at node env now s) (some ott) jar
          ≡ (page "/preferences", Cookies.set player_cookie (session env jwt) jar)
    first_visit jar now ott s u name jwt given h signed =
        player_callback-session env (fetch_at node env now s) (some ott) jar jwt (record {
          ott = ott;
          in_link = refl;
          ott_given = given;
          reply = json jwt;
          replied_so =
              ap (λ (out : Reply String × Store). replied out.0)
                (serve-player node env now ott s ∙ exchanged node now ott s u name jwt h signed);
          ok = refl;
          read = refl;
        })

    later_visit :
        (jar : Jar) (now : ℕ) (ott : String) (s : Store) (d : Database)
        → ott ≢ ""
        → db ≡ some d
        → (get_del now (key_of portal ott) s).0 ≡ got none
        → player_callback env (fetch_at node env now s) (some ott) jar
          ≡ (auth_error "invalid-token", jar)
    later_visit jar now ott s d given has_db h =
        let refused =
          ap (λ (out : Reply String × Store). out.0) (serve-player node env now ott s)
          ∙ spent node now ott s d has_db h in
        answered-401 env (fetch_at node env now s) ott jar given
          (ap (λ (r : Reply String). replied r) refused)

    session_time :
        (jar : Jar) (now : ℕ) (u : Uuid) (jwt : String) (t : ℕ)
        → Agrees jose crates
        → config.jwt_secret ≡ secret env jose
        → sign crates config now (uuid_text u) ≡ some jwt
        → (proxy env jose t (Cookies.set player_cookie (session env jwt) jar) "/preferences" ≡ next)
          ↔ (t < now + config.jwt_expiry_seconds)
    session_time jar now u jwt t agrees same signed =
        let iff = preferences_iff env jose t (Cookies.set player_cookie (session env jwt) jar) in
        let opened =
          player_authed-set env jose t (session env jwt) jar
          ∙ authed_iff (verify_player_token env jose t) jwt (agrees.not_empty _ _ jwt signed) in
        let verified = verify-relay env jose agrees now u jwt t same signed in
        (λ shown. verified.0 (sym opened ∙ iff.0 shown), λ early. iff.1 (opened ∙ verified.1 early))

    -- The proxy with the cookie, and without it once the browser has dropped it.
    kept_time :
        (jar : Jar) (now : ℕ) (u : Uuid) (jwt : String) (d : ℕ)
        → Agrees jose crates
        → config.jwt_secret ≡ secret env jose
        → sign crates config now (uuid_text u) ≡ some jwt
        → (x : Dec (d < 43200))
        → (proxy env jose
              (now + d)
              (kept player_cookie (Cookies.set player_cookie (session env jwt) jar) x)
              "/preferences"
            ≡ next)
          ↔ ((d < config.jwt_expiry_seconds) × (d < 43200))
    kept_time jar now u jwt d agrees same signed (yes early) =
        let iff = session_time jar now u jwt (now + d) agrees same signed in
        (
          λ shown. (let h = iff.0 shown in omega (arith, h), early),
          λ (valid, _). iff.1 (omega (arith, valid)),
        )
    kept_time jar now u jwt d agrees same signed (no late) =
        let dropped =
          Cookies.delete player_cookie (Cookies.set player_cookie (session env jwt) jar) in
        (
          λ shown.
              let open_still = (preferences_iff env jose (now + d) dropped).0 shown in
              cc (
                open_still,
                player_authed-delete env jose (now + d)
                    (Cookies.set player_cookie (session env jwt) jar),
              ),
          λ (_, early). absurd (late early),
        )

    aged_time :
        (jar : Jar) (now : ℕ) (u : Uuid) (jwt : String) (d : ℕ)
        → Agrees jose crates
        → config.jwt_secret ≡ secret env jose
        → sign crates config now (uuid_text u) ≡ some jwt
        → (proxy env jose
              (now + d)
              (aged player_cookie d (Cookies.set player_cookie (session env jwt) jar))
              "/preferences"
            ≡ next)
          ↔ ((d < config.jwt_expiry_seconds) × (d < 43200))
    aged_time jar now u jwt d agrees same signed =
        subst
          (λ (j : Jar).
            (proxy env jose (now + d) j "/preferences" ≡ next)
            ↔ ((d < config.jwt_expiry_seconds) × (d < 43200)))
          (sym (aged-set player_cookie d (session env jwt) jar))
          (kept_time jar now u jwt d agrees same signed (dec_lt d 43200))

    -- A link of the game opens one session of a player. Where the portal and the relay have the same
    -- secret and the relay can sign, Redis has the link's token and PostgreSQL can be written, the visit
    -- ends at the preferences, and after it the proxy shows them to the browser for exactly as long as
    -- both hold: the time that the relay has signed for is not over, and neither are the twelve hours
    -- after which the browser drops the cookie. After any further logins, tickets and sockets at the
    -- relay, a visit of the link by any browser ends with the error for a used link and changes no
    -- cookie, as long as Redis can be reached and the game does not write the token again.
    pub link_opens_once :
        (jar : Jar) (now : ℕ) (ott : String) (s : Store) (u : Uuid) (name jwt : String)
        → Agrees jose crates
        → config.jwt_secret ≡ secret env jose
        → ott ≢ ""
        → IsStored node now ott s u name
        → sign crates config now (uuid_text u) ≡ some jwt
        → (between : List (ℕ × Access)) (later : ℕ) (v : Option String) (jar' : Jar)
        → let req = exchange_request env "/api/auth/player-callback" ott in
          let s' = serve_all node (relay_url env) ((now, requested req) ∷ between) s in
          let visit = player_callback env (fetch_at node env now s) (some ott) jar in
          (get_del later (key_of portal ott) s').0 ≡ got v
          → (visit.0 ≡ page "/preferences")
            × ((d : ℕ)
                → (proxy env jose (now + d) (aged player_cookie d visit.1) "/preferences" ≡ next)
                  ↔ ((d < config.jwt_expiry_seconds) × (d < 43200)))
            × (player_callback env (fetch_at node env later s') (some ott) jar'
                ≡ (auth_error "invalid-token", jar'))
    unfolding serve_all accessed
    link_opens_once jar now ott s u name jwt agrees same given h signed between later v jar'
          reached =
        let key = key_of portal ott in
        let visit = first_visit jar now ott s u name jwt given h signed in
        let served =
          serve-player node env now ott s ∙ exchanged node now ott s u name jwt h signed in
        let first_gone : IsGone node key
            (serve node (relay_url env) now s
              (exchange_request env "/api/auth/player-callback" ott)).1 =
          subst (λ (out : Reply String × Store). IsGone node key out.1) (sym served)
            (λ t. redis.get_del-gone now key s (some h.value) t h.reached) in
        let gone = serve_all-IsGone node (relay_url env) ott between _ first_gone in
        let none_left = redis.get_del-live later key _ v reached ∙ gone later in
        (
          ap (λ (out : Landing × Jar). out.0) visit,
          λ d.
              subst
                (λ (out : Landing × Jar).
                  (proxy env jose (now + d) (aged player_cookie d out.1) "/preferences" ≡ next)
                  ↔ ((d < config.jwt_expiry_seconds) × (d < 43200)))
                (sym visit) (aged_time jar now u jwt d agrees same signed),
          later_visit jar' later ott _ h.d given h.has_db
              (reached ∙ ap (λ (o : Option String). got o) none_left),
        )
