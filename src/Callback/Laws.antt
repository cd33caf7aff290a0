-- ===== src/Callback/Laws.antt =====
-- What the callbacks promise.
use audio_server.Proxy.Sessions.{player_authed-set, preferences_iff}
use audio_server.Layout.{player_layout, player_layout_iff, shown}
use audio_server.Proxy.{next, player_authed, proxy}
use audio_server.Common.{
  Option, String, arith, eq_iff, false, inl, inr, refl, some, str_eq, true, ℕ, ◌≡◌, ◌≢◌, ◌⊎◌,
}
use audio_server.Http.{Env, FetchRequest, Fetched, Reply, is_ok, replied}
use audio_server.Http.Cookies
use audio_server.Http.Cookies.{Jar, set}
use audio_server.Auth.{
  Jose, admin_cookie, player_cookie, secret, str, undefined, verify_player_token,
}
use audio_server.Actions.{JsonTexts, session}
use audio_server.Callback.{
  admin_callback, auth_error, error_message, exchange_request, page, player_callback, reasons,
  unexpected,
}

-- What has to hold for a link to open a session by the relay's token `jwt`.
pub record IsExchanged (fetch : FetchRequest JsonTexts → Fetched String)
    (req : String → FetchRequest JsonTexts) (token : Option String) (jwt : String) : Type 0 where
  pub ott : String
  pub in_link : token ≡ some ott
  pub ott_given : ott ≢ ""
  pub reply : Reply String
  pub replied_so : fetch (req ott) ≡ replied reply
  pub ok : is_ok reply ≡ true
  pub read : reply.body ≡ some jwt

abbrev pub IsExplained : String → Type 0
IsExplained reason = (error_message (some reason) ≢ unexpected) × (error_message (some reason) ≢ "")

abbrev IsListed : String → Type 0
IsListed reason =
    (reason ≡ "missing-token")
    ⊎ (reason ≡ "invalid-token")
    ⊎ (reason ≡ "relay-unreachable")
    ⊎ (reason ≡ "no-database")

differ : (s t : String) → str_eq s t ≡ false → s ≢ t
differ s t h e = cc (h, (eq_iff s t).1 e)

listed-IsExplained : (reason : String) → IsListed reason → IsExplained reason
unfolding error_message reasons
listed-IsExplained reason (inl e) = rw e (differ _ _ refl, differ _ _ refl)
listed-IsExplained reason (inr (inl e)) = rw e (differ _ _ refl, differ _ _ refl)
listed-IsExplained reason (inr (inr (inl e))) = rw e (differ _ _ refl, differ _ _ refl)
listed-IsExplained reason (inr (inr (inr e))) = rw e (differ _ _ refl, differ _ _ refl)

module _ (env : Env) (fetch : FetchRequest JsonTexts → Fetched String) (token : Option String)
    (jar : Jar) where
  -- A player's link whose token the relay exchanges leads to the preferences and sets the player's
  -- cookie, to the relay's token, and no other.
  pub player_callback-session :
      (jwt : String)
      → IsExchanged fetch (exchange_request env "/api/auth/player-callback") token jwt
      → player_callback env fetch token jar
        ≡ (page "/preferences", Cookies.set player_cookie (session env jwt) jar)
  unfolding player_callback
  player_callback-session jwt h = ground (arith, eq_iff h.ott "")

  pub admin_callback-session :
      (jwt : String)
      → IsExchanged fetch (exchange_request env "/api/auth/admin-ott") token jwt
      → admin_callback env fetch token jar
        ≡ (page "/dashboard", Cookies.set admin_cookie (session env jwt) jar)
  unfolding admin_callback
  admin_callback-session jwt h = ground (arith, eq_iff h.ott "")

  player_reasons :
      (reason : String)
      → (player_callback env fetch token jar).0 ≡ auth_error reason
      → ((player_callback env fetch token jar).1 ≡ jar) × IsListed reason
  unfolding player_callback
  player_reasons reason h = ground arith

  admin_reasons :
      (reason : String)
      → (admin_callback env fetch token jar).0 ≡ auth_error reason
      → ((admin_callback env fetch token jar).1 ≡ jar) × IsListed reason
  unfolding admin_callback
  admin_reasons reason h = ground arith

  -- A callback that leads to the error page has changed no cookie, and the page has a text for its
  -- reason: neither the one for unexpected errors nor an empty one.
  pub callback_errors :
      (reason : String)
      → ((player_callback env fetch token jar).0 ≡ auth_error reason
          → ((player_callback env fetch token jar).1 ≡ jar) × IsExplained reason)
        × ((admin_callback env fetch token jar).0 ≡ auth_error reason
            → ((admin_callback env fetch token jar).1 ≡ jar) × IsExplained reason)
  callback_errors reason = (
    λ h. let (same, listed) = player_reasons reason h in (same, listed-IsExplained reason listed),
    λ h. let (same, listed) = admin_reasons reason h in (same, listed-IsExplained reason listed),
  )

module _ (env : Env) (jose : Jose) where
  player_opens :
      (jar : Jar) (jwt player : String)
      → jwt ≢ ""
      → (now : ℕ)
      → jose.verify now jwt (secret env jose) ≡ some (record { sub = str player; role = undefined })
      → player_authed env jose now (Cookies.set player_cookie (session env jwt) jar) ≡ true
  unfolding verify_player_token
  player_opens jar jwt player filled now verified =
      rw (player_authed-set env jose now (session env jwt) jar) (ground (arith, eq_iff jwt ""))

  -- A player who follows a link from the game sees the preferences: if the relay exchanges the token
  -- for one that verifies with a text as its subject and no role, then the proxy lets the page that
  -- the callback leads to through, and the layout shows it.
  player_link_opens :
      (fetch : FetchRequest JsonTexts → Fetched String) (token : Option String) (jar : Jar)
      → (jwt player : String)
      → IsExchanged fetch (exchange_request env "/api/auth/player-callback") token jwt
      → jwt ≢ ""
      → (now : ℕ)
      → jose.verify now jwt (secret env jose) ≡ some (record { sub = str player; role = undefined })
      → let after = (player_callback env fetch token jar).1 in
        ((player_callback env fetch token jar).0 ≡ page "/preferences")
        × (proxy env jose now after "/preferences" ≡ next)
        × (player_layout env jose now after ≡ shown)
  player_link_opens fetch token jar jwt player h filled now verified =
      let opened = player_opens jar jwt player filled now verified in
      rw (player_callback-session env fetch token jar jwt h) (
        refl,
        (preferences_iff env jose now _).1 opened,
        (player_layout_iff env jose now _).1 opened,
      )
