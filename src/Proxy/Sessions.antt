-- ===== src/Proxy/Sessions.antt =====
-- How the two sessions that the proxy reads depend on the browser's cookies.
use audio_server.Common.{Bool, String, arith, eq_iff, false, some, true, ℕ, ◌↔◌, ◌≡◌, ◌≢◌}
use audio_server.Http.{Env}
use audio_server.Http.Cookies
use audio_server.Http.Cookies.{Cookie, Jar, delete, get-delete, get-set, set}
use audio_server.Auth.{Jose, admin_cookie, player_cookie, verify_admin_token, verify_player_token}
use audio_server.Proxy.{admin_authed, authed, has_prefix, next, player_authed, proxy, route}

module _ (env : Env) (jose : Jose) (now : ℕ) (c : Cookie) (jar : Jar) where
  pub admin_authed-set :
      admin_authed env jose now (Cookies.set admin_cookie c jar)
      ≡ authed (verify_admin_token env jose now) (some c.value)
  unfolding admin_authed
  admin_authed-set = rw (Cookies.get-set admin_cookie admin_cookie c jar)

  pub player_authed-set :
      player_authed env jose now (Cookies.set player_cookie c jar)
      ≡ authed (verify_player_token env jose now) (some c.value)
  unfolding player_authed
  player_authed-set = rw (Cookies.get-set player_cookie player_cookie c jar)

  pub player_authed-set_admin :
      player_authed env jose now (Cookies.set admin_cookie c jar) ≡ player_authed env jose now jar
  unfolding player_authed
  player_authed-set_admin = rw (Cookies.get-set admin_cookie player_cookie c jar)

  pub admin_authed-set_player :
      admin_authed env jose now (Cookies.set player_cookie c jar) ≡ admin_authed env jose now jar
  unfolding admin_authed
  admin_authed-set_player = rw (Cookies.get-set player_cookie admin_cookie c jar)

module _ (env : Env) (jose : Jose) (now : ℕ) (jar : Jar) where
  pub admin_authed-delete : admin_authed env jose now (Cookies.delete admin_cookie jar) ≡ false
  unfolding admin_authed
  admin_authed-delete = rw (Cookies.get-delete admin_cookie admin_cookie jar)

  pub player_authed-delete : player_authed env jose now (Cookies.delete player_cookie jar) ≡ false
  unfolding player_authed
  player_authed-delete = rw (Cookies.get-delete player_cookie player_cookie jar)

  pub player_authed-delete_admin :
      player_authed env jose now (Cookies.delete admin_cookie jar) ≡ player_authed env jose now jar
  unfolding player_authed
  player_authed-delete_admin = rw (Cookies.get-delete admin_cookie player_cookie jar)

  pub dashboard_iff :
      (proxy env jose now jar "/dashboard" ≡ next) ↔ (admin_authed env jose now jar ≡ true)
  unfolding proxy route has_prefix
  dashboard_iff = ground arith

  pub preferences_iff :
      (proxy env jose now jar "/preferences" ≡ next) ↔ (player_authed env jose now jar ≡ true)
  unfolding proxy route has_prefix
  preferences_iff = ground arith

-- A session whose cookie is set to a text is open if the text is not empty and verifies.
pub authed_iff :
    (verify : String → Bool) (token : String)
    → token ≢ ""
    → authed verify (some token) ≡ verify token
authed_iff verify token h = ground (arith, eq_iff token "")
