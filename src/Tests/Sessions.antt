-- ===== src/Tests/Sessions.antt =====
-- Sessions, the proxy, the server actions and the callbacks at inputs.
use audio_server.Common.{
  is_text, String, [], false, none, refl, some, true, ◌+◌, ◌<◌, ◌↔◌, ◌∷◌, ◌≡◌, ◌≢◌,
}
use audio_server.Http.{FetchRequest, Fetched, replied}
use audio_server.Http.Cookies
use audio_server.Http.Cookies.{Jar, get, set}
use audio_server.Auth.{
  admin_cookie, player_cookie, sign_admin_token, verify_admin_token, verify_player_token,
}
use audio_server.Auth.Laws.{verify-sign_admin_token}
use audio_server.Actions.{
  JsonTexts, login_with_credentials, login_with_secret, logout, redirected, session, text,
}
use audio_server.Actions.Laws.{
  IsLogin, login_with_credentials_iff, logout_keeps_player, secret_session,
}
use audio_server.Callback.{admin_callback, auth_error, player_callback}
use audio_server.Callback.Laws.{IsExplained, callback_errors}
use audio_server.Layout.{player_layout, shown}
use audio_server.Proxy.{admin_authed, has_prefix, next, player_authed, proxy, redirect, route}
use audio_server.Proxy.Laws.{MayPass, proxy-next_iff, proxy-settles, target}
use audio_server.Proxy.Media.{media_unprotected}
use audio_server.Tests.Sample.{env, player_jose, signer, signer-IsSound}

abbrev visitor : Jar
visitor = []

abbrev pub player : Jar
player = (player_cookie, session env "t") ∷ []

proxy_tests :
    (proxy env player_jose 0 visitor "/dashboard" ≡ redirect "/login" (some "/dashboard"))
    × (proxy env player_jose 0 visitor "/media" ≡ next)
    × (proxy env player_jose 0 player "/" ≡ redirect "/preferences" none)
    × (proxy env player_jose 0 player "/preferences" ≡ next)
unfolding proxy route has_prefix admin_authed player_authed verify_admin_token verify_player_token
    Cookies.get
proxy_tests = (refl, refl, refl, refl)

proxy-next_iff_example :
    (proxy env player_jose 0 player "/sessions" ≡ next)
    ↔ MayPass
        (admin_authed env player_jose 0 player)
        (player_authed env player_jose 0 player)
        "/sessions"
proxy-next_iff_example = proxy-next_iff env player_jose 0 player "/sessions"

proxy-settles_example :
    proxy env player_jose 0 player (target (proxy env player_jose 0 player "/") "/") ≡ next
proxy-settles_example = proxy-settles env player_jose 0 player "/"

media_unprotected_example : proxy env player_jose 0 visitor "/media/x" ≡ next
media_unprotected_example = media_unprotected env player_jose 0 visitor "/media/x" refl

verify-sign_admin_token_example :
    ((verify_admin_token env signer 9 (sign_admin_token env signer 5) ≡ true) ↔ (9 < 5 + 43200))
    × (verify_player_token env signer 9 (sign_admin_token env signer 5) ≡ false)
verify-sign_admin_token_example = verify-sign_admin_token env signer signer-IsSound 5 9

secret_session_example :
    (proxy env signer 9 (login_with_secret env signer 5 (text "s3cret") player).1 "/dashboard"
      ≡ next)
    ↔ (9 < 5 + 43200)
secret_session_example = secret_session env signer 5 player "s3cret" signer-IsSound refl 9

abbrev pub accepting : FetchRequest JsonTexts → Fetched String
accepting req = replied (record { status = 200; content_type = none; body = some "jwt-1" })

abbrev pub refusing : FetchRequest JsonTexts → Fetched String
refusing req = replied (record { status = 401; content_type = none; body = none })

login_with_credentials_iff_example :
    let done = login_with_credentials env accepting (text "ann") (text "pw") player in
    (done.0 ≡ redirected "/dashboard"
      → (jwt : String) × IsLogin env accepting (text "ann") (text "pw") jwt)
    × ((jwt : String)
        → IsLogin env accepting (text "ann") (text "pw") jwt
        → done ≡ (
          redirected "/dashboard",
          Cookies.set admin_cookie
              (record {
                value = jwt;
                options = record {
                  http_only = true;
                  secure = is_text env.node_env "production";
                  same_site = "strict";
                  max_age = 43200;
                  path = "/";
                };
              })
              player,
        ))
    × (done.0 ≢ redirected "/dashboard" → done.1 ≡ player)
login_with_credentials_iff_example =
    login_with_credentials_iff env accepting player (text "ann") (text "pw")

logout_keeps_player_example :
    (admin_authed env player_jose 0 (logout player).1 ≡ false)
    × (player_authed env player_jose 0 (logout player).1 ≡ player_authed env player_jose 0 player)
    × (player_layout env player_jose 0 player ≡ shown
        → player_layout env player_jose 0 (logout player).1 ≡ shown)
logout_keeps_player_example = logout_keeps_player env player_jose 0 player

callback_errors_example :
    ((player_callback env refusing (some "ott") visitor).0 ≡ auth_error "invalid-token"
      → ((player_callback env refusing (some "ott") visitor).1 ≡ visitor)
        × IsExplained "invalid-token")
    × ((admin_callback env refusing (some "ott") visitor).0 ≡ auth_error "invalid-token"
        → ((admin_callback env refusing (some "ott") visitor).1 ≡ visitor)
          × IsExplained "invalid-token")
callback_errors_example = callback_errors env refusing (some "ott") visitor "invalid-token"
