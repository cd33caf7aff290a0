-- ===== src/Layout.antt =====
-- portal/app/(player)/layout.tsx: the shell of the player's pages checks the session once more.
use audio_server.Common.{String, arith, if◌then◌else◌, not, true, ℕ, ◌↔◌, ◌≡◌}
use audio_server.Http.{Env}
use audio_server.Http.Cookies
use audio_server.Http.Cookies.{Jar, get, value_of}
use audio_server.Auth.{Jose, player_cookie, verify_player_token}
use audio_server.Proxy.{authed, player_authed}

-- The page's content in the shell, or a call of `redirect`.
pub data Shell : Type 0 where
  shown : Shell
  sent : (path : String) → Shell

unfoldable pub player_layout : Env → Jose → ℕ → Jar → Shell
player_layout env jose now jar =
    let token = Cookies.value_of (Cookies.get player_cookie jar) in
    if not (authed (verify_player_token env jose now) token)
    then sent "/auth/player-login"
    else shown

-- The layout shows its pages exactly to those whom the proxy takes for players.
pub player_layout_iff :
    (env : Env) (jose : Jose) (now : ℕ) (jar : Jar)
    → (player_layout env jose now jar ≡ shown) ↔ (player_authed env jose now jar ≡ true)
unfolding player_layout player_authed
player_layout_iff env jose now jar = ground arith
