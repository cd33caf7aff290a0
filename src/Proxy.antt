-- ===== src/Proxy.antt =====
-- portal/proxy.ts: which requests the portal lets through, and where it sends the others.
pub mod Laws
pub mod Sessions
pub mod Media
use audio_server.Common.{
  ℕ, Bool, true, false, ◌&&◌, not, String, str_eq, starts_with, Option, none, some, List, [], ◌∷◌,
  any, if◌then◌else◌,
}
use audio_server.Http.{Env}
use audio_server.Http.Cookies
use audio_server.Http.Cookies.{Jar}
use audio_server.Auth.{Jose, admin_cookie, player_cookie, verify_admin_token, verify_player_token}

abbrev pub admin_prefixes : List String
admin_prefixes =
    "/dashboard" ∷ "/sessions" ∷ "/regions" ∷ "/hardware" ∷ "/settings" ∷ "/events" ∷ []

abbrev pub player_prefixes : List String
player_prefixes = "/preferences" ∷ []

-- `redirect path from`: to the path, with `from` as its query parameter of that name.
pub data Answer : Type 0 where
  redirect : (path : String) → (from : Option String) → Answer
  next : Answer

unfoldable pub has_prefix : List String → String → Bool
has_prefix prefixes pathname = any (λ p. starts_with pathname p) prefixes

-- `token ? await verify(token) : false`
abbrev pub authed : (String → Bool) → Option String → Bool
authed verify none = false
authed verify (some token) = if str_eq token "" then false else verify token

-- The decisions of `proxy`, once the two cookies are verified.
unfoldable pub route : Bool → Bool → String → Answer
route admin_authed player_authed pathname =
    if str_eq pathname "/"
    then (if admin_authed
        then redirect "/dashboard" none
        else if player_authed
        then redirect "/preferences" none
        else redirect "/login" none)
    else if has_prefix admin_prefixes pathname && not admin_authed
    then redirect "/login" (some pathname)
    else if has_prefix player_prefixes pathname && not player_authed
    then redirect "/auth/player-login" none
    else if str_eq pathname "/login" && admin_authed
    then redirect "/dashboard" none
    else if str_eq pathname "/auth/player-login" && player_authed
    then redirect "/preferences" none
    else next

module _ (env : Env) (jose : Jose) where
  unfoldable pub admin_authed : ℕ → Jar → Bool
  admin_authed now jar =
      authed (verify_admin_token env jose now) (Cookies.value_of (Cookies.get admin_cookie jar))

  unfoldable pub player_authed : ℕ → Jar → Bool
  player_authed now jar =
      authed (verify_player_token env jose now) (Cookies.value_of (Cookies.get player_cookie jar))

  unfoldable pub proxy : ℕ → Jar → String → Answer
  proxy now jar pathname = route (admin_authed now jar) (player_authed now jar) pathname
