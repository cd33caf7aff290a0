-- ===== src/Proxy/Laws.antt =====
-- What the proxy protects, and that its redirects end.
use audio_server.Common.{
  Bool, String, arith, eq_iff, false, inl, inr, refl, true, ℕ, ◌↔◌, ◌≡◌, ◌≢◌, ◌⊎◌,
}
use audio_server.Http.{Env}
use audio_server.Http.Cookies.{Jar}
use audio_server.Auth.{Jose}
use audio_server.Proxy.{
  Answer, admin_authed, admin_prefixes, has_prefix, next, player_authed, player_prefixes, proxy,
  redirect, route,
}

-- The requests that may go through, said without the order of the code's tests.
pub record MayPass (admin player : Bool) (pathname : String) : Type 0 where
  pub not_root : pathname ≢ "/"
  pub admin_only : has_prefix admin_prefixes pathname ≡ true → admin ≡ true
  pub player_only : has_prefix player_prefixes pathname ≡ true → player ≡ true
  pub no_login : pathname ≡ "/login" → admin ≡ false
  pub no_player_login : pathname ≡ "/auth/player-login" → player ≡ false

route-next : (a p : Bool) (pathname : String) → route a p pathname ≡ next → MayPass a p pathname
unfolding route
route-next a p pathname h =
    ground
      (arith, eq_iff pathname "/", eq_iff pathname "/login", eq_iff pathname "/auth/player-login")

next-route : (a p : Bool) (pathname : String) → MayPass a p pathname → route a p pathname ≡ next
unfolding route
next-route a p pathname h =
    ground
      (arith, eq_iff pathname "/", eq_iff pathname "/login", eq_iff pathname "/auth/player-login")

-- The path of the request that a browser makes after a redirect.
abbrev pub target : Answer → String → String
target (redirect path from) pathname = path
target next pathname = pathname

-- Where an answer can lead.
target-route :
    (a p : Bool) (pathname : String)
    → (route a p pathname ≡ next)
      ⊎ ((target (route a p pathname) pathname ≡ "/login") × (a ≡ false))
      ⊎ ((target (route a p pathname) pathname ≡ "/auth/player-login") × (p ≡ false))
      ⊎ ((target (route a p pathname) pathname ≡ "/dashboard") × (a ≡ true))
      ⊎ ((target (route a p pathname) pathname ≡ "/preferences") × (p ≡ true))
unfolding route
target-route a p pathname = ground arith

login_settles : (p : Bool) → route false p "/login" ≡ next
unfolding route has_prefix
login_settles true = refl
login_settles false = refl

player_login_settles : (a : Bool) → route a false "/auth/player-login" ≡ next
unfolding route has_prefix
player_login_settles true = refl
player_login_settles false = refl

dashboard_settles : (p : Bool) → route true p "/dashboard" ≡ next
unfolding route has_prefix
dashboard_settles true = refl
dashboard_settles false = refl

preferences_settles : (a : Bool) → route a true "/preferences" ≡ next
unfolding route has_prefix
preferences_settles true = refl
preferences_settles false = refl

route-settles :
    (a p : Bool) (pathname : String) → route a p (target (route a p pathname) pathname) ≡ next
route-settles a p pathname = elim (target-route a p pathname) [
  | inl e ↦ rw (e, e)
  | inr (inl (t, e)) ↦ rw t (rw e (login_settles p))
  | inr (inr (inl (t, e))) ↦ rw t (rw e (player_login_settles a))
  | inr (inr (inr (inl (t, e)))) ↦ rw t (rw e (dashboard_settles p))
  | inr (inr (inr (inr (t, e)))) ↦ rw t (rw e (preferences_settles a))
]

module _ (env : Env) (jose : Jose) (now : ℕ) (jar : Jar) (pathname : String) where
  -- The proxy lets a request through exactly if it is not for the root, an admin path comes with an
  -- admin's session, a player path with a player's, and a login page without the session that it
  -- gives; a path counts as an admin's or a player's by the listed prefixes alone.
  pub proxy-next_iff :
      (proxy env jose now jar pathname ≡ next)
      ↔ MayPass (admin_authed env jose now jar) (player_authed env jose now jar) pathname
  unfolding proxy
  proxy-next_iff = (route-next _ _ pathname, next-route _ _ pathname)

  -- A redirect of the proxy leads to a page that the proxy lets the same browser see: no redirect is
  -- followed by another.
  pub proxy-settles :
      proxy env jose now jar (target (proxy env jose now jar pathname) pathname) ≡ next
  unfolding proxy
  proxy-settles = route-settles _ _ pathname
