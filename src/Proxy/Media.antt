-- ===== src/Proxy/Media.antt =====
-- The media page of the admin portal under portal/proxy.ts: `/media` is no admin prefix.
use audio_server.Common.{
  Bool, Bool-cases, String, eq_iff, false, inl, inr, refl, starts_apart, starts_with, str_eq, true,
  ℕ, ◌≡◌,
}
use audio_server.Http.{Env}
use audio_server.Http.Cookies.{Jar}
use audio_server.Auth.{Jose}
use audio_server.Proxy.{admin_prefixes, has_prefix, next, player_prefixes, proxy, route}

module _ (pathname : String) (h : starts_with pathname "/media" ≡ true) where
  no_admin_prefix : has_prefix admin_prefixes pathname ≡ false
  unfolding has_prefix
  no_admin_prefix = rw (
    starts_apart pathname "/media" "/dashboard" refl h,
    starts_apart pathname "/media" "/sessions" refl h,
    starts_apart pathname "/media" "/regions" refl h,
    starts_apart pathname "/media" "/hardware" refl h,
    starts_apart pathname "/media" "/settings" refl h,
    starts_apart pathname "/media" "/events" refl h,
  )

  no_player_prefix : has_prefix player_prefixes pathname ≡ false
  unfolding has_prefix
  no_player_prefix = rw (starts_apart pathname "/media" "/preferences" refl h)

  is_other : (s : String) → starts_with s "/media" ≡ false → str_eq pathname s ≡ false
  is_other s apart = elim (Bool-cases (str_eq pathname s)) [
    | inl e ↦ let begins = rw ((eq_iff pathname s).0 e) at h in cc (begins, apart)
    | inr e ↦ e
  ]

  route_media : (a p : Bool) → route a p pathname ≡ next
  unfolding route
  route_media a p = rw (
    is_other "/" refl,
    no_admin_prefix,
    no_player_prefix,
    is_other "/login" refl,
    is_other "/auth/player-login" refl,
  )

module _ (env : Env) (jose : Jose) where
  -- Every path that begins by `/media` goes through the proxy whatever the cookies are, so the media
  -- page of the admin portal is shown with no admin session.
  pub media_unprotected :
      (now : ℕ) (jar : Jar) (pathname : String)
      → starts_with pathname "/media" ≡ true
      → proxy env jose now jar pathname ≡ next
  unfolding proxy
  media_unprotected now jar pathname h = route_media pathname h _ _
