-- ===== src/Overview/Laws.antt =====
-- What the dashboard and the page of sessions promise.
use audio_server.Common.{
  Bool, Bool-cases, List, Option, Option-cases, String, [], arith, inl, inr, none, refl, some,
  str_eq, true, ℕ, ◌↔◌, ◌≡◌,
}
use audio_server.Http.{Fetched, Reply, is_ok, rejected, replied}
use audio_server.Api.{ApiError, ApiResult, json_error, rejects, resolved}
use audio_server.Http.{Env, FetchRequest}
use audio_server.Http.Cookies
use audio_server.Http.Cookies.{Jar}
use audio_server.Auth.{Jose, admin_cookie, verify_admin_token}
use audio_server.Proxy.{admin_authed, admin_prefixes, authed, has_prefix, next, proxy}
use audio_server.Proxy.Laws.{proxy-next_iff}
use audio_server.Relay.{bearer, header, relay_fetch, set_header}
use audio_server.Api.{DashboardStats, Fetch, PlayerSession}
use audio_server.Overview.{
  dashboard_page, fetch_sessions, fetch_stats, or_null, plain, rendered, sessions_page,
}

-- The relay's answer is one that a page takes for readable and that is not.
pub record IsUnreadable {J : Type 0} (r : Fetched J) : Type 0 where
  pub reply : Reply J
  pub came : r ≡ replied reply
  pub accepted : is_ok reply ≡ true
  pub unread : reply.body ≡ none

or_null-unreadable : {J : Type 0} (r : Fetched J) → IsUnreadable r → or_null r ≡ rejects json_error
or_null-unreadable r u = rw (u.came, u.accepted, u.unread) refl

or_null-rejects :
    {J : Type 0} (r : Fetched J) (e : ApiError)
    → or_null r ≡ rejects e
    → (e ≡ json_error) × IsUnreadable r
or_null-rejects rejected e h = absurd cc
or_null-rejects (replied res) e h = elim (Bool-cases (is_ok res)) [
  | inl accepted ↦ elim (Option-cases res.body) [
    | inl unread ↦
        (ground arith, record { reply = res; came = refl; accepted = accepted; unread = unread })
    | inr (j, read) ↦ absurd (ground arith)
  ]
  | inr refused ↦ absurd (ground arith)
]

rendered-rejects :
    {A B : Type 0} (f : A → B) (r : ApiResult A) (e : ApiError)
    → rendered f r ≡ rejects e
    → r ≡ rejects e
rendered-rejects f (resolved a) e h = absurd cc
rendered-rejects f (rejects e') e h = ground arith

rendered_rejects_iff :
    {B J : Type 0} (f : Option J → B) (r : Fetched J) (e : ApiError)
    → (rendered f (or_null r) ≡ rejects e) ↔ ((e ≡ json_error) × IsUnreadable r)
rendered_rejects_iff f r e = (
  λ h. or_null-rejects r e (rendered-rejects f (or_null r) e h),
  λ h. rw (or_null-unreadable r h.1, h.0) refl,
)

module _ (env : Env) (jar : Jar) where
  -- The two pages that are rendered on the server fail for exactly one reason: the dashboard if the
  -- relay's answer on the counts, the page of sessions if that on the sessions, has a status that is
  -- ok and a body that cannot be read. An answer that does not come, or has another status, and
  -- whatever becomes of the health check, are shown on the page.
  pub pages_fail_iff :
      {V : Type 0} (show : V → String) (now : ℕ) (health : Fetch V (Unit {0}))
      (stats : FetchRequest (Unit {0}) → Fetched (DashboardStats V))
      (sessions : FetchRequest (Unit {0}) → Fetched (List (PlayerSession ℕ)))
      → ((e : ApiError)
          → (dashboard_page env jar show health stats ≡ rejects e)
            ↔ ((e ≡ json_error) × IsUnreadable (stats (relay_fetch env jar "api/stats" plain))))
        × ((e : ApiError)
            → (sessions_page env jar now sessions ≡ rejects e) ↔ (
                (e ≡ json_error)
                × IsUnreadable (sessions (relay_fetch env jar "api/sessions" plain))))
  unfolding dashboard_page sessions_page fetch_stats fetch_sessions
  pages_fail_iff show now health stats sessions =
      (λ e. rendered_rejects_iff _ _ e, λ e. rendered_rejects_iff _ _ e)

  authed_token :
      (verify : String → Bool) (o : Option String)
      → authed verify o ≡ true
      → (token : String) × (o ≡ some token) × (verify token ≡ true)
  authed_token verify none h = cc
  authed_token verify (some t) h = elim (Bool-cases (str_eq t "")) [
    | inl e ↦ absurd (ground arith)
    | inr e ↦ (t, refl, ground arith)
  ]

  -- A page under an admin path that the proxy lets a browser see asks the relay with a token that
  -- verifies as an admin's at that time.
  pub relay_fetch_authorised :
      {B : Type 0} (jose : Jose) (now : ℕ) (pathname path : String) (init : FetchRequest B)
      → init.headers ≡ []
      → has_prefix admin_prefixes pathname ≡ true
      → proxy env jose now jar pathname ≡ next
      → (token : String) × (header "Authorization" (relay_fetch env jar path init).headers
          ≡ some (bearer token))
        × (verify_admin_token env jose now token ≡ true)
  unfolding relay_fetch header set_header admin_authed
  relay_fetch_authorised jose now pathname path init no_headers is_admin passes =
      let (token, is_token, verifies) =
        authed_token (verify_admin_token env jose now)
          (Cookies.value_of (Cookies.get admin_cookie jar))
          (((proxy-next_iff env jose now jar pathname).0 passes).admin_only is_admin) in
      (token, rw (no_headers, is_token) refl, verifies)
