-- ===== src/Actions/Laws.antt =====
-- What the server actions promise.
use audio_server.Auth.Laws.{sign-ne-empty, verify-sign_admin_token}
use audio_server.Layout.{player_layout, player_layout_iff, shown}
use audio_server.Proxy.Sessions.{
  admin_authed-delete, admin_authed-set, authed_iff, dashboard_iff, player_authed-delete_admin,
}
use audio_server.Common.{
  Bool-cases, Option-cases, [], ◌∷◌, is_text, template, none, str_eq, ◌⊎◌, String, arith, eq_iff,
  false, inl, inr, is_text_iff, refl, some, sym, true, ℕ, ◌+◌, ◌<◌, ◌↔◌, ◌∙◌, ◌≡◌, ◌≢◌,
}
use audio_server.Http.{Env, FetchRequest, Fetched, Reply, is_ok, rejected, replied, truthy}
use audio_server.Http.Cookies
use audio_server.Http.Cookies.{Jar, set}
use audio_server.Auth.{IsSound, Jose, admin_cookie, sign_admin_token, verify_admin_token}
use audio_server.Actions.{
  FormValue, JsonTexts, absent, file, given, is_secret, login_reply, login_request,
  login_with_credentials, relay_url, login_with_secret, logout, redirected, text,
}
use audio_server.Proxy.{admin_authed, next, player_authed, proxy}

is_secret_iff :
    (env : Env) (form : FormValue)
    → (is_secret env form ≡ true) ↔ ((s : String) × (form ≡ text s) × (env.admin_secret ≡ some s))
is_secret_iff env (text s) = (
  λ h. (s, refl, (is_text_iff env.admin_secret s).0 h),
  λ (t, same, set). (is_text_iff env.admin_secret s).1 (ground arith),
)
is_secret_iff env file = ground arith
is_secret_iff env absent = ground arith

module _ (env : Env) (jose : Jose) (now : ℕ) (jar : Jar) where
  -- The secret login opens a session exactly if `ADMIN_SECRET` is set and the form's field is that
  -- text, and it changes no cookie otherwise.
  login_with_secret_iff :
      (form : FormValue)
      → (((login_with_secret env jose now form jar).0 ≡ redirected "/dashboard")
          ↔ ((s : String) × (form ≡ text s) × (env.admin_secret ≡ some s)))
        × ((login_with_secret env jose now form jar).0 ≢ redirected "/dashboard"
            → (login_with_secret env jose now form jar).1 ≡ jar)
  unfolding login_with_secret
  login_with_secret_iff form = elim (Bool-cases (is_secret env form)) [
    | inl e ↦ (rw e ((λ _. (is_secret_iff env form).0 e), (λ _. refl)), rw e (λ h. absurd (h refl)))
    | inr e ↦ ((rw e (λ h. cc), (λ w. cc (e, (is_secret_iff env form).1 w))), rw e (λ _. refl))
  ]

  secret_opens :
      (s : String)
      → IsSound jose
      → env.admin_secret ≡ some s
      → (t : ℕ)
      → admin_authed env jose t (login_with_secret env jose now (text s) jar).1
        ≡ verify_admin_token env jose t (sign_admin_token env jose now)
  unfolding login_with_secret
  secret_opens s sound e t =
      let same = (is_text_iff env.admin_secret s).1 e in
      rw (same, admin_authed-set)
        (authed_iff (verify_admin_token env jose t) _ (sign-ne-empty env jose sound now))

  -- After a login with the secret the proxy shows the dashboard for exactly twelve hours.
  pub secret_session :
      (s : String)
      → IsSound jose
      → env.admin_secret ≡ some s
      → (t : ℕ)
      → (proxy env jose t (login_with_secret env jose now (text s) jar).1 "/dashboard" ≡ next)
        ↔ (t < now + 43200)
  secret_session s sound e t =
      (λ h. verified.0 (sym opened ∙ shown.0 h), λ h. shown.1 (opened ∙ verified.1 h))
    where
      shown :
          (proxy env jose t (login_with_secret env jose now (text s) jar).1 "/dashboard" ≡ next)
          ↔ (admin_authed env jose t (login_with_secret env jose now (text s) jar).1 ≡ true)
      shown = dashboard_iff env jose t (login_with_secret env jose now (text s) jar).1

      verified :
          (verify_admin_token env jose t (sign_admin_token env jose now) ≡ true) ↔ (t < now + 43200)
      verified = (verify-sign_admin_token env jose sound now t).0

      opened :
          admin_authed env jose t (login_with_secret env jose now (text s) jar).1
          ≡ verify_admin_token env jose t (sign_admin_token env jose now)
      opened = secret_opens s sound e t

-- What the relay has to answer for a login with a name and a password to succeed.
pub record IsAccepted (env : Env) (fetch : FetchRequest JsonTexts → Fetched String)
    (u p jwt : String) : Type 0 where
  pub name_given : u ≢ ""
  pub password_given : p ≢ ""
  pub reply : Reply String
  pub replied_so :
      fetch (record {
        url = template (relay_url env ∷ "/api/auth/login" ∷ []);
        method = "POST";
        headers = ("Content-Type", "application/json") ∷ [];
        body = some (("username", u) ∷ ("password", p) ∷ []);
      })
      ≡ replied reply
  pub ok : is_ok reply ≡ true
  pub read : reply.body ≡ some jwt

-- The form's fields are a name and a password for which the relay gives out a token.
abbrev pub IsLogin :
    Env → (FetchRequest JsonTexts → Fetched String) → FormValue → FormValue → String → Type 0
IsLogin env fetch username password jwt =
    (u p : String) × (username ≡ text u) × (password ≡ text p) × IsAccepted env fetch u p jwt

given-cases :
    (f : FormValue)
    → (given f ≡ none) ⊎ ((s : String) × (f ≡ text s) × (s ≢ "") × (given f ≡ some s))
given-cases (text s) = elim (Bool-cases (str_eq s "")) [
  | inl e ↦ inl (rw (e, given, truthy) refl)
  | inr e ↦ inr (s, refl, ground (arith, eq_iff s ""), rw (e, given, truthy) refl)
]
given-cases file = inl refl
given-cases absent = inl refl

module _ (env : Env) (fetch : FetchRequest JsonTexts → Fetched String) (jar : Jar) where
  ok-or-not :
      (r : Reply String)
      → (login_reply env (replied r) jar).0 ≡ redirected "/dashboard"
      → (is_ok r ≡ true) × ((jwt : String) × (r.body ≡ some jwt))
  unfolding login_reply
  ok-or-not r h = elim (Bool-cases (is_ok r)) [
    | inl ok ↦ elim (Option-cases r.body) [
      | inr read ↦ (ok, read)
      | inl lacks ↦ absurd (ground arith)
    ]
    | inr bad ↦ absurd (ground arith)
  ]

  reply-IsAccepted :
      (u p : String) (r : Fetched String)
      → u ≢ ""
      → p ≢ ""
      → fetch (login_request env u p) ≡ r
      → (login_reply env r jar).0 ≡ redirected "/dashboard"
      → (jwt : String) × IsAccepted env fetch u p jwt
  unfolding login_reply
  reply-IsAccepted u p rejected nu np e h = cc
  reply-IsAccepted u p (replied r) nu np e h =
      let (ok, (jwt, read)) = ok-or-not r h in
      (
        jwt,
        record {
          name_given = nu;
          password_given = np;
          reply = r;
          replied_so = e;
          ok = ok;
          read = read;
        },
      )

  -- A login with a name and a password ends at the dashboard exactly if both fields are texts that
  -- are not empty and the relay answers the request with a status from 200 to 299 and a token. Then
  -- the only cookie that it sets is the admin's, to that token, for the path `/`, kept for twelve
  -- hours, out of reach of scripts and of other sites, and in production for secure connections only;
  -- otherwise it changes no cookie.
  pub login_with_credentials_iff :
      (username password : FormValue)
      → let done = login_with_credentials env fetch username password jar in
        (done.0 ≡ redirected "/dashboard"
          → (jwt : String) × IsLogin env fetch username password jwt)
        × ((jwt : String)
            → IsLogin env fetch username password jwt
            → done ≡ (
              redirected "/dashboard",
              Cookies.set admin_cookie
                  (record {
                    value = jwt;
                    options = record {
                      http_only = true;
                      secure = is_text env.node_env "production";
                      same_site = "strict";
                      max_age = 43200;
                      path = "/";
                    };
                  })
                  jar,
            ))
        × (done.0 ≢ redirected "/dashboard" → done.1 ≡ jar)
  unfolding login_with_credentials
  login_with_credentials_iff username password = (
    λ h. elim (given-cases username) [
      | inl lacks ↦ absurd (ground arith)
      | inr (u, a, nu, gu) ↦ elim (given-cases password) [
        | inl lacks ↦ absurd (ground arith)
        | inr (p, b, np, gp) ↦
            let (jwt, good) = reply-IsAccepted u p _ nu np refl (ground arith) in
            (jwt, (u, p, a, b, good))
      ]
    ],
    λ jwt (u, p, a, b, h). rw (a, b) (ground (arith, eq_iff u "", eq_iff p "")),
    λ h. ground arith,
  )

module _ (env : Env) (jose : Jose) (now : ℕ) (jar : Jar) where
  -- Signing out ends the admin's session and no other: for a player, whose shell has the same button,
  -- nothing changes, so the player's pages are shown as before.
  pub logout_keeps_player :
      (admin_authed env jose now (logout jar).1 ≡ false)
      × (player_authed env jose now (logout jar).1 ≡ player_authed env jose now jar)
      × (player_layout env jose now jar ≡ shown → player_layout env jose now (logout jar).1 ≡ shown)
  unfolding logout
  logout_keeps_player = (
    admin_authed-delete env jose now jar,
    player_authed-delete_admin env jose now jar,
    λ h.
        (player_layout_iff env jose now _).1
          (player_authed-delete_admin env jose now jar ∙ (player_layout_iff env jose now jar).0 h),
  )
