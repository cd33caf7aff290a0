-- ===== src/Tests/Portal.antt =====
-- The pages that are rendered on the server, and the links beside them, at inputs.
use audio_server.Common.{List, String, [], none, refl, some, true, ℕ, ◌∷◌, ◌↔◌, ◌≡◌}
use audio_server.Http.{FetchRequest, Fetched, rejected, replied}
use audio_server.Http.Cookies
use audio_server.Http.Cookies.{Jar}
use audio_server.Auth.{Jose, admin_cookie, str, verify_admin_token}
use audio_server.Actions.{session}
use audio_server.Api.{ApiError, DashboardStats, PlayerSession, json_error, rejects, resolved}
use audio_server.Proxy.{admin_authed, has_prefix, player_authed, proxy, route}
use audio_server.Relay.{bearer, header, relay_fetch}
use audio_server.Nav.{is_active, nav}
use audio_server.Nav.Laws.{lit}
use audio_server.Overview.{dashboard_page, fetch_sessions, plain, sessions_page, table}
use audio_server.Overview.Laws.{IsUnreadable, pages_fail_iff, relay_fetch_authorised}
use audio_server.Media.Format.{format_session_age, minutes, session_age}
use audio_server.Tests.Sample.{env}

-- Every token is an admin's.
abbrev admin_jose : Jose
admin_jose = record {
  sign = λ c key. "t";
  verify = λ now token key. some (record { sub = str "portal-admin"; role = str "admin" });
}

abbrev admin : Jar
admin = (admin_cookie, session env "t") ∷ []

abbrev online : PlayerSession ℕ
online = record { player_uuid = "uuid-1"; username = "ann"; server = ""; joined_at = 100 }

abbrev answers : FetchRequest (Unit {0}) → Fetched (List (PlayerSession ℕ))
answers req = replied (record { status = 200; content_type = none; body = some (online ∷ []) })

abbrev unreadable : FetchRequest (Unit {0}) → Fetched (DashboardStats ℕ)
unreadable req = replied (record { status = 200; content_type = none; body = none })

sessions_test :
    sessions_page env admin 280000 answers
    ≡ resolved (
        table 1 (
          record {
            username = "ann";
            player_uuid = "uuid-1";
            server = "–";
            online_since = minutes 3;
          }
          ∷ []))
unfolding sessions_page fetch_sessions relay_fetch format_session_age session_age
sessions_test = refl

pages_fail_iff_example :
    ((e : ApiError)
      → (dashboard_page env admin (λ (n : ℕ). "n") (λ req. rejected) unreadable ≡ rejects e)
        ↔ ((e ≡ json_error) × IsUnreadable (unreadable (relay_fetch env admin "api/stats" plain))))
    × ((e : ApiError)
        → (sessions_page env admin 280000 answers ≡ rejects e) ↔ (
            (e ≡ json_error) × IsUnreadable (answers (relay_fetch env admin "api/sessions" plain))))
pages_fail_iff_example =
    pages_fail_iff env admin (λ (n : ℕ). "n") 280000 (λ req. rejected) unreadable answers

relay_fetch_authorised_example :
    (token : String) × (header "Authorization" (relay_fetch env admin "api/stats" plain).headers
      ≡ some (bearer token))
    × (verify_admin_token env admin_jose 0 token ≡ true)
unfolding proxy route has_prefix admin_authed player_authed verify_admin_token Cookies.get
relay_fetch_authorised_example =
    relay_fetch_authorised env admin admin_jose 0 "/dashboard" "api/stats" plain refl refl refl

nav_test : lit (nav "/sessions") ≡ "/sessions" ∷ []
unfolding nav is_active
nav_test = refl
