-- ===== src/EndToEnd/Spent.antt =====
-- The token of a link, in the store that backend/src/auth reads: once it is gone it stays gone, whatever
-- the relay is asked.
use mathlib.Core.Path.{subst}
use audio_server.Common.{
  Bool-cases, List, Option, String, [], eq_iff, inl, inr, none, option_either, refl, some, ◌⊎◌,
  str_eq, ℕ, ◌∙◌, ◌∷◌, ◌≡◌,
}
use audio_server.Http.{FetchRequest, Reply, truthy}
use audio_server.Actions.{JsonTexts}
use audio_server.Backend.{Claims}
use audio_server.Backend.Tokens.{
  admin_login, issue, key_of, listening, portal, ticket, validate_admin, validate_ott,
  validate_player, validate_ticket,
}
use audio_server.Backend.Tokens.Laws.{portal-ne-ticket}
use audio_server.Backend.Jwt.{Checked, accepted, admin_extractor, refused}
use audio_server.Backend.Session.{Upgrade, ws_handler}
use audio_server.Backend.AdminSession.{AdminUpgrade, admin_ws_handler}
use audio_server.Backend.Handlers.{Node, admin_ott_login, issue_ticket, player_callback}
use audio_server.EndToEnd.{
  Access, Route, accessed, listened, requested, ticket_asked, watched, player_route, admin_route,
  login_route, no_route, route_of, handle, exchange, serve, serve_all, token_of,
}

Checked-cases :
    (c : Checked)
    → ((status : ℕ) × (message : String) × (c ≡ refused status message))
      ⊎ ((claims : Claims) × (c ≡ accepted claims))
Checked-cases (refused status message) = inl (status, message, refl)
Checked-cases (accepted claims) = inr (claims, refl)

module _ (node : Node) where
  open node use {crates, redis, db, config}
  open redis use {Store, live, get_del}

  abbrev pub IsGone : String → Store → Type 0
  IsGone key s = (t : ℕ) → live t key s ≡ none

  same-IsGone :
      (now : ℕ) (key : String) (s : Store) → IsGone key s → IsGone key (get_del now key s).1
  same-IsGone now key s gone t = elim (redis.get_del-lost now key s t) [
    | inl kept ↦ kept ∙ gone t
    | inr lost ↦ lost
  ]

  get_del-IsGone :
      (now : ℕ) (key k : String) (s : Store) → IsGone key s → IsGone key (get_del now k s).1
  get_del-IsGone now key k s gone = elim (Bool-cases (str_eq key k)) [
    | inl same ↦
        subst (λ k'. IsGone key (get_del now k' s).1) ((eq_iff key k).0 same)
          (same-IsGone now key s gone)
    | inr other ↦
        λ t. redis.get_del-others now k key s t (λ e. cc (other, (eq_iff key k).1 e)) ∙ gone t
  ]

  player_callback-IsGone :
      (key : String) (now : ℕ) (token : String) (s : Store)
      → IsGone key s
      → IsGone key (player_callback node now token s).1
  unfolding player_callback validate_player
  player_callback-IsGone key now token s gone =
      option_either (λ (out : Reply String × Store). IsGone key out.1) db (λ _. gone)
        (λ d _. get_del-IsGone now key (key_of portal token) s gone)

  admin_ott_login-IsGone :
      (key : String) (now : ℕ) (token : String) (s : Store)
      → IsGone key s
      → IsGone key (admin_ott_login node now token s).1
  unfolding admin_ott_login validate_admin
  admin_ott_login-IsGone key now token s gone =
      get_del-IsGone now key (key_of admin_login token) s gone

  exchange-IsGone :
      (key : String) (token : Option String) (handler : String → Reply String × Store) (s : Store)
      → ((t : String) → IsGone key (handler t).1)
      → IsGone key s
      → IsGone key (exchange node token handler s).1
  exchange-IsGone key none handler s h gone = gone
  exchange-IsGone key (some token) handler s h gone = h token

  handle-IsGone :
      (route : Route) (key : String) (now : ℕ) (body : Option JsonTexts) (s : Store)
      → IsGone key s
      → IsGone key (handle node route now body s).1
  unfolding handle
  handle-IsGone player_route key now body s gone =
      exchange-IsGone key (token_of body) (λ token. player_callback node now token s) s
        (λ t. player_callback-IsGone key now t s gone) gone
  handle-IsGone admin_route key now body s gone =
      exchange-IsGone key (token_of body) (λ token. admin_ott_login node now token s) s
        (λ t. admin_ott_login-IsGone key now t s gone) gone
  handle-IsGone login_route key now body s gone = gone
  handle-IsGone (no_route status) key now body s gone = gone

  serve-IsGone :
      (base key : String) (now : ℕ) (s : Store) (req : FetchRequest JsonTexts)
      → IsGone key s
      → IsGone key (serve node base now s req).1
  unfolding serve
  serve-IsGone base key now s req gone = handle-IsGone (route_of base req) key now req.body s gone

  issue_ticket-IsGone :
      (link : String) (now : ℕ) (header : Option String) (id : String) (s : Store)
      → IsGone (key_of portal link) s
      → IsGone (key_of portal link) (issue_ticket node now header id s).1
  unfolding issue_ticket issue
  issue_ticket-IsGone link now header id s gone =
      elim (Checked-cases (admin_extractor crates config now header)) [
        | inl (status, message, e) ↦ rw (e, issue_ticket) gone
        | inr (claims, e) ↦
            rw (e, issue_ticket)
              (λ t.
                redis.set_ex-others now (key_of ticket id) "" (key_of portal link) 15 s t
                  (portal-ne-ticket link id)
                ∙ gone t)
      ]

  ws_handler-IsGone :
      (key : String) (now : ℕ) (token : Option String) (s : Store)
      → IsGone key s
      → IsGone key (ws_handler crates redis config now token s).1
  unfolding ws_handler validate_ott
  ws_handler-IsGone key now token s gone =
      option_either (λ (out : Upgrade × Store). IsGone key out.1) (truthy token) (λ _. gone)
        (λ t _. get_del-IsGone now key (key_of listening t) s gone)

  admin_ws_handler-IsGone :
      (key : String) (now : ℕ) (id : Option String) (s : Store)
      → IsGone key s
      → IsGone key (admin_ws_handler redis now id s).1
  unfolding admin_ws_handler validate_ticket
  admin_ws_handler-IsGone key now id s gone =
      option_either (λ (out : AdminUpgrade × Store). IsGone key out.1) (truthy id) (λ _. gone)
        (λ t _. get_del-IsGone now key (key_of ticket t) s gone)

  accessed-IsGone :
      (access : Access) (base link : String) (now : ℕ) (s : Store)
      → IsGone (key_of portal link) s
      → IsGone (key_of portal link) (accessed node base now access s)
  unfolding accessed
  accessed-IsGone (requested req) base link now s gone =
      serve-IsGone base (key_of portal link) now s req gone
  accessed-IsGone (ticket_asked header id) base link now s gone =
      issue_ticket-IsGone link now header id s gone
  accessed-IsGone (listened token) base link now s gone =
      ws_handler-IsGone (key_of portal link) now token s gone
  accessed-IsGone (watched id) base link now s gone =
      admin_ws_handler-IsGone (key_of portal link) now id s gone

  pub serve_all-IsGone :
      (base link : String) (accesses : List (ℕ × Access)) (s : Store)
      → IsGone (key_of portal link) s
      → IsGone (key_of portal link) (serve_all node base accesses s)
  unfolding serve_all
  serve_all-IsGone base link [] s gone = gone
  serve_all-IsGone base link ((now, access) ∷ rest) s gone =
      serve_all-IsGone base link rest _ (accessed-IsGone access base link now s gone)
