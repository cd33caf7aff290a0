-- ===== src/EndToEnd.antt =====
-- The relay as the portal's handlers reach it: backend/src/router.rs for the paths that need no
-- session, with the requests of portal/app/auth and portal/app/actions.
pub mod Spent
pub mod Links
pub mod Audio
pub mod Feed
pub mod Tickets
pub mod Saves
use audio_server.Common.{
  List, Option, String, [], if◌then◌else◌, none, not, some, str_eq, template, ℕ, ◌∷◌,
}
use audio_server.Http.{Env, FetchRequest, Fetched, Reply, replied}
use audio_server.Actions.{JsonTexts, relay_url}
use audio_server.Backend.{Redis}
use audio_server.Backend.Session.{ws_handler}
use audio_server.Backend.AdminSession.{admin_ws_handler}
use audio_server.Backend.Handlers.{
  Node, issue_ticket, admin_ott_login, login, plain, player_callback,
}

-- A field of a JSON object of texts.
unfoldable pub field : String → JsonTexts → Option String
field name [] = none
field name ((k, v) ∷ fields) = if str_eq k name then some v else field name fields

abbrev pub token_of : Option JsonTexts → Option String
token_of none = none
token_of (some body) = field "token" body

-- The paths of router.rs that take a request of the portal without a session.
pub data Route : Type 0 where
  player_route admin_route login_route : Route
  no_route : (status : ℕ) → Route

abbrev pub posted : FetchRequest JsonTexts → Route → Route
posted req route = if str_eq req.method "POST" then route else no_route 405

unfoldable pub route_of : (base : String) → FetchRequest JsonTexts → Route
route_of base req =
    if str_eq req.url (template (base ∷ "/api/auth/player-callback" ∷ []))
    then posted req player_route
    else if str_eq req.url (template (base ∷ "/api/auth/admin-ott" ∷ []))
    then posted req admin_route
    else if str_eq req.url (template (base ∷ "/api/auth/login" ∷ []))
    then posted req login_route
    else no_route 404

pub data Access : Type 0 where
  requested : FetchRequest JsonTexts → Access
  ticket_asked : (header : Option String) (id : String) → Access
  listened : (token : Option String) → Access
  watched : (ticket : Option String) → Access

module _ (node : Node) where
  open node use {crates, redis, config}
  open redis use {Store}

  -- A body without the field that a handler's type has is refused by the framework.
  abbrev pub exchange :
      Option String → (String → Reply String × Store) → Store → Reply String × Store
  exchange none handler s = (plain 422, s)
  exchange (some token) handler s = handler token

  abbrev pub log_in : ℕ → Option JsonTexts → Reply String
  log_in now none = plain 422
  log_in now (some body) = elim (field "username" body) [
    | none ↦ plain 422
    | some username ↦ elim (field "password" body) [
      | none ↦ plain 422
      | some password ↦ login node now username password
    ]
  ]

  unfoldable pub handle : Route → ℕ → Option JsonTexts → Store → Reply String × Store
  handle player_route now body s =
      exchange (token_of body) (λ token. player_callback node now token s) s
  handle admin_route now body s =
      exchange (token_of body) (λ token. admin_ott_login node now token s) s
  handle login_route now body s = (log_in now body, s)
  handle (no_route status) now body s = (plain status, s)

  -- A request at the time `now` to the address `base` of the relay.
  unfoldable pub serve : (base : String) → ℕ → Store → FetchRequest JsonTexts → Reply String × Store
  serve base now s req = handle (route_of base req) now req.body s

  -- What `fetch` of the portal gives while the relay can be reached.
  abbrev pub fetch_at : Env → ℕ → Store → FetchRequest JsonTexts → Fetched String
  fetch_at env now s req = replied (serve (relay_url env) now s req).0

  -- What comes to the relay and reads or writes tokens in Redis: a request on the paths above, one for a
  -- ticket with its header `Authorization` and the identifier that is fresh then, and the two kinds of
  -- sockets.
  unfoldable pub accessed : (base : String) → ℕ → Access → Store → Store
  accessed base now (requested req) s = (serve base now s req).1
  accessed base now (ticket_asked header id) s = (issue_ticket node now header id s).1
  accessed base now (listened token) s = (ws_handler crates redis config now token s).1
  accessed base now (watched id) s = (admin_ws_handler redis now id s).1

  -- Accesses at their times, one after the other: each runs one command, so this is also their order
  -- when they come at the same time, or to several relays with one Redis.
  unfoldable pub serve_all : (base : String) → List (ℕ × Access) → Store → Store
  serve_all base [] s = s
  serve_all base ((now, access) ∷ rest) s = serve_all base rest (accessed base now access s)
