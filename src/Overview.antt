-- ===== src/Overview.antt =====
-- The two pages of the portal that are rendered from the relay's answers at each request:
-- portal/app/(admin)/dashboard/page.tsx, with the cards of portal/components/stat-card.tsx, and
-- portal/app/(admin)/sessions/page.tsx. What a page is rendered to is `ApiResult`: it rejects when a
-- promise that it waits for does.
pub mod Laws
use audio_server.Common.{
  Bool, List, Option, String, [], false, if◌then◌else◌, length, map, none, not, some, template, ℕ,
  ◌∷◌,
}
use audio_server.Http.{Env, FetchRequest, Fetched, is_ok, or_else, rejected, replied, truthy}
use audio_server.Http.Cookies.{Jar}
use audio_server.Actions.{relay_url}
use audio_server.Relay.{json_error, relay_fetch}
use audio_server.Api.{
  ApiResult, DashboardStats, Fetch, PlayerSession, get_request, json_error, rejects, resolved,
}
use audio_server.Media.Format.{Age, format_session_age}

pub data CardStatus : Type 0 where
  ok error warn stub : CardStatus

-- `StatCardProps`; a status that is left out is `stub`.
pub record StatCard : Type 0 where
  pub title : String
  pub value : String
  pub description : Option String
  pub status : Option CardStatus

abbrev pub status_class : CardStatus → String
status_class ok = "text-emerald-400"
status_class error = "text-red-400"
status_class warn = "text-amber-400"
status_class stub = "text-zinc-500"

-- The card as it is shown: the title, the value with its class, and a description that is not empty.
pub record Card : Type 0 where
  pub title : String
  pub value_class : String
  pub value : String
  pub description : Option String

unfoldable pub stat_card : StatCard → Card
stat_card props = record {
  title = props.title;
  value_class =
      template ("mt-1 text-2xl font-semibold " ∷ status_class (or_else props.status stub) ∷ []);
  value = props.value;
  description = truthy props.description;
}

-- What both fetches of a list or of counts do with the relay's answer: `return res.json()` is not
-- awaited in the `try` block, so its rejection is the promise's.
abbrev pub or_null : {J : Type 0} → Fetched J → ApiResult (Option J)
or_null rejected = resolved none
or_null (replied res) =
    if not (is_ok res)
    then resolved none
    else elim res.body [ none ↦ rejects json_error | some j ↦ resolved (some j) ]

-- A request without options, `init` but for those of the cache.
abbrev pub plain : FetchRequest (Unit {0})
plain = record { url = ""; method = "GET"; headers = []; body = none }

module _ {V : Type 0} (env : Env) where
  unfoldable pub fetch_health : Fetch V (Unit {0}) → Bool
  fetch_health fetch = elim (fetch (get_request (template (relay_url env ∷ "/health" ∷ [])))) [
    | rejected ↦ false
    | replied res ↦ is_ok res
  ]

  unfoldable pub fetch_stats :
      (FetchRequest (Unit {0}) → Fetched (DashboardStats V))
      → Jar
      → ApiResult (Option (DashboardStats V))
  fetch_stats fetch jar = or_null (fetch (relay_fetch env jar "api/stats" plain))

  unfoldable pub fetch_sessions :
      (FetchRequest (Unit {0}) → Fetched (List (PlayerSession V)))
      → Jar
      → ApiResult (Option (List (PlayerSession V)))
  fetch_sessions fetch jar = or_null (fetch (relay_fetch env jar "api/sessions" plain))

-- The cards of the dashboard; `show` is `String` of a number.
abbrev pub health_card : Env → Bool → StatCard
health_card env online = record {
  title = "Relay Health";
  value = if online then "Online" else "Unreachable";
  description = some (relay_url env);
  status = some (if online then ok else error);
}

abbrev pub stats_card : {V : Type 0} → (V → String) → Option (DashboardStats V) → StatCard
stats_card show none = record {
  title = "Active Sessions";
  value = "—";
  description = some "Could not reach relay";
  status = some error;
}
stats_card show (some stats) = record {
  title = "Active Sessions";
  value = show stats.active_sessions;
  description = some "Players connected to proxy";
  status = some ok;
}

abbrev pub nodes_card : StatCard
nodes_card = record {
  title = "Relay Nodes";
  value = "—";
  description = some "Per-node heartbeat not yet tracked (Phase 3)";
  status = some stub;
}

-- A row of the table of sessions.
pub record Row : Type 0 where
  pub username : String
  pub player_uuid : String
  pub server : String
  pub online_since : Age

pub data SessionsView : Type 0 where
  error_card : (message : String) → SessionsView
  empty_state : SessionsView
  table : (online : ℕ) → List Row → SessionsView

abbrev pub row : ℕ → PlayerSession ℕ → Row
row now s = record {
  username = s.username;
  player_uuid = s.player_uuid;
  server = or_else (truthy (some s.server)) "–";
  online_since = format_session_age now s.joined_at;
}

abbrev pub sessions_view : ℕ → Option (List (PlayerSession ℕ)) → SessionsView
sessions_view now none = error_card "Could not reach relay. Is the backend running?"
sessions_view now (some []) = empty_state
sessions_view now (some (s ∷ sessions)) =
    table (length (s ∷ sessions)) (map (row now) (s ∷ sessions))

abbrev pub rendered : {A : Type 0} {B : Type 0} → (A → B) → ApiResult A → ApiResult B
rendered f (resolved a) = resolved (f a)
rendered f (rejects e) = rejects e

module _ (env : Env) (jar : Jar) where
  unfoldable pub dashboard_page :
      {V : Type 0}
      → (V → String)
      → Fetch V (Unit {0})
      → (FetchRequest (Unit {0}) → Fetched (DashboardStats V))
      → ApiResult (List Card)
  dashboard_page show fetch fetch' =
      rendered
        (λ stats.
          map stat_card
            (health_card env (fetch_health env fetch) ∷ stats_card show stats ∷ nodes_card ∷ []))
        (fetch_stats env fetch' jar)

  unfoldable pub sessions_page :
      ℕ → (FetchRequest (Unit {0}) → Fetched (List (PlayerSession ℕ))) → ApiResult SessionsView
  sessions_page now fetch = rendered (sessions_view now) (fetch_sessions env fetch jar)
