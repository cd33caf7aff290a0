-- ===== src/Tests/Game.antt =====
-- From the game to the pages, at inputs.
use audio_server.Common.{
  List, String, [], arith, eq_iff, false, Option, inl, inr, str_eq, if◌then◌else◌, ◌==◌, ◌⊎◌, none,
  refl, some, true, ℕ, ◌∷◌, ◌↔◌, ◌≡◌, ◌<◌, ◌+◌,
}
use audio_server.Actions.{relay_url}
use audio_server.Callback.{auth_error, exchange_request, page, player_callback}
use audio_server.Auth.{player_cookie}
use audio_server.Http.Cookies.{aged}
use audio_server.Proxy.{next, proxy}
use audio_server.Lite.{Client, Clip, heard, mount, run}
use audio_server.Lite
use audio_server.Backend.Jwt.Laws.{IsTaken, for_player, session_accepted}
use audio_server.Backend.{got}
use audio_server.Lite.Asked.{lossy}
use audio_server.Backend.Session.{
  Object, get, remove, session_loop, translate_event, turn, ws_session,
}
use audio_server.Backend.Tokens.{key_of, portal, split_once}
use audio_server.EndToEnd.{fetch_at, listened, requested, serve_all}
use audio_server.EndToEnd.Links.{link_opens_once}
use audio_server.EndToEnd.Links.Exchange.{IsStored}
use audio_server.EndToEnd.Audio.{arrivals, asked, legible, heard_published, socket_part}
use audio_server.Plugin.{GameEvent, audio_play, fields, player_connect, to_json}
use audio_server.Tests.Sample.{env}
use audio_server.Tests.Listen.{speaker}
use audio_server.Tests.World.{crates, jose, jose-Agrees, jose-IsSound, node, Entry, find}

abbrev store : List Entry
store = record { key = "audio:portal:token:ott-1"; value = "uuid-1:ann"; over = 300 } ∷ []

session_accepted_example : IsTaken crates (node.config) env jose "x" 200
session_accepted_example =
    session_accepted crates node.config env jose "x" 200 jose-Agrees jose-IsSound refl
      (for_player 100 "uuid-1" "x" refl)

store-IsStored : IsStored node 100 "ott-1" store "uuid-1" "ann"
unfolding find split_once
store-IsStored = record {
  value = "uuid-1:ann";
  reached = refl;
  has_name = refl;
  d = record { upsert_player = λ uuid username. got tt; find_admin = λ username. got none };
  has_db = refl;
  recorded = refl;
}

abbrev key : String
key = key_of portal "ott-1"

link_opens_once_example :
    let s' =
      serve_all node
        (relay_url env)
        ((100, requested (exchange_request env "/api/auth/player-callback" "ott-1"))
          ∷ (150, listened (some "ott-1"))
          ∷ [])
        store in
    let visit = player_callback env (fetch_at node env 100 store) (some "ott-1") [] in
    (visit.0 ≡ page "/preferences")
    × ((d : ℕ)
        → (proxy env jose (100 + d) (aged player_cookie d visit.1) "/preferences" ≡ next)
          ↔ ((d < 3600) × (d < 43200)))
    × (player_callback env (fetch_at node env 200 s') (some "ott-1") []
        ≡ (auth_error "invalid-token", []))
link_opens_once_example =
    link_opens_once node env jose [] 100 "ott-1" store "uuid-1" "ann" "x" jose-Agrees refl
      (ground (arith, eq_iff "ott-1" "")) store-IsStored refl ((150, listened (some "ott-1")) ∷ [])
      200 _ [] refl

-- A volume is counted in thousandths here, and its text has two digits after the point.
abbrev fixed : ℕ → String
fixed v = if v == 333 then "0.33" else "0.50"

abbrev as_read : ℕ → ℕ
as_read v = if v == 333 then 330 else 500

abbrev loud : GameEvent ℕ
loud = audio_play "uuid-1" "a.ogg" 333 true

abbrev other : GameEvent ℕ
other = audio_play "uuid-2" "b.ogg" 500 false

abbrev quoted : GameEvent ℕ
quoted = audio_play "uuid-1" "c\".ogg" 500 false

abbrev events : List (GameEvent ℕ)
events = player_connect "uuid-1" "ann" ∷ loud ∷ other ∷ quoted ∷ []

-- What is made of the four texts.
abbrev parse : String → Option (Object ℕ)
parse s =
    if str_eq s "{\"event\":\"player_connect\",\"player_id\":\"uuid-1\",\"username\":\"ann\"}"
    then some (fields as_read (player_connect "uuid-1" "ann"))
    else if str_eq s
        "{\"event\":\"audio_play\",\"player_id\":\"uuid-1\",\"src\":\"a.ogg\",\"volume\":0.33,\"loop\":true}"
    then some (fields as_read loud)
    else if str_eq s
        "{\"event\":\"audio_play\",\"player_id\":\"uuid-2\",\"src\":\"b.ogg\",\"volume\":0.50,\"loop\":false}"
    then some (fields as_read other)
    else none

abbrev page_events : List (Lite.Event ℕ)
page_events =
    Lite.message (Lite.auth_success "x" "uuid-1")
    ∷ Lite.clicked true
    ∷ Lite.resumed
    ∷ Lite.message (Lite.audio_play "a.ogg" 330 true)
    ∷ []

heard_published_example :
    (heard speaker (run speaker page_events (mount (λ s. s) "https:" "audio.example" (some "ott")))
      ≡ asked "uuid-1" (legible fixed as_read parse events) none)
    ⊎ ((heard speaker
            (run speaker page_events (mount (λ s. s) "https:" "audio.example" (some "ott")))
          ≡ none)
        × (lossy page_events false none false ≡ true))
unfolding run Lite.step mount Lite.enable_audio Lite.on_message Lite.reconcile socket_part arrivals
    ws_session get session_loop turn translate_event to_json fields remove
heard_published_example =
    heard_published fixed as_read parse speaker (λ s. s) "https:" "audio.example" (some "ott")
      "uuid-1" "x" events page_events (inl refl, (inl refl, (inl refl, (inr refl, tt))))
      (ground arith) refl refl refl
