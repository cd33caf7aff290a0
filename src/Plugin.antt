-- ===== src/Plugin.antt =====
-- What the plugins of the game publish on the channel `audio:events`: `toJson` of
-- plugin/common/src/main/java/dev/audioserver/event and the texts of
-- plugin/velocity/src/main/java/dev/audioserver/velocity/listener/PlayerEventListener.java.
use audio_server.Common.{Bool, String, [], if◌then◌else◌, template, ◌∷◌}
use audio_server.Backend.Session.{Object, bool, number, text}

-- `V` are the volumes: doubles.
pub data GameEvent (V : Type 0) : Type 0 where
  audio_play : (player_id src : String) (volume : V) (loop : Bool) → GameEvent V
  audio_stop : (player_id : String) → GameEvent V
  region_enter : (player_id region_id action : String) → GameEvent V
  player_connect : (player_id username : String) → GameEvent V
  server_switch : (player_id server : String) → GameEvent V
  player_disconnect : (player_id : String) → GameEvent V

-- The text that is published. `%s` puts a text between the quotes as it is; `fixed` is `%.2f`, which
-- depends on the locale.
unfoldable pub to_json : {V : Type 0} → (fixed : V → String) → GameEvent V → String
to_json fixed (audio_play player_id src volume loop) = template (
    "{\"event\":\"audio_play\",\"player_id\":\""
    ∷ player_id
    ∷ "\",\"src\":\""
    ∷ src
    ∷ "\",\"volume\":"
    ∷ fixed volume
    ∷ ",\"loop\":"
    ∷ (if loop then "true" else "false")
    ∷ "}"
    ∷ [])
to_json fixed (audio_stop player_id) =
    template ("{\"event\":\"audio_stop\",\"player_id\":\"" ∷ player_id ∷ "\"}" ∷ [])
to_json fixed (region_enter player_id region_id action) = template (
    "{\"event\":\"region_enter\",\"player_id\":\"" ∷ player_id ∷ "\",\"region_id\":\"" ∷ region_id
    ∷ "\",\"action\":\"" ∷ action ∷ "\"}" ∷ [])
to_json fixed (player_connect player_id username) = template (
    "{\"event\":\"player_connect\",\"player_id\":\"" ∷ player_id ∷ "\",\"username\":\"" ∷ username
    ∷ "\"}" ∷ [])
to_json fixed (server_switch player_id server) = template (
    "{\"event\":\"server_switch\",\"player_id\":\"" ∷ player_id ∷ "\",\"server\":\"" ∷ server
    ∷ "\"}" ∷ [])
to_json fixed (player_disconnect player_id) =
    template ("{\"event\":\"player_disconnect\",\"player_id\":\"" ∷ player_id ∷ "\"}" ∷ [])

-- The object that such a text means, by JSON: `as_read` is the number that the text of a volume is
-- read as, which has two digits after the point.
unfoldable pub fields : {V : Type 0} → (as_read : V → V) → GameEvent V → Object V
fields as_read (audio_play player_id src volume loop) =
    ("event", text "audio_play")
    ∷ ("player_id", text player_id)
    ∷ ("src", text src)
    ∷ ("volume", number (as_read volume))
    ∷ ("loop", bool loop)
    ∷ []
fields as_read (audio_stop player_id) =
    ("event", text "audio_stop") ∷ ("player_id", text player_id) ∷ []
fields as_read (region_enter player_id region_id action) =
    ("event", text "region_enter")
    ∷ ("player_id", text player_id)
    ∷ ("region_id", text region_id)
    ∷ ("action", text action)
    ∷ []
fields as_read (player_connect player_id username) =
    ("event", text "player_connect")
    ∷ ("player_id", text player_id)
    ∷ ("username", text username)
    ∷ []
fields as_read (server_switch player_id server) =
    ("event", text "server_switch") ∷ ("player_id", text player_id) ∷ ("server", text server) ∷ []
fields as_read (player_disconnect player_id) =
    ("event", text "player_disconnect") ∷ ("player_id", text player_id) ∷ []
