-- ===== src/EndToEnd/Saves/Route.antt =====
-- The way of a save of a player's preferences: the request of the portal's page, the body as the relay
-- reads it, `PlayerSettingsUpdate` of backend/src/api/player.rs, and its answer as the page reads it.
use audio_server.Common.{
  Bool, [], ◌∷◌, if◌then◌else◌, str_eq, ◌&&◌, Option, String, is_text, none, some, true,
}
use audio_server.Http.{FetchRequest, Fetched, or_else, replied}
use audio_server.Api.{Body, Scalar, bool, null, num, str}
use audio_server.Relay.{header}
use audio_server.Forms.{FormData, Texts}
use audio_server.Preferences.{Page, PlayerProfile, ProfilePatch, handle_save, on_saved}
use audio_server.Backend.{Claims}
use audio_server.Backend.Jwt.{accepted}
use audio_server.Backend.Players.{
  Profile, Response, Saved, Tables, Update, Works, failed_with, ok_json, put_player_settings,
}

infixl 1 ◌>>=◌
-- `?`
abbrev ◌>>=◌ : {A B : Type 0} → Option A → (A → Option B) → Option B
none >>= f = none
some a >>= f = f a

module _ {V : Type 0} where
  -- A field of the body; one that is missing is read like `null`.
  abbrev pub sent_field : String → Body V → Scalar V
  sent_field name [] = null
  sent_field name ((k, v) ∷ fields) = if str_eq k name then v else sent_field name fields

  -- `Option<f64>`: `none` is an error. JSON has no number that is not finite: it is sent as `null`.
  abbrev pub read_number : (finite : V → Bool) → Scalar V → Option (Option V)
  read_number finite (num v) = some (if finite v then some v else none)
  read_number finite null = some none
  read_number finite _ = none

  abbrev pub read_bool : Scalar V → Option (Option Bool)
  read_bool (bool b) = some (some b)
  read_bool null = some none
  read_bool _ = none

  abbrev pub read_text : Scalar V → Option (Option String)
  read_text (str s) = some (some s)
  read_text null = some none
  read_text _ = none

  -- What the relay reads of the body of a request, as `PlayerSettingsUpdate`.
  unfoldable pub received : (finite : V → Bool) → Body V → Option (Update V)
  received finite body = do
    volume ← read_number finite (sent_field "volume_override" body)
    enabled ← read_bool (sent_field "audio_enabled" body)
    client ← read_text (sent_field "default_client" body)
    some (record { volume_override = volume; audio_enabled = enabled; default_client = client })

  -- What the page reads of the relay's answers.
  abbrev pub patch_of : Saved V → ProfilePatch V
  patch_of s = record {
    uuid = none;
    username = none;
    volume_override = some s.volume_override;
    audio_enabled = some s.audio_enabled;
    default_client = some s.default_client;
  }

  abbrev pub answer : Response (Saved V) → Fetched (ProfilePatch V)
  answer (failed_with status) =
      replied (record { status = status; content_type = none; body = none })
  answer (ok_json s) =
      replied
        (record { status = 200; content_type = some "application/json"; body = some (patch_of s) })

  abbrev pub shown : Profile V → PlayerProfile V
  shown p = record {
    uuid = p.uuid;
    username = p.username;
    volume_override = p.volume_override;
    audio_enabled = p.audio_enabled;
    default_client = p.default_client;
  }

abbrev pub all_work : Works
all_work = record { configured = true; sql = true; redis_set = true; redis_get = true }

module _ {V : Type 0} (one : V) (texts : Texts V) (finite : V → Bool) where
  -- `PUT /api/player/settings` with a body, by a player with a token: a body that cannot be read is
  -- answered 422.
  abbrev pub put_body :
      Works → Claims → Option (Update V) → Tables V → Response (Saved V) × Tables V
  put_body works c none t = (failed_with 422, t)
  put_body works c (some u) t = put_player_settings one works (accepted c) u t

  -- The way of a request of the page through the portal's handler, which puts the player's token on it,
  -- to the relay.
  unfoldable pub save_route :
      Works → Claims → FetchRequest (Body V) → Tables V → Response (Saved V) × Tables V
  save_route works c request t =
      if str_eq request.method "PUT"
        && str_eq request.url "/api/player-relay/player/settings"
        && is_text (header "Content-Type" request.headers) "application/json"
      then put_body works c (received finite (or_else request.body [])) t
      else (failed_with 404, t)

  -- The page and the tables once the request that waits at the page is answered.
  abbrev pub settled :
      Works → Claims → Option (FetchRequest (Body V)) → Page V → Tables V → Page V × Tables V
  settled works c none p t = (p, t)
  settled works c (some request) p t =
      let (r, t') = save_route works c request t in (on_saved (answer r) p, t')

  -- The page and the tables after a save.
  abbrev pub saving : Works → Claims → FormData → Page V → Tables V → Page V × Tables V
  saving works c fd p t = let p' = handle_save texts fd p in settled works c p'.pending p' t
