-- ===== src/Backend/Settings.antt =====
-- backend/src/api/settings.rs: the settings of a player as an admin reads and changes them, in the
-- table that backend/src/api/player.rs uses too.
pub mod Laws
use audio_server.Common.{Bool, Option, String, if◌then◌else◌, none, not, some}
use audio_server.Backend.{Claims}
use audio_server.Backend.Jwt.{Checked, accepted}
use audio_server.Backend.Jwt
use audio_server.Backend.Players.{
  Response, Tables, Update, UserSettings, Works, coalesced, failed_with, ok_json, put_at,
  upserted_row,
}

-- `SettingsUpdate`
pub record SettingsUpdate (V : Type 0) : Type 0 where
  pub volume_override : Option V
  pub audio_enabled : Option Bool

module _ {V : Type 0} (one : V) where
  -- `GET /api/settings/:uuid`
  unfoldable pub get_settings :
      Works → Checked → String → Tables V → Response (String × UserSettings V)
  get_settings works (Jwt.refused status message) player_uuid t = failed_with status
  get_settings works (accepted claims) player_uuid t =
      if not works.configured
      then failed_with 503
      else if not works.sql
      then failed_with 500
      else ok_json (player_uuid, coalesced one (t.user_settings player_uuid))

  -- The statement is the one of the player's own save.
  abbrev pub settings_row : SettingsUpdate V → Option (UserSettings V) → UserSettings V
  settings_row body old =
      upserted_row one
        (record {
          volume_override = body.volume_override;
          audio_enabled = body.audio_enabled;
          default_client = none;
        })
        old

  abbrev pub after_put : SettingsUpdate V → String → Tables V → Tables V
  after_put body player_uuid t = record t {
    user_settings =
        put_at player_uuid (settings_row body (t.user_settings player_uuid)) t.user_settings;
  }

  -- `PUT /api/settings/:uuid`
  unfoldable pub put_settings :
      Works
      → Checked
      → String
      → SettingsUpdate V
      → Tables V
      → Response (String × UserSettings V) × Tables V
  put_settings works (Jwt.refused status message) player_uuid body t = (failed_with status, t)
  put_settings works (accepted claims) player_uuid body t =
      if not works.configured
      then (failed_with 503, t)
      else if not works.sql
      then (failed_with 500, t)
      else (
        ok_json (player_uuid, settings_row body (t.user_settings player_uuid)),
        after_put body player_uuid t,
      )
