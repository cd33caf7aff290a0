-- ===== src/Lite/View.antt =====
-- client-lite/src/routes/+page.svelte: what the listen page shows.
pub mod Laws
use audio_server.Common.{Bool, Option, String, if◌then◌else◌, is_some, none, not, ◌&&◌}
use audio_server.Http.{truthy}
use audio_server.Lite.{Client}

-- The text with its two classes, the line with the player's identifier, the button with its hint, and
-- the indicator "Playing".
pub record View : Type 0 where
  pub status : String
  pub ok : Bool
  pub warn : Bool
  pub session : Option String
  pub enable_button : Bool
  pub playing : Bool

unfoldable pub view : {V Howl : Type 0} → Client V Howl → View
view c = record {
  status = c.status;
  ok = c.authenticated && c.enabled;
  warn = c.authenticated && not c.enabled;
  session = if c.authenticated then truthy c.player_uuid else none;
  enable_button = c.authenticated && not c.enabled;
  playing = c.enabled && is_some c.desired;
}
