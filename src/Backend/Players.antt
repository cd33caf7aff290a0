-- ===== src/Backend/Players.antt =====
-- backend/src/api/player.rs: the profile and the preferences of a player. The statements of SQL are
-- translated, for the tables as maps from the identifiers of players; `V` are the volumes and `one`
-- is 1.0. The times of the rows are left out.
pub mod Laws
use audio_server.Common.{
  Bool, Option, String, if◌then◌else◌, none, not, some, str_eq, true, ℕ, ◌&&◌,
}
use audio_server.Http.{or_else}
use audio_server.Backend.Jwt.{Checked, accepted}
use audio_server.Backend.Jwt

pub record UserSettings (V : Type 0) : Type 0 where
  pub volume_override : V
  pub audio_enabled : Bool

-- The names of the table `players`, the rows of `user_settings`, and the keys
-- `audio:player:pref:<uuid>` of Redis.
pub record Tables (V : Type 0) : Type 0 where
  pub players : String → Option String
  pub user_settings : String → Option (UserSettings V)
  pub prefs : String → Option String

-- `PlayerSettingsUpdate`
pub record Update (V : Type 0) : Type 0 where
  pub volume_override : Option V
  pub audio_enabled : Option Bool
  pub default_client : Option String

-- `PlayerProfileResponse`
pub record Profile (V : Type 0) : Type 0 where
  pub uuid : String
  pub username : String
  pub volume_override : V
  pub audio_enabled : Bool
  pub default_client : String

-- `PlayerSettingsResponse`
pub record Saved (V : Type 0) : Type 0 where
  pub player_uuid : String
  pub volume_override : V
  pub audio_enabled : Bool
  pub default_client : String

-- A plain response with a status, or one with JSON.
pub data Response (A : Type 0) : Type 0 where
  failed_with : (status : ℕ) → Response A
  ok_json : A → Response A

-- Whether there is a database, and which commands succeed: the statement of SQL, SET and GET. One that
-- fails changes nothing.
pub record Works : Type 0 where
  pub configured : Bool
  pub sql : Bool
  pub redis_set : Bool
  pub redis_get : Bool

unfoldable pub put_at : {A : Type 0} → String → A → (String → Option A) → String → Option A
put_at key value f k = if str_eq k key then some value else f k

-- `redis_get_default`
unfoldable pub redis_get_default : Bool → (String → Option String) → String → String
redis_get_default ok prefs player_uuid = if ok then or_else (prefs player_uuid) "lite" else "lite"

-- Whether a client that is given is one of the two.
abbrev pub is_client : Option String → Bool
is_client none = true
is_client (some dc) = not (not (str_eq dc "lite") && not (str_eq dc "portal"))

-- The keys after SET, which is sent if a client is given; its failure is ignored.
abbrev pub with_pref :
    Bool → Option String → String → (String → Option String) → String → Option String
with_pref ok none sub prefs = prefs
with_pref ok (some dc) sub prefs = if ok then put_at sub dc prefs else prefs

module _ {V : Type 0} (one : V) where
  -- The columns of a row of `user_settings` that is joined or not.
  abbrev pub coalesced : Option (UserSettings V) → UserSettings V
  coalesced none = record { volume_override = one; audio_enabled = true }
  coalesced (some row) = row

  -- A player without a row in `players` gets the defaults.
  abbrev pub profile_row : Option String → Option (UserSettings V) → String × UserSettings V
  profile_row none settings = ("", coalesced none)
  profile_row (some username) settings = (username, coalesced settings)

  abbrev pub profile_of : Works → Tables V → String → Profile V
  profile_of works t sub =
      let (username, settings) = profile_row (t.players sub) (t.user_settings sub) in
      record {
        uuid = sub;
        username = username;
        volume_override = settings.volume_override;
        audio_enabled = settings.audio_enabled;
        default_client = redis_get_default works.redis_get t.prefs sub;
      }

  -- `GET /api/player/me`
  unfoldable pub get_me : Works → Checked → Tables V → Response (Profile V)
  get_me works (Jwt.refused status message) t = failed_with status
  get_me works (accepted claims) t =
      if not works.configured
      then failed_with 503
      else if not works.sql
      then failed_with 500
      else ok_json (profile_of works t claims.sub)

  -- `INSERT … ON CONFLICT (player_uuid) DO UPDATE`: the row that it leaves and returns.
  abbrev pub upserted_row : Update V → Option (UserSettings V) → UserSettings V
  upserted_row body old = record {
    volume_override = or_else body.volume_override (coalesced old).volume_override;
    audio_enabled = or_else body.audio_enabled (coalesced old).audio_enabled;
  }

  abbrev pub after_save : Works → Update V → String → Tables V → Tables V
  after_save works body sub t = record {
    players = t.players;
    user_settings = put_at sub (upserted_row body (t.user_settings sub)) t.user_settings;
    prefs = with_pref works.redis_set body.default_client sub t.prefs;
  }

  abbrev pub saved_row : Works → Update V → String → Tables V → Saved V
  saved_row works body sub t =
      let row = upserted_row body (t.user_settings sub) in
      record {
        player_uuid = sub;
        volume_override = row.volume_override;
        audio_enabled = row.audio_enabled;
        default_client = redis_get_default works.redis_get (after_save works body sub t).prefs sub;
      }

  -- `PUT /api/player/settings`
  unfoldable pub put_player_settings :
      Works → Checked → Update V → Tables V → Response (Saved V) × Tables V
  put_player_settings works (Jwt.refused status message) body t = (failed_with status, t)
  put_player_settings works (accepted claims) body t =
      if not works.configured
      then (failed_with 503, t)
      else if not (is_client body.default_client)
      then (failed_with 400, t)
      else if not works.sql
      then (failed_with 500, t)
      else (ok_json (saved_row works body claims.sub t), after_save works body claims.sub t)
