-- ===== src/Tests/Players.antt =====
-- A save of the preferences, with the relay, at inputs.
use audio_server.Common.{
  Bool, not, false, true, String, if◌then◌else◌, is_text, none, refl, some, str_eq, ◌≡◌, ◌≢◌,
}
use audio_server.Forms.{FormData, Texts, idle}
use audio_server.Preferences.{Page}
use audio_server.Backend.{Claims}
use audio_server.Backend.Jwt.{accepted}
use audio_server.Backend.Players.{
  Profile, Tables, Update, get_me, ok_json, profile_of, put_player_settings,
}
use audio_server.Backend.Settings.{SettingsUpdate, get_settings, put_settings}
use audio_server.Backend.Settings.Laws.{settings_shared}
use audio_server.EndToEnd.Saves.{save_agrees}
use audio_server.EndToEnd.Saves.Route.{all_work, saving, shown}

-- The volumes are their texts here.
abbrev texts : Texts String
texts = record { trim = λ s. s; parse_float = λ o. elim o [ none ↦ "NaN" | some s ↦ s ] }

abbrev finite : String → Bool
finite v = not (str_eq v "NaN")

abbrev form_data : FormData
form_data name =
    if str_eq name "volume"
    then some "0.5"
    else if str_eq name "default_client"
    then some "portal"
    else none

abbrev tables : Tables String
tables = record { players = λ uuid. some "ann"; user_settings = λ uuid. none; prefs = λ uuid. none }

abbrev claims : Claims
claims = record { sub = "uuid-1"; exp = 3700; iat = 100; role = none }

abbrev admin_claims : Claims
admin_claims = record { sub = "portal-admin"; exp = 3700; iat = 100; role = some "admin" }

abbrev muted : SettingsUpdate String
muted = record { volume_override = none; audio_enabled = some false }

abbrev louder : Update String
louder = record { volume_override = some "2"; audio_enabled = none; default_client = none }

abbrev shown_page : Page String
shown_page = record {
  profile = some (shown (profile_of "1" all_work tables "uuid-1"));
  error = none;
  save_msg = idle;
  pending = none;
}

save_agrees_example :
    (d : Profile String) × (get_me "1" all_work
        (accepted claims)
        (saving "1" texts finite all_work claims form_data shown_page tables).1
      ≡ ok_json d)
    × ((saving "1" texts finite all_work claims form_data shown_page tables).0.profile
        ≡ some (shown d))
    × (d.username ≡ "ann")
    × (d.volume_override ≡ "0.5")
    × (d.audio_enabled ≡ is_text none "on")
    × (d.default_client ≡ "portal")
    × ((k : String)
        → k ≢ "uuid-1"
        → profile_of "1" all_work
            (saving "1" texts finite all_work claims form_data shown_page tables).1
            k
          ≡ profile_of "1" all_work tables k)
save_agrees_example =
    save_agrees "1" texts finite claims form_data shown_page tables "ann" refl refl refl

settings_shared_example :
    (get_me "1" all_work
        (accepted claims)
        (put_settings "1" all_work (accepted admin_claims) "uuid-1" muted tables).1
      ≡ ok_json (record (profile_of "1" all_work tables "uuid-1") { audio_enabled = false }))
    × (get_settings "1" all_work
          (accepted admin_claims)
          "uuid-1"
          (put_player_settings "1" all_work (accepted claims) louder tables).1
        ≡ ok_json ("uuid-1", record { volume_override = "2"; audio_enabled = true }))
    × ((k : String)
        → k ≢ "uuid-1"
        → get_settings "1" all_work
            (accepted admin_claims)
            k
            (put_settings "1" all_work (accepted admin_claims) "uuid-1" muted tables).1
          ≡ get_settings "1" all_work (accepted admin_claims) k tables)
settings_shared_example =
    settings_shared "1" all_work admin_claims claims muted louder tables "ann" refl refl refl refl
