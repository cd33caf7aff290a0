-- ===== src/Tests/Forms.antt =====
-- The pages with forms at inputs.
use audio_server.Common.{
  Option, ◌↔◌, List, String, [], false, none, refl, some, str_eq, true, if◌then◌else◌, ◌∷◌, ◌≡◌,
  ◌≢◌,
}
use audio_server.Http.{Fetched, Reply, is_ok, replied}
use audio_server.Api.{Fetch, UserSettings, bool, get_settings, num}
use audio_server.Forms.{FormData, Texts, idle, save_error, saved}
use audio_server.Preferences
use audio_server.Preferences.{PlayerProfile, ProfilePatch}
use audio_server.Http.{FetchRequest}
use audio_server.Http.Cookies
use audio_server.Http.Cookies.{Jar}
use audio_server.Auth.{player_cookie}
use audio_server.Actions.{session}
use audio_server.Relay.{player_relay}
use audio_server.Preferences.EndToEnd.{
  Brings, failure_text, incoming, me, profile_end_to_end, profile_request, seen,
}
use audio_server.Tests.Sample.{env}
use audio_server.Settings.{
  Input, Page, answered, complete, handle_load, initial, load_submitted, run, save_submitted, step,
  typed, view,
}
use audio_server.Settings.Laws.{ShowsOne, run-ShowsOne, save-Ends}

-- The volumes are their texts here.
abbrev texts : Texts String
texts = record { trim = λ s. s; parse_float = λ o. elim o [ none ↦ "NaN" | some s ↦ s ] }

abbrev same : String → String
same s = s

abbrev settings : UserSettings String
settings = record {
  player_uuid = "uuid-1";
  volume_override = "1";
  audio_enabled = false;
  updated_at = "now";
}

abbrev loads : Fetch String (UserSettings String)
loads req = replied (record { status = 200; content_type = none; body = some settings })

abbrev visit : List (Input String)
visit = typed "uuid-1" ∷ load_submitted ∷ answered loads ∷ []

visit_test : (run same texts visit initial).settings ≡ some settings
unfolding run step handle_load complete get_settings
visit_test = refl

run-ShowsOne_example : ShowsOne (view (run same texts visit initial))
run-ShowsOne_example = run-ShowsOne same texts visit

abbrev shown_page : Page String
shown_page = record initial { settings = some settings }

abbrev form_data : FormData
form_data name = if str_eq name "volume" then some "0.5" else none

abbrev saved_request : Fetched (UserSettings String)
saved_request = loads (record {
  url = "/api/relay/settings/uuid-1";
  method = "PUT";
  headers = ("Content-Type", "application/json") ∷ [];
  body = some (("volume_override", num "0.5") ∷ ("audio_enabled", bool false) ∷ []);
})

save-Ends_example :
    let p' =
      run same texts (save_submitted form_data ∷ typed "u" ∷ answered loads ∷ []) shown_page in
    ((res : Reply (UserSettings String)) (j : UserSettings String)
      → saved_request ≡ replied res
      → is_ok res ≡ true
      → res.body ≡ some j
      → (p'.pending ≡ none) × (p'.settings ≡ some j) × (p'.save_status ≡ saved))
    × (((res : Reply (UserSettings String)) (j : UserSettings String)
          → saved_request ≡ replied res
          → is_ok res ≡ true
          → res.body ≢ some j)
        → (p'.pending ≡ none) × (p'.settings ≡ some settings) × (p'.save_status ≡ save_error))
save-Ends_example = save-Ends same texts form_data "u" loads shown_page settings refl refl

abbrev profile : PlayerProfile String
profile = record {
  uuid = "uuid-1";
  username = "ann";
  volume_override = "1";
  audio_enabled = true;
  default_client = "lite";
}

abbrev player_page : Preferences.Page String
player_page = record { profile = some profile; error = none; save_msg = idle; pending = none }

-- The relay answers with the volume alone.
abbrev patch : Fetched (ProfilePatch String)
patch = replied (record {
  status = 200;
  content_type = none;
  body = some (record {
    uuid = none;
    username = none;
    volume_override = some "0.5";
    audio_enabled = none;
    default_client = none;
  });
})

-- Bytes are texts here, and one of them is a profile.
abbrev parse : String → Option (PlayerProfile String)
parse bytes = if str_eq bytes "profile" then some profile else none

abbrev signed_in : Jar
signed_in = (player_cookie, session env "t") ∷ []

abbrev bringing : FetchRequest String → Fetched String
bringing req = replied (record { status = 200; content_type = none; body = some "profile" })

profile_end_to_end_example :
    let out = player_relay env bringing signed_in me (incoming "") in
    let p =
      Preferences.step texts
        (Preferences.profile_answered (seen parse out.1))
        Preferences.initial in
    (out.0 ≡ profile_request env "t" ∷ [])
    × ((d : PlayerProfile String)
        → (p.profile ≡ some d) ↔ Brings parse (bringing (profile_request env "t")) d)
    × (p.profile ≡ none → Preferences.view p ≡ Preferences.failure failure_text)
unfolding Cookies.get
profile_end_to_end_example = profile_end_to_end parse env bringing signed_in "t" "" texts refl

profile_test :
    (Preferences.step texts
      (Preferences.profile_answered
        (seen parse (player_relay env bringing signed_in me (incoming "")).1))
      Preferences.initial).profile
    ≡ some profile
unfolding Preferences.step Preferences.on_profile player_relay Cookies.get
profile_test = refl
