-- ===== src/Preferences.antt =====
-- portal/app/(player)/preferences/page.tsx: the page on which a player reads and changes the own
-- preferences. The call of the relay that the page waits for is `pending`, and `answered` completes it.
pub mod Laws
pub mod EndToEnd
use audio_server.Common.{
  is_some, Bool, Option, String, [], if◌then◌else◌, is_text, none, not, some, ◌&&◌, ◌∷◌,
}
use audio_server.Http.{FetchRequest, Fetched, is_ok, or_else, rejected, replied, truthy}
use audio_server.Api.{Body, Scalar, bool, get_request, json_type, null, num, str}
use audio_server.Forms.{FormData, SaveStatus, Texts, idle, save_error, saved}

pub record PlayerProfile (V : Type 0) : Type 0 where
  pub uuid : String
  pub username : String
  pub volume_override : V
  pub audio_enabled : Bool
  pub default_client : String

-- The JSON object that a save is answered with: which of the profile's fields it has is not checked.
pub record ProfilePatch (V : Type 0) : Type 0 where
  pub uuid : Option String
  pub username : Option String
  pub volume_override : Option V
  pub audio_enabled : Option Bool
  pub default_client : Option String

-- `{ ...p, ...updated }`
unfoldable pub spread : {V : Type 0} → PlayerProfile V → ProfilePatch V → PlayerProfile V
spread p updated = record {
  uuid = or_else updated.uuid p.uuid;
  username = or_else updated.username p.username;
  volume_override = or_else updated.volume_override p.volume_override;
  audio_enabled = or_else updated.audio_enabled p.audio_enabled;
  default_client = or_else updated.default_client p.default_client;
}

pub record Page (V : Type 0) : Type 0 where
  pub profile : Option (PlayerProfile V)
  pub error : Option String
  pub save_msg : SaveStatus
  pub pending : Option (FetchRequest (Body V))

-- The page is mounted; the effect's fetch is the request `get_me`.
abbrev pub initial : {V : Type 0} → Page V
initial = record { profile = none; error = none; save_msg = idle; pending = none }

pub data Input (V : Type 0) : Type 0 where
  profile_answered : Fetched (PlayerProfile V) → Input V
  save_submitted : FormData → Input V
  save_answered : Fetched (ProfilePatch V) → Input V

module _ {V : Type 0} where
  abbrev pub get_me : FetchRequest (Body V)
  get_me = get_request "/api/player-relay/player/me"

  abbrev pub load_failed : Page V → Page V
  load_failed p = record p { error = some "Could not load your profile. Is the server online?" }

  -- the effect's chain of `then` and `catch`
  unfoldable pub on_profile : Fetched (PlayerProfile V) → Page V → Page V
  on_profile rejected p = load_failed p
  on_profile (replied res) p =
      if is_ok res
      then elim res.body [ none ↦ load_failed p | some d ↦ record p { profile = some d } ]
      else load_failed p

  abbrev pub text_or_null : Option String → Scalar V
  text_or_null none = null
  text_or_null (some s) = str s

  module _ (texts : Texts V) where
    abbrev pub save_request : FormData → FetchRequest (Body V)
    save_request fd = record {
      url = "/api/player-relay/player/settings";
      method = "PUT";
      headers = json_type;
      body = some (
          ("volume_override", num (texts.parse_float (fd "volume")))
          ∷ ("audio_enabled", bool (is_text (fd "audio_enabled") "on"))
          ∷ ("default_client", text_or_null (fd "default_client"))
          ∷ []);
    }

    unfoldable pub handle_save : FormData → Page V → Page V
    handle_save fd p = elim p.profile [
      | none ↦ p
      | some d ↦ record p { save_msg = idle; pending = some (save_request fd) }
    ]

  abbrev pub merge : ProfilePatch V → Option (PlayerProfile V) → Option (PlayerProfile V)
  merge updated none = none
  merge updated (some p) = some (spread p updated)

  -- What the transition does after its `await`: every failure is caught.
  unfoldable pub on_saved : Fetched (ProfilePatch V) → Page V → Page V
  on_saved rejected p = record p { save_msg = save_error; pending = none }
  on_saved (replied res) p =
      if not (is_ok res)
      then record p { save_msg = save_error; pending = none }
      else elim res.body [
        | none ↦ record p { save_msg = save_error; pending = none }
        | some updated ↦ record p {
          profile = merge updated p.profile;
          save_msg = saved;
          pending = none;
        }
      ]

  -- The form is there only without an error, and its button is disabled while a save is pending.
  abbrev pub save_enabled : Page V → Bool
  save_enabled p = not (is_some p.error) && is_some p.profile && not (is_some p.pending)

  unfoldable pub step : Texts V → Input V → Page V → Page V
  step texts (profile_answered r) p = on_profile r p
  step texts (save_submitted fd) p = if save_enabled p then handle_save texts fd p else p
  step texts (save_answered r) p = if is_some p.pending then on_saved r p else p

-- What is shown: an error, the text Loading…, or the form.
pub data View (V : Type 0) : Type 0 where
  failure : (text : String) → View V
  loading : View V
  form :
      (signed_in_as : String) (volume : V) (audio_enabled : Bool) (default_client : String)
      (save_label : String) (message : Option String)
      → View V

abbrev pub save_message : SaveStatus → Option String
save_message idle = none
save_message saved = some "Saved."
save_message save_error = some "Save failed — try again."

abbrev pub shown_form :
    {V : Type 0} → PlayerProfile V → (save_label : String) (message : Option String) → View V
shown_form d save_label message =
    form (or_else (truthy (some d.username)) d.uuid) d.volume_override d.audio_enabled
      d.default_client save_label message

view_profile : {V : Type 0} → Page V → View V
view_profile p = elim p.profile [
  | none ↦ loading
  | some d ↦
      shown_form d (if is_some p.pending then "Saving…" else "Save") (save_message p.save_msg)
]

unfoldable pub view : {V : Type 0} → Page V → View V
unfolding view_profile
view p = elim (truthy p.error) [ none ↦ view_profile p | some text ↦ failure text ]
