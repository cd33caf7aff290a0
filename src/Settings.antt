-- ===== src/Settings.antt =====
-- portal/app/(admin)/settings/page.tsx: the page on which an admin reads and changes the settings of
-- a player. A handler sets the page's variables and leaves a call of the relay in `pending`, which
-- `answered` completes.
pub mod Invariant
pub mod Laws
use audio_server.Common.{
  is_some, Bool, List, Option, String, [], if◌then◌else◌, is_text, none, not, some, str_eq, ◌&&◌,
  ◌||◌, ◌∷◌,
}
use audio_server.Api.{
  ApiResult, Fetch, SettingsUpdate, UserSettings, get_settings, put_settings, rejects, resolved,
}
use audio_server.Forms.{FormData, SaveStatus, Texts, idle, save_error, saved}
use audio_server.Http.{truthy}

-- The call of the relay that a transition waits for.
pub data Work (V : Type 0) : Type 0 where
  loading : (uuid : String) → Work V
  saving : (uuid : String) (update : SettingsUpdate V) → Work V

-- `isPending` is that some work is pending.
pub record Page (V : Type 0) : Type 0 where
  pub uuid_input : String
  pub settings : Option (UserSettings V)
  pub error : Option String
  pub save_status : SaveStatus
  pub pending : Option (Work V)

abbrev pub initial : {V : Type 0} → Page V
initial = record {
  uuid_input = "";
  settings = none;
  error = none;
  save_status = idle;
  pending = none;
}

-- `answered fetch`: what the relay answers to the call that is pending.
pub data Input (V : Type 0) : Type 0 where
  typed : String → Input V
  load_submitted : Input V
  save_submitted : FormData → Input V
  answered : Fetch V (UserSettings V) → Input V

abbrev pub begin_load : {V : Type 0} → String → Page V → Page V
begin_load uuid p = record p {
  error = none;
  settings = none;
  save_status = idle;
  pending = some (loading uuid);
}

module _ {V : Type 0} (texts : Texts V) where
  open texts use {trim, parse_float}

  unfoldable pub handle_load : Page V → Page V
  handle_load p = if str_eq (trim p.uuid_input) "" then p else begin_load (trim p.uuid_input) p

  abbrev pub form_update : FormData → SettingsUpdate V
  form_update fd = record {
    volume_override = some (parse_float (fd "volume"));
    audio_enabled = some (is_text (fd "audio_enabled") "on");
  }

  unfoldable pub handle_save : FormData → Page V → Page V
  handle_save fd p = elim p.settings [
    | none ↦ p
    | some s ↦ record p {
      save_status = idle;
      pending = some (saving s.player_uuid (form_update fd));
    }
  ]

  -- The buttons of the two forms; a form whose button is disabled is not submitted.
  abbrev pub load_enabled : Page V → Bool
  load_enabled p = not (is_some p.pending || str_eq (trim p.uuid_input) "")

  abbrev pub save_enabled : Page V → Bool
  save_enabled p = is_some p.settings && not (is_some p.pending)

abbrev pub loaded : {V : Type 0} → ApiResult (UserSettings V) → Page V → Page V
loaded (resolved s) p = record p { settings = some s; pending = none }
loaded (rejects e) p = record p {
  error = some "Player not found or relay unreachable.";
  pending = none;
}

abbrev pub saved_as : {V : Type 0} → ApiResult (UserSettings V) → Page V → Page V
saved_as (resolved s) p = record p { settings = some s; save_status = saved; pending = none }
saved_as (rejects e) p = record p { save_status = save_error; pending = none }

module _ {V : Type 0} (encode : String → String) where
  -- What a transition does after its `await`.
  unfoldable pub complete : Fetch V (UserSettings V) → Work V → Page V → Page V
  complete fetch (loading uuid) p = loaded (get_settings V encode fetch uuid) p
  complete fetch (saving uuid update) p = saved_as (put_settings V encode fetch uuid update) p

  unfoldable pub step : Texts V → Input V → Page V → Page V
  step texts (typed s) p = record p { uuid_input = s }
  step texts load_submitted p = if load_enabled texts p then handle_load texts p else p
  step texts (save_submitted fd) p = if save_enabled texts p then handle_save texts fd p else p
  step texts (answered fetch) p = elim p.pending [ none ↦ p | some work ↦ complete fetch work p ]

  unfoldable pub run : Texts V → List (Input V) → Page V → Page V
  run texts [] p = p
  run texts (i ∷ inputs) p = run texts inputs (step texts i p)

-- The form of the settings as it is shown.
pub record FormView (V : Type 0) : Type 0 where
  pub player_uuid : String
  pub volume : V
  pub audio_enabled : Bool
  pub save_label : String
  pub message : Option String
  pub last_updated : String

pub record View (V : Type 0) : Type 0 where
  pub load_label : String
  pub banner : Option String
  pub form : Option (FormView V)
  pub hint : Bool

abbrev pub save_message : SaveStatus → Option String
save_message idle = none
save_message saved = some "Saved."
save_message save_error = some "Save failed — check relay/database."

-- `banner` is shown unless the error is empty; `hint` is the text for a page with neither.
unfoldable pub view : {V : Type 0} → Page V → View V
view p = record {
  load_label = if is_some p.pending then "Loading…" else "Load";
  banner = truthy p.error;
  form = elim p.settings [
    | none ↦ none
    | some s ↦ some (record {
      player_uuid = s.player_uuid;
      volume = s.volume_override;
      audio_enabled = s.audio_enabled;
      save_label = if is_some p.pending then "Saving…" else "Save";
      message = save_message p.save_status;
      last_updated = s.updated_at;
    })
  ];
  hint = not (is_some p.settings) && not (is_some (truthy p.error));
}
