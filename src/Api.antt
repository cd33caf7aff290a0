-- ===== src/Api.antt =====
-- portal/lib/api.ts: the client of the relay's REST API that the portal's pages call.
pub mod Laws
use audio_server.Http.{Env, FetchRequest, Fetched, is_ok, rejected, replied}
use audio_server.Actions.{relay_url}
use audio_server.Common.{
  Bool, List, Option, String, [], false, if◌then◌else◌, none, not, some, template, ℕ, ◌++◌, ◌∷◌,
}

-- The numbers of JavaScript, `V`, are only passed on here. A body is a JSON object of these.
pub data Scalar (V : Type 0) : Type 0 where
  str : String → Scalar V
  num : V → Scalar V
  bool : Bool → Scalar V
  null : Scalar V

abbrev pub Body : Type 0 → Type 0
Body V = List (String × Scalar V)

pub record PlayerSession (V : Type 0) : Type 0 where
  pub player_uuid : String
  pub username : String
  pub server : String
  pub joined_at : V

pub record UserSettings (V : Type 0) : Type 0 where
  pub player_uuid : String
  pub volume_override : V
  pub audio_enabled : Bool
  pub updated_at : String

pub record SettingsUpdate (V : Type 0) : Type 0 where
  pub volume_override : Option V
  pub audio_enabled : Option Bool

pub record AudioMediaItem (V : Type 0) : Type 0 where
  pub id : String
  pub object_key : String
  pub filename : String
  pub content_type : String
  pub size_bytes : Option V
  pub duration_seconds : Option V
  pub uploaded_by : String
  pub created_at : String
  pub url : String

pub record DashboardStats (V : Type 0) : Type 0 where
  pub active_sessions : V
  pub relay_nodes : Option V
  pub regions : Option V

pub record UploadUrl : Type 0 where
  pub upload_url : String
  pub object_key : String

-- The rejection of `fetch` or of reading the body, or the error whose message is the label and the
-- status.
pub data ApiError : Type 0 where
  fetch_error json_error : ApiError
  status_error : (label : String) → (status : ℕ) → ApiError

-- What a method's promise ends in.
pub data ApiResult (J : Type 0) : Type 0 where
  resolved : J → ApiResult J
  rejects : ApiError → ApiResult J

abbrev pub read_json : {J : Type 0} → Option J → ApiResult J
read_json none = rejects json_error
read_json (some j) = resolved j

abbrev pub expect : {J : Type 0} → (label : String) → Fetched J → ApiResult J
expect label rejected = rejects fetch_error
expect label (replied res) =
    if not (is_ok res) then rejects (status_error label res.status) else read_json res.body

-- As `expect`, for an answer that is not read.
abbrev pub expect_ok : {J : Type 0} → (label : String) → Fetched J → ApiResult (Unit {0})
expect_ok label rejected = rejects fetch_error
expect_ok label (replied res) =
    if not (is_ok res) then rejects (status_error label res.status) else resolved tt

abbrev pub json_type : List (String × String)
json_type = ("Content-Type", "application/json") ∷ []

abbrev pub get_request : {B : Type 0} → String → FetchRequest B
get_request url = record { url = url; method = "GET"; headers = []; body = none }

-- `JSON.stringify` leaves out a field that is `undefined`.
abbrev pub settings_body : {V : Type 0} → SettingsUpdate V → Body V
settings_body u =
    elim u.volume_override [ none ↦ [] | some v ↦ ("volume_override", num v) ∷ [] ]
    ++ elim u.audio_enabled [ none ↦ [] | some b ↦ ("audio_enabled", bool b) ∷ [] ]

abbrev pub nullable : {V : Type 0} → Option V → Scalar V
nullable none = null
nullable (some v) = num v

-- `fetch`, with bodies over the numbers `V`, for an endpoint that answers with a `J`.
abbrev pub Fetch : Type 0 → Type 0 → Type 0
Fetch V J = FetchRequest (Body V) → Fetched J

abbrev pub settings_url : (String → String) → String → String
settings_url encode uuid = template ("/api/relay/settings/" ∷ encode uuid ∷ [])

module _ (V : Type 0) where
  -- true for 'ok', false for 'unreachable'
  pub health : Env → Fetch V (Unit {0}) → Bool
  health env fetch = elim (fetch (get_request (template (relay_url env ∷ "/health" ∷ [])))) [
    | rejected ↦ false
    | replied res ↦ is_ok res
  ]

  pub get_stats : Fetch V (DashboardStats V) → ApiResult (DashboardStats V)
  get_stats fetch = expect "stats" (fetch (get_request "/api/relay/stats"))

  pub get_sessions : Fetch V (List (PlayerSession V)) → ApiResult (List (PlayerSession V))
  get_sessions fetch = expect "sessions" (fetch (get_request "/api/relay/sessions"))

  pub list_media : Fetch V (List (AudioMediaItem V)) → ApiResult (List (AudioMediaItem V))
  list_media fetch = expect "media list" (fetch (get_request "/api/relay/admin/media"))

  pub request_upload_url : Fetch V UploadUrl → String → String → ApiResult UploadUrl
  request_upload_url fetch filename content_type = expect "upload-url" (
      fetch (record {
        url = "/api/relay/admin/media/upload-url";
        method = "POST";
        headers = json_type;
        body = some (("filename", str filename) ∷ ("content_type", str content_type) ∷ []);
      }))

  pub confirm_upload :
      Fetch V (AudioMediaItem V) → String → Option V → Option V → ApiResult (AudioMediaItem V)
  confirm_upload fetch object_key size duration = expect "confirm" (
      fetch (record {
        url = "/api/relay/admin/media/confirm";
        method = "POST";
        headers = json_type;
        body = some (
            ("object_key", str object_key)
            ∷ ("size_bytes", nullable size)
            ∷ ("duration_seconds", nullable duration)
            ∷ []);
      }))

  -- `encodeURIComponent`, of the language's library, is the argument `encode`.
  module _ (encode : String → String) where
    unfoldable pub get_settings : Fetch V (UserSettings V) → String → ApiResult (UserSettings V)
    get_settings fetch uuid = expect "settings" (fetch (get_request (settings_url encode uuid)))

    unfoldable pub put_settings :
        Fetch V (UserSettings V) → String → SettingsUpdate V → ApiResult (UserSettings V)
    put_settings fetch uuid update = expect "settings PUT" (
        fetch (record {
          url = settings_url encode uuid;
          method = "PUT";
          headers = json_type;
          body = some (settings_body update);
        }))

    abbrev pub delete_request : String → FetchRequest (Body V)
    delete_request id = record {
      url = template ("/api/relay/admin/media/" ∷ encode id ∷ []);
      method = "DELETE";
      headers = [];
      body = none;
    }

    unfoldable pub delete_media : Fetch V (Unit {0}) → String → ApiResult (Unit {0})
    delete_media fetch id = expect_ok "media delete" (fetch (delete_request id))
