-- ===== src/Media.antt =====
-- portal/app/(admin)/media/page.tsx: the media library. An upload runs to its end in one function,
-- which is given what the relay and the storage answer.
pub mod Laws
pub mod Format
pub mod Overlap
pub mod Copy
pub mod View
use audio_server.Common.{
  Bool, List, Option, String, [], false, if◌then◌else◌, leb, ltb, none, not, some, starts_with,
  str_eq, template, true, ℕ, ◌&&◌, ◌∷◌,
}
use audio_server.Api.{ApiError, ApiResult, AudioMediaItem, UploadUrl, rejects, resolved}

pub data UploadState : Type 0 where
  idle : UploadState
  uploading : (progress : ℕ) (filename : String) → UploadState
  confirming : (filename : String) → UploadState
  error : (message : String) → UploadState

-- The page's variables, and the texts of its alerts, the latest first.
pub record Page (V : Type 0) : Type 0 where
  pub items : List (AudioMediaItem V)
  pub load_error : Option String
  pub upload : UploadState
  pub is_dragging : Bool
  pub alerts : List String

-- A `File` of the browser.
pub record File (V : Type 0) : Type 0 where
  pub name : String
  pub mime : String
  pub size : V

-- A progress event of the request to the storage, where its length is computable, and how it ends.
pub record Progress : Type 0 where
  pub loaded : ℕ
  pub total : ℕ

pub data PutEnd : Type 0 where
  load : (status : ℕ) → PutEnd
  network_error : PutEnd

-- What answers an upload. `percent` is `Math.round(loaded / total * 100)`, and the texts of errors
-- are those of `String(e)`.
pub record Backend (V : Type 0) : Type 0 where
  pub request_url : (filename content_type : String) → ApiResult UploadUrl
  pub put : (url : String) → File V → List Progress × PutEnd
  pub confirm : (object_key : String) (size duration : Option V) → ApiResult (AudioMediaItem V)
  pub percent : (loaded total : ℕ) → ℕ
  pub api_text : ApiError → String
  pub status_text : ℕ → String

abbrev pub is_put_ok : PutEnd → Bool
is_put_ok (load status) = leb 200 status && ltb status 300
is_put_ok network_error = false

module _ {V : Type 0} (backend : Backend V) where
  open backend use {request_url, put, confirm, percent, api_text, status_text}

  abbrev pub put_text : PutEnd → String
  put_text (load status) = template ("Error: S3 PUT " ∷ status_text status ∷ [])
  put_text network_error = "Error: Network error during upload"

  -- the calls of `onprogress`
  show_progress : File V → List Progress → Page V → Page V
  show_progress file [] p = p
  show_progress file (ev ∷ evs) p =
      show_progress file evs
        (record p { upload = uploading (percent ev.loaded ev.total) file.name })

  -- the promise's `then`
  confirm_file : String → File V → Page V → Page V
  confirm_file key file page =
      let p = record page { upload = confirming file.name } in
      elim (confirm key (some file.size) none) [
        | resolved item ↦ record p { items = item ∷ p.items; upload = idle }
        | rejects e ↦ record p {
          upload = error (template ("Upload complete but confirm failed: " ∷ api_text e ∷ []));
        }
      ]

  put_file : UploadUrl → File V → Page V → Page V
  unfolding show_progress confirm_file
  put_file target file page =
      let (evs, end) = put target.upload_url file in
      let p = show_progress file evs page in
      if is_put_ok end then confirm_file target.object_key file p else record p {
        upload = error (
            template (
              "Upload failed: "
              ∷ put_text end
              ∷ ". Check that S3_ENDPOINT is publicly reachable and the bucket has CORS enabled for PUT."
              ∷ []));
      }

  unfoldable pub handle_file : File V → Page V → Page V
  unfolding put_file
  handle_file file page =
      if not (starts_with file.mime "audio/")
      then record page { upload = error "Only audio files are accepted." }
      else let p = record page { upload = uploading 0 file.name } in
        elim (request_url file.name file.mime) [
          | rejects e ↦ record p {
            upload = error (template ("Could not get upload URL: " ∷ api_text e ∷ []));
          }
          | resolved target ↦ put_file target file p
        ]

  pub on_file_input : Option (File V) → Page V → Page V
  on_file_input none p = p
  on_file_input (some file) p = handle_file file p

  unfoldable pub on_drop : Option (File V) → Page V → Page V
  on_drop none p = record p { is_dragging = false }
  on_drop (some file) p = handle_file file (record p { is_dragging = false })

-- `busy`, by which the click and the input are guarded
abbrev pub is_busy : UploadState → Bool
is_busy (uploading progress filename) = true
is_busy (confirming filename) = true
is_busy _ = false

module _ {V : Type 0} where
  abbrev pub click_opens_picker : Page V → Bool
  click_opens_picker p = not (is_busy p.upload)

  abbrev pub dismiss : Page V → Page V
  dismiss p = record p { upload = idle }

  unfoldable pub load_media : ApiResult (List (AudioMediaItem V)) → Page V → Page V
  load_media (resolved list) p = record p { items = list; load_error = none }
  load_media (rejects e) p = record p {
    load_error = some "Could not load media library. Is the backend running and S3 configured?";
  }

  pub without : String → List (AudioMediaItem V) → List (AudioMediaItem V)
  without id [] = []
  without id (item ∷ items) =
      let rest = without id items in if str_eq item.id id then rest else item ∷ rest

  unfoldable pub handle_delete : (String → ApiResult (Unit {0})) → String → String → Page V → Page V
  handle_delete delete id filename p = elim (delete id) [
    | resolved done ↦ record p { items = without id p.items }
    | rejects e ↦ record p {
      alerts =
          template ("Failed to delete \"" ∷ filename ∷ "\". Check relay/storage logs." ∷ [])
          ∷ p.alerts;
    }
  ]
