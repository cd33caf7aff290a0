-- ===== src/Media/View.antt =====
-- What portal/app/(admin)/media/page.tsx shows: the zone for uploads and the list of the files.
pub mod Laws
use audio_server.Common.{
  Bool, List, Option, String, [], if◌then◌else◌, is_text, map, none, not, some, template, ◌&&◌, ◌∷◌,
}
use audio_server.Http.{or_else, truthy}
use audio_server.Api.{AudioMediaItem}
use audio_server.Media.{Page, UploadState, is_busy}

-- One line of the table; `tooltip` is the title of the button that copies.
pub record Row : Type 0 where
  pub href : String
  pub filename : String
  pub object_key : String
  pub content_type : String
  pub size : String
  pub age : String
  pub tooltip : String
  pub copy_label : String

pub data FileList : Type 0 where
  banner : (message : String) → FileList
  no_files : FileList
  table : List Row → FileList

-- `zone` is shown by its phase; `highlighted` is the frame of a file that is dragged over it.
pub record View : Type 0 where
  pub zone : UploadState
  pub input_disabled : Bool
  pub highlighted : Bool
  pub files : FileList

-- How sizes and times are shown (Media/Format), and the variable `NEXT_PUBLIC_BACKEND_URL`.
pub record Formats (V : Type 0) : Type 0 where
  pub size_text : V → String
  pub age_text : (created_at : String) → String
  pub backend_url : Option String

module _ {V : Type 0} (formats : Formats V) where
  open formats use {size_text, age_text, backend_url}

  abbrev pub size_shown : Option V → String
  size_shown none = "—"
  size_shown (some size) = size_text size

  unfoldable pub row : Option String → AudioMediaItem V → Row
  row copied_id item = record {
    href = item.url;
    filename = item.filename;
    object_key = item.object_key;
    content_type = item.content_type;
    size = size_shown item.size_bytes;
    age = age_text item.created_at;
    tooltip = template (or_else backend_url "http://localhost:3000" ∷ "/media/" ∷ item.id ∷ []);
    copy_label = if is_text copied_id item.id then "Copied!" else "Copy URL";
  }

  abbrev pub listed : Option String → List (AudioMediaItem V) → FileList
  listed copied_id [] = no_files
  listed copied_id (item ∷ items) = table (map (row copied_id) (item ∷ items))

  abbrev pub file_list : Option String → Page V → FileList
  file_list copied_id p = elim (truthy p.load_error) [
    | some message ↦ banner message
    | none ↦ listed copied_id p.items
  ]

  unfoldable pub view : Option String → Page V → View
  view copied_id p = record {
    zone = p.upload;
    input_disabled = is_busy p.upload;
    highlighted = not (is_busy p.upload) && p.is_dragging;
    files = file_list copied_id p;
  }
