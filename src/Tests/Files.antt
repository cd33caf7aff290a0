-- ===== src/Tests/Files.antt =====
-- The media library at inputs.
use audio_server.Common.{[], false, none, refl, some, ℕ, ◌*◌, ◌+◌, ◌/◌, ◌<◌, ◌↔◌, ◌∷◌, ◌≡◌, ◌≤◌}
use audio_server.Api.{AudioMediaItem, resolved}
use audio_server.Media.{Backend, File, Page, handle_file, idle, load}
use audio_server.Media.Laws.{Ends, handle_file-Ends}
use audio_server.Media.Format.{
  bytes, days, format_bytes, format_bytes_close, format_media_age, format_session_age, hours,
  kilobytes, media_age, megabytes, seconds, session_age, tenths, unit,
}

abbrev pub entry : AudioMediaItem ℕ
entry = record {
  id = "7";
  object_key = "k";
  filename = "a.ogg";
  content_type = "audio/ogg";
  size_bytes = some 9;
  duration_seconds = none;
  uploaded_by = "ann";
  created_at = "now";
  url = "u";
}

abbrev pub storage : Backend ℕ
storage = record {
  request_url = λ filename content_type. resolved (record { upload_url = "put"; object_key = "k" });
  put = λ url file. (record { loaded = 4; total = 9 } ∷ [], load 200);
  confirm = λ key size duration. resolved entry;
  percent = λ loaded total. loaded * 100 / total;
  api_text = λ e. "Error";
  status_text = λ status. "status";
}

abbrev pub library : Page ℕ
library = record { items = []; load_error = none; upload = idle; is_dragging = false; alerts = [] }

abbrev pub song : File ℕ
song = record { name = "a.ogg"; mime = "audio/ogg"; size = 9 }

upload_test : (handle_file storage song library).items ≡ entry ∷ []
unfolding handle_file
upload_test = refl

handle_file-Ends_example : Ends storage song [] (handle_file storage song library)
handle_file-Ends_example = handle_file-Ends storage song library

-- 1023.95 KB is shown as 1024.0 KB.
size_tests :
    (format_bytes 1023 ≡ bytes 1023)
    × (format_bytes 1536 ≡ kilobytes 15)
    × (format_bytes 1048525 ≡ kilobytes 10240)
    × (format_bytes 1572864 ≡ megabytes 15)
unfolding format_bytes
size_tests = (refl, refl, refl, refl)

format_bytes_close_example :
    (20 * 1048530
      ≤ 2 * tenths (format_bytes 1048530) * unit (format_bytes 1048530)
        + unit (format_bytes 1048530))
    × (2 * tenths (format_bytes 1048530) * unit (format_bytes 1048530)
        ≤ 20 * 1048530 + unit (format_bytes 1048530))
    × ((unit (format_bytes 1048530) ≡ 1) ↔ (1048530 < 1024))
    × ((unit (format_bytes 1048530) ≡ 1024) ↔ ((1024 ≤ 1048530) × (1048530 < 1048576)))
    × ((format_bytes 1048530 ≡ kilobytes 10240) ↔ ((1048525 ≤ 1048530) × (1048530 < 1048576)))
format_bytes_close_example = format_bytes_close 1048530

age_tests :
    (format_media_age 5000000 4999001 ≡ seconds 0)
    × (format_media_age 90000000 100000 ≡ days 1)
    × (format_session_age 90000000 100 ≡ hours 24)
unfolding format_media_age format_session_age media_age session_age
age_tests = (refl, refl, refl)
