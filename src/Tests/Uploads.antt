-- ===== src/Tests/Uploads.antt =====
-- Uploads that run beside each other, at inputs.
use audio_server.Common.{List, [], arith, refl, some, true, ℕ, ◌++◌, ◌∷◌, ◌↔◌, ◌≡◌, ◌≤◌}
use audio_server.Api.{resolved}
use audio_server.Media.{File, click_opens_picker, is_busy, load}
use audio_server.Media.Overlap.{
  Input, Library, advance, answer_job, answered, dropped, entry_answered, on_answer, picked,
  put_ended, run, start, step, url_answered,
}
use audio_server.Http.{truthy}
use audio_server.Common.{none, some, refl, arith}
use audio_server.Media.Copy.{copies, copy, elapse, nothing_copied, region_url, without_slash}
use audio_server.Media.View.{Formats, row, table, view}
use audio_server.Media.View.Laws.{Lists, uploads_listed}
use audio_server.Media.Overlap.Items.{entries}
use audio_server.Media.Overlap.Laws.{Calm, Calm-busy_iff, next, opened}
use audio_server.Media.Overlap.Hidden.{overlap_hides}
use audio_server.Media.Overlap.Running.{running}
use audio_server.Tests.Files.{entry, library, song, storage}

abbrev fresh : Library ℕ
fresh = record { page = library; jobs = [] }

abbrev text_file : File ℕ
text_file = record { name = "a.txt"; mime = "text/plain"; size = 1 }

uploads : Unit {0}
unfolding run step start on_answer answer_job advance
uploads = tt

-- Two files are dropped at once, and the first waits for its entry.
abbrev two_drops : List (Input ℕ)
two_drops =
    dropped (some song)
    ∷ dropped (some song)
    ∷ answered 0 (url_answered (resolved (record { upload_url = "put"; object_key = "k" })))
    ∷ answered 0 (put_ended (load 200))
    ∷ []

abbrev two_running : Library ℕ
two_running = run storage two_drops fresh

abbrev formats : Formats ℕ
formats = record {
  size_text = λ n. "1.5 KB";
  age_text = λ t. "3s ago";
  backend_url = some "https://relay.example/";
}

abbrev confirmed : List (Input ℕ)
confirmed = two_drops ++ answered 0 (entry_answered (resolved entry)) ∷ []

uploads_listed_example :
    let lib = run storage confirmed fresh in
    Lists storage formats
      (some "7")
      (truthy library.load_error)
      (entries lib.jobs ++ library.items)
      (view formats (some "7") lib.page).files
uploads_listed_example = uploads_listed storage formats (some "7") library confirmed

view_test :
    (view formats (some "7") (run storage confirmed fresh).page).files
    ≡ table (
        record {
          href = entry.url;
          filename = entry.filename;
          object_key = entry.object_key;
          content_type = entry.content_type;
          size = "1.5 KB";
          age = "3s ago";
          tooltip = "https://relay.example//media/7";
          copy_label = "Copied!";
        }
        ∷ [])
unfolding uploads view row
view_test = refl

mark_test :
    (elapse 2499 (copies ((500, "6") ∷ (1500, "7") ∷ []) nothing_copied)).copied_id ≡ some "7"
unfolding elapse copies copy
mark_test = refl

cut_test : (elapse 2500 (copies ((500, "6") ∷ (1500, "7") ∷ []) nothing_copied)).copied_id ≡ none
unfolding elapse copies copy
cut_test = refl

url_test : region_url (some "https://relay.example/") "7" ≡ "https://relay.example/media/7"
unfolding without_slash
url_test = refl

Calm-one : Calm storage (step storage (picked (some song)) fresh)
Calm-one = next (opened library refl) (picked (some song)) refl

Calm-busy_iff_example :
    let lib = step storage (picked (some song)) fresh in
    ((is_busy lib.page.upload ≡ true) ↔ (running lib.jobs ≡ 1)) × (running lib.jobs ≤ 1)
Calm-busy_iff_example = Calm-busy_iff storage Calm-one

overlap_hides_example :
    let dropped_on = step storage (dropped (some text_file)) two_running in
    let ended = step storage (answered 0 (entry_answered (resolved entry))) two_running in
    (click_opens_picker dropped_on.page ≡ true)
    × (running dropped_on.jobs ≡ running two_running.jobs)
    × (click_opens_picker ended.page ≡ true)
    × (1 ≤ running ended.jobs)
unfolding uploads
overlap_hides_example =
    overlap_hides storage two_running text_file refl 0 song "k" (resolved entry) refl (omega arith)
