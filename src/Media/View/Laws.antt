-- ===== src/Media/View/Laws.antt =====
-- What the media page shows of uploads that run beside each other.
use mathlib.Core.List.{Perm}
use audio_server.Common.{
  List, Option, String, [], ap, get_elem?, map, none, option_either, refl, some, starts_with, ◌++◌,
  ◌∙◌, ◌∷◌, ◌≡◌, if_either, not, arith,
}
use audio_server.Http.{truthy}
use audio_server.Api.{AudioMediaItem, rejects, resolved}
use audio_server.Media.{Backend, File, Page, is_put_ok}
use audio_server.Media.Overlap.{
  Answer, Input, Library, Stage, advance, answer_job, answered, awaiting_entry, awaiting_storage,
  awaiting_url, dismissed, dropped, entry_answered, on_answer, picked, progressed, put_ended, run,
  start, step, url_answered,
}
use audio_server.Media.Overlap.Items.{entries, entries_kept}
use audio_server.Media.View.{FileList, Formats, Row, banner, listed, no_files, row, table, view}

module _ {V : Type 0} (backend : Backend V) where
  -- A page whose error of loading is `e`.
  abbrev pub HasError : Option String → Page V → Type 0
  HasError e p = p.load_error ≡ e

  advance-HasError :
      (e : Option String) (stage : Stage V) (a : Answer V) (file : File V) (p : Page V)
      → HasError e p
      → HasError e (advance backend stage a file p).1
  unfolding advance
  advance-HasError e awaiting_url (url_answered (rejects x)) file p h = h
  advance-HasError e awaiting_url (url_answered (resolved target)) file p h = h
  advance-HasError e (awaiting_storage target) (progressed ev) file p h = h
  advance-HasError e (awaiting_storage target) (put_ended end) file p h =
      if_either (λ (out : Stage V × Page V). HasError e out.1) (is_put_ok end) h h
  advance-HasError e (awaiting_entry key) (entry_answered (resolved item)) file p h = h
  advance-HasError e (awaiting_entry key) (entry_answered (rejects x)) file p h = h
  advance-HasError e stage a file p h = h

  start-HasError :
      (e : Option String) (file : File V) (lib : Library V)
      → HasError e lib.page
      → HasError e (start backend file lib).page
  unfolding start
  start-HasError e file lib h =
      if_either (λ (l : Library V). HasError e l.page) (not (starts_with file.mime "audio/")) h h

  step-HasError :
      (e : Option String) (i : Input V) (lib : Library V)
      → HasError e lib.page
      → HasError e (step backend i lib).page
  unfolding step on_answer answer_job
  step-HasError e (picked none) lib h = h
  step-HasError e (picked (some file)) lib h = start-HasError e file lib h
  step-HasError e (dropped none) lib h = h
  step-HasError e (dropped (some file)) lib h = start-HasError e file _ h
  step-HasError e (answered k a) lib h =
      option_either (λ (l : Library V). HasError e l.page) (get_elem? lib.jobs k) (λ _. h)
        (λ job _. advance-HasError e job.stage a job.file lib.page h)
  step-HasError e dismissed lib h = ground arith

  run-HasError :
      (e : Option String) (inputs : List (Input V)) (lib : Library V)
      → HasError e lib.page
      → HasError e (run backend inputs lib).page
  unfolding run
  run-HasError e [] lib h = h
  run-HasError e (i ∷ inputs) lib h =
      run-HasError e inputs (step backend i lib) (step-HasError e i lib h)

  -- The lines of a list.
  abbrev pub rows_of : FileList → List Row
  rows_of (banner message) = []
  rows_of no_files = []
  rows_of (table rows) = rows

  -- What a list shows, by the error that there is to show, if any.
  abbrev pub Lists :
      Formats V → Option String → Option String → List (AudioMediaItem V) → FileList → Type 0
  Lists formats copied_id (some message) expected files = files ≡ banner message
  Lists formats copied_id none expected files =
      (items : List (AudioMediaItem V)) × Perm items expected
      × (rows_of files ≡ map (row formats copied_id) items)

  rows-listed :
      (formats : Formats V) (copied_id : Option String) (items : List (AudioMediaItem V))
      → rows_of (listed formats copied_id items) ≡ map (row formats copied_id) items
  rows-listed formats copied_id [] = refl
  rows-listed formats copied_id (item ∷ items) = refl

  files-by :
      (formats : Formats V) (copied_id o : Option String) (p : Page V)
      → truthy p.load_error ≡ o
      → (view formats copied_id p).files
        ≡ elim o [ some message ↦ banner message | none ↦ listed formats copied_id p.items ]
  unfolding view
  files-by formats copied_id o p h =
      ap
        (λ (o : Option String). elim o [
          | some message ↦ banner message
          | none ↦ listed formats copied_id p.items
        ])
        h

  view-Lists :
      (formats : Formats V) (copied_id o : Option String) (expected : List (AudioMediaItem V))
      (p : Page V)
      → truthy p.load_error ≡ o
      → Perm p.items expected
      → Lists formats copied_id o expected (view formats copied_id p).files
  view-Lists formats copied_id (some message) expected p h kept =
      files-by formats copied_id (some message) p h
  view-Lists formats copied_id none expected p h kept = (
    p.items,
    kept,
    ap rows_of (files-by formats copied_id none p h) ∙ rows-listed formats copied_id p.items,
  )

  -- However uploads overlap, the page goes on to show the error if the list could not be loaded, and
  -- then none of the files; otherwise it has one line for each file that it had and for each entry
  -- that the relay has confirmed to an upload, and no other line, in some order, while the list is
  -- neither loaded again nor deleted from.
  pub uploads_listed :
      (formats : Formats V) (copied_id : Option String) (page : Page V) (inputs : List (Input V))
      → let lib = run backend inputs (record { page = page; jobs = [] }) in
        Lists formats copied_id
          (truthy page.load_error)
          (entries lib.jobs ++ page.items)
          (view formats copied_id lib.page).files
  uploads_listed formats copied_id page inputs =
      let fresh : Library V = record { page = page; jobs = [] } in
      view-Lists formats copied_id (truthy page.load_error) _ (run backend inputs fresh).page
        (ap truthy (run-HasError page.load_error inputs fresh refl))
        (entries_kept backend page inputs)
