-- ===== src/Media/Laws.antt =====
-- What the media library promises.

use mathlib.Core.Path.{subst}
use audio_server.Common.{
  Bool-cases, List, String, [], arith, inl, inr, length, none, refl, some, starts_with, true, ◌+◌,
  ◌∷◌, ◌≡◌, ◌⊎◌,
}
use audio_server.Api.{ApiError, ApiResult, AudioMediaItem, UploadUrl, rejects, resolved}
use audio_server.Media.{
  Backend, File, Page, Progress, confirm_file, error, handle_delete, handle_file, idle, is_put_ok,
  put_file, show_progress, uploading, without,
}

pub ApiResult-cases :
    {J : Type 0} (r : ApiResult J)
    → ((j : J) × (r ≡ resolved j)) ⊎ ((e : ApiError) × (r ≡ rejects e))
ApiResult-cases (resolved j) = inl (j, refl)
ApiResult-cases (rejects e) = inr (e, refl)

module _ {V : Type 0} (backend : Backend V) where
  open backend use {request_url, put, confirm}

  -- What has to happen for a file to be in the library, and for the entry to be this one.
  pub record IsUploaded (file : File V) (item : AudioMediaItem V) : Type 0 where
    pub audio : starts_with file.mime "audio/" ≡ true
    pub target : UploadUrl
    pub offered : request_url file.name file.mime ≡ resolved target
    pub stored : is_put_ok (put target.upload_url file).1 ≡ true
    pub confirmed : confirm target.object_key (some file.size) none ≡ resolved item

  show_progress-items :
      (file : File V) (evs : List Progress) (p : Page V)
      → (show_progress backend file evs p).items ≡ p.items
  unfolding show_progress
  show_progress-items file [] p = refl
  show_progress-items file (ev ∷ evs) p = show_progress-items file evs _

  abbrev pub Ends : File V → List (AudioMediaItem V) → Page V → Type 0
  Ends file before after =
      ((after.upload ≡ idle)
        × (item : AudioMediaItem V) × (after.items ≡ item ∷ before)
        × IsUploaded file item)
      ⊎ ((message : String) × (after.upload ≡ error message) × (after.items ≡ before))

  module _ (file : File V) (target : UploadUrl) (page : Page V)
      (audio : starts_with file.mime "audio/" ≡ true)
      (offered : request_url file.name file.mime ≡ resolved target) where
    confirm_file-Ends :
        is_put_ok (put target.upload_url file).1 ≡ true
        → Ends file page.items (confirm_file backend target.object_key file page)
    unfolding confirm_file
    confirm_file-Ends stored =
        elim (ApiResult-cases (confirm target.object_key (some file.size) none)) [
          | inl (item, confirmed) ↦
              rw (confirmed, confirm_file)
                (inl (
                  refl,
                  item,
                  refl,
                  record {
                    audio = audio;
                    target = target;
                    offered = offered;
                    stored = stored;
                    confirmed = confirmed;
                  },
                ))
          | inr (e, refused) ↦ rw (refused, confirm_file) (inr (_, refl, refl))
        ]

  module _ (file : File V) (target : UploadUrl) (page : Page V)
      (audio : starts_with file.mime "audio/" ≡ true)
      (offered : request_url file.name file.mime ≡ resolved target) where
    abbrev shown : Page V
    shown = show_progress backend file (put target.upload_url file).0 page

    put_file-Ends : Ends file page.items (put_file backend target file page)
    unfolding put_file
    put_file-Ends = elim (Bool-cases (is_put_ok (put target.upload_url file).1)) [
      | inr failed ↦
          rw (failed, put_file)
            (inr (_, refl, show_progress-items file (put target.upload_url file).0 page))
      | inl stored ↦
          rw (stored, put_file)
            (subst (λ before. Ends file before (confirm_file backend target.object_key file shown))
              (show_progress-items file (put target.upload_url file).0 page)
              (confirm_file-Ends file target shown audio offered stored))
    ]

  -- An upload that has run to its end shows an error or nothing: it is never left as if it still ran.
  -- Its file is in the list of the page exactly if it shows nothing; then it is audio, the storage
  -- took it, and the relay confirmed the entry that now heads the list, and otherwise the list is
  -- what it was.
  pub handle_file-Ends :
      (file : File V) (page : Page V) → Ends file page.items (handle_file backend file page)
  unfolding handle_file
  handle_file-Ends file page = elim (Bool-cases (starts_with file.mime "audio/")) [
    | inr other ↦ rw (other, handle_file) (inr (_, refl, refl))
    | inl audio ↦ elim (ApiResult-cases (request_url file.name file.mime)) [
      | inr (e, refused) ↦ rw (audio, handle_file) (rw (refused) (inr (_, refl, refl)))
      | inl (target, offered) ↦
          rw (audio, handle_file)
            (rw offered (
              put_file-Ends file target (record page { upload = uploading 0 file.name }) audio
                offered))
    ]
  ]

module _ {V : Type 0} where
  -- A file that the relay deletes leaves the list and no other entry does; where the deletion fails
  -- the list stays, and one alert is shown.
  pub handle_delete_lem :
      (delete : String → ApiResult (Unit {0})) (id filename : String) (p : Page V)
      → (delete id ≡ resolved tt
          → ((handle_delete delete id filename p).items ≡ without id p.items)
            × ((handle_delete delete id filename p).alerts ≡ p.alerts))
        × ((e : ApiError)
            → delete id ≡ rejects e
            → ((handle_delete delete id filename p).items ≡ p.items)
              × (length (handle_delete delete id filename p).alerts ≡ length p.alerts + 1))
  unfolding handle_delete
  handle_delete_lem delete id filename p =
      (λ done. (ground arith, ground arith), λ e broken. (ground arith, ground arith))
