-- ===== src/Media/Overlap.antt =====
-- The uploads of portal/app/(admin)/media/page.tsx as they run beside each other: a call of
-- `handleFile` is a job, which stops at each `await` and goes on when its answer comes. All calls
-- share the variables of the page.
pub mod Running
pub mod Laws
pub mod Hidden
pub mod Items
use audio_server.Common.{
  Bool, List, Option, String, [], false, get_elem?, if◌then◌else◌, none, not, set, some,
  starts_with, template, true, ℕ, ◌++◌, ◌∷◌,
}
use audio_server.Api.{ApiError, ApiResult, AudioMediaItem, UploadUrl, rejects, resolved}
use audio_server.Media.{
  Backend, File, Page, Progress, PutEnd, UploadState, confirming, error, idle, is_put_ok, put_text,
  uploading,
}

-- What a call waits for; `finished` has the entry that it has put into the list.
pub data Stage (V : Type 0) : Type 0 where
  awaiting_url : Stage V
  awaiting_storage : (target : UploadUrl) → Stage V
  awaiting_entry : (object_key : String) → Stage V
  finished : (entry : Option (AudioMediaItem V)) → Stage V

pub record Job (V : Type 0) : Type 0 where
  pub file : File V
  pub stage : Stage V

-- The page and the calls, the earliest first.
pub record Library (V : Type 0) : Type 0 where
  pub page : Page V
  pub jobs : List (Job V)

pub data Answer (V : Type 0) : Type 0 where
  url_answered : ApiResult UploadUrl → Answer V
  progressed : Progress → Answer V
  put_ended : PutEnd → Answer V
  entry_answered : ApiResult (AudioMediaItem V) → Answer V

-- `answered k a`: the call `k` gets an answer. The button of `dismissed` is there only with an error.
pub data Input (V : Type 0) : Type 0 where
  picked dropped : Option (File V) → Input V
  answered : ℕ → Answer V → Input V
  dismissed : Input V

module _ {V : Type 0} (backend : Backend V) where
  open backend use {percent, api_text}

  abbrev pub start_audio : File V → Library V → Library V
  start_audio file lib = record {
    page = record lib.page { upload = uploading 0 file.name };
    jobs = lib.jobs ++ record { file = file; stage = awaiting_url } ∷ [];
  }

  -- `handleFile` up to its first `await`
  unfoldable pub start : File V → Library V → Library V
  start file lib =
      if not (starts_with file.mime "audio/")
      then record lib { page = record lib.page { upload = error "Only audio files are accepted." } }
      else start_audio file lib

  -- An answer that a call does not wait for is not for it.
  unfoldable pub advance : Stage V → Answer V → File V → Page V → Stage V × Page V
  advance awaiting_url (url_answered (rejects e)) file p = (
    finished none,
    record p { upload = error (template ("Could not get upload URL: " ∷ api_text e ∷ [])) },
  )
  advance awaiting_url (url_answered (resolved target)) file p = (awaiting_storage target, p)
  advance (awaiting_storage target) (progressed ev) file p = (
    awaiting_storage target,
    record p { upload = uploading (percent ev.loaded ev.total) file.name },
  )
  advance (awaiting_storage target) (put_ended end) file p =
      if is_put_ok end
      then (awaiting_entry target.object_key, record p { upload = confirming file.name })
      else (
        finished none,
        record p {
          upload = error (
              template (
                "Upload failed: "
                ∷ put_text backend end
                ∷ ". Check that S3_ENDPOINT is publicly reachable and the bucket has CORS enabled for PUT."
                ∷ []));
        },
      )
  advance (awaiting_entry key) (entry_answered (resolved item)) file p =
      (finished (some item), record p { items = item ∷ p.items; upload = idle })
  advance (awaiting_entry key) (entry_answered (rejects e)) file p = (
    finished none,
    record p {
      upload = error (template ("Upload complete but confirm failed: " ∷ api_text e ∷ []));
    },
  )
  advance stage answer file p = (stage, p)

  unfoldable pub answer_job : ℕ → Answer V → Job V → Library V → Library V
  answer_job k answer job lib =
      let (stage, page) = advance job.stage answer job.file lib.page in
      record { page = page; jobs = set lib.jobs k (record job { stage = stage }) }

  unfoldable pub on_answer : ℕ → Answer V → Library V → Library V
  on_answer k answer lib = elim (get_elem? lib.jobs k) [
    | none ↦ lib
    | some job ↦ answer_job k answer job lib
  ]

  unfoldable pub step : Input V → Library V → Library V
  step (picked none) lib = lib
  step (picked (some file)) lib = start file lib
  step (dropped none) lib = record lib { page = record lib.page { is_dragging = false } }
  step (dropped (some file)) lib =
      start file (record lib { page = record lib.page { is_dragging = false } })
  step (answered k answer) lib = on_answer k answer lib
  step dismissed lib = elim lib.page.upload [
    | error message ↦ record lib { page = record lib.page { upload = idle } }
    | _ ↦ lib
  ]

  unfoldable pub run : List (Input V) → Library V → Library V
  run [] lib = lib
  run (i ∷ inputs) lib = run inputs (step i lib)
