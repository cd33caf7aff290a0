-- ===== src/Media/Overlap/Hidden.antt =====
-- What the media page hides of its uploads once a file is dropped while it is busy.
use audio_server.Common.{
  Option, ap, arith, false, get_elem?, none, not, refl, set, some, starts_with, true, ℕ, ◌+◌, ◌≡◌,
  ◌≤◌, String,
}
use audio_server.Api.{ApiResult, AudioMediaItem, rejects, resolved}
use audio_server.Media.{Backend, File, click_opens_picker, is_busy}
use audio_server.Media.Overlap.{
  Job, Library, advance, answer_job, answered, awaiting_entry, dropped, entry_answered, finished,
  on_answer, start, step,
}
use audio_server.Media.Overlap.Running.{running, running-set}

module _ {V : Type 0} (backend : Backend V) where
  answer_job-entry :
      (lib : Library V) (k : ℕ) (file : File V) (key : String) (r : ApiResult (AudioMediaItem V))
      → let job : Job V = record { file = file; stage = awaiting_entry key } in
        let lib' = answer_job backend k (entry_answered r) job lib in
        (is_busy lib'.page.upload ≡ false)
        × (entry : Option (AudioMediaItem V)) × (lib'.jobs
            ≡ set lib.jobs k (record { file = file; stage = finished entry }))
  unfolding answer_job advance
  answer_job-entry lib k file key (resolved item) = (refl, some item, refl)
  answer_job-entry lib k file key (rejects e) = (refl, none, refl)

  on_answer-entry :
      (lib : Library V) (k : ℕ) (file : File V) (key : String) (r : ApiResult (AudioMediaItem V))
      → get_elem? lib.jobs k ≡ some (record { file = file; stage = awaiting_entry key })
      → let lib' = on_answer backend k (entry_answered r) lib in
        (is_busy lib'.page.upload ≡ false) × (running lib'.jobs + 1 ≡ running lib.jobs)
  unfolding on_answer
  on_answer-entry lib k file key r h =
      let (calm, entry, jobs) = answer_job-entry lib k file key r in
      rw (h, on_answer)
        (
          calm,
          omega (
            arith,
            ap running jobs,
            running-set lib.jobs k _ (record { file = file; stage = finished entry }) h,
          ),
        )

  start-other :
      (file : File V) (lib : Library V)
      → starts_with file.mime "audio/" ≡ false
      → (is_busy (start backend file lib).page.upload ≡ false)
        × ((start backend file lib).jobs ≡ lib.jobs)
  unfolding start
  start-other file lib other = rw (other, start) (refl, refl)

  -- A drop is taken on a busy page too, and then the page can show that it is not busy while an
  -- upload runs: right after the drop of a file that is no audio, with all uploads still running,
  -- and as soon as the first of several uploads has the relay's answer to its entry, whatever that
  -- is. A click then opens the picker again.
  pub overlap_hides :
      (lib : Library V) (refused : File V)
      → starts_with refused.mime "audio/" ≡ false
      → (k : ℕ) (file : File V) (key : String) (r : ApiResult (AudioMediaItem V))
      → get_elem? lib.jobs k ≡ some (record { file = file; stage = awaiting_entry key })
      → 2 ≤ running lib.jobs
      → let dropped_on = step backend (dropped (some refused)) lib in
        let ended = step backend (answered k (entry_answered r)) lib in
        (click_opens_picker dropped_on.page ≡ true)
        × (running dropped_on.jobs ≡ running lib.jobs)
        × (click_opens_picker ended.page ≡ true)
        × (1 ≤ running ended.jobs)
  unfolding step
  overlap_hides lib refused other k file key r waits several =
      let (calm, same) =
        start-other refused (record lib { page = record lib.page { is_dragging = false } }) other in
      let (idle_again, left) = on_answer-entry lib k file key r waits in
      (ap not calm, ap running same, ap not idle_again, omega (arith, left))
