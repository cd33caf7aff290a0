-- ===== src/Media/Overlap/Laws.antt =====
-- What the media page shows of its uploads, if no file is dropped while it is busy: the truth.
use mathlib.Core.Path.{subst}
use audio_server.Common.{
  Bool-cases, [], ap, arith, false, get_elem?, inl, inr, none, option_either, refl, set, some,
  starts_with, sym, true, ℕ, ◌∙◌, ◌≡◌, ◌≤◌, ◌↔◌,
}
use audio_server.Api.{rejects, resolved}
use audio_server.Media.{
  Backend, File, Page, UploadState, confirming, error, idle, is_busy, is_put_ok, uploading,
}
use audio_server.Media.Overlap.{
  Answer, Input, Job, Library, Stage, advance, answer_job, answered, awaiting_entry,
  awaiting_storage, awaiting_url, dismissed, dropped, entry_answered, finished, on_answer, picked,
  progressed, put_ended, start, step, url_answered,
}
use audio_server.Media.Overlap.Running.{
  is_running, one_if, one_if-le, one_if-pos, running, running-append, running-set,
}

module _ {V : Type 0} where
  -- A file is only taken while the page is not busy, as a click on it sees to.
  abbrev pub IsCalmInput : Input V → Library V → Type 0
  IsCalmInput (picked file) lib = is_busy lib.page.upload ≡ false
  IsCalmInput (dropped file) lib = is_busy lib.page.upload ≡ false
  IsCalmInput _ lib = Unit

  module _ (backend : Backend V) where
    -- The libraries that such inputs lead to.
    pub data Calm : Library V → Type 0 where
      opened :
          (page : Page V) → is_busy page.upload ≡ false → Calm (record { page = page; jobs = [] })
      next :
          {lib : Library V}
          → Calm lib
          → (i : Input V) → IsCalmInput i lib
          → Calm (step backend i lib)

    -- The page is busy exactly while a call runs, and no second one runs beside it.
    abbrev IsTold : Library V → Type 0
    IsTold lib = running lib.jobs ≡ one_if (is_busy lib.page.upload)

    -- An answer to the one call that runs.
    abbrev Tells : Stage V × Page V → Type 0
    Tells end = is_busy end.1.upload ≡ is_running end.0

    advance-Tells :
        (stage : Stage V) (a : Answer V) (file : File V) (p : Page V)
        → is_busy p.upload ≡ is_running stage
        → Tells (advance backend stage a file p)
    unfolding advance
    advance-Tells awaiting_url (url_answered (rejects e)) file p h = refl
    advance-Tells awaiting_url (url_answered (resolved target)) file p h = h
    advance-Tells (awaiting_storage target) (progressed ev) file p h = refl
    advance-Tells (awaiting_storage target) (put_ended end) file p h =
        elim (Bool-cases (is_put_ok end)) [
          | inl stored ↦ rw (stored, advance) refl
          | inr failed ↦ rw (failed, advance) refl
        ]
    advance-Tells (awaiting_entry key) (entry_answered (resolved item)) file p h = refl
    advance-Tells (awaiting_entry key) (entry_answered (rejects e)) file p h = refl
    advance-Tells stage a file p h = h

    -- An answer to a call that has come to its end changes nothing.
    advance-finished :
        (stage : Stage V) (a : Answer V) (file : File V) (p : Page V)
        → is_running stage ≡ false
        → advance backend stage a file p ≡ (stage, p)
    unfolding advance
    advance-finished awaiting_url a file p h = absurd cc
    advance-finished (awaiting_storage target) a file p h = absurd cc
    advance-finished (awaiting_entry key) a file p h = absurd cc
    advance-finished (finished entry) (url_answered r) file p h = refl
    advance-finished (finished entry) a file p h = refl

    start-IsTold :
        (file : File V) (lib : Library V)
        → is_busy lib.page.upload ≡ false
        → IsTold lib
        → IsTold (start backend file lib)
    unfolding start
    start-IsTold file lib calm told = elim (Bool-cases (starts_with file.mime "audio/")) [
      | inl audio ↦
          let none_runs : running lib.jobs ≡ 0 = told ∙ ap one_if calm in
          rw (audio, start)
            (omega (
              arith,
              running-append lib.jobs (record { file = file; stage = awaiting_url }),
              none_runs,
            ))
      | inr other ↦ rw (other, start) (told ∙ ap one_if calm)
    ]

    answer_job-IsTold :
        (k : ℕ) (a : Answer V) (job : Job V) (lib : Library V)
        → get_elem? lib.jobs k ≡ some job
        → IsTold lib
        → IsTold (answer_job backend k a job lib)
    unfolding answer_job
    answer_job-IsTold k a job lib h told = elim (Bool-cases (is_running job.stage)) [
      | inr over ↦
          subst
            (λ (end : Stage V × Page V).
              running (set lib.jobs k (record job { stage = end.0 }))
              ≡ one_if (is_busy end.1.upload))
            (sym (advance-finished job.stage a job.file lib.page over))
            (omega (arith, running-set lib.jobs k job job h, told))
      | inl runs ↦
          let one : one_if (is_running job.stage) ≡ 1 = ap one_if runs in
          let ended : Job V = record job { stage = finished none } in
          let end = advance backend job.stage a job.file lib.page in
          let busy : is_busy lib.page.upload ≡ true =
            one_if-pos (is_busy lib.page.upload)
              (omega (arith, running-set lib.jobs k job ended h, one, told)) in
          let only : running lib.jobs ≡ 1 = told ∙ ap one_if busy in
          let tells = ap one_if (advance-Tells job.stage a job.file lib.page (busy ∙ sym runs)) in
          omega
            (arith, running-set lib.jobs k job (record job { stage = end.0 }) h, one, only, tells)
    ]

    step-IsTold :
        (i : Input V) (lib : Library V)
        → IsCalmInput i lib
        → IsTold lib
        → IsTold (step backend i lib)
    unfolding step on_answer
    step-IsTold (picked none) lib calm told = told
    step-IsTold (picked (some file)) lib calm told = start-IsTold file lib calm told
    step-IsTold (dropped none) lib calm told = told
    step-IsTold (dropped (some file)) lib calm told = start-IsTold file _ calm told
    step-IsTold (answered k a) lib calm told =
        option_either IsTold (get_elem? lib.jobs k) (λ e. told)
          (λ job e. answer_job-IsTold k a job lib e told)
    step-IsTold dismissed lib calm told = dismissed-IsTold lib.page.upload refl
      where
        dismissed-IsTold :
            (u : UploadState) → lib.page.upload ≡ u → IsTold (step backend dismissed lib)
        dismissed-IsTold idle e = rw (e, step) told
        dismissed-IsTold (uploading progress name) e = rw (e, step) told
        dismissed-IsTold (confirming name) e = rw (e, step) told
        dismissed-IsTold (error message) e =
            rw (e, step) (told ∙ ap (λ (u' : UploadState). one_if (is_busy u')) e)

    Calm-IsTold : {lib : Library V} → Calm lib → IsTold lib
    Calm-IsTold (opened page calm) = sym (ap one_if calm)
    Calm-IsTold (next c i calm) = step-IsTold i _ calm (Calm-IsTold c)

    -- As long as no file is taken while the page is busy, it shows that it is busy exactly while an
    -- upload runs, and never do two uploads run at one time.
    pub Calm-busy_iff :
        {lib : Library V}
        → Calm lib
        → (is_busy lib.page.upload ≡ true ↔ running lib.jobs ≡ 1) × (running lib.jobs ≤ 1)
    Calm-busy_iff c =
        let told = Calm-IsTold c in
        (
          (λ busy. told ∙ ap one_if busy, λ one. one_if-pos _ (omega (arith, told))),
          omega (arith, told, one_if-le (is_busy _)),
        )
