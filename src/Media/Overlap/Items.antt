-- ===== src/Media/Overlap/Items.antt =====
-- The list of the media page while uploads run beside each other: no entry is lost.
use mathlib.Core.Path.{subst}
use mathlib.Core.List.{Perm, perm_middle}
use mathlib.Core.List.Perm
use audio_server.Common.{
  Bool-cases, List, [], ap, arith, get_elem?, inl, inr, none, option_either, refl, set, some,
  starts_with, suc, sym, zero, ℕ, ◌++◌, ◌∙◌, ◌∷◌, ◌≡◌, ◌⊎◌,
}
use audio_server.Api.{AudioMediaItem, rejects, resolved}
use audio_server.Media.{
  Backend, File, Page, UploadState, confirming, error, idle, is_put_ok, uploading,
}
use audio_server.Media.Overlap.{
  Answer, Input, Job, Library, Stage, advance, answer_job, answered, awaiting_entry,
  awaiting_storage, awaiting_url, dismissed, dropped, entry_answered, finished, on_answer, picked,
  progressed, put_ended, run, start, step, url_answered,
}

module _ {V : Type 0} where
  -- The entry that a call has put into the list.
  abbrev pub entry_of : Stage V → List (AudioMediaItem V)
  entry_of (finished (some item)) = item ∷ []
  entry_of _ = []

  abbrev pub entries : List (Job V) → List (AudioMediaItem V)
  entries [] = []
  entries (job ∷ jobs) = entry_of job.stage ++ entries jobs

  entries-append :
      (jobs : List (Job V)) (job : Job V)
      → entry_of job.stage ≡ []
      → entries (jobs ++ job ∷ []) ≡ entries jobs
  entries-append [] job h = rw h refl
  entries-append (j ∷ jobs) job h = ap (λ l. entry_of j.stage ++ l) (entries-append jobs job h)

  entries-set_same :
      (jobs : List (Job V)) (k : ℕ) (job job' : Job V)
      → get_elem? jobs k ≡ some job
      → entry_of job'.stage ≡ entry_of job.stage
      → entries (set jobs k job') ≡ entries jobs
  entries-set_same [] k job job' h e = refl
  entries-set_same (j ∷ jobs) zero job job' h e =
      let same : j ≡ job = ground arith in
      ap (λ l. l ++ entries jobs) (e ∙ sym (ap (λ (x : Job V). entry_of x.stage) same))
  entries-set_same (j ∷ jobs) (suc k) job job' h e =
      ap (λ l. entry_of j.stage ++ l) (entries-set_same jobs k job job' h e)

  entries-set_new :
      (jobs : List (Job V)) (k : ℕ) (job job' : Job V) (item : AudioMediaItem V)
      → get_elem? jobs k ≡ some job
      → entry_of job.stage ≡ []
      → entry_of job'.stage ≡ item ∷ []
      → Perm (entries (set jobs k job')) (item ∷ entries jobs)
  entries-set_new [] k job job' item h e e' = absurd cc
  entries-set_new (j ∷ jobs) zero job job' item h e e' =
      let same : j ≡ job = ground arith in
      let old : entry_of j.stage ≡ [] = ap (λ (x : Job V). entry_of x.stage) same ∙ e in
      rw (e', old) (Perm.refl _)
  entries-set_new (j ∷ jobs) (suc k) job job' item h e e' =
      Perm.trans (Perm.append_left (entry_of j.stage) (entries-set_new jobs k job job' item h e e'))
        (perm_middle (entry_of j.stage) (entries jobs))

  module _ (backend : Backend V) where
    -- What an answer does to the list: nothing, or it puts the entry of its call in front.
    abbrev Puts : Stage V → Page V → Stage V × Page V → Type 0
    Puts stage p end =
        ((end.1.items ≡ p.items) × (entry_of end.0 ≡ entry_of stage))
        ⊎ ((item : AudioMediaItem V) × (end.1.items ≡ item ∷ p.items)
            × (entry_of stage ≡ [])
            × (entry_of end.0 ≡ item ∷ []))

    advance-Puts :
        (stage : Stage V) (a : Answer V) (file : File V) (p : Page V)
        → Puts stage p (advance backend stage a file p)
    unfolding advance
    advance-Puts awaiting_url (url_answered (rejects e)) file p = inl (refl, refl)
    advance-Puts awaiting_url (url_answered (resolved target)) file p = inl (refl, refl)
    advance-Puts (awaiting_storage target) (progressed ev) file p = inl (refl, refl)
    advance-Puts (awaiting_storage target) (put_ended end) file p =
        elim (Bool-cases (is_put_ok end)) [
          | inl stored ↦ rw (stored, advance) (inl (refl, refl))
          | inr failed ↦ rw (failed, advance) (inl (refl, refl))
        ]
    advance-Puts (awaiting_entry key) (entry_answered (resolved item)) file p =
        inr (item, refl, refl, refl)
    advance-Puts (awaiting_entry key) (entry_answered (rejects e)) file p = inl (refl, refl)
    advance-Puts stage a file p = inl (refl, refl)

    -- The list is what it was with the entries of the calls, in some order.
    abbrev IsKept : List (AudioMediaItem V) → Library V → Type 0
    IsKept before lib = Perm lib.page.items (entries lib.jobs ++ before)

    start-IsKept :
        (before : List (AudioMediaItem V)) (file : File V) (lib : Library V)
        → IsKept before lib
        → IsKept before (start backend file lib)
    unfolding start
    start-IsKept before file lib kept = elim (Bool-cases (starts_with file.mime "audio/")) [
      | inl audio ↦
          rw (audio, start)
            (rw (entries-append lib.jobs (record { file = file; stage = awaiting_url }) refl) kept)
      | inr other ↦ rw (other, start) kept
    ]

    answer_job-IsKept :
        (before : List (AudioMediaItem V)) (k : ℕ) (a : Answer V) (job : Job V) (lib : Library V)
        → get_elem? lib.jobs k ≡ some job
        → IsKept before lib
        → IsKept before (answer_job backend k a job lib)
    unfolding answer_job
    answer_job-IsKept before k a job lib h kept =
        let end = advance backend job.stage a job.file lib.page in
        let job' : Job V = record job { stage = end.0 } in
        elim (advance-Puts job.stage a job.file lib.page) [
          | inl (items, entry) ↦
              subst (λ l. Perm l (entries (set lib.jobs k job') ++ before)) (sym items)
                (subst (λ l. Perm lib.page.items (l ++ before))
                  (sym (entries-set_same lib.jobs k job job' h entry)) kept)
          | inr (item, items, before_none, entry) ↦
              subst (λ l. Perm l (entries (set lib.jobs k job') ++ before)) (sym items)
                (Perm.trans (Perm.cons item kept) (
                  Perm.symm (
                    Perm.append_right before
                      (entries-set_new lib.jobs k job job' item h before_none entry))))
        ]

    step-IsKept :
        (before : List (AudioMediaItem V)) (i : Input V) (lib : Library V)
        → IsKept before lib
        → IsKept before (step backend i lib)
    unfolding step on_answer
    step-IsKept before (picked none) lib kept = kept
    step-IsKept before (picked (some file)) lib kept = start-IsKept before file lib kept
    step-IsKept before (dropped none) lib kept = kept
    step-IsKept before (dropped (some file)) lib kept = start-IsKept before file _ kept
    step-IsKept before (answered k a) lib kept =
        option_either (IsKept before) (get_elem? lib.jobs k) (λ e. kept)
          (λ job e. answer_job-IsKept before k a job lib e kept)
    step-IsKept before dismissed lib kept = dismissed-IsKept lib.page.upload refl
      where
        dismissed-IsKept :
            (u : UploadState) → lib.page.upload ≡ u → IsKept before (step backend dismissed lib)
        dismissed-IsKept idle e = rw (e, step) kept
        dismissed-IsKept (uploading progress name) e = rw (e, step) kept
        dismissed-IsKept (confirming name) e = rw (e, step) kept
        dismissed-IsKept (error message) e = rw (e, step) kept

    run-IsKept :
        (before : List (AudioMediaItem V)) (inputs : List (Input V)) (lib : Library V)
        → IsKept before lib
        → IsKept before (run backend inputs lib)
    unfolding run
    run-IsKept before [] lib kept = kept
    run-IsKept before (i ∷ inputs) lib kept =
        run-IsKept before inputs _ (step-IsKept before i lib kept)

    -- However uploads overlap, the list of the page gains exactly the entries that the relay has
    -- confirmed to them, each as often as it was confirmed, and loses nothing, while the list is
    -- neither loaded again nor deleted from.
    pub entries_kept :
        (page : Page V) (inputs : List (Input V))
        → let lib = run backend inputs (record { page = page; jobs = [] }) in
          Perm lib.page.items (entries lib.jobs ++ page.items)
    entries_kept page inputs =
        run-IsKept page.items inputs (record { page = page; jobs = [] }) (Perm.refl page.items)
