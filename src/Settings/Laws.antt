-- ===== src/Settings/Laws.antt =====
-- What the page of a player's settings promises.
use audio_server.Settings.Invariant.{
  IsConsistent, error_free, initial-IsConsistent, run-IsConsistent,
}
use audio_server.Http.{Fetched, Reply, is_ok, rejected, replied, truthy}
use audio_server.Common.{
  is_some, Bool-cases, List, Option, Option-cases, String, [], ap, eq_iff, false, inl, inr, none,
  refl, some, str_eq, is_text, template, ◌∙◌, true, ◌∷◌, ◌≡◌, ◌≢◌,
}
use audio_server.Api.{Fetch, UserSettings, bool, expect, num, put_settings}
use audio_server.Forms.{FormData, Texts, idle, save_error, saved}
use audio_server.Settings.{
  Input, Page, View, answered, complete, form_update, handle_save, initial, run, save_submitted,
  saved_as, saving, step, typed, view,
}

truthy_of_named : (o : Option String) → o ≢ some "" → truthy o ≡ o
truthy_of_named none h = refl
truthy_of_named (some s) h = elim (Bool-cases (str_eq s "")) [
  | inl e ↦ absurd (h (ap some ((eq_iff s "").0 e)))
  | inr e ↦ rw (e, truthy) refl
]

module _ {V : Type 0} where
  -- The error, the form and the hint: the page shows one of the three.
  pub data ShowsOne (v : View V) : Type 0 where
    shows_banner :
        (text : String) → v.banner ≡ some text → v.form ≡ none → v.hint ≡ false → ShowsOne v
    shows_form : v.banner ≡ none → is_some v.form ≡ true → v.hint ≡ false → ShowsOne v
    shows_hint : v.banner ≡ none → v.form ≡ none → v.hint ≡ true → ShowsOne v

  view-ShowsOne : (p : Page V) → IsConsistent p → ShowsOne (view p)
  unfolding view
  view-ShowsOne p c =
      let banner = truthy_of_named p.error c.named in
      elim (Option-cases p.settings) [
        | inr (s, e) ↦
            let no_error = error_free p s c e in
            shows_form (rw (banner, no_error) refl) (rw e refl) (rw e refl)
        | inl e ↦ elim (Option-cases p.error) [
          | inl no_error ↦
              shows_hint (rw (banner, no_error) refl) (rw e refl) (rw (e, banner, no_error) refl)
          | inr (text, is_error) ↦
              shows_banner text (rw (banner, is_error) refl) (rw e refl)
                (rw (e, banner, is_error) refl)
        ]
      ]

  module _ (encode : String → String) (texts : Texts V) where
    -- Whatever is typed and submitted and whatever the relay answers, the page shows exactly one of its
    -- three parts: an error that is not empty, the form with settings, or the hint.
    pub run-ShowsOne : (inputs : List (Input V)) → ShowsOne (view (run encode texts inputs initial))
    run-ShowsOne inputs =
        view-ShowsOne _ (run-IsConsistent texts encode inputs initial initial-IsConsistent)

    save_run :
        (fd : FormData) (typing : String) (fetch : Fetch V (UserSettings V)) (p : Page V)
        (s : UserSettings V)
        → p.settings ≡ some s
        → p.pending ≡ none
        → run encode texts (save_submitted fd ∷ typed typing ∷ answered fetch ∷ []) p
          ≡ saved_as (put_settings V encode fetch s.player_uuid (form_update texts fd)) (record p {
            uuid_input = typing;
            save_status = idle;
            pending = some (saving s.player_uuid (form_update texts fd));
          })
    unfolding run step handle_save complete
    save_run fd typing fetch p s e idle_page = rw (e, idle_page) refl

    saved_as-answered :
        (r : Fetched (UserSettings V)) (p : Page V) (res : Reply (UserSettings V))
        (j : UserSettings V)
        → r ≡ replied res
        → is_ok res ≡ true
        → res.body ≡ some j
        → let p' = saved_as (expect "settings PUT" r) p in
          (p'.pending ≡ none) × (p'.settings ≡ some j) × (p'.save_status ≡ saved)
    saved_as-answered r p res j e ok read = rw e (rw (ok, read) (refl, refl, refl))

    saved_as-refused :
        (r : Fetched (UserSettings V)) (p : Page V)
        → ((res : Reply (UserSettings V)) (j : UserSettings V)
            → r ≡ replied res
            → is_ok res ≡ true
            → res.body ≢ some j)
        → let p' = saved_as (expect "settings PUT" r) p in
          (p'.pending ≡ none) × (p'.settings ≡ p.settings) × (p'.save_status ≡ save_error)
    saved_as-refused rejected p h = (refl, refl, refl)
    saved_as-refused (replied res) p h = elim (Bool-cases (is_ok res)) [
      | inl ok ↦ elim (Option-cases res.body) [
        | inl lacks ↦ rw (ok, lacks) (refl, refl, refl)
        | inr (j, read) ↦ absurd (h res j refl ok read)
      ]
      | inr bad ↦ rw bad (refl, refl, refl)
    ]

    -- A save from the form that is shown, while no other call is pending and whatever is typed meanwhile,
    -- is decided by the answer to a PUT to the address of the shown player's settings, of JSON with the
    -- form's volume and with its check box. If the relay answers it with a status from 200 to 299 and
    -- settings, then these are shown as saved; if it does not, the settings shown stay, with an error at
    -- the form. In both cases the save is over.
    pub save-Ends :
        (fd : FormData) (typing : String) (fetch : Fetch V (UserSettings V)) (p : Page V)
        (s : UserSettings V)
        → p.settings ≡ some s
        → p.pending ≡ none
        → let p' = run encode texts (save_submitted fd ∷ typed typing ∷ answered fetch ∷ []) p in
          let r = fetch (record {
            url = template ("/api/relay/settings/" ∷ encode s.player_uuid ∷ []);
            method = "PUT";
            headers = ("Content-Type", "application/json") ∷ [];
            body = some (
                ("volume_override", num (texts.parse_float (fd "volume")))
                ∷ ("audio_enabled", bool (is_text (fd "audio_enabled") "on"))
                ∷ []);
          }) in
          ((res : Reply (UserSettings V)) (j : UserSettings V)
            → r ≡ replied res
            → is_ok res ≡ true
            → res.body ≡ some j
            → (p'.pending ≡ none) × (p'.settings ≡ some j) × (p'.save_status ≡ saved))
          × (((res : Reply (UserSettings V)) (j : UserSettings V)
                → r ≡ replied res
                → is_ok res ≡ true
                → res.body ≢ some j)
              → (p'.pending ≡ none) × (p'.settings ≡ some s) × (p'.save_status ≡ save_error))
    unfolding put_settings
    save-Ends fd typing fetch p s e idle_page =
        let path = save_run fd typing fetch p s e idle_page in
        (
          λ res j h ok read. rw path (saved_as-answered _ _ res j h ok read),
          λ h.
              let (over, kept, failed) = saved_as-refused _ _ h in rw path (over, kept ∙ e, failed),
        )
