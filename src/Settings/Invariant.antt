-- ===== src/Settings/Invariant.antt =====
-- What the page of a player's settings keeps to between two inputs.
use audio_server.Common.{
  List, String, [], if_either, inl, inr, none, option_either, refl, some, str_eq, ◌∷◌, ◌≡◌, ◌≢◌,
  ◌⊎◌,
}
use audio_server.Api.{
  ApiResult, Fetch, SettingsUpdate, UserSettings, get_settings, put_settings, rejects, resolved,
}
use audio_server.Forms.{FormData, Texts, idle}
use audio_server.Settings.{
  Input, Page, Work, answered, begin_load, complete, handle_load, handle_save, initial,
  load_submitted, loaded, loading, run, save_submitted, saved_as, saving, step, typed,
}

module _ {V : Type 0} where
  -- What the page knows of the call that is pending, and of the last save.
  pub record IsConsistent (p : Page V) : Type 0 where
    pub exclusive : (p.error ≡ none) ⊎ (p.settings ≡ none)
    pub named : p.error ≢ some ""
    pub cleared :
        (uuid : String)
        → p.pending ≡ some (loading uuid)
        → (p.settings ≡ none) × (p.error ≡ none) × (p.save_status ≡ idle)
    pub shown :
        (uuid : String) (update : SettingsUpdate V)
        → p.pending ≡ some (saving uuid update)
        → (s : UserSettings V) × (p.settings ≡ some s)
          × (s.player_uuid ≡ uuid)
          × (p.save_status ≡ idle)
    pub reported : (p.save_status ≡ idle) ⊎ ((s : UserSettings V) × (p.settings ≡ some s))

  pub initial-IsConsistent : IsConsistent (initial {V = V})
  initial-IsConsistent = record {
    exclusive = inl refl;
    named = λ h. cc;
    cleared = λ uuid h. cc;
    shown = λ uuid update h. cc;
    reported = inl refl;
  }

  loaded-IsConsistent :
      (r : ApiResult (UserSettings V)) (p : Page V) (uuid : String)
      → IsConsistent p
      → p.pending ≡ some (loading uuid)
      → IsConsistent (loaded r p)
  loaded-IsConsistent (resolved s) p uuid c e =
      let (no_settings, no_error, status) = c.cleared uuid e in
      record {
        exclusive = inl no_error;
        named = c.named;
        cleared = λ u h. cc;
        shown = λ u update h. cc;
        reported = inl status;
      }
  loaded-IsConsistent (rejects err) p uuid c e =
      let (no_settings, no_error, status) = c.cleared uuid e in
      record {
        exclusive = inr no_settings;
        named = λ h. cc;
        cleared = λ u h. cc;
        shown = λ u update h. cc;
        reported = inl status;
      }

  pub error_free :
      (p : Page V) (s : UserSettings V) → IsConsistent p → p.settings ≡ some s → p.error ≡ none
  error_free p s c e = elim c.exclusive [ inl h ↦ h | inr h ↦ cc ]

  saved_as-IsConsistent :
      (r : ApiResult (UserSettings V)) (p : Page V) (uuid : String) (update : SettingsUpdate V)
      → IsConsistent p
      → p.pending ≡ some (saving uuid update)
      → IsConsistent (saved_as r p)
  saved_as-IsConsistent (resolved s) p uuid update c e =
      let (shown_s, is_shown, same, status) = c.shown uuid update e in
      record {
        exclusive = inl (error_free p shown_s c is_shown);
        named = c.named;
        cleared = λ u h. cc;
        shown = λ u up h. cc;
        reported = inr (s, refl);
      }
  saved_as-IsConsistent (rejects err) p uuid update c e =
      let (shown_s, is_shown, same, status) = c.shown uuid update e in
      record {
        exclusive = c.exclusive;
        named = c.named;
        cleared = λ u h. cc;
        shown = λ u up h. cc;
        reported = inr (shown_s, is_shown);
      }

  typed-IsConsistent :
      (s : String) (p : Page V) → IsConsistent p → IsConsistent (record p { uuid_input = s })
  typed-IsConsistent s p c = record {
    exclusive = c.exclusive;
    named = c.named;
    cleared = c.cleared;
    shown = c.shown;
    reported = c.reported;
  }

  begin_load-IsConsistent : (uuid : String) (p : Page V) → IsConsistent (begin_load uuid p)
  begin_load-IsConsistent uuid p = record {
    exclusive = inl refl;
    named = λ h. cc;
    cleared = λ u h. (refl, refl, refl);
    shown = λ u update h. absurd cc;
    reported = inl refl;
  }

  complete-IsConsistent :
      (encode : String → String) (fetch : Fetch V (UserSettings V)) (work : Work V) (p : Page V)
      → IsConsistent p
      → p.pending ≡ some work
      → IsConsistent (complete encode fetch work p)
  unfolding complete
  complete-IsConsistent encode fetch (loading uuid) p c e =
      loaded-IsConsistent (get_settings V encode fetch uuid) p uuid c e
  complete-IsConsistent encode fetch (saving uuid update) p c e =
      saved_as-IsConsistent (put_settings V encode fetch uuid update) p uuid update c e

  module _ (texts : Texts V) where
    open texts use {trim}

    handle_load-IsConsistent : (p : Page V) → IsConsistent p → IsConsistent (handle_load texts p)
    unfolding handle_load
    handle_load-IsConsistent p c =
        if_either IsConsistent (str_eq (trim p.uuid_input) "") c
          (begin_load-IsConsistent (trim p.uuid_input) p)

    handle_save-IsConsistent :
        (fd : FormData) (p : Page V) → IsConsistent p → IsConsistent (handle_save texts fd p)
    unfolding handle_save
    handle_save-IsConsistent fd p c =
        option_either IsConsistent p.settings (λ e. c)
          (λ s e. record {
            exclusive = c.exclusive;
            named = c.named;
            cleared = λ uuid h. cc;
            shown = λ uuid update h. (s, e, cc, refl);
            reported = inl refl;
          })

    step-IsConsistent :
        (encode : String → String) (i : Input V) (p : Page V)
        → IsConsistent p
        → IsConsistent (step encode texts i p)
    unfolding step complete
    step-IsConsistent encode (typed s) p c = typed-IsConsistent s p c
    step-IsConsistent encode load_submitted p c =
        if_either IsConsistent _ (handle_load-IsConsistent p c) c
    step-IsConsistent encode (save_submitted fd) p c =
        if_either IsConsistent _ (handle_save-IsConsistent fd p c) c
    step-IsConsistent encode (answered fetch) p c =
        option_either IsConsistent p.pending (λ e. c)
          (λ work e. complete-IsConsistent encode fetch work p c e)

    pub run-IsConsistent :
        (encode : String → String) (inputs : List (Input V)) (p : Page V)
        → IsConsistent p
        → IsConsistent (run encode texts inputs p)
    unfolding run
    run-IsConsistent encode [] p c = c
    run-IsConsistent encode (i ∷ inputs) p c =
        run-IsConsistent encode inputs (step encode texts i p) (step-IsConsistent encode i p c)
