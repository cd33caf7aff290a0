-- ===== src/Preferences/Laws.antt =====
-- What the page of a player's preferences promises.

use audio_server.Common.{
  Bool-cases, Option-cases, ap, false, inl, inr, none, refl, some, true, ◌∙◌, ◌≡◌,
}
use audio_server.Http.{Fetched, Reply, is_ok, rejected, replied}
use audio_server.Forms.{FormData, Texts, save_error, saved}
use audio_server.Preferences.{
  Page, PlayerProfile, ProfilePatch, handle_save, merge, on_saved, save_answered, save_message,
  save_request, save_submitted, shown_form, spread, step, view, view_profile,
}

module _ {V : Type 0} where
  -- How a save of the profile `d` ends: `p` is the page after the answer `r`.
  pub data Ends (d : PlayerProfile V) (r : Fetched (ProfilePatch V)) (p : Page V) : Type 0 where
    is_saved :
        (res : Reply (ProfilePatch V)) (updated : ProfilePatch V)
        → r ≡ replied res
        → is_ok res ≡ true
        → res.body ≡ some updated
        → view p ≡ shown_form (spread d updated) "Save" (some "Saved.")
        → Ends d r p
    is_not_saved :
        ((res : Reply (ProfilePatch V)) → r ≡ replied res → is_ok res ≡ true → res.body ≡ none)
        → view p ≡ shown_form d "Save" (some "Save failed — try again.")
        → Ends d r p

  view_form :
      (p : Page V) (d : PlayerProfile V)
      → p.error ≡ none
      → p.profile ≡ some d
      → p.pending ≡ none
      → view p ≡ shown_form d "Save" (save_message p.save_msg)
  unfolding view view_profile
  view_form p d no_error e idle_page = rw (no_error, e, idle_page) refl

  on_saved-unread :
      (res : Reply (ProfilePatch V)) (p : Page V)
      → is_ok res ≡ true
      → res.body ≡ none
      → on_saved (replied res) p ≡ record p { save_msg = save_error; pending = none }
  unfolding on_saved
  on_saved-unread res p ok unread = rw (ok, unread) refl

  on_saved-read :
      (res : Reply (ProfilePatch V)) (updated : ProfilePatch V) (p : Page V)
      → is_ok res ≡ true
      → res.body ≡ some updated
      → on_saved (replied res) p
        ≡ record p { profile = merge updated p.profile; save_msg = saved; pending = none }
  unfolding on_saved
  on_saved-read res updated p ok read = rw (ok, read) refl

  on_saved-refused :
      (res : Reply (ProfilePatch V)) (p : Page V)
      → is_ok res ≡ false
      → on_saved (replied res) p ≡ record p { save_msg = save_error; pending = none }
  unfolding on_saved
  on_saved-refused res p not_ok = rw not_ok refl

  on_saved-Ends :
      (d : PlayerProfile V) (r : Fetched (ProfilePatch V)) (p : Page V)
      → p.error ≡ none
      → p.profile ≡ some d
      → Ends d r (on_saved r p)
  unfolding on_saved
  on_saved-Ends d rejected p no_error e =
      is_not_saved (λ res h. absurd cc) (view_form _ d no_error e refl)
  on_saved-Ends d (replied res) p no_error e = elim (Bool-cases (is_ok res)) [
    | inl ok ↦ elim (Option-cases res.body) [
      | inl unread ↦
          is_not_saved (λ other h accepted. cc)
            (ap view (on_saved-unread res p ok unread) ∙ view_form _ d no_error e refl)
      | inr (updated, read) ↦ is_saved res updated refl ok read (
          ap view (on_saved-read res updated p ok read)
          ∙ view_form _ (spread d updated) no_error (ap (merge updated) e) refl)
    ]
    | inr not_ok ↦
        is_not_saved (λ other h accepted. absurd cc)
          (ap view (on_saved-refused res p not_ok) ∙ view_form _ d no_error e refl)
  ]

  -- A save by the form that is shown asks the relay for the form's values; until the answer comes the
  -- profile is shown as it was. Then it is shown with the answer's fields in place of its own, as
  -- saved, if the relay accepts and its answer can be read, and else as it was, with an error.
  handle_save-Ends :
      (texts : Texts V) (fd : FormData) (r : Fetched (ProfilePatch V)) (p : Page V)
      (d : PlayerProfile V)
      → p.error ≡ none
      → p.profile ≡ some d
      → p.pending ≡ none
      → let p1 = step texts (save_submitted fd) p in
        (p1.pending ≡ some (save_request texts fd))
        × (view p1 ≡ shown_form d "Saving…" none)
        × Ends d r (step texts (save_answered r) p1)
  unfolding step handle_save view view_profile
  handle_save-Ends texts fd r p d no_error e idle_page = (
    rw (e, no_error, idle_page) refl,
    rw (e, no_error, idle_page) refl,
    rw (e, no_error, idle_page) (on_saved-Ends d r _ refl refl),
  )
