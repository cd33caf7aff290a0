-- ===== src/Login/Attempt.antt =====
-- One attempt to log in by the first form of portal/app/login/page.tsx, with anything beside it.
use audio_server.Common.{
  All, Bool, List, Option, String, [], false, none, option_either, refl, some, true, ◌∙◌, ◌∷◌, ◌≡◌,
  sym, ap,
}
use mathlib.Core.Path.{subst}
use audio_server.Http.{Env, FetchRequest, Fetched}
use audio_server.Http.Cookies.{Jar}
use audio_server.Auth.{Jose}
use audio_server.Actions.{
  ActionResult, FormValue, JsonTexts, failed, login_with_credentials, redirected, threw,
}
use audio_server.Login.{
  ActionState, Input, Page, chosen, crashed, cred_answered, cred_submitted, credentials, left_for,
  on_cred_answer, open_page, run, secret_answered, secret_submitted, step, submit, view,
}
use audio_server.Login.Laws.{Acts, login_with_credentials-Acts, login_with_secret-Acts, moved-open}

abbrev pub answers : Input → Bool
answers (cred_answered fetch) = true
answers _ = false

-- The first form waits for an answer on these fields; as long as the page is shown, its cookies are
-- those of the start.
record IsWaiting (fields : FormValue × FormValue) (jar : Jar) (p : Page) : Type 0 where
  waits : p.cred.pending ≡ some fields
  kept : p.place ≡ open_page → p.jar ≡ jar

-- How an attempt that started with the cookies `jar` ends, by the result of its action: the error
-- under the form, which is ready again, or the way to a path with the cookies of the action, or an
-- exception.
abbrev pub Ends : ActionResult × Jar → Jar → Page → Type 0
Ends (failed e, jar') jar p =
    (p.place ≡ open_page)
    × (p.jar ≡ jar)
    × (view (record p { tab = credentials })
        ≡ record { error = some e; label = "Sign In"; disabled = false })
Ends (redirected path, jar') jar p = (p.place ≡ left_for path) × (p.jar ≡ jar')
Ends (threw, jar') jar p = (p.place ≡ crashed) × (p.jar ≡ jar)

on_cred_answer-Ends :
    (r : ActionResult) (jar jar' : Jar) (p : Page)
    → Acts (r, jar') jar
    → p.place ≡ open_page
    → Ends (r, jar') jar (on_cred_answer (r, jar') p)
unfolding view
on_cred_answer-Ends (failed e) jar jar' p (same, shown) h = (
  h,
  same,
  ap (λ (o : Option String). record { error = o; label = "Sign In"; disabled = false }) shown,
)
on_cred_answer-Ends (redirected path) jar jar' p acts h = (rw h refl, refl)
on_cred_answer-Ends threw jar jar' p same h = (rw h refl, same)

submit-kept :
    {F : Type 0} (shown : Bool) (old new : F) (a : ActionState F)
    → a.pending ≡ some old
    → (submit shown new a).pending ≡ some old
submit-kept true old new a h = rw h refl
submit-kept false old new a h = h

module _ (env : Env) (jose : Jose) (fields : FormValue × FormValue) (jar : Jar) where
  step-IsWaiting :
      (i : Input) (p : Page)
      → answers i ≡ false
      → IsWaiting fields jar p
      → IsWaiting fields jar (step env jose i p)
  unfolding step
  step-IsWaiting (chosen t) p other w = record { waits = w.waits; kept = w.kept }
  step-IsWaiting (cred_submitted u v) p other w = record {
    waits = submit-kept _ fields (u, v) p.cred w.waits;
    kept = w.kept;
  }
  step-IsWaiting (secret_submitted s) p other w = record { waits = w.waits; kept = w.kept }
  step-IsWaiting (cred_answered fetch) p other w = absurd cc
  step-IsWaiting (secret_answered now) p other w =
      option_either (IsWaiting fields jar) p.secret.pending (λ _. w)
        (λ s _. record {
          waits = w.waits;
          kept = λ h.
              let (open_before, same) =
                moved-open _ p.jar _ p.place (login_with_secret-Acts env jose now s p.jar) h in
              same ∙ w.kept open_before;
        })

  run-IsWaiting :
      (inputs : List Input) (p : Page)
      → All (λ i. answers i ≡ false) inputs
      → IsWaiting fields jar p
      → IsWaiting fields jar (run env jose inputs p)
  unfolding run
  run-IsWaiting [] p others w = w
  run-IsWaiting (i ∷ inputs) p (other, others) w =
      run-IsWaiting inputs (step env jose i p) others (step-IsWaiting i p other w)

module _ (env : Env) (jose : Jose) where
  step-answered :
      (fetch : FetchRequest JsonTexts → Fetched String) (u w : FormValue) (jar : Jar) (p : Page)
      → IsWaiting (u, w) jar p
      → p.place ≡ open_page
      → step env jose (cred_answered fetch) p
        ≡ on_cred_answer (login_with_credentials env fetch u w jar) p
  unfolding step
  step-answered fetch u w jar p waiting h =
      ap
        (λ (o : Option (FormValue × FormValue)). elim o [
          | none ↦ p
          | some (u, w) ↦ on_cred_answer (login_with_credentials env fetch u w p.jar) p
        ])
        waiting.waits
      ∙ ap (λ (j : Jar). on_cred_answer (login_with_credentials env fetch u w j) p) (waiting.kept h)

  answer-Ends :
      (fetch : FetchRequest JsonTexts → Fetched String) (u w : FormValue) (jar : Jar) (p : Page)
      → IsWaiting (u, w) jar p
      → p.place ≡ open_page
      → Ends (login_with_credentials env fetch u w jar) jar (step env jose (cred_answered fetch) p)
  answer-Ends fetch u w jar p waiting h =
      let out = login_with_credentials env fetch u w jar in
      subst (Ends out jar) (sym (step-answered fetch u w jar p waiting h))
        (on_cred_answer-Ends out.0 jar out.1 p (login_with_credentials-Acts env fetch u w jar) h)

  submitted-IsWaiting :
      (u w : FormValue) (p : Page)
      → p.place ≡ open_page
      → p.tab ≡ credentials
      → p.cred.pending ≡ none
      → IsWaiting (u, w) p.jar (step env jose (cred_submitted u w) p)
  unfolding step
  submitted-IsWaiting u w p shown tab ready = record {
    waits = rw (shown, tab, ready) refl;
    kept = λ _. refl;
  }

  -- An attempt by the first form, whose button is enabled, ends by the answer to the fields that were
  -- submitted, whatever else is done at the page in between as long as it is shown: the error of the
  -- answer is shown under the form, which is ready again, and no cookie has changed; or the page is
  -- left for the answer's path with the answer's cookies; or an exception takes the page down.
  pub attempt-Ends :
      (u w : FormValue) (p : Page) (inputs : List Input)
      (fetch : FetchRequest JsonTexts → Fetched String)
      → p.place ≡ open_page
      → p.tab ≡ credentials
      → p.cred.pending ≡ none
      → All (λ i. answers i ≡ false) inputs
      → let before = run env jose (cred_submitted u w ∷ inputs) p in
        before.place ≡ open_page
        → Ends
            (login_with_credentials env fetch u w p.jar)
            p.jar
            (step env jose (cred_answered fetch) before)
  unfolding run
  attempt-Ends u w p inputs fetch shown tab ready others still =
      answer-Ends fetch u w p.jar _
        (run-IsWaiting env jose (u, w) p.jar inputs _ others
          (submitted-IsWaiting u w p shown tab ready))
        still
