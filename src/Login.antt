-- ===== src/Login.antt =====
-- portal/app/login/page.tsx: the page with the two forms of an admin's login. A form's action runs on
-- the server, on the cookies that the browser has then; its answer is an input of the page.
pub mod Laws
pub mod Attempt
use audio_server.Common.{
  Bool, true, false, List, Option, String, [], if◌then◌else◌, is_some, none, not, some, ℕ, ◌&&◌,
  ◌∷◌,
}
use audio_server.Http.{Env, FetchRequest, Fetched, truthy}
use audio_server.Http.Cookies.{Jar}
use audio_server.Auth.{Jose}
use audio_server.Actions.{
  ActionResult, FormValue, JsonTexts, failed, login_with_credentials, login_with_secret, redirected,
  threw,
}

pub data Tab : Type 0 where
  credentials secret : Tab

-- The page is shown, has been left for a path, or gave way to an error.
pub data Place : Type 0 where
  open_page crashed : Place
  left_for : (path : String) → Place

-- The state of `useActionState`: the error of the last answer, and the fields that wait for one.
pub record ActionState (F : Type 0) : Type 0 where
  pub error : Option String
  pub pending : Option F

pub record Page : Type 0 where
  pub tab : Tab
  pub cred : ActionState (FormValue × FormValue)
  pub secret : ActionState FormValue
  pub place : Place
  pub jar : Jar

pub data Input : Type 0 where
  chosen : Tab → Input
  cred_submitted : (username password : FormValue) → Input
  secret_submitted : (secret : FormValue) → Input
  cred_answered : (FetchRequest JsonTexts → Fetched String) → Input
  secret_answered : (now : ℕ) → Input

abbrev pub idle : {F : Type 0} → ActionState F
idle = record { error = none; pending = none }

abbrev pub initial : Jar → Page
initial jar = record { tab = credentials; cred = idle; secret = idle; place = open_page; jar = jar }

-- A form is there under its tab, and its button is disabled while an answer is awaited.
abbrev pub submit : {F : Type 0} → Bool → F → ActionState F → ActionState F
submit shown fields a =
    if shown && not (is_some a.pending) then record a { pending = some fields } else a

abbrev pub is_credentials : Tab → Bool
is_credentials credentials = true
is_credentials secret = false

abbrev pub is_open : Place → Bool
is_open open_page = true
is_open _ = false

-- The state that an action returns.
abbrev pub answered : {F : Type 0} → ActionResult → ActionState F → ActionState F
answered (failed e) a = record { error = some e; pending = none }
answered _ a = record a { pending = none }

-- Where an answer leads; once the page is not shown any more, that does not change.
abbrev pub moved : ActionResult → Place → Place
moved (failed e) place = place
moved (redirected path) place = if is_open place then left_for path else place
moved threw place = if is_open place then crashed else place

abbrev pub on_cred_answer : ActionResult × Jar → Page → Page
on_cred_answer (r, jar) p = record p {
  cred = answered r p.cred;
  place = moved r p.place;
  jar = jar;
}

abbrev pub on_secret_answer : ActionResult × Jar → Page → Page
on_secret_answer (r, jar) p = record p {
  secret = answered r p.secret;
  place = moved r p.place;
  jar = jar;
}

module _ (env : Env) (jose : Jose) where
  unfoldable pub step : Input → Page → Page
  step (chosen t) p = record p { tab = t }
  step (cred_submitted u w) p = record p {
    cred = submit (is_open p.place && is_credentials p.tab) (u, w) p.cred;
  }
  step (secret_submitted s) p = record p {
    secret = submit (is_open p.place && not (is_credentials p.tab)) s p.secret;
  }
  step (cred_answered fetch) p = elim p.cred.pending [
    | none ↦ p
    | some (u, w) ↦ on_cred_answer (login_with_credentials env fetch u w p.jar) p
  ]
  step (secret_answered now) p = elim p.secret.pending [
    | none ↦ p
    | some s ↦ on_secret_answer (login_with_secret env jose now s p.jar) p
  ]

  unfoldable pub run : List Input → Page → Page
  run [] p = p
  run (i ∷ inputs) p = run inputs (step i p)

-- The form under the tab: its error and its button.
pub record FormView : Type 0 where
  pub error : Option String
  pub label : String
  pub disabled : Bool

abbrev pub form_view : {F : Type 0} → ActionState F → FormView
form_view a = record {
  error = truthy a.error;
  label = if is_some a.pending then "Signing in…" else "Sign In";
  disabled = is_some a.pending;
}

unfoldable pub view : Page → FormView
view p = elim p.tab [ credentials ↦ form_view p.cred | secret ↦ form_view p.secret ]
