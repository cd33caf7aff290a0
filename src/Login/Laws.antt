-- ===== src/Login/Laws.antt =====
-- What the login page promises.
use mathlib.Core.Path.{subst}
use audio_server.Http.{Env, FetchRequest, Fetched, is_ok, rejected, replied, truthy}
use audio_server.Http.Cookies
use audio_server.Http.Cookies.{Cookie, Jar, get, get-set, set}
use audio_server.Common.{
  List, String, [], arith, eq_iff, if_either, inl, inr, ◌⊎◌, not, option_either, refl, some, sym, ℕ,
  ◌==◌, ◌∙◌, ◌∷◌, ◌≡◌, ◌≢◌,
}
use audio_server.Auth.{Jose, admin_cookie}
use audio_server.Actions.{
  ActionResult, FormValue, JsonTexts, failed, given, is_secret, login_reply, login_with_credentials,
  login_with_secret, redirected, threw, login_request,
}
use audio_server.Login.{
  Input, Page, Place, is_open, chosen, crashed, cred_answered, cred_submitted, initial, left_for,
  moved, open_page, run, secret_answered, secret_submitted, step,
}

-- What both actions do: an error that is shown and no cookie, an admin's cookie and the way to the
-- dashboard, or an exception.
abbrev pub Acts : ActionResult × Jar → Jar → Type 0
Acts (failed e, jar') jar = (jar' ≡ jar) × (truthy (some e) ≡ some e)
Acts (redirected path, jar') jar =
    (path ≡ "/dashboard") × ((c : Cookie) × (jar' ≡ Cookies.set admin_cookie c jar))
Acts (threw, jar') jar = jar' ≡ jar

login_reply-Acts : (env : Env) (r : Fetched String) (jar : Jar) → Acts (login_reply env r jar) jar
unfolding login_reply
login_reply-Acts env rejected jar = (refl, refl)
login_reply-Acts env (replied r) jar =
    let P : ActionResult × Jar → Type 0 = λ out. Acts out jar in
    if_either P (r.status == 401) (refl, refl)
      (if_either P (r.status == 503) (refl, refl)
        (if_either P (not (is_ok r)) (refl, refl)
          (option_either P r.body (λ _. refl) (λ jwt _. (refl, (_, refl))))))

pub login_with_credentials-Acts :
    (env : Env) (fetch : FetchRequest JsonTexts → Fetched String) (u w : FormValue) (jar : Jar)
    → Acts (login_with_credentials env fetch u w jar) jar
unfolding login_with_credentials
login_with_credentials-Acts env fetch u w jar =
    let P : ActionResult × Jar → Type 0 = λ out. Acts out jar in
    option_either P (given u) (λ _. (refl, refl))
      (λ u' _.
        option_either P (given w) (λ _. (refl, refl))
          (λ w' _. login_reply-Acts env (fetch (login_request env u' w')) jar))

pub login_with_secret-Acts :
    (env : Env) (jose : Jose) (now : ℕ) (s : FormValue) (jar : Jar)
    → Acts (login_with_secret env jose now s jar) jar
unfolding login_with_secret
login_with_secret-Acts env jose now s jar =
    if_either (λ out. Acts out jar) (not (is_secret env s)) (refl, refl) (refl, (_, refl))

-- An answer after which the page is still shown has changed no cookie.
pub moved-open :
    (r : ActionResult) (jar jar' : Jar) (place : Place)
    → Acts (r, jar') jar
    → moved r place ≡ open_page
    → (place ≡ open_page) × (jar' ≡ jar)
moved-open (failed e) jar jar' place (same, _) h = (h, same)
moved-open (redirected path) jar jar' open_page a h = cc
moved-open (redirected path) jar jar' crashed a h = cc
moved-open (redirected path) jar jar' (left_for q) a h = cc
moved-open threw jar jar' open_page same h = cc
moved-open threw jar jar' crashed same h = cc
moved-open threw jar jar' (left_for q) same h = cc

never_open : (path : String) (place : Place) → moved (redirected path) place ≢ open_page
never_open path open_page h = cc
never_open path crashed h = cc
never_open path (left_for q) h = cc

left_for-eq : (p q : String) → left_for p ≡ left_for q → p ≡ q
left_for-eq p q h = cc

left_by :
    (path q : String) (place : Place)
    → moved (redirected path) place ≡ left_for q
    → (path ≡ q) ⊎ (place ≡ left_for q)
left_by path q open_page h = inl (left_for-eq path q h)
left_by path q crashed h = inr h
left_by path q (left_for p) h = inr h

-- What a page that started with the cookies `jar0` keeps to, by the place it is at and the cookies.
pub record IsSafe (jar0 : Jar) (place : Place) (jar : Jar) : Type 0 where
  pub unchanged : place ≡ open_page → jar ≡ jar0
  pub session :
      (path : String)
      → place ≡ left_for path
      → (path ≡ "/dashboard") × ((c : Cookie) × (Cookies.get admin_cookie jar ≡ some c))
  pub others : (name : String) → name ≢ admin_cookie → Cookies.get name jar ≡ Cookies.get name jar0

get-set_admin :
    (c : Cookie) (jar : Jar)
    → (Cookies.get admin_cookie (Cookies.set admin_cookie c jar) ≡ some c)
      × ((name : String)
          → name ≢ admin_cookie
          → Cookies.get name (Cookies.set admin_cookie c jar) ≡ Cookies.get name jar)
get-set_admin c jar = (
  rw (get-set admin_cookie admin_cookie c jar) refl,
  λ name differs. rw (get-set admin_cookie name c jar) (ground (arith, eq_iff admin_cookie name)),
)

crashed-IsSafe :
    (jar0 : Jar) (place : Place) (jar : Jar) → IsSafe jar0 place jar → IsSafe jar0 crashed jar
crashed-IsSafe jar0 place jar s = record {
  unchanged = λ h. cc;
  session = λ path h. cc;
  others = s.others;
}

answer-IsSafe :
    (jar0 : Jar) (r : ActionResult) (jar jar' : Jar) (place : Place)
    → Acts (r, jar') jar
    → IsSafe jar0 place jar
    → IsSafe jar0 (moved r place) jar'
answer-IsSafe jar0 (failed e) jar jar' place (same, _) s = subst (IsSafe jar0 place) (sym same) s
answer-IsSafe jar0 threw jar jar' place same s =
    subst (IsSafe jar0 (moved threw place)) (sym same)
      (if_either (λ q. IsSafe jar0 q jar) (is_open place) (crashed-IsSafe jar0 place jar s) s)
answer-IsSafe jar0 (redirected path) jar jar' place (dashboard, (c, sets)) s =
    let (here, elsewhere) = get-set_admin c jar in
    let jar'' = Cookies.set admin_cookie c jar in
    subst (IsSafe jar0 (moved (redirected path) place)) (sym sets) (record {
      unchanged = λ h. absurd (never_open path place h);
      session = λ q h. (
        elim (left_by path q place h) [
          | inl new ↦ sym new ∙ dashboard
          | inr before ↦ (s.session q before).0
        ],
        (c, here),
      );
      others = λ name differs. elsewhere name differs ∙ s.others name differs;
    })

module _ (env : Env) (jose : Jose) where
  step-IsSafe :
      (jar0 : Jar) (i : Input) (p : Page)
      → IsSafe jar0 p.place p.jar
      → IsSafe jar0 (step env jose i p).place (step env jose i p).jar
  unfolding step
  step-IsSafe jar0 (chosen t) p s = s
  step-IsSafe jar0 (cred_submitted u w) p s = s
  step-IsSafe jar0 (secret_submitted f) p s = s
  step-IsSafe jar0 (cred_answered fetch) p s =
      option_either (λ (q : Page). IsSafe jar0 q.place q.jar) p.cred.pending (λ _. s)
        (λ (u, w) _.
          answer-IsSafe jar0 _ p.jar _ p.place (login_with_credentials-Acts env fetch u w p.jar) s)
  step-IsSafe jar0 (secret_answered now) p s =
      option_either (λ (q : Page). IsSafe jar0 q.place q.jar) p.secret.pending (λ _. s)
        (λ f _.
          answer-IsSafe jar0 _ p.jar _ p.place (login_with_secret-Acts env jose now f p.jar) s)

  run-IsSafe_from :
      (jar0 : Jar) (inputs : List Input) (p : Page)
      → IsSafe jar0 p.place p.jar
      → IsSafe jar0 (run env jose inputs p).place (run env jose inputs p).jar
  unfolding run
  run-IsSafe_from jar0 [] p s = s
  run-IsSafe_from jar0 (i ∷ inputs) p s =
      run-IsSafe_from jar0 inputs (step env jose i p) (step-IsSafe jar0 i p s)

  -- Whatever is done at the login page, with both of its forms and in any order: while the page is
  -- shown, no cookie has changed; it is left only for the dashboard, and then the browser has an
  -- admin's cookie; and no other cookie ever changes.
  pub run-IsSafe :
      (jar : Jar) (inputs : List Input)
      → let p = run env jose inputs (initial jar) in IsSafe jar p.place p.jar
  run-IsSafe jar inputs =
      run-IsSafe_from jar inputs (initial jar)
        (record { unchanged = λ _. refl; session = λ path h. cc; others = λ name differs. refl })
