-- ===== src/Lite/Asked.antt =====
-- What the listen page has been asked for, by the events alone, and that the page keeps to it.
use audio_server.Common.{
  Bool, Bool-cases, List, Option, String, [], false, if-not-false, if-not-true, if◌then◌else◌, inl,
  inr, is_text, none, str_eq, not, refl, some, suc, sym, true, zero, ℕ, ◌&&◌, ◌||◌, ◌∙◌, ◌∷◌, ◌≡◌,
}
use audio_server.Lite.{
  Client, Clip, Event, Howler, audio_play, audio_stop, auth_success, clicked, closed, destroyed,
  ended, enable_audio, errored, load_failed, malformed, message, on_close, on_destroy, on_message,
  on_resumed, opened, reconcile, reconcile_to, reconcile_with, resumed, run, step,
}

-- What the server has asked for, by the events alone: the last request counts, and a connection that
-- closes after the authentication asks for silence.
module _ {V : Type 0} where
  abbrev pub authenticates : Event V → Bool → Bool
  authenticates (message (auth_success jwt uuid)) a = true
  authenticates _ a = a

  abbrev pub request : Event V → Bool → Option (Clip V) → Option (Clip V)
  request (message (audio_play src volume loop)) a d =
      some (record { src = src; volume = volume; loop = loop })
  request (message audio_stop) a d = none
  request closed a d = if a then none else d
  request _ a d = d

  -- The player whom the server names, and whether the audio is enabled after a click.
  abbrev pub names : Event V → Option String → Option String
  names (message (auth_success jwt uuid)) o = some uuid
  names _ o = o

  abbrev pub presses : Event V → Bool → Bool → Bool
  presses (clicked suspended) a on = a || on
  presses _ a on = on

  unfoldable pub named : List (Event V) → Option String → Option String
  named [] o = o
  named (e ∷ es) o = named es (names e o)

  unfoldable pub wanted : List (Event V) → Bool → Option (Clip V) → Option (Clip V)
  wanted [] a d = d
  wanted (e ∷ es) a d = wanted es (authenticates e a) (request e a d)

-- Whether a clip could not be loaded or has come to its end, and what the server has asked for since
-- then was the same source, by the events alone.
module _ {V : Type 0} where
  abbrev pub asks_same : Option (Clip V) → String → Bool
  asks_same none src = false
  asks_same (some d) src = str_eq d.src src

  abbrev pub loses : Event V → Bool → Option (Clip V) → Bool → Bool
  loses (load_failed active err) a d lost = active || lost
  loses ended a d lost = true
  loses closed a d lost = if a then false else lost
  loses (message audio_stop) a d lost = false
  loses (message (audio_play src volume loop)) a d lost = if asks_same d src then lost else false
  loses _ a d lost = lost

  unfoldable pub lossy : List (Event V) → Bool → Option (Clip V) → Bool → Bool
  lossy [] a d lost = lost
  lossy (e ∷ es) a d lost = lossy es (authenticates e a) (request e a d) (loses e a d lost)

or-if_and_not :
    (a on : Bool) → (a && not on ≡ true → a || on ≡ true) × (a && not on ≡ false → a || on ≡ on)
or-if_and_not true true = (λ e. refl, λ e. refl)
or-if_and_not true false = (λ e. refl, λ e. cc)
or-if_and_not false on = (λ e. cc, λ e. refl)

module _ {V : Type 0} (howler : Howler V) where
  open howler use {Howl, create, play, stop, unload, set_volume, set_loop, playing}

  -- What the page knows besides its Howls and its texts.
  abbrev pub Keeps : Client V Howl → Client V Howl → Type 0
  Keeps c c' =
      (c'.authenticated ≡ c.authenticated)
      × (c'.desired ≡ c.desired)
      × (c'.player_uuid ≡ c.player_uuid)
      × (c'.enabled ≡ c.enabled)

  reconcile_to-Keeps : (d : Option (Clip V)) (c : Client V Howl) → Keeps c (reconcile_to howler d c)
  unfolding reconcile_to
  reconcile_to-Keeps none c = (refl, refl, refl, refl)
  reconcile_to-Keeps (some d) c = go c.active_howl
    where
      go : (o : Option Howl) → Keeps c (reconcile_with howler o d c)
      go none = (refl, refl, refl, refl)
      go (some h) = elim (Bool-cases (is_text c.active_src d.src)) [
        | inl e ↦ rw (e, reconcile_with) (refl, refl, refl, refl)
        | inr e ↦ rw (e, reconcile_with) (refl, refl, refl, refl)
      ]

  reconcile-Keeps : (c : Client V Howl) → Keeps c (reconcile howler c)
  unfolding reconcile
  reconcile-Keeps c = elim (Bool-cases c.enabled) [
    | inl on ↦ rw (if-not-true _ _ c.enabled on) (reconcile_to-Keeps c.desired c)
    | inr off ↦ rw (if-not-false _ _ c.enabled off) (refl, refl, refl, refl)
  ]

  on_resumed-Keeps : (n : ℕ) (c : Client V Howl) → Keeps c (on_resumed howler n c)
  on_resumed-Keeps zero c = (refl, refl, refl, refl)
  on_resumed-Keeps (suc n) c = reconcile-Keeps (record c { resuming = n })

  enable_audio-keeps :
      (b : Bool) (c : Client V Howl)
      → ((enable_audio howler b c).authenticated ≡ c.authenticated)
        × ((enable_audio howler b c).desired ≡ c.desired)
        × ((enable_audio howler b c).player_uuid ≡ c.player_uuid)
        × ((enable_audio howler b c).enabled ≡ true)
  unfolding enable_audio
  enable_audio-keeps true c = (refl, refl, refl, refl)
  enable_audio-keeps false c =
      reconcile-Keeps (record c { enabled = true; status = "Audio enabled." })

  if-true : (b : Bool) (x y : Option (Clip V)) → b ≡ true → (if b then x else y) ≡ x
  if-true b x y e = rw e

  if-false : (b : Bool) (x y : Option (Clip V)) → b ≡ false → (if b then x else y) ≡ y
  if-false b x y e = rw e

  pub step-asked :
      (e : Event V) (c : Client V Howl)
      → ((step howler e c).authenticated ≡ authenticates e c.authenticated)
        × ((step howler e c).desired ≡ request e c.authenticated c.desired)
        × ((step howler e c).player_uuid ≡ names e c.player_uuid)
        × ((step howler e c).enabled ≡ presses e c.authenticated c.enabled)
  unfolding step on_message on_close enable_audio on_destroy
  step-asked opened c = (refl, refl, refl, refl)
  step-asked malformed c = (refl, refl, refl, refl)
  step-asked errored c = (refl, refl, refl, refl)
  step-asked (load_failed true err) c = (refl, refl, refl, refl)
  step-asked (load_failed false err) c = (refl, refl, refl, refl)
  step-asked ended c = (refl, refl, refl, refl)
  step-asked destroyed c = (refl, refl, refl, refl)
  step-asked closed c = elim (Bool-cases c.authenticated) [
    | inl e ↦
        let (a, d, u, on) =
          reconcile-Keeps (record c { status = "Connection closed."; desired = none }) in
        rw (if-not-true _ _ c.authenticated e) (a, d ∙ sym (if-true c.authenticated _ _ e), u, on)
    | inr e ↦
        rw (if-not-false _ _ c.authenticated e)
          (refl, sym (if-false c.authenticated _ _ e), refl, refl)
  ]
  step-asked resumed c = on_resumed-Keeps c.resuming c
  step-asked (message (auth_success jwt uuid)) c = (refl, refl, refl, refl)
  step-asked (message (audio_play src volume loop)) c = reconcile-Keeps _
  step-asked (message audio_stop) c = reconcile-Keeps _
  step-asked (clicked b) c = elim (Bool-cases (c.authenticated && not c.enabled)) [
    | inl e ↦
        let (a, d, u, on) = enable_audio-keeps b c in
        rw (e, step) (a, d, u, on ∙ sym ((or-if_and_not c.authenticated c.enabled).0 e))
    | inr e ↦ rw (e, step) (refl, refl, refl, sym ((or-if_and_not c.authenticated c.enabled).1 e))
  ]

  pub run-desired :
      (es : List (Event V)) (c : Client V Howl)
      → (run howler es c).desired ≡ wanted es c.authenticated c.desired
  unfolding run wanted
  run-desired [] c = refl
  run-desired (e ∷ es) c =
      let (a, d, u, on) = step-asked e c in
      run-desired es (step howler e c) ∙ (λ i. wanted es (a i) (d i))

  pub run-named :
      (es : List (Event V)) (c : Client V Howl)
      → (run howler es c).player_uuid ≡ named es c.player_uuid
  unfolding run named
  run-named [] c = refl
  run-named (e ∷ es) c =
      let (a, d, u, on) = step-asked e c in run-named es (step howler e c) ∙ (λ i. named es (u i))
