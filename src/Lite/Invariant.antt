-- ===== src/Lite/Invariant.antt =====
-- The invariant of the listen page between two events: what the Howls that it made are told to play.
pub mod Steps
use audio_server.Common.{
  All, Bool, Bool-cases, List, Option, String, [], arith, eq_iff, false, if-not-false, if-not-true,
  inl, inr, is_text, is_text_iff, none, not, refl, some, suc, sym, true, zero, ℕ, ◌&&◌, ◌∙◌, ◌≡◌,
  ◌≢◌, ◌⊎◌,
}
use audio_server.Lite.{
  Client, Clip, Event, Howler, RelayMessage, audio_play, audio_stop, auth_success, clicked, closed,
  destroyed, enable_audio, ended, fallen_silent, silenced, errored, given_up, heard, load_failed,
  malformed, message, on_close, on_message, on_resumed, opened, reconcile, reconcile_to,
  reconcile_with, replace, resumed, step,
}
use audio_server.Lite.Asked.{loses}

module _ {V : Type 0} (howler : Howler V) where
  open howler use {Howl, create, play, stop, unload, set_volume, set_loop, playing}

  abbrev pub IsSilent : Howl → Type 0
  IsSilent h = playing h ≡ none

  -- `activeSrc` is the source of the clip that `activeHowl` plays, unless the clip was `lost`: it could
  -- not be loaded or has come to its end.
  abbrev pub Tracked : Bool → Option Howl → Option String → Type 0
  Tracked lost none none = Unit
  Tracked lost none (some s) = ⊥
  Tracked lost (some h) none = ⊥
  Tracked lost (some h) (some s) =
      ((d : Clip V) × (playing h ≡ some d) × (d.src ≡ s)) ⊎ ((playing h ≡ none) × (lost ≡ true))

  -- What is heard is what was asked for, or silence where a clip was lost.
  abbrev pub Hears : Bool → Option (Clip V) → Option (Clip V) → Type 0
  Hears lost o d = (o ≡ d) ⊎ ((o ≡ none) × (lost ≡ true))

  -- No Howl but the active one plays, and before the click there is none.
  pub record IsSound (lost : Bool) (c : Client V Howl) : Type 0 where
    pub silent : All IsSilent c.retired
    pub tracked : Tracked lost c.active_howl c.active_src
    pub waiting : c.enabled ≡ false → (c.active_howl ≡ none) × (c.retired ≡ []) × (c.resuming ≡ 0)

  -- `activeSrc` is the source of what was asked for.
  abbrev pub Follows : Option (Clip V) → Option String → Type 0
  Follows d o = (s : String) → o ≡ some s → (x : Clip V) × (d ≡ some x) × (x.src ≡ s)

  -- Once the audio is enabled and no callback is waited for, what is heard is what was asked for.
  abbrev pub InLine : Bool → Client V Howl → Type 0
  InLine lost c =
      (c.enabled ≡ true → c.resuming ≡ 0 → Hears lost (heard howler c) c.desired)
      × Follows c.desired c.active_src

  pub given_up-IsSilent :
      (o : Option Howl) (hs : List Howl) → All IsSilent hs → All IsSilent (given_up howler o hs)
  given_up-IsSilent none hs a = a
  given_up-IsSilent (some h) hs a = (howler.playing-unload h, a)

  -- What `reconcile` leaves alone.
  abbrev pub Keeps : Client V Howl → Client V Howl → Type 0
  Keeps c c' = (c'.enabled ≡ c.enabled) × (c'.desired ≡ c.desired) × (c'.resuming ≡ c.resuming)

  abbrev pub Reconciled : Bool → Option (Clip V) → Client V Howl → Client V Howl → Type 0
  Reconciled lost d c c' =
      All IsSilent c'.retired
      × Tracked lost c'.active_howl c'.active_src
      × Hears lost (heard howler c') d
      × Follows d c'.active_src
      × Keeps c c'

  some-injective : (s t : String) → some s ≡ some t → s ≡ t
  some-injective s t e = cc

  pub untracked :
      (l : Bool) (o : Option Howl) (src : Option String) → o ≡ none → Tracked l o src → src ≡ none
  untracked l none none e t = refl
  untracked l none (some src) e t = absurd t
  untracked l (some h) src e t = absurd cc

  pub idle-Follows :
      (l : Bool) (o : Option Howl) (src : Option String) (d : Option (Clip V))
      → o ≡ none
      → Tracked l o src
      → Follows d src
  idle-Follows l o src d e t s now = let gone = untracked l o src e t in absurd cc

  replace-Reconciled :
      (lost : Bool) (d : Clip V) (c : Client V Howl)
      → All IsSilent c.retired
      → Reconciled lost (some d) c (replace howler d c)
  replace-Reconciled lost d c s = (
    given_up-IsSilent c.active_howl c.retired s,
    inl (d, howler.playing-play d, refl),
    inl (howler.playing-play d),
    λ s e. (d, refl, some-injective d.src s e),
    (refl, refl, refl),
  )

  set-Tracked :
      (lost : Bool) (d : Clip V) (h : Howl) (o : Option String)
      → Tracked lost (some h) o
      → is_text o d.src ≡ true
      → Hears lost (playing (set_loop d.loop (set_volume d.volume h))) (some d)
        × Tracked lost (some (set_loop d.loop (set_volume d.volume h))) o
  set-Tracked lost d h none t e = absurd t
  set-Tracked lost d h (some s) (inr (p, gone)) e =
      let still = howler.playing-set_silent h d.volume d.loop p in
      (inr (still, gone), inr (still, gone))
  set-Tracked lost d h (some s) (inl (d', p, q)) e =
      let same : d'.src ≡ d.src = q ∙ (eq_iff s d.src).0 e in
      let clip : Option (Clip V) =
        some (record { src = d'.src; volume = d.volume; loop = d.loop }) in
      let moved : clip ≡ some d =
        λ i. some (record { src = same i; volume = d.volume; loop = d.loop }) in
      let now = howler.playing-set h d' d.volume d.loop p ∙ moved in
      (inl now, inl (d, now, sym ((eq_iff s d.src).0 e)))

  update-Reconciled :
      (lost : Bool) (d : Clip V) (c : Client V Howl) (h : Howl)
      → All IsSilent c.retired
      → Tracked lost (some h) c.active_src
      → is_text c.active_src d.src ≡ true
      → Reconciled lost
          (some d)
          c
          (record c { active_howl = some (set_loop d.loop (set_volume d.volume h)) })
  update-Reconciled lost d c h s t e =
      let (p, q) = set-Tracked lost d h c.active_src t e in
      (
        s,
        q,
        p,
        λ src now.
            (d, refl, some-injective d.src src (sym ((is_text_iff c.active_src d.src).0 e) ∙ now)),
        (refl, refl, refl),
      )

  reconcile_with-Reconciled :
      (lost : Bool) (o : Option Howl) (d : Clip V) (c : Client V Howl)
      → All IsSilent c.retired
      → Tracked lost o c.active_src
      → Reconciled lost (some d) c (reconcile_with howler o d c)
  unfolding reconcile_with
  reconcile_with-Reconciled lost none d c s t = replace-Reconciled lost d c s
  reconcile_with-Reconciled lost (some h) d c s t = elim (Bool-cases (is_text c.active_src d.src)) [
    | inl same ↦ rw (same, reconcile_with) (update-Reconciled lost d c h s t same)
    | inr other ↦ rw (other, reconcile_with) (replace-Reconciled lost d c s)
  ]

  reconcile_to-Reconciled :
      (lost : Bool) (d : Option (Clip V)) (c : Client V Howl)
      → All IsSilent c.retired
      → Tracked lost c.active_howl c.active_src
      → Reconciled lost d c (reconcile_to howler d c)
  unfolding reconcile_to
  reconcile_to-Reconciled lost none c s t = (
    given_up-IsSilent c.active_howl c.retired s,
    tt,
    inl refl,
    λ s e. absurd cc,
    (refl, refl, refl),
  )
  reconcile_to-Reconciled lost (some d) c s t = reconcile_with-Reconciled lost c.active_howl d c s t

  -- Another source is played anew, whatever has become of the one before.
  replaced :
      (lost : Bool) (o : Option Howl) (d : Clip V) (c : Client V Howl)
      → All IsSilent c.retired
      → is_text c.active_src d.src ≡ false
      → Reconciled lost (some d) c (reconcile_with howler o d c)
  unfolding reconcile_with
  replaced lost none d c s other = replace-Reconciled lost d c s
  replaced lost (some h) d c s other = rw (other, reconcile_with) (replace-Reconciled lost d c s)

  pub renewed :
      (lost : Bool) (d : Clip V) (c : Client V Howl)
      → All IsSilent c.retired
      → c.enabled ≡ true
      → is_text c.active_src d.src ≡ false
      → Reconciled lost
          (some d)
          (record c { desired = some d })
          (reconcile howler (record c { desired = some d }))
  unfolding reconcile reconcile_to
  renewed lost d c s on other =
      rw (if-not-true _ _ c.enabled on)
        (replaced lost c.active_howl d (record c { desired = some d }) s other)

  -- What a call of `reconcile` does for whoever has enabled the audio.
  pub reconcile_on :
      (lost : Bool) (c : Client V Howl)
      → IsSound lost c
      → c.enabled ≡ true
      → Reconciled lost c.desired c (reconcile howler c)
  unfolding reconcile
  reconcile_on lost c s e =
      rw (if-not-true c (reconcile_to howler c.desired c) c.enabled e)
        (reconcile_to-Reconciled lost c.desired c s.silent s.tracked)

  pub reconcile_off : (c : Client V Howl) → c.enabled ≡ false → reconcile howler c ≡ c
  unfolding reconcile
  reconcile_off c e = if-not-false c (reconcile_to howler c.desired c) c.enabled e

  -- `reconcile` keeps the invariant, and what is asked for; if the audio is enabled, it is heard.
  pub reconcile-IsSound :
      {lost : Bool} (c : Client V Howl)
      → IsSound lost c
      → IsSound lost (reconcile howler c)
        × Keeps c (reconcile howler c)
        × (c.enabled ≡ true → Hears lost (heard howler (reconcile howler c)) c.desired)
        × Follows c.desired (reconcile howler c).active_src
  reconcile-IsSound {lost} c s = elim (Bool-cases c.enabled) [
    | inl on ↦
        let (silent, tracked, played, follows, kept) = reconcile_on lost c s on in
        (
          record { silent = silent; tracked = tracked; waiting = λ off. cc (on, kept.0) },
          kept,
          λ _. played,
          follows,
        )
    | inr off ↦ rw (reconcile_off c off) (
      s,
      (refl, refl, refl),
      λ on. cc (on, off),
      idle-Follows lost c.active_howl c.active_src c.desired (s.waiting off).0 s.tracked,
    )
  ]

  pub Follows-same :
      {d d' : Option (Clip V)} {o : Option String} → d' ≡ d → Follows d o → Follows d' o
  Follows-same same f s e = let (x, p, q) = f s e in (x, same ∙ p, q)

  pub Hears-same :
      {lost : Bool} {o d d' : Option (Clip V)} → d' ≡ d → Hears lost o d → Hears lost o d'
  Hears-same same (inl e) = inl (e ∙ sym same)
  Hears-same same (inr w) = inr w

  pub reconcile-InLine :
      {lost : Bool} (c : Client V Howl)
      → IsSound lost c
      → IsSound lost (reconcile howler c) × InLine lost (reconcile howler c)
  reconcile-InLine c s =
      let (s', k, p, f) = reconcile-IsSound c s in
      (s', (λ on _. Hears-same k.1 (p (sym k.0 ∙ on)), Follows-same k.1 f))
