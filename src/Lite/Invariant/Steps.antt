-- ===== src/Lite/Invariant/Steps.antt =====
-- Every event of the listen page but its end keeps the invariant.
use audio_server.Common.{
  if◌then◌else◌, is_text, is_text_iff, eq_iff, String, Option, Bool, Bool-cases, arith, false,
  if-not-false, if-not-true, inl, inr, none, not, refl, some, suc, true, zero, ℕ, ◌&&◌, ◌≡◌, ◌≢◌,
}
use audio_server.Lite.{
  Client, Clip, Event, Howler, RelayMessage, audio_play, audio_stop, auth_success, clicked, closed,
  destroyed, enable_audio, ended, fallen_silent, silenced, errored, heard, load_failed, malformed,
  message, on_close, on_message, on_resumed, opened, reconcile, reconcile_to, resumed, step,
}
use audio_server.Lite.Asked.{asks_same, loses}
use audio_server.Lite.Invariant.{
  InLine, IsSound, Tracked, given_up-IsSilent, reconcile-InLine, Follows, Follows-same, Hears-same,
  idle-Follows, reconcile_off, renewed,
}

module _ {V : Type 0} (howler : Howler V) where
  open howler use {Howl, create, play, stop, unload, set_volume, set_loop, playing}

  -- The invariant does not depend on what is asked for, nor on the texts that are shown.
  re_asked :
      {lost : Bool} {c : Client V Howl} {status : String} {authenticated : Bool}
      {uuid jwt : Option String} {desired : Option (Clip V)}
      → IsSound howler lost c
      → IsSound howler lost (record c {
        status = status;
        authenticated = authenticated;
        player_uuid = uuid;
        stored_jwt = jwt;
        desired = desired;
      })
  re_asked s = record { silent = s.silent; tracked = s.tracked; waiting = s.waiting }

  on_resumed-IsSound :
      {lost : Bool} (n : ℕ) (c : Client V Howl)
      → c.resuming ≡ n
      → IsSound howler lost c
      → InLine howler lost c
      → IsSound howler lost (on_resumed howler n c) × InLine howler lost (on_resumed howler n c)
  on_resumed-IsSound zero c e s l = (s, l)
  on_resumed-IsSound (suc n) c e s l =
      reconcile-InLine howler (record c { resuming = n })
        (record {
          silent = s.silent;
          tracked = s.tracked;
          waiting = λ off. absurd (omega (arith, e, (s.waiting off).2));
        })

  -- Before the click there is no clip to be lost.
  off-IsSound :
      {lost : Bool} (l : Bool) (c : Client V Howl)
      → c.enabled ≡ false
      → IsSound howler lost c
      → IsSound howler l c × InLine howler l c
  off-IsSound {lost} l c off s = (
    record {
      silent = s.silent;
      tracked = idle c.active_howl c.active_src (s.waiting off).0 s.tracked;
      waiting = s.waiting;
    },
    (
      λ on. cc (on, off),
      idle-Follows howler lost c.active_howl c.active_src c.desired (s.waiting off).0 s.tracked,
    ),
  )
    where
      idle :
          (o : Option Howl) (src : Option String)
          → o ≡ none
          → Tracked howler lost o src
          → Tracked howler l o src
      idle none none e t = t
      idle none (some src) e t = t
      idle (some h) src e t = absurd cc

  -- A request for silence makes good what was lost.
  stop-IsSound :
      {lost : Bool} (c : Client V Howl)
      → IsSound howler lost c
      → IsSound howler false (reconcile howler (record c { desired = none }))
        × InLine howler false (reconcile howler (record c { desired = none }))
  unfolding reconcile reconcile_to
  stop-IsSound c s = elim (Bool-cases c.enabled) [
    | inl on ↦ rw (if-not-true _ _ c.enabled on) (
      record {
        silent = given_up-IsSilent howler c.active_howl c.retired s.silent;
        tracked = tt;
        waiting = λ off. cc (on, off);
      },
      (λ _ _. inl refl, λ src e. absurd cc),
    )
    | inr off ↦
        rw (if-not-false _ _ c.enabled off)
          (off-IsSound false (record c { desired = none }) off (re_asked s))
  ]

  asks_same-src :
      (o : Option (Clip V)) (x : Clip V) (src : String)
      → o ≡ some x
      → x.src ≡ src
      → asks_same o src ≡ true
  asks_same-src o x src e same = rw e ((eq_iff x.src src).1 same)

  other_src :
      (c : Client V Howl) (src : String)
      → Follows howler c.desired c.active_src
      → asks_same c.desired src ≡ false
      → is_text c.active_src src ≡ false
  other_src c src f other = elim (Bool-cases (is_text c.active_src src)) [
    | inl known ↦
        let (x, asked, same) = f src ((is_text_iff c.active_src src).0 known) in
        let again = asks_same-src c.desired x src asked same in absurd cc
    | inr new ↦ new
  ]

  -- So does one for another source.
  play-IsSound :
      {lost : Bool} (d : Clip V) (c : Client V Howl)
      → IsSound howler lost c
      → Follows howler c.desired c.active_src
      → let c' = reconcile howler (record c { desired = some d }) in
        IsSound howler (if asks_same c.desired d.src then lost else false) c'
        × InLine howler (if asks_same c.desired d.src then lost else false) c'
  play-IsSound {lost} d c s f = elim (Bool-cases (asks_same c.desired d.src)) [
    | inl same ↦ rw same (reconcile-InLine howler (record c { desired = some d }) (re_asked s))
    | inr other ↦ elim (Bool-cases c.enabled) [
      | inl on ↦
          let (silent, tracked, played, follows, kept) =
            renewed howler false d c s.silent on (other_src c d.src f other) in
          rw other (
            record { silent = silent; tracked = tracked; waiting = λ off. cc (on, kept.0) },
            (λ _ _. Hears-same howler kept.1 played, Follows-same howler kept.1 follows),
          )
      | inr off ↦
          let (s', l') = off-IsSound false (record c { desired = some d }) off (re_asked s) in
          rw (other, reconcile_off howler (record c { desired = some d }) off) (s', l')
    ]
  ]

  picked : (b l : Bool) → b ≡ true → (if b then false else l) ≡ false
  picked b l e = rw e

  left : (b l : Bool) → b ≡ false → (if b then false else l) ≡ l
  left b l e = rw e

  on_close-IsSound :
      {lost : Bool} (c : Client V Howl)
      → IsSound howler lost c
      → InLine howler lost c
      → IsSound howler (if c.authenticated then false else lost) (on_close howler c)
        × InLine howler (if c.authenticated then false else lost) (on_close howler c)
  unfolding on_close
  on_close-IsSound {lost} c s l = elim (Bool-cases c.authenticated) [
    | inl e ↦
        rw (if-not-true _ _ c.authenticated e, picked c.authenticated lost e)
          (stop-IsSound (record c { status = "Connection closed." }) (re_asked s))
    | inr e ↦ rw (if-not-false _ _ c.authenticated e, left c.authenticated lost e) (re_asked s, l)
  ]

  on_message-IsSound :
      {lost : Bool} (m : RelayMessage V) (c : Client V Howl)
      → IsSound howler lost c
      → InLine howler lost c
      → let l = loses (message m) c.authenticated c.desired lost in
        IsSound howler l (on_message howler m c) × InLine howler l (on_message howler m c)
  unfolding on_message
  on_message-IsSound (auth_success jwt uuid) c s l = (re_asked s, l)
  on_message-IsSound (audio_play src volume loop) c s l =
      play-IsSound (record { src = src; volume = volume; loop = loop })
        (record c {
          status =
              if not c.enabled then "Audio queued — click Enable Audio to start." else c.status;
        })
        (re_asked s) l.1
  on_message-IsSound audio_stop c s l = let (s', l') = stop-IsSound c s in (re_asked s', l')

  enable_audio-IsSound :
      {lost : Bool} (b : Bool) (c : Client V Howl)
      → IsSound howler lost c
      → InLine howler lost c
      → IsSound howler lost (enable_audio howler b c) × InLine howler lost (enable_audio howler b c)
  unfolding enable_audio
  enable_audio-IsSound true c s l = (
    record { silent = s.silent; tracked = s.tracked; waiting = λ off. cc },
    (λ _ z. absurd (omega (arith, z)), l.1),
  )
  enable_audio-IsSound false c s l =
      reconcile-InLine howler _
        (record { silent = s.silent; tracked = s.tracked; waiting = λ off. cc })

  clicked-IsSound :
      {lost : Bool} (b : Bool) (c : Client V Howl)
      → IsSound howler lost c
      → InLine howler lost c
      → IsSound howler lost (step howler (clicked b) c)
        × InLine howler lost (step howler (clicked b) c)
  unfolding step
  clicked-IsSound b c s l = elim (Bool-cases (c.authenticated && not c.enabled)) [
    | inl e ↦ rw (e, step) (enable_audio-IsSound b c s l)
    | inr e ↦ rw (e, step) (s, l)
  ]

  -- A clip that is lost leaves its Howl silent.
  silenced-IsSound :
      {lost : Bool} (c : Client V Howl)
      → IsSound howler lost c
      → InLine howler lost c
      → IsSound howler true (silenced howler c) × InLine howler true (silenced howler c)
  silenced-IsSound {lost} c s l = (
    record {
      silent = s.silent;
      tracked = tracked lost c.active_howl c.active_src s.tracked;
      waiting = λ off.
          (none_silent c.active_howl (s.waiting off).0, (s.waiting off).1, (s.waiting off).2);
    },
    (λ _ _. inr (unheard c.active_howl, refl), l.1),
  )
    where
      tracked :
          (l : Bool) (o : Option Howl) (src : Option String)
          → Tracked howler l o src
          → Tracked howler true (fallen_silent howler o) src
      tracked l none none t = t
      tracked l none (some src) t = t
      tracked l (some h) none t = t
      tracked l (some h) (some src) t = inr (howler.playing-fall_silent h, refl)

      none_silent : (o : Option Howl) → o ≡ none → fallen_silent howler o ≡ none
      none_silent none e = refl
      none_silent (some h) e = absurd cc

      unheard :
          (o : Option Howl)
          → heard howler (record c { active_howl = fallen_silent howler o }) ≡ none
      unheard none = refl
      unheard (some h) = howler.playing-fall_silent h

  -- Every event but the end of the page keeps the invariant, and leaves the page in line.
  pub step-IsSound :
      {lost : Bool} (e : Event V) (c : Client V Howl)
      → e ≢ destroyed
      → IsSound howler lost c
      → InLine howler lost c
      → let l = loses e c.authenticated c.desired lost in
        IsSound howler l (step howler e c) × InLine howler l (step howler e c)
  unfolding step
  step-IsSound opened c n s l =
      (record { silent = s.silent; tracked = s.tracked; waiting = s.waiting }, l)
  step-IsSound malformed c n s l = (s, l)
  step-IsSound errored c n s l =
      (record { silent = s.silent; tracked = s.tracked; waiting = s.waiting }, l)
  step-IsSound (load_failed false err) c n s l =
      (record { silent = s.silent; tracked = s.tracked; waiting = s.waiting }, l)
  step-IsSound (load_failed true err) c n s l =
      let (s', l') = silenced-IsSound c s l in
      (record { silent = s'.silent; tracked = s'.tracked; waiting = s'.waiting }, l')
  step-IsSound ended c n s l = silenced-IsSound c s l
  step-IsSound closed c n s l = on_close-IsSound c s l
  step-IsSound resumed c n s l = on_resumed-IsSound c.resuming c refl s l
  step-IsSound destroyed c n s l = absurd (n refl)
  step-IsSound (message m) c n s l = on_message-IsSound m c s l
  step-IsSound (clicked b) c n s l = clicked-IsSound b c s l
