-- ===== src/Lite/View/Laws.antt =====
-- What the listen page shows is what it knows and what is heard of it.
use audio_server.Common.{
  All, Bool, Bool-cases, List, Option, String, [], false, if◌then◌else◌, inl, inr, is_some, none,
  refl, some, sym, true, ◌&&◌, ◌∙◌, ◌∷◌, ◌≡◌, ◌≢◌, ap, ◌⊎◌,
}
use audio_server.Http.{truthy}
use audio_server.Lite.{
  Client, Event, Howler, audio_play, audio_stop, auth_success, clicked, closed, destroyed, ended,
  fallen_silent, errored, heard, load_failed, malformed, message, mount, open_page, opened, resumed,
  run, step,
}
use audio_server.Lite.Asked.{authenticates, lossy, named, names, presses, run-named, step-asked}
use audio_server.Lite.Invariant.{Hears}
use audio_server.Lite.Laws.{one_voice, page-IsSound}
use audio_server.Lite.View.{view}

module _ {V : Type 0} (howler : Howler V) where
  open howler use {Howl}

  -- Who is authenticated is named, and only they enable the audio.
  record IsKnown (c : Client V Howl) : Type 0 where
    named_so : c.authenticated ≡ is_some c.player_uuid
    enabled_by : c.enabled ≡ true → c.authenticated ≡ true

  event-named :
      (e : Event V) (a : Bool) (o : Option String)
      → a ≡ is_some o
      → authenticates e a ≡ is_some (names e o)
  event-named (message (auth_success jwt uuid)) a o h = refl
  event-named opened a o h = h
  event-named malformed a o h = h
  event-named errored a o h = h
  event-named closed a o h = h
  event-named resumed a o h = h
  event-named destroyed a o h = h
  event-named (message (audio_play src volume loop)) a o h = h
  event-named (message audio_stop) a o h = h
  event-named (clicked suspended) a o h = h
  event-named (load_failed active err) a o h = h
  event-named ended a o h = h

  event-enabled :
      (e : Event V) (a on : Bool)
      → (on ≡ true → a ≡ true)
      → presses e a on ≡ true
      → authenticates e a ≡ true
  event-enabled opened a on h on' = h on'
  event-enabled malformed a on h on' = h on'
  event-enabled errored a on h on' = h on'
  event-enabled closed a on h on' = h on'
  event-enabled resumed a on h on' = h on'
  event-enabled destroyed a on h on' = h on'
  event-enabled (message (audio_play src volume loop)) a on h on' = h on'
  event-enabled (message audio_stop) a on h on' = h on'
  event-enabled (load_failed active err) a on h on' = h on'
  event-enabled ended a on h on' = h on'
  event-enabled (message (auth_success jwt uuid)) a on h on' = refl
  event-enabled (clicked suspended) true on h on' = refl
  event-enabled (clicked suspended) false on h on' = h on'

  run-IsKnown : (es : List (Event V)) (c : Client V Howl) → IsKnown c → IsKnown (run howler es c)
  unfolding run
  run-IsKnown [] c k = k
  run-IsKnown (e ∷ es) c k =
      let (a, d, u, on) = step-asked howler e c in
      run-IsKnown es (step howler e c) (record {
        named_so = a ∙ event-named e c.authenticated c.player_uuid k.named_so ∙ ap is_some (sym u);
        enabled_by = λ h. a ∙ event-enabled e c.authenticated c.enabled k.enabled_by (sym on ∙ h);
      })

  session-named :
      (a : Bool) (o : Option String) → a ≡ is_some o → (if a then truthy o else none) ≡ truthy o
  session-named true o h = refl
  session-named false none h = refl
  session-named false (some u) h = cc

  ok-enabled : (a on : Bool) → (on ≡ true → a ≡ true) → (a && on) ≡ on
  ok-enabled true on h = refl
  ok-enabled false true h = h refl
  ok-enabled false false h = refl

  indicator-heard :
      (lost : Bool) (c : Client V Howl)
      → (c.enabled ≡ true → Hears howler lost (heard howler c) c.desired)
      → (c.enabled ≡ false → (c.active_howl ≡ none) × (c.retired ≡ []))
      → ((c.enabled && is_some c.desired) ≡ is_some (heard howler c))
        ⊎ ((heard howler c ≡ none) × (lost ≡ true))
  indicator-heard lost c line idle = elim (Bool-cases c.enabled) [
    | inl on ↦ elim (line on) [
      | inl same ↦ inl (rw (on) (sym (ap is_some same)))
      | inr gone ↦ inr gone
    ]
    | inr off ↦ inl (rw (off, (idle off).0) refl)
  ]

  -- A load error of the active Howl: it plays nothing, and the indicator stays as it is.
  load_failed-Tells :
      (err : String) (c : Client V Howl)
      → let c' = step howler (load_failed true err) c in
        (heard howler c' ≡ none) × ((view c').playing ≡ (view c).playing)
  unfolding step view
  load_failed-Tells err c = (unheard c.active_howl, refl)
    where
      unheard :
          (o : Option Howl)
          → heard howler (record c { active_howl = fallen_silent howler o }) ≡ none
      unheard none = refl
      unheard (some h) = howler.playing-fall_silent h

  opened-IsKnown :
      (encode : String → String) (protocol host : String) (o : Option String)
      → IsKnown (open_page encode protocol host o)
        × ((open_page {V = V} {Howl = Howl} encode protocol host o).player_uuid ≡ none)
  unfolding open_page
  opened-IsKnown encode protocol host none =
      (record { named_so = refl; enabled_by = λ h. cc }, refl)
  opened-IsKnown encode protocol host (some token) =
      (record { named_so = refl; enabled_by = λ h. cc }, refl)

  module _ (encode : String → String) (protocol host : String) (token : Option String)
      (es : List (Event V)) where
    page-IsKnown :
        let c = run howler es (mount encode protocol host token) in
        IsKnown c × (c.player_uuid ≡ named es none)
    unfolding mount
    page-IsKnown =
        let (k, fresh) = opened-IsKnown encode protocol host (truthy token) in
        (run-IsKnown es _ k, run-named howler es _ ∙ ap (named es) fresh)

    -- Until the page is closed, whatever happens to it in whatever order: if no callback waits for the
    -- audio context, the indicator "Playing" is there exactly when something is heard; but if a clip
    -- could not be loaded or has come to its end, and since then the server has asked for nothing but
    -- the same source, it may be there with nothing heard. After a load error of the active clip nothing
    -- is heard, and the indicator stays as it was: where the page showed "Playing", it goes on to show
    -- it. The line with the player's identifier shows the last one that the server has sent, and is not
    -- there if it has sent none or the last one is empty; and the text has the class `ok` exactly if the
    -- audio is enabled.
    pub view-Tells :
        All (λ e. e ≢ destroyed) es
        → let c = run howler es (mount encode protocol host token) in
          let v = view c in
          (c.resuming ≡ 0
            → (v.playing ≡ is_some (heard howler c))
              ⊎ ((heard howler c ≡ none) × (lossy es false none false ≡ true)))
          × ((err : String)
              → let c' = step howler (load_failed true err) c in
                (heard howler c' ≡ none) × ((view c').playing ≡ v.playing))
          × (v.session ≡ truthy (named es none))
          × (v.ok ≡ c.enabled)
    unfolding view
    view-Tells alive =
        let c = run howler es (mount encode protocol host token) in
        let (k, last) = page-IsKnown in
        (
          λ done.
              indicator-heard (lossy es false none false) c
                (λ on. (page-IsSound howler encode protocol host token es alive).1.0 on done)
                (one_voice howler encode protocol host token es alive).1,
          λ err. load_failed-Tells err c,
          session-named c.authenticated c.player_uuid k.named_so ∙ ap truthy last,
          ok-enabled c.authenticated c.enabled k.enabled_by,
        )
