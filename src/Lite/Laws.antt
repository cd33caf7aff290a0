-- ===== src/Lite/Laws.antt =====
-- What is heard of the listen page.
use audio_server.Http.{truthy}
use audio_server.Common.{
  All, Bool, sym, List, inl, ◌⊎◌, Option, String, [], arith, false, none, refl, some, suc, true, ℕ,
  ◌∙◌, ◌∷◌, ◌≡◌, ◌≢◌,
}
use audio_server.Lite.{
  Client, Clip, Event, Howler, closed, on_close, destroyed, heard, mount, on_destroy, open_page,
  reconcile, reconcile_to, resumed, run, step,
}
use mathlib.Core.Path.{subst}
use audio_server.Lite.Asked.{step-asked, loses, lossy, run-desired, wanted}
use audio_server.Lite.Invariant.{Hears-same, InLine, IsSound}
use audio_server.Lite.Invariant.Steps.{step-IsSound}

module _ {V : Type 0} (howler : Howler V) where
  open howler use {Howl, create, play, stop, unload, set_volume, set_loop, playing}

  run-IsSound :
      {lost : Bool} (es : List (Event V)) (c : Client V Howl)
      → All (λ e. e ≢ destroyed) es
      → IsSound howler lost c
      → InLine howler lost c
      → let l = lossy es c.authenticated c.desired lost in
        IsSound howler l (run howler es c) × InLine howler l (run howler es c)
  unfolding run lossy
  run-IsSound [] c n s l = (s, l)
  run-IsSound {lost = lost} (e ∷ es) c (n, ns) s l =
      let (s', l') = step-IsSound howler e c n s l in
      let after = loses e c.authenticated c.desired lost in
      let (a, d, u, on) = step-asked howler e c in
      subst
        (λ b.
          IsSound howler b (run howler es (step howler e c))
          × InLine howler b (run howler es (step howler e c)))
        (λ i. lossy es (a i) (d i) after) (run-IsSound {lost = after} es (step howler e c) ns s' l')

  module _ (encode : String → String) (protocol host : String) where
    opened-IsSound :
        (o : Option String)
        → let c : Client V Howl = open_page encode protocol host o in
          IsSound howler false c
          × InLine howler false c
          × (c.authenticated ≡ false)
          × (c.desired ≡ none)
    unfolding open_page
    opened-IsSound none = (
      record { silent = tt; tracked = tt; waiting = λ _. (refl, refl, refl) },
      (λ on _. inl cc, λ src e. absurd cc),
      refl,
      refl,
    )
    opened-IsSound (some token) = (
      record { silent = tt; tracked = tt; waiting = λ _. (refl, refl, refl) },
      (λ on _. inl cc, λ src e. absurd cc),
      refl,
      refl,
    )

    module _ (token : Option String) (es : List (Event V))
        (alive : All (λ e. e ≢ destroyed) es) where
      pub page-IsSound :
          IsSound howler
            (lossy es false none false)
            (run howler es (mount encode protocol host token))
          × InLine howler
              (lossy es false none false)
              (run howler es (mount encode protocol host token))
      unfolding mount
      page-IsSound =
          let (s, l, a, d) = opened-IsSound (truthy token) in
          let c = run howler es (open_page encode protocol host (truthy token)) in
          subst (λ b. IsSound howler b c × InLine howler b c) (λ i. lossy es (a i) (d i) false)
            (run-IsSound es _ alive s l)

      -- Until the page is closed, whatever happens to it in whatever order: once the audio is enabled
      -- and no callback waits for the audio context, what is heard is what the server asked for last,
      -- with its volume and its loop, or nothing if it asked for silence or the authenticated
      -- connection is closed. Only if a clip could not be loaded or has come to its end, and
      -- since then the server has asked for nothing but the same source, it may be nothing instead;
      -- never is it another clip.
      pub heard-wanted :
          let c = run howler es (mount encode protocol host token) in
          c.enabled ≡ true
          → c.resuming ≡ 0
          → (heard howler c ≡ wanted es false none)
            ⊎ ((heard howler c ≡ none) × (lossy es false none false ≡ true))
      unfolding mount
      heard-wanted on done =
          let (s, l, a, d) = opened-IsSound (truthy token) in
          Hears-same howler (sym (run-desired howler es _ ∙ (λ i. wanted es (a i) (d i))))
            (page-IsSound.1.0 on done)

      -- Until the page is closed, no Howl but the active one is told to play: a clip that was replaced
      -- is never heard beside the new one. Before the click on the button there is no Howl at all.
      pub one_voice :
          let c = run howler es (mount encode protocol host token) in
          All (λ h. playing h ≡ none) c.retired
          × (c.enabled ≡ false → (c.active_howl ≡ none) × (c.retired ≡ []))
      one_voice =
          let s = page-IsSound.0 in (s.silent, λ off. ((s.waiting off).0, (s.waiting off).1))

  -- A page that is closed while a callback waits for the audio context may be heard afterwards: if
  -- the player is authenticated, the audio is enabled, no clip is active and a clip was asked for,
  -- then the clip plays once the callback has run, until the close event of the page's socket runs.
  -- If the close event comes first, then nothing is heard.
  pub heard_after_destroy :
      (c : Client V Howl) (d : Clip V) (n : ℕ)
      → c.authenticated ≡ true
      → c.enabled ≡ true
      → c.active_howl ≡ none
      → c.desired ≡ some d
      → c.resuming ≡ suc n
      → (heard howler (run howler (destroyed ∷ []) c) ≡ none)
        × (heard howler (run howler (destroyed ∷ resumed ∷ []) c) ≡ some d)
        × (heard howler (run howler (destroyed ∷ resumed ∷ closed ∷ []) c) ≡ none)
        × (heard howler (run howler (destroyed ∷ closed ∷ resumed ∷ []) c) ≡ none)
  unfolding run step on_destroy on_close reconcile reconcile_to
  heard_after_destroy c d n known on idle asked waits = (
    ground arith,
    ground (arith, howler.playing-play d),
    rw (waits, idle, asked, on, known) refl,
    rw (waits, idle, asked, on, known) refl,
  )
