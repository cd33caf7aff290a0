-- ===== src/Lite/Replay.antt =====
-- The listen page once a clip without loop has come to its end by itself: the page is not told.
use audio_server.Common.{
  Bool, Bool-cases, List, Option, String, [], ap, eq_iff, false, if-not-true, inl, inr, is_text,
  map, none, not, refl, str_eq, if◌then◌else◌, some, sym, true, ◌∙◌, ◌∷◌, ◌≡◌, ◌≢◌,
}
use audio_server.Lite.{
  Client, Clip, Event, Howler, audio_play, audio_stop, heard, message, on_message, reconcile,
  reconcile_to, reconcile_with, replace, run, step,
}

-- A request to play a source, with a volume and a loop flag.
abbrev pub request : {V : Type 0} → String → V × Bool → Event V
request src (volume, loop) = message (audio_play src volume loop)

abbrev pub clip : {V : Type 0} → String → V × Bool → Clip V
clip src (volume, loop) = record { src = src; volume = volume; loop = loop }

module _ {V : Type 0} (howler : Howler V) where
  open howler use {Howl, set_volume, set_loop, playing}

  -- The page plays the source, as far as it knows, and the clip has ended.
  pub record HasEnded (src : String) (c : Client V Howl) : Type 0 where
    pub on : c.enabled ≡ true
    pub howl : Howl
    pub active : c.active_howl ≡ some howl
    pub source : c.active_src ≡ some src
    pub ended : playing howl ≡ none

  reconcile-on :
      (c : Client V Howl) → c.enabled ≡ true → reconcile howler c ≡ reconcile_to howler c.desired c
  unfolding reconcile
  reconcile-on c on = if-not-true _ _ c.enabled on

  reconcile-known :
      (d : Clip V) (h : Howl) (c : Client V Howl)
      → c.enabled ≡ true
      → c.desired ≡ some d
      → c.active_howl ≡ some h
      → is_text c.active_src d.src ≡ true
      → reconcile howler c
        ≡ record c { active_howl = some (set_loop d.loop (set_volume d.volume h)) }
  unfolding reconcile_to reconcile_with
  reconcile-known d h c on asked active known =
      reconcile-on c on
      ∙ ap (λ (o : Option (Clip V)). reconcile_to howler o c) asked
      ∙ ap (λ (o : Option Howl). reconcile_with howler o d c) active
      ∙ rw (known, reconcile_with) refl

  reconcile-new :
      (d : Clip V) (h : Howl) (c : Client V Howl)
      → c.enabled ≡ true
      → c.desired ≡ some d
      → c.active_howl ≡ some h
      → is_text c.active_src d.src ≡ false
      → reconcile howler c ≡ replace howler d c
  unfolding reconcile_to reconcile_with
  reconcile-new d h c on asked active new =
      reconcile-on c on
      ∙ ap (λ (o : Option (Clip V)). reconcile_to howler o c) asked
      ∙ ap (λ (o : Option Howl). reconcile_with howler o d c) active
      ∙ rw (new, reconcile_with) refl

  -- The page with the request noted, before `reconcile`.
  abbrev noted : Clip V → Client V Howl → Client V Howl
  noted d c = record c {
    desired = some d;
    status = if not c.enabled then "Audio queued — click Enable Audio to start." else c.status;
  }

  -- A request for another source is heard.
  other-heard :
      (src other : String) (vb : V × Bool) (c : Client V Howl)
      → HasEnded src c
      → other ≢ src
      → heard howler (step howler (request other vb) c) ≡ some (clip other vb)
  unfolding step on_message
  other-heard src other (v, b) c e differs =
      let new : is_text c.active_src other ≡ false =
        rw e.source (elim (Bool-cases (str_eq src other)) [
          | inl same ↦ absurd (differs (sym ((eq_iff src other).0 same)))
          | inr apart ↦ apart
        ]) in
      ap (heard howler) (
        reconcile-new (clip other (v, b)) e.howl (noted (clip other (v, b)) c) e.on refl e.active
          new)
      ∙ howler.playing-play (clip other (v, b))

  fresh-heard :
      (src : String) (vb : V × Bool) (c : Client V Howl)
      → c.enabled ≡ true
      → c.active_howl ≡ none
      → heard howler (step howler (request src vb) c) ≡ some (clip src vb)
  unfolding step on_message reconcile_to reconcile_with
  fresh-heard src (v, b) c on idle =
      ap (heard howler) (
        reconcile-on (noted (clip src (v, b)) c) on
        ∙ ap
            (λ (o : Option Howl).
              reconcile_with howler o (clip src (v, b)) (noted (clip src (v, b)) c))
            idle)
      ∙ howler.playing-play (clip src (v, b))

  stop_clears :
      (c : Client V Howl)
      → c.enabled ≡ true
      → ((step howler (message audio_stop) c).enabled ≡ true)
        × ((step howler (message audio_stop) c).active_howl ≡ none)
  unfolding step on_message reconcile_to
  stop_clears c on =
      let path = reconcile-on (record c { desired = none }) on in
      (
        ap (λ (x : Client V Howl). x.enabled) path ∙ on,
        ap (λ (x : Client V Howl). x.active_howl) path,
      )

  -- So is one for the same source after a request for silence.
  stop-heard :
      (src : String) (vb : V × Bool) (c : Client V Howl)
      → HasEnded src c
      → heard howler (step howler (request src vb) (step howler (message audio_stop) c))
        ≡ some (clip src vb)
  stop-heard src vb c e = let (on, idle) = stop_clears c e.on in fresh-heard src vb _ on idle

  request-HasEnded :
      (src : String) (vb : V × Bool) (c : Client V Howl)
      → HasEnded src c
      → HasEnded src (step howler (request src vb) c)
  unfolding step on_message
  request-HasEnded src (v, b) c e =
      let known : is_text c.active_src src ≡ true = rw e.source ((eq_iff src src).1 refl) in
      let path =
        reconcile-known (clip src (v, b)) e.howl (noted (clip src (v, b)) c) e.on refl e.active
          known in
      record {
        on = ap (λ (x : Client V Howl). x.enabled) path ∙ e.on;
        howl = set_loop b (set_volume v e.howl);
        active = ap (λ (x : Client V Howl). x.active_howl) path;
        source = ap (λ (x : Client V Howl). x.active_src) path ∙ e.source;
        ended = howler.playing-set_silent e.howl v b e.ended;
      }

  run-HasEnded :
      (src : String) (vbs : List (V × Bool)) (c : Client V Howl)
      → HasEnded src c
      → HasEnded src (run howler (map (request src) vbs) c)
  unfolding run
  run-HasEnded src [] c e = e
  run-HasEnded src (vb ∷ vbs) c e = run-HasEnded src vbs _ (request-HasEnded src vb c e)

  -- Once a clip has come to its end, the same source is not heard again, however often the server
  -- asks for it and with whatever volume and loop flag, until it asks for another source or for
  -- silence in between: those are heard at once.
  pub replay_is_lost :
      (src : String) (vbs : List (V × Bool)) (c : Client V Howl)
      → HasEnded src c
      → let c' = run howler (map (request src) vbs) c in
        (heard howler c' ≡ none)
        × ((other : String) (vb : V × Bool)
            → other ≢ src
            → heard howler (step howler (request other vb) c') ≡ some (clip other vb))
        × ((vb : V × Bool)
            → heard howler (step howler (request src vb) (step howler (message audio_stop) c'))
              ≡ some (clip src vb))
  replay_is_lost src vbs c e =
      let e' = run-HasEnded src vbs c e in
      (
        rw e'.active e'.ended,
        λ other vb differs. other-heard src other vb _ e' differs,
        λ vb. stop-heard src vb _ e',
      )
