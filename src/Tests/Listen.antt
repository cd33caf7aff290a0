-- ===== src/Tests/Listen.antt =====
-- The listen page at inputs, with a Howl that is what it plays.
use audio_server.Common.{
  All, Bool, List, Option, String, [], arith, false, map, none, refl, some, true, ℕ, ◌∷◌, ◌≡◌, ◌≢◌,
  ◌⊎◌,
}
use audio_server.Lite.{
  Client, Clip, Event, Howler, audio_play, audio_stop, auth_success, clicked, closed, destroyed,
  enable_audio, heard, load_failed, message, mount, on_close, on_destroy, on_message, reconcile,
  resumed, run, step,
}
use audio_server.Common.{is_some}
use audio_server.Http.{truthy}
use audio_server.Lite.Asked.{named}
use audio_server.Lite.View.{view}
use audio_server.Lite.View.Laws.{view-Tells}
use audio_server.Lite.Replay.{HasEnded, clip, replay_is_lost, request}
use audio_server.Lite.Laws.{heard-wanted, heard_after_destroy, one_voice}
use audio_server.Lite.Asked.{lossy, wanted}

abbrev pub volume_to : ℕ → Option (Clip ℕ) → Option (Clip ℕ)
volume_to v none = none
volume_to v (some d) = some (record d { volume = v })

abbrev pub loop_to : Bool → Option (Clip ℕ) → Option (Clip ℕ)
loop_to b none = none
loop_to b (some d) = some (record d { loop = b })

pub sets :
    (h : Option (Clip ℕ)) (d : Clip ℕ) (v : ℕ) (b : Bool)
    → h ≡ some d
    → loop_to b (volume_to v h) ≡ some (record { src = d.src; volume = v; loop = b })
sets none d v b e = cc
sets (some c) d v b e = ground arith

pub still : (h : Option (Clip ℕ)) (v : ℕ) (b : Bool) → h ≡ none → loop_to b (volume_to v h) ≡ none
still none v b e = refl
still (some d) v b e = absurd cc

abbrev pub speaker : Howler ℕ
speaker = record {
  Howl = Option (Clip ℕ);
  create = λ d. some d;
  play = λ h. h;
  stop = λ h. none;
  unload = λ h. h;
  set_volume = volume_to;
  set_loop = loop_to;
  fall_silent = λ h. none;
  playing = λ h. h;
  playing-play = λ d. refl;
  playing-unload = λ h. refl;
  playing-set = sets;
  playing-fall_silent = λ h. refl;
  playing-set_silent = still;
}

abbrev evening : List (Event ℕ)
evening =
    message (audio_play "a.ogg" 80 true)
    ∷ message (auth_success "jwt" "uuid")
    ∷ clicked true
    ∷ resumed
    ∷ message (audio_play "b.ogg" 50 false)
    ∷ []

abbrev page_after : List (Event ℕ) → Client ℕ (Option (Clip ℕ))
page_after es = run speaker es (mount (λ s. s) "https:" "audio.example" (some "ott"))

listen : Unit {0}
unfolding run step mount enable_audio on_message reconcile wanted on_destroy on_close
listen = tt

evening_test :
    heard speaker (page_after evening) ≡ some (record { src = "b.ogg"; volume = 50; loop = false })
unfolding listen
evening_test = refl

-- The second clip cannot be loaded, and the third is another one.
load_failed_test :
    (heard speaker (step speaker (load_failed true "404") (page_after evening)) ≡ none)
    × (heard speaker (
          run speaker
            (load_failed true "404" ∷ message (audio_play "c.ogg" 20 true) ∷ [])
            (page_after evening))
        ≡ some (record { src = "c.ogg"; volume = 20; loop = true }))
unfolding listen
load_failed_test = (refl, refl)

heard-wanted_example :
    (heard speaker (page_after evening) ≡ wanted evening false none)
    ⊎ ((heard speaker (page_after evening) ≡ none) × (lossy evening false none false ≡ true))
unfolding listen
heard-wanted_example =
    heard-wanted speaker (λ s. s) "https:" "audio.example" (some "ott") evening (ground arith) refl
      refl

one_voice_example :
    All (λ h. speaker.playing h ≡ none) (page_after evening).retired
    × ((page_after evening).enabled ≡ false
        → ((page_after evening).active_howl ≡ none) × ((page_after evening).retired ≡ []))
one_voice_example =
    one_voice speaker (λ s. s) "https:" "audio.example" (some "ott") evening (ground arith)

view-Tells_example :
    ((page_after evening).resuming ≡ 0
      → ((view (page_after evening)).playing ≡ is_some (heard speaker (page_after evening)))
        ⊎ ((heard speaker (page_after evening) ≡ none) × (lossy evening false none false ≡ true)))
    × ((err : String)
        → (heard speaker (step speaker (load_failed true err) (page_after evening)) ≡ none)
          × ((view (step speaker (load_failed true err) (page_after evening))).playing
              ≡ (view (page_after evening)).playing))
    × ((view (page_after evening)).session ≡ truthy (named evening none))
    × ((view (page_after evening)).ok ≡ (page_after evening).enabled)
view-Tells_example =
    view-Tells speaker (λ s. s) "https:" "audio.example" (some "ott") evening (ground arith)

view_test : view (page_after evening) ≡ record {
  status = "Audio enabled.";
  ok = true;
  warn = false;
  session = some "uuid";
  enable_button = false;
  playing = true;
}
unfolding listen view
view_test = refl

abbrev waiting_page : Client ℕ (Option (Clip ℕ))
waiting_page =
    page_after (
      message (audio_play "a.ogg" 80 true)
      ∷ message (auth_success "jwt" "uuid")
      ∷ clicked true
      ∷ [])

heard_after_destroy_example :
    (heard speaker (run speaker (destroyed ∷ []) waiting_page) ≡ none)
    × (heard speaker (run speaker (destroyed ∷ resumed ∷ []) waiting_page)
        ≡ some (record { src = "a.ogg"; volume = 80; loop = true }))
    × (heard speaker (run speaker (destroyed ∷ resumed ∷ closed ∷ []) waiting_page) ≡ none)
    × (heard speaker (run speaker (destroyed ∷ closed ∷ resumed ∷ []) waiting_page) ≡ none)
unfolding listen
heard_after_destroy_example =
    heard_after_destroy speaker waiting_page (record { src = "a.ogg"; volume = 80; loop = true }) 0
      refl refl refl refl refl

-- The second clip has come to its end.
abbrev ended_page : Client ℕ (Option (Clip ℕ))
ended_page = record (page_after evening) { active_howl = some none }

ended_page-HasEnded : HasEnded speaker "b.ogg" ended_page
unfolding listen
ended_page-HasEnded = record { on = refl; howl = none; active = refl; source = refl; ended = refl }

replay_is_lost_example :
    let c = run speaker (map (request "b.ogg") ((70, false) ∷ [])) ended_page in
    (heard speaker c ≡ none)
    × ((other : String) (vb : ℕ × Bool)
        → other ≢ "b.ogg"
        → heard speaker (step speaker (request other vb) c) ≡ some (clip other vb))
    × ((vb : ℕ × Bool)
        → heard speaker (step speaker (request "b.ogg" vb) (step speaker (message audio_stop) c))
          ≡ some (clip "b.ogg" vb))
replay_is_lost_example =
    replay_is_lost speaker "b.ogg" ((70, false) ∷ []) ended_page ended_page-HasEnded
