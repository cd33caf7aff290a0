-- ===== src/EndToEnd/Audio.antt =====
-- From the game to the listen page: what the plugins publish, what the relay passes on, what is heard.
use audio_server.Common.{
  All, Bool, Bool-cases, List, Option, String, [], ap, false, if◌then◌else◌, inl, inr, map, none,
  is_some, sym, ◌⊎◌, refl, some, str_eq, true, ◌++◌, ◌∙◌, ◌∷◌, ◌≡◌, ◌≢◌,
}
use audio_server.Lite.{Clip, Event, Howler, heard, mount, run}
use audio_server.Lite
use audio_server.Lite.Asked.{authenticates, lossy, request, wanted}
use audio_server.Lite.Invariant.{Hears-same}
use audio_server.Lite.Laws.{heard-wanted}
use audio_server.Backend.Session.{
  Frame, Input, Json, Object, bool, close_frame, get, message, number, pong, published, remove,
  session_loop, text, translate_event, turn, ws_session,
}
use audio_server.Plugin.{
  GameEvent, audio_play, audio_stop, player_connect, player_disconnect, region_enter, server_switch,
  fields, to_json,
}

module _ {V : Type 0} where
  -- The message that the listen page reads from an object, if it has the shape of one.
  abbrev pub play_of : Option (Json V) → Option (Json V) → Option (Json V) → List (Event V)
  play_of (some (text src)) (some (number volume)) (some (bool loop)) =
      Lite.message (Lite.audio_play src volume loop) ∷ []
  play_of _ _ _ = []

  abbrev pub auth_of : Option (Json V) → Option (Json V) → List (Event V)
  auth_of (some (text jwt)) (some (text uuid)) = Lite.message (Lite.auth_success jwt uuid) ∷ []
  auth_of _ _ = []

  abbrev pub typed : Option (Json V) → Object V → List (Event V)
  typed (some (text t)) obj =
      if str_eq t "auth_success"
      then auth_of (get "jwt" obj) (get "player_uuid" obj)
      else if str_eq t "audio_play"
      then play_of (get "src" obj) (get "volume" obj) (get "loop" obj)
      else if str_eq t "audio_stop"
      then Lite.message Lite.audio_stop ∷ []
      else []
  typed _ obj = []

  -- What the frames of the relay are to the page; an answer to a ping is not seen by it.
  unfoldable pub arrivals : List (Frame V) → List (Event V)
  arrivals [] = []
  arrivals (message obj ∷ frames) = typed (get "type" obj) obj ++ arrivals frames
  arrivals (pong ∷ frames) = arrivals frames
  arrivals (close_frame ∷ frames) = Lite.closed ∷ arrivals frames

  -- What happens to the page by its socket.
  abbrev pub by_socket : Event V → Bool
  by_socket (Lite.message m) = true
  by_socket Lite.closed = true
  by_socket _ = false

  unfoldable pub socket_part : List (Event V) → List (Event V)
  socket_part [] = []
  socket_part (e ∷ es) = let rest = socket_part es in if by_socket e then e ∷ rest else rest

  -- What the game has asked for last for a player, until it reports that the player has left.
  unfoldable pub asked : String → List (GameEvent V) → Option (Clip V) → Option (Clip V)
  asked player [] d = d
  asked player (audio_play id src volume loop ∷ gs) d =
      asked player gs
        (if str_eq id player then some (record { src = src; volume = volume; loop = loop }) else d)
  asked player (audio_stop id ∷ gs) d = asked player gs (if str_eq id player then none else d)
  asked player (player_disconnect id ∷ gs) d =
      let rest = asked player gs d in if str_eq id player then none else rest
  asked player (region_enter id region action ∷ gs) d = asked player gs d
  asked player (player_connect id username ∷ gs) d = asked player gs d
  asked player (server_switch id server ∷ gs) d = asked player gs d

  wanted-socket_part :
      (es : List (Event V)) (a : Bool) (d : Option (Clip V))
      → wanted es a d ≡ wanted (socket_part es) a d
  unfolding wanted socket_part
  wanted-socket_part [] a d = refl
  wanted-socket_part (Lite.opened ∷ es) a d = wanted-socket_part es a d
  wanted-socket_part (Lite.malformed ∷ es) a d = wanted-socket_part es a d
  wanted-socket_part (Lite.errored ∷ es) a d = wanted-socket_part es a d
  wanted-socket_part (Lite.closed ∷ es) a d = wanted-socket_part es a (if a then none else d)
  wanted-socket_part (Lite.resumed ∷ es) a d = wanted-socket_part es a d
  wanted-socket_part (Lite.destroyed ∷ es) a d = wanted-socket_part es a d
  wanted-socket_part ((Lite.message m) ∷ es) a d =
      wanted-socket_part es (authenticates (Lite.message m) a) (request (Lite.message m) a d)
  wanted-socket_part ((Lite.clicked b) ∷ es) a d = wanted-socket_part es a d
  wanted-socket_part ((Lite.load_failed active err) ∷ es) a d = wanted-socket_part es a d
  wanted-socket_part (Lite.ended ∷ es) a d = wanted-socket_part es a d

-- The texts on their way: `fixed` is the plugin's `%.2f`, `as_read` the number that its text is read
-- as, and `parse` is what the relay's serde_json makes of a text, if it is an object.
module _ {V : Type 0} (fixed : V → String) (as_read : V → V)
    (parse : String → Option (Object V)) where
  abbrev pub payload : GameEvent V → Option (Object V)
  payload g = parse (to_json fixed g)

  -- A text is read as its fields, or it is no JSON: it has a quote, a backslash or a control character
  -- in a name, or a decimal comma. A name that makes JSON of another meaning is left out here.
  abbrev pub IsRead : GameEvent V → Type 0
  IsRead g = (payload g ≡ some (fields as_read g)) ⊎ (payload g ≡ none)

  -- The event that the relay reads.
  abbrev pub rounded : GameEvent V → GameEvent V
  rounded (audio_play id src volume loop) = audio_play id src (as_read volume) loop
  rounded g = g

  -- The events whose texts are objects, as they are read.
  unfoldable pub legible : List (GameEvent V) → List (GameEvent V)
  legible [] = []
  legible (g ∷ gs) = let rest = legible gs in if is_some (payload g) then rounded g ∷ rest else rest

  abbrev pub inputs_of : List (GameEvent V) → List (Input V)
  inputs_of gs = map (λ (g : GameEvent V). published (payload g) true) gs

  -- What a turn of the relay's loop does with the fields of an event.
  loop-fields :
      (player : String) (g : GameEvent V) (gs l : List (GameEvent V))
      → ((d : Option (Clip V))
          → wanted (arrivals (session_loop player (inputs_of gs))) true d ≡ asked player (l) d)
      → (d : Option (Clip V))
      → wanted
          (arrivals (session_loop player (published (some (fields as_read g)) true ∷ inputs_of gs)))
          true
          d
        ≡ asked player (rounded g ∷ l) d
  unfolding wanted arrivals session_loop turn translate_event fields get remove asked
  loop-fields player (audio_play id src volume loop) gs l ih d =
      elim (Bool-cases (str_eq id player)) [
        | inl own ↦ rw own (ih (some (record { src = src; volume = as_read volume; loop = loop })))
        | inr other ↦ rw other (ih d)
      ]
  loop-fields player (audio_stop id) gs l ih d = elim (Bool-cases (str_eq id player)) [
    | inl own ↦ rw own (ih none)
    | inr other ↦ rw other (ih d)
  ]
  loop-fields player (player_disconnect id) gs l ih d = elim (Bool-cases (str_eq id player)) [
    | inl own ↦ rw own (refl)
    | inr other ↦ rw other (ih d)
  ]
  loop-fields player (region_enter id region action) gs l ih d =
      elim (Bool-cases (str_eq id player)) [ inl own ↦ rw own (ih d) | inr other ↦ rw other (ih d) ]
  loop-fields player (player_connect id username) gs l ih d = elim (Bool-cases (str_eq id player)) [
    | inl own ↦ rw own (ih d)
    | inr other ↦ rw other (ih d)
  ]
  loop-fields player (server_switch id server) gs l ih d = elim (Bool-cases (str_eq id player)) [
    | inl own ↦ rw own (ih d)
    | inr other ↦ rw other (ih d)
  ]

  loop-asked :
      (player : String) (gs : List (GameEvent V))
      → All IsRead gs
      → (d : Option (Clip V))
      → wanted (arrivals (session_loop player (inputs_of gs))) true d ≡ asked player (legible gs) d
  unfolding legible session_loop turn translate_event wanted arrivals asked
  loop-asked player [] r d = refl
  loop-asked player (g ∷ gs) (inl e, r) d =
      rw e (loop-fields player g gs (legible gs) (loop-asked player gs r) d)
  loop-asked player (g ∷ gs) (inr e, r) d = rw e (loop-asked player gs r d)

  session-asked :
      (player jwt : String) (gs : List (GameEvent V))
      → All IsRead gs
      → (d : Option (Clip V))
      → wanted (arrivals (ws_session player jwt true true (inputs_of gs))) false d
        ≡ asked player (legible gs) d
  unfolding wanted arrivals ws_session get
  session-asked player jwt gs r d = loop-asked player gs r d

  module _ (howler : Howler V) (encode : String → String) (protocol host : String) where
    -- From the game to the ears of a player. Let the relay have told the player's page, over an open
    -- socket, what the plugins have published for all players, each text being read as its fields or
    -- being no JSON; let other things have happened to the page in between, but neither its end nor
    -- another end of its socket. Once the audio is enabled and no callback waits for the audio
    -- context, then what is heard is what the game has asked for last for this player in a text that
    -- is JSON, with its loop and its volume as that text is read, and nothing if that was silence or if
    -- the player has left the game. Only if a clip could not be loaded or has come to its end, and since
    -- then the page was asked for nothing but the same source, it may be nothing instead.
    pub heard_published :
        (token : Option String) (player jwt : String) (gs : List (GameEvent V))
        (es : List (Event V))
        → All IsRead gs
        → All (λ e. e ≢ Lite.destroyed) es
        → socket_part es ≡ arrivals (ws_session player jwt true true (inputs_of gs))
        → let c = run howler es (mount encode protocol host token) in
          c.enabled ≡ true
          → c.resuming ≡ 0
          → (heard howler c ≡ asked player (legible gs) none)
            ⊎ ((heard howler c ≡ none) × (lossy es false none false ≡ true))
    heard_published token player jwt gs es read alive told on done =
        let same =
          wanted-socket_part es false none
          ∙ ap (λ (l : List (Event V)). wanted l false none) told
          ∙ session-asked player jwt gs read none in
        Hears-same howler (sym same)
          (heard-wanted howler encode protocol host token es alive on done)
