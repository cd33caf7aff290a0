-- ===== src/Backend/Session.antt =====
-- backend/src/ws/handler.rs: the socket of a player. A payload of Redis is what it is parsed to, by
-- the crate serde_json; a message to the browser is the object that its text is made of.
use audio_server.Common.{
  Bool, List, Option, String, [], false, if◌then◌else◌, none, not, some, str_eq, true, ℕ, ◌++◌,
  ◌||◌, ◌∷◌,
}
use audio_server.Http.{Reply, truthy}
use audio_server.Backend.{Answer, Config, Crates, Redis, failed, got}
use audio_server.Backend.Handlers.{plain}
use audio_server.Backend.Jwt.{sign}
use audio_server.Backend.Tokens.{validate_ott}

-- A value of JSON; `V` are its numbers, and `compound` an array or an object.
pub data Json (V : Type 0) : Type 0 where
  text : String → Json V
  number : V → Json V
  bool : Bool → Json V
  null compound : Json V

abbrev pub Object : Type 0 → Type 0
Object V = List (String × Json V)

-- What a message of Redis makes the session do.
pub data SessionAction (V : Type 0) : Type 0 where
  forward : Object V → SessionAction V
  close : SessionAction V

module _ {V : Type 0} where
  unfoldable pub get : String → Object V → Option (Json V)
  get name [] = none
  get name ((k, v) ∷ fields) = if str_eq k name then some v else get name fields

  abbrev pub as_str : Option (Json V) → Option String
  as_str (some (text s)) = some s
  as_str _ = none

  unfoldable pub remove : String → Object V → Object V
  remove name [] = []
  remove name ((k, v) ∷ fields) =
      let rest = remove name fields in if str_eq k name then rest else (k, v) ∷ rest

  -- `insert`: the field takes the place of an earlier one of its name.
  abbrev pub insert : String → Json V → Object V → Object V
  insert name v obj = (name, v) ∷ remove name obj

  abbrev pub translated : String → Object V → Option (SessionAction V)
  translated event obj =
      if str_eq event "player_disconnect"
      then some close
      else if str_eq event "audio_play" || str_eq event "audio_stop"
      then some (forward (insert "type" (text event) (remove "player_id" (remove "event" obj))))
      else none

  -- `none` is a payload that is no object.
  unfoldable pub translate_event : Option (Object V) → String → Option (SessionAction V)
  translate_event none player_uuid = none
  translate_event (some obj) player_uuid = elim (as_str (get "player_id" obj)) [
    | none ↦ none
    | some pid ↦
        if not (str_eq pid player_uuid)
        then none
        else elim (as_str (get "event" obj)) [ none ↦ none | some event ↦ translated event obj ]
  ]

-- What the loop waits for: a frame of the browser or a message of Redis, with whether what is sent for
-- it can be sent; `undecoded` is a payload that is no text.
pub data Input (V : Type 0) : Type 0 where
  browser_closed receive_error redis_ended other_frame undecoded : Input V
  ping : (delivered : Bool) → Input V
  published : (payload : Option (Object V)) → (delivered : Bool) → Input V

-- What goes to the browser.
pub data Frame (V : Type 0) : Type 0 where
  message : Object V → Frame V
  pong close_frame : Frame V

module _ {V : Type 0} where
  -- One turn of the loop: the frames that it sends, and whether the loop goes on.
  abbrev pub act : Option (SessionAction V) → Bool → List (Frame V) × Bool
  act none delivered = ([], true)
  act (some close) delivered = (close_frame ∷ [], false)
  act (some (forward obj)) delivered = (message obj ∷ [], delivered)

  unfoldable pub turn : String → Input V → List (Frame V) × Bool
  turn player_uuid browser_closed = ([], false)
  turn player_uuid receive_error = ([], false)
  turn player_uuid redis_ended = ([], false)
  turn player_uuid other_frame = ([], true)
  turn player_uuid undecoded = ([], true)
  turn player_uuid (ping delivered) = (pong ∷ [], delivered)
  turn player_uuid (published payload delivered) =
      act (translate_event payload player_uuid) delivered

  -- Once the loop ends the socket is dropped, which closes it.
  unfoldable pub session_loop : String → List (Input V) → List (Frame V)
  session_loop player_uuid [] = []
  session_loop player_uuid (i ∷ inputs) =
      let rest = session_loop player_uuid inputs in
      let (frames, goes_on) = turn player_uuid i in if goes_on then frames ++ rest else frames

  abbrev pub auth_msg : (jwt player_uuid : String) → Object V
  auth_msg jwt player_uuid =
      ("type", text "auth_success") ∷ ("jwt", text jwt) ∷ ("player_uuid", text player_uuid) ∷ []

  -- `ws_session`: `subscribed` says whether Redis takes the subscription.
  unfoldable pub ws_session :
      (player_uuid signed_jwt : String)
      → (delivered subscribed : Bool) → List (Input V)
      → List (Frame V)
  ws_session player_uuid signed_jwt delivered subscribed inputs =
      if not delivered
      then message (auth_msg signed_jwt player_uuid) ∷ []
      else if not subscribed
      then message (auth_msg signed_jwt player_uuid) ∷ close_frame ∷ []
      else message (auth_msg signed_jwt player_uuid) ∷ session_loop player_uuid inputs

-- A plain response, or a socket for a player with a token.
pub data Upgrade : Type 0 where
  refused : Reply String → Upgrade
  upgraded : (player_uuid signed_jwt : String) → Upgrade

module _ (crates : Crates) (redis : Redis) (config : Config) where
  open crates use {Uuid, uuid_text}
  open redis use {Store}

  abbrev pub signed : String → Option String → Upgrade
  signed player_uuid none = refused (plain 500)
  signed player_uuid (some jwt) = upgraded player_uuid jwt

  abbrev pub ott_answer : ℕ → Answer (Option Uuid) → Upgrade
  ott_answer now failed = refused (plain 500)
  ott_answer now (got none) = refused (plain 401)
  ott_answer now (got (some uuid)) =
      signed (uuid_text uuid) (sign crates config now (uuid_text uuid))

  -- `GET /ws?token=…`
  unfoldable pub ws_handler : ℕ → Option String → Store → Upgrade × Store
  ws_handler now token s = elim (truthy token) [
    | none ↦ (refused (plain 400), s)
    | some t ↦ let (ott, s') = validate_ott crates redis now t s in (ott_answer now ott, s')
  ]
