-- ===== src/Lite.antt =====
-- client-lite/src/routes/+page.svelte: the listen page. Its variables are a record, a handler is a
-- function from the record to the record, and the messages are those of client-lite/src/lib/ws-types.ts.
-- The library howler.js is a parameter.
pub mod Asked
pub mod Invariant
pub mod Laws
pub mod Replay
pub mod View
use audio_server.Common.{
  Bool, List, Option, String, [], false, if◌then◌else◌, is_text, none, not, some, str_eq, suc,
  template, true, zero, ℕ, ◌&&◌, ◌∷◌, ◌≡◌,
}
use audio_server.Http.{truthy}

-- What the server asks for. `V` are the numbers of JavaScript, which are only passed on.
pub record Clip (V : Type 0) : Type 0 where
  pub src : String
  pub volume : V
  pub loop : Bool

pub data RelayMessage (V : Type 0) : Type 0 where
  auth_success : (jwt player_uuid : String) → RelayMessage V
  audio_play : (src : String) (volume : V) (loop : Bool) → RelayMessage V
  audio_stop : RelayMessage V

-- howler.js: a `Howl` and its methods. `playing` is what a Howl plays: what it was told to, until it
-- is told to stop. `fall_silent` is what becomes of a Howl whose source could not be loaded, or whose
-- clip has come to its end: it plays nothing, and no volume or loop flag makes it play.
pub record Howler (V : Type 0) : Type 1 where
  pub Howl : Type 0
  pub create : Clip V → Howl
  pub play : Howl → Howl
  pub stop : Howl → Howl
  pub unload : Howl → Howl
  pub set_volume : V → Howl → Howl
  pub set_loop : Bool → Howl → Howl
  pub fall_silent : Howl → Howl
  pub playing : Howl → Option (Clip V)
  pub playing-play : (d : Clip V) → playing (play (create d)) ≡ some d
  pub playing-unload : (h : Howl) → playing (unload (stop h)) ≡ none
  pub playing-set :
      (h : Howl) (d : Clip V) (v : V) (b : Bool)
      → playing h ≡ some d
      → playing (set_loop b (set_volume v h)) ≡ some (record { src = d.src; volume = v; loop = b })
  pub playing-fall_silent : (h : Howl) → playing (fall_silent h) ≡ none
  pub playing-set_silent :
      (h : Howl) (v : V) (b : Bool)
      → playing h ≡ none
      → playing (set_loop b (set_volume v h)) ≡ none

-- The page's variables. `retired` are the Howls that `activeHowl` named before, `resuming` counts the
-- calls of `reconcile` that wait for the audio context, `stored_jwt` is the item in `localStorage`.
pub record Client (V Howl : Type 0) : Type 0 where
  pub status : String
  pub authenticated : Bool
  pub enabled : Bool
  pub player_uuid : Option String
  pub desired : Option (Clip V)
  pub connected_to : Option String
  pub active_howl : Option Howl
  pub active_src : Option String
  pub retired : List Howl
  pub resuming : ℕ
  pub stored_jwt : Option String

-- What happens to the page after it is mounted. `ended` is that the clip of the active Howl comes to
-- its end, of which the page is not told. `load_failed` calls `onloaderror`, of the active Howl or of
-- one that was replaced.
pub data Event (V : Type 0) : Type 0 where
  opened malformed errored closed resumed destroyed ended : Event V
  message : RelayMessage V → Event V
  clicked : (suspended : Bool) → Event V
  load_failed : (active : Bool) → (err : String) → Event V

abbrev pub initial : {V Howl : Type 0} → Client V Howl
initial = record {
  status = "Initialising…";
  authenticated = false;
  enabled = false;
  player_uuid = none;
  desired = none;
  connected_to = none;
  active_howl = none;
  active_src = none;
  retired = [];
  resuming = 0;
  stored_jwt = none;
}

-- `onMount`, once the token is read.
open_page :
    {V Howl : Type 0} → (String → String) → (protocol host : String) → Option String → Client V Howl
open_page encode protocol host none = record initial {
  status = "Error: no token in URL. Use /audio in-game to get a link.";
}
open_page encode protocol host (some token) =
    let proto = if str_eq protocol "https:" then "wss" else "ws" in
    record initial {
      status = "Connecting…";
      connected_to = some (template (proto ∷ "://" ∷ host ∷ "/ws?token=" ∷ encode token ∷ []));
    }

-- `onMount`: the parts of the page's address are arguments, and `encode` is `encodeURIComponent`.
unfoldable pub mount :
    {V Howl : Type 0} → (String → String) → (protocol host : String) → Option String → Client V Howl
unfolding open_page
mount encode protocol host token = open_page encode protocol host (truthy token)

module _ {V : Type 0} (howler : Howler V) where
  open howler use {Howl, create, play, stop, unload, set_volume, set_loop, fall_silent}

  -- `activeHowl?.stop(); activeHowl?.unload()`, for a Howl that is given up afterwards.
  abbrev pub given_up : Option Howl → List Howl → List Howl
  given_up none retired = retired
  given_up (some h) retired = unload (stop h) ∷ retired

  abbrev pub replace : Clip V → Client V Howl → Client V Howl
  replace d c = record c {
    retired = given_up c.active_howl c.retired;
    active_howl = some (play (create d));
    active_src = some d.src;
  }

  reconcile_with : Option Howl → Clip V → Client V Howl → Client V Howl
  reconcile_with none d c = replace d c
  reconcile_with (some h) d c =
      if is_text c.active_src d.src
      then record c { active_howl = some (set_loop d.loop (set_volume d.volume h)) }
      else replace d c

  reconcile_to : Option (Clip V) → Client V Howl → Client V Howl
  unfolding reconcile_with
  reconcile_to none c = record c {
    retired = given_up c.active_howl c.retired;
    active_howl = none;
    active_src = none;
  }
  reconcile_to (some d) c = reconcile_with c.active_howl d c

  unfoldable pub reconcile : Client V Howl → Client V Howl
  unfolding reconcile_to
  reconcile c = if not c.enabled then c else reconcile_to c.desired c

  unfoldable pub enable_audio : Bool → Client V Howl → Client V Howl
  enable_audio suspended c =
      let c' = record c { enabled = true; status = "Audio enabled." } in
      if suspended then record c' { resuming = suc c'.resuming } else reconcile c'

  unfoldable pub on_message : RelayMessage V → Client V Howl → Client V Howl
  on_message (auth_success jwt uuid) c = record c {
    stored_jwt = some jwt;
    player_uuid = some uuid;
    authenticated = true;
    status =
        if c.enabled
        then "Connected — audio is active."
        else "Connected — click Enable Audio to hear in-game sounds.";
  }
  on_message (audio_play src volume loop) c = reconcile (record c {
    desired = some (record { src = src; volume = volume; loop = loop });
    status = if not c.enabled then "Audio queued — click Enable Audio to start." else c.status;
  })
  on_message audio_stop c =
      let c' = reconcile (record c { desired = none }) in
      record c' { status = if c'.enabled then "Connected — no active audio." else c'.status }

  unfoldable pub on_close : Client V Howl → Client V Howl
  on_close c =
      if not c.authenticated
      then record c { status = "Disconnected before authentication completed." }
      else reconcile (record c { status = "Connection closed."; desired = none })

  -- `onDestroy`, which closes the socket too; `activeHowl` keeps its value.
  unfoldable pub on_destroy : Client V Howl → Client V Howl
  on_destroy c = record c {
    active_howl = elim c.active_howl [ none ↦ none | some h ↦ some (unload (stop h)) ];
  }

  -- A callback that waited for the audio context runs `reconcile`.
  abbrev pub on_resumed : ℕ → Client V Howl → Client V Howl
  on_resumed zero c = c
  on_resumed (suc n) c = reconcile (record c { resuming = n })

  -- The active Howl plays nothing any more; `activeHowl` and `activeSrc` keep their values.
  abbrev pub fallen_silent : Option Howl → Option Howl
  fallen_silent none = none
  fallen_silent (some h) = some (fall_silent h)

  abbrev pub silenced : Client V Howl → Client V Howl
  silenced c = record c { active_howl = fallen_silent c.active_howl }

  -- `onloaderror`
  abbrev pub on_load_error : String → Client V Howl → Client V Howl
  on_load_error err c = record c {
    status =
        template ("Audio load error — check the URL configured on the region. (" ∷ err ∷ ")" ∷ []);
  }

  unfoldable pub step : Event V → Client V Howl → Client V Howl
  step opened c = record c { status = "Authenticating…" }
  step malformed c = c
  step errored c = record c { status = "Connection error. Use /audio in-game to get a new link." }
  step closed c = on_close c
  step resumed c = on_resumed c.resuming c
  step destroyed c = on_destroy c
  step (message m) c = on_message m c
  -- the button is there only for who is authenticated and has not clicked it
  step (clicked suspended) c =
      if c.authenticated && not c.enabled then enable_audio suspended c else c
  step (load_failed active err) c = on_load_error err (if active then silenced c else c)
  step ended c = silenced c

  -- The handlers run one after another.
  unfoldable pub run : List (Event V) → Client V Howl → Client V Howl
  run [] c = c
  run (e ∷ es) c = run es (step e c)

  -- What is heard of the page.
  abbrev pub heard : Client V Howl → Option (Clip V)
  heard c = elim c.active_howl [ none ↦ none | some h ↦ howler.playing h ]
