-- ===== src/Events/View.antt =====
-- What portal/app/(admin)/events/page.tsx shows: the frames that are parsed, the badge of the
-- connection, and the list of events, with the shapes of portal/lib/ws-types.ts. Nothing checks that
-- what a frame holds has such a shape: a field that is not there is `none`.
pub mod Rows
use Prim.Native.String
use audio_server.Common.{
  Bool, List, Option, String, [], false, if◌then◌else◌, is_text, none, some, str_eq, suc, template,
  true, zero, ℕ, ◌&&◌, ◌∷◌,
}
use audio_server.Http.{or_else}
use audio_server.Events.{
  ConnState, Frame, Page, connecting, error, event, history_end, live, malformed, reconnecting,
}

-- `RedisEvent`, and the field `type` of the mark of the history's end.
pub record RawEvent (V : Type 0) : Type 0 where
  pub type : Option String
  pub event : Option String
  pub player_id : Option String
  pub src : Option String
  pub volume : Option V
  pub loop : Option Bool
  pub region_id : Option String
  pub action : Option String
  pub username : Option String
  pub server : Option String

-- `onmessage`, up to what it does with the frame: `none` is a text that is not parsed, or that is
-- parsed to null, whose field cannot be read.
unfoldable pub parse_frame : {V : Type 0} → Option (RawEvent V) → Frame (RawEvent V)
parse_frame none = malformed
parse_frame (some raw) = if is_text raw.type "__history_end__" then history_end else Frame.event raw

-- What rendering gives: an exception takes the page down.
pub data Rendered (A : Type 0) : Type 0 where
  shown : A → Rendered A
  crashed : Rendered A

pub record Badge : Type 0 where
  pub style : String
  pub label : String
  pub dot : Bool

-- `ConnectionBadge`
unfoldable pub connection_badge : ConnState → Badge
connection_badge connecting = record {
  style = "text-amber-400 bg-amber-950/30 border-amber-900/50";
  label = "Connecting…";
  dot = false;
}
connection_badge live = record {
  style = "text-emerald-400 bg-emerald-950/30 border-emerald-900/50";
  label = "Live";
  dot = true;
}
connection_badge reconnecting = record {
  style = "text-amber-400 bg-amber-950/30 border-amber-900/50";
  label = "Reconnecting…";
  dot = false;
}
connection_badge error = record {
  style = "text-red-400 bg-red-950/30 border-red-900/50";
  label = "Error";
  dot = false;
}

-- `EVENT_COLORS`, and the colour of an event that is not in it; the names that every object inherits
-- are left aside.
unfoldable pub event_color : Option String → String
event_color e =
    if is_text e "audio_play"
    then "bg-emerald-900/60 text-emerald-400"
    else if is_text e "audio_stop"
    then "bg-zinc-800 text-zinc-400"
    else if is_text e "region_enter"
    then "bg-sky-900/60 text-sky-400"
    else if is_text e "player_connect"
    then "bg-violet-900/60 text-violet-400"
    else if is_text e "player_disconnect"
    then "bg-red-900/60 text-red-400"
    else if is_text e "server_switch"
    then "bg-amber-900/60 text-amber-400"
    else "bg-zinc-800 text-zinc-400"

-- `text.slice(0, n)`, for texts of characters of one unit.
abbrev pub slice_to : ℕ → String → String
slice_to zero s = ""
slice_to (suc n) String.[] = ""
slice_to (suc n) (String.◌∷◌ c s) = String.◌∷◌ c (slice_to n s)

-- What a field is shown as.
abbrev pub show_text : Option String → String
show_text o = or_else o ""

abbrev pub loop_text : Option Bool → String
loop_text (some true) = " · loop"
loop_text _ = ""

-- `percent` is the text of `Math.round(volume * 100)`, `time` that of a time of arrival.
pub record Formats (V : Type 0) : Type 0 where
  pub percent : Option V → String
  pub time : ℕ → String

pub record Row : Type 0 where
  pub time : String
  pub color : String
  pub event : String
  pub detail : String

abbrev pub cons_row : Rendered Row → Rendered (List Row) → Rendered (List Row)
cons_row (shown r) (shown rs) = shown (r ∷ rs)
cons_row (shown r) crashed = crashed
cons_row crashed rest = crashed

module _ {V : Type 0} (formats : Formats V) where
  -- The text of `EventDetail`, once the first eight characters of the player are read.
  unfoldable pub detail_text : String → RawEvent V → String
  detail_text pid e =
      if is_text e.event "audio_play"
      then template (
          pid
          ∷ "…"
          ∷ " · "
          ∷ show_text e.src
          ∷ " · "
          ∷ formats.percent e.volume
          ∷ "%"
          ∷ loop_text e.loop
          ∷ [])
      else if is_text e.event "audio_stop"
      then template (pid ∷ "…" ∷ [])
      else if is_text e.event "region_enter"
      then template (pid ∷ "…" ∷ " · " ∷ show_text e.region_id ∷ " " ∷ show_text e.action ∷ [])
      else if is_text e.event "player_connect"
      then template (show_text e.username ∷ " " ∷ pid ∷ "…" ∷ [])
      else if is_text e.event "player_disconnect"
      then template (pid ∷ "…" ∷ [])
      else if is_text e.event "server_switch"
      then template (pid ∷ "…" ∷ " → " ∷ show_text e.server ∷ [])
      else ""

  -- `EventDetail`: a field that is not there has no method `slice`.
  abbrev pub event_detail : RawEvent V → Rendered String
  event_detail e = elim e.player_id [
    | none ↦ crashed
    | some player_id ↦ shown (detail_text (slice_to 8 player_id) e)
  ]

  abbrev pub with_detail : RawEvent V → ℕ → Rendered String → Rendered Row
  with_detail e ts crashed = crashed
  with_detail e ts (shown detail) = shown (record {
    time = formats.time ts;
    color = event_color e.event;
    event = show_text e.event;
    detail = detail;
  })

  unfoldable pub row : RawEvent V → ℕ → Rendered Row
  row e ts = with_detail e ts (event_detail e)

  -- `events.map`: nothing is shown for a mark of the history's end.
  unfoldable pub rows : List (RawEvent V × ℕ) → Rendered (List Row)
  rows [] = shown []
  rows ((e, ts) ∷ events) =
      let rest = rows events in
      if is_text e.type "__history_end__" then rest else cons_row (row e ts) rest

-- The part below the badge.
pub data Feed : Type 0 where
  failure waiting : Feed
  listed : List Row → Feed

abbrev pub is_failed : ConnState → Bool
is_failed error = true
is_failed _ = false

abbrev pub is_live : ConnState → Bool
is_live live = true
is_live _ = false

abbrev pub is_empty {ℓ} : {A : Type ℓ} → List A → Bool
is_empty [] = true
is_empty (x ∷ xs) = false

abbrev pub list_feed : Rendered (List Row) → Rendered Feed
list_feed (shown rs) = shown (listed rs)
list_feed crashed = crashed

-- The page under its header.
unfoldable pub feed : {V : Type 0} → Formats V → Page (RawEvent V) → Rendered Feed
feed formats p =
    if is_failed p.conn
    then shown failure
    else if is_empty p.events && is_live p.conn
    then shown waiting
    else list_feed (rows formats p.events)
