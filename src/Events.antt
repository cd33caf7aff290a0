-- ===== src/Events.antt =====
-- portal/app/(admin)/events/page.tsx: the live feed of events. The page's variables are a record; the
-- ticket requests, sockets and timers whose callbacks are still to come are counted in it.
pub mod Invariant
pub mod Progress
pub mod Feed
pub mod View
use audio_server.Common.{
  Bool, List, [], false, if◌then◌else◌, not, suc, take, true, ℕ, ◌-◌, ◌<◌, ◌∷◌, ◌≡◌,
}

pub data ConnState : Type 0 where
  connecting live reconnecting error : ConnState

-- What a frame of the socket is parsed to: nothing, the mark of the history's end, or an event `R`.
pub data Frame (R : Type 0) : Type 0 where
  malformed history_end : Frame R
  event : R → Frame R

-- An event is kept with the time of its arrival.
pub record Page (R : Type 0) : Type 0 where
  pub events : List (R × ℕ)
  pub history_ended : Bool
  pub conn : ConnState
  pub cancelled : Bool
  pub fetching : ℕ
  pub sockets : ℕ
  pub timers : ℕ

-- What happens to a mounted page. A ticket fails by an exception or by a status that is not ok.
pub data Input (R : Type 0) : Type 0 where
  ticket_failed ticket_given socket_opened socket_errored socket_closed timer_fired : Input R
  framed : Frame R → (now : ℕ) → Input R
  unmounted : Input R

module _ {R : Type 0} where
  unfoldable pub connect : Page R → Page R
  connect p = record p { conn = connecting; history_ended = false; fetching = suc p.fetching }

  -- `[entry, ...prev].slice(0, 500)`
  unfoldable pub push : R × ℕ → List (R × ℕ) → List (R × ℕ)
  push entry prev = take 500 (entry ∷ prev)

  unfoldable pub on_frame : Frame R → ℕ → Page R → Page R
  on_frame malformed now p = p
  on_frame history_end now p = record p { history_ended = true }
  on_frame (event raw) now p = record p { events = push (raw, now) p.events }

  -- The state that is set when the ticket fails is set on an unmounted page too.
  unfoldable pub step : Input R → Page R → Page R
  step ticket_failed p = record p { conn = error; fetching = p.fetching - 1 }
  step ticket_given p =
      let p' = record p { fetching = p.fetching - 1 } in
      if p.cancelled then p' else record p' { sockets = suc p'.sockets }
  step socket_opened p = if not p.cancelled then record p { conn = live } else p
  step (framed f now) p = if p.cancelled then p else on_frame f now p
  step socket_errored p = if not p.cancelled then record p { conn = reconnecting } else p
  step socket_closed p =
      let p' = record p { sockets = p.sockets - 1 } in
      if p.cancelled then p' else record p' { conn = reconnecting; timers = suc p'.timers }
  step timer_fired p =
      let p' = record p { timers = p.timers - 1 } in if not p.cancelled then connect p' else p'
  -- the effect's cleanup; the socket that it closes is closed when its callback runs
  step unmounted p = record p { cancelled = true; timers = p.timers - 1 }

-- The page after its effect has run.
abbrev pub mounted : {R : Type 0} → Page R
mounted = connect (record {
  events = [];
  history_ended = false;
  conn = connecting;
  cancelled = false;
  fetching = 0;
  sockets = 0;
  timers = 0;
})

-- A callback runs only for a request, a socket or a timer that is there.
abbrev pub CanHappen : {R : Type 0} → Input R → Page R → Type 0
CanHappen ticket_failed p = 0 < p.fetching
CanHappen ticket_given p = 0 < p.fetching
CanHappen socket_opened p = 0 < p.sockets
CanHappen (framed f now) p = 0 < p.sockets
CanHappen socket_errored p = 0 < p.sockets
CanHappen socket_closed p = 0 < p.sockets
CanHappen timer_fired p = 0 < p.timers
CanHappen unmounted p = p.cancelled ≡ false

-- The pages that a history of inputs, the latest first, leads to.
pub data Reach {R : Type 0} : List (Input R) → Page R → Type 0 where
  start : Reach [] mounted
  next :
      {inputs : List (Input R)} {p : Page R}
      → Reach inputs p
      → (i : Input R) → CanHappen i p
      → Reach (i ∷ inputs) (step i p)
