-- ===== src/EndToEnd/Feed.antt =====
-- From the game to the feed of events: what the plugins publish and record, what the relay sends on
-- each connection, what the portal's page shows.
pub mod Shown
pub mod Once
use audio_server.Common.{
  Bool, List, Option, String, [], ap, arith, false, length, length-append, map, none, refl, reverse,
  some, suc, sym, take, true, zero, ℕ, ◌+◌, ◌++◌, ◌∙◌, ◌∷◌, ◌≡◌, ◌≤◌,
}
use audio_server.Events.{
  Frame, Input, Page, Reach, event, framed, history_end, malformed, socket_closed, socket_errored,
  socket_opened, ticket_failed, ticket_given, timer_fired, unmounted,
}
use audio_server.Events.Feed.{events-received, is_mounted, received}
use audio_server.Backend.{got}
use audio_server.Backend.AdminSession.{
  AdminFrame, Command, admin_loop, admin_ws_session, pong, close_frame, published, recent, sent,
  text,
}
use audio_server.Backend.AdminSession

-- A connection of the page: the commands of the plugins until the relay reads the history, until it
-- subscribes, and until the connection ends.
pub record Connection (P : Type 0) : Type 0 where
  pub before : List (Command P)
  pub between : List (Command P)
  pub after : List (Command P)

module _ {P R : Type 0} (parse : P → Frame R) where
  -- The frames as the page reads them, put before those of earlier connections, the latest first.
  unfoldable pub backwards : List (AdminFrame P) → List (Frame R) → List (Frame R)
  backwards [] earlier = earlier
  backwards (text payload ∷ frames) earlier = backwards frames (parse payload ∷ earlier)
  backwards (AdminSession.history_end ∷ frames) earlier = backwards frames (history_end ∷ earlier)
  backwards (pong ∷ frames) earlier = backwards frames earlier
  backwards (close_frame ∷ frames) earlier = backwards frames earlier

  -- What the relay sends on a connection on which nothing is lost.
  abbrev pub session_of : Connection P → List (AdminFrame P)
  session_of c =
      let history = recent c.before [] in
      let live = sent c.after in
      admin_ws_session (suc (length history + length live)) (got history) true
        (map (λ (payload : P). published payload) live)

  -- The frames of connections, the latest first.
  abbrev pub all_frames : List (Connection P) → List (Frame R)
  all_frames [] = []
  all_frames (c ∷ connections) = backwards (session_of c) (all_frames connections)

-- What connections tell the page, the latest first: on each one the history when it began, and what
-- has been published since it subscribed.
unfoldable pub told : {P : Type 0} → List (Connection P) → List P
told [] = []
told (c ∷ connections) = reverse (sent c.after) ++ (recent c.before [] ++ told connections)

module _ {R : Type 0} where
  unfoldable pub events_of : List (Frame R) → List R
  events_of [] = []
  events_of (event raw ∷ frames) = raw ∷ events_of frames
  events_of (history_end ∷ frames) = events_of frames
  events_of (malformed ∷ frames) = events_of frames

  -- The frames that a page has received, the latest first.
  unfoldable pub framed_part : List (Input R) → List (Frame R)
  framed_part [] = []
  framed_part (framed f now ∷ inputs) = f ∷ framed_part inputs
  framed_part (_ ∷ inputs) = framed_part inputs
