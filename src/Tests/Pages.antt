-- ===== src/Tests/Pages.antt =====
-- The pages of the portal at inputs.
use audio_server.Common.{
  List, [], arith, length, none, refl, some, take, true, ℕ, ◌∷◌, ◌≡◌, ◌≢◌, ◌≤◌,
}
use audio_server.Events.{
  CanHappen, Input, Page, Reach, connect, error, event, framed, live, mounted, next, on_frame,
  socket_opened, start, step, ticket_given, unmounted,
}
use audio_server.Events.View.{
  Formats, RawEvent, crashed, detail_text, event_color, feed, listed, parse_frame, row, rows, shown,
}
use audio_server.Events.View.Rows.{Shows, received-Shows}
use audio_server.Events.Invariant.{one_connection, outstanding}
use audio_server.Events.Feed.{events-received, received}

-- A page that has a socket and has received an event.
abbrev heard_one : List (Input ℕ)
heard_one = framed (event 7) 3 ∷ socket_opened ∷ ticket_given ∷ []

abbrev after_one : Page ℕ
after_one = step (framed (event 7) 3) (step socket_opened (step ticket_given mounted))

Reach-one : Reach heard_one after_one
unfolding step connect
Reach-one =
    next (next (next start ticket_given (omega arith)) socket_opened (omega arith))
      (framed (event 7) 3) (omega arith)

one_connection_example :
    (after_one.conn ≢ error → outstanding after_one ≡ 1)
    × (after_one.conn ≡ error
        → (outstanding after_one ≡ 0) × ((i : Input ℕ) → CanHappen i after_one → i ≡ unmounted))
unfolding step connect on_frame
one_connection_example = one_connection Reach-one refl

events-received_example :
    (after_one.events ≡ take 500 (received heard_one)) × (length after_one.events ≤ 500)
events-received_example = events-received Reach-one

abbrev closed_page : Page ℕ
closed_page = step unmounted after_one

Reach-closed : Reach (unmounted ∷ heard_one) closed_page
unfolding step connect on_frame
Reach-closed = next Reach-one unmounted refl

abbrev formats : Formats ℕ
formats = record { percent = λ v. "50"; time = λ t. "12:00" }

abbrev play : RawEvent ℕ
play = record {
  type = none;
  event = some "audio_play";
  player_id = some "123456789";
  src = some "a.ogg";
  volume = some 1;
  loop = some true;
  region_id = none;
  action = none;
  username = none;
  server = none;
}

-- An object without the id of a player.
abbrev stray : RawEvent ℕ
stray = record play { player_id = none }

view_tests :
    (feed formats (record (mounted {R = RawEvent ℕ}) { conn = live; events = (play, 3) ∷ [] })
      ≡ shown (
          listed (
            record {
              time = "12:00";
              color = "bg-emerald-900/60 text-emerald-400";
              event = "audio_play";
              detail = "12345678… · a.ogg · 50% · loop";
            }
            ∷ [])))
    × (feed formats (record (mounted {R = RawEvent ℕ}) { conn = live; events = (stray, 3) ∷ [] })
        ≡ crashed)
unfolding feed rows row detail_text event_color
view_tests = (refl, refl)

abbrev heard_stray : List (Input (RawEvent ℕ))
heard_stray = framed (parse_frame (some stray)) 3 ∷ socket_opened ∷ ticket_given ∷ []

abbrev after_stray : Page (RawEvent ℕ)
after_stray =
    step (framed (parse_frame (some stray)) 3) (step socket_opened (step ticket_given mounted))

Reach-stray : Reach heard_stray after_stray
unfolding step connect
Reach-stray =
    next (next (next start ticket_given (omega arith)) socket_opened (omega arith))
      (framed (parse_frame (some stray)) 3) (omega arith)

received-Shows_example : Shows formats (take 500 (received heard_stray)) after_stray
received-Shows_example = received-Shows formats Reach-stray ((some stray, refl), (tt, (tt, tt)))
