-- ===== src/Tests/Feeds.antt =====
-- The feed of events, from the plugins to the portal's page, at inputs.
use audio_server.Common.{
  List, String, [], arith, eq_iff, map, refl, some, take, true, ℕ, ◌+◌, ◌++◌, ◌<◌, ◌↔◌, ◌∙◌, ◌∷◌,
  ◌≡◌, ◌≢◌, ◌≤◌,
}
use audio_server.Http.Cookies
use audio_server.Http.Cookies.{Jar}
use audio_server.Auth.{admin_cookie, sign_admin_token, verify_admin_token}
use audio_server.Auth.Laws.{sign-ne-empty, verify-sign_admin_token}
use audio_server.Actions.{relay_url, session}
use audio_server.Proxy.{has_prefix, next, proxy, route}
use audio_server.Proxy.Sessions.{admin_authed-set, authed_iff}
use audio_server.Relay.Ticket.{issued, ticket_request, ticket_route, ws_scheme}
use audio_server.Backend.Jwt.Laws.{by_portal}
use audio_server.Backend.Handlers.{plain}
use audio_server.Backend.Tokens.{key_of, ticket}
use audio_server.Backend.AdminSession.{admin_ws_handler, refused, upgraded}
use audio_server.EndToEnd.Tickets.{feed_opens, serve_ticket, ticket_fetch}
use audio_server.Tests.Sample.{env}
use audio_server.Tests.World.{Entry, find, jose, jose-Agrees, jose-IsSound, node, table}
use audio_server.Events.{
  Frame, Input, Page, Reach, connect, error, event, framed, history_end, mounted, on_frame, push,
  socket_closed, socket_opened, start, step, ticket_given, timer_fired,
}
use audio_server.Events
use audio_server.Events.Progress.{ComesLive, comes_live}
use audio_server.Backend.AdminSession.{
  admin_loop, admin_ws_session, publish_and_record, recent, sent,
}
use audio_server.EndToEnd.Feed.{Connection, backwards, events_of, framed_part, told}
use audio_server.EndToEnd.Feed.Shown.{feed_end_to_end}
use audio_server.EndToEnd.Feed.Once.{Calls, call, count, left, neither, no_calls, right, told_once}

-- The event 7 before the page connects, and 8 afterwards.
abbrev connection : Connection ℕ
connection = record { before = publish_and_record 7; between = []; after = publish_and_record 8 }

abbrev steps : List (Input ℕ)
steps =
    framed (event 8) 5
    ∷ framed history_end 4
    ∷ framed (event 7) 3
    ∷ socket_opened
    ∷ ticket_given
    ∷ []

abbrev page_after : Page ℕ
page_after = step (framed (event 8) 5) (
    step (framed history_end 4)
      (step (framed (event 7) 3) (step socket_opened (step ticket_given mounted))))

Reach-page_after : Reach steps page_after
unfolding step connect on_frame
Reach-page_after =
    Events.next
      (Events.next
        (Events.next
          (Events.next (Events.next start ticket_given (omega arith)) socket_opened (omega arith))
          (framed (event 7) 3) (omega arith))
        (framed history_end 4) (omega arith))
      (framed (event 8) 5) (omega arith)

abbrev parse : ℕ → Frame ℕ
parse raw = event raw

feed_end_to_end_example :
    map (λ (e : ℕ × ℕ). e.0) page_after.events
    ≡ take 500 (events_of (map parse (told (connection ∷ []))))
unfolding framed_part backwards recent sent admin_ws_session admin_loop
feed_end_to_end_example = feed_end_to_end parse (connection ∷ []) Reach-page_after refl refl

both-Calls : Calls {P = ℕ} (8 ∷ 7 ∷ []) (publish_and_record 7 ++ publish_and_record 8)
both-Calls =
    call (call no_calls 7 (left _ (left _ (left _ neither)))) 8
      (right _ (right _ (right _ (left _ (left _ (left _ neither))))))

told_once_example :
    count (λ (x : ℕ). true) (told (connection ∷ []))
      + count (λ (x : ℕ). true) (sent connection.between)
    ≤ 2
told_once_example = told_once (λ (x : ℕ). true) connection (8 ∷ 7 ∷ []) both-Calls

comes_live_example :
    (page_after.conn ≢ error → ComesLive 3 page_after)
    × ((n : ℕ) → ComesLive n page_after → page_after.conn ≢ error)
unfolding step connect on_frame
comes_live_example = comes_live Reach-page_after refl

abbrev token : String
token = sign_admin_token env jose 0

abbrev jar : Jar
jar = Cookies.set admin_cookie (session env token) []

shown : proxy env jose 0 jar "/events" ≡ next
unfolding proxy route has_prefix
shown =
    let opens =
      admin_authed-set env jose 0 (session env token) []
      ∙ authed_iff (verify_admin_token env jose 0) token (sign-ne-empty env jose jose-IsSound 0)
      ∙ (verify-sign_admin_token env jose jose-IsSound 0 0).0.1 (omega arith) in
    ground arith

store : List Entry
store = (serve_ticket node (relay_url env) 0 "t-1" [] (ticket_request env token)).1

later_store : List Entry
later_store = (admin_ws_handler table 10 (some "t-1") store).1

feed_opens_example :
    (ticket_route env (ticket_fetch node env 0 "t-1" []) jar
      ≡ (ticket_request env token ∷ [], issued "t-1" "wss://relay.example/ws/admin"))
    × (((admin_ws_handler table 10 (some "t-1") store).0 ≡ upgraded) ↔ (10 < 15))
    × ((admin_ws_handler table 11 (some "t-1") later_store).0 ≡ refused (plain 401))
unfolding ws_scheme Cookies.get Cookies.set store later_store
feed_opens_example =
    feed_opens node env jose jar 0 "t-1" token [] jose-Agrees jose-IsSound refl
      (ground (arith, eq_iff "t-1" "")) refl (by_portal 0) shown refl 10 11
      (find 10 (key_of ticket "t-1") store) (find 11 (key_of ticket "t-1") later_store) store
      later_store refl refl refl refl
