-- ===== src/Tests/Relays.antt =====
-- The ways to the relay at inputs. Bodies of bytes are texts here.
use audio_server.Common.{List, String, [], none, refl, some, ℕ, ◌∷◌, ◌≡◌}
use audio_server.Http.{FetchRequest, Fetched, Reply, replied, truthy}
use audio_server.Http.Cookies
use audio_server.Http.Cookies.{Jar, get, set, value_of}
use audio_server.Auth.{admin_cookie, player_cookie}
use audio_server.Actions.{session}
use audio_server.Relay
use audio_server.Relay.{Incoming, admin_relay, forwarded, player_relay, server_error}
use audio_server.Relay.Laws.{Relays, relay-Relays}
use audio_server.Relay.Ticket.{issued, ticket_route, ws_scheme}
use audio_server.Api.{Fetch, delete_media, rejects, status_error}
use audio_server.Api.Laws.{delete_media_reports_failure, seen}
use audio_server.Tests.Sample.{env}

abbrev admin : Jar
admin = (admin_cookie, session env "t") ∷ []

abbrev deletion : Incoming String
deletion = record { method = "DELETE"; content_type = none; body = "" }

abbrev no_content : Reply String
no_content = record { status = 204; content_type = none; body = some "" }

abbrev deleting : FetchRequest String → Fetched String
deleting req = replied no_content

abbrev media_path : List String
media_path = "admin" ∷ "media" ∷ "7" ∷ []

forwarded_delete : admin_relay env deleting admin media_path deletion ≡ (
  record {
    url = "https://relay.example/api/admin/media/7";
    method = "DELETE";
    headers = ("Authorization", "Bearer t") ∷ [];
    body = some "";
  }
      ∷ [],
  server_error,
)
unfolding admin_relay Cookies.get
forwarded_delete = refl

-- Someone with both sessions saves, and the relay answers with bytes.
abbrev both : Jar
both = (admin_cookie, session env "t") ∷ (player_cookie, session env "t") ∷ []

abbrev saving : Incoming String
saving = record { method = "PUT"; content_type = some "application/json"; body = "{}" }

abbrev saved_reply : Reply String
saved_reply = record { status = 200; content_type = none; body = some "saved" }

abbrev answering : FetchRequest String → Fetched String
answering req = replied saved_reply

abbrev save_path : List String
save_path = "player" ∷ "settings" ∷ []

relay-Relays_example :
    (truthy (Cookies.value_of (Cookies.get admin_cookie both)) ≡ some "t"
      → Relays env answering "t" save_path saving (admin_relay env answering both save_path saving))
    × (truthy (Cookies.value_of (Cookies.get player_cookie both)) ≡ some "t"
        → Relays env answering "t" save_path saving
            (player_relay env answering both save_path saving))
relay-Relays_example = relay-Relays env answering save_path saving both "t"

saving_test :
    (player_relay env answering both save_path saving).1
    ≡ Relay.answered 200 "application/json" "saved"
unfolding player_relay Cookies.get
saving_test = refl

abbrev browser : Fetch ℕ (Unit {0})
browser req = seen (admin_relay env deleting admin media_path deletion).1

delete_media_reports_failure_example :
    ((admin_relay env deleting admin media_path deletion).0
      ≡ forwarded env "t" media_path deletion ∷ [])
    × (delete_media ℕ (λ s. s) browser "7" ≡ rejects (status_error "media delete" 500))
unfolding Cookies.get
delete_media_reports_failure_example =
    delete_media_reports_failure ℕ env deleting admin (λ s. s) browser "7" "t" media_path deletion
      refl refl no_content refl refl

abbrev issuing : FetchRequest (Unit {0}) → Fetched String
issuing req = replied (record { status = 200; content_type = none; body = some "ticket-1" })

ticket_test : (ticket_route env issuing admin).1 ≡ issued "ticket-1" "wss://relay.example/ws/admin"
unfolding ticket_route ws_scheme Cookies.get
ticket_test = refl
