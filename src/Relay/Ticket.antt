-- ===== src/Relay/Ticket.antt =====
-- portal/app/api/admin-ticket/route.ts: a ticket for the stream of events.
use Prim.Native.String
use text.Mathlib.TextPositions.{slice-append_right, starts_with-append, len-append}
use text.Mathlib.TextLemmas.{append_assoc}
use audio_server.Common.{
  List, Option-cases, String, [], ap, arith, if◌then◌else◌, inl, inr, none, not, some, starts_with,
  true, template, ℕ, ◌∙◌, ◌∷◌, ◌≡◌,
}
use audio_server.Http.{Env, FetchRequest, Fetched, Reply, is_ok, rejected, replied, truthy}
use audio_server.Http.Cookies
use audio_server.Http.Cookies.{Jar, get, value_of}
use audio_server.Auth.{admin_cookie}
use audio_server.Actions.{relay_url}
use audio_server.Relay.{bearer}

pub data TicketAnswer : Type 0 where
  ticket_error : (error : String) → (status : ℕ) → TicketAnswer
  issued : (ticket : String) → (ws_url : String) → TicketAnswer
  ticket_crashed : TicketAnswer

abbrev pub ticket_request : Env → String → FetchRequest (Unit {0})
ticket_request env token = record {
  url = template (relay_url env ∷ "/api/admin/ticket" ∷ []);
  method = "POST";
  headers = ("Authorization", bearer token) ∷ [];
  body = none;
}

-- `RELAY.replace(/^http/, 'ws')`
unfoldable pub ws_scheme : String → String
ws_scheme url =
    if starts_with url "http" then String.◌++◌ "ws" (String.slice url 4 (String.len url)) else url

-- The body that is read is the field `ticket`.
ticket_reply : Env → Fetched String → TicketAnswer
ticket_reply env rejected = ticket_error "Relay unreachable" 502
ticket_reply env (replied res) =
    if not (is_ok res) then ticket_error "Ticket issuance failed" res.status else elim res.body [
      | none ↦ ticket_crashed
      | some ticket ↦ issued ticket (template (ws_scheme (relay_url env) ∷ "/ws/admin" ∷ []))
    ]

unfoldable pub ticket_route :
    Env
    → (FetchRequest (Unit {0}) → Fetched String)
    → Jar
    → List (FetchRequest (Unit {0})) × TicketAnswer
unfolding ticket_reply
ticket_route env fetch jar = elim (truthy (Cookies.value_of (Cookies.get admin_cookie jar))) [
  | none ↦ ([], ticket_error "Not authenticated" 401)
  | some token ↦
      (ticket_request env token ∷ [], ticket_reply env (fetch (ticket_request env token)))
]

ticket_reply-issued :
    (env : Env) (r : Fetched String) {ticket ws_url : String}
    → ticket_reply env r ≡ issued ticket ws_url
    → ws_url ≡ template (ws_scheme (relay_url env) ∷ "/ws/admin" ∷ [])
unfolding ticket_reply
ticket_reply-issued env rejected h = cc
ticket_reply-issued env (replied res) h = ground arith

pub ws_scheme-http : (rest : String) → ws_scheme (String.◌++◌ "http" rest) ≡ String.◌++◌ "ws" rest
unfolding ws_scheme
ws_scheme-http rest =
    rw (starts_with-append "http" rest)
      (rw (len-append "http" rest) (ap (λ r. String.◌++◌ "ws" r) (slice-append_right "http" rest)))

module _ (env : Env) (fetch : FetchRequest (Unit {0}) → Fetched String) (jar : Jar) where
  ticket_answer :
      (token : String)
      → truthy (Cookies.value_of (Cookies.get admin_cookie jar)) ≡ some token
      → {answer : TicketAnswer} → (ticket_route env fetch jar).1 ≡ answer
      → ticket_reply env (fetch (ticket_request env token)) ≡ answer
  unfolding ticket_route
  ticket_answer token e h = ground arith

  no_ticket :
      truthy (Cookies.value_of (Cookies.get admin_cookie jar)) ≡ none
      → (ticket_route env fetch jar).1 ≡ ticket_error "Not authenticated" 401
  unfolding ticket_route
  no_ticket e = ground arith

  -- A ticket is issued only to an admin's session, with one request to the relay that carries the
  -- session's token; for a relay at an address that begins by http, its web socket is at the same
  -- address with ws in the place of http, so wss for https.
  ticket_issued :
      (rest ticket ws_url : String)
      → relay_url env ≡ String.◌++◌ "http" rest
      → (ticket_route env fetch jar).1 ≡ issued ticket ws_url
      → (token : String) × (truthy (Cookies.value_of (Cookies.get admin_cookie jar)) ≡ some token)
        × ((ticket_route env fetch jar).0 ≡ ticket_request env token ∷ [])
        × (ws_url ≡ template ("ws" ∷ rest ∷ "/ws/admin" ∷ []))
  unfolding ticket_route
  ticket_issued rest ticket ws_url at h =
      elim (Option-cases (truthy (Cookies.value_of (Cookies.get admin_cookie jar)))) [
        | inl e ↦ cc (no_ticket e)
        | inr (token, e) ↦ (
          token,
          e,
          rw (e, ticket_route),
          ticket_reply-issued env (fetch (ticket_request env token)) (ticket_answer token e h)
              ∙ ap (λ base. template (base ∷ "/ws/admin" ∷ []))
                  (ap ws_scheme at ∙ ws_scheme-http rest)
              ∙ append_assoc "ws" rest "/ws/admin",
        )
      ]

  pub ticket_given :
      (token ticket : String) (res : Reply String)
      → truthy (Cookies.value_of (Cookies.get admin_cookie jar)) ≡ some token
      → fetch (ticket_request env token) ≡ replied res
      → is_ok res ≡ true
      → res.body ≡ some ticket
      → ticket_route env fetch jar ≡ (
        ticket_request env token ∷ [],
        issued ticket (template (ws_scheme (relay_url env) ∷ "/ws/admin" ∷ [])),
      )
  unfolding ticket_route ticket_reply
  ticket_given token ticket res e answered ok read = ground arith
