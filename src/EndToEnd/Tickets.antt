-- ===== src/EndToEnd/Tickets.antt =====
-- From an admin's session to the socket of the feed of events: the ticket that the portal asks the
-- relay for, and the relay's check of it.
use mathlib.Core.Path.{subst}
use native.Mathlib.Decide.{dec_lt}
use audio_server.Common.{
  Bool, Option, String, [], ap, arith, eq_iff, if◌then◌else◌, not, refl, some, str_eq, sym,
  template, true, ℕ, ◌+◌, ◌<◌, ◌↔◌, ◌∙◌, ◌∷◌, ◌≡◌, ◌≢◌,
}
use audio_server.Http.{Env, FetchRequest, Fetched, Reply, replied, truthy}
use audio_server.Http.Cookies
use audio_server.Http.Cookies.{Jar}
use audio_server.Auth.{Jose, admin_cookie, secret, verify_admin_token}
use audio_server.Auth
use audio_server.Actions.{relay_url}
use audio_server.Proxy.{admin_authed, authed, has_prefix, next, proxy}
use audio_server.Proxy.Laws.{proxy-next_iff}
use audio_server.Relay.{bearer, header}
use audio_server.Relay.Ticket.{issued, ticket_given, ticket_request, ticket_route, ws_scheme}
use audio_server.Backend.{Answer, Claims, got}
use audio_server.Backend.Jwt.{accepted, admin_extractor}
use audio_server.Backend.Jwt.Agreement.{Agrees}
use audio_server.Backend.Jwt.Laws.{Issued, session_accepted}
use audio_server.Backend.Tokens.{is_there, issue, key_of, and_then, ticket, validate_ticket}
use audio_server.Backend.Handlers.{Node, issue_ticket, json, plain}
use audio_server.Backend.Handlers
use audio_server.Backend.AdminSession.{admin_ws_handler, refused, ticket_answer, upgraded}

not_empty : (s : String) → s ≢ "" → truthy (some s) ≡ some s
not_empty s given = ground (arith, eq_iff s "")

authed-some :
    (verify : String → Bool) (token : String)
    → authed verify (some token) ≡ true
    → (token ≢ "") × (verify token ≡ true)
authed-some verify token h = (λ e. ground (arith, eq_iff token ""), ground arith)

module _ (node : Node) where
  open node use {crates, redis, config}
  open redis use {Store, get_del, set_ex}

  -- A request at the time `now` to the address `base`; `id` is the identifier that is fresh then.
  unfoldable pub serve_ticket :
      (base : String) → ℕ → (id : String) → Store → FetchRequest (Unit {0}) → Reply String × Store
  serve_ticket base now id s req =
      if not (str_eq req.method "POST")
      then (plain 405, s)
      else if str_eq req.url (template (base ∷ "/api/admin/ticket" ∷ []))
      then issue_ticket node now (header "Authorization" req.headers) id s
      else (plain 404, s)

  -- What `fetch` of the portal gives while the relay can be reached.
  abbrev pub ticket_fetch : Env → ℕ → String → Store → FetchRequest (Unit {0}) → Fetched String
  ticket_fetch env now id s req = replied (serve_ticket (relay_url env) now id s req).0

  served :
      (env : Env) (now : ℕ) (id token : String) (s : Store) (c : Claims)
      → admin_extractor crates config now (some (bearer token)) ≡ accepted c
      → (set_ex now (key_of ticket id) "" 15 s).0 ≡ got tt
      → serve_ticket (relay_url env) now id s (ticket_request env token)
        ≡ (json id, (set_ex now (key_of ticket id) "" 15 s).1)
  unfolding serve_ticket header issue_ticket issue
  served env now id token s c allowed stored =
      let url = template (relay_url env ∷ "/api/admin/ticket" ∷ []) in
      let after = (set_ex now (key_of ticket id) "" 15 s).1 in
      rw ((eq_iff url url).1 refl, issue_ticket, allowed)
        (ap (λ a. (Handlers.ticket_answer node id a, after)) stored)

  -- What the relay makes of a ticket, by what Redis has for it.
  opened :
      (t : ℕ) (id : String) (s : Store) (v : Option String)
      → id ≢ ""
      → (get_del t (key_of ticket id) s).0 ≡ got v
      → (admin_ws_handler redis t (some id) s).0 ≡ ticket_answer (is_there redis v)
  unfolding admin_ws_handler validate_ticket
  opened t id s v given h =
      rw (not_empty id given, admin_ws_handler)
        (ap (λ (a : Answer (Option String)). ticket_answer (and_then a (is_there redis))) h)

  -- The store after a ticket was tried is the one after its GETDEL.
  tried :
      (t : ℕ) (id : String) (s : Store)
      → id ≢ ""
      → (admin_ws_handler redis t (some id) s).1 ≡ (get_del t (key_of ticket id) s).1
  unfolding admin_ws_handler validate_ticket
  tried t id s given = rw (not_empty id given, admin_ws_handler) refl

  in_time :
      (now : ℕ) (id : String) (s : Store) (t : ℕ) (v : Option String)
      → id ≢ ""
      → (set_ex now (key_of ticket id) "" 15 s).0 ≡ got tt
      → (get_del t (key_of ticket id) (set_ex now (key_of ticket id) "" 15 s).1).0 ≡ got v
      → ((admin_ws_handler redis t (some id) (set_ex now (key_of ticket id) "" 15 s).1).0
          ≡ upgraded)
        ↔ (t < now + 15)
  in_time now id s t v given stored reached =
      let key = key_of ticket id in
      let after = (set_ex now key "" 15 s).1 in
      let found = redis.get_del-live t key after v reached in
      let answer = opened t id after v given reached in
      elim (dec_lt t (now + 15)) [
        | yes early ↦
            let there = found ∙ redis.set_ex-live now key "" 15 s t stored early in
            (λ _. early, λ _. answer ∙ ap (λ o. ticket_answer (is_there redis o)) there)
        | no late ↦
            let gone = found ∙ redis.set_ex-over now key "" 15 s t stored (omega arith) in
            let closed = answer ∙ ap (λ o. ticket_answer (is_there redis o)) gone in
            (λ h. absurd (ground arith), λ early. absurd (late early))
      ]

  used :
      (t t' : ℕ) (id : String) (s : Store) (v v' : Option String)
      → id ≢ ""
      → (get_del t (key_of ticket id) s).0 ≡ got v
      → (get_del t' (key_of ticket id) (get_del t (key_of ticket id) s).1).0 ≡ got v'
      → (admin_ws_handler redis t' (some id) (get_del t (key_of ticket id) s).1).0
        ≡ refused (plain 401)
  used t t' id s v v' given reached again =
      let key = key_of ticket id in
      let after = (get_del t key s).1 in
      opened t' id after v' given again
      ∙ ap (λ o. ticket_answer (is_there redis o))
          (redis.get_del-live t' key after v' again ∙ redis.get_del-gone t key s v t' reached)

  module _ (env : Env) (jose : Jose) where
    shown_token :
        (now : ℕ) (jar : Jar) (token : String)
        → Cookies.value_of (Cookies.get admin_cookie jar) ≡ some token
        → proxy env jose now jar "/events" ≡ next
        → (token ≢ "") × (verify_admin_token env jose now token ≡ true)
    unfolding has_prefix admin_authed
    shown_token now jar token is_token shown =
        let opens = ((proxy-next_iff env jose now jar "/events").0 shown).admin_only refl in
        authed-some (verify_admin_token env jose now) token
          (ap (λ o. authed (verify_admin_token env jose now) o) (sym is_token) ∙ opens)

    -- An admin who sees the page of the feed gets its stream. If the proxy shows the page for a token
    -- that the relay or the portal has signed, then the portal gets a ticket for it from the relay; the
    -- relay opens a socket for the ticket exactly if it is used within 15 seconds, and no second one,
    -- as long as Redis can be reached.
    pub feed_opens :
        (jar : Jar) (now : ℕ) (id token : String) (s : Store)
        → Agrees jose crates
        → Auth.IsSound jose
        → config.jwt_secret ≡ secret env jose
        → id ≢ ""
        → Cookies.value_of (Cookies.get admin_cookie jar) ≡ some token
        → Issued crates config env jose token
        → proxy env jose now jar "/events" ≡ next
        → (set_ex now (key_of ticket id) "" 15 s).0 ≡ got tt
        → (t t' : ℕ) (v v' : Option String) (s' s'' : Store)
        → s' ≡ (serve_ticket (relay_url env) now id s (ticket_request env token)).1
        → s'' ≡ (admin_ws_handler redis t (some id) s').1
        → (get_del t (key_of ticket id) s').0 ≡ got v
        → (get_del t' (key_of ticket id) s'').0 ≡ got v'
        → (ticket_route env (ticket_fetch env now id s) jar ≡ (
          ticket_request env token ∷ [],
          issued id (template (ws_scheme (relay_url env) ∷ "/ws/admin" ∷ [])),
        ))
          × (((admin_ws_handler redis t (some id) s').0 ≡ upgraded) ↔ (t < now + 15))
          × ((admin_ws_handler redis t' (some id) s'').0 ≡ refused (plain 401))
    feed_opens jar now id token s agrees sound same given is_token known shown stored t t' v v' s'
          s'' is_s' is_s'' reached again =
        let key = key_of ticket id in
        let after = (set_ex now key "" 15 s).1 in
        let (filled, verifies) = shown_token now jar token is_token shown in
        let (c, allowed) =
          (session_accepted crates config env jose token now agrees sound same known).0 verifies in
        let answered = served env now id token s c allowed stored in
        let is_after : s' ≡ after = is_s' ∙ ap (λ (out : Reply String × Store). out.1) answered in
        let is_later : s'' ≡ (get_del t key after).1 =
          is_s''
          ∙ ap (λ x. (admin_ws_handler redis t (some id) x).1) is_after
          ∙ tried t id after given in
        let reached_so = subst (λ x. (get_del t key x).0 ≡ got v) is_after reached in
        (
          ticket_given env (ticket_fetch env now id s) jar token id (json id)
              (ap truthy is_token ∙ not_empty token filled)
              (ap (λ (out : Reply String × Store). replied out.0) answered) refl refl,
          subst (λ x. ((admin_ws_handler redis t (some id) x).0 ≡ upgraded) ↔ (t < now + 15))
              (sym is_after) (in_time now id s t v given stored reached_so),
          subst (λ x. (admin_ws_handler redis t' (some id) x).0 ≡ refused (plain 401))
              (sym is_later)
              (used t t' id after v v' given reached_so
                (subst (λ x. (get_del t' key x).0 ≡ got v') is_later again)),
        )
