-- ===== src/Backend/AdminSession.antt =====
-- backend/src/ws/admin.rs: the socket of the feed of events, for tickets of auth/admin_ticket.rs, and
-- `publishAndRecord` of plugin/common/src/main/java/dev/audioserver/redis/RedisManager.java, which
-- feeds it. `P` are the payloads.
use audio_server.Common.{
  Bool, List, Option, String, [], if◌then◌else◌, map, none, reverse, some, take, ℕ, ◌++◌, ◌∷◌,
}
use audio_server.Http.{Reply, truthy}
use audio_server.Backend.{Answer, Redis, failed, got}
use audio_server.Backend.Handlers.{plain}
use audio_server.Backend.Tokens.{validate_ticket}

-- A plain response, or a socket.
pub data AdminUpgrade : Type 0 where
  refused : Reply String → AdminUpgrade
  upgraded : AdminUpgrade

abbrev pub ticket_answer : Answer Bool → AdminUpgrade
ticket_answer failed = refused (plain 500)
ticket_answer (got valid) = if valid then upgraded else refused (plain 401)

-- `GET /ws/admin?ticket=…`
unfoldable pub admin_ws_handler :
    (redis : Redis) → ℕ → Option String → redis.Store → AdminUpgrade × redis.Store
admin_ws_handler redis now ticket s = elim (truthy ticket) [
  | none ↦ (refused (plain 400), s)
  | some t ↦ let (valid, s') = validate_ticket redis now t s in (ticket_answer valid, s')
]

-- What the loop waits for, once it has subscribed; `undecoded` is a payload that is no text.
pub data AdminInput (P : Type 0) : Type 0 where
  browser_closed receive_error redis_ended other_frame undecoded ping : AdminInput P
  published : P → AdminInput P

pub data AdminFrame (P : Type 0) : Type 0 where
  text : P → AdminFrame P
  history_end pong close_frame : AdminFrame P

module _ {P : Type 0} where
  unfoldable pub admin_loop : List (AdminInput P) → List (AdminFrame P)
  admin_loop [] = []
  admin_loop (browser_closed ∷ inputs) = []
  admin_loop (receive_error ∷ inputs) = []
  admin_loop (redis_ended ∷ inputs) = []
  admin_loop (other_frame ∷ inputs) = admin_loop inputs
  admin_loop (undecoded ∷ inputs) = admin_loop inputs
  admin_loop (ping ∷ inputs) = pong ∷ admin_loop inputs
  admin_loop (published payload ∷ inputs) = text payload ∷ admin_loop inputs

  -- The history that LRANGE gives, the oldest first; one that cannot be read is left out.
  abbrev pub replayed : Answer (List P) → List (AdminFrame P)
  replayed failed = []
  replayed (got history) = map (λ (payload : P). text payload) (reverse history)

  -- The frames that are sent if all of them can be; the first that cannot be sent ends the session, so
  -- `sends` of them are.
  unfoldable pub admin_ws_session :
      (sends : ℕ)
      → (history : Answer (List P)) → (subscribed : Bool) → List (AdminInput P)
      → List (AdminFrame P)
  admin_ws_session sends history subscribed inputs = take sends (
      replayed history
      ++ (history_end ∷ (if subscribed then admin_loop inputs else close_frame ∷ [])))

-- The commands for one event, one after the other.
pub data Command (P : Type 0) : Type 0 where
  publish lpush : P → Command P
  ltrim : Command P

abbrev pub publish_and_record : {P : Type 0} → P → List (Command P)
publish_and_record json = publish json ∷ lpush json ∷ ltrim ∷ []

module _ {P : Type 0} where
  -- The list of recent events after commands, the latest first.
  unfoldable pub recent : List (Command P) → List P → List P
  recent [] l = l
  recent (publish json ∷ commands) l = recent commands l
  recent (lpush json ∷ commands) l = recent commands (json ∷ l)
  recent (ltrim ∷ commands) l = recent commands (take 200 l)

  -- What commands send to a subscriber.
  unfoldable pub sent : List (Command P) → List P
  sent [] = []
  sent (publish json ∷ commands) = json ∷ sent commands
  sent (lpush json ∷ commands) = sent commands
  sent (ltrim ∷ commands) = sent commands
