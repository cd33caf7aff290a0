-- ===== src/Backend/Handlers.antt =====
-- The handlers of the relay that open sessions: backend/src/api/auth.rs, `player_callback` of
-- backend/src/api/player.rs and backend/src/api/admin_ticket.rs, at the paths of
-- backend/src/router.rs. The body of a response is the field `jwt` or `ticket` that it has.
use audio_server.Common.{Bool, Option, String, if◌then◌else◌, none, some, ℕ}
use audio_server.Http.{Reply}
use audio_server.Backend.{AdminUser, Answer, Config, Crates, Database, Redis, failed, got}
use audio_server.Backend.Jwt.{accepted, admin_extractor, refused, sign, sign_admin}
use audio_server.Backend.Tokens.{PlayerOtt, issue, validate_admin, validate_player}

abbrev pub plain : ℕ → Reply String
plain status = record {
  status = status;
  content_type = some "text/plain; charset=utf-8";
  body = none;
}

abbrev pub json : String → Reply String
json field = record { status = 200; content_type = some "application/json"; body = some field }

-- The end of the handlers that sign a token.
abbrev pub jwt_response : Option String → Reply String
jwt_response none = plain 500
jwt_response (some token) = json token

-- The relay: its crates, its stores and its configuration. `verify_password` is Argon2id of the
-- crate argon2: `failed` where its thread panics.
pub record Node : Type 1 where
  pub crates : Crates
  pub redis : Redis
  pub db : Option Database
  pub config : Config
  pub verify_password : (password hash : String) → Answer Bool

module _ (node : Node) where
  open node use {crates, redis, db, config, verify_password}
  open crates use {uuid_text}
  open redis use {Store}

  abbrev pub upserted : ℕ → PlayerOtt crates.Uuid → Answer (Unit {0}) → Reply String
  upserted now ott failed = plain 500
  upserted now ott (got done) = jwt_response (sign crates config now (uuid_text ott.player_uuid))

  abbrev pub player_answer : ℕ → Database → Answer (Option (PlayerOtt crates.Uuid)) → Reply String
  player_answer now d failed = plain 500
  player_answer now d (got none) = plain 401
  player_answer now d (got (some ott)) =
      upserted now ott (d.upsert_player (uuid_text ott.player_uuid) ott.username)

  -- `POST /api/auth/player-callback`
  unfoldable pub player_callback : ℕ → String → Store → Reply String × Store
  player_callback now token s = elim db [
    | none ↦ (plain 503, s)
    | some d ↦
        let (ott, s') = validate_player crates redis now token s in (player_answer now d ott, s')
  ]

  abbrev pub admin_answer : ℕ → Answer (Option crates.Uuid) → Reply String
  admin_answer now failed = plain 500
  admin_answer now (got none) = plain 401
  admin_answer now (got (some uuid)) = jwt_response (sign_admin crates config now (uuid_text uuid))

  -- `POST /api/auth/admin-ott`
  unfoldable pub admin_ott_login : ℕ → String → Store → Reply String × Store
  admin_ott_login now token s =
      let (uuid, s') = validate_admin crates redis now token s in (admin_answer now uuid, s')

  abbrev pub verified : ℕ → String → Answer Bool → Reply String
  verified now id failed = plain 500
  verified now id (got ok) =
      if ok then jwt_response (sign_admin crates config now id) else plain 401

  abbrev pub login_answer : ℕ → String → Answer (Option AdminUser) → Reply String
  login_answer now password failed = plain 500
  login_answer now password (got none) = plain 401
  login_answer now password (got (some user)) =
      verified now user.id (verify_password password user.password_hash)

  -- `POST /api/auth/login`
  unfoldable pub login : ℕ → (username password : String) → Reply String
  login now username password = elim db [
    | none ↦ plain 503
    | some d ↦ login_answer now password (d.find_admin username)
  ]

  abbrev pub ticket_answer : String → Answer (Unit {0}) → Reply String
  ticket_answer id failed = plain 500
  ticket_answer id (got done) = json id

  -- `POST /api/admin/ticket`, for the fresh identifier `id`
  unfoldable pub issue_ticket : ℕ → Option String → String → Store → Reply String × Store
  issue_ticket now header id s = elim (admin_extractor crates config now header) [
    | refused status message ↦ (plain status, s)
    | accepted claims ↦ let (done, s') = issue redis now id s in (ticket_answer id done, s')
  ]
