-- ===== src/Backend/Jwt.antt =====
-- backend/src/auth/jwt.rs and backend/src/auth/extractor.rs: the tokens that the relay signs, and the
-- checks of a request for an admin or for a player.
pub mod Agreement
pub mod Laws
use Prim.Native.String
use audio_server.Common.{
  Bool, Option, String, if◌then◌else◌, is_some, is_text, none, not, some, starts_with, str_eq, ℕ,
  ◌+◌, ◌≡◌, ◌≢◌, ◌<◌, ◌≤◌,
}
use audio_server.Backend.{Claims, Config, Crates}

-- A response that refuses a request, or the claims that a handler gets.
pub data Checked : Type 0 where
  refused : (status : ℕ) → (message : String) → Checked
  accepted : Claims → Checked

abbrev pub player_claims : Config → (now : ℕ) → (uuid : String) → Claims
player_claims config now uuid = record {
  sub = uuid;
  exp = now + config.jwt_expiry_seconds;
  iat = now;
  role = none;
}

abbrev pub admin_claims : Config → (now : ℕ) → (id : String) → Claims
admin_claims config now id = record {
  sub = id;
  exp = now + config.jwt_expiry_seconds;
  iat = now;
  role = some "admin";
}

-- `strip_prefix("Bearer ")`
abbrev pub strip_bearer : String → Option String
strip_bearer s = if starts_with s "Bearer " then some (String.slice s 7 (String.len s)) else none

-- The text after `Bearer ` of the header `Authorization`, unless it is empty.
unfoldable pub bearer_token : Option String → Option String
bearer_token none = none
bearer_token (some header) = elim (strip_bearer header) [
  | none ↦ none
  | some token ↦ if str_eq token "" then none else some token
]

module _ (crates : Crates) (config : Config) where
  open crates use {encode, decode, parse_str}

  abbrev pub sign : ℕ → String → Option String
  sign now uuid = encode (player_claims config now uuid) config.jwt_secret

  abbrev pub sign_admin : ℕ → String → Option String
  sign_admin now id = encode (admin_claims config now id) config.jwt_secret

  -- What both extractors begin with.
  abbrev pub with_claims : ℕ → Option String → (Claims → Checked) → Checked
  with_claims now none check = refused 401 "missing or malformed Authorization header"
  with_claims now (some token) check = elim (decode now token config.jwt_secret) [
    | none ↦ refused 401 "invalid or expired token"
    | some claims ↦ check claims
  ]

  abbrev pub check_admin : Claims → Checked
  check_admin claims =
      if not (is_text claims.role "admin")
      then refused 403 "admin role required"
      else accepted claims

  abbrev pub check_player : Claims → Checked
  check_player claims =
      if is_some claims.role
      then refused 403 "player token required"
      else if not (is_some (parse_str claims.sub))
      then refused 401 "invalid player token"
      else accepted claims

  -- `AdminClaims` and `PlayerClaims`, for the header `Authorization` of a request
  unfoldable pub admin_extractor : ℕ → Option String → Checked
  admin_extractor now header = with_claims now (bearer_token header) check_admin

  unfoldable pub player_extractor : ℕ → Option String → Checked
  player_extractor now header = with_claims now (bearer_token header) check_player
