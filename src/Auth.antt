-- ===== src/Auth.antt =====
-- portal/lib/auth.ts and portal/lib/player-auth.ts: the admin and the player token. `SignJWT` and
-- `jwtVerify` of the package jose are parameters.
pub mod Laws
use audio_server.Common.{
  Bool, Option, String, false, none, not, some, str_eq, true, zero, ℕ, ◌&&◌, ◌*◌, ◌+◌, ◌<◌, ◌≡◌,
  ◌≢◌, ◌≤◌,
}
use audio_server.Http.{Env, or_else}

-- A claim of a payload is any JSON value, or absent. Of a number only its being zero matters here.
pub data Value : Type 0 where
  undefined null object : Value
  bool : Bool → Value
  number : (zero : Bool) → Value
  str : String → Value

-- `Boolean(value)`
abbrev pub is_truthy : Value → Bool
is_truthy undefined = false
is_truthy null = false
is_truthy object = true
is_truthy (bool b) = b
is_truthy (number z) = not z
is_truthy (str s) = not (str_eq s "")

abbrev pub is_str : Value → String → Bool
is_str (str s) t = str_eq s t
is_str _ t = false

abbrev pub is_string : Value → Bool
is_string (str s) = true
is_string _ = false

-- The claims that the portal reads.
pub record Payload : Type 0 where
  pub sub : Value
  pub role : Value

-- What `SignJWT` is given, with the times in seconds.
pub record Claims : Type 0 where
  pub alg : String
  pub payload : Payload
  pub issued_at : ℕ
  pub expires_at : ℕ

-- The package jose: `verify now token key` is `none` where `jwtVerify` rejects at the time `now`.
pub record Jose : Type 0 where
  pub sign : Claims → String → String
  pub verify : ℕ → String → String → Option Payload

abbrev pub admin_cookie : String
admin_cookie = "as_admin_token"

abbrev pub player_cookie : String
player_cookie = "as_player_token"

-- What `signAdminToken` signs: the claims, and its times in seconds.
abbrev pub admin_claims : ℕ → Claims
admin_claims now = record {
  alg = "HS256";
  payload = record { sub = str "portal-admin"; role = str "admin" };
  issued_at = now;
  expires_at = now + 12 * 60 * 60;
}

-- A token is not empty. One that was signed for the admin by a key verifies by that key until it
-- expires, and not from then on.
pub record IsSound (jose : Jose) : Type 0 where
  pub not_empty : (issued : ℕ) (key : String) → jose.sign (admin_claims issued) key ≢ ""
  pub fresh :
      (issued : ℕ) (key : String) (now : ℕ)
      → now < (admin_claims issued).expires_at
      → jose.verify now (jose.sign (admin_claims issued) key) key
        ≡ some (admin_claims issued).payload
  pub expired :
      (issued : ℕ) (key : String) (now : ℕ)
      → (admin_claims issued).expires_at ≤ now
      → jose.verify now (jose.sign (admin_claims issued) key) key ≡ none

module _ (env : Env) (jose : Jose) where
  -- `secret()`; the encoding as UTF-8 is one to one
  abbrev pub secret : String
  secret = or_else env.jwt_secret "dev-secret-CHANGE-ME"

  unfoldable pub sign_admin_token : ℕ → String
  sign_admin_token now = jose.sign (admin_claims now) secret

  unfoldable pub verify_admin_token : ℕ → String → Bool
  verify_admin_token now token = elim (jose.verify now token secret) [
    | none ↦ false
    | some payload ↦ is_str payload.role "admin"
  ]

  unfoldable pub verify_player_token : ℕ → String → Bool
  verify_player_token now token = elim (jose.verify now token secret) [
    | none ↦ false
    | some payload ↦ is_string payload.sub && not (is_truthy payload.role)
  ]
