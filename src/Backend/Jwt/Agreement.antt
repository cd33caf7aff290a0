-- ===== src/Backend/Jwt/Agreement.antt =====
-- The two libraries that sign and verify tokens by HS256 with one secret: jsonwebtoken in the relay
-- and jose in the portal.
use audio_server.Common.{Option, String, none, some, ℕ, ◌+◌, ◌<◌, ◌≡◌, ◌≢◌, ◌≤◌}
use audio_server.Auth.{Jose, Payload, Value, str, undefined}
use audio_server.Auth
use audio_server.Backend.{Claims, Crates}

-- A claim that is `None` is left out of the token.
abbrev pub role_value : Option String → Value
role_value none = undefined
role_value (some role) = str role

abbrev pub payload_of : Claims → Payload
payload_of c = record { sub = str c.sub; role = role_value c.role }

-- What the portal signs, as the relay reads it.
abbrev pub portal_claims : ℕ → Claims
portal_claims issued = record {
  sub = "portal-admin";
  exp = (Auth.admin_claims issued).expires_at;
  iat = issued;
  role = some "admin";
}

-- What the standard of the tokens says: jose takes a token until it expires, and jsonwebtoken, with
-- its leeway, for 60 seconds more.
pub record Agrees (jose : Jose) (crates : Crates) : Type 0 where
  pub not_empty : (c : Claims) (key token : String) → crates.encode c key ≡ some token → token ≢ ""
  pub fresh :
      (c : Claims) (key token : String) (t : ℕ)
      → crates.encode c key ≡ some token
      → t < c.exp
      → jose.verify t token key ≡ some (payload_of c)
  pub expired :
      (c : Claims) (key token : String) (t : ℕ)
      → crates.encode c key ≡ some token
      → c.exp ≤ t
      → jose.verify t token key ≡ none
  pub decoded :
      (c : Claims) (key token : String) (t : ℕ)
      → crates.encode c key ≡ some token
      → t ≤ c.exp + 60
      → crates.decode t token key ≡ some c
  pub overdue :
      (c : Claims) (key token : String) (t : ℕ)
      → crates.encode c key ≡ some token
      → c.exp + 60 < t
      → crates.decode t token key ≡ none
  pub portal_decoded :
      (issued : ℕ) (key : String) (t : ℕ)
      → t ≤ (Auth.admin_claims issued).expires_at + 60
      → crates.decode t (jose.sign (Auth.admin_claims issued) key) key ≡ some (portal_claims issued)
