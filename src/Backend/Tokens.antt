-- ===== src/Backend/Tokens.antt =====
-- backend/src/auth: the one-time tokens of ott.rs, player_ott.rs, admin_login_ott.rs and
-- admin_ticket.rs, each a key of Redis that is read and deleted at once.
pub mod Laws
use Prim.Native.Char.{code}
use audio_server.Common.{
  Bool, Option, String, [], false, true, if◌then◌else◌, none, some, template, ℕ, ◌==◌, ◌∷◌,
}
use audio_server.Backend.{Answer, Crates, Redis, failed, got}

-- What a one-time token is for.
pub data Kind : Type 0 where
  listening portal admin_login ticket : Kind

abbrev pub prefix : Kind → String
prefix listening = "audio:auth:token:"
prefix portal = "audio:portal:token:"
prefix admin_login = "admin:login:"
prefix ticket = "admin:ticket:"

abbrev pub key_of : Kind → String → String
key_of kind token = template (prefix kind ∷ token ∷ [])

-- `s.split_once(':')`
unfoldable pub split_once : String → Option (String × String)
split_once String.[] = none
split_once (String.◌∷◌ c w) = if code c == 58 then some ("", w) else elim (split_once w) [
  | none ↦ none
  | some (before, after) ↦ some (String.◌∷◌ c before, after)
]

-- player_ott.rs: `PlayerOtt`
pub record PlayerOtt (Uuid : Type 0) : Type 0 where
  pub player_uuid : Uuid
  pub username : String

module _ (crates : Crates) where
  open crates use {Uuid, parse_str, trim}

  abbrev pub ott_value : Option String → Answer (Option Uuid)
  ott_value none = got none
  ott_value (some s) = elim (parse_str s) [ none ↦ failed | some uuid ↦ got (some uuid) ]

  abbrev pub admin_value : Option String → Answer (Option Uuid)
  admin_value none = got none
  admin_value (some s) = got (parse_str (trim s))

  abbrev pub named_by : String → Option Uuid → Option (PlayerOtt Uuid)
  named_by username none = none
  named_by username (some uuid) = some (record { player_uuid = uuid; username = username })

  abbrev pub player_value : Option String → Answer (Option (PlayerOtt Uuid))
  player_value none = got none
  player_value (some s) = elim (split_once s) [
    | none ↦ got none
    | some (uuid, username) ↦ got (named_by username (parse_str uuid))
  ]

-- `?` after the command, and what is made of its reply.
abbrev pub and_then {ℓ κ} : {A : Type ℓ} {B : Type κ} → Answer A → (A → Answer B) → Answer B
and_then failed f = failed
and_then (got a) f = f a

module _ (crates : Crates) (redis : Redis) where
  open crates use {Uuid}
  open redis use {Store, get_del, set_ex}

  -- ott.rs
  unfoldable pub validate_ott : ℕ → String → Store → Answer (Option Uuid) × Store
  validate_ott now token s =
      let (raw, s') = get_del now (key_of listening token) s in
      (and_then raw (ott_value crates), s')

  -- player_ott.rs
  unfoldable pub validate_player : ℕ → String → Store → Answer (Option (PlayerOtt Uuid)) × Store
  validate_player now token s =
      let (raw, s') = get_del now (key_of portal token) s in
      (and_then raw (player_value crates), s')

  -- admin_login_ott.rs
  unfoldable pub validate_admin : ℕ → String → Store → Answer (Option Uuid) × Store
  validate_admin now token s =
      let (raw, s') = get_del now (key_of admin_login token) s in
      (and_then raw (admin_value crates), s')

module _ (redis : Redis) where
  open redis use {Store, get_del, set_ex}

  -- admin_ticket.rs: `issue`, for the fresh identifier `ticket`, and `validate`
  unfoldable pub issue : ℕ → String → Store → Answer (Unit {0}) × Store
  issue now id s = set_ex now (key_of ticket id) "" 15 s

  abbrev pub is_there : Option String → Answer Bool
  is_there none = got false
  is_there (some s) = got true

  unfoldable pub validate_ticket : ℕ → String → Store → Answer Bool × Store
  validate_ticket now id s =
      let (raw, s') = get_del now (key_of ticket id) s in (and_then raw is_there, s')
