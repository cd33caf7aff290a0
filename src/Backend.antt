-- ===== src/Backend.antt =====
-- backend/src: the relay, as far as it opens sessions and passes the events of the game on. What its
-- crates and its services do is a parameter: `Crates` for the crates uuid and jsonwebtoken, `Redis`
-- and `Database` for the stores that it calls.
pub mod Tokens
pub mod Jwt
pub mod Handlers
pub mod Session
pub mod AdminSession
pub mod Players
pub mod Settings
use audio_server.Common.{Option, String, none, some, ℕ, ◌+◌, ◌<◌, ◌≡◌, ◌≢◌, ◌≤◌, ◌⊎◌}

-- What a call of a service gives: `failed` stands for every error.
pub data Answer {ℓ} (A : Type ℓ) : Type ℓ where
  failed : Answer A
  got : A → Answer A

-- auth/jwt.rs: `Claims`
pub record Claims : Type 0 where
  pub sub : String
  pub exp : ℕ
  pub iat : ℕ
  pub role : Option String

-- `decode now token secret` is `none` where a token is refused at the time `now`, in seconds.
pub record Crates : Type 1 where
  pub Uuid : Type 0
  pub parse_str : String → Option Uuid
  pub uuid_text : Uuid → String
  pub parse-text : (u : Uuid) → parse_str (uuid_text u) ≡ some u
  pub trim : String → String
  pub encode : Claims → (secret : String) → Option String
  pub decode : (now : ℕ) → (token secret : String) → Option Claims

-- Redis with the commands GETDEL and SET … EX. `live now key` is the value that a key has at a time.
-- A command that fails for its caller may have been run or not.
pub record Redis : Type 1 where
  pub Store : Type 0
  pub live : (now : ℕ) → (key : String) → Store → Option String
  pub get_del : (now : ℕ) → (key : String) → Store → Answer (Option String) × Store
  pub set_ex : (now : ℕ) → (key value : String) → (ttl : ℕ) → Store → Answer (Unit {0}) × Store
  pub get_del-live :
      (now : ℕ) (key : String) (s : Store) (v : Option String)
      → (get_del now key s).0 ≡ got v
      → v ≡ live now key s
  pub get_del-gone :
      (now : ℕ) (key : String) (s : Store) (v : Option String) (t : ℕ)
      → (get_del now key s).0 ≡ got v
      → live t key (get_del now key s).1 ≡ none
  pub get_del-lost :
      (now : ℕ) (key : String) (s : Store) (t : ℕ)
      → (live t key (get_del now key s).1 ≡ live t key s)
        ⊎ (live t key (get_del now key s).1 ≡ none)
  pub get_del-others :
      (now : ℕ) (key other : String) (s : Store) (t : ℕ)
      → other ≢ key
      → live t other (get_del now key s).1 ≡ live t other s
  pub set_ex-live :
      (now : ℕ) (key value : String) (ttl : ℕ) (s : Store) (t : ℕ)
      → (set_ex now key value ttl s).0 ≡ got tt
      → t < now + ttl
      → live t key (set_ex now key value ttl s).1 ≡ some value
  pub set_ex-over :
      (now : ℕ) (key value : String) (ttl : ℕ) (s : Store) (t : ℕ)
      → (set_ex now key value ttl s).0 ≡ got tt
      → now + ttl ≤ t
      → live t key (set_ex now key value ttl s).1 ≡ none
  pub set_ex-others :
      (now : ℕ) (key value other : String) (ttl : ℕ) (s : Store) (t : ℕ)
      → other ≢ key
      → live t other (set_ex now key value ttl s).1 ≡ live t other s

-- A row of the table `admin_users`.
pub record AdminUser : Type 0 where
  pub id : String
  pub password_hash : String

-- PostgreSQL: the statements that the handlers run. `upsert_player` says whether it succeeds.
pub record Database : Type 0 where
  pub upsert_player : (uuid username : String) → Answer (Unit {0})
  pub find_admin : (username : String) → Answer (Option AdminUser)

-- config.rs: what the handlers read of the configuration.
pub record Config : Type 0 where
  pub jwt_secret : String
  pub jwt_expiry_seconds : ℕ
