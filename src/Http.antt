-- ===== src/Http.antt =====
-- What the web platform and Next.js hand to the portal: the environment, the result of a `fetch`,
-- the browser's cookies, the answer of a route handler.
pub mod Cookies
use audio_server.Common.{ℕ, Bool, true, false, ◌&&◌, String, str_eq, Option, none, some, List, leb}

-- The variables of `process.env` that the portal reads; `none` is `undefined`.
pub record Env : Type 0 where
  pub backend_url : Option String
  pub jwt_secret : Option String
  pub admin_secret : Option String
  pub node_env : Option String

-- `value ?? fallback`
abbrev pub or_else {ℓ} : {A : Type ℓ} → Option A → A → A
or_else none d = d
or_else (some a) d = a

-- A string is truthy unless it is empty, and `undefined` is not.
abbrev pub truthy : Option String → Option String
truthy none = none
truthy (some s) = elim (str_eq s "") [ true ↦ none | false ↦ some s ]

-- A request as `fetch` gets it, with a body of type `B`; `none` is no body.
pub record FetchRequest (B : Type 0) : Type 0 where
  pub url : String
  pub method : String
  pub headers : List (String × String)
  pub body : Option B

-- A response, with the value that its body is read to; `none` where reading it rejects.
pub record Reply (B : Type 0) : Type 0 where
  pub status : ℕ
  pub content_type : Option String
  pub body : Option B

-- `fetch` rejects, or gives a response of any status.
pub data Fetched (B : Type 0) : Type 0 where
  rejected : Fetched B
  replied : Reply B → Fetched B

-- `response.ok`
abbrev pub is_ok : {B : Type 0} → Reply B → Bool
is_ok r = leb 200 r.status && leb r.status 299
