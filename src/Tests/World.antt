-- ===== src/Tests/World.antt =====
-- What the tests take for Redis, PostgreSQL, the crates of the relay and the package jose together.
use Prim.Native.String
use audio_server.Common.{
  Bool, List, Option, Option-cases, String, [], ap, arith, eq_iff, false, if◌then◌else◌, inl, inr,
  is_some, ltb, none, not, refl, some, str_eq, suc, true, ℕ, ◌&&◌, ◌+◌, ◌-◌, ◌<◌, ◌==◌, ◌∙◌, ◌∷◌,
  ◌≡◌, ◌≢◌, ◌≤◌,
}
use audio_server.Auth.{IsSound, Jose, Payload, str}
use audio_server.Backend.{Claims, Crates, Redis, got}
use audio_server.Backend.Handlers.{Node}
use audio_server.Backend.Jwt.Agreement.{Agrees, payload_of, portal_claims}
use audio_server.Tests.Sample.{count-marks, marks, marks-ne-nil}

-- A key with its value and the time at which it is over.
pub record Entry : Type 0 where
  pub key : String
  pub value : String
  pub over : ℕ

abbrev pub unexpired : ℕ → Entry → Option String
unexpired now e = if ltb now e.over then some e.value else none

unfoldable pub find : ℕ → String → List Entry → Option String
find now key [] = none
find now key (e ∷ rest) =
    let later = find now key rest in if str_eq e.key key then unexpired now e else later

unfoldable pub except : String → List Entry → List Entry
except key [] = []
except key (e ∷ rest) = let later = except key rest in if str_eq e.key key then later else e ∷ later

pub find-except : (t : ℕ) (key : String) (s : List Entry) → find t key (except key s) ≡ none
unfolding find except
find-except t key [] = refl
find-except t key (e ∷ rest) = ground (arith, find-except t key rest)

pub find-without_others :
    (t : ℕ) (key other : String) (s : List Entry)
    → other ≢ key
    → find t other (except key s) ≡ find t other s
unfolding find except
find-without_others t key other [] h = refl
find-without_others t key other (e ∷ rest) h =
    ground (arith, find-without_others t key other rest h, eq_iff e.key key, eq_iff e.key other)

unfoldable pub entry : ℕ → String → String → ℕ → Entry
entry now key value ttl = record { key = key; value = value; over = now + ttl }

pub got_of : (a b : Option String) → got a ≡ got b → b ≡ a
got_of a b h = ground arith

pub find-entry :
    (t : ℕ) (other : String) (now : ℕ) (key value : String) (ttl : ℕ) (s : List Entry)
    → find t other (entry now key value ttl ∷ s) ≡ (
        if str_eq key other
        then (if ltb t (now + ttl) then some value else none)
        else find t other s)
unfolding find entry
find-entry t other now key value ttl s = refl

pub set-live :
    (t now : ℕ) (key value : String) (ttl : ℕ) (s : List Entry)
    → t < now + ttl
    → find t key (entry now key value ttl ∷ s) ≡ some value
set-live t now key value ttl s early =
    find-entry t key now key value ttl s ∙ ground (arith, eq_iff key key)

pub set-over :
    (t now : ℕ) (key value : String) (ttl : ℕ) (s : List Entry)
    → now + ttl ≤ t
    → find t key (entry now key value ttl ∷ s) ≡ none
set-over t now key value ttl s late =
    find-entry t key now key value ttl s ∙ ground (arith, eq_iff key key)

pub set-others :
    (t now : ℕ) (key value other : String) (ttl : ℕ) (s : List Entry)
    → other ≢ key
    → find t other (entry now key value ttl ∷ s) ≡ find t other s
set-others t now key value other ttl s h =
    find-entry t other now key value ttl s ∙ ground (arith, eq_iff key other)

abbrev pub table : Redis
table = record {
  Store = List Entry;
  live = find;
  get_del = λ now key s. (got (find now key s), except key s);
  set_ex = λ now key value ttl s. (got tt, entry now key value ttl ∷ s);
  get_del-live = λ now key s v h. got_of _ v h;
  get_del-gone = λ now key s v t h. find-except t key s;
  get_del-lost = λ now key s t. inr (find-except t key s);
  get_del-others = λ now key other s t h. find-without_others t key other s h;
  set_ex-live = λ now key value ttl s t h early. set-live t now key value ttl s early;
  set_ex-over = λ now key value ttl s t h late. set-over t now key value ttl s late;
  set_ex-others = λ now key value other ttl s t h. set-others t now key value other ttl s h;
}

-- What the relay signs: the token of one player, from the time 100 to 3700.
abbrev pub signs : Claims → Bool
signs c = str_eq c.sub "uuid-1" && (c.exp == 3700) && (c.iat == 100) && not (is_some c.role)

abbrev pub visitor : Claims
visitor = record { sub = "uuid-1"; exp = 3700; iat = 100; role = none }

abbrev pub encode_one : Claims → String → Option String
encode_one c key = if signs c then some "x" else none

abbrev in_use : Bool → Option Claims → Option Claims
in_use ok claims = if ok then claims else none

-- A token of the portal is longer than the time that it is good for; its end tells when it was signed.
unfoldable pub decode_marks : ℕ → String → String → Option Claims
decode_marks now token key =
    let n = String.count token in
    if ltb n 43201
    then (if ltb 3760 now then none else some visitor)
    else if ltb (n + 59) now
    then none
    else some (portal_claims (n - 43201))

unfoldable pub verify_marks : ℕ → String → String → Option Payload
verify_marks now token key =
    let n = String.count token in
    if ltb n 43201
    then (if ltb now 3700 then some (payload_of visitor) else none)
    else if ltb (now + 1) n
    then some (record { sub = str "portal-admin"; role = str "admin" })
    else none

abbrev pub jose : Jose
jose = record { sign = λ c key. marks (suc c.expires_at); verify = verify_marks }

abbrev pub crates : Crates
crates = record {
  Uuid = String;
  parse_str = λ s. some s;
  uuid_text = λ u. u;
  parse-text = λ u. refl;
  trim = λ s. s;
  encode = encode_one;
  decode = decode_marks;
}

encode_one-visitor :
    (c : Claims) (key token : String)
    → encode_one c key ≡ some token
    → (c ≡ visitor) × (token ≡ "x")
encode_one-visitor c key token h = elim (Option-cases c.role) [
  | inl bare ↦ ground (arith, eq_iff c.sub "uuid-1")
  | inr (role, e) ↦ ground (arith, eq_iff c.sub "uuid-1")
]

pub jose-IsSound : IsSound jose
unfolding verify_marks
jose-IsSound = record {
  not_empty = λ issued key. marks-ne-nil _;
  fresh = λ issued key now h. rw (count-marks (suc (issued + 43200))) (ground arith);
  expired = λ issued key now h. rw (count-marks (suc (issued + 43200))) (ground arith);
}

one_key :
    (key token : String) (t : ℕ) (c : Claims)
    → encode_one c key ≡ some token
    → ((t < c.exp → jose.verify t token key ≡ some (payload_of c))
        × (c.exp ≤ t → jose.verify t token key ≡ none))
      × ((t ≤ c.exp + 60 → crates.decode t token key ≡ some c)
          × (c.exp + 60 < t → crates.decode t token key ≡ none))
unfolding verify_marks decode_marks
one_key key token t c h =
    let is = encode_one-visitor c key token h in
    rw (is.0, is.1)
      ((λ early. ground arith, λ late. ground arith), (λ early. ground arith, λ late. ground arith))

letter : String
letter = "x"

one_mark : letter ≢ ""
unfolding letter
one_mark e = let differ : false ≡ true = ap (λ (s : String). str_eq s "") e in absurd (ground arith)

pub jose-Agrees : Agrees jose crates
unfolding decode_marks letter
jose-Agrees = record {
  not_empty = λ c key token h. rw (encode_one-visitor c key token h).1 one_mark;
  fresh = λ c key token t h. (one_key key token t c h).0.0;
  expired = λ c key token t h. (one_key key token t c h).0.1;
  decoded = λ c key token t h. (one_key key token t c h).1.0;
  overdue = λ c key token t h. (one_key key token t c h).1.1;
  portal_decoded = λ issued key t h. rw (count-marks (suc (issued + 43200))) (ground arith);
}

-- A database that takes every player, and no admin.
abbrev pub node : Node
node = record {
  crates = crates;
  redis = table;
  db = some (record { upsert_player = λ uuid username. got tt; find_admin = λ username. got none });
  config = record { jwt_secret = "key"; jwt_expiry_seconds = 3600 };
  verify_password = λ password hash. got false;
}
