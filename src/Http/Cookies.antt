-- ===== src/Http/Cookies.antt =====
-- The browser's cookies for the portal, as `cookies()` and `response.cookies` read and write them.
use native.Mathlib.Decide.{dec_lt}
use audio_server.Common.{
  ℕ, Bool, String, str_eq, eq_iff, Option, none, some, List, [], ◌∷◌, ap, refl, ◌∙◌, ◌≡◌,
  if◌then◌else◌, arith,
}

pub record CookieOptions : Type 0 where
  pub http_only : Bool
  pub secure : Bool
  pub same_site : String
  pub max_age : ℕ
  pub path : String

pub record Cookie : Type 0 where
  pub value : String
  pub options : CookieOptions

abbrev pub Jar : Type 0
Jar = List (String × Cookie)

-- `jar.get(name)`
unfoldable pub get : String → Jar → Option Cookie
get name [] = none
get name ((k, c) ∷ jar) = if str_eq k name then some c else get name jar

-- `cookie?.value`
abbrev pub value_of : Option Cookie → Option String
value_of none = none
value_of (some c) = some c.value

-- `jar.set(name, value, options)`
unfoldable pub set : String → Cookie → Jar → Jar
set name c [] = (name, c) ∷ []
set name c ((k, d) ∷ jar) = if str_eq k name then (name, c) ∷ jar else (k, d) ∷ set name c jar

-- `jar.delete(name)`
unfoldable pub delete : String → Jar → Jar
delete name [] = []
delete name ((k, d) ∷ jar) =
    let rest = delete name jar in if str_eq k name then rest else (k, d) ∷ rest

abbrev pub kept : {P : Type 0} → String → Jar → Dec P → Jar
kept name jar (yes early) = jar
kept name jar (no late) = delete name jar

-- What the browser has of the cookies, so many seconds after it was given the one of this name: it
-- drops that once its age has come to `maxAge`.
unfoldable pub aged : String → ℕ → Jar → Jar
aged name age jar = elim (get name jar) [
  | none ↦ jar
  | some c ↦ kept name jar (dec_lt age c.options.max_age)
]

pub get-set :
    (name other : String) (c : Cookie) (jar : Jar)
    → get other (set name c jar) ≡ (if str_eq name other then some c else get other jar)
unfolding get set
get-set name other c [] = ground (arith, eq_iff name other)
get-set name other c ((k, d) ∷ jar) =
    ground (arith, eq_iff name other, eq_iff k name, eq_iff k other, get-set name other c jar)

pub get-delete :
    (name other : String) (jar : Jar)
    → get other (delete name jar) ≡ (if str_eq name other then none else get other jar)
unfolding get delete
get-delete name other [] = ground arith
get-delete name other ((k, d) ∷ jar) =
    ground (arith, eq_iff name other, eq_iff k name, eq_iff k other, get-delete name other jar)

pub aged-set :
    (name : String) (age : ℕ) (c : Cookie) (jar : Jar)
    → aged name age (set name c jar) ≡ kept name (set name c jar) (dec_lt age c.options.max_age)
unfolding aged
aged-set name age c jar =
    ap
      (λ (o : Option Cookie). elim o [
        | none ↦ set name c jar
        | some c' ↦ kept name (set name c jar) (dec_lt age c'.options.max_age)
      ])
      found
  where
    found : get name (set name c jar) ≡ some c
    found = get-set name name c jar ∙ rw ((eq_iff name name).1 refl) refl
