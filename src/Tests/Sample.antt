-- ===== src/Tests/Sample.antt =====
-- What the tests take for the environment and for the package jose.

use Prim.Native.String
use text.Mathlib.TextLemmas.{length-cons, length-nil, cons-ne-nil}
use audio_server.Common.{
  Option, String, ap, arith, if◌then◌else◌, ltb, none, some, suc, zero, ℕ, ◌∙◌, ◌≡◌, ◌≢◌,
}
use audio_server.Http.{Env}
use audio_server.Auth.{Claims, IsSound, Jose, Payload, str, undefined}

abbrev pub env : Env
env = record {
  backend_url = some "https://relay.example";
  jwt_secret = some "key";
  admin_secret = some "s3cret";
  node_env = some "production";
}

-- A token of as many letters as its time of expiry has seconds, and one more.
pub marks : ℕ → String
marks zero = ""
marks (suc n) = String.◌∷◌ "x" (marks n)

pub count-marks : (n : ℕ) → String.count (marks n) ≡ n
unfolding marks
count-marks zero = length-nil
count-marks (suc n) = length-cons _ (marks n) ∙ ap suc (count-marks n)

pub marks-ne-nil : (n : ℕ) → marks (suc n) ≢ ""
unfolding marks
marks-ne-nil n = cons-ne-nil _ (marks n)

sign_marks : Claims → String → String
sign_marks c key = marks (suc c.expires_at)

read_marks : ℕ → String → String → Option Payload
read_marks now token key =
    if ltb (suc now) (String.count token)
    then some (record { sub = str "portal-admin"; role = str "admin" })
    else none

pub signer : Jose
signer = record { sign = sign_marks; verify = read_marks }

read-marks :
    (n now : ℕ) (key : String)
    → read_marks now (marks (suc n)) key
      ≡ (if ltb now n then some (record { sub = str "portal-admin"; role = str "admin" }) else none)
unfolding read_marks
read-marks n now key = rw (count-marks (suc n)) (ground arith)

pub signer-IsSound : IsSound signer
unfolding signer sign_marks
signer-IsSound = record {
  not_empty = λ issued key. marks-ne-nil _;
  fresh = λ issued key now h. read-marks _ now key ∙ ground arith;
  expired = λ issued key now h. read-marks _ now key ∙ ground arith;
}

-- Every token is a player's.
abbrev pub player_jose : Jose
player_jose = record {
  sign = λ c key. "t";
  verify = λ now token key. some (record { sub = str "uuid-1"; role = undefined });
}
