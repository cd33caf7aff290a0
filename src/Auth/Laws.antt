-- ===== src/Auth/Laws.antt =====
-- What the two kinds of tokens promise.
use audio_server.Common.{
  Option-cases, String, arith, eq_iff, false, inl, inr, true, ℕ, ◌+◌, ◌<◌, ◌↔◌, ◌≡◌, ◌≢◌,
}
use native.Mathlib.Decide.{dec_lt}
use audio_server.Http.{Env}
use audio_server.Auth.{
  IsSound, Jose, Value, bool, is_str, is_truthy, null, number, object, secret, sign_admin_token,
  str, undefined, verify_admin_token, verify_player_token,
}

not_both : (role : Value) → is_str role "admin" ≡ true → is_truthy role ≡ true
not_both (str s) h = rw ((eq_iff s "admin").0 h)
not_both undefined h = cc
not_both null h = cc
not_both object h = cc
not_both (bool b) h = cc
not_both (number z) h = cc

module _ (env : Env) (jose : Jose) where
  -- No token is accepted at one time both as an admin's and as a player's.
  tokens_exclusive :
      (now : ℕ) (token : String)
      → ¬ (
          (verify_admin_token env jose now token ≡ true)
          × (verify_player_token env jose now token ≡ true))
  unfolding verify_admin_token verify_player_token
  tokens_exclusive now token (a, p) =
      elim (Option-cases (jose.verify now token (secret env jose))) [
        | inl e ↦ ground arith
        | inr (payload, e) ↦ ground (arith, not_both payload.role)
      ]

  pub sign-ne-empty : IsSound jose → (now : ℕ) → sign_admin_token env jose now ≢ ""
  unfolding sign_admin_token
  sign-ne-empty sound now = sound.not_empty now (secret env jose)

  -- A token that the portal signs at `now` is an admin's at `t` exactly if `t` lies less than twelve
  -- hours behind `now`, and it is never a player's.
  pub verify-sign_admin_token :
      IsSound jose
      → (now t : ℕ)
      → ((verify_admin_token env jose t (sign_admin_token env jose now) ≡ true) ↔ (t < now + 43200))
        × (verify_player_token env jose t (sign_admin_token env jose now) ≡ false)
  unfolding verify_admin_token verify_player_token sign_admin_token
  verify-sign_admin_token sound now t = (
    (
      λ h. elim (dec_lt t (now + 43200)) [
        | yes early ↦ early
        | no late ↦ ground (arith, sound.expired now (secret env jose) t)
      ],
      λ early. ground (arith, sound.fresh now (secret env jose) t),
    ),
    elim (dec_lt t (now + 43200)) [
      | yes early ↦ ground (arith, sound.fresh now (secret env jose) t)
      | no late ↦ ground (arith, sound.expired now (secret env jose) t)
    ],
  )
