-- ===== src/Backend/Jwt/Laws.antt =====
-- The relay takes every token that the portal takes for a session.
use native.Mathlib.Decide.{dec_lt}
use mathlib.Core.Path.{subst}
use text.Mathlib.TextPositions.{slice-append_right, starts_with-append, len-append}
use text.Mathlib.TextLemmas.{append-nil}
use Prim.Native.String
use audio_server.Common.{
  Option, String, arith, eq_iff, false, if◌then◌else◌, if-not-true, is_some, is_text, none, refl,
  some, str_eq, true, not, ◌&&◌, ℕ, ◌+◌, ◌≡◌, ◌≢◌, sym, ◌∙◌, ap,
}
use audio_server.Http.{Env}
use audio_server.Auth.{
  Jose, Payload, is_str, is_string, is_truthy, secret, sign_admin_token, str, verify_admin_token,
  verify_player_token,
}
use audio_server.Auth
use audio_server.Relay.{bearer}
use audio_server.Backend.{Claims, Config, Crates}
use audio_server.Backend.Jwt.{
  Checked, accepted, admin_claims, admin_extractor, bearer_token, check_admin, check_player,
  player_claims, player_extractor, refused, sign, sign_admin, strip_bearer, with_claims,
}
use audio_server.Backend.Jwt.Agreement.{Agrees, payload_of, portal_claims, role_value}

strip_bearer-bearer : (token : String) → strip_bearer (bearer token) ≡ some token
strip_bearer-bearer token =
    rw
      (
        starts_with-append "Bearer " (String.◌++◌ token ""),
        len-append "Bearer " (String.◌++◌ token ""),
      )
      (ap {B = Option String} some
        (slice-append_right "Bearer " (String.◌++◌ token "") ∙ append-nil token))

bearer_token-bearer :
    (token : String) → token ≢ "" → bearer_token (some (bearer token)) ≡ some token
unfolding bearer_token
bearer_token-bearer token given =
    ap
      (λ (o : Option String). elim o [
        | none ↦ none
        | some token ↦ if str_eq token "" then none else some token
      ])
      (strip_bearer-bearer token)
    ∙ ground (arith, eq_iff token "")

module _ (crates : Crates) (config : Config) (env : Env) (jose : Jose) where
  -- The tokens that are in use: the relay's for a player and for an admin, and the portal's.
  pub data Issued : String → Type 0 where
    for_player :
        (now : ℕ) (u : crates.Uuid) (token : String)
        → sign crates config now (crates.uuid_text u) ≡ some token
        → Issued token
    for_admin :
        (now : ℕ) (id token : String) → sign_admin crates config now id ≡ some token → Issued token
    by_portal : (now : ℕ) → Issued (sign_admin_token env jose now)

  seen :
      (token : String) (t : ℕ) (p : Payload)
      → jose.verify t token (secret env jose) ≡ some p
      → (verify_admin_token env jose t token ≡ is_str p.role "admin")
        × (verify_player_token env jose t token ≡ (is_string p.sub && not (is_truthy p.role)))
  unfolding verify_admin_token verify_player_token
  seen token t p h = (rw (h, verify_admin_token) refl, rw (h, verify_player_token) refl)

  unseen :
      (token : String) (t : ℕ)
      → jose.verify t token (secret env jose) ≡ none
      → (verify_admin_token env jose t token ≡ false)
        × (verify_player_token env jose t token ≡ false)
  unfolding verify_admin_token verify_player_token
  unseen token t h = (rw (h, verify_admin_token) refl, rw (h, verify_player_token) refl)

  -- The relay's check of a token that it can decode.
  extracted :
      (token : String) (t : ℕ) (c : Claims) (check : Claims → Checked)
      → token ≢ ""
      → crates.decode t token config.jwt_secret ≡ some c
      → with_claims crates config t (bearer_token (some (bearer token))) check ≡ check c
  extracted token t c check filled decoded =
      ap (λ (o : Option String). with_claims crates config t o check)
        (bearer_token-bearer token filled)
      ∙ ap
          (λ (o : Option Claims). elim o [
            | none ↦ refused 401 "invalid or expired token"
            | some claims ↦ check claims
          ])
          decoded

  -- What the two checks make of the session of a token at a time.
  abbrev pub IsTaken : String → ℕ → Type 0
  IsTaken token t =
      (verify_admin_token env jose t token ≡ true
        → (c : Claims) × (admin_extractor crates config t (some (bearer token)) ≡ accepted c))
      × (verify_player_token env jose t token ≡ true
          → (c : Claims) × (player_extractor crates config t (some (bearer token)) ≡ accepted c))

  unseen-IsTaken :
      (token : String) (t : ℕ) → jose.verify t token (secret env jose) ≡ none → IsTaken token t
  unseen-IsTaken token t h =
      let (no_admin, no_player) = unseen token t h in
      ((λ e. absurd (cc (no_admin, e))), (λ e. absurd (cc (no_player, e))))

  admin-IsTaken :
      (token : String) (t : ℕ) (c : Claims)
      → token ≢ ""
      → c.role ≡ some "admin"
      → jose.verify t token (secret env jose) ≡ some (payload_of c)
      → crates.decode t token config.jwt_secret ≡ some c
      → IsTaken token t
  unfolding admin_extractor
  admin-IsTaken token t c filled role verified decoded =
      let (as_admin, as_player) = seen token t (payload_of c) verified in
      let has_role : is_text c.role "admin" ≡ true = ap (λ o. is_text o "admin") role in
      let no_player = as_player ∙ ap (λ o. not (is_truthy (role_value o))) role in
      (
        λ _. (
          c,
          extracted token t c (check_admin crates config) filled decoded
              ∙ if-not-true _ _ (is_text c.role "admin") has_role,
        ),
        λ h. absurd (cc (no_player, h)),
      )

  player-IsTaken :
      (token : String) (t : ℕ) (u : crates.Uuid) (c : Claims)
      → token ≢ ""
      → c.role ≡ none
      → c.sub ≡ crates.uuid_text u
      → jose.verify t token (secret env jose) ≡ some (payload_of c)
      → crates.decode t token config.jwt_secret ≡ some c
      → IsTaken token t
  unfolding player_extractor
  player-IsTaken token t u c filled role sub verified decoded =
      let (as_admin, as_player) = seen token t (payload_of c) verified in
      let no_admin = as_admin ∙ ap (λ o. is_str (role_value o) "admin") role in
      let no_role = ap (λ (o : Option String). is_some o) role in
      let known = ap (λ (s : String). crates.parse_str s) sub ∙ crates.parse-text u in
      (
        λ h. absurd (cc (no_admin, h)),
        λ _. (
          c,
          extracted token t c (check_player crates config) filled decoded
              ∙ ground (arith, no_role, known),
        ),
      )

  by_relay :
      (c : Claims) (token : String) (t : ℕ)
      → Agrees jose crates
      → config.jwt_secret ≡ secret env jose
      → crates.encode c config.jwt_secret ≡ some token
      → (token ≢ ""
          → jose.verify t token (secret env jose) ≡ some (payload_of c)
          → crates.decode t token config.jwt_secret ≡ some c
          → IsTaken token t)
      → IsTaken token t
  by_relay c token t agrees same signed taken = elim (dec_lt t c.exp) [
    | yes early ↦
        taken (agrees.not_empty c _ token signed)
          (subst (λ k. jose.verify t token k ≡ some (payload_of c)) same
            (agrees.fresh c _ token t signed early))
          (agrees.decoded c _ token t signed (omega (arith, early)))
    | no late ↦ unseen-IsTaken token t (
        subst (λ k. jose.verify t token k ≡ none) same
          (agrees.expired c _ token t signed (omega (arith, late))))
  ]

  portal-IsTaken :
      (now t : ℕ)
      → Agrees jose crates
      → Auth.IsSound jose
      → config.jwt_secret ≡ secret env jose
      → IsTaken (sign_admin_token env jose now) t
  unfolding sign_admin_token
  portal-IsTaken now t agrees sound same = elim (dec_lt t (now + 43200)) [
    | yes early ↦
        admin-IsTaken (sign_admin_token env jose now) t (portal_claims now)
          (sound.not_empty now (secret env jose)) refl (sound.fresh now (secret env jose) t early)
          (subst (λ k. crates.decode t (sign_admin_token env jose now) k ≡ some (portal_claims now))
            (sym same) (agrees.portal_decoded now (secret env jose) t (omega (arith, early))))
    | no late ↦
        unseen-IsTaken (sign_admin_token env jose now) t
          (sound.expired now (secret env jose) t (omega (arith, late)))
  ]

  -- The relay takes every token that the portal takes: where the portal sees an admin's session, the
  -- relay's check for an admin accepts the token, and where it sees a player's, the one for a player.
  -- The tokens are those that the two of them sign, with one secret.
  pub session_accepted :
      (token : String) (t : ℕ)
      → Agrees jose crates
      → Auth.IsSound jose
      → config.jwt_secret ≡ secret env jose
      → Issued token
      → IsTaken token t
  session_accepted token t agrees sound same (for_player now u _ signed) =
      by_relay (player_claims config now (crates.uuid_text u)) token t agrees same signed
        (λ filled. player-IsTaken token t u _ filled refl refl)
  session_accepted token t agrees sound same (for_admin now id _ signed) =
      by_relay (admin_claims config now id) token t agrees same signed
        (λ filled. admin-IsTaken token t _ filled refl)
  session_accepted token t agrees sound same (by_portal now) =
      portal-IsTaken now t agrees sound same
