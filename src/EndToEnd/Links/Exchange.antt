-- ===== src/EndToEnd/Links/Exchange.antt =====
-- What the relay answers to the exchange of the token of a link, by backend/src/api/player.rs.
use audio_server.Common.{
  Option, String, [], ap, eq_iff, none, refl, some, template, ℕ, ◌∙◌, ◌∷◌, ◌≡◌,
}
use audio_server.Http.{Env, Reply}
use audio_server.Actions.{relay_url}
use audio_server.Callback.{exchange_request}
use audio_server.Backend.{Answer, Database, got}
use audio_server.Backend.Jwt.{sign}
use audio_server.Backend.Tokens.{
  key_of, portal, split_once, and_then, player_value, PlayerOtt, validate_player,
}
use audio_server.Backend.Handlers.{Node, json, jwt_response, plain, player_answer, upserted}
use audio_server.Backend.Handlers
use audio_server.EndToEnd.{handle, route_of, field, serve}

module _ (node : Node) where
  open node use {crates, redis, db, config}
  open crates use {Uuid, parse_str, uuid_text}
  open redis use {Store, live, get_del}

  -- What Redis and PostgreSQL answer to the exchange of `ott` at `now`: the token is there, with the
  -- identifier `u` and the name, and the player is recorded.
  pub record IsStored (now : ℕ) (ott : String) (s : Store) (u : Uuid) (name : String) : Type 0 where
    pub value : String
    pub reached : (get_del now (key_of portal ott) s).0 ≡ got (some value)
    pub has_name : split_once value ≡ some (uuid_text u, name)
    pub d : Database
    pub has_db : db ≡ some d
    pub recorded : d.upsert_player (uuid_text u) name ≡ got tt

  pub serve-player :
      (env : Env) (now : ℕ) (ott : String) (s : Store)
      → serve node (relay_url env) now s (exchange_request env "/api/auth/player-callback" ott)
        ≡ Handlers.player_callback node now ott s
  unfolding serve handle route_of field
  serve-player env now ott s =
      rw ((eq_iff (template (relay_url env ∷ "/api/auth/player-callback" ∷ [])) _).1 refl) refl

  with_db :
      (now : ℕ) (ott : String) (s : Store) (d : Database)
      → db ≡ some d
      → let out = validate_player crates redis now ott s in
        Handlers.player_callback node now ott s ≡ (player_answer node now d out.0, out.1)
  unfolding Handlers.player_callback
  with_db now ott s d has_db =
      let out = validate_player crates redis now ott s in
      ap
        (λ (o : Option Database). elim o [
          | none ↦ (plain 503, s)
          | some d ↦ (player_answer node now d out.0, out.1)
        ])
        has_db

  validated :
      (now : ℕ) (ott : String) (s : Store) (v : Option String)
      → (get_del now (key_of portal ott) s).0 ≡ got v
      → validate_player crates redis now ott s
        ≡ (player_value crates v, (get_del now (key_of portal ott) s).1)
  unfolding validate_player
  validated now ott s v reached =
      ap
        (λ (a : Answer (Option String)).
          (and_then a (player_value crates), (get_del now (key_of portal ott) s).1))
        reached

  player_value-stored :
      (value name : String) (u : Uuid)
      → split_once value ≡ some (uuid_text u, name)
      → player_value crates (some value) ≡ got (some (record { player_uuid = u; username = name }))
  player_value-stored value name u h = rw (h, player_value, crates.parse-text u) refl

  pub exchanged :
      (now : ℕ) (ott : String) (s : Store) (u : Uuid) (name jwt : String)
      → IsStored now ott s u name
      → sign crates config now (uuid_text u) ≡ some jwt
      → Handlers.player_callback node now ott s ≡ (json jwt, (get_del now (key_of portal ott) s).1)
  exchanged now ott s u name jwt h signed =
      let after = (get_del now (key_of portal ott) s).1 in
      with_db now ott s h.d h.has_db
      ∙ ap
          (λ (out : Answer (Option (PlayerOtt Uuid)) × Store).
            (player_answer node now h.d out.0, out.1))
          (validated now ott s (some h.value) h.reached)
      ∙ ap (λ (a : Answer (Option (PlayerOtt Uuid))). (player_answer node now h.d a, after))
          (player_value-stored h.value name u h.has_name)
      ∙ ap
          (λ (a : Answer (Unit {0})).
            (upserted node now (record { player_uuid = u; username = name }) a, after))
          h.recorded
      ∙ ap (λ (o : Option String). (jwt_response o, after)) signed

  -- A token that is not there any more.
  pub spent :
      (now : ℕ) (ott : String) (s : Store) (d : Database)
      → db ≡ some d
      → (get_del now (key_of portal ott) s).0 ≡ got none
      → (Handlers.player_callback node now ott s).0 ≡ plain 401
  spent now ott s d has_db h =
      ap (λ (out : Reply String × Store). out.0) (with_db now ott s d has_db)
      ∙ ap (λ (out : Answer (Option (PlayerOtt Uuid)) × Store). player_answer node now d out.0)
          (validated now ott s none h)
