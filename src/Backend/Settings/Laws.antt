-- ===== src/Backend/Settings/Laws.antt =====
-- The settings that an admin and a player share.
use audio_server.Common.{String, refl, some, true, ◌≡◌, ◌≢◌}
use audio_server.Http.{or_else}
use audio_server.Backend.{Claims}
use audio_server.Backend.Jwt.{accepted}
use audio_server.Backend.Players.{
  Tables, Update, Works, coalesced, get_me, is_client, ok_json, profile_of, put_player_settings,
  upserted_row,
}
use audio_server.Backend.Players.Laws.{put_at_others, put_at_self}
use audio_server.Backend.Settings.{SettingsUpdate, get_settings, put_settings, settings_row}

module _ {V : Type 0} (one : V) (works : Works) where
  put_get :
      (admin player : Claims) (body : SettingsUpdate V) (t : Tables V) (name : String)
      → works.configured ≡ true
      → works.sql ≡ true
      → t.players player.sub ≡ some name
      → get_me one works
          (accepted player)
          (put_settings one works (accepted admin) player.sub body t).1
        ≡ ok_json (record (profile_of one works t player.sub) {
          volume_override =
              or_else body.volume_override
                (coalesced one (t.user_settings player.sub)).volume_override;
          audio_enabled =
              or_else body.audio_enabled (coalesced one (t.user_settings player.sub)).audio_enabled;
        })
  unfolding get_me put_settings
  put_get admin player body t name there runs known =
      let row = settings_row one body (t.user_settings player.sub) in
      rw (there, runs, known, put_at_self player.sub row t.user_settings) refl

  get_put :
      (admin player : Claims) (update : Update V) (t : Tables V)
      → works.configured ≡ true
      → works.sql ≡ true
      → is_client update.default_client ≡ true
      → get_settings one works
          (accepted admin)
          player.sub
          (put_player_settings one works (accepted player) update t).1
        ≡ ok_json (player.sub, upserted_row one update (t.user_settings player.sub))
  unfolding get_settings put_player_settings
  get_put admin player update t there runs client =
      let row = upserted_row one update (t.user_settings player.sub) in
      rw (there, runs, client, put_at_self player.sub row t.user_settings) refl

  put_others :
      (admin player : Claims) (body : SettingsUpdate V) (t : Tables V) (k : String)
      → works.configured ≡ true
      → works.sql ≡ true
      → k ≢ player.sub
      → get_settings one works
          (accepted admin)
          k
          (put_settings one works (accepted admin) player.sub body t).1
        ≡ get_settings one works (accepted admin) k t
  unfolding get_settings put_settings
  put_others admin player body t k there runs other =
      let row = settings_row one body (t.user_settings player.sub) in
      rw (there, runs, put_at_others player.sub k row t.user_settings other) refl

  -- An admin and a player who has a row in `players` change the same settings. While there is a
  -- database that answers: the profile that the player loads after an admin's change has the volume and
  -- the switch that the admin gave, keeps what the admin left out, and is otherwise as before; what an
  -- admin loads after the player's save, if that names one of the two clients or none, is the row that
  -- the save leaves; and an admin's change leaves the settings of all others as they were.
  pub settings_shared :
      (admin player : Claims) (body : SettingsUpdate V) (update : Update V) (t : Tables V)
      (name : String)
      → works.configured ≡ true
      → works.sql ≡ true
      → is_client update.default_client ≡ true
      → t.players player.sub ≡ some name
      → (get_me one works
            (accepted player)
            (put_settings one works (accepted admin) player.sub body t).1
          ≡ ok_json (record (profile_of one works t player.sub) {
            volume_override =
                or_else body.volume_override
                  (coalesced one (t.user_settings player.sub)).volume_override;
            audio_enabled =
                or_else body.audio_enabled
                  (coalesced one (t.user_settings player.sub)).audio_enabled;
          }))
        × (get_settings one works
              (accepted admin)
              player.sub
              (put_player_settings one works (accepted player) update t).1
            ≡ ok_json (player.sub, upserted_row one update (t.user_settings player.sub)))
        × ((k : String)
            → k ≢ player.sub
            → get_settings one works
                (accepted admin)
                k
                (put_settings one works (accepted admin) player.sub body t).1
              ≡ get_settings one works (accepted admin) k t)
  settings_shared admin player body update t name there runs client known = (
    put_get admin player body t name there runs known,
    get_put admin player update t there runs client,
    λ k other. put_others admin player body t k there runs other,
  )
