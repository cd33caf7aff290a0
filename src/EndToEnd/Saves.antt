-- ===== src/EndToEnd/Saves.antt =====
-- A save of a player's preferences, from the form of the portal's page to the tables of the relay and
-- back. The portal's handler in between passes the request and its answer on.
pub mod Route
use audio_server.Common.{
  Bool, Bool-cases, [], ◌∷◌, if◌then◌else◌, inl, inr, str_eq, ◌&&◌, Option, String, ap, false,
  is_text, none, refl, some, sym, true, ◌∙◌, ◌≡◌, ◌≢◌,
}
use audio_server.Http.{FetchRequest, Fetched, or_else, replied}
use audio_server.Api.{Body, Scalar, bool, null, num, str}
use audio_server.Relay.{header}
use audio_server.Forms.{FormData, Texts, idle, saved}
use audio_server.Preferences.{
  Page, PlayerProfile, ProfilePatch, handle_save, merge, on_saved, save_request, spread,
  text_or_null,
}
use audio_server.Backend.{Claims}
use audio_server.Backend.Jwt.{accepted}
use audio_server.Backend.Players.Laws.{put_at_others, put_at_self}
use audio_server.Backend.Players.{
  coalesced, profile_row, Profile, Response, Saved, Tables, Update, Works, after_save, failed_with,
  get_me, is_client, ok_json, profile_of, put_player_settings, redis_get_default, saved_row,
  upserted_row, with_pref,
}
use audio_server.EndToEnd.Saves.Route.{
  all_work, answer, patch_of, put_body, read_text, received, save_route, saving, settled, shown,
}

module _ {V : Type 0} (one : V) (texts : Texts V) (finite : V → Bool) where
  abbrev volume_of : FormData → V
  volume_of fd = texts.parse_float (fd "volume")

  abbrev update_of : FormData → Update V
  update_of fd = record {
    volume_override = if finite (volume_of fd) then some (volume_of fd) else none;
    audio_enabled = some (is_text (fd "audio_enabled") "on");
    default_client = fd "default_client";
  }

  read-text_or_null : (o : Option String) → read_text (text_or_null {V = V} o) ≡ some o
  read-text_or_null none = refl
  read-text_or_null (some s) = refl

  save_route-save :
      (works : Works) (c : Claims) (fd : FormData) (t : Tables V)
      → save_route one texts finite works c (save_request texts fd) t
        ≡ put_player_settings one works (accepted c) (update_of fd) t
  unfolding save_route received header
  save_route-save works c fd t = rw (read-text_or_null (fd "default_client")) refl

  settled-save :
      (works : Works) (c : Claims) (fd : FormData) (p : Page V) (t : Tables V) (d : PlayerProfile V)
      → p.profile ≡ some d
      → saving one texts finite works c fd p t ≡ (
          let (r, t') = put_player_settings one works (accepted c) (update_of fd) t in
          (
            on_saved
                (answer r)
                (record p { save_msg = idle; pending = some (save_request texts fd) }),
            t',
          ))
  unfolding handle_save
  settled-save works c fd p t d e = rw (e, save_route-save works c fd t) refl

  saved_page :
      (s : Saved V) (p : Page V)
      → on_saved (answer (ok_json s)) p
        ≡ record p { profile = merge (patch_of s) p.profile; save_msg = saved; pending = none }
  unfolding on_saved
  saved_page s p = refl

  -- What is loaded after a save, of a player who has a row in `players`.
  reloaded :
      (works : Works) (fd : FormData) (sub name : String) (t : Tables V)
      → t.players sub ≡ some name
      → profile_of one works (after_save one works (update_of fd) sub t) sub ≡ record {
        uuid = sub;
        username = name;
        volume_override = (saved_row one works (update_of fd) sub t).volume_override;
        audio_enabled = is_text (fd "audio_enabled") "on";
        default_client = (saved_row one works (update_of fd) sub t).default_client;
      }
  reloaded works fd sub name t known =
      rw
        (
          known,
          put_at_self sub (upserted_row one (update_of fd) (t.user_settings sub)) t.user_settings,
        )
        refl

  known_name :
      (works : Works) (sub name : String) (t : Tables V)
      → t.players sub ≡ some name
      → (profile_of one works t sub).username ≡ name
  known_name works sub name t known = rw known refl

  with_pref-others :
      (ok : Bool) (o : Option String) (sub k : String) (prefs : String → Option String)
      → k ≢ sub
      → with_pref ok o sub prefs k ≡ prefs k
  with_pref-others ok none sub k prefs other = refl
  with_pref-others false (some dc) sub k prefs other = refl
  with_pref-others true (some dc) sub k prefs other = put_at_others sub k dc prefs other

  others_keep :
      (works : Works) (fd : FormData) (sub k : String) (t : Tables V)
      → k ≢ sub
      → profile_of one works (after_save one works (update_of fd) sub t) k
        ≡ profile_of one works t k
  unfolding redis_get_default
  others_keep works fd sub k t other =
      rw
        (
          put_at_others sub k (upserted_row one (update_of fd) (t.user_settings sub))
              t.user_settings other,
          with_pref-others works.redis_set (fd "default_client") sub k t.prefs other,
        )
        refl

  client_after :
      (o : Option String) (sub : String) (prefs : String → Option String)
      → redis_get_default true (with_pref true o sub prefs) sub
        ≡ or_else o (redis_get_default true prefs sub)
  unfolding redis_get_default
  client_after none sub prefs = refl
  client_after (some dc) sub prefs = rw (put_at_self sub dc prefs) refl

  accepted_save :
      (works : Works) (c : Claims) (fd : FormData) (t : Tables V)
      → works.configured ≡ true
      → works.sql ≡ true
      → is_client (fd "default_client") ≡ true
      → put_player_settings one works (accepted c) (update_of fd) t ≡ (
        ok_json (saved_row one works (update_of fd) c.sub t),
        after_save one works (update_of fd) c.sub t,
      )
  unfolding put_player_settings
  accepted_save works c fd t there runs client = rw (there, client, runs) refl

  saved_profile :
      (fd : FormData) (c : Claims) (name : String) (t : Tables V)
      → t.players c.sub ≡ some name
      → (p : Page V) → p.profile ≡ some (shown (profile_of one all_work t c.sub))
      → (on_saved (answer (ok_json (saved_row one all_work (update_of fd) c.sub t))) p).profile
        ≡ some
            (shown (profile_of one all_work (after_save one all_work (update_of fd) c.sub t) c.sub))
  unfolding spread
  saved_profile fd c name t known p on_page =
      let s = saved_row one all_work (update_of fd) c.sub t in
      ap (λ (q : Page V). q.profile) (saved_page s p)
      ∙ ap (λ (o : Option (PlayerProfile V)). merge (patch_of s) o) on_page
      ∙ ap
          (λ (n : String). some (record {
            uuid = c.sub;
            username = n;
            volume_override = s.volume_override;
            audio_enabled = s.audio_enabled;
            default_client = s.default_client;
          }))
          (known_name all_work c.sub name t known)
      ∙ sym (ap (λ (d : Profile V). some (shown d)) (reloaded all_work fd c.sub name t known))

  known_volume :
      (works : Works) (sub name : String) (t : Tables V)
      → t.players sub ≡ some name
      → (profile_of one works t sub).volume_override
        ≡ (coalesced one (t.user_settings sub)).volume_override
  known_volume works sub name t known =
      ap (λ (o : Option String). (profile_row one o (t.user_settings sub)).1.volume_override) known

  volume_after :
      (works : Works) (fd : FormData) (sub name : String) (t : Tables V)
      → t.players sub ≡ some name
      → (saved_row one works (update_of fd) sub t).volume_override ≡ (
          if finite (volume_of fd)
          then volume_of fd
          else (profile_of one works t sub).volume_override)
  volume_after works fd sub name t known = elim (Bool-cases (finite (volume_of fd))) [
    | inl e ↦ rw e refl
    | inr e ↦ rw e (sym (known_volume works sub name t known))
  ]

  -- A player whose save succeeds sees what is kept. Where the relay has the player in `players`, its
  -- database and Redis answer, and the form names one of the two clients or none, then the profile on
  -- the page after the save is the one that the page would load next: it has the switch of the form,
  -- its volume if that is a number, and else the volume of before, the client of the form, or the one
  -- of before if the form has none, and the same name. The profiles of all other players are as before.
  pub save_agrees :
      (c : Claims) (fd : FormData) (p : Page V) (t : Tables V) (name : String)
      → t.players c.sub ≡ some name
      → is_client (fd "default_client") ≡ true
      → p.profile ≡ some (shown (profile_of one all_work t c.sub))
      → (d : Profile V) × (get_me one all_work
            (accepted c)
            (saving one texts finite all_work c fd p t).1
          ≡ ok_json d)
        × ((saving one texts finite all_work c fd p t).0.profile ≡ some (shown d))
        × (d.username ≡ name)
        × (d.volume_override ≡ (
            if finite (texts.parse_float (fd "volume"))
            then texts.parse_float (fd "volume")
            else (profile_of one all_work t c.sub).volume_override))
        × (d.audio_enabled ≡ is_text (fd "audio_enabled") "on")
        × (d.default_client
            ≡ or_else (fd "default_client") (profile_of one all_work t c.sub).default_client)
        × ((k : String)
            → k ≢ c.sub
            → profile_of one all_work (saving one texts finite all_work c fd p t).1 k
              ≡ profile_of one all_work t k)
  unfolding get_me
  save_agrees c fd p t name known client on_page =
      let path = settled-save all_work c fd p t _ on_page in
      let done = accepted_save all_work c fd t refl refl client in
      let after = after_save one all_work (update_of fd) c.sub t in
      let next = reloaded all_work fd c.sub name t known in
      let waiting = record p { save_msg = idle; pending = some (save_request texts fd) } in
      rw (path, done)
        (
          profile_of one all_work after c.sub,
          refl,
          saved_profile fd c name t known waiting on_page,
          ap (λ (d : Profile V). d.username) next,
          ap (λ (d : Profile V). d.volume_override) next
              ∙ volume_after all_work fd c.sub name t known,
          ap (λ (d : Profile V). d.audio_enabled) next,
          client_after (fd "default_client") c.sub t.prefs,
          λ k other. others_keep all_work fd c.sub k t other,
        )
