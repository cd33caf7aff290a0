-- ===== src/Nav/Laws.antt =====
-- What the links beside the pages of the portal promise: that one is active at most, and that the
-- proxy guards the pages that they stand for.
use mathlib.Core.Path.{subst}
use text.Mathlib.TextEquality.{starts_with_iff}
use text.Mathlib.TextLemmas.{append-nil, append_assoc}
use Prim.Native.String
use audio_server.Common.{
  All, Bool, Bool-cases, List, String, [], agree, any, ap, arith, eq_iff, false, if◌then◌else◌, inl,
  inr, map, refl, starts_apart, starts_with, str_eq, sym, template, true, ℕ, ◌∙◌, ◌∷◌, ◌↔◌, ◌≡◌,
  ◌≢◌, ◌⊎◌,
}
use audio_server.Http.{Env}
use audio_server.Http.Cookies.{Jar}
use audio_server.Auth.{Jose}
use audio_server.Proxy.{admin_authed, admin_prefixes, has_prefix, next, player_authed, proxy}
use audio_server.Proxy.Laws.{MayPass, proxy-next_iff}
use audio_server.Nav.{NavLink, Shown, is_active, links, nav}

-- The addresses of the links that are lit up.
abbrev pub lit : List Shown → List String
lit [] = []
lit (l ∷ shown) = let rest = lit shown in if l.active then l.href ∷ rest else rest

-- A page is under an address: it is that page, or it is reached by going on from it.
is_active-starts_with :
    (pathname href : String) → is_active pathname href ≡ true → starts_with pathname href ≡ true
unfolding is_active
is_active-starts_with pathname href h = elim (Bool-cases (str_eq pathname href)) [
  | inl same ↦
      rw ((eq_iff pathname href).0 same) ((starts_with_iff href href).1 ("", append-nil href))
  | inr other ↦
      let below : starts_with pathname (template (href ∷ "/" ∷ [])) ≡ true = ground arith in
      let (u, e) = (starts_with_iff pathname (template (href ∷ "/" ∷ []))).0 below in
      (starts_with_iff pathname href).1
        (String.◌++◌ (template ("/" ∷ [])) u, sym (append_assoc href _ u) ∙ e)
]

-- Neither of two addresses begins the other.
abbrev pub Apart : String → String → Type 0
Apart href other = agree href other ≡ false

abbrev pub PairwiseApart : List NavLink → Type 0
PairwiseApart [] = Unit
PairwiseApart (l ∷ ls) = All (λ (m : NavLink). Apart l.href m.href) ls × PairwiseApart ls

shown : String → NavLink → Shown
shown pathname l = record {
  href = l.href;
  label = l.label;
  active = is_active pathname l.href;
  phase = l.phase;
}

lit-none :
    (pathname href : String) (ls : List NavLink)
    → is_active pathname href ≡ true
    → All (λ (m : NavLink). Apart href m.href) ls
    → lit (map (shown pathname) ls) ≡ []
unfolding shown
lit-none pathname href [] h apart = refl
lit-none pathname href (m ∷ ls) h (a, apart) = elim (Bool-cases (is_active pathname m.href)) [
  | inl on ↦ absurd (
      cc (
        starts_apart pathname href m.href a (is_active-starts_with pathname href h),
        is_active-starts_with pathname m.href on,
      ))
  | inr off ↦ rw off (lit-none pathname href ls h apart)
]

-- What holds of the addresses that are active holds of the one that is lit up.
lit-All {ℓ} :
    (pathname : String) (P : String → Type ℓ) (href : String) (ls : List NavLink)
    → lit (map (shown pathname) ls) ≡ href ∷ []
    → All (λ (l : NavLink). is_active pathname l.href ≡ true → P l.href) ls
    → P href
unfolding shown
lit-All pathname P href [] e ps = absurd cc
lit-All pathname P href (l ∷ ls) e (p, ps) = elim (Bool-cases (is_active pathname l.href)) [
  | inl on ↦ let same : l.href ≡ href = ground arith in subst P same (p on)
  | inr off ↦ lit-All pathname P href ls (rw off at e) ps
]

-- The links that are lit up, said by the addresses: none, or the one that the page is under.
abbrev pub OneLit : String → List String → Type 0
OneLit pathname hrefs =
    (hrefs ≡ []) ⊎ ((href : String) × (hrefs ≡ href ∷ []) × (is_active pathname href ≡ true))

lit-OneLit :
    (pathname : String) (ls : List NavLink)
    → PairwiseApart ls
    → OneLit pathname (lit (map (shown pathname) ls))
unfolding shown
lit-OneLit pathname [] p = inl refl
lit-OneLit pathname (l ∷ ls) (apart, p) = elim (Bool-cases (is_active pathname l.href)) [
  | inl on ↦ rw on (inr (l.href, ap (λ r. l.href ∷ r) (lit-none pathname l.href ls on apart), on))
  | inr off ↦ rw off (lit-OneLit pathname ls p)
]

links-apart : PairwiseApart links
links-apart = ground arith

-- A page under one of the addresses that an admin's session is asked for.
module _ (pathname href : String) (h : starts_with pathname href ≡ true) where
  differs : (s : String) → starts_with s href ≡ false → pathname ≢ s
  differs s apart e = let begins = rw e at h in cc apart

  module _ (admin player : Bool) (is_admin : has_prefix admin_prefixes pathname ≡ true)
      (not_root : starts_with "/" href ≡ false) (no_login : starts_with "/login" href ≡ false)
      (no_player_login : starts_with "/auth/player-login" href ≡ false)
      (no_player : agree href "/preferences" ≡ false) where
    MayPass-iff-admin : MayPass admin player pathname ↔ (admin ≡ true)
    unfolding has_prefix
    MayPass-iff-admin = (
      λ m. m.admin_only is_admin,
      λ authed. record {
        not_root = differs "/" not_root;
        admin_only = λ _. authed;
        player_only = λ p.
            let none_begins = rw (starts_apart pathname href "/preferences" no_player h) at p in cc;
        no_login = λ e. absurd (differs "/login" no_login e);
        no_player_login = λ e. absurd (differs "/auth/player-login" no_player_login e);
      },
    )

has_prefix-listed :
    (pathname href : String) (prefixes : List String)
    → any (λ p. str_eq p href) prefixes ≡ true
    → starts_with pathname href ≡ true
    → has_prefix prefixes pathname ≡ true
unfolding has_prefix
has_prefix-listed pathname href [] listed h = listed
has_prefix-listed pathname href (p ∷ prefixes) listed h = elim (Bool-cases (str_eq p href)) [
  | inl same ↦ rw ((eq_iff p href).0 same) (rw h)
  | inr other ↦
      let later = has_prefix-listed pathname href prefixes (rw other at listed) h in ground arith
]

module _ (env : Env) (jose : Jose) (now : ℕ) (jar : Jar) (pathname : String) where
  guarded :
      (href : String)
      → any (λ p. str_eq p href) admin_prefixes ≡ true
      → starts_with "/" href ≡ false
      → starts_with "/login" href ≡ false
      → starts_with "/auth/player-login" href ≡ false
      → agree href "/preferences" ≡ false
      → is_active pathname href ≡ true
      → (proxy env jose now jar pathname ≡ next) ↔ (admin_authed env jose now jar ≡ true)
  guarded href listed root login player_login player active =
      let under = is_active-starts_with pathname href active in
      let passes =
        MayPass-iff-admin pathname href under _ (player_authed env jose now jar)
          (has_prefix-listed pathname href admin_prefixes listed under) root login player_login
          player in
      let decides = proxy-next_iff env jose now jar pathname in
      (λ e. passes.0 (decides.0 e), λ a. decides.1 (passes.1 a))

  -- What is said of the address of each link.
  guarded_links :
      All
        (λ (l : NavLink).
          is_active pathname l.href ≡ true
          → l.href ≢ "/media"
          → (proxy env jose now jar pathname ≡ next) ↔ (admin_authed env jose now jar ≡ true))
        links
  guarded_links = (
    λ active _. guarded "/dashboard" refl refl refl refl refl active,
    (
      λ active _. guarded "/sessions" refl refl refl refl refl active,
      (
        λ active _. guarded "/regions" refl refl refl refl refl active,
        (
          λ active no_media. absurd (no_media refl),
          (
            λ active _. guarded "/settings" refl refl refl refl refl active,
            (
              λ active _. guarded "/events" refl refl refl refl refl active,
              (λ active _. guarded "/hardware" refl refl refl refl refl active, tt),
            ),
          ),
        ),
      ),
    ),
  )

  lit-alone :
      (href : String) (hrefs : List String)
      → OneLit pathname hrefs
      → any (λ h. str_eq h href) hrefs ≡ true
      → hrefs ≡ href ∷ []
  lit-alone href hrefs (inl nothing) is_lit = let never = rw nothing at is_lit in cc
  lit-alone href hrefs (inr (h, alone, _)) is_lit =
      let same = rw alone at is_lit in
      alone ∙ ap (λ (k : String). k ∷ []) ((eq_iff h href).0 (ground arith))

  -- A link that is lit up is the only one, and unless it is the one to the media library, the page is
  -- shown exactly to the browsers with an admin's session.
  nav_guarded :
      (href : String)
      → any (λ h. str_eq h href) (lit (nav pathname)) ≡ true
      → href ≢ "/media"
      → (lit (nav pathname) ≡ href ∷ [])
        × ((proxy env jose now jar pathname ≡ next) ↔ (admin_authed env jose now jar ≡ true))
  unfolding nav shown
  nav_guarded href is_lit no_media =
      let alone = lit-alone href _ (lit-OneLit pathname links links-apart) is_lit in
      (
        alone,
        lit-All pathname
            (λ h.
              h ≢ "/media"
              → (proxy env jose now jar pathname ≡ next) ↔ (admin_authed env jose now jar ≡ true))
            href links alone guarded_links no_media,
      )
