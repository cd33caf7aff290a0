-- ===== src/Nav.antt =====
-- portal/components/nav.tsx: the links beside the pages of the admin portal, and which of them is
-- shown as active.
pub mod Laws
use audio_server.Common.{
  Bool, List, Option, String, [], map, none, some, starts_with, str_eq, template, ℕ, ◌||◌, ◌∷◌,
}

pub record NavLink : Type 0 where
  pub href : String
  pub label : String
  pub phase : Option ℕ

abbrev pub links : List NavLink
links =
    record { href = "/dashboard"; label = "Dashboard"; phase = none }
    ∷ record { href = "/sessions"; label = "Sessions"; phase = none }
    ∷ record { href = "/regions"; label = "Audio Regions"; phase = none }
    ∷ record { href = "/media"; label = "Media Library"; phase = none }
    ∷ record { href = "/settings"; label = "Player Settings"; phase = none }
    ∷ record { href = "/events"; label = "Activity"; phase = none }
    ∷ record { href = "/hardware"; label = "Hardware"; phase = some 3 }
    ∷ []

unfoldable pub is_active : String → String → Bool
is_active pathname href = str_eq pathname href || starts_with pathname (template (href ∷ "/" ∷ []))

-- A link as it is shown: lit up if it is active, with the number of its phase if it has one.
pub record Shown : Type 0 where
  pub href : String
  pub label : String
  pub active : Bool
  pub phase : Option ℕ

unfoldable pub nav : String → List Shown
nav pathname =
    map
      (λ (l : NavLink). record {
        href = l.href;
        label = l.label;
        active = is_active pathname l.href;
        phase = l.phase;
      })
      links
