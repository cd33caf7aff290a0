-- ===== src/Common/Text.antt =====
-- Texts: template literals, `Array.join`, and texts with a common beginning.
use Prim.Native.Char.{code}
use Prim.Native.String
use Prim.Native.String.{String, [], ◌∷◌}
use mathlib.Core.List.{List}
use mathlib.Core.Logic.{inl, inr, ◌↔◌}
use mathlib.Core.Option.{Option, none, some}
use mathlib.Core.Path.{◌≡◌, refl, sym, ap, ◌∙◌}
use mathlib.Core.Bool.{Bool, true, false, ◌&&◌}
use native.Mathlib.Omega.{arith}
use text.Mathlib.Text.{starts_with, ◌==◌}
use text.Mathlib.TextEquality.{starts_with_iff, eq_iff}
use text.Mathlib.TextLemmas.{cons-append, head-eq_of_cons-eq, tail-eq_of_cons-eq}
use audio_server.Common.Tests.{Bool-cases, ◌==◌ as nat_eq}

-- A template literal: its parts, one after the other.
abbrev pub template : List String → String
template List.[] = ""
template (List.◌∷◌ s parts) = String.◌++◌ s (template parts)

-- `parts.join(sep)`
abbrev pub join : String → List String → String
join sep List.[] = ""
join sep (List.◌∷◌ s List.[]) = s
join sep (List.◌∷◌ s (List.◌∷◌ t parts)) =
    String.◌++◌ s (String.◌++◌ sep (join sep (List.◌∷◌ t parts)))

-- `text === value`, for a value that may be `undefined`.
abbrev pub is_text : Option String → String → Bool
is_text none s = false
is_text (some t) s = t == s

pub is_text_iff : (o : Option String) (s : String) → (is_text o s ≡ true) ↔ (o ≡ some s)
is_text_iff none s = ground arith
is_text_iff (some t) s = ground (arith, eq_iff t s)

-- Whether one of two texts begins the other.
abbrev pub agree : String → String → Bool
agree [] v = true
agree (c ∷ w) [] = true
agree (c ∷ w) (d ∷ v) = nat_eq (code c) (code d) && agree w v

agree_of_append : (w v u u' : String) → String.◌++◌ w u ≡ String.◌++◌ v u' → agree w v ≡ true
agree_of_append [] v u u' h = refl
agree_of_append (c ∷ w) [] u u' h = refl
agree_of_append (c ∷ w) (d ∷ v) u u' h =
    let e = sym (cons-append c w u) ∙ h ∙ cons-append d v u' in
    ground (arith, ap code (head-eq_of_cons-eq e), agree_of_append w v u u' (tail-eq_of_cons-eq e))

-- A text that begins by `w` does not begin by `v` if neither of the two begins the other.
pub starts_apart :
    (s w v : String) → agree w v ≡ false → starts_with s w ≡ true → starts_with s v ≡ false
starts_apart s w v apart h = elim (Bool-cases (starts_with s v)) [
  | inl e ↦
      let (u, p) = (starts_with_iff s w).0 h in
      let (u', q) = (starts_with_iff s v).0 e in cc (agree_of_append w v u u' (p ∙ sym q))
  | inr e ↦ e
]
