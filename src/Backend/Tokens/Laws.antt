-- ===== src/Backend/Tokens/Laws.antt =====
-- The keys of Redis.
use Prim.Native.String
use text.Mathlib.TextLemmas.{append_assoc}
use text.Mathlib.TextPositions.{slice-append_left}
use audio_server.Common.{String, ap, arith, false, str_eq, sym, true, ◌∙◌, ◌≡◌, ◌≢◌}
use audio_server.Backend.Tokens.{key_of, portal, ticket}

-- How the key of a link and that of a ticket begin.
portal_start : (link : String) → String.slice (key_of portal link) 0 2 ≡ "au"
portal_start link =
    ap (λ (s : String). String.slice s 0 2)
      (append_assoc "au" "dio:portal:token:" (String.◌++◌ link ""))
    ∙ slice-append_left "au" (String.◌++◌ "dio:portal:token:" (String.◌++◌ link ""))

ticket_start : (id : String) → String.slice (key_of ticket id) 0 2 ≡ "ad"
ticket_start id =
    ap (λ (s : String). String.slice s 0 2) (append_assoc "ad" "min:ticket:" (String.◌++◌ id ""))
    ∙ slice-append_left "ad" (String.◌++◌ "min:ticket:" (String.◌++◌ id ""))

pub portal-ne-ticket : (link id : String) → key_of portal link ≢ key_of ticket id
portal-ne-ticket link id e =
    let starts =
      sym (portal_start link) ∙ ap (λ (s : String). String.slice s 0 2) e ∙ ticket_start id in
    let differ : false ≡ true = ap (λ (s : String). str_eq s "ad") starts in absurd (ground arith)
