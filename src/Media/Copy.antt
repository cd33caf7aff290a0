-- ===== src/Media/Copy.antt =====
-- `copyRegionUrl` of portal/app/(admin)/media/page.tsx: the text for the clipboard, and the mark
-- "Copied!", which a timer of two seconds takes away again. Times are in milliseconds.
use Prim.Native.Char.{code}
use audio_server.Common.{
  All, Bool, List, Option, String, [], arith, if◌then◌else◌, leb, ltb, none, refl, some, template,
  true, ℕ, ◌&&◌, ◌||◌, ◌+◌, ◌++◌, ◌==◌, ◌∙◌, ◌∷◌, ◌≡◌, ◌≤◌, str_eq,
}
use audio_server.Http.{or_else}

-- `.replace(/\/$/, '')`: a slash at the end is taken off.
unfoldable pub without_slash : String → String
without_slash String.[] = ""
without_slash (String.◌∷◌ c w) =
    let rest = without_slash w in if str_eq w "" && code c == 47 then "" else String.◌∷◌ c rest

-- The text that is copied, with the variable `NEXT_PUBLIC_BACKEND_URL`.
abbrev pub region_url : Option String → String → String
region_url backend_url id =
    template (without_slash (or_else backend_url "http://localhost:3000") ∷ "/media/" ∷ id ∷ [])

-- `copiedId`, and the times at which the timers that were started are due.
pub record Copied : Type 0 where
  pub copied_id : Option String
  pub due : List ℕ

abbrev pub nothing_copied : Copied
nothing_copied = record { copied_id = none; due = [] }

abbrev pub all_after : ℕ → List ℕ → Bool
all_after now [] = true
all_after now (d ∷ due) = ltb now d && all_after now due

abbrev pub still_due : ℕ → List ℕ → List ℕ
still_due now [] = []
still_due now (d ∷ due) = let rest = still_due now due in if leb d now then rest else d ∷ rest

-- The timers that are due until `now` have run.
unfoldable pub elapse : ℕ → Copied → Copied
elapse now c = record {
  copied_id = if all_after now c.due then c.copied_id else none;
  due = still_due now c.due;
}

-- The clipboard has taken the text for `id` at `now`.
unfoldable pub copy : ℕ → String → Copied → Copied
copy now id c = record { copied_id = some id; due = (elapse now c).due ++ (now + 2000) ∷ [] }

unfoldable pub copies : List (ℕ × String) → Copied → Copied
copies [] c = c
copies ((now, id) ∷ rest) c = copies rest (copy now id c)

-- A timer that is due at `d` runs until `t`, or after `now`.
abbrev pub spares : ℕ → ℕ → ℕ → Bool
spares t now d = leb d t || ltb now d

abbrev pub all_spare : ℕ → ℕ → List ℕ → Bool
all_spare t now [] = true
all_spare t now (d ∷ due) = spares t now d && all_spare t now due

abbrev pub timers_spare : ℕ → ℕ → List (ℕ × String) → Bool
timers_spare t now [] = true
timers_spare t now ((at, id) ∷ rest) = spares t now (at + 2000) && timers_spare t now rest

all_after-still_due :
    (t now : ℕ) (due : List ℕ) → all_after now (still_due t due) ≡ all_spare t now due
all_after-still_due t now [] = refl
all_after-still_due t now (d ∷ due) = ground (arith, all_after-still_due t now due)

all_spare-still_due :
    (t t' now : ℕ) (due : List ℕ)
    → t' ≤ t
    → all_spare t now (still_due t' due) ≡ all_spare t now due
all_spare-still_due t t' now [] h = refl
all_spare-still_due t t' now (d ∷ due) h = ground (arith, all_spare-still_due t t' now due h)

all_spare-append :
    (t now : ℕ) (due : List ℕ) (d : ℕ)
    → all_spare t now (due ++ d ∷ []) ≡ all_spare t now due && spares t now d
all_spare-append t now [] d = ground arith
all_spare-append t now (e ∷ due) d = ground (arith, all_spare-append t now due d)

all_after-append :
    (now : ℕ) (due : List ℕ) (d : ℕ)
    → all_after now (due ++ d ∷ []) ≡ all_after now due && ltb now d
all_after-append now [] d = ground arith
all_after-append now (e ∷ due) d = ground (arith, all_after-append now due d)

copies-all_spare :
    (t now : ℕ) (cs : List (ℕ × String)) (c : Copied)
    → All (λ x. x.0 ≤ t) cs
    → all_spare t now (copies cs c).due ≡ all_spare t now c.due && timers_spare t now cs
unfolding copies copy elapse
copies-all_spare t now [] c h = ground arith
copies-all_spare t now ((at, id) ∷ cs) c (before, h) =
    copies-all_spare t now cs (copy at id c) h
    ∙ rw
        (
          all_spare-append t now (still_due at c.due) (at + 2000),
          all_spare-still_due t at now c.due before,
        )
        (ground arith)

copies-append :
    (cs : List (ℕ × String)) (t : ℕ) (id : String) (c : Copied)
    → copies (cs ++ (t, id) ∷ []) c ≡ copy t id (copies cs c)
unfolding copies
copies-append [] t id c = refl
copies-append ((at, other) ∷ cs) t id c = copies-append cs t id (copy at other c)

-- After copies at the times of `cs` and one of `id` at `t`, which is not before any of them, the page
-- marks at `now` the entry `id` if less than two seconds have passed since `t`, and each of the
-- earlier copies was two seconds or more before `t`, or less than two seconds before `now`; otherwise
-- it marks none. So an earlier copy takes the mark of a later one away before its time.
mark_shown :
    (cs : List (ℕ × String)) (t now : ℕ) (id : String)
    → All (λ x. x.0 ≤ t) cs
    → (elapse now (copies (cs ++ (t, id) ∷ []) nothing_copied)).copied_id
      ≡ (if timers_spare t now cs && ltb now (t + 2000) then some id else none)
unfolding copy elapse
mark_shown cs t now id h =
    rw
      (
        copies-append cs t id nothing_copied,
        all_after-append now (still_due t (copies cs nothing_copied).due) (t + 2000),
        all_after-still_due t now (copies cs nothing_copied).due,
        copies-all_spare t now cs nothing_copied h,
      )
      refl
