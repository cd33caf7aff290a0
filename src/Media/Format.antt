-- ===== src/Media/Format.antt =====
-- `formatBytes` and `formatAge` of portal/app/(admin)/media/page.tsx, and `formatAge` of
-- portal/app/(admin)/sessions/page.tsx. A text is given by its number and its unit. The numbers of
-- the source are exact: they are whole, or whole numbers divided by a power of two, below 2 ^ 53.
use audio_server.Common.{
  arith, if◌then◌else◌, leb, ltb, ℕ, ◌*◌, ◌+◌, ◌-◌, ◌/◌, ◌<◌, ◌↔◌, ◌≡◌, ◌≤◌, ◌⊎◌,
}

-- `B`, or a number with one decimal, in tenths, and `KB` or `MB`.
pub data Size : Type 0 where
  bytes : ℕ → Size
  kilobytes megabytes : (tenths : ℕ) → Size

-- `(n / d).toFixed(1)` in tenths: the nearest, and the larger of two.
abbrev pub to_fixed_1 : ℕ → ℕ → ℕ
to_fixed_1 n d = (20 * n + d) / (2 * d)

unfoldable pub format_bytes : ℕ → Size
format_bytes n =
    if ltb n 1024
    then bytes n
    else if ltb n (1024 * 1024)
    then kilobytes (to_fixed_1 n 1024)
    else megabytes (to_fixed_1 n (1024 * 1024))

-- The number of a size in tenths of its unit, and the unit in bytes.
abbrev pub tenths : Size → ℕ
tenths (bytes n) = 10 * n
tenths (kilobytes t) = t
tenths (megabytes t) = t

abbrev pub unit : Size → ℕ
unit (bytes n) = 1
unit (kilobytes t) = 1024
unit (megabytes t) = 1048576

-- The size that is shown is within half a tenth of its unit of the true one, and it is in bytes
-- below 1024 bytes and in kilobytes below 1048576 bytes; the sizes that are shown as 1024.0 KB,
-- and not as 1.0 MB, are those from 1048525 to 1048575 bytes.
pub format_bytes_close :
    (n : ℕ)
    → (20 * n ≤ 2 * tenths (format_bytes n) * unit (format_bytes n) + unit (format_bytes n))
      × (2 * tenths (format_bytes n) * unit (format_bytes n) ≤ 20 * n + unit (format_bytes n))
      × ((unit (format_bytes n) ≡ 1) ↔ (n < 1024))
      × ((unit (format_bytes n) ≡ 1024) ↔ ((1024 ≤ n) × (n < 1048576)))
      × ((format_bytes n ≡ kilobytes 10240) ↔ ((1048525 ≤ n) × (n < 1048576)))
unfolding format_bytes
format_bytes_close n = ground arith

pub data Age : Type 0 where
  ahead seconds minutes hours days : ℕ → Age

-- The age from a whole number of seconds, with the days that only the media page has.
unfoldable pub media_age : ℕ → Age
media_age secs =
    if ltb secs 60
    then seconds secs
    else if ltb secs 3600
    then minutes (secs / 60)
    else if ltb secs 86400
    then hours (secs / 3600)
    else days (secs / 86400)

unfoldable pub session_age : ℕ → Age
session_age secs =
    if ltb secs 60
    then seconds secs
    else if ltb secs 3600
    then minutes (secs / 60)
    else hours (secs / 3600)

-- `formatAge` of the media page, in milliseconds; `ahead k` is the text `-ks ago`.
unfoldable pub format_media_age : (now created : ℕ) → Age
unfolding media_age
format_media_age now created =
    if leb created now
    then media_age ((now - created) / 1000)
    else ahead ((created - now + 999) / 1000)

-- `formatAge` of the sessions page, with `now` in milliseconds and `joined_at` in seconds.
unfoldable pub format_session_age : (now joined_at : ℕ) → Age
unfolding session_age
format_session_age now joined_at =
    if leb joined_at (now / 1000)
    then session_age (now / 1000 - joined_at)
    else ahead (joined_at - now / 1000)

-- The seconds that a count of an age's unit stands for, and the unit.
abbrev in_seconds : Age → ℕ
in_seconds (ahead n) = 0
in_seconds (seconds n) = n
in_seconds (minutes n) = 60 * n
in_seconds (hours n) = 3600 * n
in_seconds (days n) = 86400 * n

abbrev age_unit : Age → ℕ
age_unit (ahead n) = 1
age_unit (seconds n) = 1
age_unit (minutes n) = 60
age_unit (hours n) = 3600
age_unit (days n) = 86400

abbrev RoundsDown : Age → ℕ → Type 0
RoundsDown age secs = (in_seconds age ≤ secs) × (secs < in_seconds age + age_unit age)

media_age-RoundsDown : (secs : ℕ) → RoundsDown (media_age secs) secs
unfolding media_age
media_age-RoundsDown secs = ground arith

session_age-RoundsDown : (secs : ℕ) → RoundsDown (session_age secs) secs
unfolding session_age
session_age-RoundsDown secs = ground arith

media_age-unit : (secs : ℕ) → (age_unit (media_age secs) ≤ secs) ⊎ (secs < 60)
unfolding media_age
media_age-unit secs = ground arith

ages_same : (secs : ℕ) → secs < 86400 → media_age secs ≡ session_age secs
unfolding media_age session_age
ages_same secs h = ground arith

format_media_age_past :
    (now created : ℕ)
    → created * 1000 ≤ now
    → format_media_age now (created * 1000) ≡ media_age (now / 1000 - created)
unfolding format_media_age
format_media_age_past now created h =
    let same : (now - created * 1000) / 1000 ≡ now / 1000 - created = omega arith in
    rw (← same) (ground arith)

format_session_age_past :
    (now created : ℕ)
    → created * 1000 ≤ now
    → format_session_age now created ≡ session_age (now / 1000 - created)
unfolding format_session_age
format_session_age_past now created h = ground arith

-- For what lies in the past, `created` seconds after the epoch, both pages show the age rounded down
-- to its unit, the media page a longer unit than the second only for an age of at least one of it,
-- and the two pages agree below a day.
ages_agree :
    (now created : ℕ)
    → created * 1000 ≤ now
    → let secs = now / 1000 - created in
      let media = format_media_age now (created * 1000) in
      let session = format_session_age now created in
      RoundsDown media secs
      × RoundsDown session secs
      × ((age_unit media ≤ secs) ⊎ (secs < 60))
      × (secs < 86400 → media ≡ session)
ages_agree now created h = rw (format_media_age_past now created h) (
    rw (format_session_age_past now created h)
      (media_age-RoundsDown _, session_age-RoundsDown _, media_age-unit _, ages_same _))
