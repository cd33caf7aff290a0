-- ===== src/Forms.antt =====
-- What the forms of the pages portal/app/(admin)/settings/page.tsx and
-- portal/app/(player)/preferences/page.tsx share.
use audio_server.Common.{Option, String}

-- The state of a save: `'idle' | 'saved' | 'error'`.
pub data SaveStatus : Type 0 where
  idle saved save_error : SaveStatus

-- `new FormData(form)`, whose fields here are texts: `none` is a field that is not in it.
abbrev pub FormData : Type 0
FormData = String → Option String

-- What the language's library does to texts; `V` are its numbers.
pub record Texts (V : Type 0) : Type 0 where
  pub trim : String → String
  pub parse_float : Option String → V
