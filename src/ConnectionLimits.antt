-- ===== src/ConnectionLimits.antt =====
-- dawos_agent/services/connection_limits.py and the endpoints of dawos_agent/routers/limits_router.py.
-- The configuration path is not overridden.
pub mod Lines
pub mod Given
pub mod Kept
pub mod SetGet
pub mod Put
mod Tests
use dawos_agent.Prelude.{
  ℕ, Text, codes, text_eq, Bool, true, false, ◌==◌, ◌||◌, ◌&&◌, Option, none, some, List, [], ◌∷◌,
  ◌++◌, Result, ok, err, if◌then◌else◌,
}
use dawos_agent.Prelude.Exec.{Exec, pure, ◌>>=◌, continue}
use dawos_agent.Prelude.Texts.{strip}
use dawos_agent.Prelude.Texts.Lines.{lines_of}
use dawos_agent.Prelude.Texts.Numbers.{decimal}
use dawos_agent.Checkpoint.{catch_missing, Endpoint}
use dawos_agent.ConfigManager.{State, Failure, Run, read_config, write_config, reload_config}
use dawos_agent.Sections.{is_header, opens, key_rest, key_number, is_some, new_content}

pub record Limits : Type 0 where
  pub max_sessions : ℕ
  pub max_starting : ℕ
  pub session_timeout : ℕ

abbrev pub pppoe : Text
pppoe = codes "[pppoe]"

abbrev pub opens_general : Text → Bool
opens_general line = opens (codes "[common]") line || opens (codes "[general]") line

abbrev pub number_or : ℕ → Option ℕ → ℕ
number_or n none = n
number_or n (some m) = m

-- What one line that is no header changes, in the two kinds of sections.
abbrev pub read_line : Text → Bool → Bool → Limits → Limits
read_line line in_pppoe in_general r = record {
  max_sessions =
      if in_pppoe
      then number_or r.max_sessions (key_number (codes "max-sessions") line)
      else r.max_sessions;
  max_starting =
      if in_pppoe
      then number_or r.max_starting (key_number (codes "max-starting") line)
      else r.max_starting;
  session_timeout =
      if in_general
      then number_or r.session_timeout (key_number (codes "session-timeout") line)
      else r.session_timeout;
}

-- The loop of `get_limits`.
unfoldable pub read_limits : List Text → Bool → Bool → Limits → Limits
read_limits [] in_pppoe in_general r = r
read_limits (raw ∷ lines) in_pppoe in_general r =
    read_limits lines (if is_header (strip raw) then opens pppoe (strip raw) else in_pppoe)
      (if is_header (strip raw) then opens_general (strip raw) else in_general)
      (if is_header (strip raw) then r else read_line (strip raw) in_pppoe in_general r)

abbrev no_limits : Limits
no_limits = record { max_sessions = 0; max_starting = 0; session_timeout = 0 }

unfoldable pub limits_of : Text → Limits
limits_of content = read_limits (lines_of content) false false no_limits

unfoldable pub get_limits : Run Limits
get_limits = do content ← read_config; pure (limits_of content)

abbrev pub sessions_line : ℕ → Text
sessions_line n = codes "max-sessions=" ++ decimal n

abbrev pub starting_line : ℕ → Text
starting_line n = codes "max-starting=" ++ decimal n

-- A line for a value that is given and was not set yet, in front of the other lines.
unfoldable pub inject : (ℕ → Text) → Option ℕ → Bool → List Text → List Text
inject line none set out = out
inject line (some n) set out = if set then out else line n ∷ out

-- At the end of the section.
unfoldable pub inject_missing : Option ℕ → Option ℕ → Bool → Bool → Bool → List Text → List Text
inject_missing max_sessions max_starting in_pppoe ms_set mst_set out =
    if in_pppoe
    then inject sessions_line max_sessions ms_set (inject starting_line max_starting mst_set out)
    else out

abbrev pub sets_key : Option ℕ → Text → Text → Bool
sets_key none key line = false
sets_key (some n) key line = is_some (key_rest key line)

abbrev pub given : Option ℕ → ℕ
given none = 0
given (some n) = n

-- The loop of `set_limits`; `given` is used only where a value is.
unfoldable pub edit_limits : Option ℕ → Option ℕ → List Text → Bool → Bool → Bool → List Text
edit_limits max_sessions max_starting [] in_pppoe ms_set mst_set =
    inject_missing max_sessions max_starting in_pppoe ms_set mst_set []
edit_limits max_sessions max_starting (raw ∷ lines) in_pppoe ms_set mst_set =
    let after_header =
      edit_limits max_sessions max_starting lines (opens pppoe (strip raw)) false false in
    let after_sessions = edit_limits max_sessions max_starting lines in_pppoe true mst_set in
    let after_starting = edit_limits max_sessions max_starting lines in_pppoe ms_set true in
    let after_other = edit_limits max_sessions max_starting lines in_pppoe ms_set mst_set in
    if is_header (strip raw)
    then inject_missing max_sessions max_starting in_pppoe ms_set mst_set (raw ∷ after_header)
    else if in_pppoe && sets_key max_sessions (codes "max-sessions") (strip raw)
    then sessions_line (given max_sessions) ∷ after_sessions
    else if in_pppoe && sets_key max_starting (codes "max-starting") (strip raw)
    then starting_line (given max_starting) ∷ after_starting
    else raw ∷ after_other

unfoldable pub edited : Option ℕ → Option ℕ → Text → Text
edited max_sessions max_starting content =
    new_content (edit_limits max_sessions max_starting (lines_of content) false false false)

unfoldable pub set_limits : Option ℕ → Option ℕ → Text → Run (Option Text)
set_limits max_sessions max_starting ts = do
  content ← read_config
  write_config (edited max_sessions max_starting content) true ts

-- The body of `PUT /api/v1/limits`: a reload that fails is logged only.
unfoldable pub update_limits : Option ℕ → Option ℕ → Text → Bool → Run Limits
update_limits max_sessions max_starting ts answers = do
  made ← set_limits max_sessions max_starting ts
  (λ s. get_limits (reload_config answers s).1)

unfoldable pub put_limits : Option ℕ → Option ℕ → Text → Bool → Endpoint Limits
put_limits max_sessions max_starting ts answers s = (
  catch_missing (update_limits max_sessions max_starting ts answers s).0,
  (update_limits max_sessions max_starting ts answers s).1,
)

-- `GET /api/v1/limits`
unfoldable pub limits_endpoint : Endpoint Limits
limits_endpoint s = (catch_missing (get_limits s).0, (get_limits s).1)
