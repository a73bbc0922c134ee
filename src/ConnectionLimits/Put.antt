-- ===== src/ConnectionLimits/Put.antt =====
-- What is read after the limits were set.
use dawos_agent.Prelude.{
  ℕ, Text, text_eq, nat_eq, Bool, true, false, Option, none, some, ok, err, ◌≡◌, refl, ap, ◌∙◌,
}
use dawos_agent.Prelude.Dict.{get, get-put_self}
use dawos_agent.Prelude.Texts.Lines.{lines_of}
use dawos_agent.ConfigManager.{State, write_config, reload_config, backup_name}
use dawos_agent.Sections.{has_section}
use dawos_agent.Sections.Saves.{edit_saves, reload_keeps, then_some, then_none}
use dawos_agent.Sections.Headers.{any_header, Keeps-any_header, written}
use dawos_agent.ConnectionLimits.{
  limits_of, get_limits, edited, set_limits, update_limits, put_limits,
}
use dawos_agent.ConnectionLimits.Given.{in_pppoe}
use dawos_agent.ConnectionLimits.Kept.{edit-Keeps_timeout}
use dawos_agent.ConnectionLimits.SetGet.{out_lines, replaced, limits_of-edited}

headers-out_lines :
    (ms mst : Option ℕ) (content : Text)
    → any_header (out_lines ms mst content) ≡ any_header (lines_of content)
headers-out_lines ms mst content =
    Keeps-any_header
      (edit-Keeps_timeout ms mst (lines_of content) false false false false (λ e. refl))

set_limits_lem :
    (ms mst : Option ℕ) (ts content : Text) (s : State)
    → s.config ≡ some content
    → any_header (lines_of content) ≡ true
    → set_limits ms mst ts s
      ≡ (ok (some (backup_name ts)), written ts content (out_lines ms mst content) s)
unfolding set_limits edited
set_limits_lem ms mst ts content s had sections =
    edit_saves (λ c. out_lines ms mst c) ts content s had
      (headers-out_lines ms mst content ∙ sections)

get_limits_lem :
    (s : State) (content : Text)
    → s.config ≡ some content
    → get_limits s ≡ (ok (limits_of content), s)
unfolding get_limits
get_limits_lem s content had = then_some (λ c s'. (ok (limits_of c), s')) s content had

-- The state after the lines were written and the daemon was told.
abbrev pub after_put : Option ℕ → Option ℕ → Text → Bool → Text → State → State
after_put ms mst ts answers content s =
    (reload_config answers (written ts content (out_lines ms mst content) s)).1

-- `PUT /api/v1/limits` on a configuration with some section answers with the limits that were asked
-- for, where there is a [pppoe] section, and with the old ones where there is none; the session
-- timeout stays. The file holds the edited text and the backup the old one, whether the
-- daemon answers the reload or not.
pub put_limits-reads_back :
    (ms mst : Option ℕ) (ts : Text) (answers : Bool) (s : State) (content : Text)
    → s.config ≡ some content
    → any_header (lines_of content) ≡ true
    → ((put_limits ms mst ts answers s).0
        ≡ ok (record {
          max_sessions =
              replaced ms
                (has_section in_pppoe (lines_of content))
                (limits_of content).max_sessions;
          max_starting =
              replaced mst
                (has_section in_pppoe (lines_of content))
                (limits_of content).max_starting;
          session_timeout = (limits_of content).session_timeout;
        }))
      × ((put_limits ms mst ts answers s).1.config ≡ some (edited ms mst content))
      × (get (backup_name ts) (put_limits ms mst ts answers s).1.backups ≡ some content)
unfolding put_limits update_limits
put_limits-reads_back ms mst ts answers s content had sections =
    let saved = set_limits_lem ms mst ts content s had sections in
    let disk = reload_keeps answers (written ts content (out_lines ms mst content) s) in
    let now : (after_put ms mst ts answers content s).config ≡ some (edited ms mst content) =
      disk.0 ∙ unfold written edited in refl in
    let backup : get (backup_name ts) (after_put ms mst ts answers content s).backups
        ≡ some content =
      ap (get (backup_name ts)) disk.1
      ∙ unfold written in get-put_self (backup_name ts) content s.backups in
    rw (saved, get_limits_lem (after_put ms mst ts answers content s) (edited ms mst content) now)
      (ap ok (limits_of-edited ms mst content), now, backup)

-- With no configuration file, the endpoint answers 404 and changes nothing.
pub put_limits_missing :
    (ms mst : Option ℕ) (ts : Text) (answers : Bool) (s : State)
    → s.config ≡ none
    → put_limits ms mst ts answers s ≡ (err 404, s)
unfolding put_limits update_limits set_limits
put_limits_missing ms mst ts answers s missing =
    rw (then_none (λ content. write_config (edited ms mst content) true ts) s missing) refl
