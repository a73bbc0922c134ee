-- ===== src/Sections/Saves.antt =====
-- Reading the configuration, editing its lines, and writing it with a backup.
use dawos_agent.Prelude.{
  Text, Bool, true, false, Option, none, some, List, ◌∷◌, ◌≡◌, refl, ap, ◌∙◌, ok, err,
}
use dawos_agent.Prelude.Exec.{continue, ◌>>=◌}
use dawos_agent.ConfigManager.{
  State, Run, file_not_found, read_config, write_config, reload_config, backup_name,
}
use dawos_agent.Sections.{new_content}
use dawos_agent.Sections.Headers.{any_header, written, write_config-new_content}

pub read_config-some :
    (s : State) (content : Text) → s.config ≡ some content → read_config s ≡ (ok content, s)
unfolding read_config
read_config-some s content had =
    ap (λ c. elim c [ none ↦ (err file_not_found, s) | some t ↦ (ok t, s) ]) had

pub read_config-none : (s : State) → s.config ≡ none → read_config s ≡ (err file_not_found, s)
unfolding read_config
read_config-none s missing =
    ap (λ c. elim c [ none ↦ (err file_not_found, s) | some t ↦ (ok t, s) ]) missing

-- What follows the reading.
pub then_some :
    {A : Type 0} (f : Text → Run A) (s : State) (content : Text)
    → s.config ≡ some content
    → (read_config >>= f) s ≡ f content s
then_some f s content had = ap (λ r. continue r.0 f r.1) (read_config-some s content had)

pub then_none :
    {A : Type 0} (f : Text → Run A) (s : State)
    → s.config ≡ none
    → (read_config >>= f) s ≡ (err file_not_found, s)
then_none f s missing = ap (λ r. continue r.0 f r.1) (read_config-none s missing)

-- An edit that leaves a header is written, and the old text is the backup.
pub edit_saves :
    (edit : Text → List Text) (ts content : Text) (s : State)
    → s.config ≡ some content
    → any_header (edit content) ≡ true
    → (read_config >>= λ c. write_config (new_content (edit c)) true ts) s
      ≡ (ok (some (backup_name ts)), written ts content (edit content) s)
edit_saves edit ts content s had sections =
    then_some (λ c. write_config (new_content (edit c)) true ts) s content had
    ∙ write_config-new_content (edit content) content ts s sections had

abbrev loaded : Option Text → State → State
loaded c s = elim c [ none ↦ s | some content ↦ record s { reloads = content ∷ s.reloads } ]

reload_state :
    (c : Option Text) (s : State)
    → ((loaded c s).config ≡ s.config) × ((loaded c s).backups ≡ s.backups)
reload_state none s = (refl, refl)
reload_state (some content) s = (refl, refl)

-- A reload changes nothing on disk, whether the daemon answers or not.
pub reload_keeps :
    (answers : Bool) (s : State)
    → ((reload_config answers s).1.config ≡ s.config)
      × ((reload_config answers s).1.backups ≡ s.backups)
unfolding reload_config
reload_keeps true s = reload_state s.config s
reload_keeps false s = (refl, refl)
