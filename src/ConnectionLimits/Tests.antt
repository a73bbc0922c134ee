-- ===== src/ConnectionLimits/Tests.antt =====
-- Runs of the limits' editor.
use dawos_agent.Prelude.{
  Text, codes, text_eq, nat_eq, false, none, some, [], ◌∷◌, ◌++◌, ok, ◌≡◌, refl,
}
use dawos_agent.Prelude.Dict.{get}
use dawos_agent.Prelude.Texts.{strip, strip_left, is_space, to_lower}
use dawos_agent.Prelude.Texts.Lines.{lines_of, split_lines, is_break}
use dawos_agent.Prelude.Texts.Numbers.{leading_number}
use dawos_agent.ConfigManager.{State, backup_name}
use dawos_agent.Sections.{is_header, opens, has_section, key_number, key_rest, after_key}
use dawos_agent.ConnectionLimits.{limits_of, read_limits, edited, put_limits}
use dawos_agent.ConnectionLimits.Put.{put_limits-reads_back}

abbrev file : Text
file =
    codes "[common]"
    ++ (10 ∷ codes "session-timeout=60")
    ++ (10 ∷ codes "[PPPoE]")
    ++ (10 ∷ codes "Max-Sessions = 5")

abbrev sample : State
sample = record {
  config = some file;
  backups = [];
  checkpoint_path = none;
  rollback_task = none;
  reloads = [];
}

put_limits-reads_back_example :
    ((put_limits (some 100) (some 20) (codes "1") false sample).0
      ≡ ok (record { max_sessions = 100; max_starting = 20; session_timeout = 60 }))
    × ((put_limits (some 100) (some 20) (codes "1") false sample).1.config
        ≡ some (edited (some 100) (some 20) file))
    × (get
          (backup_name (codes "1"))
          (put_limits (some 100) (some 20) (codes "1") false sample).1.backups
        ≡ some file)
unfolding limits_of read_limits lines_of split_lines is_break is_space strip strip_left is_header
    opens has_section to_lower key_number key_rest after_key leading_number
put_limits-reads_back_example =
    put_limits-reads_back (some 100) (some 20) (codes "1") false sample file refl refl
