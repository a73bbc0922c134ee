-- ===== src/ConfigManager/Sound.antt =====
-- The invariant of the files: every text on disk is one that `write_config` accepts.
use dawos_agent.Prelude.{
  Text, text_eq, ◌≡◌, [], arith, Bool, true, some, none, Option, Bool-cases, Result-cases, inl, inr,
  ◌==◌, ◌⊎◌,
}
use dawos_agent.Prelude.Dict.{Dict, get, put, get-put}
use dawos_agent.Prelude.Texts.{text_beq_iff, strip}
use dawos_agent.ConfigManager.{
  State, write_config, rollback_to, read_backup, create_checkpoint, checkpoint_name, backup_name,
  timer_expires,
}
use dawos_agent.ConfigManager.Backups.{IsConfig}

pub record IsSound (s : State) : Type 0 where
  pub config_valid : (content : Text) → s.config ≡ some content → IsConfig content
  pub backups_valid : (name content : Text) → get name s.backups ≡ some content → IsConfig content

-- One more valid file keeps all files valid.
put-valid :
    (files : Dict Text Text) (at old : Text)
    → ((name content : Text) → get name files ≡ some content → IsConfig content)
    → IsConfig old
    → (name content : Text) → get name (put at old files) ≡ some content
    → IsConfig content
put-valid files at old all valid name content h = elim (Bool-cases (at == name)) [
  | inl same ↦
      let e : old ≡ content = ground (arith, get-put at name old files, same) in rw (← e) valid
  | inr other ↦ all name content (ground (arith, get-put at name old files, other))
]

checkpoint_taken :
    (ts : Text) (s : State)
    → ((create_checkpoint ts s).1 ≡ s)
      ⊎ ((content : Text) × (s.config ≡ some content)
          × ((create_checkpoint ts s).1 ≡ record s {
            backups = put (checkpoint_name ts) content s.backups;
            checkpoint_path = some (checkpoint_name ts);
          }))
unfolding create_checkpoint
checkpoint_taken ts s = ground arith

pub create_checkpoint-IsSound :
    (ts : Text) (s : State) → IsSound s → IsSound (create_checkpoint ts s).1
create_checkpoint-IsSound ts s h = elim (checkpoint_taken ts s) [
  | inl same ↦ rw same h
  | inr (content, there, taken) ↦ rw taken (record {
    config_valid = h.config_valid;
    backups_valid =
        put-valid s.backups (checkpoint_name ts) content h.backups_valid
          (h.config_valid content there);
  })
]

config_written :
    (content : Text) (backup : Bool) (ts : Text) (s : State)
    → ((write_config content backup ts s).1 ≡ s)
      ⊎ (IsConfig content
          × (((write_config content backup ts s).1 ≡ record s { config = some content })
              ⊎ ((old : Text) × (s.config ≡ some old)
                  × ((write_config content backup ts s).1 ≡ record s {
                    config = some content;
                    backups = put (backup_name ts) old s.backups;
                  }))))
unfolding write_config
config_written content backup ts s = ground (arith, text_beq_iff (strip content) [])

written_valid :
    {content : Text} → IsConfig content → (c : Text) → some content ≡ some c → IsConfig c
written_valid {content} h c e = let same : content ≡ c = ground arith in rw (← same) h

pub write_config-IsSound :
    (content : Text) (backup : Bool) (ts : Text) (s : State)
    → IsSound s
    → IsSound (write_config content backup ts s).1
write_config-IsSound content backup ts s h = elim (config_written content backup ts s) [
  | inl same ↦ rw same h
  | inr (valid, inl plain) ↦
      rw plain (record { config_valid = written_valid valid; backups_valid = h.backups_valid })
  | inr (valid, inr (old, there, made)) ↦ rw made (record {
    config_valid = written_valid valid;
    backups_valid =
        put-valid s.backups (backup_name ts) old h.backups_valid (h.config_valid old there);
  })
]

-- Reading a backup changes nothing, so a rollback changes what its write changes, or nothing.
state-read_backup : (name : Text) (s : State) → (read_backup name s).1 ≡ s
unfolding read_backup
state-read_backup name s = ground arith

rolled_back :
    (name ts : Text) (s : State)
    → ((rollback_to name ts s).1 ≡ s)
      ⊎ ((content : Text) × ((rollback_to name ts s).1 ≡ (write_config content true ts s).1))
unfolding rollback_to
rolled_back name ts s = elim (Result-cases (read_backup name s).0) [
  | inl (content, read) ↦ inr (content, ground (arith, state-read_backup name s))
  | inr (e, failed) ↦ inl (ground (arith, state-read_backup name s))
]

pub rollback_to-IsSound :
    (name ts : Text) (s : State) → IsSound s → IsSound (rollback_to name ts s).1
rollback_to-IsSound name ts s h = elim (rolled_back name ts s) [
  | inl same ↦ rw same h
  | inr (content, written) ↦ rw written (write_config-IsSound content true ts s h)
]

abbrev path_of : Option Text → Text
path_of none = []
path_of (some path) = path

-- What the timer leaves as the configuration was there before, or is the text of a backup.
config-timer_expires :
    (answers : Bool) (s : State) (content : Text)
    → (timer_expires answers s).config ≡ some content
    → (s.config ≡ some content) ⊎ (get (path_of s.checkpoint_path) s.backups ≡ some content)
unfolding timer_expires
config-timer_expires answers s content h = ground arith

backups-timer_expires : (answers : Bool) (s : State) → (timer_expires answers s).backups ≡ s.backups
unfolding timer_expires
backups-timer_expires answers s = ground arith

pub timer_expires-IsSound :
    (answers : Bool) (s : State) → IsSound s → IsSound (timer_expires answers s)
timer_expires-IsSound answers s h = record {
  config_valid = λ content e. elim (config-timer_expires answers s content e) [
    | inl before ↦ h.config_valid content before
    | inr restored ↦ h.backups_valid (path_of s.checkpoint_path) content restored
  ];
  backups_valid =
      λ name content e. h.backups_valid name content (rw (← backups-timer_expires answers s) e);
}
