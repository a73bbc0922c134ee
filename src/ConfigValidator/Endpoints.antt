-- ===== src/ConfigValidator/Endpoints.antt =====
-- dawos_agent/routers/config_router.py: reading, validating and writing the configuration.
use dawos_agent.Prelude.{
  ℕ, ◌≤◌, Text, codes, text_eq, nat_eq, text_beq_iff, leb, length, not, ◌&&◌, ◌==◌, [], Bool, true,
  false, Option, none, some, ◌++◌, Result, ok, err, if◌then◌else◌, ◌≡◌, refl, ◌∙◌, arith,
  Bool-cases, inl, inr,
}
use dawos_agent.Prelude.Dict.{get, put, get-put_self}
use dawos_agent.Prelude.Texts.{strip, has_char}
use dawos_agent.Checkpoint.{Endpoint, catch_all, catch_missing}
use dawos_agent.ConfigManager.{
  State, Failure, runtime_error, backup_name, read_config, write_config,
}
use dawos_agent.ConfigManager.Backups.{write_config-IsConfig}
use dawos_agent.ConfigValidator.{Validation, validate_config}
use dawos_agent.ConfigValidator.Written.{validate_config-IsConfig}

pub record ConfigUpdateRequest : Type 0 where
  pub content : Text
  pub backup : Bool
  pub restart_service : Bool

pub record ConfigUpdateResponse : Type 0 where
  pub success : Bool
  pub message : Text
  pub backup_path : Option Text

unfoldable pub get_config : Endpoint Text
get_config s = (catch_missing (read_config s).0, (read_config s).1)

abbrev pub updated : Option Text → Text → Bool → ConfigUpdateResponse
updated path message success = record { success = success; message = message; backup_path = path }

-- How the restart ends, where it is asked for: with the return code 0, with another one and what it
-- prints, or with an exception, as when sudo is not there.
pub data Restart : Type 0 where
  completed not_run : Restart
  refused : Text → Restart

abbrev pub restarted_with : Option Text → Restart → Result Failure ConfigUpdateResponse
restarted_with path completed =
    ok (updated path (codes "Config updated and service restarted") true)
restarted_with path (refused error) =
    ok (updated path (codes "Config saved but restart failed: " ++ error) false)
restarted_with path not_run = err runtime_error

abbrev pub answer_update : Bool → Restart → Option Text → Result Failure ConfigUpdateResponse
answer_update restart_service restart path =
    if restart_service
    then restarted_with path restart
    else ok (updated path (codes "Config updated") true)

abbrev pub answer_written :
    Bool → Restart → Result Failure (Option Text) → Result Failure ConfigUpdateResponse
answer_written restart_service restart (ok path) = answer_update restart_service restart path
answer_written restart_service restart (err e) = err e

unfoldable pub update_config : Text → Restart → ConfigUpdateRequest → Endpoint ConfigUpdateResponse
update_config ts restart req s = (
  catch_all
      (answer_written req.restart_service restart (write_config req.content req.backup ts s).0),
  (write_config req.content req.backup ts s).1,
)

-- What the request's fields ask of the text.
abbrev pub accepts_content : Text → Bool
accepts_content content =
    leb 10 (length content) && not (strip content == []) && has_char b'[' (strip content)

unfoldable pub put_config : Text → Restart → ConfigUpdateRequest → Endpoint ConfigUpdateResponse
put_config ts restart req s =
    if accepts_content req.content then update_config ts restart req s else (err 422, s)

unfoldable pub post_validate : (Text → Bool) → (Text → Bool) → Text → Endpoint Validation
post_validate is_network is_address content s =
    (ok (validate_config is_network is_address content), s)

-- The status code and the body after a restart that was asked for.
abbrev pub answer_restart : Option Text → Restart → Result ℕ ConfigUpdateResponse
answer_restart path completed = ok (record {
  success = true;
  message = codes "Config updated and service restarted";
  backup_path = path;
})
answer_restart path (refused error) = ok (record {
  success = false;
  message = codes "Config saved but restart failed: " ++ error;
  backup_path = path;
})
answer_restart path not_run = err 500

caught-answer_update :
    (restart_service : Bool) (restart : Restart) (path : Option Text)
    → catch_all (answer_update restart_service restart path) ≡ (
        if restart_service
        then answer_restart path restart
        else ok (updated path (codes "Config updated") true))
caught-answer_update true completed path = refl
caught-answer_update true not_run path = refl
caught-answer_update true (refused error) path = refl
caught-answer_update false restart path = refl

module _ (ts : Text) (restart : Restart) (req : ConfigUpdateRequest) (s : State) where
  -- Where there is a configuration, a text of ten characters at least that `POST /config/validate` calls
  -- valid is one that `PUT /config` writes: it is the file afterwards, however the restart ends, and where
  -- a backup was asked for, the old text is kept under its name. The answer names the backup: it is a
  -- success without a restart or after one that passed, and a 200 that tells of no success when systemctl
  -- refuses the restart. When the restart's command cannot be run it is 500, with no body.
  pub put_config_valid :
      (is_network is_address : Text → Bool) (old : Text)
      → s.config ≡ some old
      → 10 ≤ length req.content
      → (validate_config is_network is_address req.content).valid ≡ true
      → let path = if req.backup then some (backup_name ts) else none in
        ((put_config ts restart req s).0 ≡ (
          if req.restart_service
          then answer_restart path restart
          else ok (updated path (codes "Config updated") true)))
        × ((put_config ts restart req s).1.config ≡ some req.content)
        × (req.backup ≡ true
            → get (backup_name ts) (put_config ts restart req s).1.backups ≡ some old)
  unfolding update_config put_config
  put_config_valid is_network is_address old had long valid =
      let config = validate_config-IsConfig is_network is_address req.content valid in
      let written : write_config req.content req.backup ts s ≡ (
          if req.backup
          then (
            ok (some (backup_name ts)),
            record s { config = some req.content; backups = put (backup_name ts) old s.backups },
          )
          else (ok none, record s { config = some req.content })) =
        write_config-IsConfig req.content req.backup ts s config ∙ rw had refl in
      let accepted : accepts_content req.content ≡ true =
        ground (
          arith,
          long,
          config.not_blank,
          config.has_section,
          text_beq_iff (strip req.content) [],
        ) in
      rw accepted (
        rw written (elim (Bool-cases req.backup) [
          | inl e ↦ rw e (
            caught-answer_update req.restart_service restart (some (backup_name ts)),
            refl,
            λ yes. get-put_self (backup_name ts) old s.backups,
          )
          | inr e ↦
              rw e (caught-answer_update req.restart_service restart none, refl, λ no. absurd (cc))
        ]))

  -- A text that is too short, blank or has no "[" is refused with 422, and nothing is written.
  pub put_config_refuses :
      accepts_content req.content ≡ false → put_config ts restart req s ≡ (err 422, s)
  unfolding put_config
  put_config_refuses h = rw h refl
