-- ===== src/ConfigValidator/Tests.antt =====
-- Runs of the validation, and its theorems at concrete inputs.
use dawos_agent.Prelude.{
  ◌≤◌, Text, codes, text_eq, nat_eq, Bool, true, ◌==◌, none, some, [], ◌∷◌, map, length, ◌≡◌, refl,
  arith,
}
use dawos_agent.Prelude.Dict.{get, put}
use dawos_agent.Prelude.Texts.{strip, strip_left, starts_with, is_space}
use dawos_agent.Prelude.Texts.Lines.{lines_of, join_lines}
use dawos_agent.Prelude.Texts.Numbers.{decimal}
use dawos_agent.Prelude.Texts.Split.{cut, split_on}
use dawos_agent.ConfigManager.{State, backup_name}
use dawos_agent.ConfigValidator.{
  check_line, check_value, scan_line, scan_lines, open_section, check_required_sections,
  duplicate_issues, sorted_items, validation_of, validate_config,
}
use dawos_agent.ConfigValidator.Patterns.{section_name, key_value, key_run, is_ip, is_cidr, is_port}
use dawos_agent.ConfigValidator.Checks.{
  error, check_ip_values, check_port_value, check_sub_keys, last_part, first_part, truncated,
}
use dawos_agent.ConfigValidator.Described.{is_accepted}
use dawos_agent.ConfigValidator.Accepted.{validate_config-accepts}
use dawos_agent.ConfigValidator.Endpoints.{
  ConfigUpdateRequest, Restart, refused, answer_restart, put_config, put_config_valid,
}

-- Every text that looks like an address or a network is taken for one.
abbrev lenient : Text → Bool
lenient t = true

abbrev sample : Text
sample = join_lines (
    codes "[modules]"
    ∷ codes "radius"
    ∷ codes "[cli]"
    ∷ codes "tcp=127.0.0.1:2001"
    ∷ codes "[radius]"
    ∷ codes "server = 10.0.0.1,secret,auth-port=1812"
    ∷ codes "[cli]"
    ∷ [])

abbrev wrong : Text
wrong = join_lines (codes "tcp=1" ∷ codes "[cli]" ∷ codes "tcp=127.0.0.1:70000" ∷ [])

sample_valid : (validate_config lenient lenient sample).valid ≡ true
unfolding validate_config validation_of scan_lines scan_line open_section check_line check_value
    check_ip_values check_port_value check_sub_keys check_required_sections duplicate_issues
    sorted_items section_name key_value key_run is_ip is_cidr is_port last_part first_part cut
    split_on lines_of join_lines strip strip_left starts_with is_space decimal get put
sample_valid = refl

severities_wrong :
    map (λ i. i.severity) (validate_config lenient lenient wrong).issues
    ≡ error ∷ error ∷ error ∷ []
unfolding validate_config validation_of scan_lines scan_line open_section check_line check_value
    check_ip_values check_port_value check_sub_keys check_required_sections duplicate_issues
    sorted_items section_name key_value key_run is_ip is_cidr is_port last_part first_part cut
    split_on lines_of join_lines strip strip_left starts_with is_space decimal get put truncated
severities_wrong = refl

abbrev request : ConfigUpdateRequest
request = record { content = sample; backup = true; restart_service = true }

abbrev state : State
state = record {
  config = some (codes "[old]");
  backups = [];
  checkpoint_path = none;
  rollback_task = none;
  reloads = [];
}

validate_config-accepts_example :
    ((validate_config lenient lenient sample).valid ≡ is_accepted lenient lenient (lines_of sample))
    × (((validate_config lenient lenient sample).errors == 0)
        ≡ (validate_config lenient lenient sample).valid)
validate_config-accepts_example = validate_config-accepts lenient lenient sample

long : 10 ≤ length sample
unfolding join_lines
long = omega arith

abbrev refusal : Restart
refusal = refused (codes "unit not found")

put_config_valid_example :
    ((put_config (codes "1") refusal request state).0
      ≡ answer_restart (some (backup_name (codes "1"))) refusal)
    × ((put_config (codes "1") refusal request state).1.config ≡ some sample)
    × (true ≡ true
        → get (backup_name (codes "1")) (put_config (codes "1") refusal request state).1.backups
          ≡ some (codes "[old]"))
put_config_valid_example =
    put_config_valid (codes "1") refusal request state lenient lenient (codes "[old]") refl long
      sample_valid
