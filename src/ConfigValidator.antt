-- ===== src/ConfigValidator.antt =====
-- dawos_agent/services/config_validator.py: the lines of a configuration, and what is wrong with them.
-- What the module ipaddress accepts is a parameter.
pub mod Patterns
pub mod Checks
pub mod Described
pub mod Issues
pub mod Accepted
pub mod Sections
pub mod Written
pub mod Endpoints
mod Tests
use dawos_agent.Prelude.{
  ℕ, zero, suc, ◌+◌, Text, codes, text_eq, nat_eq, Bool, true, false, ◌==◌, ◌||◌, ◌&&◌, not, ltb,
  count_if, Option, none, some, List, [], ◌∷◌, ◌++◌, if◌then◌else◌,
}
use dawos_agent.Prelude.Dict.{Dict, get, put}
use dawos_agent.Prelude.Texts.{strip, starts_with}
use dawos_agent.Prelude.Texts.Lines.{lines_of}
use dawos_agent.Prelude.Texts.Numbers.{decimal}
use dawos_agent.ConfigManager.{text_leb}
use dawos_agent.ConfigValidator.Patterns.{section_name, key_value}
use dawos_agent.ConfigValidator.Checks.{
  Severity, error, warning, info, Issue, one_of, bare_key_sections, truncated, check_ip_values,
  check_port_value,
}

pub record Validation : Type 0 where
  pub valid : Bool
  pub errors : ℕ
  pub warnings : ℕ
  pub sections : List Text
  pub issues : List Issue

-- What the loop has found so far.
pub record Scan : Type 0 where
  pub current_section : Text
  pub section_counts : Dict Text ℕ
  pub sections_found : List Text
  pub issues : List Issue

abbrev pub count_of : Option ℕ → ℕ
count_of none = 0
count_of (some n) = n

unfoldable pub open_section : Text → Scan → Scan
open_section name s = record {
  current_section = name;
  section_counts = put name (count_of (get name s.section_counts) + 1) s.section_counts;
  sections_found =
      if one_of name s.sections_found then s.sections_found else s.sections_found ++ (name ∷ []);
  issues = s.issues;
}

abbrev pub add_issues : List Issue → Scan → Scan
add_issues found s = record {
  current_section = s.current_section;
  section_counts = s.section_counts;
  sections_found = s.sections_found;
  issues = s.issues ++ found;
}

abbrev pub issue_at : Severity → ℕ → Text → Text → List Issue
issue_at severity lineno section message =
    record { severity = severity; line = lineno; section = section; message = message } ∷ []

module _ (is_network is_address : Text → Bool) where
  -- A line `key = value` of a section.
  unfoldable pub check_value : ℕ → Text → Text → Text → List Issue
  check_value lineno section key v =
      if v == []
      then issue_at info lineno section (codes "Empty value for key '" ++ (key ++ codes "'"))
      else check_ip_values is_network is_address lineno section key v
        ++ check_port_value lineno section key v

  abbrev pub check_bare : ℕ → Text → Text → List Issue
  check_bare lineno section line =
      if one_of section bare_key_sections
      then []
      else issue_at warning lineno section
          (codes "Line has no '=' separator — possible syntax error: " ++ truncated line)

  abbrev pub check_key_line : ℕ → Text → Text → Option (Text × Text) → List Issue
  check_key_line lineno section line none = check_bare lineno section line
  check_key_line lineno section line (some (key, rest)) =
      check_value lineno section key (strip rest)

  -- A line that is no header.
  unfoldable pub check_line : ℕ → Text → Text → List Issue
  check_line lineno section line =
      if section == []
      then issue_at error lineno []
          (codes "Orphan line before any section header: " ++ truncated line)
      else check_key_line lineno section line (key_value line)

  abbrev pub scan_with : ℕ → Text → Option Text → Scan → Scan
  scan_with lineno line none s = add_issues (check_line lineno s.current_section line) s
  scan_with lineno line (some name) s = open_section name s

  unfoldable pub scan_line : ℕ → Text → Scan → Scan
  scan_line lineno line s =
      if (line == []) || starts_with (codes "#") line
      then s
      else scan_with lineno line (section_name line) s

  -- The loop, from a line number on.
  unfoldable pub scan_lines : ℕ → List Text → Scan → Scan
  scan_lines lineno [] s = s
  scan_lines lineno (raw ∷ lines) s = scan_lines (suc lineno) lines (scan_line lineno (strip raw) s)

unfoldable pub check_required_sections : List Text → List Issue
check_required_sections found =
    if one_of (codes "modules") found
    then []
    else issue_at error 0 [] (codes "Required section [modules] is missing")

abbrev pub insert_sorted : Text × ℕ → List (Text × ℕ) → List (Text × ℕ)
insert_sorted item [] = item ∷ []
insert_sorted item (other ∷ items) =
    let rest = insert_sorted item items in
    if text_leb item.0 other.0 then item ∷ other ∷ items else other ∷ rest

-- `sorted(counts.items())`; no name stands there twice.
unfoldable pub sorted_items : Dict Text ℕ → List (Text × ℕ)
sorted_items [] = []
sorted_items (item ∷ items) = insert_sorted item (sorted_items items)

abbrev pub duplicate_issue : Text × ℕ → List Issue
duplicate_issue (name, count) =
    if ltb 1 count
    then issue_at warning 0 name
        (codes "Section [" ++ (name ++ (codes "] appears " ++ (decimal count ++ codes " times"))))
    else []

unfoldable pub duplicate_issues : List (Text × ℕ) → List Issue
duplicate_issues [] = []
duplicate_issues (item ∷ items) = duplicate_issue item ++ duplicate_issues items

abbrev pub check_duplicate_sections : Dict Text ℕ → List Issue
check_duplicate_sections counts = duplicate_issues (sorted_items counts)

abbrev pub is_error : Issue → Bool
is_error issue = elim issue.severity [ error ↦ true | warning ↦ false | info ↦ false ]

abbrev pub is_warning : Issue → Bool
is_warning issue = elim issue.severity [ error ↦ false | warning ↦ true | info ↦ false ]

abbrev pub nothing_found : Scan
nothing_found = record {
  current_section = [];
  section_counts = [];
  sections_found = [];
  issues = [];
}

unfoldable pub validation_of : Scan → Validation
validation_of s =
    let issues =
      s.issues
      ++ (check_required_sections s.sections_found ++ check_duplicate_sections s.section_counts) in
    record {
      valid = count_if is_error issues == 0;
      errors = count_if is_error issues;
      warnings = count_if is_warning issues;
      sections = s.sections_found;
      issues = issues;
    }

unfoldable pub validate_config : (Text → Bool) → (Text → Bool) → Text → Validation
validate_config is_network is_address content =
    validation_of (scan_lines is_network is_address 1 (lines_of content) nothing_found)
