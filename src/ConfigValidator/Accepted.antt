-- ===== src/ConfigValidator/Accepted.antt =====
-- A configuration is valid exactly when the description accepts it.
use dawos_agent.Prelude.{
  ℕ, suc, Text, codes, text_eq, nat_eq, Bool, true, false, ◌==◌, ◌||◌, ◌&&◌, not, all, ltb, Option,
  none, some, List, [], ◌∷◌, ◌++◌, if◌then◌else◌, ◌≡◌, refl, sym, ap, ◌∙◌, arith, Bool-cases,
  Option-cases, inl, inr, text_beq_iff,
}
use dawos_agent.Prelude.Texts.{strip}
use dawos_agent.Prelude.Texts.Lines.{lines_of}
use dawos_agent.ConfigValidator.{
  Scan, open_section, check_line, scan_line, scan_lines, check_required_sections,
  check_duplicate_sections, sorted_items, duplicate_issue, duplicate_issues, nothing_found,
  validation_of, validate_config,
}
use dawos_agent.ConfigValidator.Patterns.{closed, nonempty, section_name}
use dawos_agent.ConfigValidator.Checks.{one_of}
use dawos_agent.ConfigValidator.Described.{
  is_skipped, has_no_orphan, is_modules, has_modules, is_good_line, is_accepted,
}
use dawos_agent.ConfigValidator.Issues.{no_error, no_error-append, count_if-no_error, line-good}

bool_header : (n o g : Bool) → (n && g) ≡ (n && ((not o || true) && g))
bool_header n o g = ground arith

bool_plain :
    (n o v h g : Bool)
    → ((n && (not o && v)) && ((not o || h) && g)) ≡ (n && ((not o || false) && (v && g)))
bool_plain n o v h g = ground arith

bool_parts : (m o g : Bool) → ((o && g) && (m && true)) ≡ (m && o && g)
bool_parts m o g = ground arith

required-good :
    (found : List Text) → no_error (check_required_sections found) ≡ one_of (codes "modules") found
unfolding check_required_sections
required-good found = elim (Bool-cases (one_of (codes "modules") found)) [
  | inl e ↦ rw e refl
  | inr e ↦ rw e refl
]

duplicate-good : (item : Text × ℕ) → no_error (duplicate_issue item) ≡ true
duplicate-good (name, count) = elim (Bool-cases (ltb 1 count)) [
  | inl e ↦ rw e refl
  | inr e ↦ rw e refl
]

duplicates-good : (items : List (Text × ℕ)) → no_error (duplicate_issues items) ≡ true
unfolding duplicate_issues
duplicates-good [] = refl
duplicates-good (item ∷ items) =
    no_error-append (duplicate_issue item) (duplicate_issues items)
    ∙ rw (duplicate-good item, duplicates-good items) refl

nonempty-some : (o : Option Text) (name : Text) → nonempty o ≡ some name → (name == []) ≡ false
nonempty-some none name h = absurd (cc)
nonempty-some (some []) name h = absurd (cc)
nonempty-some (some (c ∷ cs)) name h = ground arith

one_of-append :
    (m name : Text) (found : List Text)
    → one_of m (found ++ (name ∷ [])) ≡ (one_of m found || (m == name))
one_of-append m name [] = ground arith
one_of-append m name (f ∷ found) = ground (arith, one_of-append m name found)

one_of-same :
    (m name : Text) (found : List Text)
    → one_of name found ≡ true
    → (one_of m found || (m == name)) ≡ one_of m found
one_of-same m name found h = elim (Bool-cases (m == name)) [
  | inr e ↦ rw e (ground arith)
  | inl e ↦
      let same : m ≡ name = (text_beq_iff m name).0 e in
      ground (arith, ap (λ t. one_of t found) same, h)
]

pub one_of-open :
    (m name : Text) (found : List Text)
    → one_of m (if one_of name found then found else found ++ (name ∷ []))
      ≡ (one_of m found || (m == name))
one_of-open m name found = elim (Bool-cases (one_of name found)) [
  | inl e ↦ rw e (sym (one_of-same m name found e))
  | inr e ↦ rw e (one_of-append m name found)
]

-- A section has a name.
section_name-some : (line name : Text) → section_name line ≡ some name → (name == []) ≡ false
unfolding section_name
section_name-some [] name h = absurd (cc)
section_name-some (c ∷ cs) name h = elim (Bool-cases (c == b'[')) [
  | inl e ↦ nonempty-some (closed cs) name (rw e at h)
  | inr e ↦ absurd (cc (rw e at h))
]

module _ (is_network is_address : Text → Bool) where
  -- What the rest of the lines adds, inside a section or outside.
  abbrev goods : Bool → List Text → Bool
  goods outside lines =
      (not outside || has_no_orphan lines)
      && all (λ raw. is_good_line is_network is_address (strip raw)) lines

  -- One line and those behind it.
  step-good :
      (lineno : ℕ) (raw : Text) (lines : List Text) (s : Scan)
      → (no_error (scan_line is_network is_address lineno (strip raw) s).issues
          && goods
              ((scan_line is_network is_address lineno (strip raw) s).current_section == [])
              lines)
        ≡ (no_error s.issues && goods (s.current_section == []) (raw ∷ lines))
  unfolding scan_line has_no_orphan open_section
  step-good lineno raw lines s = elim (Bool-cases (is_skipped (strip raw))) [
    | inl skipped ↦ rw skipped refl
    | inr e ↦ elim (Option-cases (section_name (strip raw))) [
      | inr (name, opens) ↦ rw e (
          rw opens (
            rw (section_name-some (strip raw) name opens)
              (bool_header (no_error s.issues) (s.current_section == []) _)))
      | inl plain ↦ rw e (
          rw plain (
            rw
              (
                no_error-append s.issues
                    (check_line is_network is_address lineno s.current_section (strip raw)),
                line-good is_network is_address lineno s.current_section (strip raw),
              )
              (bool_plain (no_error s.issues) (s.current_section == []) _ _ _)))
    ]
  ]

  scan_lines-good :
      (lineno : ℕ) (lines : List Text) (s : Scan)
      → no_error (scan_lines is_network is_address lineno lines s).issues
        ≡ (no_error s.issues && goods (s.current_section == []) lines)
  unfolding scan_lines
  scan_lines-good lineno [] s = unfold has_no_orphan in ground arith
  scan_lines-good lineno (raw ∷ lines) s =
      scan_lines-good (suc lineno) lines (scan_line is_network is_address lineno (strip raw) s)
      ∙ step-good lineno raw lines s

  found-step :
      (lineno : ℕ) (line : Text) (s : Scan)
      → one_of (codes "modules") (scan_line is_network is_address lineno line s).sections_found ≡ (
          one_of (codes "modules") s.sections_found
          || (not (is_skipped line) && is_modules (section_name line)))
  unfolding scan_line open_section
  found-step lineno line s = elim (Bool-cases (is_skipped line)) [
    | inl e ↦ rw e (ground arith)
    | inr e ↦ rw e (elim (Option-cases (section_name line)) [
      | inl plain ↦ rw plain (ground arith)
      | inr (name, opens) ↦ rw opens (one_of-open (codes "modules") name s.sections_found)
    ])
  ]

  scan_lines-has_modules :
      (lineno : ℕ) (lines : List Text) (s : Scan)
      → one_of (codes "modules") (scan_lines is_network is_address lineno lines s).sections_found
        ≡ (one_of (codes "modules") s.sections_found || has_modules lines)
  unfolding scan_lines scan_line open_section
  scan_lines-has_modules lineno [] s = ground arith
  scan_lines-has_modules lineno (raw ∷ lines) s =
      scan_lines-has_modules (suc lineno) lines
        (scan_line is_network is_address lineno (strip raw) s)
      ∙ ap (λ b. b || has_modules lines) (found-step lineno (strip raw) s)
      ∙ ground arith

  -- A configuration is valid exactly when it has a section [modules], no line but blank ones and
  -- comments stands before the first header, and in every line with a value what looks like an address
  -- or a network is one and every port is from 1 to 65535. Then and only then no error is counted.
  pub validate_config-accepts :
      (content : Text)
      → ((validate_config is_network is_address content).valid
          ≡ is_accepted is_network is_address (lines_of content))
        × (((validate_config is_network is_address content).errors == 0)
            ≡ (validate_config is_network is_address content).valid)
  unfolding validate_config validation_of
  validate_config-accepts content =
      let s = scan_lines is_network is_address 1 (lines_of content) nothing_found in
      let more =
        check_required_sections s.sections_found ++ check_duplicate_sections s.section_counts in
      (
        count_if-no_error (s.issues ++ more)
            ∙ no_error-append s.issues more
            ∙ rw
                (
                  no_error-append (check_required_sections s.sections_found)
                      (check_duplicate_sections s.section_counts),
                  required-good s.sections_found,
                  duplicates-good (sorted_items s.section_counts),
                  scan_lines-good 1 (lines_of content) nothing_found,
                  scan_lines-has_modules 1 (lines_of content) nothing_found,
                )
                (bool_parts (has_modules (lines_of content)) _ _),
        refl,
      )
