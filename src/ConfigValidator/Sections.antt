-- ===== src/ConfigValidator/Sections.antt =====
-- The sections that a validation lists, and that a valid configuration can be written.
use dawos_agent.Prelude.{
  ℕ, suc, ◌+◌, Text, text_eq, nat_eq, Bool, true, false, ◌==◌, ◌||◌, count_if, Option, none, some,
  List, [], ◌∷◌, ◌++◌, ◌≡◌, refl, sym, ◌∙◌, arith, Bool-cases, Option-cases, inl, inr, text_beq_iff,
}
use mathlib.Core.List.{append-nil, append_assoc}
use dawos_agent.Prelude.Dict.{Dict, get, put, get-put}
use dawos_agent.Prelude.Texts.{strip}
use dawos_agent.Prelude.Texts.Lines.{lines_of}
use dawos_agent.ConfigValidator.{
  Scan, count_of, open_section, scan_line, scan_lines, nothing_found, validation_of,
  validate_config,
}
use dawos_agent.ConfigValidator.Patterns.{section_name}
use dawos_agent.ConfigValidator.Checks.{one_of}
use dawos_agent.ConfigValidator.Described.{is_skipped}
use dawos_agent.ConfigValidator.Accepted.{one_of-open}

-- The names of the headers, in their order.
abbrev header : Bool → Option Text → List Text → List Text
header true opened names = names
header false none names = names
header false (some name) names = name ∷ names

unfoldable pub header_names : List Text → List Text
header_names [] = []
header_names (raw ∷ lines) =
    header (is_skipped (strip raw)) (section_name (strip raw)) (header_names lines)

header-append :
    (skipped : Bool) (opened : Option Text) (names : List Text)
    → header skipped opened names ≡ header skipped opened [] ++ names
header-append true opened names = refl
header-append false none names = refl
header-append false (some name) names = refl

-- No name stands there twice.
abbrev pub IsDistinct : List Text → Type 0
IsDistinct [] = Unit
IsDistinct (name ∷ names) = (one_of name names ≡ false) × IsDistinct names

-- How often each name is counted, and which are has_each.
pub record Lists (s : Scan) (names : List Text) : Type 0 where
  pub counted :
      (name : Text) → count_of (get name s.section_counts) ≡ count_if (λ n. name == n) names
  pub has_each : (name : Text) → one_of name s.sections_found ≡ one_of name names
  pub distinct : IsDistinct s.sections_found

one_of-append : (m : Text) (xs ys : List Text) → one_of m (xs ++ ys) ≡ (one_of m xs || one_of m ys)
one_of-append m [] ys = refl
one_of-append m (x ∷ xs) ys = ground (arith, one_of-append m xs ys)

count_if-append :
    (p : Text → Bool) (xs ys : List Text) → count_if p (xs ++ ys) ≡ count_if p xs + count_if p ys
count_if-append p [] ys = omega arith
count_if-append p (x ∷ xs) ys = ground (arith, count_if-append p xs ys)

IsDistinct-append :
    (names : List Text) (name : Text)
    → IsDistinct names
    → one_of name names ≡ false
    → IsDistinct (names ++ (name ∷ []))
IsDistinct-append [] name d h = (refl, tt)
IsDistinct-append (n ∷ names) name (fresh, d) h = (
  one_of-append n names (name ∷ [])
      ∙ ground (arith, fresh, h, text_beq_iff n name, text_beq_iff name n),
  IsDistinct-append names name d (ground (arith, h)),
)

-- One more of the name that is counted, and no more of another.
counts_more :
    (m name : Text) (counts : Dict Text ℕ) (names : List Text)
    → ((n : Text) → count_of (get n counts) ≡ count_if (λ k. n == k) names)
    → count_of (get m (put name (count_of (get name counts) + 1) counts))
      ≡ count_if (λ k. m == k) (names ++ (name ∷ []))
counts_more m name counts names h =
    rw
      (
        get-put name m (count_of (get name counts) + 1) counts,
        count_if-append (λ k. m == k) names (name ∷ []),
      )
      (elim (Bool-cases (m == name)) [
        | inl e ↦
            let same : m ≡ name = (text_beq_iff m name).0 e in
            rw same (rw ((text_beq_iff name name).1 refl) (rw (h name) refl))
        | inr e ↦
            let other : (name == m) ≡ false =
              ground (arith, e, text_beq_iff m name, text_beq_iff name m) in
            rw e (rw other (rw (h m) (omega arith)))
      ])

open_section-Lists :
    (name : Text) (s : Scan) (names : List Text)
    → Lists s names
    → Lists (open_section name s) (names ++ (name ∷ []))
unfolding open_section
open_section-Lists name s names h = record {
  counted = λ m. counts_more m name s.section_counts names h.counted;
  has_each = λ m.
      one_of-open m name s.sections_found
      ∙ rw (one_of-append m names (name ∷ []), h.has_each m) (ground arith);
  distinct = elim (Bool-cases (one_of name s.sections_found)) [
    | inl e ↦ rw e h.distinct
    | inr e ↦ rw e (IsDistinct-append s.sections_found name h.distinct e)
  ];
}

module _ (is_network is_address : Text → Bool) where
  scan_line-Lists :
      (lineno : ℕ) (line : Text) (s : Scan) (names : List Text)
      → Lists s names
      → Lists
          (scan_line is_network is_address lineno line s)
          (names ++ header (is_skipped line) (section_name line) [])
  unfolding scan_line
  scan_line-Lists lineno line s names h = elim (Bool-cases (is_skipped line)) [
    | inl e ↦ rw e (rw (append-nil names) h)
    | inr e ↦ elim (Option-cases (section_name line)) [
      | inl plain ↦ rw e (
          rw plain (
            rw (append-nil names)
              (record { counted = h.counted; has_each = h.has_each; distinct = h.distinct })))
      | inr (name, opens) ↦ rw e (rw opens (open_section-Lists name s names h))
    ]
  ]

  scan_lines-Lists :
      (lineno : ℕ) (lines : List Text) (s : Scan) (names : List Text)
      → Lists s names
      → Lists (scan_lines is_network is_address lineno lines s) (names ++ header_names lines)
  unfolding scan_lines header_names
  scan_lines-Lists lineno [] s names h = rw (append-nil names) h
  scan_lines-Lists lineno (raw ∷ lines) s names h =
      rw
        (
          header-append (is_skipped (strip raw)) (section_name (strip raw)) (header_names lines),
          sym (
              append_assoc names (header (is_skipped (strip raw)) (section_name (strip raw)) [])
                (header_names lines)),
        )
        (scan_lines-Lists (suc lineno) lines _ _ (scan_line-Lists lineno (strip raw) s names h))

  -- A validation lists the name of every header, and only these, and each once however often it comes.
  pub validate_config-sections :
      (content : Text)
      → ((name : Text)
          → one_of name (validate_config is_network is_address content).sections
            ≡ one_of name (header_names (lines_of content)))
        × IsDistinct (validate_config is_network is_address content).sections
  unfolding validate_config validation_of
  validate_config-sections content =
      let lists =
        scan_lines-Lists 1 (lines_of content) nothing_found [] (record {
          counted = λ name. unfold get in refl;
          has_each = λ name. refl;
          distinct = tt;
        }) in
      (lists.has_each, lists.distinct)
