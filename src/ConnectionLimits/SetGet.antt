-- ===== src/ConnectionLimits/SetGet.antt =====
-- What is read from the edited text.
use dawos_agent.Prelude.{
  ℕ, Text, text_eq, nat_eq, Bool, false, Option, none, some, List, [], ◌∷◌, ◌≡◌, refl, sym, ap, ◌∙◌,
  arith, if◌then◌else◌, Option-cases, inl, inr, All,
}
use dawos_agent.Prelude.Texts.{strip}
use dawos_agent.Prelude.Texts.Lines.{IsLine, lines_of, lines_of-IsLine}
use dawos_agent.Sections.{
  is_header, inside_after, key_rest, after_equals, number_at, key_number, after_key, value_after,
  latest, has_section, new_content,
}
use dawos_agent.Sections.Latest.{latest-Sets_file}
use dawos_agent.Sections.Edits.{latest-Keeps}
use dawos_agent.Sections.Written.{latest-new_content}
use dawos_agent.ConnectionLimits.{
  Limits, read_line, number_or, opens_general, read_limits, limits_of, no_limits, edit_limits,
  edited,
}
use dawos_agent.ConnectionLimits.Lines.{sessions_key, starting_key}
use dawos_agent.ConnectionLimits.Given.{in_pppoe, edit-Sets_sessions, edit-Sets_starting}
use dawos_agent.ConnectionLimits.Kept.{
  timeout_key, edit-Keeps_sessions, edit-Keeps_starting, edit-Keeps_timeout, edit-IsLine,
}

abbrev line_values : Text → Bool → Bool → Limits → Limits
line_values raw p g r = if is_header (strip raw) then r else read_line (strip raw) p g r

number_or-value :
    (opening : Text → Bool) (read : Text → Option ℕ) (raw : Text) (inside : Bool) (v : ℕ)
    → (if is_header (strip raw) then v else if inside then number_or v (read (strip raw)) else v)
      ≡ value_after opening read raw inside v
unfolding value_after
number_or-value opening read raw inside v = elim (Option-cases (read (strip raw))) [
  | inl nothing ↦ rw nothing refl
  | inr (n, found) ↦ rw found refl
]

line_values-value_after :
    (raw : Text) (p g : Bool) (r : Limits)
    → ((line_values raw p g r).max_sessions
        ≡ value_after in_pppoe (key_number sessions_key) raw p r.max_sessions)
      × ((line_values raw p g r).max_starting
          ≡ value_after in_pppoe (key_number starting_key) raw p r.max_starting)
      × ((line_values raw p g r).session_timeout
          ≡ value_after opens_general (key_number timeout_key) raw g r.session_timeout)
line_values-value_after raw p g r = (
  ground arith ∙ number_or-value in_pppoe (key_number sessions_key) raw p r.max_sessions,
  ground arith ∙ number_or-value in_pppoe (key_number starting_key) raw p r.max_starting,
  ground arith ∙ number_or-value opens_general (key_number timeout_key) raw g r.session_timeout,
)

-- Each limit is the last value of its key in its section.
read_limits-latest :
    (lines : List Text) (p g : Bool) (r : Limits)
    → ((read_limits lines p g r).max_sessions
        ≡ latest in_pppoe (key_number sessions_key) lines p r.max_sessions)
      × ((read_limits lines p g r).max_starting
          ≡ latest in_pppoe (key_number starting_key) lines p r.max_starting)
      × ((read_limits lines p g r).session_timeout
          ≡ latest opens_general (key_number timeout_key) lines g r.session_timeout)
unfolding read_limits latest inside_after
read_limits-latest [] p g r = (refl, refl, refl)
read_limits-latest (raw ∷ lines) p g r =
    let rest =
      read_limits-latest lines (inside_after in_pppoe raw p) (inside_after opens_general raw g)
        (line_values raw p g r) in
    let line = line_values-value_after raw p g r in
    (
      rest.0
          ∙ ap (latest in_pppoe (key_number sessions_key) lines (inside_after in_pppoe raw p))
              line.0,
      rest.1
          ∙ ap (latest in_pppoe (key_number starting_key) lines (inside_after in_pppoe raw p))
              line.1,
      rest.2
          ∙ ap
              (latest opens_general (key_number timeout_key) lines
                (inside_after opens_general raw g))
              line.2,
    )

-- What a limit is after it was set: `old`, unless a value is given and there is a section for it.
abbrev pub replaced : Option ℕ → Bool → ℕ → ℕ
replaced none section old = old
replaced (some n) section old = if section then n else old

abbrev pub out_lines : Option ℕ → Option ℕ → Text → List Text
out_lines ms mst content = edit_limits ms mst (lines_of content) false false false

out_lines-IsLine : (ms mst : Option ℕ) (content : Text) → All IsLine (out_lines ms mst content)
out_lines-IsLine ms mst content =
    edit-IsLine ms mst (lines_of content) false false false (lines_of-IsLine content)

latest-sessions :
    (ms mst : Option ℕ) (lines : List Text) (v : ℕ)
    → latest in_pppoe (key_number sessions_key) (edit_limits ms mst lines false false false) false v
      ≡ replaced ms
          (has_section in_pppoe lines)
          (latest in_pppoe (key_number sessions_key) lines false v)
latest-sessions none mst lines v =
    latest-Keeps in_pppoe (key_number sessions_key)
      (edit-Keeps_sessions mst lines false false false) v
latest-sessions (some n) mst lines v =
    latest-Sets_file in_pppoe (key_number sessions_key)
      (edit-Sets_sessions n mst lines false false false) v

latest-starting :
    (ms mst : Option ℕ) (lines : List Text) (v : ℕ)
    → latest in_pppoe (key_number starting_key) (edit_limits ms mst lines false false false) false v
      ≡ replaced mst
          (has_section in_pppoe lines)
          (latest in_pppoe (key_number starting_key) lines false v)
latest-starting ms none lines v =
    latest-Keeps in_pppoe (key_number starting_key) (edit-Keeps_starting ms lines false false false)
      v
latest-starting ms (some n) lines v =
    latest-Sets_file in_pppoe (key_number starting_key)
      (edit-Sets_starting ms n lines false false false) v

no_number : (key : Text) (line : Text) → after_key key line ≡ none → key_number key line ≡ none
unfolding key_number key_rest
no_number key line h = ap (λ o. number_at (after_equals o)) h

-- The edited text gives the limits that were asked for, if it has a [pppoe] section: what is not
-- given is as it was.
pub limits_of-edited :
    (ms mst : Option ℕ) (content : Text)
    → limits_of (edited ms mst content) ≡ record {
      max_sessions =
          replaced ms (has_section in_pppoe (lines_of content)) (limits_of content).max_sessions;
      max_starting =
          replaced mst (has_section in_pppoe (lines_of content)) (limits_of content).max_starting;
      session_timeout = (limits_of content).session_timeout;
    }
unfolding limits_of edited
limits_of-edited ms mst content =
    let new =
      read_limits-latest (lines_of (new_content (out_lines ms mst content))) false false
        no_limits in
    let old = read_limits-latest (lines_of content) false false no_limits in
    let sessions =
      new.0
      ∙ latest-new_content in_pppoe (key_number sessions_key) (out_lines ms mst content) 0
          (out_lines-IsLine ms mst content) (no_number sessions_key [] (unfold after_key in refl))
      ∙ latest-sessions ms mst (lines_of content) 0
      ∙ ap (replaced ms (has_section in_pppoe (lines_of content))) (sym old.0) in
    let starting =
      new.1
      ∙ latest-new_content in_pppoe (key_number starting_key) (out_lines ms mst content) 0
          (out_lines-IsLine ms mst content) (no_number starting_key [] (unfold after_key in refl))
      ∙ latest-starting ms mst (lines_of content) 0
      ∙ ap (replaced mst (has_section in_pppoe (lines_of content))) (sym old.1) in
    let timeout =
      new.2
      ∙ latest-new_content opens_general (key_number timeout_key) (out_lines ms mst content) 0
          (out_lines-IsLine ms mst content) (no_number timeout_key [] (unfold after_key in refl))
      ∙ latest-Keeps opens_general (key_number timeout_key)
          (edit-Keeps_timeout ms mst (lines_of content) false false false false (λ e. refl)) 0
      ∙ sym old.2 in
    λ i. record {
      max_sessions = sessions i;
      max_starting = starting i;
      session_timeout = timeout i;
    }
