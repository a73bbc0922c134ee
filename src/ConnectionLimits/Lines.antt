-- ===== src/ConnectionLimits/Lines.antt =====
-- The edited lines set a limit that is given and keep one that is not.
use dawos_agent.Prelude.{
  ℕ, Text, codes, text_eq, nat_eq, Bool, true, false, ◌&&◌, Option, none, some, List, [], ◌∷◌, ◌≡◌,
  refl, ap, ◌∙◌, Bool-cases, inl, inr,
}
use dawos_agent.Prelude.Texts.{strip, strip_left, is_space, to_lower}
use dawos_agent.Prelude.Texts.Strip.{IsTrimmed}
use dawos_agent.Sections.{is_header, opens, key_rest, key_number, after_key}
use dawos_agent.Sections.Assign.{strip-number, key_number-assignment}
use dawos_agent.ConnectionLimits.{
  pppoe, sessions_line, starting_line, inject_missing, given, sets_key, edit_limits,
}

max_sessions_key : IsTrimmed (codes "max-sessions=")
unfolding strip_left is_space
max_sessions_key = record { front = refl; back = refl }

max_starting_key : IsTrimmed (codes "max-starting=")
unfolding strip_left is_space
max_starting_key = record { front = refl; back = refl }

-- What `f` reads of a line that the editor writes is what it reads of the line stripped.
pub sessions_stripped : (n : ℕ) → strip (sessions_line n) ≡ sessions_line n
sessions_stripped n = strip-number (codes "max-sessions=") n max_sessions_key

pub starting_stripped : (n : ℕ) → strip (starting_line n) ≡ starting_line n
starting_stripped n = strip-number (codes "max-starting=") n max_starting_key

pub sessions_no_header : (n : ℕ) → is_header (strip (sessions_line n)) ≡ false
sessions_no_header n = ap is_header (sessions_stripped n) ∙ unfold is_header in refl

pub starting_no_header : (n : ℕ) → is_header (strip (starting_line n)) ≡ false
starting_no_header n = ap is_header (starting_stripped n) ∙ unfold is_header in refl

pub sessions_read : (n : ℕ) → key_number (codes "max-sessions") (strip (sessions_line n)) ≡ some n
sessions_read n =
    ap (key_number (codes "max-sessions")) (sessions_stripped n)
    ∙ key_number-assignment (codes "max-sessions") n (unfold to_lower in refl)

pub starting_read : (n : ℕ) → key_number (codes "max-starting") (strip (starting_line n)) ≡ some n
starting_read n =
    ap (key_number (codes "max-starting")) (starting_stripped n)
    ∙ key_number-assignment (codes "max-starting") n (unfold to_lower in refl)

pub sessions_other : (n : ℕ) → key_number (codes "max-starting") (strip (sessions_line n)) ≡ none
sessions_other n =
    ap (key_number (codes "max-starting")) (sessions_stripped n)
    ∙ unfold key_number key_rest after_key to_lower in refl

pub starting_other : (n : ℕ) → key_number (codes "max-sessions") (strip (starting_line n)) ≡ none
starting_other n =
    ap (key_number (codes "max-sessions")) (starting_stripped n)
    ∙ unfold key_number key_rest after_key to_lower in refl

abbrev pub sessions_key : Text
sessions_key = codes "max-sessions"

abbrev pub starting_key : Text
starting_key = codes "max-starting"

-- The editor at a line, by what the line is.
module _ (ms mst : Option ℕ) (raw : Text) (lines : List Text) (p a b : Bool) where
  edit-header :
      is_header (strip raw) ≡ true
      → edit_limits ms mst (raw ∷ lines) p a b
        ≡ inject_missing ms mst p a b
            (raw ∷ edit_limits ms mst lines (opens pppoe (strip raw)) false false)
  unfolding edit_limits
  edit-header h = rw h refl

  edit-sessions :
      is_header (strip raw) ≡ false
      → (p && sets_key ms sessions_key (strip raw)) ≡ true
      → edit_limits ms mst (raw ∷ lines) p a b
        ≡ sessions_line (given ms) ∷ edit_limits ms mst lines p true b
  unfolding edit_limits
  edit-sessions h k = rw (h, k) refl

  edit-starting :
      is_header (strip raw) ≡ false
      → (p && sets_key ms sessions_key (strip raw)) ≡ false
      → (p && sets_key mst starting_key (strip raw)) ≡ true
      → edit_limits ms mst (raw ∷ lines) p a b
        ≡ starting_line (given mst) ∷ edit_limits ms mst lines p a true
  unfolding edit_limits
  edit-starting h k l = rw (h, k, l) refl

  edit-other :
      is_header (strip raw) ≡ false
      → (p && sets_key ms sessions_key (strip raw)) ≡ false
      → (p && sets_key mst starting_key (strip raw)) ≡ false
      → edit_limits ms mst (raw ∷ lines) p a b ≡ raw ∷ edit_limits ms mst lines p a b
  unfolding edit_limits
  edit-other h k l = rw (h, k, l) refl

-- A property of the edited lines holds if it holds in each of the cases.
module _ (ms mst : Option ℕ) (P : Bool → Bool → Bool → List Text → List Text → Type 0)
    (nil : (p a b : Bool) → P p a b [] (inject_missing ms mst p a b []))
    (header : (p a b : Bool) (raw : Text) (lines out : List Text)
      → is_header (strip raw) ≡ true
      → P (opens pppoe (strip raw)) false false lines out
      → P p a b (raw ∷ lines) (inject_missing ms mst p a b (raw ∷ out)))
    (sessions : (p a b : Bool) (raw : Text) (lines out : List Text)
      → is_header (strip raw) ≡ false
      → (p && sets_key ms sessions_key (strip raw)) ≡ true
      → P p true b lines out
      → P p a b (raw ∷ lines) (sessions_line (given ms) ∷ out))
    (starting : (p a b : Bool) (raw : Text) (lines out : List Text)
      → is_header (strip raw) ≡ false
      → (p && sets_key mst starting_key (strip raw)) ≡ true
      → P p a true lines out
      → P p a b (raw ∷ lines) (starting_line (given mst) ∷ out))
    (other : (p a b : Bool) (raw : Text) (lines out : List Text)
      → is_header (strip raw) ≡ false
      → (p && sets_key ms sessions_key (strip raw)) ≡ false
      → (p && sets_key mst starting_key (strip raw)) ≡ false
      → P p a b lines out
      → P p a b (raw ∷ lines) (raw ∷ out)) where
  pub edit-induction :
      (lines : List Text) (p a b : Bool) → P p a b lines (edit_limits ms mst lines p a b)
  edit-induction [] p a b = unfold edit_limits in nil p a b
  edit-induction (raw ∷ lines) p a b = elim (Bool-cases (is_header (strip raw))) [
    | inl opened ↦ rw (edit-header ms mst raw lines p a b opened) (
        header p a b raw lines _ opened
          (edit-induction lines (opens pppoe (strip raw)) false false))
    | inr plain ↦ elim (Bool-cases (p && sets_key ms sessions_key (strip raw))) [
      | inl sets ↦
          rw (edit-sessions ms mst raw lines p a b plain sets)
            (sessions p a b raw lines _ plain sets (edit-induction lines p true b))
      | inr not_sessions ↦ elim (Bool-cases (p && sets_key mst starting_key (strip raw))) [
        | inl sets ↦
            rw (edit-starting ms mst raw lines p a b plain not_sessions sets)
              (starting p a b raw lines _ plain sets (edit-induction lines p a true))
        | inr not_starting ↦
            rw (edit-other ms mst raw lines p a b plain not_sessions not_starting)
              (other p a b raw lines _ plain not_sessions not_starting (edit-induction lines p a b))
      ]
    ]
  ]
