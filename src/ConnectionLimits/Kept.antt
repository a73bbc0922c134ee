-- ===== src/ConnectionLimits/Kept.antt =====
-- What the edit of the limits does not change.
use dawos_agent.Prelude.{
  ℕ, Text, codes, text_eq, nat_eq, Bool, true, false, ◌&&◌, Option, none, some, List, [], ◌∷◌, ◌≡◌,
  refl, ap, ◌∙◌, arith, All, map,
}
use dawos_agent.Prelude.Texts.{strip, to_lower, text_beq_iff}
use dawos_agent.Prelude.Texts.Lines.{is_break, IsLine}
use dawos_agent.Sections.{opens, key_rest, key_number, is_some, after_key}
use dawos_agent.Sections.Edits.{Keeps, ends, inserted, dropped, copied, copied_header}
use dawos_agent.Sections.Assign.{number-IsLine, key_number-clash, clash}
use dawos_agent.ConnectionLimits.{
  pppoe, opens_general, sessions_line, starting_line, inject, inject_missing, given, sets_key,
  edit_limits,
}
use dawos_agent.ConnectionLimits.Lines.{
  sessions_key, starting_key, sessions_no_header, starting_no_header, sessions_other,
  starting_other, sessions_stripped, starting_stripped, edit-induction,
}
use dawos_agent.ConnectionLimits.Given.{in_pppoe, both}

abbrev pub timeout_key : Text
timeout_key = codes "session-timeout"

sets-rest :
    (m : Option ℕ) (p : Bool) (key line : Text)
    → (p && sets_key m key line) ≡ true
    → is_some (key_rest key line) ≡ true
sets-rest none p key line h = absurd (ground (arith, h))
sets-rest (some n) p key line h = (both h).1

-- What holds of the lines that follow and of them with a limit's line in front.
module _ (Q : List Text → Type 0) where
  inject_closed :
      (line : ℕ → Text) (m : Option ℕ) (set : Bool) (out : List Text)
      → ((n : ℕ) → m ≡ some n → Q out → Q (line n ∷ out))
      → Q out
      → Q (inject line m set out)
  unfolding inject
  inject_closed line none set out h q = q
  inject_closed line (some n) true out h q = q
  inject_closed line (some n) false out h q = h n refl q

  inject_missing_closed :
      (ms mst : Option ℕ) (p a b : Bool) (out : List Text)
      → ((n : ℕ) → ms ≡ some n → (rest : List Text) → Q rest → Q (sessions_line n ∷ rest))
      → ((n : ℕ) → mst ≡ some n → (rest : List Text) → Q rest → Q (starting_line n ∷ rest))
      → Q out
      → Q (inject_missing ms mst p a b out)
  unfolding inject_missing
  inject_missing_closed ms mst false a b out hs ht q = q
  inject_missing_closed ms mst true a b out hs ht q =
      inject_closed sessions_line ms a (inject starting_line mst b out)
        (λ n given. hs n given (inject starting_line mst b out))
        (inject_closed starting_line mst b out (λ n given. ht n given out) q)

missing_sessions :
    (mst : Option ℕ) (p a b : Bool) (lines out : List Text)
    → Keeps in_pppoe (key_number sessions_key) p lines out
    → Keeps in_pppoe (key_number sessions_key) p lines (inject_missing none mst p a b out)
missing_sessions mst p a b lines out =
    inject_missing_closed (Keeps in_pppoe (key_number sessions_key) p lines) none mst p a b out
      (λ n given rest. absurd (cc))
      (λ n given rest. inserted (starting_line n) (starting_no_header n) (starting_other n))

other_line_sessions :
    (mst : Option ℕ) (p : Bool) (line : Text)
    → (p && sets_key mst starting_key line) ≡ true
    → key_number sessions_key line ≡ none
unfolding clash
other_line_sessions mst p line sets =
    key_number-clash starting_key sessions_key line refl (sets-rest mst p starting_key line sets)

-- A limit that is not given is not touched.
pub edit-Keeps_sessions :
    (mst : Option ℕ) (lines : List Text) (p a b : Bool)
    → Keeps in_pppoe (key_number sessions_key) p lines (edit_limits none mst lines p a b)
edit-Keeps_sessions mst =
    edit-induction none mst
      (λ p a b lines out. Keeps in_pppoe (key_number sessions_key) p lines out)
      (λ p a b. missing_sessions mst p a b [] [] ends)
      (λ p a b raw lines out opened after.
        missing_sessions mst p a b (raw ∷ lines) (raw ∷ out) (copied_header raw opened refl after))
      (λ p a b raw lines out plain sets after. absurd (ground (arith, sets)))
      (λ p a b raw lines out plain sets after.
        inserted (starting_line (given mst)) (starting_no_header (given mst))
          (starting_other (given mst))
          (dropped raw plain (λ here. other_line_sessions mst p (strip raw) sets) after))
      (λ p a b raw lines out plain other starting after. copied raw plain after)

missing_starting :
    (ms : Option ℕ) (p a b : Bool) (lines out : List Text)
    → Keeps in_pppoe (key_number starting_key) p lines out
    → Keeps in_pppoe (key_number starting_key) p lines (inject_missing ms none p a b out)
missing_starting ms p a b lines out =
    inject_missing_closed (Keeps in_pppoe (key_number starting_key) p lines) ms none p a b out
      (λ n given rest. inserted (sessions_line n) (sessions_no_header n) (sessions_other n))
      (λ n given rest. absurd (cc))

other_line_starting :
    (ms : Option ℕ) (p : Bool) (line : Text)
    → (p && sets_key ms sessions_key line) ≡ true
    → key_number starting_key line ≡ none
unfolding clash
other_line_starting ms p line sets =
    key_number-clash sessions_key starting_key line refl (sets-rest ms p sessions_key line sets)

pub edit-Keeps_starting :
    (ms : Option ℕ) (lines : List Text) (p a b : Bool)
    → Keeps in_pppoe (key_number starting_key) p lines (edit_limits ms none lines p a b)
edit-Keeps_starting ms =
    edit-induction ms none (λ p a b lines out. Keeps in_pppoe (key_number starting_key) p lines out)
      (λ p a b. missing_starting ms p a b [] [] ends)
      (λ p a b raw lines out opened after.
        missing_starting ms p a b (raw ∷ lines) (raw ∷ out) (copied_header raw opened refl after))
      (λ p a b raw lines out plain sets after.
        inserted (sessions_line (given ms)) (sessions_no_header (given ms))
          (sessions_other (given ms))
          (dropped raw plain (λ here. other_line_starting ms p (strip raw) sets) after))
      (λ p a b raw lines out plain sets after. absurd (ground (arith, sets)))
      (λ p a b raw lines out plain sessions other after. copied raw plain after)

pub sessions_timeout : (n : ℕ) → key_number timeout_key (strip (sessions_line n)) ≡ none
sessions_timeout n =
    ap (key_number timeout_key) (sessions_stripped n)
    ∙ unfold key_number key_rest after_key to_lower in refl

pub starting_timeout : (n : ℕ) → key_number timeout_key (strip (starting_line n)) ≡ none
starting_timeout n =
    ap (key_number timeout_key) (starting_stripped n)
    ∙ unfold key_number key_rest after_key to_lower in refl

IsLine-sessions : (n : ℕ) → IsLine (sessions_line n)
IsLine-sessions n = number-IsLine (codes "max-sessions=") n (unfold is_break in refl)

IsLine-starting : (n : ℕ) → IsLine (starting_line n)
IsLine-starting n = number-IsLine (codes "max-starting=") n (unfold is_break in refl)

inject-IsLine :
    (ms mst : Option ℕ) (p a b : Bool) (out : List Text)
    → All IsLine out
    → All IsLine (inject_missing ms mst p a b out)
inject-IsLine ms mst p a b out =
    inject_missing_closed (All IsLine) ms mst p a b out (λ n given rest h. (IsLine-sessions n, h))
      (λ n given rest h. (IsLine-starting n, h))

pub edit-IsLine :
    (ms mst : Option ℕ) (lines : List Text) (p a b : Bool)
    → All IsLine lines
    → All IsLine (edit_limits ms mst lines p a b)
edit-IsLine ms mst =
    edit-induction ms mst (λ p a b lines out. All IsLine lines → All IsLine out)
      (λ p a b h. inject-IsLine ms mst p a b [] h)
      (λ p a b raw lines out opened rest h. inject-IsLine ms mst p a b (raw ∷ out) (h.0, rest h.1))
      (λ p a b raw lines out plain sets rest h. (IsLine-sessions (given ms), rest h.1))
      (λ p a b raw lines out plain sets rest h. (IsLine-starting (given mst), rest h.1))
      (λ p a b raw lines out plain other starting rest h. (h.0, rest h.1))

-- A section is not [pppoe] and [common] or [general] at once.
general_apart : (line : Text) → opens pppoe line ≡ true → opens_general line ≡ false
unfolding opens
general_apart line h = ground (
  arith,
  h,
  text_beq_iff (map to_lower line) pppoe,
  text_beq_iff (map to_lower line) (codes "[common]"),
  text_beq_iff (map to_lower line) (codes "[general]"),
)

missing_timeout :
    (ms mst : Option ℕ) (p a b g : Bool) (lines out : List Text)
    → Keeps opens_general (key_number timeout_key) g lines out
    → Keeps opens_general (key_number timeout_key) g lines (inject_missing ms mst p a b out)
missing_timeout ms mst p a b g lines out =
    inject_missing_closed (Keeps opens_general (key_number timeout_key) g lines) ms mst p a b out
      (λ n given rest. inserted (sessions_line n) (sessions_no_header n) (sessions_timeout n))
      (λ n given rest. inserted (starting_line n) (starting_no_header n) (starting_timeout n))

pub edit-Keeps_timeout :
    (ms mst : Option ℕ) (lines : List Text) (p a b g : Bool)
    → (p ≡ true → g ≡ false)
    → Keeps opens_general (key_number timeout_key) g lines (edit_limits ms mst lines p a b)
edit-Keeps_timeout ms mst =
    edit-induction ms mst
      (λ p a b lines out.
        (g : Bool)
        → (p ≡ true → g ≡ false)
        → Keeps opens_general (key_number timeout_key) g lines out)
      (λ p a b g apart. missing_timeout ms mst p a b g [] [] ends)
      (λ p a b raw lines out opened after g apart.
        missing_timeout ms mst p a b g (raw ∷ lines) (raw ∷ out) (
          copied_header raw opened refl
            (after (opens_general (strip raw)) (general_apart (strip raw)))))
      (λ p a b raw lines out plain sets after g apart.
        inserted (sessions_line (given ms)) (sessions_no_header (given ms))
          (sessions_timeout (given ms))
          (dropped raw plain (λ here. absurd (cc (here, apart (both sets).0))) (after g apart)))
      (λ p a b raw lines out plain sets after g apart.
        inserted (starting_line (given mst)) (starting_no_header (given mst))
          (starting_timeout (given mst))
          (dropped raw plain (λ here. absurd (cc (here, apart (both sets).0))) (after g apart)))
      (λ p a b raw lines out plain sessions other after g apart. copied raw plain (after g apart))
