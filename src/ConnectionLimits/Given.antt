-- ===== src/ConnectionLimits/Given.antt =====
-- A limit that is given stands in every [pppoe] section of the edited lines, one that is not stays.
use dawos_agent.Prelude.{
  ℕ, Text, text_eq, nat_eq, Bool, true, false, ◌&&◌, Option, none, some, List, [], ◌≡◌, refl, arith,
}
use dawos_agent.Prelude.Texts.{strip}
use dawos_agent.Sections.{opens, key_rest, key_number, is_some}
use dawos_agent.Sections.Latest.{
  Sets, end_outside, end_written, insert_other, insert, drop_line, copy_line, copy_header,
}
use dawos_agent.Sections.Assign.{key_number-unset}
use dawos_agent.ConnectionLimits.{
  pppoe, sessions_line, starting_line, inject, inject_missing, given, sets_key, edit_limits,
}
use dawos_agent.ConnectionLimits.Lines.{
  sessions_key, starting_key, sessions_no_header, starting_no_header, sessions_read, starting_read,
  sessions_other, starting_other, edit-induction,
}

abbrev pub in_pppoe : Text → Bool
in_pppoe = opens pppoe

-- The lines that are missing, in front of the lines that follow.
module _ (n : ℕ) {lines out : List Text} where
  inject-sessions :
      (mst : Option ℕ) (p a b : Bool)
      → ((d : Bool)
          → (p ≡ true → d ≡ true)
          → Sets in_pppoe (key_number sessions_key) n p d lines out)
      → Sets in_pppoe (key_number sessions_key) n p a lines (inject_missing (some n) mst p a b out)
  unfolding inject_missing inject
  inject-sessions mst false a b base = base a (λ e. absurd (cc))
  inject-sessions none true true b base = base true (λ e. refl)
  inject-sessions none true false b base =
      insert (sessions_line n) refl (sessions_no_header n) (sessions_read n) (base true (λ e. refl))
  inject-sessions (some m) true true true base = base true (λ e. refl)
  inject-sessions (some m) true false true base =
      insert (sessions_line n) refl (sessions_no_header n) (sessions_read n) (base true (λ e. refl))
  inject-sessions (some m) true true false base =
      insert_other (starting_line m) (starting_no_header m) (starting_other m)
        (base true (λ e. refl))
  inject-sessions (some m) true false false base =
      insert (sessions_line n) refl (sessions_no_header n) (sessions_read n) (
        insert_other (starting_line m) (starting_no_header m) (starting_other m)
          (base true (λ e. refl)))

  inject-starting :
      (ms : Option ℕ) (p a b : Bool)
      → ((d : Bool)
          → (p ≡ true → d ≡ true)
          → Sets in_pppoe (key_number starting_key) n p d lines out)
      → Sets in_pppoe (key_number starting_key) n p b lines (inject_missing ms (some n) p a b out)
  unfolding inject_missing inject
  inject-starting ms false a b base = base b (λ e. absurd (cc))
  inject-starting none true a true base = base true (λ e. refl)
  inject-starting none true a false base =
      insert (starting_line n) refl (starting_no_header n) (starting_read n) (base true (λ e. refl))
  inject-starting (some m) true true true base = base true (λ e. refl)
  inject-starting (some m) true true false base =
      insert (starting_line n) refl (starting_no_header n) (starting_read n) (base true (λ e. refl))
  inject-starting (some m) true false true base =
      insert_other (sessions_line m) (sessions_no_header m) (sessions_other m)
        (base true (λ e. refl))
  inject-starting (some m) true false false base =
      insert_other (sessions_line m) (sessions_no_header m) (sessions_other m) (
        insert (starting_line n) refl (starting_no_header n) (starting_read n)
          (base true (λ e. refl)))

Sets-end :
    {opening : Text → Bool} {read : Text → Option ℕ} {n : ℕ} (p d : Bool)
    → (p ≡ true → d ≡ true)
    → Sets opening read n p d [] []
Sets-end false d h = end_outside
Sets-end true true h = end_written
Sets-end true false h = absurd (cc (h refl))

sets-rest :
    (m : Option ℕ) (key line : Text)
    → sets_key m key line ≡ true
    → is_some (key_rest key line) ≡ true
sets-rest none key line h = absurd (cc)
sets-rest (some n) key line h = h

pub both : {a b : Bool} → (a && b) ≡ true → (a ≡ true) × (b ≡ true)
both h = ground (arith, h)

unset :
    (n : ℕ) (p : Bool) (key line : Text)
    → (p && is_some (key_rest key line)) ≡ false
    → p ≡ true
    → key_number key line ≡ none
unset n p key line h here = key_number-unset key line (ground (arith, h, here))

pub edit-Sets_sessions :
    (n : ℕ) (mst : Option ℕ) (lines : List Text) (p a b : Bool)
    → Sets in_pppoe (key_number sessions_key) n p a lines (edit_limits (some n) mst lines p a b)
edit-Sets_sessions n mst =
    edit-induction (some n) mst
      (λ p a b lines out. Sets in_pppoe (key_number sessions_key) n p a lines out)
      (λ p a b. inject-sessions n mst p a b (λ d h. Sets-end p d h))
      (λ p a b raw lines out opened after.
        inject-sessions n mst p a b (λ d h. copy_header raw opened h refl after))
      (λ p a b raw lines out plain sets after.
        insert (sessions_line n) (both sets).0 (sessions_no_header n) (sessions_read n)
          (drop_line raw plain after))
      (λ p a b raw lines out plain sets after.
        insert_other (starting_line (given mst)) (starting_no_header (given mst))
          (starting_other (given mst)) (drop_line raw plain after))
      (λ p a b raw lines out plain other starting after.
        copy_line raw plain (unset n p sessions_key (strip raw) other) after)

pub edit-Sets_starting :
    (ms : Option ℕ) (n : ℕ) (lines : List Text) (p a b : Bool)
    → Sets in_pppoe (key_number starting_key) n p b lines (edit_limits ms (some n) lines p a b)
edit-Sets_starting ms n =
    edit-induction ms (some n)
      (λ p a b lines out. Sets in_pppoe (key_number starting_key) n p b lines out)
      (λ p a b. inject-starting n ms p a b (λ d h. Sets-end p d h))
      (λ p a b raw lines out opened after.
        inject-starting n ms p a b (λ d h. copy_header raw opened h refl after))
      (λ p a b raw lines out plain sets after.
        insert_other (sessions_line (given ms)) (sessions_no_header (given ms))
          (sessions_other (given ms)) (drop_line raw plain after))
      (λ p a b raw lines out plain sets after.
        insert (starting_line n) (both sets).0 (starting_no_header n) (starting_read n)
          (drop_line raw plain after))
      (λ p a b raw lines out plain sessions other after.
        copy_line raw plain (unset n p starting_key (strip raw) other) after)
