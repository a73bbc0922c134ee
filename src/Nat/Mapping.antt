-- ===== src/Nat/Mapping.antt =====
-- What the operations do to the map of a host whose nft behaves: each sets or clears one mapping or
-- changes nothing, and adds no second rule to a chain that was listed.
use dawos_agent.Prelude.{
  ◌≤◌, Text, text_eq, Bool, true, false, [], Result, ok, ◌≡◌, refl, ap, ◌∙◌, ◌==◌, ◌&&◌, not,
  Bool-cases, Result-cases, inl, inr,
}
use dawos_agent.Prelude.Exec.{continue, ◌>>=◌, pure}
use dawos_agent.Prelude.Dict.{Dict, put, delete}
use dawos_agent.Shell.{Shell, run}
use dawos_agent.Nat.{
  Command, list_table, NatFailure, add_element, delete_element, run_ok, ensure_egress_table,
  persist, set_egress, clear_egress,
}
use dawos_agent.Nat.Ruleset.{
  Ruleset, effect, Nft, view, passes, Ensured, run-passed, run-failed, ensure_egress_table-Ensured,
  listing_passes, persist-keeps,
}

-- An operation that is done makes `changed` of the map, and one that raises leaves it. Where the listing
-- passed, the chain of one rule at most stays such, and has one rule when the operation is done.
pub record Changes (changed : Dict Text Text → Dict Text Text) (r s : Ruleset) (listed done : Bool)
    : Type 0 where
  pub egress_done : done ≡ true → s.egress ≡ changed r.egress
  pub egress_raised : done ≡ false → s.egress ≡ r.egress
  pub rules_kept : listed ≡ true → r.rules ≤ 1 → s.rules ≤ 1
  pub rules_one : listed ≡ true → done ≡ true → r.rules ≤ 1 → s.rules ≡ 1

module _ (changed : Dict Text Text → Dict Text Text) where
  raised-Changes :
      (r q s : Ruleset) (listed done : Bool)
      → Ensured r q listed done
      → s ≡ q
      → Changes changed r s listed false
  raised-Changes r q s listed done ensured same = record {
    egress_done = λ no. absurd (cc);
    egress_raised = λ yes. ap (λ t. t.egress) same ∙ ensured.same_egress;
    rules_kept = λ shown few. rw same (ensured.at_most_one shown few);
    rules_one = λ shown no few. absurd (cc);
  }

  done-Changes :
      (r q s : Ruleset) (listed : Bool)
      → Ensured r q listed true
      → s.egress ≡ changed q.egress
      → s.rules ≡ q.rules
      → Changes changed r s listed true
  done-Changes r q s listed ensured there same = record {
    egress_done = λ yes. there ∙ ap changed ensured.same_egress;
    egress_raised = λ no. absurd (cc);
    rules_kept = λ shown few. rw same (ensured.at_most_one shown few);
    rules_one = λ shown yes few. same ∙ ensured.one shown refl few;
  }

module _ (sh : Shell Command) (nft : Nft sh) where
  open sh use {World}

  abbrev pub saved_with : Text → World → Result NatFailure Text × World
  saved_with message = do saved ← persist sh; pure message

  -- A command on the map behind the set-up, and the saving behind it.
  abbrev operation : Command → Text → World → Result NatFailure Text × World
  operation cmd message = do
    ensured ← ensure_egress_table sh
    output ← run_ok sh cmd
    saved ← persist sh
    pure message

  pub saved-passes :
      (message : Text) (v : World)
      → ((saved_with message v).0 ≡ ok message) × ((saved_with message v).1 ≡ (persist sh v).1)
  unfolding persist
  saved-passes message v =
      elim (Bool-cases
        ((run sh list_table v).0.passed && not ((run sh list_table v).0.output == []))) [
          | inl e ↦ rw e (refl, refl)
          | inr e ↦ rw e (refl, refl)
        ]

  module _ (cmd : Command) (changed : Dict Text Text → Dict Text Text) (message : Text)
      (does : (r : Ruleset)
        → ((effect cmd r).egress ≡ changed r.egress) × ((effect cmd r).rules ≡ r.rules)) where
    command-Changes :
        (r : Ruleset) (w : World) (listed : Bool)
        → Ensured r (view sh nft w) listed true
        → Changes changed r
            (view sh nft
              (continue (run_ok sh cmd w).0 (λ output. saved_with message) (run_ok sh cmd w).1).1)
            listed
            (passes
              (continue (run_ok sh cmd w).0 (λ output. saved_with message) (run_ok sh cmd w).1).0)
    unfolding run_ok
    command-Changes r w listed ensured = elim (Bool-cases (run sh cmd w).0.passed) [
      | inl e ↦
          let v = (run sh cmd w).1 in
          let kept = persist-keeps sh nft v in
          let ran = run-passed sh nft cmd w e in
          rw e (
            rw (saved-passes message v).0 (
              rw (saved-passes message v).1 (
                done-Changes changed r (view sh nft w) _ listed ensured
                  (kept.0 ∙ ap (λ t. t.egress) ran ∙ (does _).0)
                  (kept.1 ∙ ap (λ t. t.rules) ran ∙ (does _).1))))
      | inr e ↦ rw e (raised-Changes changed r _ _ listed true ensured (run-failed sh nft cmd w e))
    ]

    operation-Changes :
        (w : World)
        → Changes changed
            (view sh nft w)
            (view sh nft (operation cmd message w).1)
            (listing_passes sh nft w)
            (passes (operation cmd message w).0)
    operation-Changes w =
        let ensured = ensure_egress_table-Ensured sh nft w in
        elim (Result-cases (ensure_egress_table sh w).0) [
          | inl (a, e) ↦ rw e (command-Changes _ _ _ (rw e at ensured))
          | inr (failure, e) ↦ rw e (raised-Changes changed _ _ _ _ _ ensured refl)
        ]

  pub set_egress-Changes :
      (c p : Text) (w : World)
      → Changes
          (put c p)
          (view sh nft w)
          (view sh nft (set_egress sh c p w).1)
          (listing_passes sh nft w)
          (passes (set_egress sh c p w).0)
  unfolding set_egress
  set_egress-Changes c p w =
      operation-Changes (add_element c p) (put c p) _ (λ r. unfold effect in (refl, refl)) w

  pub clear_egress-Changes :
      (c : Text) (w : World)
      → Changes
          (delete c)
          (view sh nft w)
          (view sh nft (clear_egress sh c w).1)
          (listing_passes sh nft w)
          (passes (clear_egress sh c w).0)
  unfolding clear_egress
  clear_egress-Changes c w =
      operation-Changes (delete_element c) (delete c) _ (λ r. unfold effect in (refl, refl)) w
