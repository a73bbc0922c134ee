-- ===== src/Nat/Ruleset.antt =====
-- What nft and tee do to the table and to the file, and what the table's set-up does with them.
use mathlib.Core.Path.{subst}
use dawos_agent.Prelude.{
  ℕ, suc, ◌≤◌, Text, text_eq, Bool, true, false, List, [], ◌∷◌, Result, ok, err, ◌≡◌, refl, ap, ◌∙◌,
  arith, All, text_beq_iff, ◌≢◌, ltb, not, ◌||◌, Bool-cases, Result-cases, inl, inr,
}
use dawos_agent.Prelude.Dict.{Dict, put, delete}
use dawos_agent.Prelude.Texts.{occurs_in}
use dawos_agent.Shell.{Shell, run, Effects}
use dawos_agent.Nat.{
  Command, add_table, add_map, add_chain, list_chain, add_snat_rule, list_map, list_table,
  delete_table, route_default, addr_show, add_element, addr_add, addr_del, delete_element, tee,
  snat_rule, run_base, add_rule, saved_content, ensure_rule, ensure_egress_table, persist,
  base_cmds, list_rule,
}

-- The SNAT rules of the chain, the elements of the map, and what the file holds.
pub record Ruleset : Type 0 where
  pub rules : ℕ
  pub egress : Dict Text Text
  pub saved : Text

-- What a command changes when it passes.
unfoldable pub effect : Command → Ruleset → Ruleset
effect add_table r = r
effect add_map r = r
effect add_chain r = r
effect list_chain r = r
effect add_snat_rule r = record { rules = suc r.rules; egress = r.egress; saved = r.saved }
effect list_map r = r
effect list_table r = r
effect delete_table r = record { rules = 0; egress = []; saved = r.saved }
effect route_default r = r
effect addr_show r = r
effect (add_element c p) r = record { rules = r.rules; egress = put c p r.egress; saved = r.saved }
effect (addr_add p i) r = r
effect (addr_del p i) r = r
effect (delete_element c) r = record {
  rules = r.rules;
  egress = delete c r.egress;
  saved = r.saved;
}
effect (tee content) r = record { rules = r.rules; egress = r.egress; saved = content }

-- The host's nft: its commands have these effects, and a listing of the chain that passes shows the rule
-- exactly where the chain has one. A listing that is refused can show anything.
pub record Nft (sh : Shell Command) : Type 0 where
  pub effects : Effects sh effect
  pub shows :
      (w : sh.World)
      → (run sh list_chain w).0.passed ≡ true
      → occurs_in snat_rule (run sh list_chain w).0.output ≡ ltb 0 (effects.view w).rules

abbrev pub passes : {E A : Type 0} → Result E A → Bool
passes (ok a) = true
passes (err e) = false

-- The set-up touches neither the map nor the file. Where the listing passed, it leaves a chain of one
-- rule at most as such, and with one rule when it succeeds.
pub record Ensured (r s : Ruleset) (listed done : Bool) : Type 0 where
  pub same_egress : s.egress ≡ r.egress
  pub same_saved : s.saved ≡ r.saved
  pub at_most_one : listed ≡ true → r.rules ≤ 1 → s.rules ≤ 1
  pub one : listed ≡ true → done ≡ true → r.rules ≤ 1 → s.rules ≡ 1

same-Ensured : (r s : Ruleset) (listed : Bool) → s ≡ r → Ensured r s listed false
same-Ensured r s listed same = record {
  same_egress = ap (λ t. t.egress) same;
  same_saved = ap (λ t. t.saved) same;
  at_most_one = λ shown. rw same (λ h. h);
  one = λ shown no h. absurd (cc);
}

rule-Ensured :
    (r s : Ruleset) (listed : Bool)
    → s ≡ effect add_snat_rule r
    → (listed ≡ true → r.rules ≡ 0)
    → Ensured r s listed true
unfolding effect
rule-Ensured r s listed added none_yet = record {
  same_egress = ap (λ t. t.egress) added;
  same_saved = ap (λ t. t.saved) added;
  at_most_one = λ shown h. omega (arith, none_yet shown, ap (λ t. t.rules) added);
  one = λ shown yes h. omega (arith, none_yet shown, ap (λ t. t.rules) added);
}

-- The rule is there.
listed-Ensured :
    (r s : Ruleset) (listed : Bool)
    → s ≡ r
    → (listed ≡ true → r.rules ≤ 1 → r.rules ≡ 1)
    → Ensured r s listed true
listed-Ensured r s listed same there = record {
  same_egress = ap (λ t. t.egress) same;
  same_saved = ap (λ t. t.saved) same;
  at_most_one = λ shown. rw same (λ h. h);
  one = λ shown yes h. ap (λ t. t.rules) same ∙ there shown h;
}

from-Ensured :
    (q r s : Ruleset) (listed done : Bool)
    → q ≡ r
    → Ensured q s listed done
    → Ensured r s listed done
from-Ensured q r s listed done same ensured = subst (λ t. Ensured t s listed done) same ensured

module _ (sh : Shell Command) (nft : Nft sh) where
  open sh use {World}

  abbrev pub view : World → Ruleset
  view = nft.effects.view

  -- A command that changes nothing changes nothing.
  pub run-idle :
      (cmd : Command) (w : World) → effect cmd (view w) ≡ view w → view (run sh cmd w).1 ≡ view w
  run-idle cmd w idle = nft.effects.runs cmd w ∙ ground (arith, idle)

  run_base-idle :
      (cmds : List Command) (w : World)
      → All (λ cmd. (r : Ruleset) → effect cmd r ≡ r) cmds
      → view (run_base sh cmds w).1 ≡ view w
  unfolding run_base
  run_base-idle [] w h = refl
  run_base-idle (cmd ∷ cmds) w (h, hs) = elim (Bool-cases (run sh cmd w).0.passed) [
    | inl e ↦ rw e (run_base-idle cmds (run sh cmd w).1 hs ∙ run-idle cmd w (h (view w)))
    | inr e ↦ rw e (run-idle cmd w (h (view w)))
  ]

  pub run-passed :
      (cmd : Command) (w : World)
      → (run sh cmd w).0.passed ≡ true
      → view (run sh cmd w).1 ≡ effect cmd (view w)
  run-passed cmd w e = nft.effects.runs cmd w ∙ rw e refl

  pub run-failed :
      (cmd : Command) (w : World) → (run sh cmd w).0.passed ≡ false → view (run sh cmd w).1 ≡ view w
  run-failed cmd w e = nft.effects.runs cmd w ∙ rw e refl

  add_rule-Ensured :
      (w : World) (listed : Bool)
      → (listed ≡ true → (view w).rules ≡ 0)
      → Ensured (view w) (view (add_rule sh w).1) listed (passes (add_rule sh w).0)
  add_rule-Ensured w listed none_yet = elim (Bool-cases (run sh add_snat_rule w).0.passed) [
    | inl e ↦ rw e (rule-Ensured _ _ listed (run-passed add_snat_rule w e) none_yet)
    | inr e ↦ rw e (same-Ensured _ _ listed (run-failed add_snat_rule w e))
  ]

  pub list_rule-idle : (w : World) → view (list_rule sh w).1 ≡ view w
  list_rule-idle w = run-idle list_chain w (unfold effect in refl)

  ensure_rule-Ensured :
      (w : World)
      → Ensured
          (view w)
          (view (ensure_rule sh w).1)
          (run sh list_chain w).0.passed
          (passes (ensure_rule sh w).0)
  unfolding ensure_rule
  ensure_rule-Ensured w =
      let idle = list_rule-idle w in
      elim (Bool-cases (occurs_in snat_rule (run sh list_chain w).0.output)) [
        | inl there ↦
            rw there
              (listed-Ensured _ _ _ idle (λ shown h. ground (arith, nft.shows w shown, there, h)))
        | inr missing ↦ rw missing (
            from-Ensured _ _ _ _ _ idle (
              add_rule-Ensured (run sh list_chain w).1 _
                (λ shown. ap (λ r. r.rules) idle ∙ ground (arith, nft.shows w shown, missing))))
      ]

  -- The listing passes, if the set-up comes to it.
  unfoldable pub listing_passes : World → Bool
  listing_passes w =
      not (passes (run_base sh base_cmds w).0)
      || (run sh list_chain (run_base sh base_cmds w).1).0.passed

  pub ensure_egress_table-Ensured :
      (w : World)
      → Ensured
          (view w)
          (view (ensure_egress_table sh w).1)
          (listing_passes w)
          (passes (ensure_egress_table sh w).0)
  unfolding ensure_egress_table listing_passes effect
  ensure_egress_table-Ensured w =
      let idle : view (run_base sh base_cmds w).1 ≡ view w =
        run_base-idle base_cmds w ((λ r. refl), ((λ r. refl), ((λ r. refl), tt))) in
      elim (Result-cases (run_base sh base_cmds w).0) [
        | inl (a, done) ↦ rw done (from-Ensured _ _ _ _ _ idle (ensure_rule-Ensured _))
        | inr (e, failed) ↦ rw failed (same-Ensured _ _ _ idle)
      ]

  listed_idle : (w : World) → view (run sh list_table w).1 ≡ view w
  unfolding effect
  listed_idle w = run-idle list_table w refl

  tee-keeps :
      (content : Text) (w : World)
      → ((view (run sh (tee content) w).1).egress ≡ (view w).egress)
        × ((view (run sh (tee content) w).1).rules ≡ (view w).rules)
  unfolding effect
  tee-keeps content w = ground (arith, nft.effects.runs (tee content) w)

  -- What is saved is no part of the table.
  pub persist-keeps :
      (w : World)
      → ((view (persist sh w).1).egress ≡ (view w).egress)
        × ((view (persist sh w).1).rules ≡ (view w).rules)
  unfolding persist
  persist-keeps w = ground (
    arith,
    listed_idle w,
    tee-keeps (saved_content (run sh list_table w).0.output) (run sh list_table w).1,
  )

  -- The file holds the listing of the table.
  pub persist-saves :
      (w : World)
      → (run sh list_table w).0.passed ≡ true
      → (run sh list_table w).0.output ≢ []
      → (run sh
          (tee (saved_content (run sh list_table w).0.output))
          (run sh list_table w).1).0.passed
        ≡ true
      → (view (persist sh w).1).saved ≡ saved_content (run sh list_table w).0.output
  unfolding persist effect
  persist-saves w listed some_text written = ground (
    arith,
    run-passed (tee (saved_content (run sh list_table w).0.output)) (run sh list_table w).1 written,
    text_beq_iff (run sh list_table w).0.output [],
  )
