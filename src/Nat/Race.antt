-- ===== src/Nat/Race.antt =====
-- The listing of the chain and the adding of the rule as two steps, with another request in between.
use dawos_agent.Prelude.{suc, text_eq, true, false, ok, ◌≡◌, ◌∙◌, ap, refl, ltb}
use dawos_agent.Prelude.Texts.{occurs_in}
use dawos_agent.Shell.{Shell, run}
use dawos_agent.Nat.{
  Command, list_chain, add_snat_rule, snat_rule, list_rule, add_unless, ensure_rule,
}
use dawos_agent.Nat.Ruleset.{Nft, effect, view, run-passed, list_rule-idle}

module _ (sh : Shell Command) (nft : Nft sh) where
  open sh use {World}

  -- An empty chain that is listed shows no rule.
  unlisted :
      (w : World)
      → (view sh nft w).rules ≡ 0
      → (run sh list_chain w).0.passed ≡ true
      → (list_rule sh w).0 ≡ false
  unlisted w empty shown = nft.shows w shown ∙ ap (ltb 0) empty

  add_unless-adds :
      (w : World)
      → (run sh add_snat_rule w).0.passed ≡ true
      → ((add_unless sh false w).0 ≡ ok tt)
        × ((view sh nft (add_unless sh false w).1).rules ≡ suc (view sh nft w).rules)
  unfolding effect
  add_unless-adds w added =
      rw added (refl, ap (λ r. r.rules) (run-passed sh nft add_snat_rule w added))

  added_twice :
      (w : World)
      → (view sh nft w).rules ≡ 0
      → (run sh add_snat_rule w).0.passed ≡ true
      → (run sh add_snat_rule (add_unless sh false w).1).0.passed ≡ true
      → let first = add_unless sh false w in
        let second = add_unless sh false first.1 in
        (first.0 ≡ ok tt) × (second.0 ≡ ok tt) × ((view sh nft second.1).rules ≡ 2)
  added_twice w empty one two =
      let first = add_unless-adds w one in
      let second = add_unless-adds (add_unless sh false w).1 two in
      (first.0, second.0, second.1 ∙ ap suc (first.1 ∙ ap suc empty))

  -- Where nft's commands have their effects and a listing that passes shows the rule exactly if the chain
  -- has one: two requests that both list a chain without the rule before either adds it, with listings and
  -- adding commands that pass, both go on without an error and leave the rule in the chain twice. And one
  -- request alone, whose listing does not show the rule, as a refused one may not, and whose adding command
  -- passes, adds a rule to those that are there, and goes on without an error.
  pub ensure_rule_overtaken :
      (w : World)
      → let v = (list_rule sh w).1 in
        let first = add_unless sh (list_rule sh w).0 (list_rule sh v).1 in
        let second = add_unless sh (list_rule sh v).0 first.1 in
        ((view sh nft w).rules ≡ 0
          → (run sh list_chain w).0.passed ≡ true
          → (run sh list_chain v).0.passed ≡ true
          → (run sh add_snat_rule (list_rule sh v).1).0.passed ≡ true
          → (run sh add_snat_rule first.1).0.passed ≡ true
          → (first.0 ≡ ok tt) × (second.0 ≡ ok tt) × ((view sh nft second.1).rules ≡ 2))
        × (occurs_in snat_rule (run sh list_chain w).0.output ≡ false
            → (run sh add_snat_rule v).0.passed ≡ true
            → ((ensure_rule sh w).0 ≡ ok tt)
              × ((view sh nft (ensure_rule sh w).1).rules ≡ suc (view sh nft w).rules))
  unfolding ensure_rule
  ensure_rule_overtaken w =
      let v = (list_rule sh w).1 in
      let u = (list_rule sh v).1 in
      let still : view sh nft v ≡ view sh nft w = list_rule-idle sh nft w in
      (
        (λ empty shown shown_again one two.
            let none_first = unlisted w empty shown in
            let none_second = unlisted v (ap (λ r. r.rules) still ∙ empty) shown_again in
            rw (none_first, none_second)
              (added_twice u (ap (λ r. r.rules) (list_rule-idle sh nft v ∙ still) ∙ empty) one
                (rw none_first at two))),
        (λ missing added.
            let one_more = add_unless-adds v added in
            rw missing (one_more.0, one_more.1 ∙ ap (λ r. suc r.rules) still)),
      )
