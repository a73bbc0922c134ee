-- ===== src/Nat/Answers.antt =====
-- The answers of the endpoints that set and clear a mapping, and what is saved.
use dawos_agent.Prelude.{
  ◌≤◌, Text, codes, text_eq, Bool, true, false, Option, none, some, [], ◌++◌, Result, ok, err, ◌≡◌,
  ◌≢◌, refl, ap, ◌∙◌, arith, text_beq_iff,
}
use dawos_agent.Prelude.Dict.{get, put, delete, get-put, get-delete}
use dawos_agent.Prelude.Texts.{occurs_in, starts_with, to_lower}
use dawos_agent.Shell.{Shell, run}
use dawos_agent.Nat.{
  Command, NatFailure, add_table, add_element, list_table, tee, set_egress, clear_egress, run_base,
  run_ok, ensure_egress_table, saved_content, command_line,
}
use dawos_agent.Nat.Ruleset.{Ruleset, Nft, view, passes, persist-saves, listing_passes}
use dawos_agent.Nat.Endpoints.{
  HttpError, respond, bad_request, clear_error, post_egress, delete_egress,
}
use dawos_agent.Nat.Mapping.{Changes, saved-passes, set_egress-Changes, clear_egress-Changes}

-- Without an exception `c` has the public address `now`; with one the map is as it was. No other
-- subscriber's address changes in either case. A chain of one rule at most is kept so where the listing
-- passed, and has one rule without an exception.
abbrev pub Moves :
    {A : Type 0} → Text → Option Text → Ruleset → Ruleset → Bool → Result HttpError A → Type 0
Moves c now r s listed (ok a) =
    (get c s.egress ≡ now)
    × ((d : Text) → c ≢ d → get d s.egress ≡ get d r.egress)
    × (listed ≡ true → r.rules ≤ 1 → s.rules ≡ 1)
Moves c now r s listed (err e) = (s.egress ≡ r.egress) × (listed ≡ true → r.rules ≤ 1 → s.rules ≤ 1)

put-Moves :
    {A : Type 0} (f : Text → A) (handle : NatFailure → HttpError) (c p : Text) (r s : Ruleset)
    (listed : Bool) (answer : Result NatFailure Text)
    → Changes (put c p) r s listed (passes answer)
    → Moves c (some p) r s listed (respond f handle answer)
put-Moves f handle c p r s listed (ok m) changes = (
  rw (changes.egress_done refl) (ground (arith, get-put c c p r.egress, text_beq_iff c c)),
  λ d other.
      rw (changes.egress_done refl)
        (ground (arith, get-put c d p r.egress, text_beq_iff c d, other)),
  λ shown. changes.rules_one shown refl,
)
put-Moves f handle c p r s listed (err e) changes = (changes.egress_raised refl, changes.rules_kept)

delete-Moves :
    {A : Type 0} (f : Text → A) (handle : NatFailure → HttpError) (c : Text) (r s : Ruleset)
    (listed : Bool) (answer : Result NatFailure Text)
    → Changes (delete c) r s listed (passes answer)
    → Moves c none r s listed (respond f handle answer)
delete-Moves f handle c r s listed (ok m) changes = (
  rw (changes.egress_done refl) (ground (arith, get-delete c c r.egress, text_beq_iff c c)),
  λ d other.
      rw (changes.egress_done refl)
        (ground (arith, get-delete c d r.egress, text_beq_iff c d, other)),
  λ shown. changes.rules_one shown refl,
)
delete-Moves f handle c r s listed (err e) changes =
    (changes.egress_raised refl, changes.rules_kept)

module _ (sh : Shell Command) (nft : Nft sh) where
  open sh use {World}

  -- Where nft's commands have their effects, `POST /nat/egress` and `DELETE /nat/egress/{customer_ip}`,
  -- with no other request in between, move a mapping whole or not at all: without an exception the
  -- subscriber has the public address, or has none, and no other subscriber's changed; with an exception
  -- the map is as it was. And where a listing that passes shows the rule exactly if the chain has one, and
  -- the request's own listing passes, if it comes to one, a chain of one SNAT rule at most stays such, and
  -- has just one rule without an exception.
  pub egress-Moves :
      (c p : Text) (w : World)
      → Moves c
          (some p)
          (view sh nft w)
          (view sh nft (post_egress sh c p w).1)
          (listing_passes sh nft w)
          (post_egress sh c p w).0
        × Moves c none
            (view sh nft w)
            (view sh nft (delete_egress sh c w).1)
            (listing_passes sh nft w)
            (delete_egress sh c w).0
  unfolding post_egress delete_egress
  egress-Moves c p w = (
    put-Moves _ bad_request c p _ _ _ (set_egress sh c p w).0 (set_egress-Changes sh nft c p w),
    delete-Moves _ (clear_error c) c _ _ _ (clear_egress sh c w).0
        (clear_egress-Changes sh nft c w),
  )

  -- When the table is set up and the element is added, the mapping is set whatever becomes of the file;
  -- and the file holds what nft then lists of the table, if it lists some and tee can write.
  pub set_egress-saves :
      (c p : Text) (w : World)
      → let w1 = (ensure_egress_table sh w).1 in
        let w2 = (run sh (add_element c p) w1).1 in
        let listing = (run sh list_table w2).0 in
        (ensure_egress_table sh w).0 ≡ ok tt
        → (run sh (add_element c p) w1).0.passed ≡ true
        → (passes (set_egress sh c p w).0 ≡ true)
          × (listing.passed ≡ true
              → listing.output ≢ []
              → (run sh (tee (saved_content listing.output)) (run sh list_table w2).1).0.passed
                ≡ true
              → (view sh nft (set_egress sh c p w).1).saved ≡ saved_content listing.output)
  unfolding set_egress run_ok
  set_egress-saves c p w ensured added =
      let w2 = (run sh (add_element c p) (ensure_egress_table sh w).1).1 in
      let message = codes "Egress set: " ++ (c ++ (codes " → " ++ p)) in
      rw ensured (
        rw added (
          ap passes (saved-passes sh nft message w2).0,
          λ listed some_text written.
              ap (λ v. (view sh nft v).saved) (saved-passes sh nft message w2).1
              ∙ persist-saves sh nft w2 listed some_text written,
        ))

module _ (sh : Shell Command) (c : Text) (w : sh.World) where
  -- A table that nft cannot set up is told as a mapping that is not there: where the first command
  -- fails, `DELETE /nat/egress/{customer_ip}` answers with 404 after that one command, whatever the map
  -- holds.
  pub delete_egress_unprepared :
      (run sh add_table w).0.passed ≡ false
      → delete_egress sh c w ≡ (
        err (record {
          status_code = 404;
          detail = codes "Egress mapping for '" ++ (c ++ codes "' not found");
        }),
        (run sh add_table w).1,
      )
  unfolding delete_egress clear_egress ensure_egress_table run_base
  delete_egress_unprepared failed =
      rw failed (unfold command_line occurs_in starts_with to_lower in refl)
