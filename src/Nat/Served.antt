-- ===== src/Nat/Served.antt =====
-- What the endpoints do to the map and to the chain, when each request is served before the next begins.
use mathlib.Core.Path.{subst}
use dawos_agent.Prelude.{
  text_beq_iff, ◌≤◌, Text, codes, text_eq, Bool, List, [], ◌∷◌, Result, ok, err, ◌≡◌, refl, sym, ap,
  ◌∙◌, arith, ◌==◌, not, ◌||◌, ◌&&◌, true, false, if◌then◌else◌, Bool-cases, Result-cases, inl, inr,
}
use dawos_agent.Prelude.Exec.{continue, Exec}
use dawos_agent.Prelude.Dict.{Dict, put, delete}
use dawos_agent.Shell.{Shell, run}
use dawos_agent.Nat.{
  Command, NatFailure, delete_table, addr_add, addr_del, route_default, run_ok, ensure_egress_table,
  set_egress, clear_egress, add_public_ip, remove_public_ip, or_uplink, detect_uplink,
  box_egress_set, box_on,
}
use dawos_agent.Nat.Ruleset.{
  Ruleset, effect, Nft, view, passes, run-passed, run-failed, run-idle, ensure_egress_table-Ensured,
  persist-keeps, listing_passes,
}
use dawos_agent.Nat.Endpoints.{
  HttpError, respond, bad_request, clear_error, post_egress, delete_egress, post_public_ip,
  delete_public_ip, box_egress_toggle, Request, set_mapping, add_ip, clear_mapping, remove_ip,
  toggle_box, answered, serve, serve_all,
}
use dawos_agent.Nat.Mapping.{saved-passes, Changes, set_egress-Changes, clear_egress-Changes}

-- What a request is there to do to the map.
unfoldable pub step : Request → Dict Text Text → Dict Text Text
step (set_mapping c p) m = put c p m
step (clear_mapping c) m = delete c m
step (add_ip p i) m = m
step (remove_ip p) m = m
step (toggle_box a) m = if a == codes "off" then [] else m

answered-respond :
    {A B : Type 0} (f : A → B) (handle : NatFailure → HttpError) (r : Result NatFailure A)
    → answered (respond f handle r) ≡ passes r
answered-respond f handle (ok a) = refl
answered-respond f handle (err e) = refl

-- Whether a request sets up the table, and so lists the chain.
abbrev pub lists : Request → Bool
lists (set_mapping c p) = true
lists (clear_mapping c) = true
lists (add_ip p i) = false
lists (remove_ip p) = false
lists (toggle_box a) = a == codes "on"

-- The map takes the request's step or stays as it is, and the chain that was listed does not get the rule
-- twice.
pub record Serves (request : Request) (r s : Ruleset) (listed taken : Bool) : Type 0 where
  pub map_after : s.egress ≡ (if taken then step request r.egress else r.egress)
  pub rules_after : listed ≡ true → r.rules ≤ 1 → s.rules ≤ 1

idle-Serves :
    (request : Request) (r s : Ruleset) (listed taken : Bool)
    → step request r.egress ≡ r.egress
    → s ≡ r
    → Serves request r s listed taken
idle-Serves request r s listed taken idle same = record {
  map_after = ap (λ t. t.egress) same ∙ ground (arith, idle);
  rules_after = λ shown. rw same (λ h. h);
}

Changes-Serves :
    (request : Request) (r s : Ruleset) (listed done : Bool)
    → Changes (step request) r s listed done
    → Serves request r s listed done
Changes-Serves request r s listed done changes = record {
  map_after = ground (arith, changes.egress_done, changes.egress_raised);
  rules_after = changes.rules_kept;
}

module _ (sh : Shell Command) where
  open sh use {World}

  -- Whether a request did what it is there for: the box is off when nft took the table out, and nothing
  -- but nft knows that.
  unfoldable pub taken : Request → World → Bool
  taken (toggle_box a) w =
      if a == codes "off" then (run sh delete_table w).0.passed else (serve sh (toggle_box a) w).0
  taken (set_mapping c p) w = (serve sh (set_mapping c p) w).0
  taken (clear_mapping c) w = (serve sh (clear_mapping c) w).0
  taken (add_ip p i) w = (serve sh (add_ip p i) w).0
  taken (remove_ip p) w = (serve sh (remove_ip p) w).0

  -- The requests of a sequence, one after the other on a plain map, where each was taken.
  unfoldable pub replay : List Request → World → Dict Text Text → Dict Text Text
  replay [] w m = m
  replay (request ∷ requests) w m =
      replay requests (serve sh request w).1 (if taken request w then step request m else m)

module _ (sh : Shell Command) (nft : Nft sh) where
  open sh use {World}

  -- The listing of the request passes, if the request comes to one.
  unfoldable pub listed : Request → World → Bool
  listed request w = not (lists request) || listing_passes sh nft w

  -- Each request of the sequence has a listing that passes, if it comes to one.
  unfoldable pub all_listed : List Request → World → Bool
  all_listed [] w = true
  all_listed (request ∷ requests) w = listed request w && all_listed requests (serve sh request w).1

  run_ok-idle :
      (cmd : Command) (w : World)
      → effect cmd (view sh nft w) ≡ view sh nft w
      → view sh nft (run_ok sh cmd w).1 ≡ view sh nft w
  unfolding run_ok
  run_ok-idle cmd w idle = ground (arith, run-idle sh nft cmd w idle)

  detect_uplink-idle : (w : World) → view sh nft (detect_uplink sh w).1 ≡ view sh nft w
  unfolding detect_uplink effect
  detect_uplink-idle w = ground (arith, run-idle sh nft route_default w refl)

  or_uplink-idle :
      (interface : Text) (w : World) → view sh nft (or_uplink sh interface w).1 ≡ view sh nft w
  or_uplink-idle [] w = detect_uplink-idle w
  or_uplink-idle (c ∷ cs) w = refl

  -- What comes next leaves the table, so the whole does.
  continue-idle :
      {A B : Type 0} (r : Result NatFailure A) (f : A → Exec World NatFailure B) (w : World)
      → ((a : A) (v : World) → view sh nft (f a v).1 ≡ view sh nft v)
      → view sh nft (continue r f w).1 ≡ view sh nft w
  continue-idle (ok a) f w idle = idle a w
  continue-idle (err e) f w idle = refl

  -- An address is bound or taken off behind the look for the uplink.
  add_public_ip-idle :
      (p i : Text) (w : World) → view sh nft (add_public_ip sh p i w).1 ≡ view sh nft w
  unfolding add_public_ip effect
  add_public_ip-idle p i w =
      continue-idle (or_uplink sh i w).0 _ _ (λ uplink v.
        continue-idle (run_ok sh (addr_add p uplink) v).0 _ _ (λ output u. refl)
        ∙ run_ok-idle (addr_add p uplink) v refl)
      ∙ or_uplink-idle i w

  remove_public_ip-idle :
      (p i : Text) (w : World) → view sh nft (remove_public_ip sh p i w).1 ≡ view sh nft w
  unfolding remove_public_ip effect
  remove_public_ip-idle p i w =
      continue-idle (or_uplink sh i w).0 _ _ (λ uplink v.
        continue-idle (run_ok sh (addr_del p uplink) v).0 _ _ (λ output u. refl)
        ∙ run_ok-idle (addr_del p uplink) v refl)
      ∙ or_uplink-idle i w

  box_on-Ensured :
      (w : World)
      → ((view sh nft (box_on sh w).1).egress ≡ (view sh nft w).egress)
        × (listing_passes sh nft w ≡ true
            → (view sh nft w).rules ≤ 1
            → (view sh nft (box_on sh w).1).rules ≤ 1)
  unfolding box_on
  box_on-Ensured w =
      let ensured = ensure_egress_table-Ensured sh nft w in
      elim (Result-cases (ensure_egress_table sh w).0) [
        | inl (a, e) ↦
            let v = (ensure_egress_table sh w).1 in
            let kept = persist-keeps sh nft v in
            rw e (
              rw (saved-passes sh nft (codes "Box egress enabled") v).1 (
                kept.0 ∙ ensured.same_egress,
                λ shown few. rw (kept.1) (ensured.at_most_one shown few),
              ))
        | inr (failure, e) ↦ rw e (ensured.same_egress, ensured.at_most_one)
      ]

  Box : Text → World → Type 0
  Box a w =
      Serves (toggle_box a) (view sh nft w) (view sh nft (box_egress_set sh a w).1)
        (listed (toggle_box a) w) (taken sh (toggle_box a) w)

  toggle_off-Box : (w : World) → Box (codes "off") w
  unfolding Box box_egress_set taken step effect listed
  toggle_off-Box w = elim (Bool-cases (run sh delete_table w).0.passed) [
    | inl e ↦ rw e (
        rw (run-passed sh nft delete_table w e)
          (record { map_after = refl; rules_after = λ shown h. omega arith }))
    | inr e ↦ rw e (
        rw (run-failed sh nft delete_table w e)
          (record { map_after = refl; rules_after = λ shown h. h }))
  ]

  toggle_on-Box : (w : World) → Box (codes "on") w
  unfolding Box box_egress_set step listed
  toggle_on-Box w = record {
    map_after = ground (arith, (box_on-Ensured w).0);
    rules_after = (box_on-Ensured w).1;
  }

  action-Box : (a : Text) (w : World) → Box a w
  action-Box a w = elim (Bool-cases (a == codes "on")) [
    | inl e ↦ subst (λ t. Box t w) (sym ((text_beq_iff a (codes "on")).0 e)) (toggle_on-Box w)
    | inr not_on ↦ elim (Bool-cases (a == codes "off")) [
      | inl e ↦ subst (λ t. Box t w) (sym ((text_beq_iff a (codes "off")).0 e)) (toggle_off-Box w)
      | inr not_off ↦
          unfold Box box_egress_set in
          rw not_on
            (rw not_off (idle-Serves (toggle_box a) _ _ _ _ (unfold step in rw not_off refl) refl))
    ]
  ]

  pub serve-Serves :
      (request : Request) (w : World)
      → Serves request
          (view sh nft w)
          (view sh nft (serve sh request w).1)
          (listed request w)
          (taken sh request w)
  unfolding serve post_egress delete_egress box_egress_toggle Box post_public_ip delete_public_ip
      taken listed
  serve-Serves (set_mapping c p) w =
      rw (answered-respond _ bad_request (set_egress sh c p w).0)
        (unfold step in Changes-Serves (set_mapping c p) _ _ _ _ (set_egress-Changes sh nft c p w))
  serve-Serves (clear_mapping c) w =
      rw (answered-respond (λ m. tt) (clear_error c) (clear_egress sh c w).0)
        (unfold step in Changes-Serves (clear_mapping c) _ _ _ _ (clear_egress-Changes sh nft c w))
  serve-Serves (add_ip p i) w =
      idle-Serves (add_ip p i) _ _ _ _ (unfold step in refl) (add_public_ip-idle p i w)
  serve-Serves (remove_ip p) w =
      idle-Serves (remove_ip p) _ _ _ _ (unfold step in refl) (remove_public_ip-idle p [] w)
  serve-Serves (toggle_box a) w = action-Box a w

  -- Where nft's commands have their effects, a sequence of requests, each served before the next begins, leaves the
  -- map as the same requests leave a plain map: setting puts a pair,
  -- clearing takes one out, `off` empties it, binding an address does nothing to it, and a request that
  -- is not carried out does nothing at all.
  pub serve_all-replay :
      (requests : List Request) (w : World)
      → (view sh nft (serve_all sh requests w)).egress ≡ replay sh requests w (view sh nft w).egress
  unfolding serve_all replay
  serve_all-replay [] w = refl
  serve_all-replay (request ∷ requests) w =
      serve_all-replay requests (serve sh request w).1
      ∙ ap (replay sh requests (serve sh request w).1) (serve-Serves request w).map_after

  -- Where nft's commands have their effects and a listing that passes shows the rule exactly if the chain
  -- has one, a chain that had the SNAT rule at most once has it at most once after any sequence of requests,
  -- failing ones included, if each is served before the next begins and each listing of the chain that
  -- they come to passes.
  pub serve_all-AtMostOne :
      (requests : List Request) (w : World)
      → all_listed requests w ≡ true
      → (view sh nft w).rules ≤ 1
      → (view sh nft (serve_all sh requests w)).rules ≤ 1
  unfolding serve_all all_listed
  serve_all-AtMostOne [] w shown few = few
  serve_all-AtMostOne (request ∷ requests) w shown few =
      let here : listed request w ≡ true = ground (arith, shown) in
      let later : all_listed requests (serve sh request w).1 ≡ true = ground (arith, shown) in
      serve_all-AtMostOne requests (serve sh request w).1 later
        ((serve-Serves request w).rules_after here few)
