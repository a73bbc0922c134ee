-- ===== src/Nat/Tests.antt =====
-- Runs of the NAT operations, and their theorems at concrete inputs.
use dawos_agent.Prelude.{
  ℕ, zero, suc, ◌≤◌, Text, codes, text_eq, Bool, true, false, not, if◌then◌else◌, none, some, List,
  [], ◌∷◌, ◌++◌, ok, err, ◌≡◌, ◌≢◌, refl, arith, ltb,
}
use dawos_agent.Prelude.Texts.{strip, strip_left, starts_with, occurs_in, is_space}
use dawos_agent.Prelude.Texts.Split.{split_on, words}
use dawos_agent.Shell.{Shell, Reply, run}
use dawos_agent.Nat.{
  Command, add_table, list_chain, list_table, tee, add_element, snat_rule, entries_of, entry_at,
  ensure_egress_table, set_egress, saved_content, run_base, ensure_rule, after_dev, list_rule,
  add_unless,
}
use dawos_agent.Nat.Ruleset.{Ruleset, effect, Nft, view, passes, listing_passes}
use dawos_agent.Nat.Endpoints.{
  post_egress, delete_egress, Request, set_mapping, clear_mapping, toggle_box, add_ip, serve_all,
}
use dawos_agent.Nat.Served.{listed, all_listed, replay, serve_all-replay, serve_all-AtMostOne}
use dawos_agent.Nat.Answers.{Moves, egress-Moves, set_egress-saves, delete_egress_unprepared}
use dawos_agent.Nat.Race.{ensure_rule_overtaken}

abbrev ann : Text
ann = codes "10.0.0.2"

abbrev public : Text
public = codes "1.2.3.4"

abbrev chain_text : ℕ → Text
chain_text zero = []
chain_text (suc n) = snat_rule

abbrev printed : Command → Ruleset → Text
printed list_chain r = chain_text r.rules
printed list_table r = codes "table ip accelnat"
printed cmd r = []

-- A host on which every command passes.
exec_all : Command → Ruleset → Reply × Ruleset
unfolding effect
exec_all cmd r = (record { output = printed cmd r; passed = true }, effect cmd r)

abbrev host : Shell Command
host = record { World = Ruleset; exec = exec_all }

-- A host on which no command passes.
abbrev denied : Shell Command
denied = record { World = Ruleset; exec = λ cmd r. (record { output = []; passed = false }, r) }

shows_rule : (n : ℕ) → occurs_in snat_rule (strip (chain_text n)) ≡ ltb 0 n
unfolding strip strip_left is_space occurs_in starts_with
shows_rule zero = refl
shows_rule (suc n) = ground arith

behaves : Nft host
unfolding run exec_all
behaves = record {
  effects = record { view = λ r. r; runs = λ cmd w. refl };
  shows = λ w passed. shows_rule w.rules;
}

abbrev empty : Ruleset
empty = record { rules = 0; egress = []; saved = [] }

abbrev one_rule : Ruleset
one_rule = record empty { rules = 1 }

abbrev is_listing : Command → Bool
is_listing list_chain = true
is_listing cmd = false

-- A host that refuses to list the chain, and passes all else.
abbrev unlisting : Shell Command
unlisting = record {
  World = Ruleset;
  exec = λ cmd r. (
    record { output = []; passed = not (is_listing cmd) },
    if not (is_listing cmd) then effect cmd r else r,
  );
}

unlisting-Nft : Nft unlisting
unfolding run
unlisting-Nft = record {
  effects = record { view = λ r. r; runs = λ cmd w. refl };
  shows = λ w passed. absurd (cc);
}

abbrev requests : List Request
requests =
    set_mapping ann public
    ∷ toggle_box (codes "off")
    ∷ set_mapping ann public
    ∷ clear_mapping public
    ∷ add_ip public (codes "eth0")
    ∷ []

-- An element on the line that opens the elements gets that line's beginning for its address.
one_line_listing :
    entries_of (codes "\t\telements = { 10.0.0.2 : 1.2.3.4 }" ∷ [])
    ≡ record { customer_ip = codes "elements = { 10.0.0.2"; public_ip = codes "1.2.3.4 }" } ∷ []
unfolding entries_of entry_at strip strip_left is_space starts_with split_on
one_line_listing = refl

uplink_found :
    after_dev (words (codes "default via 1.2.3.4 dev eth0 proto dhcp")) ≡ some (codes "eth0")
unfolding after_dev words is_space
uplink_found = refl

serve_all-replay_example :
    (view host behaves (serve_all host requests empty)).egress ≡ replay host requests empty []
unfolding behaves
serve_all-replay_example = serve_all-replay host behaves requests empty

each_listed : all_listed host behaves requests empty ≡ true
unfolding all_listed listed listing_passes run exec_all run_base
each_listed = refl

serve_all-AtMostOne_example : (view host behaves (serve_all host requests empty)).rules ≤ 1
unfolding behaves
serve_all-AtMostOne_example =
    serve_all-AtMostOne host behaves requests empty each_listed (omega arith)

-- Two requests list the empty chain, and then both add the rule; and a listing that is refused has a
-- second one added.
ensure_rule_overtaken_example :
    ((view host behaves
        (add_unless host
          (list_rule host empty).0
          (add_unless host (list_rule host empty).0 empty).1).1).rules
      ≡ 2)
    × ((ensure_rule unlisting one_rule).0 ≡ ok tt)
unfolding behaves run exec_all effect occurs_in starts_with strip strip_left
ensure_rule_overtaken_example = (
  ((ensure_rule_overtaken host behaves empty).0 refl refl refl refl refl).2,
  ((ensure_rule_overtaken unlisting unlisting-Nft one_rule).1 refl refl).0,
)

egress-Moves_example :
    Moves ann
      (some public)
      empty
      (view host behaves (post_egress host ann public empty).1)
      (listing_passes host behaves empty)
      (post_egress host ann public empty).0
    × Moves ann none empty
        (view host behaves (delete_egress host ann empty).1)
        (listing_passes host behaves empty)
        (delete_egress host ann empty).0
unfolding behaves
egress-Moves_example = egress-Moves host behaves ann public empty

delete_egress_unprepared_example : delete_egress denied ann empty ≡ (
  err (record {
    status_code = 404;
    detail = codes "Egress mapping for '" ++ (ann ++ codes "' not found");
  }),
  (run denied add_table empty).1,
)
delete_egress_unprepared_example = delete_egress_unprepared denied ann empty (unfold run in refl)

table_text : strip (codes "table ip accelnat") ≢ []
unfolding strip strip_left is_space
table_text = λ e. absurd (cc)

ensured : (ensure_egress_table host empty).0 ≡ ok tt
unfolding ensure_egress_table run_base ensure_rule run exec_all occurs_in starts_with strip
    strip_left
ensured = refl

set_egress-saves_example :
    let w1 = (ensure_egress_table host empty).1 in
    let w2 = (run host (add_element ann public) w1).1 in
    let listing = (run host list_table w2).0 in
    (passes (set_egress host ann public empty).0 ≡ true)
    × (listing.passed ≡ true
        → listing.output ≢ []
        → (run host (tee (saved_content listing.output)) (run host list_table w2).1).0.passed ≡ true
        → (view host behaves (set_egress host ann public empty).1).saved
          ≡ saved_content listing.output)
set_egress-saves_example =
    set_egress-saves host behaves ann public empty ensured (unfold run exec_all in refl)
