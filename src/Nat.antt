-- ===== src/Nat.antt =====
-- dawos_agent/services/nat.py and the NAT endpoints of dawos_agent/routers/firewall.py: the map
-- `@cust_egress` of the nftables table `accelnat`, from a subscriber's address to a public one. The
-- programs nft, ip and tee are a parameter.
pub mod Ruleset
pub mod Endpoints
pub mod Mapping
pub mod Served
pub mod Answers
pub mod Race
mod Tests
use dawos_agent.Prelude.{
  ℕ, Text, codes, text_eq, nat_eq, Bool, true, false, ◌==◌, ◌||◌, ◌&&◌, not, any, Option, none,
  some, List, [], ◌∷◌, ◌++◌, Result, ok, err, length, if◌then◌else◌,
}
use dawos_agent.Prelude.Exec.{Exec, pure, raise, ◌>>=◌, ◌>>◌, continue}
use dawos_agent.Prelude.Texts.{strip, starts_with, occurs_in, has_char, to_lower}
use dawos_agent.Prelude.Texts.Lines.{lines_of}
use dawos_agent.Prelude.Texts.Split.{split_on, words, remove_char, quote}
use dawos_agent.Shell.{Shell, Reply, run}

-- The command lines of the module, by their arguments.
pub data Command : Type 0 where
  add_table add_map add_chain list_chain add_snat_rule list_map list_table : Command
  delete_table route_default addr_show : Command
  add_element addr_add addr_del : Text → Text → Command
  delete_element tee : Text → Command

abbrev pub base_cmds : List Command
base_cmds = add_table ∷ add_map ∷ add_chain ∷ []

abbrev pub snat_rule : Text
snat_rule = codes "snat to ip saddr map @cust_egress"

-- What a message shows of a command.
unfoldable pub command_line : Command → Text
command_line add_table = codes "nft add table ip accelnat"
command_line add_map =
    codes "nft add map ip accelnat cust_egress { type ipv4_addr : ipv4_addr \\; }"
command_line add_chain =
    codes "nft add chain ip accelnat postrouting { type nat hook postrouting priority 100 \\; }"
command_line list_chain = codes "nft list chain ip accelnat postrouting"
command_line add_snat_rule = codes "nft add rule ip accelnat postrouting " ++ snat_rule
command_line list_map = codes "nft list map ip accelnat cust_egress"
command_line list_table = codes "nft list table ip accelnat"
command_line delete_table = codes "nft delete table ip accelnat"
command_line route_default = codes "ip route show default"
command_line addr_show = codes "ip -br addr show scope global"
command_line (add_element customer_ip public_ip) =
    codes "nft add element ip accelnat cust_egress { "
    ++ (quote customer_ip ++ (codes " : " ++ (quote public_ip ++ codes " }")))
command_line (addr_add public_ip interface) =
    codes "ip addr add " ++ (quote public_ip ++ (codes "/32 dev " ++ quote interface))
command_line (addr_del public_ip interface) =
    codes "ip addr del " ++ (quote public_ip ++ (codes "/32 dev " ++ quote interface))
command_line (delete_element customer_ip) =
    codes "nft delete element ip accelnat cust_egress { " ++ (quote customer_ip ++ codes " }")
command_line (tee content) = codes "tee /etc/accel-nat-egress.nft"

-- The two exceptions, with their messages.
pub data NatFailure : Type 0 where
  runtime_error value_error : Text → NatFailure

pub record EgressEntry : Type 0 where
  pub customer_ip : Text
  pub public_ip : Text

pub record NatStatus : Type 0 where
  pub egress_map : List EgressEntry
  pub postrouting_rules : Text
  pub bound_ips : Text

abbrev pub command_failed : Command → Text → NatFailure
command_failed cmd output =
    runtime_error (codes "Command failed: " ++ (command_line cmd ++ (codes " — " ++ output)))

abbrev pub cannot_ensure : Command → NatFailure
cannot_ensure cmd =
    runtime_error
      (codes "Cannot ensure nftables table 'accelnat' — failed at: " ++ command_line cmd)

-- A line of the listing that is no entry.
abbrev pub is_frame : Text → Bool
is_frame line =
    any (λ start. starts_with start line)
      (codes "table" ∷ codes "map" ∷ codes "type" ∷ codes "}" ∷ [])

abbrev pub entry_of : Text → Text → Option EgressEntry
entry_of [] p = none
entry_of (c ∷ cs) [] = none
entry_of (c ∷ cs) (p ∷ ps) = some (record { customer_ip = c ∷ cs; public_ip = p ∷ ps })

abbrev pub entry_of_parts : List Text → Option EgressEntry
entry_of_parts (c ∷ p ∷ []) = entry_of (strip c) (strip p)
entry_of_parts parts = none

unfoldable pub entry_at : Text → Option EgressEntry
entry_at line =
    if has_char b':' line && not (is_frame line)
    then entry_of_parts (split_on b':' (remove_char b',' line))
    else none

abbrev pub add_entry : Option EgressEntry → List EgressEntry → List EgressEntry
add_entry none entries = entries
add_entry (some entry) entries = entry ∷ entries

-- The loop of `get_egress_map`.
unfoldable pub entries_of : List Text → List EgressEntry
entries_of [] = []
entries_of (line ∷ lines) = add_entry (entry_at (strip line)) (entries_of lines)

-- What follows the word `dev`.
unfoldable pub after_dev : List Text → Option Text
after_dev [] = none
after_dev (part ∷ []) = none
after_dev (part ∷ next ∷ parts) =
    let rest = after_dev (next ∷ parts) in if part == codes "dev" then some next else rest

unfoldable pub saved_content : Text → Text
saved_content output = codes "#!/usr/sbin/nft -f\n# dawos-agent managed\n" ++ (output ++ (10 ∷ []))

abbrev pub parsed_route : Text → Option Text → Result NatFailure Text
parsed_route output none = err (runtime_error (codes "Cannot parse default route: " ++ output))
parsed_route output (some interface) = ok interface

module _ (sh : Shell Command) where
  open sh use {World}

  unfoldable pub run_ok : Command → Exec World NatFailure Text
  run_ok cmd w =
      if (run sh cmd w).0.passed
      then (ok (run sh cmd w).0.output, (run sh cmd w).1)
      else (err (command_failed cmd (run sh cmd w).0.output), (run sh cmd w).1)

  -- The loop over `base_cmds`.
  unfoldable pub run_base : List Command → Exec World NatFailure (Unit {0})
  run_base [] w = (ok tt, w)
  run_base (cmd ∷ cmds) w =
      let rest = run_base cmds (run sh cmd w).1 in
      if (run sh cmd w).0.passed then rest else (err (cannot_ensure cmd), (run sh cmd w).1)

  abbrev pub add_rule : Exec World NatFailure (Unit {0})
  add_rule w = if (run sh add_snat_rule w).0.passed then (ok tt, (run sh add_snat_rule w).1) else (
    err (runtime_error (codes "Cannot ensure nftables SNAT rule for 'accelnat'")),
    (run sh add_snat_rule w).1,
  )

  -- Whether the listing of the chain shows the rule; its return code is not looked at.
  abbrev pub list_rule : World → Bool × World
  list_rule w = (occurs_in snat_rule (run sh list_chain w).0.output, (run sh list_chain w).1)

  -- What follows the wait for the listing. Another request can run in between.
  abbrev pub add_unless : Bool → Exec World NatFailure (Unit {0})
  add_unless true w = (ok tt, w)
  add_unless false w = add_rule w

  unfoldable pub ensure_rule : Exec World NatFailure (Unit {0})
  ensure_rule w = add_unless (list_rule w).0 (list_rule w).1

  unfoldable pub ensure_egress_table : Exec World NatFailure (Unit {0})
  ensure_egress_table = run_base base_cmds >> ensure_rule

  unfoldable pub persist : Exec World NatFailure (Unit {0})
  persist w =
      if (run sh list_table w).0.passed && not ((run sh list_table w).0.output == [])
      then (
        ok tt,
        (run sh (tee (saved_content (run sh list_table w).0.output)) (run sh list_table w).1).1,
      )
      else (ok tt, (run sh list_table w).1)

  unfoldable pub get_egress_map : World → List EgressEntry × World
  get_egress_map w =
      if (run sh list_map w).0.passed
      then (entries_of (lines_of (run sh list_map w).0.output), (run sh list_map w).1)
      else ([], (run sh list_map w).1)

  unfoldable pub set_egress : Text → Text → Exec World NatFailure Text
  set_egress customer_ip public_ip = do
    ensured ← ensure_egress_table
    output ← run_ok (add_element customer_ip public_ip)
    saved ← persist
    pure (codes "Egress set: " ++ (customer_ip ++ (codes " → " ++ public_ip)))

  unfoldable pub clear_egress : Text → Exec World NatFailure Text
  clear_egress customer_ip = do
    ensured ← ensure_egress_table
    output ← run_ok (delete_element customer_ip)
    saved ← persist
    pure (codes "Egress cleared for " ++ customer_ip)

  unfoldable pub detect_uplink : Exec World NatFailure Text
  detect_uplink w =
      if not (run sh route_default w).0.passed || (run sh route_default w).0.output == []
      then (
        err (runtime_error (codes "Cannot detect uplink interface")),
        (run sh route_default w).1,
      )
      else (
        parsed_route (run sh route_default w).0.output
            (after_dev (words (run sh route_default w).0.output)),
        (run sh route_default w).1,
      )

  -- `if not interface: interface = await _detect_uplink()`
  abbrev pub or_uplink : Text → Exec World NatFailure Text
  or_uplink [] = detect_uplink
  or_uplink (c ∷ cs) = pure (c ∷ cs)

  unfoldable pub add_public_ip : Text → Text → Exec World NatFailure Text
  add_public_ip public_ip interface = do
    uplink ← or_uplink interface
    output ← run_ok (addr_add public_ip uplink)
    pure (codes "Added " ++ (public_ip ++ (codes " to " ++ uplink)))

  unfoldable pub remove_public_ip : Text → Text → Exec World NatFailure Text
  remove_public_ip public_ip interface = do
    uplink ← or_uplink interface
    output ← run_ok (addr_del public_ip uplink)
    pure (codes "Removed " ++ (public_ip ++ (codes " from " ++ uplink)))

  unfoldable pub nat_status : World → NatStatus × World
  nat_status w =
      let egress = get_egress_map w in
      let post = run sh list_chain egress.1 in
      let bound = run sh addr_show post.1 in
      (
        record {
          egress_map = egress.0;
          postrouting_rules = post.0.output;
          bound_ips = bound.0.output;
        },
        bound.1,
      )

  unfoldable pub box_egress_status : World → Bool × World
  box_egress_status w = ((run sh list_table w).0.passed, (run sh list_table w).1)

  unfoldable pub box_on : Exec World NatFailure Text
  unfolding ensure_egress_table persist
  box_on = do ensured ← ensure_egress_table; saved ← persist; pure (codes "Box egress enabled")

  unfoldable pub box_egress_set : Text → Exec World NatFailure Text
  unfolding box_on
  box_egress_set action w =
      if action == codes "on"
      then box_on w
      else if action == codes "off"
      then (ok (codes "Box egress disabled"), (run sh delete_table w).1)
      else (
        err (value_error (codes "Invalid action '" ++ (action ++ codes "', use 'on' or 'off'"))),
        w,
      )
