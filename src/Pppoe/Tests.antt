-- ===== src/Pppoe/Tests.antt =====
-- Runs of the interfaces' endpoints.
use dawos_agent.Prelude.{
  Text, codes, text_eq, nat_eq, true, false, none, some, [], ◌∷◌, ◌++◌, ◌≡◌, refl, All,
}
use dawos_agent.Prelude.Texts.{strip, strip_left, is_space, to_lower}
use dawos_agent.Prelude.Texts.Lines.{lines_of, split_lines, is_break, join_lines}
use dawos_agent.Constants.{is_safe_name, is_name_char}
use dawos_agent.ConfigManager.{State}
use dawos_agent.Sections.{is_header, opens, key_rest, after_key, new_content, collect}
use dawos_agent.Pppoe.{
  PppoeInterface, parse_pppoe_interfaces, rebuild_config, iface_at, iface_value, iface_of,
  cut_comma, rebuild_lines, iface_line, without_interface,
}
use dawos_agent.Pppoe.Rebuilt.{ReadsBack, for_each_section}
use dawos_agent.Pppoe.ReadBack.{plain-ReadsBack}
use dawos_agent.Pppoe.Saved.{with_new, post_interface_lem, delete_interface_lem}

abbrev file : Text
file = codes "[pppoe]" ++ (10 ∷ codes "Interface = eth0") ++ (10 ∷ codes "verbose=1")

abbrev sample : State
sample = record {
  config = some file;
  backups = [];
  checkpoint_path = none;
  rollback_task = none;
  reloads = [];
}

abbrev stamp : Text
stamp = codes "1"

abbrev eth0 : PppoeInterface
eth0 = record { name = codes "eth0"; options = [] }

parse-file : parse_pppoe_interfaces file ≡ eth0 ∷ []
unfolding parse_pppoe_interfaces collect iface_at iface_value iface_of cut_comma lines_of
    split_lines is_break is_space strip strip_left is_header opens to_lower key_rest after_key
parse-file = refl

-- Two sections list the interfaces twice.
two_sections :
    parse_pppoe_interfaces (rebuild_config (codes "[pppoe]" ++ (10 ∷ codes "[PPPoE]")) (eth0 ∷ []))
    ≡ eth0 ∷ eth0 ∷ []
unfolding parse_pppoe_interfaces collect iface_at iface_value iface_of cut_comma lines_of
    split_lines is_break is_space strip strip_left is_header opens to_lower key_rest after_key
    rebuild_config rebuild_lines iface_line new_content join_lines
two_sections = refl

eth1-ReadsBack : ReadsBack (record { name = codes "eth1"; options = [] })
unfolding is_safe_name is_name_char
eth1-ReadsBack = plain-ReadsBack (codes "eth1") refl

eth0-ReadsBack : ReadsBack eth0
unfolding is_safe_name is_name_char
eth0-ReadsBack = plain-ReadsBack (codes "eth0") refl

with_new-ReadsBack : All ReadsBack (with_new (codes "eth1") [] file)
unfolding parse_pppoe_interfaces collect iface_at iface_value iface_of cut_comma lines_of
    split_lines is_break is_space strip strip_left is_header opens to_lower key_rest after_key
with_new-ReadsBack = (eth0-ReadsBack, (eth1-ReadsBack, tt))

post_interface_lem_example :
    parse_pppoe_interfaces (rebuild_config file (with_new (codes "eth1") [] file))
    ≡ for_each_section (with_new (codes "eth1") [] file) (lines_of file)
unfolding parse_pppoe_interfaces collect iface_at iface_value iface_of cut_comma lines_of
    split_lines is_break is_space strip strip_left is_header opens to_lower key_rest after_key
post_interface_lem_example =
    ((post_interface_lem (codes "eth1") [] stamp file false sample refl refl).0 refl).3
      with_new-ReadsBack

delete_interface_lem_example :
    parse_pppoe_interfaces
      (rebuild_config file (without_interface (codes "eth0") (parse_pppoe_interfaces file)))
    ≡ for_each_section
        (without_interface (codes "eth0") (parse_pppoe_interfaces file))
        (lines_of file)
unfolding parse_pppoe_interfaces collect iface_at iface_value iface_of cut_comma lines_of
    split_lines is_break is_space strip strip_left is_header opens to_lower key_rest after_key
delete_interface_lem_example =
    ((delete_interface_lem (codes "eth0") stamp file true sample refl refl).0 refl).3 tt
