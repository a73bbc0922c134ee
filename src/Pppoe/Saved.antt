-- ===== src/Pppoe/Saved.antt =====
-- The endpoints that add and remove an interface.
use dawos_agent.Prelude.{
  ◌+◌, Text, text_eq, nat_eq, Bool, true, false, ◌==◌, ==_iff, not, length, some, List, [], ◌∷◌,
  ◌++◌, ok, err, ◌≡◌, refl, ap, ◌∙◌, arith, All, ◌≤◌,
}
use dawos_agent.Prelude.Dict.{get, get-put_self}
use dawos_agent.Prelude.Texts.Lines.{lines_of, lines_of-IsLine}
use dawos_agent.ConfigManager.{State, write_config, reload_config, backup_name, value_error}
use dawos_agent.Sections.Collected.{collect-new_content}
use dawos_agent.Sections.Headers.{any_header, written, write_config-new_content}
use dawos_agent.Sections.Saves.{then_some, reload_keeps}
use dawos_agent.Pppoe.{
  PppoeInterface, in_pppoe_section, iface_at, rebuild_lines, rebuild_config, parse_pppoe_interfaces,
  has_interface, write_with, without_interface, write_without, add_pppoe_interface,
  remove_pppoe_interface, post_interface, delete_interface,
}
use dawos_agent.Pppoe.Rebuilt.{ReadsBack, for_each_section, rebuild_lines-listed}
use dawos_agent.Pppoe.Kept.{rebuild_lines-Kept}

abbrev rebuilt : Text → List PppoeInterface → List Text
rebuilt content ifaces = rebuild_lines ifaces (lines_of content) false false

-- The rebuilt text lists the interfaces once for each [pppoe] section.
pub parse-rebuild_config :
    (content : Text) (ifaces : List PppoeInterface)
    → All ReadsBack ifaces
    → parse_pppoe_interfaces (rebuild_config content ifaces)
      ≡ for_each_section ifaces (lines_of content)
unfolding parse_pppoe_interfaces rebuild_config
parse-rebuild_config content ifaces h =
    collect-new_content in_pppoe_section iface_at (rebuilt content ifaces) (
      (rebuild_lines-Kept ifaces (lines_of content) false false).one_line h
        (lines_of-IsLine content))
    ∙ rebuild_lines-listed ifaces h (lines_of content) false false

-- It is written, if there is some section.
rebuild_config_saved :
    (content ts : Text) (ifaces : List PppoeInterface) (s : State)
    → s.config ≡ some content
    → any_header (lines_of content) ≡ true
    → write_config (rebuild_config content ifaces) true ts s
      ≡ (ok (some (backup_name ts)), written ts content (rebuilt content ifaces) s)
unfolding rebuild_config
rebuild_config_saved content ts ifaces s had sections =
    write_config-new_content (rebuilt content ifaces) content ts s
      ((rebuild_lines-Kept ifaces (lines_of content) false false).headers ∙ sections) had

abbrev reloaded : Bool → Text → Text → List PppoeInterface → State → State
reloaded answers ts content ifaces s =
    (reload_config answers (written ts content (rebuilt content ifaces) s)).1

reloaded-disk :
    (answers : Bool) (ts content : Text) (ifaces : List PppoeInterface) (s : State)
    → ((reloaded answers ts content ifaces s).config ≡ some (rebuild_config content ifaces))
      × (get (backup_name ts) (reloaded answers ts content ifaces s).backups ≡ some content)
unfolding written rebuild_config
reloaded-disk answers ts content ifaces s =
    let disk = reload_keeps answers (written ts content (rebuilt content ifaces) s) in
    (disk.0, ap (get (backup_name ts)) disk.1 ∙ get-put_self (backup_name ts) content s.backups)

abbrev pub with_new : Text → Text → Text → List PppoeInterface
with_new interface options content =
    parse_pppoe_interfaces content ++ (record { name = interface; options = options } ∷ [])

write_with-taken :
    (interface options ts content : Text) (s : State)
    → has_interface interface (parse_pppoe_interfaces content) ≡ true
    → write_with interface options ts content s ≡ (err value_error, s)
unfolding write_with
write_with-taken interface options ts content s taken = rw taken refl

write_with-new :
    (interface options ts content : Text) (s : State)
    → has_interface interface (parse_pppoe_interfaces content) ≡ false
    → write_with interface options ts content s
      ≡ write_config (rebuild_config content (with_new interface options content)) true ts s
unfolding write_with
write_with-new interface options ts content s new = rw new refl

-- `POST /api/v1/pppoe/interfaces`, on a configuration with some section line, whether the daemon
-- answers the reload or not: an interface that is not listed is a success, the file is the text rebuilt
-- with the old interfaces and the new one behind them, and the old text is kept as the backup. If each of
-- these interfaces is written as it will be read, the file then lists them once for each [pppoe] section,
-- so twice where there are two and not at all where there is none. An interface that is listed is answered
-- with 409 and changes nothing.
pub post_interface_lem :
    (interface options ts content : Text) (answers : Bool) (s : State)
    → s.config ≡ some content
    → any_header (lines_of content) ≡ true
    → (has_interface interface (parse_pppoe_interfaces content) ≡ false
        → ((post_interface interface options ts answers s).0 ≡ ok (some (backup_name ts)))
          × ((post_interface interface options ts answers s).1.config
              ≡ some (rebuild_config content (with_new interface options content)))
          × (get (backup_name ts) (post_interface interface options ts answers s).1.backups
              ≡ some content)
          × (All ReadsBack (with_new interface options content)
              → parse_pppoe_interfaces (rebuild_config content (with_new interface options content))
                ≡ for_each_section (with_new interface options content) (lines_of content)))
      × (has_interface interface (parse_pppoe_interfaces content) ≡ true
          → post_interface interface options ts answers s ≡ (err 409, s))
unfolding post_interface add_pppoe_interface
post_interface_lem interface options ts content answers s had sections =
    let read = then_some (write_with interface options ts) s content had in
    let disk = reloaded-disk answers ts content (with_new interface options content) s in
    (
      (λ new.
          rw
            (read
              ∙ write_with-new interface options ts content s new
              ∙ rebuild_config_saved content ts (with_new interface options content) s had sections)
            (
              refl,
              disk.0,
              disk.1,
              parse-rebuild_config content (with_new interface options content),
            )),
      (λ taken. rw (read ∙ write_with-taken interface options ts content s taken) refl),
    )

-- Taking out a name makes the list shorter exactly if it is listed.
without-length :
    (interface : Text) (ifaces : List PppoeInterface)
    → (length (without_interface interface ifaces) ≤ length ifaces)
      × ((length (without_interface interface ifaces) == length ifaces)
          ≡ not (has_interface interface ifaces))
without-length interface [] = (omega arith, refl)
without-length interface (i ∷ ifaces) =
    let rest = without-length interface ifaces in
    (
      ground (arith, rest.0),
      ground (
        arith,
        rest.0,
        rest.1,
        ==_iff (length (without_interface interface ifaces)) (length ifaces),
        ==_iff (length (without_interface interface ifaces)) (length ifaces + 1),
        ==_iff (length (without_interface interface ifaces) + 1) (length ifaces + 1),
      ),
    )

write_without-absent :
    (interface ts content : Text) (s : State)
    → has_interface interface (parse_pppoe_interfaces content) ≡ false
    → write_without interface ts content s ≡ (err value_error, s)
unfolding write_without
write_without-absent interface ts content s absent =
    rw ((without-length interface (parse_pppoe_interfaces content)).1 ∙ ap not absent) refl

write_without-listed :
    (interface ts content : Text) (s : State)
    → has_interface interface (parse_pppoe_interfaces content) ≡ true
    → write_without interface ts content s
      ≡ write_config
          (rebuild_config content (without_interface interface (parse_pppoe_interfaces content)))
          true
          ts
          s
unfolding write_without
write_without-listed interface ts content s there =
    rw ((without-length interface (parse_pppoe_interfaces content)).1 ∙ ap not there) refl

-- `DELETE /api/v1/pppoe/interfaces/{name}`, on a configuration with some section line, whether the
-- daemon answers the reload or not: of an interface that is listed it is a success, the file is the text
-- rebuilt with the other interfaces, and the old text is kept as the backup. If each of the others is
-- written as it will be read, the file then lists them once for each [pppoe] section. An interface that is
-- not listed is answered with 404 and changes nothing.
pub delete_interface_lem :
    (interface ts content : Text) (answers : Bool) (s : State)
    → s.config ≡ some content
    → any_header (lines_of content) ≡ true
    → (has_interface interface (parse_pppoe_interfaces content) ≡ true
        → ((delete_interface interface ts answers s).0 ≡ ok (some (backup_name ts)))
          × ((delete_interface interface ts answers s).1.config
              ≡ some (
                  rebuild_config content
                    (without_interface interface (parse_pppoe_interfaces content))))
          × (get (backup_name ts) (delete_interface interface ts answers s).1.backups
              ≡ some content)
          × (All ReadsBack (without_interface interface (parse_pppoe_interfaces content))
              → parse_pppoe_interfaces (
                  rebuild_config content
                    (without_interface interface (parse_pppoe_interfaces content)))
                ≡ for_each_section
                    (without_interface interface (parse_pppoe_interfaces content))
                    (lines_of content)))
      × (has_interface interface (parse_pppoe_interfaces content) ≡ false
          → delete_interface interface ts answers s ≡ (err 404, s))
unfolding delete_interface remove_pppoe_interface
delete_interface_lem interface ts content answers s had sections =
    let read = then_some (write_without interface ts) s content had in
    let left = without_interface interface (parse_pppoe_interfaces content) in
    let disk = reloaded-disk answers ts content left s in
    (
      (λ there.
          rw
            (read
              ∙ write_without-listed interface ts content s there
              ∙ rebuild_config_saved content ts left s had sections)
            (refl, disk.0, disk.1, parse-rebuild_config content left)),
      (λ absent. rw (read ∙ write_without-absent interface ts content s absent) refl),
    )
