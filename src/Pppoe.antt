-- ===== src/Pppoe.antt =====
-- dawos_agent/services/pppoe.py and the endpoints of dawos_agent/routers/pppoe.py that add and remove
-- interfaces: the [pppoe] section has one `interface=` line for each.
-- The configuration path is not overridden.
pub mod Rebuilt
pub mod ReadBack
pub mod Kept
pub mod Saved
mod Tests
use dawos_agent.Prelude.{
  ℕ, Text, codes, text_eq, nat_eq, Bool, true, false, ◌==◌, ◌||◌, ◌&&◌, not, any, map, length,
  Option, none, some, List, [], ◌∷◌, ◌++◌, Result, ok, err, if◌then◌else◌,
}
use dawos_agent.Prelude.Exec.{Exec, pure, ◌>>=◌, continue}
use dawos_agent.Prelude.Texts.{strip}
use dawos_agent.Prelude.Texts.Lines.{lines_of}
use dawos_agent.ConfigManager.{
  State, Failure, file_not_found, value_error, runtime_error, Run, read_config, write_config,
  reload_config,
}
use dawos_agent.Checkpoint.{Endpoint, catch_missing}
use dawos_agent.Sections.{is_header, opens, key_rest, is_some, new_content, collect}

pub record PppoeInterface : Type 0 where
  pub name : Text
  pub options : Text

abbrev pub in_pppoe_section : Text → Bool
in_pppoe_section line = opens (codes "[pppoe]") line

abbrev pub matched_value : Option Text → Option Text
matched_value none = none
matched_value (some []) = none
matched_value (some (c ∷ cs)) = some (strip (c ∷ cs))

-- `_IFACE_RE.match(line)` on a stripped line: the value, stripped.
unfoldable pub iface_value : Text → Option Text
iface_value line = matched_value (key_rest (codes "interface") line)

-- `value.split(",", 1)`
unfoldable pub cut_comma : Text → Text × Option Text
cut_comma [] = ([], none)
cut_comma (c ∷ cs) = if c == b',' then ([], some cs) else (c ∷ (cut_comma cs).0, (cut_comma cs).1)

abbrev pub stripped_or_blank : Option Text → Text
stripped_or_blank none = []
stripped_or_blank (some text) = strip text

unfoldable pub iface_of : Text → PppoeInterface
iface_of value = record {
  name = strip (cut_comma value).0;
  options = stripped_or_blank (cut_comma value).1;
}

abbrev pub iface_found : Option Text → Option PppoeInterface
iface_found none = none
iface_found (some value) = some (iface_of value)

unfoldable pub iface_at : Text → Option PppoeInterface
iface_at line = iface_found (iface_value line)

unfoldable pub parse_pppoe_interfaces : Text → List PppoeInterface
parse_pppoe_interfaces content = collect in_pppoe_section iface_at (lines_of content) false

unfoldable pub iface_line : PppoeInterface → Text
iface_line iface =
    codes "interface="
    ++ (if iface.options == [] then iface.name else iface.name ++ (b',' ∷ iface.options))

abbrev pub iface_lines : List PppoeInterface → List Text
iface_lines ifaces = map iface_line ifaces

-- The loop of `_rebuild_config`.
unfoldable pub rebuild_lines : List PppoeInterface → List Text → Bool → Bool → List Text
rebuild_lines ifaces [] in_pppoe written =
    if in_pppoe && not written then iface_lines ifaces else []
rebuild_lines ifaces (raw ∷ lines) in_pppoe written =
    let after_header =
      rebuild_lines ifaces lines (in_pppoe_section (strip raw))
        (if in_pppoe_section (strip raw) then false else (in_pppoe && not written) || written) in
    let after_iface = rebuild_lines ifaces lines in_pppoe true in
    let rest = rebuild_lines ifaces lines in_pppoe written in
    if is_header (strip raw)
    then (if in_pppoe && not written
        then iface_lines ifaces ++ (raw ∷ after_header)
        else raw ∷ after_header)
    else if in_pppoe && is_some (iface_value (strip raw))
    then (if written then after_iface else iface_lines ifaces ++ after_iface)
    else raw ∷ rest

unfoldable pub rebuild_config : Text → List PppoeInterface → Text
rebuild_config content ifaces = new_content (rebuild_lines ifaces (lines_of content) false false)

unfoldable pub list_pppoe_interfaces : Run (List PppoeInterface)
list_pppoe_interfaces = do content ← read_config; pure (parse_pppoe_interfaces content)

abbrev pub has_interface : Text → List PppoeInterface → Bool
has_interface interface ifaces = any (λ i. i.name == interface) ifaces

unfoldable pub write_with : Text → Text → Text → Text → Run (Option Text)
write_with interface options ts content s =
    if has_interface interface (parse_pppoe_interfaces content)
    then (err value_error, s)
    else write_config
        (rebuild_config content
          (parse_pppoe_interfaces content ++ (record { name = interface; options = options } ∷ [])))
        true ts s

unfoldable pub add_pppoe_interface : Text → Text → Text → Run (Option Text)
add_pppoe_interface interface options ts = read_config >>= write_with interface options ts

abbrev pub without_interface : Text → List PppoeInterface → List PppoeInterface
without_interface interface [] = []
without_interface interface (i ∷ ifaces) =
    if i.name == interface
    then without_interface interface ifaces
    else i ∷ without_interface interface ifaces

-- The two lists have one length exactly if none has the name.
unfoldable pub write_without : Text → Text → Text → Run (Option Text)
write_without interface ts content s =
    if length (without_interface interface (parse_pppoe_interfaces content))
      == length (parse_pppoe_interfaces content)
    then (err value_error, s)
    else write_config
        (rebuild_config content (without_interface interface (parse_pppoe_interfaces content))) true
        ts s

unfoldable pub remove_pppoe_interface : Text → Text → Run (Option Text)
remove_pppoe_interface interface ts = read_config >>= write_without interface ts

-- The status codes of the exceptions; a ValueError has its own in each endpoint.
abbrev pub pppoe_status {ℓ} : {A : Type ℓ} → ℕ → Result Failure A → Result ℕ A
pppoe_status code (ok a) = ok a
pppoe_status code (err file_not_found) = err 404
pppoe_status code (err value_error) = err code
pppoe_status code (err runtime_error) = err 500

-- A change that is made is followed by a reload, whose failure shows in the message only, which is left
-- out.
abbrev pub reload_after {ℓ} : {A : Type ℓ} → Bool → Result ℕ A × State → Result ℕ A × State
reload_after answers (ok a, s) = (ok a, (reload_config answers s).1)
reload_after answers (err code, s) = (err code, s)

unfoldable pub post_interface : Text → Text → Text → Bool → Endpoint (Option Text)
post_interface interface options ts answers s = reload_after answers (
  pppoe_status 409 (add_pppoe_interface interface options ts s).0,
  (add_pppoe_interface interface options ts s).1,
)

unfoldable pub delete_interface : Text → Text → Bool → Endpoint (Option Text)
delete_interface interface ts answers s = reload_after answers (
  pppoe_status 404 (remove_pppoe_interface interface ts s).0,
  (remove_pppoe_interface interface ts s).1,
)

-- `GET /api/v1/pppoe/interfaces`; the count is the length of the list.
unfoldable pub interfaces_endpoint : Endpoint (List PppoeInterface)
interfaces_endpoint s = (catch_missing (list_pppoe_interfaces s).0, (list_pppoe_interfaces s).1)
