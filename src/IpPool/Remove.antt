-- ===== src/IpPool/Remove.antt =====
-- The endpoint that removes a pool.
use dawos_agent.Prelude.{
  Text, codes, text_eq, nat_eq, Bool, true, false, ◌==◌, some, List, [], ◌∷◌, ◌++◌, ok, err, ◌≡◌,
  refl, sym, ap, ◌∙◌, arith, Bool-cases, inl, inr,
}
use dawos_agent.Prelude.Exec.{continue}
use dawos_agent.Prelude.Dict.{get}
use dawos_agent.Prelude.Texts.{strip, text_beq_iff}
use dawos_agent.Prelude.Texts.Lines.{lines_of, lines_of-IsLine}
use dawos_agent.Constants.{is_safe_name}
use dawos_agent.ConfigManager.{State, backup_name}
use dawos_agent.Sections.{is_header, has_section, new_content, collect}
use dawos_agent.Sections.Collected.{collect-line, collect-new_content}
use dawos_agent.Sections.Headers.{
  any_header, has_section-any_header, written, write_config-new_content,
}
use dawos_agent.Sections.Saves.{read_config-some, then_some}
use dawos_agent.IpPool.{
  Pool, bad_value, in_ip_pool, listed_at, pools_of, remove_lines, is_cidr, has_name, lift_result,
  write_removed, remove_pool, post_pool, delete_pool, list_pools,
}
use dawos_agent.IpPool.Listed.{listed_pools, Placed, here, later}
use dawos_agent.IpPool.Left.{others, remove_lines-Left}
use dawos_agent.IpPool.Add.{added_lines, reloaded-disk, post_pool-adds}

-- Pools are listed only where there is a section.
listed_nowhere :
    (name : Text) (lines : List Text)
    → has_name name (listed_pools lines false) ≡ true
    → any_header lines ≡ true
unfolding collect
listed_nowhere name [] h = absurd (cc)
listed_nowhere name (raw ∷ lines) h = elim (Bool-cases (is_header (strip raw))) [
  | inl opened ↦ rw opened refl
  | inr plain ↦
      let rest : has_name name (listed_pools lines false) ≡ true =
        ap (has_name name) (sym (collect-line in_ip_pool listed_at raw lines false plain)) ∙ h in
      rw plain (listed_nowhere name lines rest)
]

abbrev pub left_of : Text → Text → List Text × Bool
left_of name content = remove_lines name (lines_of content) false

remove_pool_then :
    (name ts content : Text) (s : State)
    → s.config ≡ some content
    → remove_pool name ts s ≡ write_removed name ts content s
unfolding remove_pool
remove_pool_then name ts content s had =
    ap (λ r. continue (lift_result r.0) (write_removed name ts) r.1)
      (read_config-some s content had)

-- `DELETE /api/v1/ip-pool/{name}` on a configuration that is there, whether the daemon answers the
-- reload or not: a name that is listed is taken out,
-- the file then lists exactly the pools of other names in their order, and the old text is the backup;
-- a name that is not is answered with 404 and changes nothing.
pub delete_pool_lem :
    (name ts content : Text) (answers : Bool) (s : State)
    → s.config ≡ some content
    → (has_name name (pools_of content) ≡ true
        → ((delete_pool name ts answers s).0 ≡ ok (some (backup_name ts)))
          × ((delete_pool name ts answers s).1.config ≡ some (new_content (left_of name content).0))
          × (get (backup_name ts) (delete_pool name ts answers s).1.backups ≡ some content)
          × (pools_of (new_content (left_of name content).0) ≡ others name (pools_of content)))
      × (has_name name (pools_of content) ≡ false → delete_pool name ts answers s ≡ (err 404, s))
unfolding delete_pool pools_of
delete_pool_lem name ts content answers s had =
    let left = remove_lines-Left name (lines_of content) false in
    (
      (λ there.
          let headers = left.headers ∙ listed_nowhere name (lines_of content) there in
          let disk = reloaded-disk answers ts content (left_of name content).0 s in
          let removed : remove_pool name ts s
              ≡ (ok (some (backup_name ts)), written ts content (left_of name content).0 s) =
            remove_pool_then name ts content s had
            ∙ unfold write_removed in
              rw (left.found ∙ there) (
                ap (λ r. (lift_result r.0, r.1))
                  (write_config-new_content (left_of name content).0 content ts s headers had)) in
          rw removed (
            refl,
            disk.0,
            disk.1,
            collect-new_content in_ip_pool listed_at (left_of name content).0
                  (left.one_line (lines_of-IsLine content))
                ∙ left.lists,
          )),
      (λ absent.
          let refused : remove_pool name ts s
              ≡ (err (bad_value (codes "Pool '" ++ (name ++ codes "' not found"))), s) =
            remove_pool_then name ts content s had
            ∙ unfold write_removed in rw (left.found ∙ absent) refl in
          rw refused refl),
    )

others_same :
    (name : Text) (pools : List Pool) → has_name name pools ≡ false → others name pools ≡ pools
others_same name [] h = refl
others_same name (pool ∷ pools) h =
    let rest = others_same name pools (ground (arith, h)) in ground (arith, h, rest)

others-Placed :
    (name ip_range : Text) {old out : List Pool}
    → Placed (record { name = name; range = ip_range }) old out
    → has_name name old ≡ false
    → (others name out ≡ old) × (has_name name out ≡ true)
others-Placed name ip_range (here {rest}) h =
    let own : (name == name) ≡ true = (text_beq_iff name name).1 refl in
    rw own (others_same name rest h, refl)
others-Placed name ip_range (later other p) h =
    let rest = others-Placed name ip_range p (ground (arith, h)) in ground (arith, h, rest)

-- A pool that was added where there is an [ip-pool] section and a name was free, and is then removed,
-- leaves the list of pools as it was.
pub delete_pool-post_pool :
    (name ip_range ts ts' content : Text) (answers answers' : Bool) (s : State)
    → s.config ≡ some content
    → has_section in_ip_pool (lines_of content) ≡ true
    → is_cidr ip_range ≡ true
    → is_safe_name name ≡ true
    → has_name name (pools_of content) ≡ false
    → (list_pools (delete_pool name ts' answers' (post_pool name ip_range ts answers s).1).1).0
      ≡ ok (pools_of content)
unfolding list_pools
delete_pool-post_pool name ip_range ts ts' content answers answers' s had section cidr safe new =
    let added =
      post_pool-adds name ip_range ts content answers s had
        (has_section-any_header in_ip_pool (lines_of content) section) cidr safe new in
    let (same, there) = others-Placed name ip_range (added.3 section) new in
    let removed =
      (delete_pool_lem name ts' (new_content (added_lines name ip_range content)) answers'
          (post_pool name ip_range ts answers s).1 added.1).0
        there in
    ap (λ r. r.0) (then_some (λ c s'. (ok (pools_of c), s')) _ _ removed.1)
    ∙ ap ok (removed.3 ∙ same)
