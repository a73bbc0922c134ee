-- ===== src/IpPool/Add.antt =====
-- The endpoint that adds a pool.
use dawos_agent.Prelude.{
  Text, codes, text_eq, nat_eq, Bool, true, false, ◌&&◌, not, none, some, List, [], ◌∷◌, ◌++◌, ok,
  err, ◌≡◌, refl, ap, ◌∙◌, arith, Bool-cases, inl, inr, All,
}
use dawos_agent.Prelude.Exec.{continue}
use dawos_agent.Prelude.Dict.{get, get-put_self}
use dawos_agent.Prelude.Texts.{strip, occurs_in, starts_with}
use dawos_agent.Prelude.Texts.Lines.{IsLine, lines_of, lines_of-IsLine}
use dawos_agent.Constants.{is_safe_name}
use dawos_agent.ConfigManager.{State, reload_config, backup_name}
use dawos_agent.Sections.{is_header, has_section, new_content}
use dawos_agent.Sections.Collected.{collect-new_content}
use dawos_agent.Sections.Headers.{any_header, written, write_config-new_content}
use dawos_agent.Sections.Saves.{read_config-some, read_config-none, reload_keeps}
use dawos_agent.IpPool.{
  not_found, bad_value, in_ip_pool, listed_at, pools_of, pool_line, insert_line, is_cidr, has_name,
  lift_result, write_added, add_pool, post_pool,
}
use dawos_agent.IpPool.PoolLine.{pool_line-read, pool_line-IsLine}
use dawos_agent.IpPool.Listed.{listed_pools, Placed, insert_line-nowhere, insert_line-Placed}

abbrev pub added_lines : Text → Text → Text → List Text
added_lines name ip_range content =
    insert_line (pool_line name ip_range) (lines_of content) false false

insert_line-any_header :
    (line : Text) (lines : List Text) (inside inserted : Bool)
    → is_header (strip line) ≡ false
    → any_header (insert_line line lines inside inserted) ≡ any_header lines
unfolding insert_line
insert_line-any_header line [] inside inserted plain = ground (arith, plain)
insert_line-any_header line (raw ∷ lines) inside inserted plain = ground (
  arith,
  plain,
  insert_line-any_header line lines (in_ip_pool (strip raw)) true plain,
  insert_line-any_header line lines (in_ip_pool (strip raw)) inserted plain,
  insert_line-any_header line lines inside inserted plain,
)

insert_line-IsLine :
    (line : Text) (lines : List Text) (inside inserted : Bool)
    → IsLine line
    → All IsLine lines
    → All IsLine (insert_line line lines inside inserted)
unfolding insert_line
insert_line-IsLine line [] inside inserted h hs = elim (Bool-cases (inside && not inserted)) [
  | inl now ↦ rw now (h, tt)
  | inr never ↦ rw never tt
]
insert_line-IsLine line (raw ∷ lines) inside inserted h (k, ks) =
    elim (Bool-cases (is_header (strip raw))) [
      | inl opened ↦ rw opened (elim (Bool-cases (inside && not inserted)) [
        | inl now ↦
            rw now (h, (k, insert_line-IsLine line lines (in_ip_pool (strip raw)) true h ks))
        | inr never ↦
            rw never (k, insert_line-IsLine line lines (in_ip_pool (strip raw)) inserted h ks)
      ])
      | inr other ↦ rw other (k, insert_line-IsLine line lines inside inserted h ks)
    ]

-- The pools that are listed once the line is in.
pub pools_of-added :
    (name ip_range content : Text)
    → is_cidr ip_range ≡ true
    → is_safe_name name ≡ true
    → (has_section in_ip_pool (lines_of content) ≡ true
        → Placed
            (record { name = name; range = ip_range })
            (pools_of content)
            (pools_of (new_content (added_lines name ip_range content))))
      × (has_section in_ip_pool (lines_of content) ≡ false
          → pools_of (new_content (added_lines name ip_range content)) ≡ pools_of content)
unfolding pools_of
pools_of-added name ip_range content cidr safe =
    let read_back = collect-new_content in_ip_pool listed_at (added_lines name ip_range content) (
      insert_line-IsLine (pool_line name ip_range) (lines_of content) false false
        (pool_line-IsLine name ip_range cidr safe) (lines_of-IsLine content)) in
    let (plain, reads) = pool_line-read name ip_range cidr safe in
    (
      (λ section. rw read_back (
          insert_line-Placed (pool_line name ip_range) (record { name = name; range = ip_range })
            plain reads (lines_of content) false section)),
      (λ nowhere.
          read_back
          ∙ ap (λ l. listed_pools l false)
              (insert_line-nowhere (pool_line name ip_range) (lines_of content) false nowhere)),
    )

add_pool-new :
    (name ip_range ts content : Text) (s : State)
    → s.config ≡ some content
    → any_header (lines_of content) ≡ true
    → is_cidr ip_range ≡ true
    → is_safe_name name ≡ true
    → has_name name (pools_of content) ≡ false
    → add_pool name ip_range ts s
      ≡ (ok (some (backup_name ts)), written ts content (added_lines name ip_range content) s)
unfolding add_pool
add_pool-new name ip_range ts content s had sections cidr safe new =
    let headers =
      insert_line-any_header (pool_line name ip_range) (lines_of content) false false
        (pool_line-read name ip_range cidr safe).0
      ∙ sections in
    rw cidr (
      ap (λ r. continue (lift_result r.0) (write_added name ip_range ts) r.1)
        (read_config-some s content had)
      ∙ unfold write_added in
        rw new (
          ap (λ r. (lift_result r.0, r.1))
            (write_config-new_content (added_lines name ip_range content) content ts s headers
              had)))

-- What the endpoint gives back once the text is written, whether the daemon answers or not.
abbrev pub reloaded : Bool → Text → Text → List Text → State → State
reloaded answers ts content out s = (reload_config answers (written ts content out s)).1

pub reloaded-disk :
    (answers : Bool) (ts content : Text) (out : List Text) (s : State)
    → ((reloaded answers ts content out s).config ≡ some (new_content out))
      × (get (backup_name ts) (reloaded answers ts content out s).backups ≡ some content)
unfolding written
reloaded-disk answers ts content out s =
    let disk = reload_keeps answers (written ts content out s) in
    (disk.0, ap (get (backup_name ts)) disk.1 ∙ get-put_self (backup_name ts) content s.backups)

-- `POST /api/v1/ip-pool` with a range, a safe name that is not taken, and a configuration with some
-- section succeeds, whether the daemon answers the reload or not, and whether or not the numbers of the
-- range are those of a network: the file is the text with the new line and the
-- backup the old text. With an [ip-pool] section the pool is then listed between the old ones, each
-- of which is still listed in its order; without one nothing more is listed than before.
pub post_pool-adds :
    (name ip_range ts content : Text) (answers : Bool) (s : State)
    → s.config ≡ some content
    → any_header (lines_of content) ≡ true
    → is_cidr ip_range ≡ true
    → is_safe_name name ≡ true
    → has_name name (pools_of content) ≡ false
    → ((post_pool name ip_range ts answers s).0 ≡ ok (some (backup_name ts)))
      × ((post_pool name ip_range ts answers s).1.config
          ≡ some (new_content (added_lines name ip_range content)))
      × (get (backup_name ts) (post_pool name ip_range ts answers s).1.backups ≡ some content)
      × (has_section in_ip_pool (lines_of content) ≡ true
          → Placed
              (record { name = name; range = ip_range })
              (pools_of content)
              (pools_of (new_content (added_lines name ip_range content))))
      × (has_section in_ip_pool (lines_of content) ≡ false
          → pools_of (new_content (added_lines name ip_range content)) ≡ pools_of content)
unfolding post_pool
post_pool-adds name ip_range ts content answers s had sections cidr safe new =
    let disk = reloaded-disk answers ts content (added_lines name ip_range content) s in
    let lists = pools_of-added name ip_range content cidr safe in
    rw (add_pool-new name ip_range ts content s had sections cidr safe new)
      (refl, disk.0, disk.1, lists.0, lists.1)

add_pool-missing :
    (name ip_range ts : Text) (s : State)
    → is_cidr ip_range ≡ true
    → s.config ≡ none
    → add_pool name ip_range ts s ≡ (err not_found, s)
unfolding add_pool
add_pool-missing name ip_range ts s cidr missing = rw cidr (
    ap (λ r. continue (lift_result r.0) (write_added name ip_range ts) r.1)
      (read_config-none s missing))

add_pool-no_range :
    (name ip_range ts : Text) (s : State)
    → is_cidr ip_range ≡ false
    → add_pool name ip_range ts s ≡ (err (bad_value (codes "Invalid CIDR range: " ++ ip_range)), s)
unfolding add_pool
add_pool-no_range name ip_range ts s wrong = rw wrong refl

-- A text that is no range is answered with 422, and a range without a configuration with 404; nothing is
-- changed.
pub post_pool_refuses :
    (name ip_range ts : Text) (answers : Bool) (s : State)
    → (is_cidr ip_range ≡ false → post_pool name ip_range ts answers s ≡ (err 422, s))
      × (is_cidr ip_range ≡ true
          → s.config ≡ none
          → post_pool name ip_range ts answers s ≡ (err 404, s))
unfolding post_pool
post_pool_refuses name ip_range ts answers s = (
  (λ wrong. rw (add_pool-no_range name ip_range ts s wrong) (unfold occurs_in starts_with in refl)),
  (λ cidr missing. rw (add_pool-missing name ip_range ts s cidr missing) refl),
)
