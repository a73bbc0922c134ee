-- ===== src/IpPool/Tests.antt =====
-- Runs of the pools' endpoints.
use dawos_agent.Prelude.{
  Text, codes, text_eq, nat_eq, true, false, none, some, [], ◌∷◌, ◌++◌, ok, ◌≡◌, refl,
}
use dawos_agent.Prelude.Dict.{get}
use dawos_agent.Prelude.Texts.{strip, strip_left, is_space, to_lower, starts_with}
use dawos_agent.Prelude.Texts.Lines.{lines_of, split_lines, is_break}
use dawos_agent.Constants.{is_safe_name, is_name_char}
use dawos_agent.ConfigManager.{State, backup_name}
use dawos_agent.Sections.{is_header, opens, has_section, new_content, collect}
use dawos_agent.IpPool.{
  pools_of, in_ip_pool, listed_at, pool_at, cidr_part, then_part, digits_part, digit_run, char_part,
  is_cidr, post_pool,
}
use dawos_agent.IpPool.Listed.{Placed}
use dawos_agent.IpPool.Left.{others}
use dawos_agent.IpPool.Add.{added_lines, post_pool-adds}
use dawos_agent.IpPool.Remove.{left_of, delete_pool_lem}

abbrev file : Text
file =
    codes "[ip-pool]"
    ++ (10 ∷ codes "gw=10.0.0.1")
    ++ (10 ∷ codes "10.0.0.0/24, home ")
    ++ (10 ∷ codes "10.1.0.0/16")

abbrev sample : State
sample = record {
  config = some file;
  backups = [];
  checkpoint_path = none;
  rollback_task = none;
  reloads = [];
}

abbrev stamp : Text
stamp = codes "1"

pools_there :
    pools_of file
    ≡ record { name = codes "home"; range = codes "10.0.0.0/24" }
      ∷ record { name = codes "10.1.0.0/16"; range = codes "10.1.0.0/16" }
      ∷ []
unfolding pools_of collect listed_at pool_at cidr_part then_part digits_part digit_run char_part
    lines_of split_lines is_break is_space strip strip_left is_header opens to_lower starts_with
pools_there = refl

-- A text of this form is taken for a range whatever its numbers.
no_network : is_cidr (codes "999.999.999.999/999") ≡ true
unfolding is_cidr cidr_part then_part digits_part digit_run char_part
no_network = refl

post_pool-adds_example :
    ((post_pool (codes "guest") (codes "10.2.0.0/24") stamp false sample).0
      ≡ ok (some (backup_name stamp)))
    × ((post_pool (codes "guest") (codes "10.2.0.0/24") stamp false sample).1.config
        ≡ some (new_content (added_lines (codes "guest") (codes "10.2.0.0/24") file)))
    × (get
          (backup_name stamp)
          (post_pool (codes "guest") (codes "10.2.0.0/24") stamp false sample).1.backups
        ≡ some file)
    × (has_section in_ip_pool (lines_of file) ≡ true
        → Placed
            (record { name = codes "guest"; range = codes "10.2.0.0/24" })
            (pools_of file)
            (pools_of (new_content (added_lines (codes "guest") (codes "10.2.0.0/24") file))))
    × (has_section in_ip_pool (lines_of file) ≡ false
        → pools_of (new_content (added_lines (codes "guest") (codes "10.2.0.0/24") file))
          ≡ pools_of file)
unfolding pools_of collect listed_at pool_at is_cidr cidr_part then_part digits_part digit_run
    char_part lines_of split_lines is_break is_space strip strip_left is_header opens to_lower
    starts_with is_safe_name is_name_char
post_pool-adds_example =
    post_pool-adds (codes "guest") (codes "10.2.0.0/24") stamp file false sample refl refl refl refl
      refl

delete_pool_lem_example :
    (pools_of (new_content (left_of (codes "home") file).0) ≡ others (codes "home") (pools_of file))
unfolding pools_of collect listed_at pool_at cidr_part then_part digits_part digit_run char_part
    lines_of split_lines is_break is_space strip strip_left is_header opens to_lower starts_with
delete_pool_lem_example = ((delete_pool_lem (codes "home") stamp file true sample refl).0 refl).3
