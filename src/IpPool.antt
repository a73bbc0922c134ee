-- ===== src/IpPool.antt =====
-- dawos_agent/services/ip_pool.py and the endpoints of dawos_agent/routers/ip_pool_router.py that list, add
-- and remove pools. The configuration path is not overridden.
pub mod Cidr
pub mod PoolLine
pub mod Listed
pub mod Left
pub mod Add
pub mod Remove
mod Tests
use dawos_agent.Prelude.{
  ℕ, Text, codes, text_eq, nat_eq, Bool, true, false, ◌==◌, ◌||◌, ◌&&◌, not, any, Option, none,
  some, List, [], ◌∷◌, ◌++◌, Result, ok, err, if◌then◌else◌,
}
use dawos_agent.Prelude.Exec.{Exec, pure, ◌>>=◌, continue}
use dawos_agent.Prelude.Texts.{strip, starts_with, occurs_in}
use dawos_agent.Prelude.Texts.Lines.{lines_of}
use dawos_agent.Prelude.Texts.Numbers.{is_digit}
use dawos_agent.Checkpoint.{Endpoint, catch_missing}
use dawos_agent.ConfigManager.{
  State, Failure, file_not_found, value_error, runtime_error, Run, read_config, write_config,
  reload_config,
}
use dawos_agent.Sections.{is_header, opens, new_content, collect}

pub record Pool : Type 0 where
  pub name : Text
  pub range : Text

-- What a part of a pattern matches, and the rest.
abbrev pub Part : Type 0
Part = Text → Option (Text × Text)

-- `\d*`
unfoldable pub digit_run : Text → Text × Text
digit_run [] = ([], [])
digit_run (c ∷ cs) = if is_digit c then (c ∷ (digit_run cs).0, (digit_run cs).1) else ([], c ∷ cs)

-- `\d+`
unfoldable pub digits_part : Part
digits_part [] = none
digits_part (c ∷ cs) = if is_digit c then some (c ∷ (digit_run cs).0, (digit_run cs).1) else none

unfoldable pub char_part : ℕ → Part
char_part ch [] = none
char_part ch (c ∷ cs) = if c == ch then some (c ∷ [], cs) else none

abbrev pub extended : Text → Option (Text × Text) → Option (Text × Text)
extended matched none = none
extended matched (some (more, rest)) = some (matched ++ more, rest)

abbrev pub then_after : Part → Option (Text × Text) → Option (Text × Text)
then_after q none = none
then_after q (some (matched, rest)) = extended matched (q rest)

unfoldable pub then_part : Part → Part → Part
then_part p q t = then_after q (p t)

-- `\d+\.\d+\.\d+\.\d+/\d+`
unfoldable pub cidr_part : Part
cidr_part = then_part digits_part (
    then_part (char_part b'.') (
      then_part digits_part (
        then_part (char_part b'.') (
          then_part digits_part (
            then_part (char_part b'.')
              (then_part digits_part (then_part (char_part b'/') digits_part)))))))

abbrev pub is_whole : Option (Text × Text) → Bool
is_whole none = false
is_whole (some (matched, rest)) = rest == []

unfoldable pub is_cidr : Text → Bool
is_cidr ip_range = is_whole (cidr_part ip_range)

-- `(?:,(.+))?$` behind the range; a pool without a name has its range for one.
abbrev pub named : Option (Text × Text) → Option Pool
named none = none
named (some (range, [])) = some (record { name = range; range = range })
named (some (range, c ∷ [])) = none
named (some (range, c ∷ d ∷ rest)) =
    if c == b',' then some (record { name = strip (d ∷ rest); range = range }) else none

unfoldable pub pool_at : Text → Option Pool
pool_at line = named (cidr_part line)

unfoldable pub listed_at : Text → Option Pool
listed_at line = if starts_with (codes "gw=") line then none else pool_at line

abbrev pub in_ip_pool : Text → Bool
in_ip_pool line = opens (codes "[ip-pool]") line

-- The loop of `list_pools`.
unfoldable pub pools_of : Text → List Pool
pools_of content = collect in_ip_pool listed_at (lines_of content) false

unfoldable pub list_pools : Run (List Pool)
list_pools = do content ← read_config; pure (pools_of content)

abbrev pub pool_line : Text → Text → Text
pool_line name ip_range = ip_range ++ (b',' ∷ name)

-- The loop of `add_pool`: the line goes to the end of the first such section.
unfoldable pub insert_line : Text → List Text → Bool → Bool → List Text
insert_line line [] in_pool inserted = if in_pool && not inserted then line ∷ [] else []
insert_line line (raw ∷ lines) in_pool inserted =
    let after_insert = insert_line line lines (in_ip_pool (strip raw)) true in
    let after_header = insert_line line lines (in_ip_pool (strip raw)) inserted in
    let rest = insert_line line lines in_pool inserted in
    if is_header (strip raw)
    then (if in_pool && not inserted then line ∷ raw ∷ after_insert else raw ∷ after_header)
    else raw ∷ rest

-- The exceptions; a ValueError has its message.
pub data PoolFailure : Type 0 where
  not_found failed : PoolFailure
  bad_value : Text → PoolFailure

-- What `write_config` says when it refuses a text is cut short: it names no range.
abbrev failure_of : Failure → PoolFailure
failure_of file_not_found = not_found
failure_of value_error = bad_value (codes "refused")
failure_of runtime_error = failed

abbrev pub lift_result : {A : Type 0} → Result Failure A → Result PoolFailure A
lift_result (ok a) = ok a
lift_result (err e) = err (failure_of e)

abbrev pub lift : {A : Type 0} → Run A → Exec State PoolFailure A
lift run s = (lift_result (run s).0, (run s).1)

abbrev has_name : Text → List Pool → Bool
has_name name pools = any (λ pool. pool.name == name) pools

unfoldable pub write_added : Text → Text → Text → Text → Exec State PoolFailure (Option Text)
write_added name ip_range ts content s =
    if has_name name (pools_of content)
    then (err (bad_value (codes "Pool '" ++ (name ++ codes "' already exists"))), s)
    else lift
        (write_config
          (new_content (insert_line (pool_line name ip_range) (lines_of content) false false)) true
          ts)
        s

unfoldable pub add_pool : Text → Text → Text → Exec State PoolFailure (Option Text)
add_pool name ip_range ts s =
    if not (is_cidr ip_range)
    then (err (bad_value (codes "Invalid CIDR range: " ++ ip_range)), s)
    else (lift read_config >>= write_added name ip_range ts) s

-- Whether a line of the section defines this pool.
abbrev pub defines : Text → Option Pool → Bool
defines name none = false
defines name (some pool) = pool.name == name

-- The loop of `remove_pool`: what is left, and whether a line was left out.
unfoldable pub remove_lines : Text → List Text → Bool → List Text × Bool
remove_lines name [] in_pool = ([], false)
remove_lines name (raw ∷ lines) in_pool =
    let after_header = remove_lines name lines (in_ip_pool (strip raw)) in
    let rest = remove_lines name lines in_pool in
    if is_header (strip raw)
    then (raw ∷ after_header.0, after_header.1)
    else if in_pool && defines name (pool_at (strip raw))
    then (rest.0, true)
    else (raw ∷ rest.0, rest.1)

unfoldable pub write_removed : Text → Text → Text → Exec State PoolFailure (Option Text)
write_removed name ts content s =
    let left = remove_lines name (lines_of content) false in
    if left.1
    then lift (write_config (new_content left.0) true ts) s
    else (err (bad_value (codes "Pool '" ++ (name ++ codes "' not found"))), s)

unfoldable pub remove_pool : Text → Text → Exec State PoolFailure (Option Text)
remove_pool name ts = lift read_config >>= write_removed name ts

-- `except FileNotFoundError`, `except ValueError`, `except Exception`; only a new pool tells the
-- messages apart.
abbrev add_status : {A : Type 0} → Result PoolFailure A → Result ℕ A
add_status (ok a) = ok a
add_status (err not_found) = err 404
add_status (err failed) = err 500
add_status (err (bad_value msg)) = err (if occurs_in (codes "Invalid CIDR") msg then 422 else 409)

abbrev remove_status : {A : Type 0} → Result PoolFailure A → Result ℕ A
remove_status (ok a) = ok a
remove_status (err not_found) = err 404
remove_status (err failed) = err 500
remove_status (err (bad_value msg)) = err 404

-- A change that is made is followed by a reload, whose failure shows in the message only, which is left
-- out.
abbrev then_reload : {A : Type 0} → Bool → Result ℕ A × State → Result ℕ A × State
then_reload answers (ok a, s) = (ok a, (reload_config answers s).1)
then_reload answers (err code, s) = (err code, s)

unfoldable pub post_pool : Text → Text → Text → Bool → Endpoint (Option Text)
post_pool name ip_range ts answers s =
    then_reload answers
      (add_status (add_pool name ip_range ts s).0, (add_pool name ip_range ts s).1)

unfoldable pub delete_pool : Text → Text → Bool → Endpoint (Option Text)
delete_pool name ts answers s =
    then_reload answers (remove_status (remove_pool name ts s).0, (remove_pool name ts s).1)

-- `GET /api/v1/ip-pool`; the count is the length of the list.
unfoldable pub pools_endpoint : Endpoint (List Pool)
pools_endpoint s = (catch_missing (list_pools s).0, (list_pools s).1)
