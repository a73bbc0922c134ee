-- ===== src/Scheduler/Request.antt =====
-- `SchedulerJobRequest.validate_command_safety` of dawos_agent/models/schemas.py.
use dawos_agent.Prelude.{
  Text, codes, nat_eq, not, any, List, [], ◌∷◌, ◌++◌, Result, ok, err, if◌then◌else◌,
}
use dawos_agent.Prelude.Texts.{has_char, starts_with}
use dawos_agent.Scheduler.{Failure, value_error}

abbrev shell_meta : Text
shell_meta = codes ";|&`$(){}\\'\"" ++ (10 ∷ 13 ∷ [])

abbrev allowed_prefixes : List Text
allowed_prefixes =
    codes "accel-cmd "
    ∷ codes "conntrack "
    ∷ codes "ip addr show"
    ∷ codes "ip route show"
    ∷ codes "ip link show"
    ∷ codes "ip neigh show"
    ∷ codes "nft list "
    ∷ codes "tc -s "
    ∷ codes "tc qdisc show"
    ∷ codes "tc class show"
    ∷ codes "cat /proc/"
    ∷ codes "free "
    ∷ codes "uptime"
    ∷ codes "df "
    ∷ codes "wc -l "
    ∷ codes "ss -s"
    ∷ codes "ss -tunlp"
    ∷ []

unfoldable pub validate_command_safety : Text → Result Failure Text
validate_command_safety v =
    if any (λ ch. has_char ch shell_meta) v
    then err value_error
    else if not (any (λ prefix. starts_with prefix v) allowed_prefixes)
    then err value_error
    else ok v
