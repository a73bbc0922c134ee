-- ===== src/EventHandler/Actions.antt =====
-- Which actions a hook may have.
use dawos_agent.Prelude.{Text, codes, nat_eq, true, false, ◌++◌, ◌≡◌, arith}
use dawos_agent.EventHandler.{is_url, has_meta, validate_action_safety}

-- The allowed prefixes do not confine what follows them: after `cat /proc/` any path is accepted that
-- has no shell character in it, also one that leaves the directory again.
pub validate_action_safety-leaves_proc :
    (path : Text)
    → has_meta path ≡ false
    → validate_action_safety (codes "cat /proc/../" ++ path) ≡ true
unfolding validate_action_safety
validate_action_safety-leaves_proc path plain = ground arith

-- What is accepted and is run as a command, not sent to a URL, has no shell character in it.
pub validate_action_safety-no_meta :
    (action : Text)
    → validate_action_safety action ≡ true
    → is_url action ≡ false
    → has_meta action ≡ false
unfolding validate_action_safety
validate_action_safety-no_meta action accepted command = ground arith
