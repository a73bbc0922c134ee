-- ===== src/EventHandler.antt =====
-- dawos_agent/services/event_handler.py, the endpoints of dawos_agent/routers/event_router.py on it, and
-- the check of an action in `EventHookRequest` of dawos_agent/models/schemas.py. How the actions end is
-- an argument: a POST by its status, a command by its output and return code, an exception by its text.
-- One fire runs to its end before another change of the hooks.
pub mod Fire
pub mod History
pub mod Actions
mod Tests
use dawos_agent.Prelude.{
  ℕ, ◌+◌, Text, codes, text_eq, nat_eq, Bool, true, false, ◌==◌, ◌||◌, ◌&&◌, not, any, ltb, length,
  Option, none, some, List, [], ◌∷◌, ◌++◌, map, reverse, Result, ok, err, if◌then◌else◌,
}
use dawos_agent.Prelude.Dict.{Dict, get, put, delete, has, values}
use dawos_agent.Prelude.Rings.{append_bounded, keep_last}
use dawos_agent.Prelude.Sets.{contains}
use dawos_agent.Prelude.Texts.{starts_with, strip, has_char}

pub record Hook : Type 0 where
  pub name : Text
  pub event : Text
  pub action : Text
  pub enabled : Bool
  pub fire_count : ℕ

pub record HookResult : Type 0 where
  pub hook : Text
  pub action : Text
  pub success : Bool
  pub status_code : Option ℕ
  pub output : Option Text
  pub error : Option Text

-- The payload is one text.
pub record Entry : Type 0 where
  pub event : Text
  pub payload : Text
  pub hooks_fired : ℕ
  pub results : List HookResult
  pub timestamp : Text

pub record Handler : Type 0 where
  pub hooks : Dict Text Hook
  pub event_log : List Entry

pub data HookError : Type 0 where
  value_error key_error : HookError

abbrev pub event_log_maxlen : ℕ
event_log_maxlen = 1000

abbrev pub valid_events : List Text
valid_events =
    codes "session-up"
    ∷ codes "session-down"
    ∷ codes "session-acct-start"
    ∷ codes "session-auth-fail"
    ∷ codes "shaper-change"
    ∷ codes "config-reload"
    ∷ []

unfoldable pub list_hooks : Handler → List Hook
list_hooks s = values s.hooks

unfoldable pub add_hook : Text → Text → Text → Bool → Handler → Result HookError Hook × Handler
add_hook name event action enabled s =
    let hook : Hook = record {
      name = name;
      event = event;
      action = action;
      enabled = enabled;
      fire_count = 0;
    } in
    if has name s.hooks
    then (err value_error, s)
    else if not (contains event valid_events)
    then (err value_error, s)
    else (ok hook, record s { hooks = put name hook s.hooks })

unfoldable pub remove_hook : Text → Handler → Result HookError (Unit {0}) × Handler
remove_hook name s =
    if has name s.hooks
    then (ok tt, record s { hooks = delete name s.hooks })
    else (err key_error, s)

-- What the world makes of the actions.
pub record Endpoints : Type 0 where
  pub post : Hook → Result Text ℕ
  pub exec : Hook → Result Text (Text × ℕ)

abbrev pub is_url : Text → Bool
is_url action = starts_with (codes "http://") action || starts_with (codes "https://") action

posted : Hook → Result Text ℕ → HookResult
posted h (ok status) = record {
  hook = h.name;
  action = h.action;
  success = ltb status 400;
  status_code = some status;
  output = none;
  error = none;
}
posted h (err e) = record {
  hook = h.name;
  action = h.action;
  success = false;
  status_code = none;
  output = none;
  error = some e;
}

executed : Hook → Result Text (Text × ℕ) → HookResult
executed h (ok (stdout, code)) = record {
  hook = h.name;
  action = h.action;
  success = code == 0;
  status_code = none;
  output = some (strip stdout);
  error = none;
}
executed h (err e) = record {
  hook = h.name;
  action = h.action;
  success = false;
  status_code = none;
  output = none;
  error = some e;
}

unfoldable pub run_action : Endpoints → Hook → HookResult
unfolding posted executed
run_action env h = if is_url h.action then posted h (env.post h) else executed h (env.exec h)

abbrev pub matches : Text → Hook → Bool
matches event h = h.event == event && h.enabled

abbrev pub fired : Hook → Hook
fired h = record h { fire_count = h.fire_count + 1 }

-- The loop over the matching hooks; a hook is an object of the dict, counted there.
unfoldable pub run_matching : Endpoints → Text → Dict Text Hook → List HookResult × Dict Text Hook
unfolding run_action
run_matching env event [] = ([], [])
run_matching env event ((k, h) ∷ hooks) =
    let rest = run_matching env event hooks in
    if matches event h
    then (run_action env h ∷ rest.0, (k, fired h) ∷ rest.1)
    else (rest.0, (k, h) ∷ rest.1)

abbrev pub entry_of : Text → Text → Text → List HookResult → Entry
entry_of event payload timestamp results = record {
  event = event;
  payload = payload;
  hooks_fired = length results;
  results = results;
  timestamp = timestamp;
}

unfoldable pub fire_event :
    Endpoints → Text → Text → Text → Handler → Result HookError Entry × Handler
unfolding run_matching append_bounded
fire_event env timestamp event payload s =
    let run = run_matching env event s.hooks in
    let entry = entry_of event payload timestamp run.0 in
    if not (contains event valid_events) then (err value_error, s) else (
      ok entry,
      record { hooks = run.1; event_log = append_bounded event_log_maxlen entry s.event_log },
    )

-- `list(…)[-limit:]`: of a limit of 0 the slice is the whole list.
unfoldable pub event_history : ℕ → Handler → List Entry
unfolding keep_last
event_history limit s = reverse (if limit == 0 then s.event_log else keep_last limit s.event_log)

unfoldable pub clear_history : Handler → ℕ × Handler
clear_history s = (length s.event_log, record s { event_log = [] })

-- The endpoints: the exceptions become status codes.
abbrev with_code {ℓ} : {A : Type ℓ} → ℕ → Result HookError A → Result ℕ A
with_code code (ok a) = ok a
with_code code (err e) = err code

unfoldable pub post_hook : Text → Text → Text → Bool → Handler → Result ℕ Hook × Handler
unfolding add_hook
post_hook name event action enabled s = (
  with_code 409 (add_hook name event action enabled s).0,
  (add_hook name event action enabled s).1,
)

unfoldable pub delete_hook : Text → Handler → Result ℕ (Unit {0}) × Handler
unfolding remove_hook
delete_hook name s = (with_code 404 (remove_hook name s).0, (remove_hook name s).1)

unfoldable pub post_fire : Endpoints → Text → Text → Text → Handler → Result ℕ Entry × Handler
unfolding fire_event
post_fire env timestamp event payload s = (
  with_code 400 (fire_event env timestamp event payload s).0,
  (fire_event env timestamp event payload s).1,
)

unfoldable pub get_history : Handler → List Entry
unfolding event_history
get_history s = event_history 50 s

-- `;|&`$(){}\'"` and the two line ends
abbrev shell_meta : Text
shell_meta = codes ";|&`$(){}\\'\"\n\r"

abbrev pub has_meta : Text → Bool
has_meta action = any (λ c. has_char c shell_meta) action

abbrev allowed_prefixes : List Text
allowed_prefixes =
    codes "accel-cmd "
    ∷ codes "conntrack "
    ∷ codes "ip addr show"
    ∷ codes "ip route show"
    ∷ codes "ip link show"
    ∷ codes "ip neigh show"
    ∷ codes "nft list "
    ∷ codes "tc -s "
    ∷ codes "tc qdisc show"
    ∷ codes "tc class show"
    ∷ codes "cat /proc/"
    ∷ codes "free "
    ∷ codes "uptime"
    ∷ codes "df "
    ∷ codes "wc -l "
    ∷ codes "ss -s"
    ∷ codes "ss -tunlp"
    ∷ []

unfoldable pub validate_action_safety : Text → Bool
unfolding starts_with
validate_action_safety action =
    if is_url action
    then true
    else if has_meta action
    then false
    else any (λ prefix. starts_with prefix action) allowed_prefixes
