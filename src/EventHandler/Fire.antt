-- ===== src/EventHandler/Fire.antt =====
-- What one event does to the hooks and to the log.
use dawos_agent.Prelude.{
  Text, text_eq, nat_eq, true, false, Option, none, some, [], ◌∷◌, ◌≡◌, refl, sym, ap, arith, ok,
  err, if◌then◌else◌, Bool-cases, inl, inr, map, select,
}
use dawos_agent.Prelude.Dict.{Dict, get, values}
use dawos_agent.Prelude.Sets.{contains}
use dawos_agent.Prelude.Rings.{append_bounded}
use dawos_agent.EventHandler.{
  Hook, Entry, Handler, Endpoints, value_error, valid_events, event_log_maxlen, matches, fired,
  run_action, run_matching, entry_of, fire_event,
}

-- A hook as an event leaves it.
abbrev pub after : Text → Option Hook → Option Hook
after event none = none
after event (some h) = some (if matches event h then fired h else h)

get-run_matching :
    (env : Endpoints) (event name : Text) (hooks : Dict Text Hook)
    → get name (run_matching env event hooks).1 ≡ after event (get name hooks)
unfolding run_matching get
get-run_matching env event name [] = refl
get-run_matching env event name ((k, h) ∷ hooks) =
    ground (arith, get-run_matching env event name hooks)

results-run_matching :
    (env : Endpoints) (event : Text) (hooks : Dict Text Hook)
    → (run_matching env event hooks).0
      ≡ map (run_action env) (select (matches event) (values hooks))
unfolding run_matching
results-run_matching env event [] = refl
results-run_matching env event ((k, h) ∷ hooks) = elim (Bool-cases (matches event h)) [
  | inl due ↦ rw due (ap (λ l. run_action env h ∷ l) (results-run_matching env event hooks))
  | inr other ↦ rw other (results-run_matching env event hooks)
]

-- The entry that says how each enabled hook for the event has ended, in the order of registration.
abbrev pub outcome : Endpoints → Text → Text → Text → Handler → Entry
outcome env timestamp event payload s =
    entry_of event payload timestamp
      (map (run_action env) (select (matches event) (values s.hooks)))

-- A valid event runs the action of each enabled hook that is registered for it, in the order of the
-- registration and whatever becomes of the others; it adds one to their counts, leaves every other
-- hook as it was, and answers and logs one entry with the results. Another event changes nothing.
pub fire_event_lem :
    (env : Endpoints) (timestamp event payload : Text) (s : Handler)
    → (contains event valid_events ≡ true
        → ((fire_event env timestamp event payload s).0
            ≡ ok (outcome env timestamp event payload s))
          × ((fire_event env timestamp event payload s).1.event_log
              ≡ append_bounded event_log_maxlen (outcome env timestamp event payload s) s.event_log)
          × ((name : Text)
              → get name (fire_event env timestamp event payload s).1.hooks
                ≡ after event (get name s.hooks)))
      × (contains event valid_events ≡ false
          → fire_event env timestamp event payload s ≡ (err value_error, s))
unfolding fire_event
fire_event_lem env timestamp event payload s = (
  λ valid.
      rw (valid, sym (results-run_matching env event s.hooks))
        (refl, refl, λ name. get-run_matching env event name s.hooks),
  λ invalid. rw invalid refl,
)
