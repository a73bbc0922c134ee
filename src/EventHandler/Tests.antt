-- ===== src/EventHandler/Tests.antt =====
-- Runs of the event handler, and its theorems at concrete inputs.
use dawos_agent.Prelude.{Text, codes, text_eq, ◌≡◌, refl, true, false, [], ◌∷◌, ok, err}
use dawos_agent.Prelude.Dict.{get}
use dawos_agent.Prelude.Sets.{contains}
use dawos_agent.Prelude.Rings.{append_bounded}
use dawos_agent.EventHandler.{
  Hook, Handler, Endpoints, value_error, valid_events, event_log_maxlen, fire_event, add_hook,
  delete_hook, has_meta, validate_action_safety,
}
use dawos_agent.Prelude.Texts.{starts_with}
use dawos_agent.EventHandler.Fire.{after, outcome, fire_event_lem}
use dawos_agent.EventHandler.History.{Firing}

abbrev up : Text
up = codes "session-up"

abbrev hook : Hook
hook = record {
  name = codes "h";
  event = up;
  action = codes "uptime";
  enabled = true;
  fire_count = 0;
}

abbrev one_hook : Handler
one_hook = record { hooks = (codes "h", hook) ∷ []; event_log = [] }

abbrev world : Endpoints
world = record { post = λ h. ok 200; exec = λ h. ok (codes "12:00 ", 0) }

abbrev firing : Firing
firing = record { env = world; timestamp = codes "t"; event = up; payload = codes "{}" }

line_end : has_meta (10 ∷ []) ≡ true
line_end = refl

taken : (add_hook (codes "h") up (codes "df ") true one_hook).0 ≡ err value_error
unfolding add_hook get
taken = refl

absent : (delete_hook (codes "g") one_hook).0 ≡ err 404
unfolding delete_hook get
absent = refl

fire_event_lem_example :
    (contains up valid_events ≡ true
      → ((fire_event world (codes "t") up (codes "{}") one_hook).0
          ≡ ok (outcome world (codes "t") up (codes "{}") one_hook))
        × ((fire_event world (codes "t") up (codes "{}") one_hook).1.event_log
            ≡ append_bounded event_log_maxlen
                (outcome world (codes "t") up (codes "{}") one_hook)
                [])
        × ((name : Text)
            → get name (fire_event world (codes "t") up (codes "{}") one_hook).1.hooks
              ≡ after up (get name one_hook.hooks)))
    × (contains up valid_events ≡ false
        → fire_event world (codes "t") up (codes "{}") one_hook ≡ (err value_error, one_hook))
fire_event_lem_example = fire_event_lem world (codes "t") up (codes "{}") one_hook

shadow_file : validate_action_safety (codes "cat /proc/../etc/shadow") ≡ true
unfolding validate_action_safety starts_with
shadow_file = refl
