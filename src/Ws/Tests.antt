-- ===== src/Ws/Tests.antt =====
-- Runs of the WebSocket endpoint, and its theorems at concrete inputs.
use dawos_agent.Prelude.{List, [], ◌∷◌, ◌≡◌, refl, arith, some, none, string_eq, nat_eq}
use dawos_agent.Prelude.Dict.{get}
use dawos_agent.Prelude.Sets.{contains, discard, intersect}
use dawos_agent.Rbac.{viewer, KeyResolver}
use dawos_agent.Events.{EventBus, new_bus, held}
use dawos_agent.Events.Membership.{on_channel}
use dawos_agent.Events.Bounds.{IsBounded}
use dawos_agent.Ws.{Message, leave_all, connect, disconnect, handle_control, receive_control}
use dawos_agent.Ws.Control.{IsSynced, SameOthers, connect-Keeps, session_leaves_nothing}

abbrev resolver : KeyResolver
resolver = record { primary_key = "root"; extra_keys = ("mon", viewer) ∷ [] }

abbrev empty : EventBus
empty = new_bus 100

abbrev leave_audit : List Message
leave_audit =
    record { action = "unsubscribe"; asked = some ("audit" ∷ "nowhere" ∷ []) }
    ∷ record { action = "ping"; asked = none }
    ∷ []

empty-IsBounded : IsBounded empty
unfolding new_bus held on_channel get contains
empty-IsBounded = record {
  within = λ q bound. omega arith;
  distinct = λ c. tt;
  fresh = λ c q new. refl;
}

stays_on_three :
    (receive_control leave_audit (connect empty).0 (connect empty).1).0.subscribed
    ≡ "session" ∷ "config" ∷ "system" ∷ []
unfolding receive_control handle_control leave_all connect new_bus contains discard intersect
stays_on_three = refl

connected :
    IsSynced (connect empty).0 (connect empty).1
    × SameOthers (connect empty).0.queue empty (connect empty).1
connected = connect-Keeps empty empty-IsBounded

session_leaves_nothing_example :
    on_channel
      (disconnect
        (receive_control leave_audit (connect empty).0 (connect empty).1).0
        (receive_control leave_audit (connect empty).0 (connect empty).1).1)
      "session"
      0
    ≡ on_channel empty "session" 0
session_leaves_nothing_example =
    session_leaves_nothing leave_audit empty "session" 0 empty-IsBounded
