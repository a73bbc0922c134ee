-- ===== src/Events/Tests.antt =====
-- Runs of the event bus, and its theorems at concrete inputs.
use dawos_agent.Prelude.{
  ℕ, [], ◌∷◌, ◌++◌, ◌≡◌, refl, arith, not, ◌&&◌, count_if, none, nat_eq, string_eq, if◌then◌else◌,
}
use dawos_agent.Prelude.Dict.{get, put}
use dawos_agent.Prelude.Sets.{contains}
use dawos_agent.Events.{
  Event, EventBus, new_bus, members, held, is_full, subscribe, publish, unsubscribe,
  subscriber_count,
}
use dawos_agent.Events.Membership.{on_channel}
use dawos_agent.Events.Bounds.{
  IsBounded, Operation, subscribes, publishes, perform, perform-IsBounded,
}
use dawos_agent.Events.Delivery.{publish_lem}

abbrev empty : EventBus
empty = new_bus 1

abbrev one : EventBus
one = (subscribe none empty).1

abbrev event : Event
event = record { channel = "audit"; event_type = "t"; payload = "{}"; timestamp = "now" }

empty-IsBounded : IsBounded empty
unfolding new_bus held on_channel get contains
empty-IsBounded = record {
  within = λ q bound. omega arith;
  distinct = λ c. tt;
  fresh = λ c q new. refl;
}

one-IsBounded : IsBounded one
unfolding perform
one-IsBounded = perform-IsBounded (subscribes none) empty tt empty-IsBounded

slow_consumer :
    ((publish event one).0 ≡ 1)
    × ((publish event (publish event one).1).0 ≡ 0)
    × (subscriber_count one ≡ 1)
unfolding publish subscribe subscriber_count new_bus get put contains
slow_consumer = (refl, refl, refl)

perform-IsBounded_example : IsBounded (perform (publishes event) one)
perform-IsBounded_example = perform-IsBounded (publishes event) one tt one-IsBounded

publish_lem_example :
    ((q : ℕ)
      → held (publish event one).1 q ≡ (
          if on_channel one event.channel q && not (is_full one q)
          then held one q ++ event ∷ []
          else held one q))
    × ((publish event one).0
        ≡ count_if (λ q. not (is_full one q)) (members one.subscribers event.channel))
publish_lem_example = publish_lem event one one-IsBounded

left-IsBounded : IsBounded (unsubscribe 0 one)
unfolding perform
left-IsBounded = perform-IsBounded (Operation.leaves 0) one tt one-IsBounded
