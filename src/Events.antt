-- ===== src/Events.antt =====
-- dawos_agent/events.py: the event bus. A queue is a reference into the store of queues; queues that
-- nobody subscribes any more stay in it.
pub mod Delivery
pub mod Bounds
pub mod Membership
mod Tests
use dawos_agent.Prelude.{
  ℕ, suc, ◌+◌, String, List, [], ◌∷◌, ◌++◌, Bool, true, false, Option, none, some, ◌==◌, ◌&&◌, ◌||◌,
  not, leb, nat_eq, string_eq, length, if◌then◌else◌,
}
use dawos_agent.Prelude.Dict.{Dict, get, put}
use dawos_agent.Prelude.Sets.{contains, add, discard}

-- `data` and the time stamp are carried and never looked at: an event's payload is a text.
pub record Event : Type 0 where
  pub channel : String
  pub event_type : String
  pub payload : String
  pub timestamp : String

abbrev pub channels : List String
channels = "session" ∷ "config" ∷ "audit" ∷ "system" ∷ []

pub record EventBus : Type 0 where
  pub subscribers : Dict String (List ℕ)
  pub max_queue : ℕ
  -- what each queue holds, oldest first, and the first reference that is not taken
  pub queues : Dict ℕ (List Event)
  pub next_queue : ℕ

unfoldable pub new_bus : ℕ → EventBus
new_bus max_queue = record { subscribers = []; max_queue = max_queue; queues = []; next_queue = 0 }

-- `self._subscribers.get(channel, set())`
abbrev pub members : Dict String (List ℕ) → String → List ℕ
members subs channel = elim (get channel subs) [ none ↦ [] | some queues ↦ queues ]

-- What a queue holds.
unfoldable pub held : EventBus → ℕ → List Event
held bus queue = elim (get queue bus.queues) [ none ↦ [] | some events ↦ events ]

-- `subs.setdefault(channel, set()).add(queue)`
unfoldable pub enlist : String → ℕ → Dict String (List ℕ) → Dict String (List ℕ)
unfolding add
enlist channel queue subs = put channel (add queue (members subs channel)) subs

unfoldable pub enlist_all : List String → ℕ → Dict String (List ℕ) → Dict String (List ℕ)
unfolding enlist
enlist_all [] queue subs = subs
enlist_all (channel ∷ rest) queue subs = enlist_all rest queue (enlist channel queue subs)

abbrev is_nil : List String → Bool
is_nil [] = true
is_nil (x ∷ xs) = false

-- `channels if channels and "all" not in channels else CHANNELS`
unfoldable pub targets : Option (List String) → List String
unfolding contains
targets none = channels
targets (some asked) = if is_nil asked || contains "all" asked then channels else asked

unfoldable pub subscribe : Option (List String) → EventBus → ℕ × EventBus
unfolding targets enlist_all
subscribe asked bus = (
  bus.next_queue,
  record bus {
    subscribers = enlist_all (targets asked) bus.next_queue bus.subscribers;
    queues = put bus.next_queue [] bus.queues;
    next_queue = bus.next_queue + 1;
  },
)

unfoldable pub add_to_channel : String → ℕ → EventBus → EventBus
unfolding enlist
add_to_channel channel queue bus = record bus { subscribers = enlist channel queue bus.subscribers }

-- A channel that nobody ever subscribed is not created.
strike : String → ℕ → Dict String (List ℕ) → Dict String (List ℕ)
strike channel queue subs = elim (get channel subs) [
  | none ↦ subs
  | some queues ↦ put channel (discard queue queues) subs
]

unfoldable pub remove_from_channel : String → ℕ → EventBus → EventBus
unfolding strike discard
remove_from_channel channel queue bus = record bus {
  subscribers = strike channel queue bus.subscribers;
}

unfoldable pub strike_all : ℕ → Dict String (List ℕ) → Dict String (List ℕ)
unfolding discard
strike_all queue [] = []
strike_all queue ((channel, queues) ∷ rest) =
    (channel, discard queue queues) ∷ strike_all queue rest

unfoldable pub unsubscribe : ℕ → EventBus → EventBus
unfolding strike_all
unsubscribe queue bus = record bus { subscribers = strike_all queue bus.subscribers }

-- `asyncio.Queue.full`: a bound of 0 is none.
unfoldable pub is_full : EventBus → ℕ → Bool
unfolding held
is_full bus queue = not (bus.max_queue == 0) && leb bus.max_queue (length (held bus queue))

-- The loop of `publish` over the subscribers, with its count.
unfoldable pub publish_to : Event → List ℕ → EventBus → ℕ → ℕ × EventBus
publish_to event [] bus delivered = (delivered, bus)
publish_to event (queue ∷ rest) bus delivered =
    publish_to event rest
      (if is_full bus queue
        then bus
        else record bus { queues = put queue (held bus queue ++ event ∷ []) bus.queues })
      (if is_full bus queue then delivered else delivered + 1)

unfoldable pub publish : Event → EventBus → ℕ × EventBus
unfolding publish_to is_full
publish event bus = publish_to event (members bus.subscribers event.channel) bus 0

-- The number of distinct queues over all channels.
unfoldable pub unite : List ℕ → List ℕ → List ℕ
unfolding add
unite [] unique = unique
unite (queue ∷ rest) unique = unite rest (add queue unique)

unfoldable pub all_members : Dict String (List ℕ) → List ℕ → List ℕ
unfolding unite
all_members [] unique = unique
all_members ((channel, queues) ∷ rest) unique = all_members rest (unite queues unique)

unfoldable pub subscriber_count : EventBus → ℕ
unfolding all_members
subscriber_count bus = length (all_members bus.subscribers [])
