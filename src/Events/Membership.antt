-- ===== src/Events/Membership.antt =====
-- Who is subscribed to what, after each operation on the subscriptions.
use dawos_agent.Prelude.{
  ℕ, String, List, [], ◌∷◌, ◌≡◌, refl, arith, Bool, ◌==◌, ◌&&◌, ◌||◌, not, Option, nat_eq,
  string_eq, eq_iff, Option-cases, inl, inr,
}
use dawos_agent.Prelude.Dict.{Dict, get, get-put}
use dawos_agent.Prelude.Sets.{contains, add, discard, contains-add, contains-discard}
use dawos_agent.Events.{
  EventBus, members, enlist, enlist_all, targets, subscribe, add_to_channel, remove_from_channel,
  strike_all, unsubscribe,
}

-- Is the queue subscribed to the channel?
unfoldable pub on_channel : EventBus → String → ℕ → Bool
on_channel bus channel queue = contains queue (members bus.subscribers channel)

pub contains-enlist :
    (channel c : String) (queue q : ℕ) (subs : Dict String (List ℕ))
    → contains q (members (enlist channel queue subs) c)
      ≡ ((channel == c && queue == q) || contains q (members subs c))
unfolding enlist
contains-enlist channel c queue q subs = ground (
  arith,
  get-put channel c (add queue (members subs channel)) subs,
  contains-add queue q (members subs channel),
  eq_iff channel c,
)

pub contains-enlist_all :
    (chs : List String) (c : String) (queue q : ℕ) (subs : Dict String (List ℕ))
    → contains q (members (enlist_all chs queue subs) c)
      ≡ ((contains c chs && queue == q) || contains q (members subs c))
unfolding enlist_all contains
contains-enlist_all [] c queue q subs = refl
contains-enlist_all (ch ∷ chs) c queue q subs = ground (
  arith,
  contains-enlist_all chs c queue q (enlist ch queue subs),
  contains-enlist ch c queue q subs,
)

pub contains-strike_all :
    (c : String) (queue q : ℕ) (subs : Dict String (List ℕ))
    → contains q (members (strike_all queue subs) c)
      ≡ (not (queue == q) && contains q (members subs c))
unfolding strike_all get contains
contains-strike_all c queue q [] = ground arith
contains-strike_all c queue q ((ch, queues) ∷ rest) =
    ground (arith, contains-strike_all c queue q rest, contains-discard queue q queues)

-- A new subscription adds its queue to the channels that are asked for, or to all four where none
-- or "all" is asked for, and changes nobody else's.
pub on_channel-subscribe :
    (asked : Option (List String)) (bus : EventBus) (c : String) (q : ℕ)
    → on_channel (subscribe asked bus).1 c q
      ≡ ((contains c (targets asked) && (subscribe asked bus).0 == q) || on_channel bus c q)
unfolding on_channel subscribe
on_channel-subscribe asked bus c q =
    contains-enlist_all (targets asked) c bus.next_queue q bus.subscribers

pub on_channel-add_to_channel :
    (channel : String) (queue : ℕ) (bus : EventBus) (c : String) (q : ℕ)
    → on_channel (add_to_channel channel queue bus) c q
      ≡ ((channel == c && queue == q) || on_channel bus c q)
unfolding on_channel add_to_channel
on_channel-add_to_channel channel queue bus c q = contains-enlist channel c queue q bus.subscribers

pub on_channel-remove_from_channel :
    (channel : String) (queue : ℕ) (bus : EventBus) (c : String) (q : ℕ)
    → on_channel (remove_from_channel channel queue bus) c q
      ≡ (not (channel == c && queue == q) && on_channel bus c q)
unfolding on_channel remove_from_channel contains
on_channel-remove_from_channel channel queue bus c q =
    elim (Option-cases (get channel bus.subscribers)) [
      | inl absent ↦ ground (arith, eq_iff channel c)
      | inr (queues, there) ↦ ground (
        arith,
        get-put channel c (discard queue queues) bus.subscribers,
        contains-discard queue q queues,
        eq_iff channel c,
      )
    ]

-- An unsubscribed queue is on no channel any more, and no other queue is touched.
pub on_channel-unsubscribe :
    (queue : ℕ) (bus : EventBus) (c : String) (q : ℕ)
    → on_channel (unsubscribe queue bus) c q ≡ (not (queue == q) && on_channel bus c q)
unfolding on_channel unsubscribe
on_channel-unsubscribe queue bus c q = contains-strike_all c queue q bus.subscribers
