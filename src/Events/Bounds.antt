-- ===== src/Events/Bounds.antt =====
-- The invariant of the bus: no queue passes its bound, no channel lists a queue twice, and no channel
-- lists a queue that is not made yet.
use dawos_agent.Prelude.{
  ℕ, String, List, [], ◌∷◌, ◌++◌, ◌≤◌, ◌<◌, ◌≡◌, ◌≢◌, refl, arith, false, ◌==◌, length,
  length-append, Option, if◌then◌else◌, nat_eq, string_eq, ==_iff, eq_iff, Option-cases, Bool-cases,
  inl, inr,
}
use dawos_agent.Prelude.Dict.{Dict, get, put, get-put}
use dawos_agent.Prelude.Sets.{add, discard, Distinct, add-Distinct, discard-Distinct}
use dawos_agent.Events.Membership.{
  on_channel, contains-enlist, contains-enlist_all, contains-strike_all,
  on_channel-remove_from_channel,
}
use dawos_agent.Events.{
  Event, EventBus, members, held, is_full, enlist, enlist_all, targets, subscribe, add_to_channel,
  remove_from_channel, strike_all, unsubscribe, publish, publish_to,
}

pub record IsBounded (bus : EventBus) : Type 0 where
  pub within : (q : ℕ) → bus.max_queue ≢ 0 → length (held bus q) ≤ bus.max_queue
  pub distinct : (c : String) → Distinct (members bus.subscribers c)
  pub fresh : (c : String) (q : ℕ) → bus.next_queue ≤ q → on_channel bus c q ≡ false

pub members-put :
    (channel c : String) (queues : List ℕ) (subs : Dict String (List ℕ))
    → members (put channel queues subs) c ≡ (if channel == c then queues else members subs c)
members-put channel c queues subs = ground (arith, get-put channel c queues subs)

pub members-strike_all :
    (queue : ℕ) (subs : Dict String (List ℕ)) (c : String)
    → members (strike_all queue subs) c ≡ discard queue (members subs c)
unfolding strike_all get discard
members-strike_all queue [] c = refl
members-strike_all queue ((ch, queues) ∷ rest) c = ground (arith, members-strike_all queue rest c)

-- What queues hold after one more event was put into `queue`.
pub held-put :
    (event : Event) (queue q : ℕ) (bus : EventBus)
    → held (record bus { queues = put queue (held bus queue ++ event ∷ []) bus.queues }) q
      ≡ (if queue == q then held bus q ++ event ∷ [] else held bus q)
unfolding held
held-put event queue q bus =
    ground (arith, get-put queue q (held bus queue ++ event ∷ []) bus.queues, ==_iff queue q)

put-within :
    (event : Event) (queue q : ℕ) (bus : EventBus)
    → IsBounded bus
    → is_full bus queue ≡ false
    → bus.max_queue ≢ 0
    → length (held (record bus { queues = put queue (held bus queue ++ event ∷ []) bus.queues }) q)
      ≤ bus.max_queue
unfolding is_full
put-within event queue q bus h room bound =
    rw (held-put event queue q bus) (
      ground (arith, h.within q bound, length-append {0} (held bus q) (event ∷ []), ==_iff queue q))

pub publish_to-IsBounded :
    (event : Event) (qs : List ℕ) (bus : EventBus) (n : ℕ)
    → IsBounded bus
    → IsBounded (publish_to event qs bus n).1
unfolding publish_to
publish_to-IsBounded event [] bus n h = h
publish_to-IsBounded event (queue ∷ rest) bus n h =
    publish_to-IsBounded event rest _ _ (elim (Bool-cases (is_full bus queue)) [
      | inl full ↦ rw full h
      | inr room ↦ rw room (record {
        within = λ q bound. put-within event queue q bus h room bound;
        distinct = h.distinct;
        fresh = unfold on_channel in h.fresh;
      })
    ])

enlist-Distinct :
    (channel : String) (queue : ℕ) (subs : Dict String (List ℕ))
    → ((c : String) → Distinct (members subs c))
    → (c : String) → Distinct (members (enlist channel queue subs) c)
unfolding enlist
enlist-Distinct channel queue subs h c =
    rw (members-put channel c (add queue (members subs channel)) subs)
      (elim (Bool-cases (channel == c)) [
        | inl same ↦ rw same (add-Distinct queue (members subs channel) (h channel))
        | inr other ↦ rw other (h c)
      ])

enlist_all-Distinct :
    (chs : List String) (queue : ℕ) (subs : Dict String (List ℕ))
    → ((c : String) → Distinct (members subs c))
    → (c : String) → Distinct (members (enlist_all chs queue subs) c)
unfolding enlist_all
enlist_all-Distinct [] queue subs h c = h c
enlist_all-Distinct (ch ∷ chs) queue subs h c =
    enlist_all-Distinct chs queue (enlist ch queue subs) (enlist-Distinct ch queue subs h) c

-- A request or an event on the bus, as its clients and the program make them.
pub data Operation : Type 0 where
  subscribes : Option (List String) → Operation
  adds removes : String → ℕ → Operation
  leaves : ℕ → Operation
  publishes : Event → Operation

unfoldable pub perform : Operation → EventBus → EventBus
perform (subscribes asked) bus = (subscribe asked bus).1
perform (adds channel queue) bus = add_to_channel channel queue bus
perform (removes channel queue) bus = remove_from_channel channel queue bus
perform (leaves queue) bus = unsubscribe queue bus
perform (publishes event) bus = (publish event bus).1

subscribe-IsBounded :
    (asked : Option (List String)) (bus : EventBus)
    → IsBounded bus
    → IsBounded (subscribe asked bus).1
unfolding subscribe held on_channel
subscribe-IsBounded asked bus h = record {
  within = λ q bound. ground (arith, get-put bus.next_queue q [] bus.queues, h.within q bound);
  distinct = enlist_all-Distinct (targets asked) bus.next_queue bus.subscribers h.distinct;
  fresh = λ c q new. ground (
    arith,
    contains-enlist_all (targets asked) c bus.next_queue q bus.subscribers,
    h.fresh c q,
    ==_iff bus.next_queue q,
  );
}

members-remove_from_channel :
    (channel c : String) (queue : ℕ) (bus : EventBus)
    → members (remove_from_channel channel queue bus).subscribers c ≡ (
        if channel == c
        then discard queue (members bus.subscribers c)
        else members bus.subscribers c)
unfolding remove_from_channel
members-remove_from_channel channel c queue bus =
    elim (Option-cases (get channel bus.subscribers)) [
      | inl absent ↦ ground (arith, eq_iff channel c)
      | inr (queues, there) ↦
          ground (arith, get-put channel c (discard queue queues) bus.subscribers, eq_iff channel c)
    ]

remove_from_channel-IsBounded :
    (channel : String) (queue : ℕ) (bus : EventBus)
    → IsBounded bus
    → IsBounded (remove_from_channel channel queue bus)
remove_from_channel-IsBounded channel queue bus h = record {
  within = unfold remove_from_channel held in h.within;
  distinct = λ c.
      rw (members-remove_from_channel channel c queue bus) (elim (Bool-cases (channel == c)) [
        | inl same ↦ rw same (discard-Distinct queue (members bus.subscribers c) (h.distinct c))
        | inr other ↦ rw other (h.distinct c)
      ]);
  fresh = λ c q new.
      let new' : bus.next_queue ≤ q = unfold remove_from_channel in new in
      ground (arith, on_channel-remove_from_channel channel queue bus c q, h.fresh c q new');
}

-- A queue that is put on a channel was made by `subscribe` before.
abbrev pub IsIssued : Operation → EventBus → Type 0
IsIssued (adds channel queue) bus = queue < bus.next_queue
IsIssued op bus = Unit

-- Every operation on the bus keeps each queue within its bound, and lists under a channel no queue
-- twice, and none that is not made yet.
pub perform-IsBounded :
    (op : Operation) (bus : EventBus) → IsIssued op bus → IsBounded bus → IsBounded (perform op bus)
unfolding perform
perform-IsBounded (subscribes asked) bus i h = subscribe-IsBounded asked bus h
perform-IsBounded (adds channel queue) bus i h =
    unfold add_to_channel held in
    record {
      within = h.within;
      distinct = enlist-Distinct channel queue bus.subscribers h.distinct;
      fresh = λ c q new.
          unfold on_channel in
          ground
            (arith, contains-enlist channel c queue q bus.subscribers, h.fresh c q, ==_iff queue q);
    }
perform-IsBounded (removes channel queue) bus i h =
    remove_from_channel-IsBounded channel queue bus h
perform-IsBounded (leaves queue) bus i h =
    unfold unsubscribe held in
    record {
      within = h.within;
      distinct = λ c.
          rw (members-strike_all queue bus.subscribers c)
            (discard-Distinct queue (members bus.subscribers c) (h.distinct c));
      fresh = λ c q new.
          unfold on_channel in
          ground (arith, contains-strike_all c queue q bus.subscribers, h.fresh c q);
    }
perform-IsBounded (publishes event) bus i h =
    unfold publish in publish_to-IsBounded event (members bus.subscribers event.channel) bus 0 h
