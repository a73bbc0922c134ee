-- ===== src/Events/Delivery.antt =====
-- What a published event reaches.
use dawos_agent.Prelude.{
  ℕ, List, [], ◌∷◌, ◌++◌, ◌+◌, ◌≡◌, refl, ◌∙◌, arith, false, ◌==◌, ◌&&◌, not, count_if, nat_eq,
  string_eq, ==_iff, if◌then◌else◌, Bool-cases, inl, inr,
}
use dawos_agent.Prelude.Dict.{put}
use dawos_agent.Prelude.Sets.{contains, Distinct}
use dawos_agent.Events.{Event, EventBus, members, held, is_full, publish, publish_to, unsubscribe}
use dawos_agent.Events.Membership.{on_channel, on_channel-unsubscribe}
use dawos_agent.Events.Bounds.{IsBounded, held-put}

-- The bus after one round of the loop.
abbrev round : Event → ℕ → EventBus → EventBus
round event queue bus =
    if is_full bus queue
    then bus
    else record bus { queues = put queue (held bus queue ++ event ∷ []) bus.queues }

held-round :
    (event : Event) (queue q : ℕ) (bus : EventBus)
    → held (round event queue bus) q
      ≡ (if queue == q && not (is_full bus q) then held bus q ++ event ∷ [] else held bus q)
held-round event queue q bus = elim (Bool-cases (is_full bus queue)) [
  | inl full ↦ rw full (ground (arith, ==_iff queue q))
  | inr room ↦ rw room (rw (held-put event queue q bus) (ground (arith, ==_iff queue q)))
]

max_queue-round :
    (event : Event) (queue : ℕ) (bus : EventBus) → (round event queue bus).max_queue ≡ bus.max_queue
max_queue-round event queue bus = ground arith

is_full-round :
    (event : Event) (queue q : ℕ) (bus : EventBus)
    → (queue == q) ≡ false
    → is_full (round event queue bus) q ≡ is_full bus q
is_full-round event queue q bus other =
    unfold is_full in ground (arith, held-round event queue q bus, max_queue-round event queue bus)

held-publish_to :
    (event : Event) (qs : List ℕ) (bus : EventBus) (n q : ℕ)
    → Distinct qs
    → held (publish_to event qs bus n).1 q
      ≡ (if contains q qs && not (is_full bus q) then held bus q ++ event ∷ [] else held bus q)
unfolding publish_to contains
held-publish_to event [] bus n q h = refl
held-publish_to event (queue ∷ rest) bus n q (out, h) =
    let bus' = round event queue bus in
    let n' : ℕ = if is_full bus queue then n else n + 1 in
    let now = held-round event queue q bus in
    elim (Bool-cases (queue == q)) [
      | inl same ↦ ground (arith, held-publish_to event rest bus' n' q h, now, ==_iff queue q)
      | inr other ↦ ground (
        arith,
        held-publish_to event rest bus' n' q h,
        now,
        is_full-round event queue q bus other,
      )
    ]

-- Only the queues that come later in the loop count for the rest of it.
count-round :
    (event : Event) (queue : ℕ) (rest : List ℕ) (bus : EventBus)
    → contains queue rest ≡ false
    → count_if (λ q. not (is_full (round event queue bus) q)) rest
      ≡ count_if (λ q. not (is_full bus q)) rest
unfolding contains
count-round event queue [] bus out = refl
count-round event queue (q ∷ rest) bus out = ground (
  arith,
  count-round event queue rest bus,
  is_full-round event queue q bus,
  ==_iff queue q,
  ==_iff q queue,
)

delivered-publish_to :
    (event : Event) (qs : List ℕ) (bus : EventBus) (n : ℕ)
    → Distinct qs
    → (publish_to event qs bus n).0 ≡ n + count_if (λ q. not (is_full bus q)) qs
unfolding publish_to
delivered-publish_to event [] bus n h = omega arith
delivered-publish_to event (queue ∷ rest) bus n (out, h) =
    let bus' = round event queue bus in
    let n' : ℕ = if is_full bus queue then n else n + 1 in
    ground (arith, delivered-publish_to event rest bus' n' h, count-round event queue rest bus out)

-- An event reaches exactly the queues of its channel that have room: each of them holds it last,
-- every other queue, the full ones among them, holds what it held; and the answer is their number.
pub publish_lem :
    (event : Event) (bus : EventBus)
    → IsBounded bus
    → ((q : ℕ)
        → held (publish event bus).1 q ≡ (
            if on_channel bus event.channel q && not (is_full bus q)
            then held bus q ++ event ∷ []
            else held bus q))
      × ((publish event bus).0
          ≡ count_if (λ q. not (is_full bus q)) (members bus.subscribers event.channel))
publish_lem event bus h =
    unfold publish on_channel in
    (
      λ q.
          held-publish_to event (members bus.subscribers event.channel) bus 0 q
            (h.distinct event.channel),
      omega (
        arith,
        delivered-publish_to event (members bus.subscribers event.channel) bus 0
            (h.distinct event.channel),
      ),
    )

-- A client that has left gets nothing more, whatever is published.
pub publish-unsubscribe :
    (event : Event) (queue : ℕ) (bus : EventBus)
    → IsBounded (unsubscribe queue bus)
    → held (publish event (unsubscribe queue bus)).1 queue ≡ held bus queue
publish-unsubscribe event queue bus h =
    (publish_lem event (unsubscribe queue bus) h).0 queue
    ∙ (ground
        (arith, on_channel-unsubscribe queue bus event.channel queue, ==_iff queue queue, kept))
  where
    kept : held (unsubscribe queue bus) queue ≡ held bus queue
    kept = unfold unsubscribe held in refl
