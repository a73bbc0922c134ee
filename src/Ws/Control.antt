-- ===== src/Ws/Control.antt =====
-- The handler's own record of a client's channels agrees with the bus, and a client changes nobody
-- else's subscriptions.
use dawos_agent.Prelude.{
  ℕ, String, List, [], ◌∷◌, ◌≡◌, ◌≢◌, refl, ◌∙◌, arith, some, ◌==◌, string_eq, nat_eq, ==_iff,
  Bool-cases, Option-cases, inl, inr,
}
use dawos_agent.Prelude.Sets.{contains, add, discard, intersect, contains-add, contains-discard}
use dawos_agent.Events.{EventBus, channels, targets, subscribe, add_to_channel, remove_from_channel}
use dawos_agent.Events.Membership.{
  on_channel, on_channel-subscribe, on_channel-add_to_channel, on_channel-remove_from_channel,
  on_channel-unsubscribe,
}
use dawos_agent.Events.Bounds.{IsBounded}
use dawos_agent.Ws.{
  Message, Reply, Connection, chosen, join_all, leave_all, handle_channels, handle_control, connect,
  disconnect, receive_control,
}

-- The client's queue is on exactly the channels that the handler has noted.
abbrev pub IsSynced : Connection → EventBus → Type 0
IsSynced conn bus = (c : String) → on_channel bus c conn.queue ≡ contains c conn.subscribed

-- Two buses with the same subscriptions but for one queue.
abbrev pub SameOthers : ℕ → EventBus → EventBus → Type 0
SameOthers queue a b = (c : String) (q : ℕ) → q ≢ queue → on_channel b c q ≡ on_channel a c q

-- What a part of the handler keeps: the queue, the agreement, and the others' subscriptions.
pub record Keeps (conn : Connection) (bus : EventBus) (after : Connection × EventBus) : Type 0 where
  pub queue : after.0.queue ≡ conn.queue
  pub synced : IsSynced after.0 after.1
  pub others : SameOthers conn.queue bus after.1

Keeps-trans :
    {conn conn' : Connection} {bus bus' : EventBus} {after : Connection × EventBus}
    → Keeps conn bus (conn', bus')
    → Keeps conn' bus' after
    → Keeps conn bus after
Keeps-trans a b = record {
  queue = b.queue ∙ a.queue;
  synced = b.synced;
  others = λ c q ne. b.others c q (λ e. ne (e ∙ a.queue)) ∙ a.others c q ne;
}

join_one :
    (ch : String) (conn : Connection) (bus : EventBus)
    → IsSynced conn bus
    → Keeps conn bus
        (record conn { subscribed = add ch conn.subscribed }, add_to_channel ch conn.queue bus)
join_one ch conn bus h = record {
  queue = refl;
  synced = λ c. ground (
    arith,
    on_channel-add_to_channel ch conn.queue bus c conn.queue,
    contains-add ch c conn.subscribed,
    ==_iff conn.queue conn.queue,
    h c,
  );
  others = λ c q ne.
      ground (arith, on_channel-add_to_channel ch conn.queue bus c q, ==_iff conn.queue q);
}

leave_one :
    (ch : String) (conn : Connection) (bus : EventBus)
    → IsSynced conn bus
    → Keeps conn bus (
      record conn { subscribed = discard ch conn.subscribed },
      remove_from_channel ch conn.queue bus,
    )
leave_one ch conn bus h = record {
  queue = refl;
  synced = λ c. ground (
    arith,
    on_channel-remove_from_channel ch conn.queue bus c conn.queue,
    contains-discard ch c conn.subscribed,
    ==_iff conn.queue conn.queue,
    h c,
  );
  others = λ c q ne.
      ground (arith, on_channel-remove_from_channel ch conn.queue bus c q, ==_iff conn.queue q);
}

same : (conn : Connection) (bus : EventBus) → IsSynced conn bus → Keeps conn bus (conn, bus)
same conn bus h = record { queue = refl; synced = h; others = λ c q ne. refl }

join_all-Keeps :
    (chs : List String) (conn : Connection) (bus : EventBus)
    → IsSynced conn bus
    → Keeps conn bus (join_all chs conn bus)
unfolding join_all
join_all-Keeps [] conn bus h = same conn bus h
join_all-Keeps (ch ∷ rest) conn bus h =
    let one = join_one ch conn bus h in Keeps-trans one (join_all-Keeps rest _ _ one.synced)

leave_all-Keeps :
    (chs : List String) (conn : Connection) (bus : EventBus)
    → IsSynced conn bus
    → Keeps conn bus (leave_all chs conn bus)
unfolding leave_all
leave_all-Keeps [] conn bus h = same conn bus h
leave_all-Keeps (ch ∷ rest) conn bus h =
    let one = leave_one ch conn bus h in Keeps-trans one (leave_all-Keeps rest _ _ one.synced)

-- What a message leaves, without its reply.
abbrev pub after : Reply × Connection × EventBus → Connection × EventBus
after (reply, conn, bus) = (conn, bus)

handle_channels-Keeps :
    (action : String) (asked : List String) (conn : Connection) (bus : EventBus)
    → IsSynced conn bus
    → Keeps conn bus (after (handle_channels action asked conn bus))
unfolding handle_channels
handle_channels-Keeps action asked conn bus h = elim (Bool-cases (action == "subscribe")) [
  | inl joins ↦ rw joins (join_all-Keeps (chosen asked) conn bus h)
  | inr other ↦ rw other (elim (Bool-cases (action == "unsubscribe")) [
    | inl leaves ↦ rw leaves (leave_all-Keeps (intersect asked conn.subscribed) conn bus h)
    | inr unknown ↦ rw unknown (same conn bus h)
  ])
]

-- Whatever the control message, if the handler's note agreed with the bus before it agrees after,
-- the client keeps its queue, and every other client's subscriptions are as they were.
pub handle_control-Keeps :
    (message : Message) (conn : Connection) (bus : EventBus)
    → IsSynced conn bus
    → Keeps conn bus (after (handle_control message conn bus))
unfolding handle_control
handle_control-Keeps message conn bus h = elim (Bool-cases (message.action == "ping")) [
  | inl ping ↦ rw ping (same conn bus h)
  | inr other ↦ rw other (elim (Option-cases message.asked) [
    | inl bad ↦ rw bad (same conn bus h)
    | inr (asked, listed) ↦ rw listed (handle_channels-Keeps message.action asked conn bus h)
  ])
]

-- So too after any run of messages.
pub receive_control-Keeps :
    (messages : List Message) (conn : Connection) (bus : EventBus)
    → IsSynced conn bus
    → Keeps conn bus (receive_control messages conn bus)
unfolding receive_control
receive_control-Keeps [] conn bus h = same conn bus h
receive_control-Keeps (message ∷ rest) conn bus h =
    let one = handle_control-Keeps message conn bus h in
    Keeps-trans one (receive_control-Keeps rest _ _ one.synced)

targets_all : targets (some ("all" ∷ [])) ≡ channels
unfolding targets contains
targets_all = refl

new_queue : (bus : EventBus) → (subscribe (some ("all" ∷ [])) bus).0 ≡ bus.next_queue
unfolding subscribe
new_queue bus = refl

-- A new client is on all four channels, and noted so.
pub connect-Keeps :
    (bus : EventBus)
    → IsBounded bus
    → IsSynced (connect bus).0 (connect bus).1
      × SameOthers (connect bus).0.queue bus (connect bus).1
unfolding connect
connect-Keeps bus h = (
  λ c. ground (
    arith,
    on_channel-subscribe (some ("all" ∷ [])) bus c (subscribe (some ("all" ∷ [])) bus).0,
    targets_all,
    new_queue bus,
    h.fresh c bus.next_queue,
    ==_iff (subscribe (some ("all" ∷ [])) bus).0 (subscribe (some ("all" ∷ [])) bus).0,
  ),
  λ c q ne. ground (
    arith,
    on_channel-subscribe (some ("all" ∷ [])) bus c q,
    ==_iff (subscribe (some ("all" ∷ [])) bus).0 q,
  ),
)

queue-connect : (bus : EventBus) → (connect bus).0.queue ≡ bus.next_queue
unfolding connect subscribe
queue-connect bus = refl

-- From its connection to its end a client changes nobody else's subscriptions, whatever messages it
-- sends in between, and at the end it has none.
pub session_leaves_nothing :
    (messages : List Message) (bus : EventBus) (c : String) (q : ℕ)
    → IsBounded bus
    → on_channel
        (disconnect
          (receive_control messages (connect bus).0 (connect bus).1).0
          (receive_control messages (connect bus).0 (connect bus).1).1)
        c
        q
      ≡ on_channel bus c q
unfolding disconnect
session_leaves_nothing messages bus c q h =
    let start = connect bus in
    let (synced, apart) = connect-Keeps bus h in
    let k = receive_control-Keeps messages start.0 start.1 synced in
    let end = receive_control messages start.0 start.1 in
    let gone = on_channel-unsubscribe end.0.queue end.1 c q in
    elim (Bool-cases (q == start.0.queue)) [
      | inl own ↦ ground (
        arith,
        gone,
        k.queue,
        queue-connect bus,
        h.fresh c q,
        ==_iff q start.0.queue,
        ==_iff end.0.queue q,
      )
      | inr other ↦ ground (
        arith,
        gone,
        k.queue,
        k.others c q,
        apart c q,
        ==_iff q start.0.queue,
        ==_iff end.0.queue q,
      )
    ]
