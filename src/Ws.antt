-- ===== src/Ws.antt =====
-- dawos_agent/routers/ws.py: the WebSocket endpoint, its handshake and its control messages.
pub mod Keys
pub mod Control
mod Tests
use dawos_agent.Prelude.{
  ℕ, String, List, [], ◌∷◌, Bool, true, false, Option, none, some, ◌==◌, string_eq, if◌then◌else◌,
}
use dawos_agent.Prelude.Sets.{contains, add, discard, intersect}
use dawos_agent.Rbac.{Role, viewer, KeyResolver, resolve, role_has_access}
use dawos_agent.Events.{
  EventBus, channels, subscribe, add_to_channel, remove_from_channel, unsubscribe,
}

-- What the socket does at the end of the handshake.
pub data Handshake : Type 0 where
  accepted missing_key invalid_key insufficient : Handshake

-- `a or b`, for what may be absent or empty
abbrev pub or_next : Option String → Option String → Option String
or_next none next = next
or_next (some key) next = if key == "" then next else some key

check_role : Option Role → Handshake
check_role none = invalid_key
check_role (some role) = if role_has_access role viewer then accepted else insufficient

check_key : KeyResolver → Option String → Handshake
unfolding check_role
check_key resolver none = missing_key
check_key resolver (some key) = check_role (resolve resolver key)

-- The three places of the key are the header, the subprotocol and the query parameter.
unfoldable pub authenticate :
    KeyResolver → Option String → Option String → Option String → Handshake
unfolding check_key
authenticate resolver header subprotocol query =
    check_key resolver (or_next header (or_next subprotocol (or_next query none)))

-- A control message that is a JSON object: its action, `""` if there is none, and its channels,
-- `none` where they are no list, and `[]` if there are none. (A list with anything but texts in it
-- is not modelled.)
pub record Message : Type 0 where
  pub action : String
  pub asked : Option (List String)

-- What is sent back; the channels are sent sorted.
pub data Reply : Type 0 where
  pong not_a_list : Reply
  subscribed_to unsubscribed_to : List String → Reply
  unknown_action : String → Reply

-- One connection: its queue, and the channels that the handler takes it to be subscribed to.
pub record Connection : Type 0 where
  pub queue : ℕ
  pub subscribed : List String

-- `set(channels) & (CHANNELS | {"all"})`, with "all" for all four
unfoldable pub chosen : List String → List String
unfolding contains intersect
chosen asked =
    if contains "all" (intersect asked ("all" ∷ channels))
    then channels
    else intersect asked ("all" ∷ channels)

-- The two loops over the channels of a message.
unfoldable pub join_all : List String → Connection → EventBus → Connection × EventBus
join_all [] conn bus = (conn, bus)
join_all (ch ∷ rest) conn bus =
    join_all rest (record conn { subscribed = add ch conn.subscribed })
      (add_to_channel ch conn.queue bus)

unfoldable pub leave_all : List String → Connection → EventBus → Connection × EventBus
leave_all [] conn bus = (conn, bus)
leave_all (ch ∷ rest) conn bus =
    leave_all rest (record conn { subscribed = discard ch conn.subscribed })
      (remove_from_channel ch conn.queue bus)

subscribe_reply : Connection × EventBus → Reply × Connection × EventBus
subscribe_reply (conn, bus) = (subscribed_to conn.subscribed, conn, bus)

unsubscribe_reply : Connection × EventBus → Reply × Connection × EventBus
unsubscribe_reply (conn, bus) = (unsubscribed_to conn.subscribed, conn, bus)

-- The code after the test that the channels are a list.
unfoldable pub handle_channels :
    String → List String → Connection → EventBus → Reply × Connection × EventBus
unfolding subscribe_reply unsubscribe_reply
handle_channels action asked conn bus =
    if action == "subscribe"
    then subscribe_reply (join_all (chosen asked) conn bus)
    else if action == "unsubscribe"
    then unsubscribe_reply (leave_all (intersect asked conn.subscribed) conn bus)
    else (unknown_action action, conn, bus)

unfoldable pub handle_control : Message → Connection → EventBus → Reply × Connection × EventBus
unfolding handle_channels
handle_control message conn bus =
    if message.action == "ping" then (pong, conn, bus) else elim message.asked [
      | none ↦ (not_a_list, conn, bus)
      | some asked ↦ handle_channels message.action asked conn bus
    ]

-- `ws_events` after the handshake, and its `finally`.
unfoldable pub connect : EventBus → Connection × EventBus
connect bus = (
  record { queue = (subscribe (some ("all" ∷ [])) bus).0; subscribed = channels },
  (subscribe (some ("all" ∷ [])) bus).1,
)

unfoldable pub disconnect : Connection → EventBus → EventBus
disconnect conn bus = unsubscribe conn.queue bus

-- `_receive_control` over the messages of a client.
unfoldable pub receive_control : List Message → Connection → EventBus → Connection × EventBus
receive_control [] conn bus = (conn, bus)
receive_control (message ∷ rest) conn bus =
    let (reply, conn', bus') = handle_control message conn bus in receive_control rest conn' bus'
