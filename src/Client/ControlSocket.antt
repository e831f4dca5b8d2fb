-- ===== src/Client/ControlSocket.antt =====
-- src/client/src/hooks/useControlSocket.ts: the one control channel of the browser, whose events are
-- routed to the stores by the connection id in their payload.
pub mod Payloads
pub mod Rooms
pub mod Decode
pub mod Joining
pub mod Delivery
pub mod Routing
pub mod Failures
pub mod Stores
use socket_tester.Base.{
  ℕ, ◌+◌, Bool, true, false, Option, none, some, List, [], ◌∷◌, ◌++◌, map, find, take, Text, lit,
  default, leb, if◌then◌else◌,
}
use socket_tester.Json.{Value, Data, str}
use socket_tester.Session.{ConnectionStatus, connected, disconnected, error, reconnecting}
use socket_tester.Log.{LogLevel, info, warn, debug, LogDirection, inward, outward, LogInput}
use socket_tester.Log
use socket_tester.Client.Tabs.{TabState, is_connection, has_status, update_status_by_connection_id}
use socket_tester.Client.Tabs.Topics.{add_tab_topic, remove_tab_topic, add_tab_event}
use socket_tester.Client.Series.{
  StatsState, Direction, outgoing, incoming, record_message, record_error,
}
use socket_tester.Client.Messages.{
  MessageState, NewMessage, system, received, text, no_extras, add_message,
}
use socket_tester.Client.Entries.{EntryState, add_entry}
use socket_tester.Client.Notifications.{ToastState, ToastType, success, warning, add_toast}
use socket_tester.Client.Notifications
use socket_tester.Client.ControlSocket.Payloads.{
  OpenData, MessageData, ErrorData, CloseData, ReconnectingData, PongData, AckData, TopicData,
  AmqpData, EventData, Incoming, opened, messaged, failed, closed, reconnects, ponged, acked,
  progressed, completed, subscribed, unsubscribed, amqp_set_up, event_subscribed, open_text,
  close_text, reconnecting_text, pong_text, ack_text, subscribed_text, unsubscribed_text, amqp_text,
  direction_text,
}
use socket_tester.Client.ControlSocket.Stores.{
  Delayed, WindowEvent, Browser, Stamp, hear_status, system_message, add_system, add_log, notify,
}

unfoldable pub on_open : OpenData → Stamp → Browser → Browser
unfolding hear_status add_system add_log notify
on_open d t b = notify (lit "Connection established") success t (
    add_log d.connection_id info (lit "connection:open") d.raw t
      (add_system d.connection_id (open_text d) t (hear_status d.connection_id connected b)))

abbrev pub delayed_message : MessageData → NewMessage
delayed_message d = record {
  connection_id = d.connection_id;
  payload = d.payload;
  direction = received;
  kind = default text d.kind;
  size = some (default 0 d.size);
  latency = d.latency;
  extras = d.extras;
}

unfoldable pub delay_received : MessageData → ℕ → List Delayed → List Delayed
delay_received d now queue = elim d.direction [
  | incoming ↦ queue ++ record { due = now + 100; message = delayed_message d } ∷ []
  | outgoing ↦ queue
]

abbrev log_direction : Direction → LogDirection
log_direction outgoing = outward
log_direction incoming = inward

unfoldable pub on_message : MessageData → Stamp → Browser → Browser
unfolding delay_received
on_message d t b = record b {
  delayed = delay_received d t.now b.delayed;
  series = record_message d.connection_id d.direction (default 0 d.size) d.latency t.now b.series;
  entries =
      add_entry
        (record {
          connection_id = d.connection_id;
          level = debug;
          event = lit "msg:" ++ direction_text d.direction;
          direction = some (log_direction d.direction);
          payload = some (take 500 d.payload);
          payload_size = d.size;
          latency = d.latency;
          metadata = none;
        })
        t.now b.entries;
}

unfoldable pub on_error : ErrorData → Stamp → Browser → Browser
unfolding hear_status add_system add_log notify
on_error d t b =
    let shown =
      add_system d.connection_id (lit "Error: " ++ d.message) t
        (hear_status d.connection_id error b) in
    let counted = record shown { series = record_error d.connection_id t.now shown.series } in
    notify (lit "Connection error: " ++ d.message) Notifications.error t (
      add_log d.connection_id Log.error (lit "connection:error")
        ((lit "message", str d.message) ∷ []) t counted)

-- `tabs.find((t) => t.connection?.connectionId === cid)?.connection?.status === 'error'`
unfoldable pub was_error : Text → TabState → Bool
was_error id st = elim (find (is_connection id) st.tabs) [
  | none ↦ false
  | some t ↦ has_status error t
]

unfoldable pub on_close : CloseData → Stamp → Browser → Browser
unfolding hear_status add_system add_log notify was_error
on_close d t b =
    let id = d.connection_id in
    let was = was_error id b.tabs in
    let logged =
      add_log id info (lit "connection:close") d.raw t
        (add_system id (close_text d) t (if was then b else hear_status id disconnected b)) in
    if was then logged else notify (lit "Connection closed") warning t logged

unfoldable pub on_reconnecting : ReconnectingData → Stamp → Browser → Browser
unfolding hear_status add_system add_log
on_reconnecting d t b = add_log d.connection_id warn (lit "connection:reconnecting") d.raw t (
    add_system d.connection_id (reconnecting_text d) t (hear_status d.connection_id reconnecting b))

unfoldable pub on_pong : PongData → Stamp → Browser → Browser
unfolding add_system
on_pong d t b =
    let shown = add_system d.connection_id (pong_text d) t b in
    record shown {
      series = record_message d.connection_id incoming 0 (some d.latency) t.now shown.series;
    }

unfoldable pub on_ack : (Option Value → Text) → AckData → Stamp → Browser → Browser
unfolding add_system
on_ack stringify d t b = add_system d.connection_id (ack_text stringify d) t b

unfoldable pub dispatch : Text → Value → Browser → Browser
dispatch name detail b = record b {
  dispatched = b.dispatched ++ record { name = name; detail = detail } ∷ [];
}

-- An update of the tabs that throws ends the handler.
abbrev pub with_tabs : Option TabState → (Browser → Browser) → Browser → Browser
with_tabs none rest b = b
with_tabs (some tabs) rest b = rest (record b { tabs = tabs })

unfoldable pub on_mqtt_subscribed : TopicData → Stamp → Browser → Browser
unfolding add_system
on_mqtt_subscribed d t b =
    with_tabs (add_tab_topic d.topic (some d.connection_id) b.tabs)
      (add_system d.connection_id (subscribed_text d) t) b

unfoldable pub on_mqtt_unsubscribed : TopicData → Stamp → Browser → Browser
unfolding add_system
on_mqtt_unsubscribed d t b =
    with_tabs (remove_tab_topic d.topic (some d.connection_id) b.tabs)
      (add_system d.connection_id (unsubscribed_text d) t) b

unfoldable pub on_amqp_setup : AmqpData → Stamp → Browser → Browser
unfolding add_system
on_amqp_setup d t b = add_system d.connection_id (amqp_text d) t b

unfoldable pub on_socket_io_subscribed : EventData → Browser → Browser
on_socket_io_subscribed d b =
    with_tabs (add_tab_event d.event_name (some d.connection_id) b.tabs) (λ b'. b') b

-- The handler that `socket.on` registers for each event.
unfoldable pub handle : (Option Value → Text) → Incoming → Stamp → Browser → Browser
handle stringify (opened d) t b = on_open d t b
handle stringify (messaged d) t b = on_message d t b
handle stringify (failed d) t b = on_error d t b
handle stringify (closed d) t b = on_close d t b
handle stringify (reconnects d) t b = on_reconnecting d t b
handle stringify (ponged d) t b = on_pong d t b
handle stringify (acked d) t b = on_ack stringify d t b
handle stringify (progressed v) t b = dispatch (lit "perf:progress") v b
handle stringify (completed v) t b = dispatch (lit "perf:complete") v b
handle stringify (subscribed d) t b = on_mqtt_subscribed d t b
handle stringify (unsubscribed d) t b = on_mqtt_unsubscribed d t b
handle stringify (amqp_set_up d) t b = on_amqp_setup d t b
handle stringify (event_subscribed d) t b = on_socket_io_subscribed d b

-- The oldest delayed message is added to the feed; all wait as long, so it is due first.
unfoldable pub add_delayed : Stamp → Browser → Browser
add_delayed t b = elim b.delayed [
  | [] ↦ b
  | d ∷ rest ↦
      if leb d.due t.now
      then record b {
        messages = add_message d.message t.message_id t.now b.messages;
        delayed = rest;
      }
      else b
]
