-- ===== src/SocketIo.antt =====
-- src/socketio/socketio.service.ts: the Socket.IO proxy. What the client library reports comes as an
-- argument. `stringify` is `JSON.stringify`.
pub mod Errors
pub mod Subscriptions
pub mod Refusals
pub mod Listeners
pub mod Heard
use socket_tester.Base.{
  ℕ, ◌+◌, Option, none, some, List, [], ◌∷◌, ◌++◌, Bool, true, false, any, filter, not, Text, lit,
  text_eq, truthy, default, Map, lookup, insert, delete, if◌then◌else◌,
}
use socket_tester.Json.{Value, null, bool, num, str, arr, obj, Items, nil, cons, Fields, end, Data}
use socket_tester.ClientOptions.{SioOptions}
use socket_tester.Session.{
  ConnectionType, ConnectionStatus, connected, disconnected, reconnecting, close_socketio, get,
  create, set_close, update_status, record_message_sent, record_message_received, record_error,
  buffer_message,
}
use socket_tester.App.{
  App, Error, not_found, bad_request, thrown, Result, ok, err, ReadyState, SioPart, SioCall,
  Cleanup, on_sessions, on_sio, emit, ◌|>◌,
}
use socket_tester.Closing.{close_session}
use socket_tester.WebSocket.{byte_length}
use socket_tester.Mqtt.{add_to_set, delete_from_set}

pub record CreateSocketIoConnectionDto : Type 0 where
  pub url : Text
  pub namespace : Option Text
  pub path : Option Text
  pub auth : Option Fields
  pub query : Option (Map Text)
  pub transports : Option (List Text)
  pub auto_reconnect : Option Bool
  pub reconnection_attempts : Option ℕ
  pub reconnection_delay : Option ℕ
  pub extra_headers : Option (Map Text)

-- `{ ...m, ...more }`
unfoldable pub spread_over : Map Text → Map Text → Map Text
spread_over m [] = m
spread_over m ((k, v) ∷ more) = spread_over (insert k v m) more

-- `origin_of url` is `new URL(url).origin`, and `none` where that throws.
unfoldable pub client_options : (Text → Option Text) → CreateSocketIoConnectionDto → SioOptions
client_options origin_of dto = record {
  path = default (lit "/socket.io") dto.path;
  auth = default end dto.auth;
  query = default [] dto.query;
  transports = default (lit "websocket" ∷ []) dto.transports;
  reconnection = default false dto.auto_reconnect;
  reconnection_attempts =
      if default false dto.auto_reconnect then default 3 dto.reconnection_attempts else 0;
  reconnection_delay = default 1000 dto.reconnection_delay;
  timeout = 10000;
  extra_headers =
      spread_over ((lit "origin", default dto.url (origin_of dto.url)) ∷ [])
        (default [] dto.extra_headers);
}

unfoldable pub create_connection :
    (Text → Option Text) → CreateSocketIoConnectionDto → Text → ℕ → ℕ → App → App × Text
create_connection origin_of dto id client now app = (
  app
      |> on_sessions (create id dto.url ConnectionType.socketio now)
      |> on_sio (λ p. record p {
        calls =
            p.calls
            ++ SioCall.connects client (dto.url ++ default [] dto.namespace)
                (client_options origin_of dto)
              ∷ [];
        clients = insert id client p.clients;
        subscribed_events = insert id [] p.subscribed_events;
      })
      |> on_sessions (set_close id (close_socketio client)),
  id,
)

abbrev items_of : List Value → Items
items_of [] = nil
items_of (v ∷ vs) = cons v (items_of vs)

-- `args.length === 1 ? args[0] : args`
abbrev payload_of : List Value → Value
payload_of (v ∷ []) = v
payload_of args = arr (items_of args)

-- `typeof payload === 'object' ? 'json' : 'text'`; null and arrays are objects.
abbrev type_of : Value → Text
type_of (bool b) = lit "text"
type_of (num n) = lit "text"
type_of (str s) = lit "text"
type_of v = lit "json"

module _ (stringify : Value → Text) where
  -- `typeof payload === 'string' ? payload : JSON.stringify(payload)`
  abbrev json_of : Value → Text
  json_of (str s) = s
  json_of v = stringify v

  abbrev message_data : Text → Text → Value → Text → ℕ → Data
  message_data id event payload direction now =
      (lit "connectionId", str id)
      ∷ (lit "eventName", str event)
      ∷ (lit "payload", str (json_of payload))
      ∷ (lit "direction", str direction)
      ∷ (lit "type", str (type_of payload))
      ∷ (lit "size", num (byte_length (json_of payload)))
      ∷ (lit "timestamp", num now)
      ∷ []

  -- The listener of every event.
  unfoldable pub on_any : Text → Text → List Value → ℕ → App → App
  on_any id event args now app =
      let payload = payload_of args in
      let sent = message_data id event payload (lit "received") now in
      app
      |> on_sessions (record_message_received id (byte_length (json_of payload)) none)
      |> on_sessions (buffer_message id (lit "connection:message") sent)
      |> emit id (lit "connection:message") sent

  -- The listener that `subscribeEvent` registers for one event; it reads the first argument.
  unfoldable pub on_subscribed : Text → Text → Value → ℕ → App → App
  on_subscribed id event payload now app =
      app
      |> on_sessions (record_message_received id (byte_length (json_of payload)) none)
      |> emit id (lit "connection:message") (message_data id event payload (lit "received") now)

  unfoldable pub send_message :
      (ℕ → Bool) → Text → Text → Value → Bool → ℕ → App → App × Result (Unit {0})
  send_message is_up id event payload ack now app = elim (lookup id app.sio.clients) [
    | none ↦ (app, err (not_found (lit "Connection " ++ (id ++ lit " not found"))))
    | some client ↦
        if is_up client
        then (
          app
              |> on_sessions (record_message_sent id (byte_length (json_of payload)))
              |> emit id (lit "connection:message") (message_data id event payload (lit "sent") now)
              |> on_sio (λ p. record p {
                calls =
                    p.calls
                    ++ (if ack
                        then SioCall.emits_ack client event payload
                        else SioCall.emits client event payload)
                      ∷ [];
              }),
          ok tt,
        )
        else (app, err (bad_request (lit "Socket.io client is not connected")))
  ]

-- The acknowledgement of a message.
unfoldable pub on_ack : Text → Text → Value → ℕ → App → App
on_ack id event payload now app =
    app
    |> emit id (lit "connection:ack") (
        (lit "connectionId", str id)
        ∷ (lit "eventName", str event)
        ∷ (lit "ackPayload", payload)
        ∷ (lit "timestamp", num now)
        ∷ [])

unfoldable pub on_connect : Text → Text → Text → ℕ → App → App
on_connect id transport namespace now app =
    app
    |> on_sessions (update_status id connected none now)
    |> emit id (lit "connection:open") (
        (lit "connectionId", str id)
        ∷ (lit "transport", str transport)
        ∷ (lit "namespace", str namespace)
        ∷ (lit "timestamp", num now)
        ∷ [])

unfoldable pub on_disconnect : Text → Text → ℕ → App → App
on_disconnect id reason now app =
    app
    |> on_sessions (update_status id disconnected none now)
    |> emit id (lit "connection:close") (
        (lit "connectionId", str id) ∷ (lit "reason", str reason) ∷ (lit "timestamp", num now) ∷ [])

-- Registered only where `autoReconnect` is set.
unfoldable pub on_reconnect_attempt : Text → ℕ → ℕ → App → App
on_reconnect_attempt id attempt now app =
    app
    |> on_sessions (update_status id reconnecting none now)
    |> emit id (lit "connection:reconnecting") (
        (lit "connectionId", str id)
        ∷ (lit "attempt", num attempt)
        ∷ (lit "timestamp", num now)
        ∷ [])

-- `subscribedEvents.get(id)!` throws if the set is gone.
unfoldable pub subscribe_event : Text → Text → App → App × Result (Unit {0})
subscribe_event id event app = elim (lookup id app.sio.clients) [
  | none ↦ (app, err (not_found (lit "Connection " ++ (id ++ lit " not found"))))
  | some client ↦ elim (lookup id app.sio.subscribed_events) [
    | none ↦ (app, err thrown)
    | some events ↦ if any (text_eq event) events then (app, ok tt) else (
      app
          |> on_sio (λ p. record p {
            subscribed_events = insert id (add_to_set event events) p.subscribed_events;
            calls = p.calls ++ SioCall.listens client event ∷ [];
          }),
      ok tt,
    )
  ]
]

unfoldable pub close_connection : (ℕ → ReadyState) → Text → ℕ → App → App × Result (Unit {0})
close_connection ready id now app = elim (get id app.sessions) [
  | none ↦ (app, err (not_found (lit "Connection " ++ (id ++ lit " not found"))))
  | some session ↦ (
    close_session ready id session.close app
        |> on_sessions (update_status id disconnected none now),
    ok tt,
  )
]
