-- ===== src/Mqtt.antt =====
-- src/mqtt/mqtt.service.ts: the MQTT proxy. What the client library reports comes as an argument.
pub mod Topics
pub mod Agreement
pub mod Publishing
use socket_tester.Base.{
  ℕ, Option, none, some, List, [], ◌∷◌, ◌++◌, Bool, true, false, not, any, filter, take, Text, lit,
  text_eq, truthy, default, lookup, insert, modify, if◌then◌else◌,
}
use socket_tester.Json.{num, str, bool}
use socket_tester.ClientOptions.{MqttWill, Tls, ClientTls, MqttOptions}
use socket_tester.Session.{
  ConnectionType, ConnectionStatus, connected, disconnected, close_mqtt, get, create, set_close,
  update_status, record_message_sent, record_message_received, record_error, add_mqtt_topic,
  remove_mqtt_topic, ConnectionSession,
}
use socket_tester.App.{
  App, not_found, bad_request, Result, ok, err, ReadyState, MqttCall, on_sessions, on_mqtt, emit,
  ◌|>◌,
}
use socket_tester.Closing.{close_session}
use socket_tester.WebSocket.{byte_length}

pub record CreateMqttConnectionDto : Type 0 where
  pub broker_url : Text
  pub client_id : Option Text
  pub username : Option Text
  pub password : Option Text
  pub keepalive : Option ℕ
  pub connect_timeout : Option ℕ
  pub clean : Option Bool
  pub will : Option MqttWill
  pub tls : Option Tls
  pub initial_topics : Option (List Text)

-- `if (s) o.k = s`
abbrev pub if_truthy : Option Text → Option Text
if_truthy o = if truthy (default [] o) then o else none

abbrev pub client_tls : Tls → ClientTls
client_tls t = record {
  ca = t.ca;
  cert = t.cert;
  key = t.key;
  reject_unauthorized = default true t.reject_unauthorized;
}

-- `uuid` is the UUID of the default client id.
unfoldable pub client_options : CreateMqttConnectionDto → Text → MqttOptions
client_options dto uuid = record {
  client_id = default (lit "socket-tester-" ++ take 8 uuid) dto.client_id;
  keepalive = default 60 dto.keepalive;
  connect_timeout = default 30000 dto.connect_timeout;
  clean = default true dto.clean;
  reconnect_period = 0;
  username = if_truthy dto.username;
  password = if_truthy dto.password;
  will = dto.will;
  tls = elim dto.tls [ none ↦ none | some t ↦ some (client_tls t) ];
}

-- `mqtt.connect` gives the handle `client`.
unfoldable pub create_connection : CreateMqttConnectionDto → Text → Text → ℕ → ℕ → App → App × Text
create_connection dto id uuid client now app = (
  app
      |> on_sessions (create id dto.broker_url ConnectionType.mqtt now)
      |> on_mqtt (λ p. record p {
        calls = p.calls ++ MqttCall.connects client dto.broker_url (client_options dto uuid) ∷ [];
        clients = insert id client p.clients;
        subscribed_topics = insert id [] p.subscribed_topics;
      })
      |> on_sessions (set_close id (close_mqtt client)),
  id,
)

unfoldable subscribe : Text → Text → Option ℕ → App → App × Result (Unit {0})
subscribe id topic qos app = elim (lookup id app.mqtt.clients) [
  | none ↦ (app, err (not_found (lit "Connection " ++ (id ++ lit " not found"))))
  | some client ↦ (
    app
        |> on_mqtt (λ p. record p {
          calls = p.calls ++ MqttCall.subscribes client topic (default 0 qos) ∷ [];
        }),
    ok tt,
  )
]

-- `topics.add(topic)` on a Set.
unfoldable pub add_to_set : Text → List Text → List Text
add_to_set x xs = if any (text_eq x) xs then xs else xs ++ x ∷ []

-- The callback of `client.subscribe`. `subscribedTopics.get(id)!.add` throws if the set is gone; the
-- lines below it do not run then.
unfoldable pub on_subscribed : Text → Text → Option ℕ → Bool → ℕ → App → App
on_subscribed id topic qos failed now app =
    if failed then app else elim (lookup id app.mqtt.subscribed_topics) [
      | none ↦ app
      | some topics ↦
          app
          |> on_mqtt (λ p. record p {
            subscribed_topics = insert id (add_to_set topic topics) p.subscribed_topics;
          })
          |> on_sessions (add_mqtt_topic id topic)
          |> emit id (lit "mqtt:subscribed") (
              (lit "connectionId", str id)
              ∷ (lit "topic", str topic)
              ∷ (lit "qos", num (default 0 qos))
              ∷ (lit "timestamp", num now)
              ∷ [])
    ]

unfoldable unsubscribe : Text → Text → App → App × Result (Unit {0})
unsubscribe id topic app = elim (lookup id app.mqtt.clients) [
  | none ↦ (app, err (not_found (lit "Connection " ++ (id ++ lit " not found"))))
  | some client ↦ (
    app |> on_mqtt (λ p. record p { calls = p.calls ++ MqttCall.unsubscribes client topic ∷ [] }),
    ok tt,
  )
]

abbrev pub delete_from_set : Text → List Text → List Text
delete_from_set x = filter (λ y. not (text_eq y x))

-- The callback of `client.unsubscribe`.
unfoldable on_unsubscribed : Text → Text → Bool → ℕ → App → App
on_unsubscribed id topic failed now app =
    if failed
    then app
    else app
      |> on_mqtt (λ p. record p {
        subscribed_topics = modify id (delete_from_set topic) p.subscribed_topics;
      })
      |> on_sessions (remove_mqtt_topic id topic)
      |> emit id (lit "mqtt:unsubscribed") (
          (lit "connectionId", str id) ∷ (lit "topic", str topic) ∷ (lit "timestamp", num now) ∷ [])

-- The loop over `initialTopics`; a topic's exception would end it, but the client is in the map.
unfoldable subscribe_all : Text → List Text → App → App
subscribe_all id [] app = app
subscribe_all id (topic ∷ topics) app = subscribe_all id topics (subscribe id topic (some 0) app).0

unfoldable on_connect : Text → CreateMqttConnectionDto → ℕ → App → App
on_connect id dto now app =
    app
    |> on_sessions (update_status id connected none now)
    |> emit id (lit "connection:open") (
        (lit "connectionId", str id)
        ∷ (lit "transport", str (lit "mqtt"))
        ∷ (lit "timestamp", num now)
        ∷ [])
    |> subscribe_all id (default [] dto.initial_topics)

unfoldable pub on_message : Text → Text → Text → ℕ → ℕ → App → App
on_message id topic payload size now app =
    app
    |> on_sessions (record_message_received id size none)
    |> emit id (lit "connection:message") (
        (lit "connectionId", str id)
        ∷ (lit "topic", str topic)
        ∷ (lit "payload", str payload)
        ∷ (lit "direction", str (lit "received"))
        ∷ (lit "type", str (lit "text"))
        ∷ (lit "size", num size)
        ∷ (lit "timestamp", num now)
        ∷ [])

unfoldable on_error : Text → ℕ → App → App
on_error id now app =
    app
    |> on_sessions
        (update_status id ConnectionStatus.error (some (lit "MQTT connection error")) now)
    |> on_sessions (record_error id)
    |> emit id (lit "connection:error") (
        (lit "connectionId", str id)
        ∷ (lit "message", str (lit "MQTT connection error"))
        ∷ (lit "timestamp", num now)
        ∷ [])

abbrev is_error : ConnectionStatus → Bool
is_error ConnectionStatus.error = true
is_error _ = false

-- `session?.status === 'error'`
abbrev has_failed : Option ConnectionSession → Bool
has_failed none = false
has_failed (some s) = is_error s.status

unfoldable pub on_close : Text → ℕ → App → App
on_close id now app =
    if has_failed (get id app.sessions)
    then app
    else app
      |> on_sessions (update_status id disconnected none now)
      |> emit id (lit "connection:close")
          ((lit "connectionId", str id) ∷ (lit "timestamp", num now) ∷ [])

unfoldable pub close_connection : (ℕ → ReadyState) → Text → ℕ → App → App × Result (Unit {0})
close_connection ready id now app = elim (get id app.sessions) [
  | none ↦ (app, err (not_found (lit "Connection " ++ (id ++ lit " not found"))))
  | some session ↦ (
    close_session ready id session.close app
        |> on_sessions (update_status id disconnected none now),
    ok tt,
  )
]
