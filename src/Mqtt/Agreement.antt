-- ===== src/Mqtt/Agreement.antt =====
-- The two records of subscribed topics over all that happens in the proxy.
pub mod Synced
use mathlib.Core.Option
use mathlib.Core.Option.{some-injective}
use socket_tester.Base.{
  text_eq_iff, lit, ℕ, ◌≡◌, refl, sym, ap, ◌∙◌, Option, none, some, List, [], ◌∷◌, Bool, true,
  false, Text, text_eq, Map, lookup, insert, modify, lookup-insert, lookup-modify, default,
  if◌then◌else◌, arith, Option-cases, Bool-cases, inl, inr,
}
use socket_tester.Session.{
  ConnectionSession, ConnectionStatus, ConnectionType, connected, disconnected, Sessions, get,
  create, new_session, set_close, with_close, update_status, with_status, record_message_sent,
  with_sent, record_message_received, with_received, record_error, with_error, add_mqtt_topic,
  with_topic, remove_mqtt_topic, without_topic, topics_of, CloseCallback, close_mqtt,
}
use socket_tester.WebSocket.{byte_length}
use socket_tester.App.{App, ReadyState, empty_app, on_sessions}
use socket_tester.Closing.{close_session, run_close, close_mqtt_client}
use socket_tester.Mqtt.{
  CreateMqttConnectionDto, create_connection, subscribe, subscribe_all, on_subscribed, unsubscribe,
  on_unsubscribed, on_connect, on_message, on_error, on_close, close_connection, add_to_set,
  delete_from_set, has_failed,
}
use socket_tester.Mqtt.Publishing.{SendMqttMessageDto, publish}
use socket_tester.Mqtt.Topics.{
  AreSynced, change-AreSynced, modify-AreSynced, delete-AreSynced, with_topic-topics,
  without_topic-topics,
}
use socket_tester.Mqtt.Agreement.Synced.{
  with_status-topics, with_received-topics, update_status-IsSynced, insert_same, insert-AreSynced,
  create_connection-IsSynced, insert_as_modify, IsSynced,
}

-- What happens in the MQTT proxy: a request, or what the client library reports.
pub data Step : App → App → Type 0 where
  creates :
      (dto : CreateMqttConnectionDto) (id uuid : Text) (client now : ℕ) (app : App)
      → Step app (create_connection dto id uuid client now app).0
  subscribes :
      (id topic : Text) (qos : Option ℕ) (app : App) → Step app (subscribe id topic qos app).0
  subscribed :
      (id topic : Text) (qos : Option ℕ) (failed : Bool) (now : ℕ) (app : App)
      → Step app (on_subscribed id topic qos failed now app)
  unsubscribes : (id topic : Text) (app : App) → Step app (unsubscribe id topic app).0
  unsubscribed :
      (id topic : Text) (failed : Bool) (now : ℕ) (app : App)
      → Step app (on_unsubscribed id topic failed now app)
  opens :
      (id : Text) (dto : CreateMqttConnectionDto) (now : ℕ) (app : App)
      → Step app (on_connect id dto now app)
  receives :
      (id topic payload : Text) (size now : ℕ) (app : App)
      → Step app (on_message id topic payload size now app)
  fails : (id : Text) (now : ℕ) (app : App) → Step app (on_error id now app)
  ends : (id : Text) (now : ℕ) (app : App) → Step app (on_close id now app)
  publishes :
      (is_up : ℕ → Bool) (id : Text) (dto : SendMqttMessageDto) (now : ℕ) (app : App)
      → Step app (publish is_up id dto now app).0
  closes :
      (ready : ℕ → ReadyState) (id : Text) (now : ℕ) (app : App)
      → Step app (close_connection ready id now app).0

pub data Reach : App → Type 0 where
  start : Reach empty_app
  next : {app app' : App} → Reach app → Step app app' → Reach app'

on_subscribed-IsSynced :
    (id topic : Text) (qos : Option ℕ) (failed : Bool) (now : ℕ) (app : App)
    → IsSynced app
    → IsSynced (on_subscribed id topic qos failed now app)
unfolding on_subscribed add_mqtt_topic
on_subscribed-IsSynced id topic qos true now app v = v
on_subscribed-IsSynced id topic qos false now app v =
    elim (Option-cases (lookup id app.mqtt.subscribed_topics)) [
      | inl e ↦ rw (e, on_subscribed) v
      | inr (topics, e) ↦
          rw (e, on_subscribed)
            (change-AreSynced id (with_topic topic) (add_to_set topic) app.sessions
              app.mqtt.subscribed_topics
              (insert id (add_to_set topic topics) app.mqtt.subscribed_topics)
              (with_topic-topics topic)
              (insert_as_modify id (add_to_set topic) topics app.mqtt.subscribed_topics e) v)
    ]

on_unsubscribed-IsSynced :
    (id topic : Text) (failed : Bool) (now : ℕ) (app : App)
    → IsSynced app
    → IsSynced (on_unsubscribed id topic failed now app)
unfolding on_unsubscribed remove_mqtt_topic
on_unsubscribed-IsSynced id topic true now app v = v
on_unsubscribed-IsSynced id topic false now app v =
    change-AreSynced id (without_topic topic) (delete_from_set topic) app.sessions
      app.mqtt.subscribed_topics (modify id (delete_from_set topic) app.mqtt.subscribed_topics)
      (without_topic-topics topic)
      (λ k. lookup-modify id k (delete_from_set topic) app.mqtt.subscribed_topics) v

subscribe-IsSynced :
    (id topic : Text) (qos : Option ℕ) (app : App)
    → IsSynced app
    → IsSynced (subscribe id topic qos app).0
unfolding subscribe
subscribe-IsSynced id topic qos app v = elim (Option-cases (lookup id app.mqtt.clients)) [
  | inl e ↦ rw (e, subscribe) v
  | inr (c, e) ↦ rw (e, subscribe) v
]

subscribe_all-IsSynced :
    (id : Text) (topics : List Text) (app : App)
    → IsSynced app
    → IsSynced (subscribe_all id topics app)
unfolding subscribe_all
subscribe_all-IsSynced id [] app v = v
subscribe_all-IsSynced id (topic ∷ topics) app v =
    subscribe_all-IsSynced id topics (subscribe id topic (some 0) app).0
      (subscribe-IsSynced id topic (some 0) app v)

unsubscribe-IsSynced :
    (id topic : Text) (app : App) → IsSynced app → IsSynced (unsubscribe id topic app).0
unfolding unsubscribe
unsubscribe-IsSynced id topic app v = elim (Option-cases (lookup id app.mqtt.clients)) [
  | inl e ↦ rw (e, unsubscribe) v
  | inr (c, e) ↦ rw (e, unsubscribe) v
]

close_session-IsSynced :
    (ready : ℕ → ReadyState) (id : Text) (c : Option CloseCallback) (app : App)
    → IsSynced app
    → IsSynced (close_session ready id c app)
unfolding close_session run_close close_mqtt_client
close_session-IsSynced ready id none app v = v
close_session-IsSynced ready id (some (close_mqtt client)) app v =
    delete-AreSynced id app.sessions app.mqtt.subscribed_topics v
close_session-IsSynced ready id (some c) app v = v

Step-IsSynced : {app app' : App} → Step app app' → IsSynced app → IsSynced app'
unfolding on_connect on_message on_error on_close publish close_connection update_status
    record_message_sent record_message_received record_error with_sent with_error
Step-IsSynced (creates dto id uuid client now app) v =
    create_connection-IsSynced dto id uuid client now app v
Step-IsSynced (subscribes id topic qos app) v = subscribe-IsSynced id topic qos app v
Step-IsSynced (subscribed id topic qos failed now app) v =
    on_subscribed-IsSynced id topic qos failed now app v
Step-IsSynced (unsubscribes id topic app) v = unsubscribe-IsSynced id topic app v
Step-IsSynced (unsubscribed id topic failed now app) v =
    on_unsubscribed-IsSynced id topic failed now app v
Step-IsSynced (opens id dto now app) v =
    subscribe_all-IsSynced id (default [] dto.initial_topics) _
      (update_status-IsSynced id connected none now app v)
Step-IsSynced (receives id topic payload size now app) v =
    modify-AreSynced id (with_received size none) app.sessions app.mqtt.subscribed_topics
      (with_received-topics size none) v
Step-IsSynced (fails id now app) v =
    modify-AreSynced id with_error
      (update_status id ConnectionStatus.error (some (lit "MQTT connection error")) now
        app.sessions)
      app.mqtt.subscribed_topics (λ s. refl)
      (update_status-IsSynced id ConnectionStatus.error (some (lit "MQTT connection error")) now app
        v)
Step-IsSynced (ends id now app) v = elim (Bool-cases (has_failed (get id app.sessions))) [
  | inl e ↦ rw (e, on_close) v
  | inr e ↦ rw (e, on_close) (update_status-IsSynced id disconnected none now app v)
]
Step-IsSynced (publishes is_up id dto now app) v =
    elim (Option-cases (lookup id app.mqtt.clients)) [
      | inl e ↦ rw (e, publish) v
      | inr (client, e) ↦
          rw (e, publish)
            (elim (Bool-cases (is_up client)) [
              | inl up ↦ rw up (
                  modify-AreSynced id (with_sent (byte_length dto.payload)) app.sessions
                    app.mqtt.subscribed_topics (λ s. refl) v)
              | inr down ↦ rw down v
            ])
    ]
Step-IsSynced (closes ready id now app) v = elim (Option-cases (get id app.sessions)) [
  | inl e ↦ rw (e, close_connection) v
  | inr (s, e) ↦
      rw (e, close_connection)
        (update_status-IsSynced id disconnected none now (close_session ready id s.close app)
          (close_session-IsSynced ready id s.close app v))
]

Reach-IsSynced : {app : App} → Reach app → IsSynced app
unfolding lookup
Reach-IsSynced start = λ k ts s e g. ground (arith, e)
Reach-IsSynced (next r s) = Step-IsSynced s (Reach-IsSynced r)

-- In every state that the MQTT proxy reaches, a connection's set of topics in the service, while it
-- exists, equals the topics that its session lists, which are those that a joining browser is told.
pub topics_of-Reach :
    (id : Text) (ts : List Text) (s : ConnectionSession) (app : App)
    → Reach app
    → lookup id app.mqtt.subscribed_topics ≡ some ts
    → get id app.sessions ≡ some s
    → topics_of s ≡ ts
unfolding get
topics_of-Reach id ts s app r e g = Reach-IsSynced r id ts s e g
