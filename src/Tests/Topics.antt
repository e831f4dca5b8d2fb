-- ===== src/Tests/Topics.antt =====
-- The topics of one MQTT connection, and the events of one Socket.IO connection.
use socket_tester.Base.{
  Option, Text, List, any, true, ◌≡◌, refl, none, some, [], ◌∷◌, false, lit, text_eq, lookup,
  insert, modify,
}
use socket_tester.Session.{
  ConnectionSession, mqtt, new_session, get, create, set_close, with_close, close_mqtt,
  add_mqtt_topic, with_topic, topics_of,
}
use socket_tester.App.{App, ok, empty_app}
use socket_tester.Json.{Value}
use socket_tester.SocketIo
use socket_tester.SocketIo.{CreateSocketIoConnectionDto, subscribe_event}
use socket_tester.SocketIo.Subscriptions
use socket_tester.SocketIo.Subscriptions.{subscribe_event-Reach}
use socket_tester.Mqtt.{CreateMqttConnectionDto, create_connection, on_subscribed, add_to_set}
use socket_tester.Mqtt.Agreement.{start, next, creates, subscribed, topics_of-Reach}

abbrev dto : CreateMqttConnectionDto
dto = record {
  broker_url = lit "mqtt://h";
  client_id = none;
  username = none;
  password = none;
  keepalive = none;
  connect_timeout = none;
  clean = none;
  will = none;
  tls = none;
  initial_topics = none;
}

abbrev opened : App
opened = (create_connection dto (lit "a") (lit "0a1b") 5 1000 empty_app).0

abbrev with_topic_t : App
with_topic_t = on_subscribed (lit "a") (lit "t") none false 1010 opened

abbrev session : ConnectionSession
session =
    with_topic (lit "t")
      (with_close (close_mqtt 5) (new_session (lit "a") (lit "mqtt://h") mqtt 1000))

set_found : lookup (lit "a") with_topic_t.mqtt.subscribed_topics ≡ some (lit "t" ∷ [])
unfolding on_subscribed create_connection lookup insert text_eq lit add_to_set
set_found = refl

session_found : get (lit "a") with_topic_t.sessions ≡ some session
unfolding on_subscribed create_connection create set_close add_mqtt_topic get lookup insert modify
    text_eq lit
session_found = refl

topics_of-Reach_example : topics_of session ≡ lit "t" ∷ []
topics_of-Reach_example =
    topics_of-Reach (lit "a") (lit "t" ∷ []) session with_topic_t
      (next (next start (creates dto (lit "a") (lit "0a1b") 5 1000 empty_app))
        (subscribed (lit "a") (lit "t") none false 1010 opened))
      set_found session_found

abbrev sio_dto : CreateSocketIoConnectionDto
sio_dto = record {
  url = lit "http://h";
  namespace = none;
  path = none;
  auth = none;
  query = none;
  transports = none;
  auto_reconnect = none;
  reconnection_attempts = none;
  reconnection_delay = none;
  extra_headers = none;
}

abbrev no_origin : Text → Option Text
no_origin url = none

abbrev stringify : Value → Text
stringify v = lit "{}"

abbrev with_client : App
with_client = (SocketIo.create_connection no_origin sio_dto (lit "b") 6 2000 empty_app).0

abbrev connected_client : App
connected_client = SocketIo.on_connect (lit "b") (lit "websocket") [] 2010 with_client

client_found : lookup (lit "b") connected_client.sio.clients ≡ some 6
unfolding SocketIo.on_connect SocketIo.create_connection lookup insert text_eq lit
client_found = refl

subscribe_event-Reach_example :
    let r = subscribe_event (lit "b") (lit "news") connected_client in
    (r.1 ≡ ok tt)
    × ((events : List Text) × (lookup (lit "b") r.0.sio.subscribed_events ≡ some events)
        × (any (text_eq (lit "news")) events ≡ true))
subscribe_event-Reach_example =
    subscribe_event-Reach no_origin stringify (lit "b") (lit "news") 6 connected_client
      (Subscriptions.next
        (Subscriptions.next Subscriptions.start
          (Subscriptions.creates sio_dto (lit "b") 6 2000 empty_app))
        (Subscriptions.opens (lit "b") (lit "websocket") [] 2010 with_client))
      client_found
