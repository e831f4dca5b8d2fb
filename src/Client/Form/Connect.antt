-- ===== src/Client/Form/Connect.antt =====
-- src/client/src/components/connection/ConnectionForm.tsx: `handleConnect` and `handleDisconnect`,
-- each divided at its `await`, since the user can go on while the request is under way.
use socket_tester.Base.{
  true, false, Option, none, some, [], ◌∷◌, ◌++◌, map, Text, lit, truthy, trim, split_on, Map,
  if◌then◌else◌,
}
use socket_tester.Json.{Fields, end, field, str}
use socket_tester.Session.{
  ConnectionType, websocket, socketio, mqtt, amqp, connecting, disconnected, error,
}
use socket_tester.WebSocket.{CreateWebSocketConnectionDto}
use socket_tester.SocketIo.{CreateSocketIoConnectionDto}
use socket_tester.Mqtt.{CreateMqttConnectionDto}
use socket_tester.Amqp.{CreateAmqpConnectionDto}
use socket_tester.Client.Tabs.{ActiveConnection, TabState, set_connection, update_tab_status}
use socket_tester.Client.Messages.{MessageState, add_message}
use socket_tester.Client.ControlSocket.Stores.{Stamp, system_message}
use socket_tester.Client.Form.{Form, if_given, build_headers, address, address_error}

pub data Request : Type 0 where
  create_websocket : CreateWebSocketConnectionDto → Request
  create_socketio : CreateSocketIoConnectionDto → Request
  create_mqtt : CreateMqttConnectionDto → Request
  create_amqp : CreateAmqpConnectionDto → Request

-- What `handleConnect` holds across its `await`.
pub record Pending : Type 0 where
  pub protocol : ConnectionType
  pub display_url : Text
  pub request : Request

-- How a request ends: with the id of the connection, or with the message of an error.
pub data Outcome : Type 0 where
  created : Text → Outcome
  refused : Text → Outcome

-- The form with the stores that it changes.
pub record Page : Type 0 where
  pub form : Form
  pub tabs : TabState
  pub messages : MessageState

abbrev pub connecting_to : Text → Text → ConnectionType → ActiveConnection
connecting_to id url protocol = record {
  connection_id = id;
  url = url;
  protocol = protocol;
  status = connecting;
  connected_at = none;
  mqtt_topics = none;
  socketio_events = none;
}

-- `Object.keys(h).length > 0 ? h : undefined`
abbrev non_empty : Map Text → Option (Map Text)
non_empty [] = none
non_empty (e ∷ h) = some (e ∷ h)

unfoldable fields_of : Map Text → Fields
fields_of [] = end
fields_of ((k, v) ∷ h) = field k (str v) (fields_of h)

-- `auth ?? headers`
abbrev or_headers : Option Fields → Map Text → Option Fields
or_headers (some auth) h = some auth
or_headers none [] = none
or_headers none (e ∷ h) = some (fields_of (e ∷ h))

module _ (btoa : Text → Text) (parse : Text → Option (Option Fields)) where
  -- The authentication of Socket.IO; a text that is not JSON throws, and `null` is no object.
  unfoldable pub auth_of : Form → Option (Option Fields)
  auth_of f = if truthy (trim f.auth_json) then parse f.auth_json else some none

  unfoldable pub socketio_request : Text → Form → Option Fields → Request
  unfolding fields_of
  socketio_request url f auth = create_socketio (record {
    url = url;
    namespace = if_given f.namespace;
    path = if_given f.sio_path;
    auth = or_headers auth (build_headers btoa f);
    query = none;
    transports = some f.transports;
    auto_reconnect = some f.auto_reconnect;
    reconnection_attempts = if f.auto_reconnect then some f.reconnect_attempts else none;
    reconnection_delay = if f.auto_reconnect then some f.reconnect_delay else none;
    extra_headers = none;
  })

  unfoldable pub request_of : ConnectionType → Text → Form → Option Request
  unfolding auth_of socketio_request
  request_of websocket url f = some (
      create_websocket (record {
        url = url;
        headers = non_empty (build_headers btoa f);
        protocols =
            if truthy f.wss_protocols then some (map trim (split_on 44 f.wss_protocols)) else none;
      }))
  request_of socketio url f = elim (auth_of f) [
    | none ↦ none
    | some auth ↦ some (socketio_request url f auth)
  ]
  request_of mqtt url f = some (
      create_mqtt (record {
        broker_url = url;
        client_id = if_given f.mqtt_client_id;
        username = if_given f.mqtt_username;
        password = if_given f.mqtt_password;
        keepalive = some f.keepalive;
        connect_timeout = none;
        clean = some f.clean_session;
        will = none;
        tls = none;
        initial_topics = if f.mqtt_subscribe_all then some (lit "#" ∷ []) else none;
      }))
  request_of amqp url f = some (
      create_amqp (record {
        url = url;
        vhost = if_given f.amqp_vhost;
        username = if_given f.amqp_username;
        password = if_given f.amqp_password;
        heartbeat = some f.amqp_heartbeat;
        tls = none;
      }))

  -- The `catch` and `finally` parts.
  unfoldable pub fail : Text → Stamp → Page → Page
  fail message t page = record {
    form = record page.form { form_error = some message; is_submitting = false };
    tabs = update_tab_status error page.tabs;
    messages =
        add_message (system_message [] (lit "Failed to connect: " ++ message)) t.message_id t.now
          page.messages;
  }

  abbrev started : Page → Page
  started page = record page {
    form = record page.form { form_error = none; is_submitting = true };
    tabs = update_tab_status connecting page.tabs;
  }

  abbrev shown : Text → ConnectionType → Page → Page
  shown url p page = record page { tabs = set_connection (some (connecting_to [] url p)) page.tabs }

  -- `handleConnect` up to its `await`; without a request it has ended.
  unfoldable pub begin_connect : Stamp → Page → Page × Option Pending
  unfolding fail
  begin_connect t page =
      let p = page.form.protocol in
      let url = address p page.form in
      elim (address_error p url) [
        | some message ↦ (fail message t (started page), none)
        | none ↦ elim (request_of p url page.form) [
          | none ↦ (fail (lit "Auth JSON is invalid") t (shown url p (started page)), none)
          | some request ↦ (
            shown url p (started page),
            some (record { protocol = p; display_url = url; request = request }),
          )
        ]
      ]

  -- `handleConnect` after its `await`.
  unfoldable pub finish_connect : Pending → Outcome → Stamp → Page → Page
  unfolding fail
  finish_connect pending (created id) t page = record page {
    form = record page.form { is_submitting = false };
    tabs = set_connection (some (connecting_to id pending.display_url pending.protocol)) page.tabs;
  }
  finish_connect pending (refused message) t page = fail message t page

-- The connection that `handleDisconnect` asks the server to close.
unfoldable pub disconnect_target : TabState → Option Text
disconnect_target st = elim st.active_connection [
  | none ↦ none
  | some c ↦ if truthy c.connection_id then some c.connection_id else none
]

-- `handleDisconnect` after its `await`, however the request ends.
unfoldable pub finish_disconnect : TabState → TabState
finish_disconnect st = set_connection none (update_tab_status disconnected st)
