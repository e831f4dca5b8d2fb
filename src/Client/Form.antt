-- ===== src/Client/Form.antt =====
-- src/client/src/components/connection/ConnectionForm.tsx: the fields of the connection form, the
-- configuration that it saves and loads, and how it connects.
pub mod RoundTrip
pub mod Connect
pub mod Attempts
use socket_tester.Base.{
  ℕ, suc, Bool, true, false, not, ◌&&◌, ◌||◌, Option, none, some, List, [], ◌∷◌, ◌++◌, map, drop,
  length, Text, lit, truthy, default, trim, split_on, starts_with, Map, insert, if◌then◌else◌, ◌==◌,
}
use socket_tester.Json.{Fields, end, field, str}
use socket_tester.Session.{ConnectionType, websocket, socketio, mqtt, amqp}
use socket_tester.WebSocket.{CreateWebSocketConnectionDto}
use socket_tester.SocketIo.{CreateSocketIoConnectionDto}
use socket_tester.Mqtt.{CreateMqttConnectionDto}
use socket_tester.Amqp.{CreateAmqpConnectionDto}
use socket_tester.Client.Configs.{
  AuthType, no_auth, bearer, apikey, basic, custom, ProtocolConfig, Draft, no_config,
}

pub record Form : Type 0 where
  pub protocol : ConnectionType
  pub url : Text
  pub headers : List (Text × Text)
  pub wss_protocols : Text
  pub namespace : Text
  pub sio_path : Text
  pub auth_json : Text
  pub auto_reconnect : Bool
  pub reconnect_attempts : ℕ
  pub reconnect_delay : ℕ
  pub transports : List Text
  pub broker_url : Text
  pub mqtt_client_id : Text
  pub mqtt_username : Text
  pub mqtt_password : Text
  pub keepalive : ℕ
  pub clean_session : Bool
  pub mqtt_subscribe_all : Bool
  pub amqp_url : Text
  pub amqp_vhost : Text
  pub amqp_username : Text
  pub amqp_password : Text
  pub amqp_heartbeat : ℕ
  pub auth_type : AuthType
  pub bearer_token : Text
  pub api_key_name : Text
  pub api_key_value : Text
  pub basic_user : Text
  pub basic_pass : Text
  pub form_error : Option Text
  pub is_submitting : Bool

-- The effect on `pendingLoad`: the fields of the configuration's protocol are filled in.
unfoldable pub fill_in : ConnectionType → ProtocolConfig → Form → Form
fill_in websocket c f = record f {
  protocol = websocket;
  form_error = none;
  url = default [] c.url;
  headers = default [] c.headers;
  wss_protocols = default [] c.protocols;
}
fill_in socketio c f = record f {
  protocol = socketio;
  form_error = none;
  url = default [] c.url;
  namespace = default [] c.namespace;
  sio_path = default [] c.path;
  auth_json = elim c.auth [ none ↦ [] | some a ↦ default [] a.socketio_auth ];
  transports = default (lit "websocket" ∷ []) c.transports;
  auto_reconnect = default false c.auto_reconnect;
  reconnect_attempts = default 3 c.reconnection_attempts;
  reconnect_delay = default 1000 c.reconnection_delay;
}
fill_in mqtt c f = record f {
  protocol = mqtt;
  form_error = none;
  broker_url = default [] c.broker_url;
  mqtt_client_id = default [] c.client_id;
  mqtt_username = default [] c.username;
  keepalive = default 60 c.keepalive;
  clean_session = default true c.clean;
}
fill_in amqp c f = record f {
  protocol = amqp;
  form_error = none;
  amqp_url = default [] c.url;
  amqp_vhost = default (lit "/") c.vhost;
  amqp_username = default [] c.username;
  amqp_heartbeat = default 60 c.heartbeat;
}

-- `s || undefined`
abbrev pub if_given : Text → Option Text
if_given [] = none
if_given (c ∷ s) = some (c ∷ s)

unfoldable pub build_config : ConnectionType → Form → ProtocolConfig
build_config websocket f = record no_config {
  url = some (trim f.url);
  headers = some f.headers;
  protocols = if_given f.wss_protocols;
}
build_config socketio f = record no_config {
  url = some (trim f.url);
  namespace = if_given f.namespace;
  path = if_given f.sio_path;
  auth =
      if truthy f.auth_json
      then some (record { kind = custom; socketio_auth = some f.auth_json })
      else none;
  transports = some f.transports;
  auto_reconnect = some f.auto_reconnect;
  reconnection_attempts = some f.reconnect_attempts;
  reconnection_delay = some f.reconnect_delay;
}
build_config mqtt f = record no_config {
  broker_url = some (trim f.broker_url);
  client_id = if_given f.mqtt_client_id;
  username = if_given f.mqtt_username;
  keepalive = some f.keepalive;
  clean = some f.clean_session;
}
build_config amqp f = record no_config {
  url = some (trim f.amqp_url);
  vhost = if_given f.amqp_vhost;
  username = if_given f.amqp_username;
  heartbeat = some f.amqp_heartbeat;
}

-- What `handleSaveConfig` saves; nothing without a name.
unfoldable pub draft_of : Text → Form → Option Draft
unfolding build_config
draft_of name f =
    if truthy (trim name)
    then some
        (record { name = trim name; protocol = f.protocol; config = build_config f.protocol f })
    else none

unfoldable pub headers_from : List (Text × Text) → Map Text → Map Text
headers_from [] h = h
headers_from ((key, value) ∷ rest) h =
    headers_from rest (if truthy key then insert key value h else h)

-- `btoa` is the browser's base 64.
unfoldable pub build_headers : (Text → Text) → Form → Map Text
unfolding headers_from
build_headers btoa f =
    let h = headers_from f.headers [] in
    elim f.auth_type [
      | no_auth ↦ h
      | bearer ↦
          if truthy f.bearer_token
          then insert (lit "Authorization") (lit "Bearer " ++ f.bearer_token) h
          else h
      | apikey ↦
          if truthy f.api_key_name && truthy f.api_key_value
          then insert f.api_key_name f.api_key_value h
          else h
      | basic ↦
          if truthy f.basic_user
          then insert (lit "Authorization")
              (lit "Basic " ++ btoa (f.basic_user ++ (lit ":" ++ f.basic_pass))) h
          else h
      | custom ↦ h
    ]

-- `/^p.+/`: the prefix and at least one character that ends no line.
unfoldable pub has_scheme : Text → Text → Bool
has_scheme s p = starts_with s p && elim (drop (length p) s) [
  | [] ↦ false
  | c ∷ rest ↦ not (c == 10 || c == 13 || c == 0x2028 || c == 0x2029)
]

-- The address that the form connects to.
unfoldable pub address : ConnectionType → Form → Text
address websocket f = trim f.url
address socketio f = trim f.url
address mqtt f = trim f.broker_url
address amqp f = trim f.amqp_url

-- The message of the error that an address of another scheme causes.
unfoldable pub address_error : ConnectionType → Text → Option Text
unfolding has_scheme
address_error websocket s =
    if has_scheme s (lit "ws://") || has_scheme s (lit "wss://")
    then none
    else some (lit "URL must start with ws:// or wss://")
address_error socketio s =
    if has_scheme s (lit "http://") || has_scheme s (lit "https://")
    then none
    else some (lit "URL must start with http:// or https://")
address_error mqtt s =
    if has_scheme s (lit "mqtt://")
      || has_scheme s (lit "mqtts://")
      || has_scheme s (lit "ws://")
      || has_scheme s (lit "wss://")
    then none
    else some (lit "Broker URL must start with mqtt://, mqtts://, ws://, or wss://")
address_error amqp s =
    if has_scheme s (lit "amqp://") || has_scheme s (lit "amqps://")
    then none
    else some (lit "URL must start with amqp:// or amqps://")
