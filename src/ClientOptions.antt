-- ===== src/ClientOptions.antt =====
-- The options that the proxies hand to the client libraries, as mqtt.service.ts, socketio.service.ts
-- and amqp.service.ts build them.
use socket_tester.Base.{ℕ, Bool, Option, List, Text, Map}
use socket_tester.Json.{Fields}

pub record MqttWill : Type 0 where
  pub topic : Text
  pub payload : Text
  pub qos : ℕ
  pub retain : Bool

-- The `tls` of a DTO.
pub record Tls : Type 0 where
  pub ca : Option Text
  pub cert : Option Text
  pub key : Option Text
  pub reject_unauthorized : Option Bool

-- The TLS options that a client gets, with the default filled in.
pub record ClientTls : Type 0 where
  pub ca : Option Text
  pub cert : Option Text
  pub key : Option Text
  pub reject_unauthorized : Bool

pub record MqttOptions : Type 0 where
  pub client_id : Text
  pub keepalive : ℕ
  pub connect_timeout : ℕ
  pub clean : Bool
  pub reconnect_period : ℕ
  pub username : Option Text
  pub password : Option Text
  pub will : Option MqttWill
  pub tls : Option ClientTls

pub record SioOptions : Type 0 where
  pub path : Text
  pub auth : Fields
  pub query : Map Text
  pub transports : List Text
  pub reconnection : Bool
  pub reconnection_attempts : ℕ
  pub reconnection_delay : ℕ
  pub timeout : ℕ
  pub extra_headers : Map Text

pub record AmqpOptions : Type 0 where
  pub heartbeat : ℕ
  pub tls : Option ClientTls
