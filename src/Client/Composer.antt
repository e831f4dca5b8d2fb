-- ===== src/Client/Composer.antt =====
-- src/client/src/components/messages/MessageComposer.tsx: the composer of messages and its
-- templates. `handleSend` is divided at its `await`. `parse` is `JSON.parse`, with the message of
-- the error that it throws; the stored templates are what `saveTemplates` was last given.
pub mod Flow
pub mod Outcomes
use socket_tester.Base.{
  ℕ, Bool, true, false, not, ◌&&◌, ◌||◌, Option, none, some, List, [], ◌∷◌, ◌++◌, filter, Text, lit,
  text_eq, truthy, trim, default, if◌then◌else◌,
}
use socket_tester.Json.{Value, str}
use socket_tester.Session.{
  ConnectionType, websocket, socketio, mqtt, amqp, ConnectionStatus, connected,
}
use socket_tester.WebSocket.{
  SendMessageDto, json_message, binary_message, text_message, byte_length,
}
use socket_tester.WebSocket
use socket_tester.Mqtt.Publishing.{SendMqttMessageDto}
use socket_tester.Amqp.Channel.{SendAmqpMessageDto}
use socket_tester.Client.Tabs.{ActiveConnection, status_eq}
use socket_tester.Client.Form.{if_given}
use socket_tester.Client.Messages.{
  MessageType, text, json, binary, NewMessage, Extras, no_extras, sent, MessageState, add_message,
}
use socket_tester.Client.ControlSocket.Stores.{Stamp, system_message}

pub data ParsedText : Type 0 where
  parsed : Value → ParsedText
  malformed : Text → ParsedText

pub record MessageTemplate : Type 0 where
  pub id : Text
  pub name : Text
  pub payload : Text
  pub kind : MessageType
  pub event_name : Option Text
  pub topic : Option Text
  pub created_at : ℕ

pub record Composer : Type 0 where
  pub payload : Text
  pub kind : MessageType
  pub is_sending : Bool
  pub json_error : Option Text
  pub event_name : Text
  pub ack : Bool
  pub mqtt_topic : Text
  pub mqtt_qos : ℕ
  pub mqtt_retain : Bool
  pub amqp_exchange : Text
  pub amqp_routing_key : Text
  pub templates : List MessageTemplate
  pub stored_templates : Option (List MessageTemplate)
  pub show_templates : Bool
  pub tpl_name : Text
  pub show_save_tpl : Bool

pub data SendRequest : Type 0 where
  send_websocket : SendMessageDto → SendRequest
  send_socketio : Text → Value → Bool → SendRequest
  publish_mqtt : SendMqttMessageDto → SendRequest
  publish_amqp : SendAmqpMessageDto → SendRequest

-- What `handleSend` holds across its `await`: the request and the message to show for it.
pub record Sending : Type 0 where
  pub connection_id : Text
  pub request : SendRequest
  pub message : NewMessage

unfoldable is_json : MessageType → Bool
is_json json = true
is_json _ = false

unfoldable pub dto_kind : MessageType → WebSocket.MessageType
dto_kind text = text_message
dto_kind json = json_message
dto_kind binary = binary_message

-- What `handleSend` does once the payload is valid: send a request, ask for a topic and return, or
-- throw.
pub data Planned : Type 0 where
  sends : Sending → Planned
  needs_topic : Planned
  throws : Text → Planned

module _ (parse : Text → ParsedText) where
  -- The error that `validatePayload` shows.
  unfoldable pub payload_error : Composer → Option Text
  unfolding is_json
  payload_error c =
      if is_json c.kind
      then elim (parse c.payload) [ parsed v ↦ none | malformed message ↦ some message ]
      else none

  abbrev sent_message : Text → MessageType → Extras → Composer → NewMessage
  sent_message id kind extras c = record {
    connection_id = id;
    payload = trim c.payload;
    direction = sent;
    kind = kind;
    size = some (byte_length (trim c.payload));
    latency = none;
    extras = extras;
  }

  -- The value that Socket.IO sends; parsing the trimmed text may throw.
  unfoldable pub socketio_value : Composer → ParsedText
  unfolding is_json
  socketio_value c =
      if is_json c.kind then parse (trim c.payload) else parsed (str (trim c.payload))

  abbrev plan_socketio : Text → Composer → ParsedText → Planned
  plan_socketio id c (parsed v) = sends (record {
    connection_id = id;
    request = send_socketio c.event_name v c.ack;
    message = sent_message id c.kind (record no_extras { event_name = some c.event_name }) c;
  })
  plan_socketio id c (malformed message) = throws message

  unfoldable pub plan : ConnectionType → Text → Composer → Planned
  unfolding socketio_value dto_kind
  plan websocket id c = sends (record {
    connection_id = id;
    request = send_websocket (record { payload = trim c.payload; kind = dto_kind c.kind });
    message = sent_message id c.kind no_extras c;
  })
  plan socketio id c = plan_socketio id c (socketio_value c)
  plan mqtt id c =
      let topic = trim c.mqtt_topic in
      if truthy topic
      then sends (record {
        connection_id = id;
        request = publish_mqtt (record {
          topic = topic;
          payload = trim c.payload;
          qos = some c.mqtt_qos;
          retain = some c.mqtt_retain;
        });
        message =
            sent_message id text
              (record no_extras {
                topic = some topic;
                qos = some c.mqtt_qos;
                retain = some c.mqtt_retain;
              })
              c;
      })
      else needs_topic
  plan amqp id c = sends (record {
    connection_id = id;
    request = publish_amqp (record {
      exchange = if_given c.amqp_exchange;
      routing_key = if_given c.amqp_routing_key;
      payload = trim c.payload;
    });
    message =
        sent_message id text
          (record no_extras {
            exchange = some c.amqp_exchange;
            routing_key = some c.amqp_routing_key;
          })
          c;
  })
