-- ===== src/Client/ControlSocket/Payloads.antt =====
-- src/client/src/hooks/useControlSocket.ts: the payloads of the events that the server sends, and
-- the texts that the browser shows for them. `raw` is the payload as the object that arrived.
use socket_tester.Base.{
  ℕ, Option, none, some, List, [], ◌∷◌, ◌++◌, Text, lit, truthy, default, decimal, if◌then◌else◌,
  ◌==◌,
}
use socket_tester.Json.{Value, Data, str}
use socket_tester.Client.Series.{Direction, outgoing, incoming}
use socket_tester.Client.Messages.{MessageType, Extras}

pub record OpenData : Type 0 where
  pub connection_id : Text
  pub transport : Option Text
  pub namespace : Option Text
  pub raw : Data

pub record MessageData : Type 0 where
  pub connection_id : Text
  pub payload : Text
  pub direction : Direction
  pub kind : Option MessageType
  pub size : Option ℕ
  pub latency : Option ℕ
  pub extras : Extras

pub record ErrorData : Type 0 where
  pub connection_id : Text
  pub message : Text

pub record CloseData : Type 0 where
  pub connection_id : Text
  pub code : Option ℕ
  pub reason : Option Text
  pub raw : Data

pub record ReconnectingData : Type 0 where
  pub connection_id : Text
  pub attempt : ℕ
  pub raw : Data

pub record PongData : Type 0 where
  pub connection_id : Text
  pub latency : ℕ

pub record AckData : Type 0 where
  pub connection_id : Text
  pub event_name : Text
  pub ack_payload : Option Value

pub record TopicData : Type 0 where
  pub connection_id : Text
  pub topic : Text
  pub qos : ℕ

pub record AmqpData : Type 0 where
  pub connection_id : Text
  pub queue_name : Option Text
  pub exchange_name : Option Text

pub record EventData : Type 0 where
  pub connection_id : Text
  pub event_name : Text

-- The events that `socket.on` is called for.
pub data Incoming : Type 0 where
  opened : OpenData → Incoming
  messaged : MessageData → Incoming
  failed : ErrorData → Incoming
  closed : CloseData → Incoming
  reconnects : ReconnectingData → Incoming
  ponged : PongData → Incoming
  acked : AckData → Incoming
  progressed completed : Value → Incoming
  subscribed unsubscribed : TopicData → Incoming
  amqp_set_up : AmqpData → Incoming
  event_subscribed : EventData → Incoming

-- `parts.filter(Boolean).join(separator)`
unfoldable pub join_parts : Text → List Text → Text
join_parts separator [] = []
join_parts separator (p ∷ ps) =
    let rest = join_parts separator ps in
    if truthy p then (if truthy rest then p ++ (separator ++ rest) else p) else rest

-- `text ? `${before}${text}${after}` : ''`
unfoldable pub around : Text → Text → Text → Text
around before after text = if truthy text then before ++ (text ++ after) else []

unfoldable pub open_text : OpenData → Text
unfolding join_parts around
open_text d =
    let detail =
      join_parts (lit " ")
        (default [] d.namespace ∷ around (lit "via ") [] (default [] d.transport) ∷ []) in
    lit "Connected" ++ around (lit " (") (lit ")") detail

-- `data.code` is falsy at 0.
unfoldable pub code_text : Option ℕ → Text
code_text none = []
code_text (some n) = if n == 0 then [] else lit " (code: " ++ (decimal n ++ lit ")")

unfoldable pub close_text : CloseData → Text
unfolding around code_text
close_text d =
    lit "Disconnected" ++ (code_text d.code ++ around (lit ", reason: ") [] (default [] d.reason))

unfoldable pub reconnecting_text : ReconnectingData → Text
reconnecting_text d = lit "Reconnecting… (attempt " ++ (decimal d.attempt ++ lit ")")

unfoldable pub pong_text : PongData → Text
pong_text d = lit "Pong — " ++ (decimal d.latency ++ lit "ms")

-- `stringify` is `JSON.stringify`, printed.
unfoldable pub ack_text : (Option Value → Text) → AckData → Text
ack_text stringify d =
    lit "ACK ["
    ++ (d.event_name
        ++ (lit "]: " ++ (elim d.ack_payload [
          | some v ↦ elim v [ str s ↦ s | other ↦ stringify (some other) ]
          | none ↦ stringify none
        ])))

unfoldable pub subscribed_text : TopicData → Text
subscribed_text d =
    lit "Subscribed to \"" ++ (d.topic ++ (lit "\" (QoS " ++ (decimal d.qos ++ lit ")")))

unfoldable pub unsubscribed_text : TopicData → Text
unsubscribed_text d = lit "Unsubscribed from \"" ++ (d.topic ++ lit "\"")

unfoldable pub amqp_text : AmqpData → Text
unfolding join_parts around
amqp_text d =
    lit "AMQP setup: "
    ++ join_parts (lit ", ") (
        around (lit "exchange: ") [] (default [] d.exchange_name)
        ∷ around (lit "queue: ") [] (default [] d.queue_name)
        ∷ [])

unfoldable pub direction_text : Direction → Text
direction_text outgoing = lit "sent"
direction_text incoming = lit "received"
