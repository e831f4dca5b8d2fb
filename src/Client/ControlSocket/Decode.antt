-- ===== src/Client/ControlSocket/Decode.antt =====
-- src/client/src/hooks/useControlSocket.ts: the payload of an event as its handler reads it. A
-- payload without a field that the type of the payload requires is none.
use socket_tester.Base.{
  ℕ, Bool, Option, none, some, List, [], ◌∷◌, Text, lit, text_eq, lookup, if◌then◌else◌,
}
use socket_tester.Json.{Value, Data, bool, num, str}
use socket_tester.Gateway.{Reply}
use socket_tester.Client.Series.{Direction, outgoing, incoming}
use socket_tester.Client.Messages.{MessageType, text, json, binary}
use socket_tester.Client.ControlSocket.Payloads.{
  Incoming, opened, messaged, failed, closed, subscribed,
}
use socket_tester.Client.ControlSocket.{handle}
use socket_tester.Client.ControlSocket.Stores.{Browser, Stamp}

abbrev as_text : Option Value → Option Text
as_text (some (str s)) = some s
as_text _ = none

abbrev as_num : Option Value → Option ℕ
as_num (some (num n)) = some n
as_num _ = none

abbrev as_bool : Option Value → Option Bool
as_bool (some (bool b)) = some b
as_bool _ = none

abbrev pub text_at : Text → Data → Option Text
text_at k d = as_text (lookup k d)

abbrev pub num_at : Text → Data → Option ℕ
num_at k d = as_num (lookup k d)

abbrev pub bool_at : Text → Data → Option Bool
bool_at k d = as_bool (lookup k d)

infixl 5 ◌>>=◌
abbrev pub ◌>>=◌ {ℓ κ} : {A : Type ℓ} {B : Type κ} → Option A → (A → Option B) → Option B
none >>= f = none
some a >>= f = f a

unfoldable pub direction_of : Text → Option Direction
direction_of s =
    if text_eq s (lit "sent")
    then some outgoing
    else if text_eq s (lit "received")
    then some incoming
    else none

unfoldable pub kind_of : Text → Option MessageType
kind_of s =
    if text_eq s (lit "text")
    then some text
    else if text_eq s (lit "json")
    then some json
    else if text_eq s (lit "binary")
    then some binary
    else none

unfoldable pub open_data : Data → Option Incoming
open_data d = do
  id ← text_at (lit "connectionId") d
  some (
      opened (record {
        connection_id = id;
        transport = text_at (lit "transport") d;
        namespace = text_at (lit "namespace") d;
        raw = d;
      }))

unfoldable pub message_data : Data → Option Incoming
unfolding direction_of kind_of
message_data d = do
  id ← text_at (lit "connectionId") d
  payload ← text_at (lit "payload") d
  word ← text_at (lit "direction") d
  direction ← direction_of word
  some (
      messaged (record {
        connection_id = id;
        payload = payload;
        direction = direction;
        kind = text_at (lit "type") d >>= kind_of;
        size = num_at (lit "size") d;
        latency = num_at (lit "latency") d;
        extras = record {
          event_name = text_at (lit "eventName") d;
          topic = text_at (lit "topic") d;
          qos = num_at (lit "qos") d;
          retain = bool_at (lit "retain") d;
          exchange = text_at (lit "exchange") d;
          routing_key = text_at (lit "routingKey") d;
          delivery_tag = text_at (lit "deliveryTag") d;
        };
      }))

unfoldable pub error_data : Data → Option Incoming
error_data d = do
  id ← text_at (lit "connectionId") d
  message ← text_at (lit "message") d
  some (failed (record { connection_id = id; message = message }))

unfoldable pub close_data : Data → Option Incoming
close_data d = do
  id ← text_at (lit "connectionId") d
  some (
      closed (record {
        connection_id = id;
        code = num_at (lit "code") d;
        reason = text_at (lit "reason") d;
        raw = d;
      }))

unfoldable pub topic_data : Data → Option Incoming
topic_data d = do
  id ← text_at (lit "connectionId") d
  topic ← text_at (lit "topic") d
  qos ← num_at (lit "qos") d
  some (subscribed (record { connection_id = id; topic = topic; qos = qos }))

-- The events that joining a room is answered by.
unfoldable pub decode : Text → Data → Option Incoming
decode event d =
    if text_eq event (lit "connection:open")
    then open_data d
    else if text_eq event (lit "connection:message")
    then message_data d
    else if text_eq event (lit "connection:error")
    then error_data d
    else if text_eq event (lit "connection:close")
    then close_data d
    else if text_eq event (lit "mqtt:subscribed")
    then topic_data d
    else none

-- The browser hears the replies in order.
unfoldable pub hear_reply : (Option Value → Text) → Stamp → Reply → Browser → Browser
hear_reply stringify t r b = elim (decode r.event r.sent) [
  | none ↦ b
  | some ev ↦ handle stringify ev t b
]

unfoldable pub hear : (Option Value → Text) → Stamp → List Reply → Browser → Browser
hear stringify t [] b = b
hear stringify t (r ∷ rs) b = hear stringify t rs (hear_reply stringify t r b)
