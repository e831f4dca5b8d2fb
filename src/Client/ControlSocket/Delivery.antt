-- ===== src/Client/ControlSocket/Delivery.antt =====
-- The way of a received message: from the proxy's socket over the control channel to the feed.
use socket_tester.Base.{
  leb, ℕ, ◌+◌, ◌≤◌, ◌≡◌, refl, Option, none, some, List, [], ◌∷◌, ◌++◌, Text, lit, text_eq, lookup,
  arith, get_elem?, length, drop, ◌-◌, ◌∙◌, Bool-cases, inl, inr,
}
use socket_tester.Json.{Value}
use socket_tester.Gateway.{emit_to_connection}
use socket_tester.App.{App, Delivery}
use socket_tester.WebSocket.Handlers.{deliver, forward, received_data}
use socket_tester.WebSocket.Replayed.{emission_of, reply_of}
use socket_tester.Client.Series.{incoming, record_message}
use socket_tester.Client.Messages.{
  Message, message_of, push, received, text, no_extras, add_message,
}
use socket_tester.Client.ControlSocket.Payloads.{MessageData, messaged}
use socket_tester.Client.ControlSocket.{
  handle, on_message, delay_received, add_delayed, delayed_message,
}
use socket_tester.Client.ControlSocket.Stores.{Browser, Stamp}
use socket_tester.Client.ControlSocket.Decode.{decode, message_data, direction_of, hear_reply}

-- What the feed shows for a delivery.
abbrev pub feed_message : Delivery → Text → ℕ → Message
feed_message d uuid now = record {
  id = uuid;
  connection_id = d.owner;
  payload = d.payload;
  direction = received;
  kind = text;
  timestamp = now;
  size = d.size;
  latency = d.latency;
  extras = no_extras;
}

abbrev data_of : Delivery → MessageData
data_of d = record {
  connection_id = d.owner;
  payload = d.payload;
  direction = incoming;
  kind = none;
  size = some d.size;
  latency = d.latency;
  extras = no_extras;
}

decode-received_data :
    (d : Delivery) (now : ℕ)
    → decode (lit "connection:message") (received_data d now) ≡ some (messaged (data_of d))
unfolding decode message_data direction_of lookup text_eq lit
decode-received_data d now = ground arith

hear-received :
    (stringify : Option Value → Text) (d : Delivery) (now : ℕ) (t : Stamp) (b : Browser)
    → hear_reply stringify t (reply_of (emission_of d now)) b ≡ on_message (data_of d) t b
unfolding hear_reply handle
hear-received stringify d now t b = rw (hear_reply, decode-received_data d now) refl

add_delayed-on_message :
    (d : MessageData) (t t' : Stamp) (b : Browser)
    → d.direction ≡ incoming
    → b.delayed ≡ []
    → t.now + 100 ≤ t'.now
    → (add_delayed t' (on_message d t b)).messages.messages
      ≡ push (message_of t'.message_id t'.now (delayed_message d)) b.messages.messages
unfolding add_delayed on_message delay_received add_message
add_delayed-on_message d t t' b e none_waits due = ground arith

-- The feed without its oldest message if it is full.
abbrev pub with_room : List Message → List Message
with_room ms = drop (length ms - 999) ms

push-with_room :
    (m : Message) (ms : List Message) → length ms ≤ 1000 → push m ms ≡ with_room ms ++ m ∷ []
unfolding push
push-with_room m ms h = elim (Bool-cases (leb 1000 (length ms))) [
  | inl e ↦ rw e (let one : length ms - 999 ≡ 1 = ground (arith, h, e) in rw one refl)
  | inr e ↦ rw e (let nothing : length ms - 999 ≡ 0 = ground (arith, h, e) in rw nothing refl)
]

deliver-emitted :
    (i now : ℕ) (app : App) (d : Delivery)
    → get_elem? app.ws.deliveries i ≡ some d
    → (deliver i now app).emitted ≡ app.emitted ++ emission_of d now ∷ []
unfolding deliver forward emit_to_connection
deliver-emitted i now app d e = rw (deliver, e) refl

-- When the proxy forwards a received message, it emits one event to the room of its connection. A
-- browser that hears the event with no other message waiting counts the message in the figures of
-- that connection, leaves its tabs alone, and 100 milliseconds or more later has the message at the
-- end of its feed, with its text, size and latency; the feed has at most 1000 messages, and loses its
-- oldest if it had so many.
pub deliver_reaches_feed :
    (stringify : Option Value → Text) (i now : ℕ) (app : App) (d : Delivery) (t t' : Stamp)
    (b : Browser)
    → get_elem? app.ws.deliveries i ≡ some d
    → b.delayed ≡ []
    → t.now + 100 ≤ t'.now
    → length b.messages.messages ≤ 1000
    → let heard = hear_reply stringify t (reply_of (emission_of d now)) b in
      ((deliver i now app).emitted ≡ app.emitted ++ emission_of d now ∷ [])
      × (heard.series ≡ record_message d.owner incoming d.size d.latency t.now b.series)
      × (heard.tabs ≡ b.tabs)
      × ((add_delayed t' heard).messages.messages
          ≡ with_room b.messages.messages ++ feed_message d t'.message_id t'.now ∷ [])
unfolding on_message
deliver_reaches_feed stringify i now app d t t' b e none_waits due few = (
  deliver-emitted i now app d e,
  rw hear-received refl,
  rw hear-received refl,
  rw hear-received (
      add_delayed-on_message (data_of d) t t' b refl none_waits due
      ∙ push-with_room (feed_message d t'.message_id t'.now) b.messages.messages few),
)
