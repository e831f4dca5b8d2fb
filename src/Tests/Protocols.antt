-- ===== src/Tests/Protocols.antt =====
-- AMQP and Socket.IO connections.
use socket_tester.Base.{
  ◌≡◌, refl, none, some, [], ◌∷◌, ◌++◌, true, Text, lit, text_eq, lookup, decimal,
}
use socket_tester.Json.{Value}
use socket_tester.Session.{ConnectionSession, socketio, new_session}
use socket_tester.App.{App, ok, err, bad_request, AmqpState, empty_app}
use socket_tester.Amqp.{state_of}
use socket_tester.Amqp.Channel.{ack, AmqpAckDto, settle_call, on_delivery, Delivered}
use socket_tester.Amqp.Acks.{ack-on_delivery}
use socket_tester.SocketIo.Refusals.{ConnectError}

abbrev channel : AmqpState
channel = record { connection = 3; channel = 4; delivery_tags = []; consumer_tags = [] }

abbrev with_amqp : App
with_amqp = record empty_app {
  amqp = record { states = (lit "a", 3) ∷ []; objects = (lit "a", channel) ∷ []; calls = [] };
}

abbrev delivery : Delivered
delivery = record { payload = lit "hi"; size = 2; delivery_tag = 1; routing_key = lit "k" }

abbrev acking : AmqpAckDto
acking = record { delivery_tag = decimal 1; nack = none; multiple = none }

abbrev nacking : AmqpAckDto
nacking = record { delivery_tag = decimal 1; nack = some true; multiple = none }

known_channel : state_of (lit "a") with_amqp.amqp ≡ some channel
unfolding state_of lookup text_eq lit
known_channel = refl

ack-on_delivery_example :
    let first =
      ack (lit "a") acking (on_delivery (lit "a") (lit "q") (some delivery) 50 with_amqp) in
    (first.1 ≡ ok tt)
    × (first.0.amqp.calls ≡ with_amqp.amqp.calls ++ settle_call 4 1 acking ∷ [])
    × (ack (lit "a") nacking first.0
        ≡ (first.0, err (bad_request (lit "Unknown delivery tag " ++ decimal 1))))
ack-on_delivery_example =
    ack-on_delivery (lit "a") (lit "q") delivery acking nacking 50 with_amqp channel known_channel
      refl refl

abbrev session : ConnectionSession
session = new_session (lit "a") (lit "http://h") socketio 1000

abbrev with_sio : App
with_sio = record empty_app {
  sessions = (lit "a", session) ∷ [];
  sio = record empty_app.sio {
    clients = (lit "a", 6) ∷ [];
    subscribed_events = (lit "a", []) ∷ [];
  };
}

abbrev refused : ConnectError
refused = record { message = some (lit "websocket error"); description = none; cause = none }

abbrev stringify : Value → Text
stringify v = lit "{}"
