-- ===== src/Amqp/Channel.antt =====
-- src/amqp/amqp.service.ts: what is done on the channel of an open connection.
use socket_tester.Base.{
  ℕ, Option, none, some, List, [], ◌∷◌, ◌++◌, Bool, true, false, ◌&&◌, Text, lit, truthy, default,
  decimal, ltb, length, take, suc, lookup, insert, delete, modify, if◌then◌else◌,
}
use socket_tester.Json.{Data, num, str, bool}
use socket_tester.Session.{record_message_sent, record_message_received}
use socket_tester.App.{
  App, not_found, bad_request, thrown, Result, ok, err, AmqpCall, on_sessions, on_amqp, emit, ◌|>◌,
}
use socket_tester.WebSocket.{byte_length}
use socket_tester.Amqp.{state_of}

pub record AmqpSetupDto : Type 0 where
  pub queue_name : Option Text
  pub exchange_name : Option Text
  pub exchange_type : Option Text
  pub routing_key : Option Text
  pub bind_queue : Option Bool
  pub durable : Option Bool
  pub auto_delete : Option Bool

-- The channel calls of `setup`, in order.
setup_calls : ℕ → AmqpSetupDto → List AmqpCall
setup_calls channel dto =
    let durable = default true dto.durable in
    let auto_delete = default false dto.auto_delete in
    let exchange = default [] dto.exchange_name in
    let queue = default [] dto.queue_name in
    (if truthy exchange
      then AmqpCall.asserts_exchange channel exchange (default (lit "direct") dto.exchange_type)
          durable auto_delete
        ∷ []
      else [])
    ++ (if truthy queue
        then AmqpCall.asserts_queue channel queue durable auto_delete
          ∷ (if default false dto.bind_queue && truthy exchange
              then AmqpCall.binds_queue channel queue exchange (default [] dto.routing_key) ∷ []
              else [])
        else [])

-- The fields of the DTO that are given, in the order of its declaration.
abbrev given_field : Text → Option Text → Data
given_field k none = []
given_field k (some v) = (k, str v) ∷ []

abbrev given_flag : Text → Option Bool → Data
given_flag k none = []
given_flag k (some b) = (k, bool b) ∷ []

abbrev setup_data : Text → AmqpSetupDto → ℕ → Data
setup_data id dto now =
    (lit "connectionId", str id)
    ∷ (given_field (lit "queueName") dto.queue_name
        ++ (given_field (lit "exchangeName") dto.exchange_name
            ++ (given_field (lit "exchangeType") dto.exchange_type
                ++ (given_field (lit "routingKey") dto.routing_key
                    ++ (given_flag (lit "bindQueue") dto.bind_queue
                        ++ (given_flag (lit "durable") dto.durable
                            ++ (given_flag (lit "autoDelete") dto.auto_delete
                                ++ (lit "timestamp", num now) ∷ [])))))))

-- `failed_at` is the position of the first channel call whose promise is rejected.
unfoldable setup : Text → AmqpSetupDto → Option ℕ → ℕ → App → App × Result (Unit {0})
unfolding setup_calls
setup id dto failed_at now app = elim (state_of id app.amqp) [
  | none ↦ (app, err (not_found (lit "Connection " ++ (id ++ lit " not found"))))
  | some state ↦
      let calls = setup_calls state.channel dto in
      let failed : Bool = elim failed_at [ none ↦ false | some n ↦ ltb n (length calls) ] in
      let made : List AmqpCall = elim failed_at [ none ↦ calls | some n ↦ take (suc n) calls ] in
      let called = on_amqp (λ p. record p { calls = p.calls ++ made }) app in
      if failed
      then (called, err thrown)
      else (emit id (lit "amqp:setup") (setup_data id dto now) called, ok tt)
]

unfoldable consume : Text → Text → Option Bool → App → App × Result (Unit {0})
consume id queue no_ack app = elim (state_of id app.amqp) [
  | none ↦ (app, err (not_found (lit "Connection " ++ (id ++ lit " not found"))))
  | some state ↦ (
    app
        |> on_amqp (λ p. record p {
          calls = p.calls ++ AmqpCall.consumes state.channel queue (default false no_ack) ∷ [];
        }),
    ok tt,
  )
]

-- `consume` after its `await`: the broker gave a consumer tag.
unfoldable on_consuming : Text → Text → App → App
on_consuming id tag app =
    app
    |> on_amqp (λ p. record p {
      objects = modify id (λ s. record s { consumer_tags = s.consumer_tags ++ tag ∷ [] }) p.objects;
    })

-- What the callback of `channel.consume` reads of a message.
pub record Delivered : Type 0 where
  pub payload : Text
  pub size : ℕ
  pub delivery_tag : ℕ
  pub routing_key : Text

-- The callback of `channel.consume`; no message comes when the broker cancels the consumer.
unfoldable pub on_delivery : Text → Text → Option Delivered → ℕ → App → App
on_delivery id queue none now app = app
on_delivery id queue (some msg) now app =
    app
    |> on_amqp (λ p. record p {
      objects =
          modify id
            (λ s. record s {
              delivery_tags = insert (decimal msg.delivery_tag) msg.delivery_tag s.delivery_tags;
            })
            p.objects;
    })
    |> on_sessions (record_message_received id msg.size none)
    |> emit id (lit "connection:message") (
        (lit "connectionId", str id)
        ∷ (lit "payload", str msg.payload)
        ∷ (lit "direction", str (lit "received"))
        ∷ (lit "type", str (lit "text"))
        ∷ (lit "size", num msg.size)
        ∷ (lit "deliveryTag", str (decimal msg.delivery_tag))
        ∷ (lit "queue", str queue)
        ∷ (lit "routingKey", str msg.routing_key)
        ∷ (lit "timestamp", num now)
        ∷ [])

pub record AmqpAckDto : Type 0 where
  pub delivery_tag : Text
  pub nack : Option Bool
  pub multiple : Option Bool

-- `channel.nack` or `channel.ack`.
abbrev pub settle_call : ℕ → ℕ → AmqpAckDto → AmqpCall
settle_call channel tag dto =
    if default false dto.nack
    then AmqpCall.nacks channel tag (default false dto.multiple) false
    else AmqpCall.acks channel tag (default false dto.multiple)

unfoldable pub ack : Text → AmqpAckDto → App → App × Result (Unit {0})
unfolding state_of
ack id dto app = elim (state_of id app.amqp) [
  | none ↦ (app, err (not_found (lit "Connection " ++ (id ++ lit " not found"))))
  | some state ↦ elim (lookup dto.delivery_tag state.delivery_tags) [
    | none ↦ (app, err (bad_request (lit "Unknown delivery tag " ++ dto.delivery_tag)))
    | some tag ↦ (
      app
          |> on_amqp (λ p. record p {
            calls = p.calls ++ settle_call state.channel tag dto ∷ [];
            objects =
                modify id
                  (λ s. record s { delivery_tags = delete dto.delivery_tag s.delivery_tags })
                  p.objects;
          }),
      ok tt,
    )
  ]
]

pub record SendAmqpMessageDto : Type 0 where
  pub exchange : Option Text
  pub routing_key : Option Text
  pub payload : Text

unfoldable publish : Text → SendAmqpMessageDto → ℕ → App → App × Result (Unit {0})
unfolding state_of
publish id dto now app = elim (state_of id app.amqp) [
  | none ↦ (app, err (not_found (lit "Connection " ++ (id ++ lit " not found"))))
  | some state ↦ (
    app
        |> on_amqp (λ p. record p {
          calls =
              p.calls
              ++ AmqpCall.publishes state.channel (default [] dto.exchange)
                  (default [] dto.routing_key) dto.payload
                ∷ [];
        })
        |> on_sessions (record_message_sent id (byte_length dto.payload))
        |> emit id (lit "connection:message") (
            (lit "connectionId", str id)
            ∷ (lit "payload", str dto.payload)
            ∷ (lit "direction", str (lit "sent"))
            ∷ (lit "type", str (lit "text"))
            ∷ (lit "size", num (byte_length dto.payload))
            ∷ (lit "exchange", str (default [] dto.exchange))
            ∷ (lit "routingKey", str (default [] dto.routing_key))
            ∷ (lit "timestamp", num now)
            ∷ []),
    ok tt,
  )
]
