-- ===== src/Mqtt/Publishing.antt =====
-- src/mqtt/mqtt.service.ts: publishing a message.
use socket_tester.Base.{
  ℕ, Option, none, some, [], ◌∷◌, ◌++◌, Bool, false, Text, lit, default, lookup, if◌then◌else◌,
}
use socket_tester.Json.{num, str, bool}
use socket_tester.Session.{record_message_sent}
use socket_tester.App.{
  App, not_found, bad_request, Result, ok, err, MqttCall, on_sessions, on_mqtt, emit, ◌|>◌,
}
use socket_tester.WebSocket.{byte_length}

pub record SendMqttMessageDto : Type 0 where
  pub topic : Text
  pub payload : Text
  pub qos : Option ℕ
  pub retain : Option Bool

-- `is_up` is `client.connected`.
unfoldable pub publish : (ℕ → Bool) → Text → SendMqttMessageDto → ℕ → App → App × Result (Unit {0})
publish is_up id dto now app = elim (lookup id app.mqtt.clients) [
  | none ↦ (app, err (not_found (lit "Connection " ++ (id ++ lit " not found"))))
  | some client ↦
      if is_up client
      then (
        app
            |> on_mqtt (λ p. record p {
              calls =
                  p.calls
                  ++ MqttCall.publishes client dto.topic dto.payload (default 0 dto.qos)
                      (default false dto.retain)
                    ∷ [];
            })
            |> on_sessions (record_message_sent id (byte_length dto.payload))
            |> emit id (lit "connection:message") (
                (lit "connectionId", str id)
                ∷ (lit "topic", str dto.topic)
                ∷ (lit "payload", str dto.payload)
                ∷ (lit "direction", str (lit "sent"))
                ∷ (lit "type", str (lit "text"))
                ∷ (lit "size", num (byte_length dto.payload))
                ∷ (lit "qos", num (default 0 dto.qos))
                ∷ (lit "retain", bool (default false dto.retain))
                ∷ (lit "timestamp", num now)
                ∷ []),
        ok tt,
      )
      else (app, err (bad_request (lit "MQTT client is not connected")))
]
