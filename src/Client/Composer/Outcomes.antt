-- ===== src/Client/Composer/Outcomes.antt =====
-- What sending a message does to the feed and to the composer.
use mathlib.Core.Option.{some-injective}
use socket_tester.Base.{
  ◌≡◌, refl, ap, Bool, true, false, not, ◌&&◌, none, some, [], Text, trim, is_some, arith,
  Option-cases, inl, inr, ◌⊎◌,
}
use socket_tester.Json.{Value}
use socket_tester.Session.{ConnectionType, websocket, socketio, mqtt, amqp}
use socket_tester.Client.Tabs.{ActiveConnection}
use socket_tester.Client.Messages.{sent, add_message}
use socket_tester.Client.ControlSocket.Stores.{Stamp}
use socket_tester.Client.Composer.{
  Composer, ParsedText, parsed, malformed, Sending, Planned, sends, needs_topic, throws,
  payload_error, plan, socketio_value,
}
use socket_tester.Client.Composer.Flow.{Desk, can_send, carry_out, begin_send, finish_send}

ParsedText-cases :
    (r : ParsedText) → ((v : Value) × (r ≡ parsed v)) ⊎ ((m : Text) × (r ≡ malformed m))
ParsedText-cases (parsed v) = inl (v, refl)
ParsedText-cases (malformed m) = inr (m, refl)

-- The plan is a request.
abbrev pub is_request : Planned → Bool
is_request (sends s) = true
is_request needs_topic = false
is_request (throws message) = false

module _ (parse : Text → ParsedText) where
  plan-message :
      (p : ConnectionType) (id : Text) (c : Composer) (s : Sending)
      → plan parse p id c ≡ sends s
      → (s.connection_id ≡ id)
        × (s.message.connection_id ≡ id)
        × (s.message.payload ≡ trim c.payload)
        × (s.message.direction ≡ sent)
  unfolding plan
  plan-message websocket id c s e = ground (arith, e)
  plan-message socketio id c s e = elim (ParsedText-cases (socketio_value parse c)) [
    | inl (v, h) ↦ ground (arith, h, e)
    | inr (message, h) ↦ ground (arith, h, e)
  ]
  plan-message mqtt id c s e = ground (arith, e)
  plan-message amqp id c s e = ground (arith, e)

  -- A request is under way after `handleSend` begins exactly where the active connection is connected
  -- and has an id, the payload is not blank, a payload of type JSON is JSON, and the protocol's own
  -- part is there.
  pub begin_send_lem :
      (a : ActiveConnection) (t : Stamp) (d : Desk)
      → let (after, under_way) = begin_send parse (some a) t d in
        is_some under_way ≡ (
          can_send (some a) d.composer
          && not (is_some (payload_error parse d.composer))
          && is_request (plan parse a.protocol a.connection_id d.composer))
  unfolding begin_send carry_out
  begin_send_lem a t d = ground (arith, Option-cases (payload_error parse d.composer))

  carry_out-sends :
      (id : Text) (planned : Planned) (t : Stamp) (d : Desk) (s : Sending)
      → (carry_out parse id planned t d).1 ≡ some s
      → (planned ≡ sends s) × ((carry_out parse id planned t d).0.messages ≡ d.messages)
  unfolding carry_out
  carry_out-sends id (sends r) t d s e = (ap sends (some-injective _ _ e), refl)
  carry_out-sends id needs_topic t d s e = cc
  carry_out-sends id (throws message) t d s e = cc

  begin_send-sends :
      (a : ActiveConnection) (t : Stamp) (d : Desk) (s : Sending)
      → (begin_send parse (some a) t d).1 ≡ some s
      → (plan parse a.protocol a.connection_id d.composer ≡ sends s)
        × ((begin_send parse (some a) t d).0.messages ≡ d.messages)
  unfolding begin_send
  begin_send-sends a t d s e =
      let valid = record d { composer = record d.composer { json_error = none } } in
      ground (
        arith,
        e,
        Option-cases (payload_error parse d.composer),
        carry_out-sends a.connection_id (plan parse a.protocol a.connection_id d.composer) t valid
            s,
      )

  -- While a request of `handleSend` is under way the feed is unchanged, and its message is the trimmed
  -- payload, as sent on the active connection. When the request succeeds, the store as it is then takes
  -- this one message and the payload is emptied; when it fails, the payload stays.
  pub finish_send_lem :
      (a : ActiveConnection) (t u : Stamp) (d later : Desk) (s : Sending) (message : Text)
      → (begin_send parse (some a) t d).1 ≡ some s
      → ((begin_send parse (some a) t d).0.messages ≡ d.messages)
        × (s.message.payload ≡ trim d.composer.payload)
        × (s.message.connection_id ≡ a.connection_id)
        × ((finish_send s none u later).messages
            ≡ add_message s.message u.message_id u.now later.messages)
        × (s.message.direction ≡ sent)
        × ((finish_send s none u later).composer.payload ≡ [])
        × ((finish_send s (some message) u later).composer.payload ≡ later.composer.payload)
  unfolding finish_send
  finish_send_lem a t u d later s message e =
      let (planned, quiet) = begin_send-sends a t d s e in
      let (id, own, payload, direction) =
        plan-message a.protocol a.connection_id d.composer s planned in
      (quiet, payload, own, refl, direction, refl, refl)
