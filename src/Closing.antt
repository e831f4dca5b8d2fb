-- ===== src/Closing.antt =====
-- The closures that the protocol services store in `session.close`, and the call of the one that a
-- session holds. `ready` gives the state of a WebSocket at the time of the call.
use socket_tester.Base.{
  ℕ, Option, none, some, [], ◌∷◌, ◌++◌, map, Bool, true, false, Text, lit, lookup, delete,
  if◌then◌else◌,
}
use socket_tester.Session.{CloseCallback, close_websocket, close_socketio, close_mqtt, close_amqp}
use socket_tester.App.{
  App, ReadyState, WsPart, WsCall, SioPart, SioCall, MqttPart, MqttCall, AmqpPart, AmqpCall, on_ws,
  on_sio, on_mqtt, on_amqp,
}

-- `ping:${connectionId}`
unfoldable pub ping_key : Text → Text
ping_key id = lit "ping:" ++ id

-- `readyState === OPEN || readyState === CONNECTING`
abbrev is_live : ReadyState → Bool
is_live ReadyState.open_state = true
is_live ReadyState.connecting = true
is_live _ = false

-- websocket.service.ts
unfoldable pub close_ws : (ℕ → ReadyState) → Text → ℕ → WsPart → WsPart
close_ws ready id handle w = record w {
  calls =
      if is_live (ready handle)
      then w.calls ++ WsCall.closes handle 1000 (lit "Client requested close") ∷ []
      else w.calls;
  sockets = delete id w.sockets;
  ping_timestamps = delete (ping_key id) (delete id w.ping_timestamps);
}

-- socketio.service.ts
unfoldable pub close_sio : Text → ℕ → SioPart → SioPart
close_sio id client p = record p {
  calls = p.calls ++ SioCall.disconnects client ∷ [];
  clients = delete id p.clients;
  subscribed_events = delete id p.subscribed_events;
}

-- mqtt.service.ts
unfoldable pub close_mqtt_client : Text → ℕ → MqttPart → MqttPart
close_mqtt_client id client p = record p {
  calls = p.calls ++ MqttCall.ends client ∷ [];
  clients = delete id p.clients;
  subscribed_topics = delete id p.subscribed_topics;
}

-- amqp.service.ts: failures of the calls are ignored, so each is made. The closure reads the consumer
-- tags of the state object that it captured.
unfoldable pub close_amqp_state : Text → ℕ → AmqpPart → AmqpPart
close_amqp_state id connection p = record p {
  calls = elim (lookup id p.objects) [
    | none ↦ p.calls
    | some s ↦
        p.calls
        ++ (map (AmqpCall.cancels s.channel) s.consumer_tags
            ++ AmqpCall.closes_channel s.channel ∷ AmqpCall.closes_connection s.connection ∷ [])
  ];
  states = delete id p.states;
}

unfoldable pub run_close : (ℕ → ReadyState) → Text → CloseCallback → App → App
run_close ready id (close_websocket handle) = on_ws (close_ws ready id handle)
run_close ready id (close_socketio client) = on_sio (close_sio id client)
run_close ready id (close_mqtt client) = on_mqtt (close_mqtt_client id client)
run_close ready id (close_amqp connection) = on_amqp (close_amqp_state id connection)

unfoldable pub close_session : (ℕ → ReadyState) → Text → Option CloseCallback → App → App
close_session ready id none app = app
close_session ready id (some c) app = run_close ready id c app
