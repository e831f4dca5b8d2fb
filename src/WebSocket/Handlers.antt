-- ===== src/WebSocket/Handlers.antt =====
-- The handlers that `createConnection` registers on a socket, and the timers' callbacks.
pub mod Promises
pub mod Pings
use socket_tester.Base.{
  ℕ, zero, suc, ◌+◌, ◌-◌, Option, none, some, List, [], ◌∷◌, ◌++◌, Bool, true, false, not, Text,
  lit, default, Map, lookup, insert, delete, if◌then◌else◌, ltb, ◌==◌, drop, get_elem?, take,
}
use socket_tester.Json.{Data, num, str, num_or_null}
use socket_tester.Session.{
  ConnectionStatus, connected, disconnected, update_status, record_message_received, record_error,
  buffer_message,
}
use socket_tester.Session
use socket_tester.Log.{LogInput, LogLevel, LogDirection, info, inward}
use socket_tester.Network.{
  Fraction, should_drop, apply_delay, schedule_disconnect, clear_condition, Timer,
}
use socket_tester.App.{
  App, WsPart, WsCall, PingResolver, PingTimer, Settled, resolved, rejected, Delivery, on_sessions,
  on_network, on_ws, emit, write_log, ◌|>◌,
}
use socket_tester.Closing.{ping_key}
use socket_tester.WebSocket.{message_log}
use socket_tester.WebSocket.Pinging.{clear_ping_timer, reject_pending}

abbrev event_log : Text → LogLevel → Text → Data → LogInput
event_log id level event metadata = record {
  connection_id = id;
  level = level;
  event = event;
  direction = none;
  payload = none;
  payload_size = none;
  latency = none;
  metadata = some metadata;
}

abbrev id_and_time : Text → ℕ → Data
id_and_time id now = (lit "connectionId", str id) ∷ (lit "timestamp", num now) ∷ []

unfoldable on_open : Text → Text → ℕ → App → App
on_open id url now app =
    app
    |> on_sessions (update_status id connected none now)
    |> write_log (event_log id info (lit "ws:open") ((lit "url", str url) ∷ [])) now
    |> emit id (lit "connection:open") (id_and_time id now)
    |> on_network (schedule_disconnect id now)

-- The callback of a forced disconnect.
unfoldable force_disconnect : ℕ → App → App
force_disconnect handle = on_ws (λ w. record w {
  calls = w.calls ++ WsCall.closes handle 1001 (lit "Network simulation disconnect") ∷ [];
})

-- `pingTs ? Date.now() - pingTs : undefined`; a timestamp of 0 is falsy.
abbrev latency_since : ℕ → Option ℕ → Option ℕ
latency_since now none = none
latency_since now (some zero) = none
latency_since now (some (suc ts)) = some (now - suc ts)

-- The timestamp is used once.
unfoldable pub take_latency : Text → ℕ → Map ℕ → Map ℕ × Option ℕ
take_latency key now stamps = elim (latency_since now (lookup key stamps)) [
  | none ↦ (stamps, none)
  | some latency ↦ (delete key stamps, some latency)
]

-- `drop_random` and `delay_random` are the results of `Math.random()`.
unfoldable pub on_message : Text → Text → ℕ → Fraction → Fraction → ℕ → App → App
on_message id payload size drop_random delay_random now app =
    if should_drop id drop_random app.network
    then app
    else let (stamps, latency) = take_latency id now app.ws.ping_timestamps in
      app
      |> on_ws (λ w. record w { ping_timestamps = stamps })
      |> on_sessions (record_message_received id size latency)
      |> write_log (message_log id inward payload size latency) now
      |> on_ws (λ w. record w {
        deliveries =
            w.deliveries
            ++ record {
              owner = id;
              payload = payload;
              size = size;
              latency = latency;
              wait = apply_delay id delay_random app.network;
            }
              ∷ [];
      })

abbrev pub received_data : Delivery → ℕ → Data
received_data d now =
    (lit "connectionId", str d.owner)
    ∷ (lit "payload", str d.payload)
    ∷ (lit "timestamp", num now)
    ∷ (lit "direction", str (lit "received"))
    ∷ (lit "size", num d.size)
    ∷ (lit "latency", num_or_null d.latency)
    ∷ []

-- The callback after a message's delay.
unfoldable pub forward : Delivery → ℕ → App → App
forward d now app =
    app
    |> on_sessions (buffer_message d.owner (lit "connection:message") (received_data d now))
    |> emit d.owner (lit "connection:message") (received_data d now)

abbrev remove_at {ℓ} : {A : Type ℓ} → ℕ → List A → List A
remove_at i xs = take i xs ++ drop (suc i) xs

-- The runtime runs the callback of the i-th message that waits.
unfoldable pub deliver : ℕ → ℕ → App → App
unfolding forward
deliver i now app = elim (get_elem? app.ws.deliveries i) [
  | none ↦ app
  | some d ↦ app |> on_ws (λ w. record w { deliveries = remove_at i w.deliveries }) |> forward d now
]

unfoldable on_error : Text → Text → ℕ → App → App
on_error id message now app =
    app
    |> on_sessions (update_status id ConnectionStatus.error (some message) now)
    |> on_sessions (record_error id)
    |> write_log (event_log id LogLevel.error (lit "ws:error") ((lit "message", str message) ∷ []))
        now
    |> emit id (lit "connection:error") (
        (lit "connectionId", str id)
        ∷ (lit "message", str message)
        ∷ (lit "timestamp", num now)
        ∷ [])

-- What `close` does to the service's own maps.
unfoldable pub closed_part : Text → WsPart → WsPart
closed_part id w =
    let cut = record w {
      sockets = delete id w.sockets;
      ping_timestamps = delete id w.ping_timestamps;
      ping_resolvers = delete id w.ping_resolvers;
    } in
    reject_pending (lit "Connection closed") (lookup id w.ping_resolvers) cut

unfoldable pub on_close : Text → ℕ → Text → ℕ → App → App
on_close id status_code reason now app =
    app
    |> on_sessions (update_status id disconnected none now)
    |> on_ws (closed_part id)
    |> on_network (clear_condition id)
    |> write_log
        (event_log id info (lit "ws:close")
          ((lit "code", num status_code) ∷ (lit "reason", str reason) ∷ []))
        now
    |> emit id (lit "connection:close") (
        (lit "connectionId", str id)
        ∷ (lit "code", num status_code)
        ∷ (lit "reason", str reason)
        ∷ (lit "timestamp", num now)
        ∷ [])

unfoldable on_ping : Text → ℕ → App → App
on_ping id now app = app |> emit id (lit "connection:ping") (id_and_time id now)

-- `resolver.resolve(Date.now() - resolver.startTs)`, with its timer cleared.
pub resolve_ping : Text → ℕ → WsPart → WsPart
resolve_ping id now w = elim (lookup id w.ping_resolvers) [
  | none ↦ w
  | some r ↦ record w {
    ping_timers = clear_ping_timer r.timer w.ping_timers;
    ping_resolvers = delete id w.ping_resolvers;
    settled = w.settled ++ resolved r.promise (now - r.start_ts) ∷ [];
  }
]

unfoldable on_pong : Text → ℕ → App → App
on_pong id now app =
    let (stamps, latency) = take_latency (ping_key id) now app.ws.ping_timestamps in
    (elim latency [
      | none ↦ app
      | some ms ↦
          app
          |> on_ws (λ w. record w { ping_timestamps = stamps })
          |> emit id (lit "connection:pong") (
              (lit "connectionId", str id)
              ∷ (lit "latency", num ms)
              ∷ (lit "timestamp", num now)
              ∷ [])
    ])
    |> on_ws (resolve_ping id now)

-- The callback of a ping's timeout.
pub ping_timeout : PingTimer → WsPart → WsPart
ping_timeout t w = record w {
  ping_timers = clear_ping_timer t.handle w.ping_timers;
  ping_resolvers = delete t.owner w.ping_resolvers;
  settled = w.settled ++ rejected t.promise (lit "Ping timeout") ∷ [];
}
