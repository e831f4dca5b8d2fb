-- ===== src/Tests/Sockets.antt =====
-- One WebSocket connection.
use socket_tester.Base.{
  ℕ, ◌+◌, ◌-◌, ◌≤◌, ◌≡◌, ◌≢◌, ◌↔◌, ◌⊎◌, refl, Option, none, some, List, [], ◌∷◌, ◌++◌, Bool, true,
  false, count, ltb, Text, lit, text_eq, lookup, ne_of_text_eq, arith, if◌then◌else◌,
}
use socket_tester.Session.{
  ConnectionSession, disconnected, websocket, new_session, get, record_message_sent,
  record_message_received, close_websocket,
}
use socket_tester.Network.{Fraction, get_condition, should_drop, no_network}
use socket_tester.Gateway.{emit_to_connection}
use socket_tester.App.{
  App, bad_request, Result, ok, err, ReadyState, open_state, Payload, WsCall, empty_app, WsPart,
}
use socket_tester.Closing.{ping_key}
use socket_tester.WebSocket.{
  byte_length, SendMessageDto, text_message, json_message, payload_of, payload_size, sent_data,
  send_message, validate_allowlist, close_connection,
}
use socket_tester.WebSocket.Pinging.{ping_async}
use socket_tester.WebSocket.Handlers.{on_close, on_message}
use socket_tester.WebSocket.Allowlist.{IsListed, validate_allowlist_iff}
use socket_tester.WebSocket.Messages.{send_message_accepted, send_message_latency}
use socket_tester.WebSocket.Closes.{
  EmitsOne, EmitsOne, SameOf, KeepsRest, close_connection_lem, on_close_lem,
}
use socket_tester.WebSocket.Closes.Parts.{rejection, other_ping_timers, other_timers}
use socket_tester.WebSocket.Handlers.Promises.{settles, waits}
use socket_tester.WebSocket.Handlers.Pings.{start, next, asks, other, Reach-IsBalanced}

abbrev opened : ConnectionSession
opened = record (new_session (lit "a") (lit "ws://h") websocket 1000) {
  close = some (close_websocket 7);
}

-- A connection with socket 7.
abbrev one_socket : App
one_socket = record empty_app {
  sessions = (lit "a", opened) ∷ [];
  ws = record (empty_app.ws) { sockets = (lit "a", 7) ∷ [] };
}

abbrev is_json : Text → Bool
is_json s = false

abbrev decode_base64 : Text → List ℕ
decode_base64 s = s

abbrev hello : SendMessageDto
hello = record { payload = lit "hi"; kind = text_message }

abbrev broken : SendMessageDto
broken = record { payload = lit "hi"; kind = json_message }

abbrev half : Fraction
half = record { top = 1; bottom = 2 }

-- Sending with a limit of 100 bytes.
abbrev sent : App × Result (Unit {0})
sent = send_message is_json decode_base64 100 (lit "a") hello true 5000 one_socket

abbrev refused : App × Result (Unit {0})
refused = send_message is_json decode_base64 100 (lit "a") broken true 5000 one_socket

sent_ok : sent.1 ≡ ok tt
unfolding send_message payload_of lookup text_eq lit byte_length
sent_ok = refl

refused_err : refused.1 ≡ err (bad_request (lit "Invalid JSON payload"))
unfolding send_message payload_of lookup text_eq lit
refused_err = refl

send_message_accepted_example :
    (handle : ℕ) × (payload : Payload) × (lookup (lit "a") one_socket.ws.sockets ≡ some handle)
    × (payload_of is_json decode_base64 hello ≡ ok payload)
    × (payload_size payload ≤ 100)
    × (sent.0.ws.calls ≡ one_socket.ws.calls ++ WsCall.sends handle payload ∷ [])
    × (sent.0.sessions ≡ record_message_sent (lit "a") (payload_size payload) one_socket.sessions)
    × (sent.0.emitted
        ≡ emit_to_connection
            (lit "a")
            (lit "connection:message")
            (sent_data (lit "a") hello (payload_size payload) 5000)
            one_socket.emitted)
send_message_accepted_example =
    send_message_accepted is_json decode_base64 100 (lit "a") hello true 5000 one_socket sent_ok

not_dropped : should_drop (lit "a") half no_network ≡ false
unfolding should_drop lookup
not_dropped = refl

send_message_latency_example :
    let first = on_message (lit "a") (lit "yo") 2 half half 5040 sent.0 in
    let second = on_message (lit "a") (lit "yo") 2 half half 5050 first in
    (first.sessions ≡ record_message_received (lit "a") 2 (some (5040 - 5000)) sent.0.sessions)
    × (second.sessions ≡ record_message_received (lit "a") 2 none first.sessions)
send_message_latency_example =
    send_message_latency is_json decode_base64 100 (lit "a") hello true 5000 one_socket (lit "yo")
      (lit "yo") 2 2 half half half half 5040 5050 sent_ok (omega arith) not_dropped not_dropped

abbrev all_open : ℕ → ReadyState
all_open handle = open_state

found_opened : get (lit "a") one_socket.sessions ≡ some opened
unfolding get lookup text_eq lit
found_opened = refl

close_connection_lem_example :
    let r = close_connection all_open (lit "a") 6000 one_socket in
    (r.1 ≡ ok tt) × (get (lit "a") r.0.sessions ≡ some (record opened { status = disconnected }))
close_connection_lem_example =
    close_connection_lem all_open (lit "a") 6000 one_socket opened found_opened

b-ne-a : lit "b" ≢ lit "a"
unfolding text_eq lit
b-ne-a = ne_of_text_eq (lit "b") (lit "a") refl

on_close_lem_example :
    let app' = on_close (lit "a") 1000 (lit "bye") 7000 one_socket in
    (get (lit "a") app'.sessions ≡ some (record opened { status = disconnected }))
    × (lookup (lit "a") app'.ws.sockets ≡ none)
    × (lookup (lit "a") app'.ws.ping_timestamps ≡ none)
    × (lookup (lit "a") app'.ws.ping_resolvers ≡ none)
    × (get_condition (lit "a") app'.network ≡ none)
    × (app'.ws.ping_timers
        ≡ other_ping_timers
            (lookup (lit "a") one_socket.ws.ping_resolvers)
            one_socket.ws.ping_timers)
    × (app'.network.armed
        ≡ other_timers (lookup (lit "a") one_socket.network.timers) one_socket.network.armed)
    × (app'.ws.settled
        ≡ one_socket.ws.settled ++ rejection (lookup (lit "a") one_socket.ws.ping_resolvers))
    × EmitsOne (lit "a") (lit "connection:close") one_socket app'
    × (lookup (ping_key (lit "a")) app'.ws.ping_timestamps
        ≡ lookup (ping_key (lit "a")) one_socket.ws.ping_timestamps)
    × SameOf (lit "b") one_socket app'
    × KeepsRest one_socket app'
on_close_lem_example =
    on_close_lem (lit "a") (lit "b") 1000 (lit "bye") 7000 one_socket opened found_opened b-ne-a

-- A URL parser that takes every URL for its own host.
abbrev host_of : Text → Option Text
host_of url = some url

validate_allowlist_iff_example :
    (validate_allowlist host_of (lit "ws://h" ∷ []) (lit "ws://h") ≡ none) ↔ (
      (lit "ws://h" ∷ [] ≡ [])
      ⊎ ((host : Text) × (host_of (lit "ws://h") ≡ some host)
          × IsListed host_of host (lit "ws://h" ∷ [])))
validate_allowlist_iff_example = validate_allowlist_iff host_of (lit "ws://h" ∷ []) (lit "ws://h")

-- The service's part with the socket, and then with a ping under way.
abbrev with_socket : WsPart
with_socket = record (empty_app.ws) { sockets = (lit "a", 7) ∷ [] }

abbrev pinged : WsPart
pinged = (ping_async all_open (lit "a") 5000 with_socket).0

Reach-IsBalanced_example :
    count (waits 0) pinged.ping_timers + count (settles 0) pinged.settled
    ≡ (if ltb 0 pinged.next_handle then 1 else 0)
Reach-IsBalanced_example =
    Reach-IsBalanced
      (next (next start (other ((lit "a", 7) ∷ []) [] [] [] empty_app.ws))
        (asks all_open (lit "a") 5000 with_socket))
      0
