-- ===== src/WebSocket.antt =====
-- src/websocket/websocket.service.ts: the WebSocket proxy. An operation returns the new state, also
-- where it throws. A handler reads the clock once, as `now`; the clock does not go back.
pub mod Allowlist
pub mod Handlers
pub mod Messages
pub mod Closes
pub mod Replayed
pub mod Pinging
use socket_tester.Base.{
  decimal, leb, ◌&&◌, ℕ, ◌+◌, ◌-◌, Option, none, some, List, [], ◌∷◌, ◌++◌, Bool, true, false, not,
  Text, lit, text_eq, starts_with, length, take, default, Map, lookup, insert, if◌then◌else◌, ltb,
  ◌==◌, filter,
}
use socket_tester.Json.{Data, num, str, null, num_or_null}
use socket_tester.Session.{
  ConnectionType, CloseCallback, close_websocket, ConnectionStatus, disconnected, get, create,
  set_close, update_status, record_message_sent,
}
use socket_tester.Log.{LogInput, LogLevel, LogDirection, info, debug, inward, outward}
use socket_tester.App.{
  App, Error, not_found, bad_request, thrown, Result, ok, err, ReadyState, open_state, Payload,
  text, binary, WsPart, WsCall, PingResolver, PingTimer, Settled, rejected, on_sessions, on_ws,
  emit, write_log, ◌|>◌,
}
use socket_tester.Closing.{ping_key, close_session}

pub record CreateWebSocketConnectionDto : Type 0 where
  pub url : Text
  pub headers : Option (Map Text)
  pub protocols : Option (List Text)

pub data MessageType : Type 0 where
  json_message binary_message text_message : MessageType

pub record SendMessageDto : Type 0 where
  pub payload : Text
  pub kind : MessageType

-- `entry.startsWith('ws') ? entry : `ws://${entry}``
unfoldable pub entry_url : Text → Text
entry_url entry = if starts_with entry (lit "ws") then entry else lit "ws://" ++ entry

-- What `validateAllowlist` throws for what the loop over the allowlist found.
pub verdict : Option Bool → Option Error
verdict none = some (bad_request (lit "Invalid URL"))
verdict (some true) = none
verdict (some false) = some (bad_request (lit "Target URL is not in the proxy allowlist"))

module _ (host_of : Text → Option Text) where
  -- The loop of `some` over the allowlist; `none` where `new URL(…)` throws.
  pub some_allowed : Text → List Text → Option Bool
  some_allowed host [] = some false
  some_allowed host (entry ∷ entries) =
      let rest = some_allowed host entries in
      elim (host_of (entry_url entry)) [
        | none ↦ none
        | some allowed_host ↦ if text_eq host allowed_host then some true else rest
      ]

  -- `host_of url` is `new URL(url).hostname`, and `none` where that throws. The result is the
  -- exception, if there is one.
  pub validate_allowlist : List Text → Text → Option Error
  validate_allowlist [] url = none
  validate_allowlist (entry ∷ entries) url = elim (host_of url) [
    | none ↦ some (bad_request (lit "Invalid URL"))
    | some host ↦ verdict (some_allowed host (entry ∷ entries))
  ]

-- `if (dto.headers && Object.keys(dto.headers).length > 0) wsOptions.headers = dto.headers`
abbrev headers_of : CreateWebSocketConnectionDto → Map Text
headers_of dto = default [] dto.headers

-- `id` is the new UUID; `socket` is the handle of the new socket, `none` where its constructor throws.
unfoldable create_connection :
    (Text → Option Text)
    → List Text
    → CreateWebSocketConnectionDto
    → Text
    → Option ℕ
    → ℕ
    → App
    → App × Result Text
create_connection host_of allowlist dto id socket now app =
    elim (validate_allowlist host_of allowlist dto.url) [
      | some e ↦ (app, err e)
      | none ↦ elim socket [
        | none ↦ (app |> on_sessions (create id dto.url ConnectionType.websocket now), err thrown)
        | some handle ↦ (
          app
              |> on_sessions (create id dto.url ConnectionType.websocket now)
              |> on_ws (λ w. record w {
                calls =
                    w.calls
                    ++ WsCall.opens handle dto.url (default [] dto.protocols) (headers_of dto) ∷ [];
                sockets = insert id handle w.sockets;
              })
              |> on_sessions (set_close id (close_websocket handle)),
          ok id,
        )
      ]
    ]

abbrev is_high_surrogate : ℕ → Bool
is_high_surrogate c = leb 0xd800 c && ltb c 0xdc00

abbrev is_low_surrogate : ℕ → Bool
is_low_surrogate c = leb 0xdc00 c && ltb c 0xe000

-- `Buffer.byteLength` of a string: its UTF-8 size. A lone surrogate is written as U+FFFD.
unfoldable pub byte_length : Text → ℕ
byte_length [] = 0
byte_length (c ∷ []) = if ltb c 0x80 then 1 else if ltb c 0x800 then 2 else 3
byte_length (c ∷ d ∷ s) =
    let rest = byte_length (d ∷ s) in
    let after_pair = byte_length s in
    if ltb c 0x80
    then 1 + rest
    else if ltb c 0x800
    then 2 + rest
    else if is_high_surrogate c && is_low_surrogate d
    then 4 + after_pair
    else 3 + rest

abbrev pub payload_size : Payload → ℕ
payload_size (text s) = byte_length s
payload_size (binary bytes) = length bytes

abbrev message_log : Text → LogDirection → Text → ℕ → Option ℕ → LogInput
message_log id direction payload size latency = record {
  connection_id = id;
  level = debug;
  event = lit "ws:message";
  direction = some direction;
  payload = some (take 500 payload);
  payload_size = some size;
  latency = latency;
  metadata = none;
}

abbrev type_text : MessageType → Text
type_text json_message = lit "json"
type_text binary_message = lit "binary"
type_text text_message = lit "text"

abbrev pub sent_data : Text → SendMessageDto → ℕ → ℕ → Data
sent_data id dto size now =
    (lit "connectionId", str id)
    ∷ (lit "payload", str dto.payload)
    ∷ (lit "timestamp", num now)
    ∷ (lit "direction", str (lit "sent"))
    ∷ (lit "size", num size)
    ∷ (lit "type", str (type_text dto.kind))
    ∷ []

-- `is_json` says whether `JSON.parse` returns, and `decode_base64` is `Buffer.from(…, 'base64')`.
module _ (is_json : Text → Bool) (decode_base64 : Text → List ℕ) where
  unfoldable pub payload_of : SendMessageDto → Result Payload
  payload_of dto = elim dto.kind [
    | json_message ↦
        if is_json dto.payload
        then ok (text dto.payload)
        else err (bad_request (lit "Invalid JSON payload"))
    | binary_message ↦ ok (binary (decode_base64 dto.payload))
    | text_message ↦ ok (text dto.payload)
  ]

  -- `accepts` says whether `ws.send` returns; it throws while the socket is connecting.
  unfoldable pub send_message : ℕ → Text → SendMessageDto → Bool → ℕ → App → App × Result (Unit {0})
  send_message max_payload_bytes id dto accepts now app = elim (lookup id app.ws.sockets) [
    | none ↦ (app, err (not_found (lit "Connection not found: " ++ id)))
    | some handle ↦ elim (payload_of dto) [
      | err e ↦ (app, err e)
      | ok payload ↦
          let size = payload_size payload in
          let stamped =
            app |> on_ws (λ w. record w { ping_timestamps = insert id now w.ping_timestamps }) in
          if ltb max_payload_bytes size
          then (
            app,
            err (
                bad_request (
                  lit "Payload exceeds maximum size of "
                  ++ (decimal max_payload_bytes ++ lit " bytes"))),
          )
          else if not accepts
          then (stamped, err thrown)
          else (
            stamped
                |> on_ws (λ w. record w { calls = w.calls ++ WsCall.sends handle payload ∷ [] })
                |> on_sessions (record_message_sent id size)
                |> write_log (message_log id outward dto.payload size none) now
                |> emit id (lit "connection:message") (sent_data id dto size now),
            ok tt,
          )
    ]
  ]

unfoldable send_ping : Text → ℕ → Bool → App → App × Result (Unit {0})
send_ping id now accepts app = elim (lookup id app.ws.sockets) [
  | none ↦ (app, err (not_found (lit "Connection not found: " ++ id)))
  | some handle ↦
      let stamped =
        app
        |> on_ws (λ w. record w { ping_timestamps = insert (ping_key id) now w.ping_timestamps }) in
      if accepts
      then (stamped |> on_ws (λ w. record w { calls = w.calls ++ WsCall.pings handle ∷ [] }), ok tt)
      else (stamped, err thrown)
]

pub close_connection : (ℕ → ReadyState) → Text → ℕ → App → App × Result (Unit {0})
close_connection ready id now app = elim (get id app.sessions) [
  | none ↦ (app, err (not_found (lit "Connection not found: " ++ id)))
  | some session ↦ (
    close_session ready id session.close app
        |> on_sessions (update_status id disconnected none now),
    ok tt,
  )
]

unfoldable get_socket : Text → WsPart → Option ℕ
get_socket id w = lookup id w.sockets
