-- ===== src/SocketIo/Refusals.antt =====
-- src/socketio/socketio.service.ts: the error of a connection attempt, and the clean-up after it.
use socket_tester.Base.{
  ℕ, Option, none, some, [], ◌∷◌, ◌++◌, Bool, false, any, Text, lit, text_eq, truthy, default,
  delete, if◌then◌else◌,
}
use socket_tester.Json.{num, str}
use socket_tester.Session.{ConnectionStatus, update_status, record_error}
use socket_tester.App.{App, SioCall, Cleanup, on_sessions, on_sio, emit, ◌|>◌}
use socket_tester.Mqtt.{add_to_set, delete_from_set}

-- The error that the client library reports.
pub record InnerError : Type 0 where
  pub code_text : Option Text
  pub message : Option Text

pub data Description : Type 0 where
  wraps : Option InnerError → Option Text → Description
  says : Text → Description

pub record ConnectError : Type 0 where
  pub message : Option Text
  pub description : Option Description
  pub cause : Option InnerError

-- `errAny?.description?.error ?? errAny?.cause`
inner_error : ConnectError → Option InnerError
inner_error e = elim e.description [
  | none ↦ e.cause
  | some (says t) ↦ e.cause
  | some (wraps none m) ↦ e.cause
  | some (wraps (some i) m) ↦ some i
]

-- `a || b`
abbrev or_text : Option Text → Option Text → Option Text
or_text a b = if truthy (default [] a) then a else b

inner_message : ConnectError → Option Text
unfolding inner_error
inner_message e =
    or_text (elim (inner_error e) [ none ↦ none | some i ↦ i.message ])
      (elim e.description [ none ↦ none | some (says t) ↦ some t | some (wraps i m) ↦ m ])

abbrev is_refused : Option InnerError → Bool
is_refused none = false
is_refused (some i) = elim i.code_text [ none ↦ false | some c ↦ text_eq c (lit "ECONNREFUSED") ]

unfoldable pub error_text : Text → ConnectError → Text
unfolding inner_error inner_message
error_text url e =
    if is_refused (inner_error e)
    then lit "Connection refused — is the server running at " ++ (url ++ lit "?")
    else if truthy (default [] (inner_message e))
    then default (lit "Connection failed") e.message ++ (lit ": " ++ default [] (inner_message e))
    else default (lit "Connection failed") e.message

abbrev pub is_failed : Text → App → Bool
is_failed id app = any (text_eq id) app.sio.failed_connections

-- `client` is the handle that the listener captured.
unfoldable pub on_connect_error : Text → Text → ℕ → ConnectError → ℕ → App → App
on_connect_error id url client e now app =
    if is_failed id app
    then app
    else let message = error_text url e in
      app
      |> on_sio (λ p. record p { failed_connections = add_to_set id p.failed_connections })
      |> on_sessions (update_status id ConnectionStatus.error (some message) now)
      |> on_sessions (record_error id)
      |> emit id (lit "connection:error") (
          (lit "connectionId", str id)
          ∷ (lit "message", str message)
          ∷ (lit "timestamp", num now)
          ∷ [])
      |> on_sio
          (λ p. record p { cleanups = p.cleanups ++ record { owner = id; client = client } ∷ [] })

-- The clean-up, 200 ms later.
unfoldable pub clean_up : Cleanup → App → App
clean_up c = on_sio (λ p. record p {
  calls =
      p.calls ++ SioCall.unlistens c.client (lit "disconnect") ∷ SioCall.disconnects c.client ∷ [];
  clients = delete c.owner p.clients;
  subscribed_events = delete c.owner p.subscribed_events;
  failed_connections = delete_from_set c.owner p.failed_connections;
})
