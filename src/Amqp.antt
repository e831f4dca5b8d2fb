-- ===== src/Amqp.antt =====
-- src/amqp/amqp.service.ts: the AMQP proxy. What the client library and `URL` do comes as an argument;
-- each `await` that fails is an early exit.
pub mod Channel
pub mod Acks
use socket_tester.Base.{
  ℕ, ◌+◌, Option, none, some, List, [], ◌∷◌, ◌++◌, Bool, true, false, not, ◌&&◌, Text, lit, text_eq,
  truthy, default, decimal, Map, ltb, length, take, zero, suc, lookup, insert, delete, modify,
  if◌then◌else◌, is_some,
}
use socket_tester.Json.{Data, num, str, bool}
use socket_tester.ClientOptions.{Tls, ClientTls, AmqpOptions}
use socket_tester.Session.{
  ConnectionType, ConnectionStatus, connected, disconnected, close_amqp, get, create, set_close,
  update_status, record_message_sent, record_message_received, record_error,
}
use socket_tester.App.{
  App, Error, not_found, bad_request, internal, thrown, Result, ok, err, ReadyState, AmqpPart,
  AmqpState, AmqpCall, on_sessions, on_amqp, emit, ◌|>◌,
}
use socket_tester.Closing.{close_session}
use socket_tester.WebSocket.{byte_length}
use socket_tester.Mqtt.{client_tls, if_truthy}

pub record CreateAmqpConnectionDto : Type 0 where
  pub url : Text
  pub vhost : Option Text
  pub username : Option Text
  pub password : Option Text
  pub heartbeat : Option ℕ
  pub tls : Option Tls

-- The parts of a `URL` object that the service reads and writes.
pub record Url : Type 0 where
  pub username : Text
  pub password : Text
  pub pathname : Text
  -- what it leaves alone
  pub rest : Text

-- `if (given && !old) field = encodeURIComponent(given)`
abbrev fill : (Text → Text) → Option Text → Text → Text
fill encode given old =
    if truthy (default [] given) && not (truthy old) then encode (default [] given) else old

unfoldable with_credentials : (Text → Text) → CreateAmqpConnectionDto → Url → Url
with_credentials encode dto parsed = record {
  username = fill encode dto.username parsed.username;
  password = fill encode dto.password parsed.password;
  pathname =
      if truthy (default [] dto.vhost) && text_eq parsed.pathname (lit "/")
      then lit "/" ++ encode (default [] dto.vhost)
      else parsed.pathname;
  rest = parsed.rest;
}

-- Empty certificates are left out, and the default of `rejectUnauthorized` is filled in.
unfoldable socket_options : CreateAmqpConnectionDto → AmqpOptions
socket_options dto = record {
  heartbeat = default 60 dto.heartbeat;
  tls = elim dto.tls [
    | none ↦ none
    | some t ↦ some (record {
      ca = if_truthy t.ca;
      cert = if_truthy t.cert;
      key = if_truthy t.key;
      reject_unauthorized = default true t.reject_unauthorized;
    })
  ];
}

-- What `amqplib.connect` and `createChannel` gave: the handles of the connection and the channel.
pub record Connected : Type 0 where
  pub connection : ℕ
  pub channel : ℕ

module _ (parse_url : Text → Option Url) (print_url : Url → Text) (encode : Text → Text) where
  connected_state : CreateAmqpConnectionDto → Text → Url → Connected → ℕ → App → App
  connected_state dto id parsed c now app =
      app
      |> on_amqp (λ p. record p {
        calls =
            p.calls
            ++ AmqpCall.connects (print_url (with_credentials encode dto parsed))
                (socket_options dto)
              ∷ [];
        states = insert id c.connection p.states;
        objects =
            insert id
              (record {
                connection = c.connection;
                channel = c.channel;
                delivery_tags = [];
                consumer_tags = [];
              })
              p.objects;
      })
      |> on_sessions (set_close id (close_amqp c.connection))
      |> on_sessions (update_status id connected none now)
      |> emit id (lit "connection:open")
          ((lit "connectionId", str id) ∷ (lit "timestamp", num now) ∷ [])

  -- `outcome` is none where connecting or opening a channel failed.
  unfoldable create_connection :
      CreateAmqpConnectionDto → Text → Option Connected → ℕ → ℕ → App → App × Result Text
  unfolding connected_state
  create_connection dto id outcome now later app =
      let created = app |> on_sessions (create id dto.url ConnectionType.amqp now) in
      elim (parse_url dto.url) [
        | none ↦ (created, err (bad_request (lit "Invalid AMQP URL")))
        | some parsed ↦ elim outcome [
          | none ↦ (
            created
                |> on_amqp (λ p. record p {
                  calls =
                      p.calls
                      ++ AmqpCall.connects (print_url (with_credentials encode dto parsed))
                          (socket_options dto)
                        ∷ [];
                })
                |> on_sessions (update_status id ConnectionStatus.error none later),
            err (internal (lit "Failed to connect to AMQP broker")),
          )
          | some c ↦ (connected_state dto id parsed c later created, ok id)
        ]
      ]

-- `this.states.get(id)`: the state object of a connection that is in the map.
unfoldable pub state_of : Text → AmqpPart → Option AmqpState
state_of id p = elim (lookup id p.states) [ none ↦ none | some c ↦ lookup id p.objects ]

unfoldable pub on_close : Text → ℕ → App → App
on_close id now app =
    app
    |> on_sessions (update_status id disconnected none now)
    |> emit id (lit "connection:close")
        ((lit "connectionId", str id) ∷ (lit "timestamp", num now) ∷ [])

unfoldable on_error : Text → ℕ → App → App
on_error id now app =
    app
    |> on_sessions (update_status id ConnectionStatus.error none now)
    |> on_sessions (record_error id)
    |> emit id (lit "connection:error") (
        (lit "connectionId", str id)
        ∷ (lit "message", str (lit "AMQP connection error"))
        ∷ (lit "timestamp", num now)
        ∷ [])

unfoldable pub close_connection : (ℕ → ReadyState) → Text → ℕ → App → App × Result (Unit {0})
close_connection ready id now app = elim (get id app.sessions) [
  | none ↦ (app, err (not_found (lit "Connection " ++ (id ++ lit " not found"))))
  | some session ↦ (
    close_session ready id session.close app
        |> on_sessions (update_status id disconnected none now),
    ok tt,
  )
]
