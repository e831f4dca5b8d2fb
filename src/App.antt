-- ===== src/App.antt =====
-- The state of the backend process: the stores of its services, and what it has done to the world.
-- Each client library is known by the handles that it gave out and by the calls that were made.
use socket_tester.Base.{Bool, ℕ, List, [], Option, Text, Map}
use socket_tester.Json.{Data, Value}
use socket_tester.ClientOptions.{MqttOptions, SioOptions, AmqpOptions}
use socket_tester.Session.{Sessions}
use socket_tester.Log.{LogState, LogInput, empty_logs, log}
use socket_tester.Network.{NetworkState, no_network, Fraction}
use socket_tester.Gateway.{Emission, emit_to_connection}

-- An exception: the HTTP exceptions of the framework, or one that a library throws.
pub data Error : Type 0 where
  not_found bad_request internal : Text → Error
  thrown : Error

pub data Result {ℓ} (A : Type ℓ) : Type ℓ where
  ok : A → Result A
  err : Error → Result A

-- `ws.readyState`
pub data ReadyState : Type 0 where
  connecting open_state closing closed : ReadyState

pub data Payload : Type 0 where
  text : Text → Payload
  binary : List ℕ → Payload

pub data WsCall : Type 0 where
  opens : ℕ → Text → List Text → Map Text → WsCall
  sends : ℕ → Payload → WsCall
  pings : ℕ → WsCall
  closes : ℕ → ℕ → Text → WsCall

-- `PingResolver`: the promise stands for `resolve` and `reject`.
pub record PingResolver : Type 0 where
  pub start_ts : ℕ
  pub promise : ℕ
  pub timer : ℕ

pub data Settled : Type 0 where
  resolved : ℕ → ℕ → Settled
  rejected : ℕ → Text → Settled

-- A pending timeout of `pingAsync`.
pub record PingTimer : Type 0 where
  pub handle : ℕ
  pub owner : Text
  pub promise : ℕ

-- A received message whose delay is running: the captured variables of the `.then` callback.
pub record Delivery : Type 0 where
  pub owner : Text
  pub payload : Text
  pub size : ℕ
  pub latency : Option ℕ
  pub wait : Option Fraction

pub record WsPart : Type 0 where
  pub sockets : Map ℕ
  pub ping_timestamps : Map ℕ
  pub ping_resolvers : Map PingResolver
  -- the runtime's side
  pub calls : List WsCall
  pub settled : List Settled
  pub ping_timers : List PingTimer
  pub deliveries : List Delivery
  pub next_handle : ℕ

pub data SioCall : Type 0 where
  connects : ℕ → Text → SioOptions → SioCall
  emits : ℕ → Text → Value → SioCall
  emits_ack : ℕ → Text → Value → SioCall
  listens : ℕ → Text → SioCall
  unlistens : ℕ → Text → SioCall
  disconnects : ℕ → SioCall

-- A pending clean-up of a failed connection.
pub record Cleanup : Type 0 where
  pub owner : Text
  pub client : ℕ

pub record SioPart : Type 0 where
  pub clients : Map ℕ
  pub subscribed_events : Map (List Text)
  pub failed_connections : List Text
  -- the runtime's side
  pub calls : List SioCall
  pub cleanups : List Cleanup

pub data MqttCall : Type 0 where
  connects : ℕ → Text → MqttOptions → MqttCall
  subscribes : ℕ → Text → ℕ → MqttCall
  unsubscribes : ℕ → Text → MqttCall
  publishes : ℕ → Text → Text → ℕ → Bool → MqttCall
  ends : ℕ → MqttCall

pub record MqttPart : Type 0 where
  pub clients : Map ℕ
  pub subscribed_topics : Map (List Text)
  -- the runtime's side
  pub calls : List MqttCall

pub record AmqpState : Type 0 where
  pub connection : ℕ
  pub channel : ℕ
  pub delivery_tags : Map ℕ
  pub consumer_tags : List Text

pub data AmqpCall : Type 0 where
  connects : Text → AmqpOptions → AmqpCall
  asserts_exchange : ℕ → Text → Text → Bool → Bool → AmqpCall
  asserts_queue : ℕ → Text → Bool → Bool → AmqpCall
  binds_queue : ℕ → Text → Text → Text → AmqpCall
  consumes : ℕ → Text → Bool → AmqpCall
  acks : ℕ → ℕ → Bool → AmqpCall
  nacks : ℕ → ℕ → Bool → Bool → AmqpCall
  publishes : ℕ → Text → Text → Text → AmqpCall
  cancels : ℕ → Text → AmqpCall
  closes_channel closes_connection : ℕ → AmqpCall

-- `states` maps a connection to its state object, known by the connection's handle. The objects, by
-- connection id, outlive their entry: closures hold them.
pub record AmqpPart : Type 0 where
  pub states : Map ℕ
  pub objects : Map AmqpState
  -- the runtime's side
  pub calls : List AmqpCall

pub record App : Type 0 where
  pub sessions : Sessions
  pub logs : LogState
  pub network : NetworkState
  pub emitted : List Emission
  pub ws : WsPart
  pub sio : SioPart
  pub mqtt : MqttPart
  pub amqp : AmqpPart

abbrev pub empty_app : App
empty_app = record {
  sessions = [];
  logs = empty_logs;
  network = no_network;
  emitted = [];
  ws = record {
    sockets = [];
    ping_timestamps = [];
    ping_resolvers = [];
    calls = [];
    settled = [];
    ping_timers = [];
    deliveries = [];
    next_handle = 0;
  };
  sio = record {
    clients = [];
    subscribed_events = [];
    failed_connections = [];
    calls = [];
    cleanups = [];
  };
  mqtt = record { clients = []; subscribed_topics = []; calls = [] };
  amqp = record { states = []; objects = []; calls = [] };
}

-- One step of a handler, in the order of its lines: `app |> f |> g`.
infixl 6 ◌|>◌
abbrev pub ◌|>◌ {ℓ} : {B : Type ℓ} → App → (App → B) → B
app |> f = f app

-- The calls that handlers make on the shared services.
abbrev pub on_sessions : (Sessions → Sessions) → App → App
on_sessions f app = record app { sessions = f app.sessions }

abbrev pub on_network : (NetworkState → NetworkState) → App → App
on_network f app = record app { network = f app.network }

abbrev pub emit : Text → Text → Data → App → App
emit id event sent app = record app { emitted = emit_to_connection id event sent app.emitted }

abbrev pub write_log : LogInput → ℕ → App → App
write_log e now app = record app { logs = log e now app.logs }

abbrev pub on_ws : (WsPart → WsPart) → App → App
on_ws f app = record app { ws = f app.ws }

abbrev pub on_sio : (SioPart → SioPart) → App → App
on_sio f app = record app { sio = f app.sio }

abbrev pub on_mqtt : (MqttPart → MqttPart) → App → App
on_mqtt f app = record app { mqtt = f app.mqtt }

abbrev pub on_amqp : (AmqpPart → AmqpPart) → App → App
on_amqp f app = record app { amqp = f app.amqp }
