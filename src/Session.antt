-- ===== src/Session.antt =====
-- src/session/session.service.ts and session.types.ts: the sessions, one for each proxy connection.
-- A session is changed in place through its entry in the map; a timestamp is its milliseconds.
pub mod Calls
pub mod Isolation
pub mod Consistency
pub mod Counters
use mathlib.Core.Option
use socket_tester.Base.{
  ℕ, ◌+◌, ◌*◌, ◌/◌, Bool, true, false, not, Option, none, some, List, [], ◌∷◌, ◌++◌, length, drop,
  total, any, filter, Text, text_eq, truthy, default, Map, lookup, insert, delete, modify, values,
  if◌then◌else◌, ltb,
}
use socket_tester.Json.{Data}

pub data ConnectionStatus : Type 0 where
  idle connecting connected disconnected error reconnecting : ConnectionStatus

pub data ConnectionType : Type 0 where
  websocket socketio mqtt amqp : ConnectionType

pub record ConnectionStats : Type 0 where
  pub messages_sent : ℕ
  pub messages_received : ℕ
  pub bytes_sent : ℕ
  pub bytes_received : ℕ
  pub latency_last : Option ℕ
  pub latency_avg : Option ℕ
  pub error_count : ℕ
  pub reconnection_count : ℕ
  pub connected_at : Option ℕ
  pub latency_samples : List ℕ

pub record Meta : Type 0 where
  pub mqtt_topics : Option (List Text)
  pub namespace : Option Text
  pub transport : Option Text

-- The closures that a service stores in `session.close`, by the variable that each captures: the
-- handle of the client library. The connection's id is the session's.
pub data CloseCallback : Type 0 where
  close_websocket close_socketio close_mqtt close_amqp : ℕ → CloseCallback

pub record Buffered : Type 0 where
  pub event : Text
  pub data_sent : Data

pub record ConnectionSession : Type 0 where
  pub id : Text
  pub url : Text
  pub kind : ConnectionType
  pub status : ConnectionStatus
  pub last_error : Option Text
  pub created_at : ℕ
  pub stats : ConnectionStats
  pub extra : Option Meta
  pub close : Option CloseCallback
  pub buffered_messages : Option (List Buffered)

abbrev pub Sessions : Type 0
Sessions = Map ConnectionSession

-- `a.push(x); if (a.length > n) a.shift();`
unfoldable pub push_shift {ℓ} : {A : Type ℓ} → ℕ → List A → A → List A
push_shift n xs x = let ys = xs ++ x ∷ [] in if ltb n (length ys) then drop 1 ys else ys

abbrev empty_stats : ConnectionStats
empty_stats = record {
  messages_sent = 0;
  messages_received = 0;
  bytes_sent = 0;
  bytes_received = 0;
  latency_last = none;
  latency_avg = none;
  error_count = 0;
  reconnection_count = 0;
  connected_at = none;
  latency_samples = [];
}

abbrev pub new_session : Text → Text → ConnectionType → ℕ → ConnectionSession
new_session id url kind now = record {
  id = id;
  url = url;
  kind = kind;
  status = connecting;
  last_error = none;
  created_at = now;
  stats = empty_stats;
  extra = none;
  close = none;
  buffered_messages = none;
}

unfoldable pub create : Text → Text → ConnectionType → ℕ → Sessions → Sessions
create id url kind now m = insert id (new_session id url kind now) m

unfoldable pub get : Text → Sessions → Option ConnectionSession
get id m = lookup id m

unfoldable pub get_all : Sessions → List ConnectionSession
get_all m = values m

unfoldable pub with_status :
    ConnectionStatus → Option Text → ℕ → ConnectionSession → ConnectionSession
with_status connected message now s = record s {
  status = connected;
  stats = record (s.stats) { connected_at = some now };
  last_error = none;
}
with_status error message now s = record s {
  status = error;
  last_error = if truthy (default [] message) then message else s.last_error;
}
with_status status message now s = record s { status = status }

unfoldable pub update_status : Text → ConnectionStatus → Option Text → ℕ → Sessions → Sessions
update_status id status message now m = modify id (with_status status message now) m

unfoldable pub with_sent : ℕ → ConnectionSession → ConnectionSession
with_sent bytes s = record s {
  stats = record (s.stats) {
    messages_sent = s.stats.messages_sent + 1;
    bytes_sent = s.stats.bytes_sent + bytes;
  };
}

unfoldable pub record_message_sent : Text → ℕ → Sessions → Sessions
record_message_sent id bytes m = modify id (with_sent bytes) m

-- `Math.round(sum / n)` at natural numbers: halves go up.
unfoldable pub round_div : ℕ → ℕ → ℕ
round_div sum n = (2 * sum + n) / (2 * n)

unfoldable pub with_latency : Option ℕ → ConnectionStats → ConnectionStats
unfolding push_shift
with_latency none t = t
with_latency (some latency) t =
    let samples = push_shift 100 t.latency_samples latency in
    record t {
      latency_last = some latency;
      latency_samples = samples;
      latency_avg = some (round_div (total (λ n. n) samples) (length samples));
    }

unfoldable pub with_received : ℕ → Option ℕ → ConnectionSession → ConnectionSession
with_received bytes latency s = record s {
  stats = with_latency latency (record (s.stats) {
    messages_received = s.stats.messages_received + 1;
    bytes_received = s.stats.bytes_received + bytes;
  });
}

unfoldable pub record_message_received : Text → ℕ → Option ℕ → Sessions → Sessions
record_message_received id bytes latency m = modify id (with_received bytes latency) m

unfoldable pub with_error : ConnectionSession → ConnectionSession
with_error s = record s { stats = record (s.stats) { error_count = s.stats.error_count + 1 } }

unfoldable pub record_error : Text → Sessions → Sessions
record_error id m = modify id with_error m

pub with_reconnection : ConnectionSession → ConnectionSession
with_reconnection s = record s {
  stats = record (s.stats) { reconnection_count = s.stats.reconnection_count + 1 };
}

pub increment_reconnection : Text → Sessions → Sessions
increment_reconnection id m = modify id with_reconnection m

unfoldable pub with_buffered : Buffered → ConnectionSession → ConnectionSession
unfolding push_shift
with_buffered b s = record s {
  buffered_messages = some (push_shift 100 (default [] s.buffered_messages) b);
}

unfoldable pub buffer_message : Text → Text → Data → Sessions → Sessions
buffer_message id event data_sent m =
    modify id (with_buffered (record { event = event; data_sent = data_sent })) m

abbrev empty_meta : Meta
empty_meta = record { mqtt_topics = none; namespace = none; transport = none }

-- `session.meta?.mqttTopics ?? []`
abbrev pub topics_of : ConnectionSession → List Text
topics_of s = elim s.extra [ none ↦ [] | some x ↦ default [] x.mqtt_topics ]

unfoldable pub with_topic : Text → ConnectionSession → ConnectionSession
with_topic topic s =
    let old = topics_of s in
    let new = if any (text_eq topic) old then old else old ++ topic ∷ [] in
    record s { extra = some (record (default empty_meta s.extra) { mqtt_topics = some new }) }

unfoldable pub add_mqtt_topic : Text → Text → Sessions → Sessions
add_mqtt_topic id topic m = modify id (with_topic topic) m

-- `if (!session?.meta?.mqttTopics) return;`
unfoldable pub drop_topic : Text → Meta → Meta
drop_topic topic x = record x {
  mqtt_topics = Option.map (filter (λ t. not (text_eq t topic))) x.mqtt_topics;
}

unfoldable pub without_topic : Text → ConnectionSession → ConnectionSession
unfolding drop_topic
without_topic topic s = record s { extra = Option.map (drop_topic topic) s.extra }

unfoldable pub remove_mqtt_topic : Text → Text → Sessions → Sessions
remove_mqtt_topic id topic m = modify id (without_topic topic) m

pub delete_session : Text → Sessions → Sessions
delete_session id m = delete id m

-- `session.close = …`, on the session object that `create` returned.
unfoldable pub with_close : CloseCallback → ConnectionSession → ConnectionSession
with_close c s = record s { close = some c }

unfoldable pub set_close : Text → CloseCallback → Sessions → Sessions
set_close id c m = modify id (with_close c) m
