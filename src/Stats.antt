-- ===== src/Stats.antt =====
-- src/stats/stats.service.ts: statistics of one connection and of all, computed from the sessions.
pub mod Rank
pub mod Routes
pub mod Sorting
pub mod Percentiles
pub mod Global
use socket_tester.Base.{
  ℕ, ◌+◌, ◌-◌, ◌*◌, ◌/◌, ◌≤◌, Bool, true, false, Option, none, some, List, [], ◌∷◌, map, length,
  get_elem?, filter, total, min, max, Text, lit, Map, lookup, insert, default, if◌then◌else◌, leb,
}
use socket_tester.Stats.Rank.{rank}
use socket_tester.Session.{
  ConnectionSession, ConnectionStats, ConnectionType, ConnectionStatus, websocket, socketio, mqtt,
  amqp, connected, Sessions, get, get_all,
}

-- `[...samples].sort((a, b) => a - b)`
pub insert_sorted : ℕ → List ℕ → List ℕ
insert_sorted x [] = x ∷ []
insert_sorted x (y ∷ ys) = let rest = insert_sorted x ys in if leb x y then x ∷ y ∷ ys else y ∷ rest

unfoldable pub sort : List ℕ → List ℕ
unfolding insert_sorted
sort [] = []
sort (x ∷ xs) = insert_sorted x (sort xs)

-- `-` stops at 0 as `Math.max(0, …)` does; `none` is `null`, or `undefined` past the end.
pub compute_percentile : List ℕ → ℕ → Option ℕ
unfolding sort rank
compute_percentile [] p = none
compute_percentile (x ∷ xs) p =
    let sorted = sort (x ∷ xs) in get_elem? sorted (rank p (length sorted) - 1)

-- `Math.min(...samples)` and `Math.max(...samples)`
pub min_of : List ℕ → Option ℕ
min_of [] = none
min_of (x ∷ xs) = elim (min_of xs) [ none ↦ some x | some m ↦ some (min x m) ]

pub max_of : List ℕ → Option ℕ
max_of [] = none
max_of (x ∷ xs) = elim (max_of xs) [ none ↦ some x | some m ↦ some (max x m) ]

pub record EnhancedStats : Type 0 where
  pub messages_sent : ℕ
  pub messages_received : ℕ
  pub bytes_sent : ℕ
  pub bytes_received : ℕ
  pub latency_last : Option ℕ
  pub latency_avg : Option ℕ
  pub latency_p95 : Option ℕ
  pub latency_p99 : Option ℕ
  pub latency_min : Option ℕ
  pub latency_max : Option ℕ
  pub error_count : ℕ
  pub reconnection_count : ℕ
  pub connected_at : Option ℕ
  pub connection_duration_ms : Option ℕ

abbrev pub enhance : ConnectionStats → ℕ → EnhancedStats
enhance stats now = record {
  messages_sent = stats.messages_sent;
  messages_received = stats.messages_received;
  bytes_sent = stats.bytes_sent;
  bytes_received = stats.bytes_received;
  latency_last = stats.latency_last;
  latency_avg = stats.latency_avg;
  latency_p95 = compute_percentile stats.latency_samples 95;
  latency_p99 = compute_percentile stats.latency_samples 99;
  latency_min = min_of stats.latency_samples;
  latency_max = max_of stats.latency_samples;
  error_count = stats.error_count;
  reconnection_count = stats.reconnection_count;
  connected_at = stats.connected_at;
  connection_duration_ms = elim stats.connected_at [ none ↦ none | some at ↦ some (now - at) ];
}

unfoldable pub get_enhanced_stats : Text → ℕ → Sessions → Option EnhancedStats
get_enhanced_stats id now m = elim (get id m) [
  | none ↦ none
  | some session ↦ some (enhance session.stats now)
]

pub record GlobalStats : Type 0 where
  pub total_connections : ℕ
  pub active_connections : ℕ
  pub total_messages_sent : ℕ
  pub total_messages_received : ℕ
  pub total_bytes_sent : ℕ
  pub total_bytes_received : ℕ
  pub connections_by_protocol : Map ℕ

abbrev pub is_connected : ConnectionSession → Bool
is_connected s = elim s.status [ ConnectionStatus.connected ↦ true | _ ↦ false ]

-- The strings of `ConnectionType`.
pub type_name : ConnectionType → Text
type_name websocket = lit "websocket"
type_name socketio = lit "socketio"
type_name mqtt = lit "mqtt"
type_name amqp = lit "amqp"

-- The loop over the active sessions.
pub count_protocols : Map ℕ → List ConnectionSession → Map ℕ
count_protocols by [] = by
count_protocols by (s ∷ ss) =
    count_protocols (insert (type_name s.kind) (default 0 (lookup (type_name s.kind) by) + 1) by) ss

pub get_global_stats : Sessions → GlobalStats
get_global_stats m =
    let sessions = get_all m in
    let active = filter is_connected sessions in
    record {
      total_connections = length sessions;
      active_connections = length active;
      total_messages_sent = total (λ s. s.stats.messages_sent) sessions;
      total_messages_received = total (λ s. s.stats.messages_received) sessions;
      total_bytes_sent = total (λ s. s.stats.bytes_sent) sessions;
      total_bytes_received = total (λ s. s.stats.bytes_received) sessions;
      connections_by_protocol = count_protocols [] active;
    }
