-- ===== src/Client/Series.antt =====
-- src/client/src/stores/statsStore.ts: the figures behind the charts of each connection, in windows
-- of 60 seconds and 60 minutes. `now` is `Date.now()`.
pub mod Windows
pub mod Figures
use socket_tester.Base.{
  ℕ, ◌+◌, ◌/◌, Bool, true, false, Option, none, some, List, [], ◌∷◌, ◌++◌, filter, last?, init,
  last_n, Text, Map, lookup, insert, delete, default, if◌then◌else◌, ltb, ◌==◌,
}
use socket_tester.Stats.{EnhancedStats, GlobalStats}

pub record MsgBucket : Type 0 where
  pub time : ℕ
  pub sent : ℕ
  pub received : ℕ

pub record LatencyPoint : Type 0 where
  pub time : ℕ
  pub latency : ℕ

pub record ErrorBucket : Type 0 where
  pub time : ℕ
  pub errors : ℕ

pub record SizePoint : Type 0 where
  pub size : ℕ

pub record ConnectionTimeSeries : Type 0 where
  pub messages : List MsgBucket
  pub latency : List LatencyPoint
  pub errors : List ErrorBucket
  pub sizes : List SizePoint

-- The statistics that the server answers are its own types.
pub record StatsState : Type 0 where
  pub time_series : Map ConnectionTimeSeries
  pub backend_stats : Map EnhancedStats
  pub global_stats : Option GlobalStats

pub data Direction : Type 0 where
  outgoing incoming : Direction

abbrev pub empty_time_series : ConnectionTimeSeries
empty_time_series = record { messages = []; latency = []; errors = []; sizes = [] }

abbrev pub no_stats : StatsState
no_stats = record { time_series = []; backend_stats = []; global_stats = none }

module _ {B : Type 0} (time : B → ℕ) where
  -- `buckets.filter((b) => b.time > now - 60)`; the difference may be negative.
  abbrev pub recent : ℕ → List B → List B
  recent now bs = filter (λ b. ltb now (time b + 60)) bs

  -- The last bucket is changed if it is of this moment, and else a new one is appended.
  abbrev pub into_last : ℕ → (B → B) → B → List B → List B
  into_last now change new bs = elim (last? bs) [
    | none ↦ bs ++ new ∷ []
    | some b ↦ if time b == now then init bs ++ change b ∷ [] else bs ++ new ∷ []
  ]

abbrev pub sent_by : Direction → ℕ
sent_by outgoing = 1
sent_by incoming = 0

abbrev pub received_by : Direction → ℕ
received_by outgoing = 0
received_by incoming = 1

abbrev pub count_message : Direction → MsgBucket → MsgBucket
count_message d b = record b { sent = b.sent + sent_by d; received = b.received + received_by d }

abbrev pub new_bucket : ℕ → Direction → MsgBucket
new_bucket sec d = record { time = sec; sent = sent_by d; received = received_by d }

unfoldable pub put_message : ℕ → Direction → List MsgBucket → List MsgBucket
put_message sec d bs =
    into_last (λ b. b.time) sec (count_message d) (new_bucket sec d) (recent (λ b. b.time) sec bs)

unfoldable pub put_error : ℕ → List ErrorBucket → List ErrorBucket
put_error minute bs =
    into_last (λ b. b.time) minute (λ b. record b { errors = b.errors + 1 })
      (record { time = minute; errors = 1 }) (recent (λ b. b.time) minute bs)

unfoldable pub put_latency : ℕ → Option ℕ → List LatencyPoint → List LatencyPoint
put_latency now none points = points
put_latency now (some l) points = last_n 100 (points ++ record { time = now; latency = l } ∷ [])

unfoldable pub put_size : ℕ → List SizePoint → List SizePoint
put_size n sizes = last_n 1000 (sizes ++ record { size = n } ∷ [])

unfoldable pub get_time_series : Text → StatsState → ConnectionTimeSeries
get_time_series id st = default empty_time_series (lookup id st.time_series)

-- `timeSeries[id]` once a message is recorded.
unfoldable pub with_message :
    Direction → ℕ → Option ℕ → ℕ → ConnectionTimeSeries → ConnectionTimeSeries
with_message d n l now ts = record {
  messages = put_message (now / 1000) d ts.messages;
  latency = put_latency now l ts.latency;
  errors = ts.errors;
  sizes = put_size n ts.sizes;
}

unfoldable pub with_error : ℕ → ConnectionTimeSeries → ConnectionTimeSeries
with_error now ts = record ts { errors = put_error (now / 60000) ts.errors }

unfoldable pub record_message : Text → Direction → ℕ → Option ℕ → ℕ → StatsState → StatsState
record_message id d n l now st = record st {
  time_series = insert id (with_message d n l now (get_time_series id st)) st.time_series;
}

unfoldable pub record_error : Text → ℕ → StatsState → StatsState
record_error id now st = record st {
  time_series = insert id (with_error now (get_time_series id st)) st.time_series;
}

unfoldable pub set_backend_stats : Text → EnhancedStats → StatsState → StatsState
set_backend_stats id stats st = record st { backend_stats = insert id stats st.backend_stats }

unfoldable pub set_global_stats : GlobalStats → StatsState → StatsState
set_global_stats stats st = record st { global_stats = some stats }

unfoldable pub clear_connection : Text → StatsState → StatsState
clear_connection id st = record st {
  time_series = delete id st.time_series;
  backend_stats = delete id st.backend_stats;
}
