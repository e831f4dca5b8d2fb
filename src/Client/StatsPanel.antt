-- ===== src/Client/StatsPanel.antt =====
-- src/client/src/components/stats/StatsPanel.tsx: the texts of the figures, and what the panel asks the
-- server for and does with the answers. The clock between two answers is left out.
pub mod Texts
use mathlib.Core.Option
use socket_tester.Base.{
  ℕ, ◌+◌, ◌*◌, ◌/◌, ◌%◌, Bool, Option, none, some, List, [], ◌∷◌, ◌++◌, length, total, Text, lit,
  Map, lookup, truthy, decimal, ltb, if◌then◌else◌,
}
use socket_tester.Stats.{EnhancedStats, GlobalStats}
use socket_tester.Client.Series.{
  MsgBucket, ConnectionTimeSeries, StatsState, set_backend_stats, set_global_stats,
}

-- `(bytes / unit).toFixed(digits)`, of an exact quotient: the nearest multiple of 1 / scale, and of
-- two nearest the larger.
unfoldable pub rounded : ℕ → ℕ → ℕ → ℕ
rounded scale bytes unit = (2 * scale * bytes + unit) / (2 * unit)

-- `String(v).padStart(2, '0')`
unfoldable pub pad_two : ℕ → Text
pad_two n = if ltb n 10 then 48 ∷ decimal n else decimal n

-- The number of tenths of a kilobyte, and of hundredths of a megabyte.
unfoldable pub kilobytes : ℕ → Text
kilobytes tenths = decimal (tenths / 10) ++ (lit "." ++ (decimal (tenths % 10) ++ lit " KB"))

unfoldable pub megabytes : ℕ → Text
unfolding pad_two
megabytes hundredths =
    decimal (hundredths / 100) ++ (lit "." ++ (pad_two (hundredths % 100) ++ lit " MB"))

unfoldable pub format_bytes : ℕ → Text
unfolding rounded kilobytes megabytes
format_bytes bytes =
    if ltb bytes 1024
    then decimal bytes ++ lit " B"
    else if ltb bytes 1048576
    then kilobytes (rounded 10 bytes 1024)
    else megabytes (rounded 100 bytes 1048576)

-- `h`, `m` and `sec` of `formatDuration`.
pub record Clock : Type 0 where
  pub hours : ℕ
  pub minutes : ℕ
  pub seconds : ℕ

unfoldable pub clock_of : ℕ → Clock
clock_of ms =
    let s = ms / 1000 in record { hours = s / 3600; minutes = s % 3600 / 60; seconds = s % 60 }

unfoldable pub format_duration : Option ℕ → Text
unfolding clock_of pad_two
format_duration none = lit "—"
format_duration (some ms) =
    let c = clock_of ms in pad_two c.hours ++ (58 ∷ (pad_two c.minutes ++ (58 ∷ pad_two c.seconds)))

-- `backendStats?.messagesSent ?? timeSeries?.messages.reduce((a, b) => a + b.sent, 0) ?? 0`, and the
-- same of the received messages.
unfoldable pub shown_count : (EnhancedStats → ℕ) → (MsgBucket → ℕ) → Text → StatsState → ℕ
shown_count answered counted id st = elim (lookup id st.backend_stats) [
  | some stats ↦ answered stats
  | none ↦ elim (lookup id st.time_series) [
    | some series ↦ total counted series.messages
    | none ↦ 0
  ]
]

-- The connection whose figures `fetchStats` asks for beside those of all.
unfoldable pub asked : Option Text → Option Text
asked none = none
asked (some id) = if truthy id then some id else none

-- The answer for the connection. It is used as soon as it is there.
unfoldable pub on_connection_answer : Text → EnhancedStats → StatsState → StatsState × Option ℕ
on_connection_answer id stats st = (set_backend_stats id stats st, stats.connection_duration_ms)

-- `Promise.all`: the figures of all connections are stored once both requests have succeeded.
unfoldable pub on_all_answers : Option GlobalStats → Bool → StatsState → StatsState
on_all_answers none connection_succeeded st = st
on_all_answers (some stats) connection_succeeded st =
    if connection_succeeded then set_global_stats stats st else st
