-- ===== src/Log.antt =====
-- src/log/log.service.ts: the log of each connection, bounded to the newest entries.
pub mod Routes
pub mod History
pub mod Export
use socket_tester.Base.{
  ℕ, ◌+◌, ◌-◌, Bool, true, false, Option, none, some, List, [], ◌∷◌, ◌++◌, map, length, drop,
  filter, Text, lit, default, Map, lookup, insert, delete, has, if◌then◌else◌, ltb,
}
use socket_tester.Json.{Data}

pub data LogLevel : Type 0 where
  info warn error debug : LogLevel

pub data LogDirection : Type 0 where
  inward outward : LogDirection

-- The argument of `log`, `Omit<LogEntry, 'id' | 'timestamp'>`.
pub record LogInput : Type 0 where
  pub connection_id : Text
  pub level : LogLevel
  pub event : Text
  pub direction : Option LogDirection
  pub payload : Option Text
  pub payload_size : Option ℕ
  pub latency : Option ℕ
  pub metadata : Option Data

-- The id is the text `${millis}-${serial}`.
pub record LogId : Type 0 where
  pub millis : ℕ
  pub serial : ℕ

pub record LogEntry : Type 0 where
  pub id : LogId
  pub timestamp : ℕ
  pub input : LogInput

pub record LogState : Type 0 where
  pub logs : Map (List LogEntry)
  pub counter : ℕ

abbrev pub max_per_connection : ℕ
max_per_connection = 5000

abbrev pub empty_logs : LogState
empty_logs = record { logs = []; counter = 0 }

-- `entries.splice(0, entries.length - max)` where there are more than `max`.
unfoldable pub trim : ℕ → List LogEntry → List LogEntry
trim max_entries entries =
    if ltb max_entries (length entries)
    then drop (length entries - max_entries) entries
    else entries

abbrev pub new_entry : ℕ → ℕ → LogInput → LogEntry
new_entry now serial e = record {
  id = record { millis = now; serial = serial };
  timestamp = now;
  input = e;
}

unfoldable pub log : LogInput → ℕ → LogState → LogState
log e now st =
    let logs = if has e.connection_id st.logs then st.logs else insert e.connection_id [] st.logs in
    let entries = default [] (lookup e.connection_id logs) in
    let grown = entries ++ new_entry now (st.counter + 1) e ∷ [] in
    record {
      logs = insert e.connection_id (trim max_per_connection grown) logs;
      counter = st.counter + 1;
    }

unfoldable pub level_eq : LogLevel → LogLevel → Bool
level_eq info info = true
level_eq warn warn = true
level_eq error error = true
level_eq debug debug = true
level_eq _ _ = false

unfoldable pub get_by_connection : Text → Option LogLevel → LogState → List LogEntry
get_by_connection id none st = default [] (lookup id st.logs)
get_by_connection id (some level) st =
    filter (λ e. level_eq e.input.level level) (default [] (lookup id st.logs))

-- `lines.join('\n')`
unfoldable pub join_lines : List Text → Text
join_lines [] = []
join_lines (l ∷ []) = l
join_lines (l ∷ m ∷ ls) = l ++ (10 ∷ join_lines (m ∷ ls))

-- `stringify` is `JSON.stringify`.
pub export_ndjson : (LogEntry → Text) → Text → LogState → Text
export_ndjson stringify id st = join_lines (map stringify (default [] (lookup id st.logs)))

unfoldable pub clear_by_connection : Text → LogState → LogState
clear_by_connection id st = record st { logs = insert id [] st.logs }

pub delete_by_connection : Text → LogState → LogState
delete_by_connection id st = record st { logs = delete id st.logs }
