-- ===== src/Tests/Logs.antt =====
-- The log at a short history.
use socket_tester.Base.{
  ◌≡◌, ◌≢◌, none, List, [], ◌∷◌, Text, lit, text_eq, lookup, insert, last_n, arith,
}
use socket_tester.Log.{
  trim, LogInput, LogEntry, info, log, empty_logs, max_per_connection, get_by_connection,
  clear_by_connection,
}
use socket_tester.Log.History.{Call, logs, clears, step, run, recorded, get_by_connection-run}
use socket_tester.Log.Export.{HasNoNewline}

abbrev opened : Text → LogInput
opened id = record {
  connection_id = id;
  level = info;
  event = lit "connection:open";
  direction = none;
  payload = none;
  payload_size = none;
  latency = none;
  metadata = none;
}

abbrev history : List Call
history =
    logs (opened (lit "a")) 10
    ∷ logs (opened (lit "b")) 11
    ∷ clears (lit "a")
    ∷ logs (opened (lit "a")) 12
    ∷ logs (opened (lit "a")) 13
    ∷ []

get_by_connection-run_example :
    get_by_connection (lit "a") none (run empty_logs history)
    ≡ last_n max_per_connection (recorded (lit "a") [] 0 history)
get_by_connection-run_example = get_by_connection-run (lit "a") history

-- One letter for each entry.
abbrev stringify : LogEntry → Text
stringify e = lit "{}"

stringify-HasNoNewline : (e : LogEntry) → HasNoNewline (stringify e)
unfolding lit
stringify-HasNoNewline e = ((λ h. omega arith), ((λ h. omega arith), tt))

has_entries : get_by_connection (lit "a") none (run empty_logs history) ≢ []
unfolding run step log get_by_connection clear_by_connection lookup insert text_eq lit trim
has_entries e = ground arith
