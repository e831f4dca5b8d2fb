-- ===== src/Client/LogPanel.antt =====
-- src/client/src/components/logs/LogPanel.tsx: the panel of the log. An export is divided at its
-- request; `stringify` is `JSON.stringify` of an entry and `lower` is `toLowerCase()`.
pub mod Exports
use socket_tester.Base.{
  Bool, true, false, not, Option, none, some, List, [], ◌∷◌, ◌++◌, map, take, Text, lit, truthy,
  if◌then◌else◌,
}
use socket_tester.Log.{LogEntry, LogLevel, join_lines}
use socket_tester.Client.Entries.{
  EntryState, PartialFilter, set_filter, clear_for_connection, get_filtered,
}

pub record LogPanel : Type 0 where
  pub paused : Bool
  pub show_clear : Bool

unfoldable pub shown_entries : (Text → Text) → Option Text → EntryState → List LogEntry
shown_entries lower none st = []
shown_entries lower (some id) st = if truthy id then get_filtered lower id st else []

-- The buttons of the levels, `none` for all, and the input of the search.
unfoldable pub select_level : Option LogLevel → EntryState → EntryState
select_level level = set_filter (record { level = some level; search = none })

unfoldable pub search_for : Text → EntryState → EntryState
search_for text = set_filter (record { level = none; search = some text })

unfoldable pub toggle_paused : LogPanel → LogPanel
toggle_paused p = record p { paused = not p.paused }

-- The mouse enters the list or leaves it.
unfoldable pub hover : Bool → LogPanel → LogPanel
hover inside p = record p { paused = inside }

unfoldable pub ask_clear : Bool → LogPanel → LogPanel
ask_clear shown p = record p { show_clear = shown }

unfoldable pub handle_clear : Option Text → LogPanel → EntryState → LogPanel × EntryState
handle_clear none p st = (record p { show_clear = false }, st)
handle_clear (some id) p st =
    (record p { show_clear = false }, (if truthy id then clear_for_connection id st else st))

-- A file that the browser saves.
pub record Download : Type 0 where
  pub name : Text
  pub content : Text

unfoldable pub begin_export : Option Text → Option Text
begin_export none = none
begin_export (some id) = if truthy id then some id else none

-- The answer is the server's export, none where the request failed. `shown` are the entries that the
-- panel showed when the export was asked for.
unfoldable pub finish_export : (LogEntry → Text) → Text → List LogEntry → Option Text → Download
finish_export stringify id shown answer = record {
  name = lit "logs-" ++ (take 8 id ++ lit ".ndjson");
  content = elim answer [ some ndjson ↦ ndjson | none ↦ join_lines (map stringify shown) ];
}
