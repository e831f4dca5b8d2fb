-- ===== src/Client/LogPanel/Exports.antt =====
-- The files that the log panel saves.
use socket_tester.Base.{◌≡◌, ◌≢◌, none, some, List, [], ◌∷◌, map, Text}
use socket_tester.Log.{LogEntry, LogState, get_by_connection, export_ndjson}
use socket_tester.Log.Export.{
  split_lines, HasNoNewline, split_lines-export_ndjson, split_lines-join_lines, All-map,
}
use socket_tester.Client.LogPanel.{finish_export}

-- Read line by line, the saved file has the JSON of each entry in order: of those that the server
-- keeps for the connection where it answers, and of those that the panel showed where it does not,
-- provided that there are any and that `JSON.stringify` writes no line break.
pub finish_export_lem :
    (stringify : LogEntry → Text) (id : Text) (st : LogState) (e : LogEntry) (es : List LogEntry)
    → ((e : LogEntry) → HasNoNewline (stringify e))
    → get_by_connection id none st ≢ []
    → (split_lines
          (finish_export stringify id (e ∷ es) (some (export_ndjson stringify id st))).content
        ≡ map stringify (get_by_connection id none st))
      × (split_lines (finish_export stringify id (e ∷ es) none).content ≡ map stringify (e ∷ es))
unfolding finish_export
finish_export_lem stringify id st e es h ne = (
  split_lines-export_ndjson stringify id st h ne,
  split_lines-join_lines (stringify e) (map stringify es) (h e, All-map stringify es h),
)
