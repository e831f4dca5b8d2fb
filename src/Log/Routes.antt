-- ===== src/Log/Routes.antt =====
-- src/log/log.controller.ts: the routes of the log.
use socket_tester.Base.{◌++◌, Text, lit}
use socket_tester.Log.{LogEntry, LogState, export_ndjson, clear_by_connection}

-- The answer of `exportNdjson`: its two headers and its body.
pub record ExportAnswer : Type 0 where
  pub content_type : Text
  pub content_disposition : Text
  pub body : Text

unfoldable pub export_route : (LogEntry → Text) → Text → LogState → ExportAnswer
export_route stringify id st = record {
  content_type = lit "application/x-ndjson";
  content_disposition = lit "attachment; filename=\"logs-" ++ (id ++ lit ".ndjson\"");
  body = export_ndjson stringify id st;
}

-- The answer is `{ cleared: true }`.
unfoldable pub delete_route : Text → LogState → LogState
delete_route id st = clear_by_connection id st
