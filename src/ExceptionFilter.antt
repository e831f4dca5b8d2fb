-- ===== src/ExceptionFilter.antt =====
-- src/core/all-exceptions.filter.ts: the answer to a request whose handler threw. What it logs is left
-- out.
use socket_tester.Base.{ℕ, Text, lit}
use socket_tester.App.{Error, not_found, bad_request, internal, thrown}

pub record ErrorAnswer : Type 0 where
  pub status_code : ℕ
  pub message : Text
  pub timestamp : ℕ
  pub path : Text

-- `exception instanceof HttpException ? exception.getStatus() : 500`
unfoldable pub status_of : Error → ℕ
status_of (not_found message) = 404
status_of (bad_request message) = 400
status_of (internal message) = 500
status_of thrown = 500

unfoldable pub message_of : Error → Text
message_of (not_found message) = message
message_of (bad_request message) = message
message_of (internal message) = message
message_of thrown = lit "Internal server error"

unfoldable pub catch_error : Error → Text → ℕ → ErrorAnswer
unfolding status_of message_of
catch_error e url now = record {
  status_code = status_of e;
  message = message_of e;
  timestamp = now;
  path = url;
}
