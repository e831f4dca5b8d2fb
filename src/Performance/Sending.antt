-- ===== src/Performance/Sending.antt =====
-- src/performance/performance.service.ts: the loop of a throughput test.
use socket_tester.Base.{
  ℕ, zero, suc, ◌+◌, ◌-◌, ◌*◌, min, max, Option, none, some, List, [], ◌∷◌, ◌++◌, Bool, true, false,
  not, ◌&&◌, ltb, Text,
}
use socket_tester.Network.{Fraction}
use socket_tester.App.{App, ok, err}
use socket_tester.WebSocket.{SendMessageDto, text_message, send_message}
use socket_tester.Performance.{ThroughputTestConfig, PerfEvent, PerfState, finish, sends_progress}

-- `'x'.repeat(n)`
abbrev repeat_x : ℕ → Text
repeat_x zero = []
repeat_x (suc n) = 120 ∷ repeat_x n

-- `1000 / Math.max(1, config.messagesPerSecond)`
unfoldable ms_per_message : ThroughputTestConfig → Fraction
ms_per_message config = record { top = 1000; bottom = max 1 config.messages_per_second }

unfoldable pub total_ms : ThroughputTestConfig → ℕ
total_ms config = min 60 (max 1 config.duration_seconds) * 1000

unfoldable pub payload_length : ThroughputTestConfig → ℕ
payload_length config = min (max config.payload_size 1) 65536

unfoldable pub payload_of_test : ThroughputTestConfig → SendMessageDto
payload_of_test config = record { payload = repeat_x (payload_length config); kind = text_message }

-- One turn of the throughput loop: whether an abort was requested before it, the clock, whether the
-- socket accepts the message, and what happens elsewhere while the turn waits.
pub record SendTurn : Type 0 where
  pub abort_requested : Bool
  pub now : ℕ
  pub accepts : Bool
  pub meanwhile : App → App

pub record ThroughputRun : Type 0 where
  pub messages_sent : ℕ
  pub error_count : ℕ
  pub events : List PerfEvent
  -- the loop has ended: the end of the last turn, if it has, and whether by an abort
  pub ended : Option (ℕ × Bool)

abbrev count_sent : Text → ℕ → ℕ → ThroughputRun → ThroughputRun
count_sent test_id elapsed duration run = record run {
  messages_sent = run.messages_sent + 1;
  events = run.events ++ sends_progress test_id (run.messages_sent + 1) elapsed duration ∷ [];
}

abbrev count_error : ThroughputRun → ThroughputRun
count_error run = record run { error_count = run.error_count + 1 }

abbrev pub none_sent : ThroughputRun
none_sent = record { messages_sent = 0; error_count = 0; events = []; ended = none }

-- `while (!activeTest.abortRequested && Date.now() - startTime < totalMs)`
abbrev pub goes_on : ℕ → ℕ → SendTurn → Bool
goes_on start duration t = not t.abort_requested && ltb (t.now - start) duration

module _ (is_json : Text → Bool) (decode_base64 : Text → List ℕ) (max_bytes : ℕ) where
  -- The body of a turn: one message, counted as sent or as an error.
  unfoldable pub send_turn :
      Text → Text → SendMessageDto → ℕ → ℕ → SendTurn → ThroughputRun × App → ThroughputRun × App
  send_turn id test_id dto start duration t (run, app) =
      let sent = send_message is_json decode_base64 max_bytes id dto t.accepts t.now app in
      elim (sent.1) [
        | ok u ↦ (count_sent test_id (t.now - start) duration run, t.meanwhile sent.0)
        | err e ↦ (count_error run, t.meanwhile sent.0)
      ]

  -- Without turns the loop is still running.
  unfoldable pub throughput_loop :
      Text
      → Text
      → SendMessageDto
      → ℕ
      → ℕ
      → List SendTurn
      → ThroughputRun × App
      → ThroughputRun × App
  throughput_loop id test_id dto start duration [] at = at
  throughput_loop id test_id dto start duration (t ∷ turns) at = elim (goes_on start duration t) [
    | true ↦
        throughput_loop id test_id dto start duration turns
          (send_turn id test_id dto start duration t at)
    | false ↦ (record (at.0) { ended = some (t.now, t.abort_requested) }, at.1)
  ]

  -- `none` where the loop is still running. `elapsed` is in milliseconds.
  unfoldable pub run_throughput_test :
      Text
      → Text
      → ThroughputTestConfig
      → ℕ
      → List SendTurn
      → ℕ
      → PerfState × App
      → Option (PerfState × App)
  unfolding finish
  run_throughput_test id test_id config start turns now (st, app) =
      let (run, app') =
        throughput_loop id test_id (payload_of_test config) start (total_ms config) turns
          (none_sent, app) in
      elim run.ended [
        | none ↦ none
        | some (last, aborted) ↦ some (
          finish id test_id
              (λ r. record r {
                messages_sent = run.messages_sent;
                error_count = run.error_count;
                aborted = aborted;
                actual_rate =
                    some (record { top = run.messages_sent * 1000; bottom = now - start });
                completed_at = some now;
              })
              (record st { events = st.events ++ run.events }),
          app',
        )
      ]
