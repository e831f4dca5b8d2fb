-- ===== src/Performance/Throughput.antt =====
-- The end of a throughput test, and its counts.
use socket_tester.Base.{
  ◌*◌, ℕ, ◌+◌, ◌-◌, ◌≤◌, ◌<◌, ◌≡◌, refl, none, some, List, [], ◌∷◌, ◌++◌, Bool, true, length,
  length-append, Text, arith, Bool-cases, inl, inr, ◌⊎◌,
}
use socket_tester.App.{App}
use socket_tester.WebSocket.{SendMessageDto, send_message}
use socket_tester.Performance.Guards.{finish_lem}
use socket_tester.WebSocket.Messages.{Result-cases}
use socket_tester.Performance.{
  sends_progress, ThroughputTestConfig, PerfState, TestResult, get_results, get_active_test,
}
use socket_tester.Performance.Sending.{
  SendTurn, ThroughputRun, goes_on, send_turn, throughput_loop, run_throughput_test, total_ms,
  payload_of_test, none_sent,
}

-- The clock moves on by a millisecond or more between turns.
abbrev pub IsTicking : ℕ → List SendTurn → Type 0
IsTicking now [] = Unit
IsTicking now (t ∷ ts) = (now ≤ t.now) × IsTicking (t.now + 1) ts

module _ (is_json : Text → Bool) (decode_base64 : Text → List ℕ) (max_bytes : ℕ) (id test_id : Text)
    (dto : SendMessageDto) (start duration : ℕ) where
  -- A turn counts one message, and shows the sent ones.
  abbrev Counts : ThroughputRun → ThroughputRun → Type 0
  Counts a b =
      (b.messages_sent + b.error_count ≡ a.messages_sent + a.error_count + 1)
      × (length b.events + a.messages_sent ≡ length a.events + b.messages_sent)

  send_turn-Counts :
      (t : SendTurn) (run : ThroughputRun) (app : App)
      → Counts run
          (send_turn is_json decode_base64 max_bytes id test_id dto start duration t (run, app)).0
  unfolding send_turn
  send_turn-Counts t run app =
      elim (Result-cases
        (send_message is_json decode_base64 max_bytes id dto t.accepts t.now app).1) [
          | inl (e, h) ↦ rw (h, send_turn) (omega arith, omega arith)
          | inr (u, h) ↦
              rw (h, send_turn)
                (
                  omega arith,
                  omega (
                    arith,
                    length-append run.events (
                        sends_progress test_id (run.messages_sent + 1) (t.now - start) duration
                        ∷ []),
                  ),
                )
        ]

  -- The loop has ended, by an abort or when its time was over.
  abbrev HasEnded : ThroughputRun → Type 0
  HasEnded run =
      (last : ℕ) × (aborted : Bool) × (run.ended ≡ some (last, aborted))
      × ((aborted ≡ true) ⊎ (duration ≤ last - start))
      × (run.messages_sent + run.error_count ≤ duration)
      × (length run.events ≡ run.messages_sent)

  throughput_loop-HasEnded :
      (turns : List SendTurn) (now : ℕ) (run : ThroughputRun) (app : App)
      → IsTicking now turns
      → now ≤ start + duration
      → start + duration < now + length turns
      → run.messages_sent + run.error_count + start ≤ now
      → length run.events ≡ run.messages_sent
      → HasEnded
          (throughput_loop is_json decode_base64 max_bytes id test_id dto start duration turns
            (run, app)).0
  unfolding throughput_loop
  throughput_loop-HasEnded [] now run app ticks before enough behind shown =
      absurd (omega (arith, before, enough))
  throughput_loop-HasEnded (t ∷ turns) now run app (tick, ticks) before enough behind shown =
      elim (Bool-cases (goes_on start duration t)) [
        | inl on ↦
            let (run', app') =
              send_turn is_json decode_base64 max_bytes id test_id dto start duration t
                (run, app) in
            let (counted, events) = send_turn-Counts t run app in
            rw (on, throughput_loop)
              (throughput_loop-HasEnded turns (t.now + 1) run' app' ticks (ground (arith, on))
                (omega arith) (omega arith) (omega arith))
        | inr off ↦
            rw (off, throughput_loop)
              (t.now, t.abort_requested, refl, ground (arith, off), omega arith, shown)
      ]

-- While the clock moves on between turns, a throughput test ends after at most as many turns as its
-- duration has milliseconds, 60000 at most. Its result then is complete, the messages that it counts
-- as sent or failed are no more than those turns, one progress event was shown for each sent message,
-- and the connection has no active test any more.
pub run_throughput_test_lem :
    (is_json : Text → Bool) (decode_base64 : Text → List ℕ) (max_bytes : ℕ) (id test_id : Text)
    (config : ThroughputTestConfig) (start now : ℕ) (turns : List SendTurn) (st : PerfState)
    (app : App) (r : TestResult)
    → get_results test_id st ≡ some r
    → IsTicking start turns
    → total_ms config < length turns
    → (st' : PerfState) × (app' : App) × (r' : TestResult) × (run_throughput_test is_json
          decode_base64 max_bytes id test_id config start turns now
          (st, app)
        ≡ some (st', app'))
      × (get_results test_id st' ≡ some r')
      × (r'.completed_at ≡ some now)
      × (r'.messages_sent + r'.error_count ≤ total_ms config)
      × (total_ms config ≤ 60000)
      × (length st'.events ≡ length st.events + r'.messages_sent + 1)
      × (get_active_test id st' ≡ none)
unfolding run_throughput_test
run_throughput_test_lem is_json decode_base64 max_bytes id test_id config start now turns st app r e
      ticks enough =
    let dto = payload_of_test config in
    let loop =
      throughput_loop is_json decode_base64 max_bytes id test_id dto start (total_ms config) turns
        (none_sent, app) in
    let run = loop.0 in
    let (last, aborted, ended, why, within, shown) =
      throughput_loop-HasEnded is_json decode_base64 max_bytes id test_id dto start
        (total_ms config) turns start none_sent app ticks (omega arith) (omega arith) (omega arith)
        refl in
    let (known, free, counted) =
      finish_lem id test_id
        (λ x. record x {
          messages_sent = run.messages_sent;
          error_count = run.error_count;
          aborted = aborted;
          actual_rate = some (record { top = run.messages_sent * 1000; bottom = now - start });
          completed_at = some now;
        })
        (record st { events = st.events ++ run.events }) r (unfold get_results in e) in
    rw (ended, run_throughput_test)
      (
        _,
        _,
        _,
        refl,
        known,
        refl,
        within,
        unfold total_ms in omega arith,
        omega (arith, counted, shown, length-append st.events run.events),
        free,
      )
