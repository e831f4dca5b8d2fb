-- ===== src/Performance/Latency.antt =====
-- What a latency test ends with.
use socket_tester.Base.{
  ℕ, zero, suc, ◌+◌, ◌-◌, ◌≤◌, ◌<◌, ◌≡◌, ◌⊎◌, refl, inl, inr, none, some, [], ◌∷◌, ◌++◌, true,
  false, length, length-append, Text, arith, Option-cases, Bool-cases, ltb, if◌then◌else◌,
}
use socket_tester.Performance.Guards.{finish_lem}
use socket_tester.Performance.{
  LatencyTestConfig, rounds_of, PingTurn, LatencyRun, pings_progress, latency_loop, start_run,
  PerfState, TestResult, run_latency_test, get_results, get_active_test, interval_of, summarize,
  add_latency, abort_run,
}

-- A run after `i` turns that was not aborted has one latency and one event for each, and waited
-- between them.
abbrev HasDone : ℕ → ℕ → LatencyRun → Type 0
HasDone rounds i run =
    (length run.latencies ≡ i)
    × (length run.events ≡ i)
    × (length run.waits ≡ (if ltb i rounds then i else rounds - 1))
    × (run.aborted ≡ false)

-- The outcome: all rounds, or fewer and aborted, with one event for each pong.
abbrev HasEnded : ℕ → LatencyRun → Type 0
HasEnded rounds run =
    (length run.events ≡ length run.latencies)
    × ((run.aborted ≡ false) × (length run.latencies ≡ rounds) × (length run.waits ≡ rounds - 1)
        ⊎ (run.aborted ≡ true)
          × (length run.latencies < rounds)
          × (length run.waits ≡ length run.latencies))

add_latency-HasDone :
    (test_id : Text) (rounds interval i ms : ℕ) (run : LatencyRun)
    → i < rounds
    → HasDone rounds i run
    → HasDone rounds (suc i) (add_latency test_id rounds interval i ms run)
add_latency-HasDone test_id rounds interval i ms run h (a, b, c, d) = (
  ground (arith, length-append run.latencies (ms ∷ [])),
  ground (arith, length-append run.events (pings_progress test_id (i + 1) rounds ms ∷ [])),
  ground (arith, length-append run.waits (interval ∷ [])),
  d,
)

latency_loop-HasEnded :
    (test_id : Text) (rounds interval : ℕ) (turn : ℕ → PingTurn) (left i : ℕ) (run : LatencyRun)
    → left + i ≡ rounds
    → 0 < rounds
    → HasDone rounds i run
    → HasEnded rounds (latency_loop test_id rounds interval turn left i run)
unfolding latency_loop
latency_loop-HasEnded test_id rounds interval turn zero i run e pos (a, b, c, d) =
    (ground arith, inl (d, ground arith, ground arith))
latency_loop-HasEnded test_id rounds interval turn (suc left) i run e pos (a, b, c, d) =
    elim (Bool-cases (turn i).abort_requested) [
      | inl stop ↦ rw (stop, latency_loop) stopped
      | inr on ↦
          rw (on, latency_loop)
            (elim (Option-cases (turn i).pong) [
              | inl lost ↦ rw lost stopped
              | inr (ms, got) ↦ rw got (
                  latency_loop-HasEnded test_id rounds interval turn left (suc i)
                    (add_latency test_id rounds interval i ms run) (omega arith) pos
                    (add_latency-HasDone test_id rounds interval i ms run (omega arith)
                      (a, b, c, d)))
            ])
    ]
  where
    stopped : HasEnded rounds (abort_run run)
    stopped = (ground arith, inr (refl, ground arith, ground arith))

-- A latency test comes to an end whatever its pings do. Its result then is complete, and has either a
-- latency for each of the 1 to 1000 rounds, or fewer and the mark that it was aborted; the connection
-- has no active test any more, and the average is over the latencies that it shows.
pub run_latency_test_lem :
    (id test_id : Text) (config : LatencyTestConfig) (turn : ℕ → PingTurn) (now : ℕ)
    (st : PerfState) (r : TestResult)
    → get_results test_id st ≡ some r
    → let st' = run_latency_test id test_id config turn now st in
      (r' : TestResult) × (get_results test_id st' ≡ some r')
      × (r'.completed_at ≡ some now)
      × ((r'.aborted ≡ false) × (length r'.latencies ≡ rounds_of config)
          ⊎ (r'.aborted ≡ true) × (length r'.latencies < rounds_of config))
      × (1 ≤ rounds_of config)
      × (rounds_of config ≤ 1000)
      × (r'.summary ≡ summarize r'.latencies)
      × (get_active_test id st' ≡ none)
unfolding run_latency_test
run_latency_test_lem id test_id config turn now st r e =
    let bound : (1 ≤ rounds_of config) × (rounds_of config ≤ 1000) =
      unfold rounds_of in (omega arith, omega arith) in
    let run =
      latency_loop test_id (rounds_of config) (interval_of config) turn (rounds_of config) 0
        start_run in
    let ended =
      latency_loop-HasEnded test_id (rounds_of config) (interval_of config) turn (rounds_of config)
        0 start_run (omega arith) bound.0 (refl, refl, ground (arith, bound), refl) in
    let (known, free, counted) =
      finish_lem id test_id _ (record st { events = st.events ++ run.events }) r
        (unfold get_results in e) in
    (
      _,
      known,
      refl,
      elim ended.1 [ inl (a, b, c) ↦ inl (a, b) | inr (a, b, c) ↦ inr (a, b) ],
      bound.0,
      bound.1,
      refl,
      free,
    )
