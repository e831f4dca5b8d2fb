-- ===== src/Tests/PerfTests.antt =====
-- Tests of one connection's performance.
use socket_tester.Base.{
  ℕ, ◌+◌, ◌≤◌, ◌<◌, ◌≡◌, ◌⊎◌, refl, zero, suc, none, some, List, [], ◌∷◌, Bool, true, false, length,
  Text, lit, text_eq, lookup, arith,
}
use socket_tester.Session.{ConnectionSession, websocket, Sessions, new_session, get}
use socket_tester.App.{App, ok, err, bad_request, empty_app}
use socket_tester.Performance.{
  LatencyTestConfig, ThroughputTestConfig, latency_test, throughput_test, TestResult, PerfState,
  empty_perf, new_result, start_test, abort_test, finish, PingTurn, rounds_of, run_latency_test,
  summarize, get_results, get_active_test,
}
use socket_tester.Performance.Sending.{SendTurn, total_ms, run_throughput_test}
use socket_tester.Performance.Guards.{aborts, start_test_again}
use socket_tester.Performance.Latency.{run_latency_test_lem}
use socket_tester.Performance.Throughput.{IsTicking, run_throughput_test_lem}

abbrev session : ConnectionSession
session = new_session (lit "a") (lit "ws://h") websocket 1000

abbrev one_session : Sessions
one_session = (lit "a", session) ∷ []

found_session : get (lit "a") one_session ≡ some session
unfolding get lookup text_eq lit
found_session = refl

idle_at_first : get_active_test (lit "a") empty_perf ≡ none
unfolding get_active_test lookup
idle_at_first = refl

abbrev unchanged : TestResult → TestResult
unchanged r = r

start_test_again_example :
    let started = start_test latency_test (lit "a") (lit "t1") 1000 one_session empty_perf in
    let running = aborts 0 (lit "a") started.0 in
    (started.1 ≡ ok (lit "t1"))
    × (get_active_test (lit "a") running ≡ some (lit "t1"))
    × ((abort_test (lit "a") running).1 ≡ true)
    × (start_test throughput_test (lit "a") (lit "t2") 1100 one_session running
        ≡ (running, err (bad_request (lit "A test is already running for this connection"))))
    × ((start_test throughput_test
          (lit "a")
          (lit "t2")
          1100
          one_session
          (finish (lit "a") (lit "t1") unchanged running)).1
        ≡ ok (lit "t2"))
start_test_again_example =
    start_test_again 0 (lit "a") (lit "t1") (lit "t2") latency_test throughput_test 1000 1100
      one_session unchanged empty_perf session found_session refl idle_at_first

abbrev new : TestResult
new = new_result (lit "t1") (lit "a") latency_test 1000

abbrev started : PerfState
started = record empty_perf { results = (lit "t1", new) ∷ [] }

found_new : get_results (lit "t1") started ≡ some new
unfolding get_results lookup text_eq lit
found_new = refl

abbrev three_rounds : LatencyTestConfig
three_rounds = record { rounds = 3; interval_ms = none }

-- The third ping is lost.
abbrev turns : ℕ → PingTurn
turns i = record {
  abort_requested = false;
  pong = elim i [ zero ↦ some 20 | suc zero ↦ some 10 | suc (suc j) ↦ none ];
}

run_latency_test_lem_example :
    let st' = run_latency_test (lit "a") (lit "t1") three_rounds turns 2000 started in
    (r' : TestResult) × (get_results (lit "t1") st' ≡ some r')
    × (r'.completed_at ≡ some 2000)
    × ((r'.aborted ≡ false) × (length r'.latencies ≡ rounds_of three_rounds)
        ⊎ (r'.aborted ≡ true) × (length r'.latencies < rounds_of three_rounds))
    × (1 ≤ rounds_of three_rounds)
    × (rounds_of three_rounds ≤ 1000)
    × (r'.summary ≡ summarize r'.latencies)
    × (get_active_test (lit "a") st' ≡ none)
run_latency_test_lem_example =
    run_latency_test_lem (lit "a") (lit "t1") three_rounds turns 2000 started new found_new

abbrev one_second : ThroughputTestConfig
one_second = record { messages_per_second = 1; duration_seconds = 1; payload_size = 1 }

-- `n` turns a millisecond apart, from `now`.
abbrev ticks : ℕ → ℕ → List SendTurn
ticks zero now = []
ticks (suc n) now =
    record { abort_requested = false; now = now; accepts = true; meanwhile = λ app. app }
    ∷ ticks n (now + 1)

ticks-IsTicking : (n now : ℕ) → IsTicking now (ticks n now)
ticks-IsTicking zero now = tt
ticks-IsTicking (suc n) now = (omega arith, ticks-IsTicking n (now + 1))

length-ticks : (n now : ℕ) → length (ticks n now) ≡ n
length-ticks zero now = refl
length-ticks (suc n) now = omega (arith, length-ticks n (now + 1))

enough : total_ms one_second < length (ticks 1001 1000)
unfolding total_ms
enough = omega (arith, length-ticks 1001 1000)

abbrev not_json : Text → Bool
not_json s = false

abbrev no_bytes : Text → List ℕ
no_bytes s = []

run_throughput_test_lem_example :
    (st' : PerfState) × (app' : App) × (r' : TestResult) × (run_throughput_test not_json no_bytes
        100
        (lit "a")
        (lit "t1")
        one_second
        1000
        (ticks 1001 1000)
        2001
        (started, empty_app)
      ≡ some (st', app'))
    × (get_results (lit "t1") st' ≡ some r')
    × (r'.completed_at ≡ some 2001)
    × (r'.messages_sent + r'.error_count ≤ total_ms one_second)
    × (total_ms one_second ≤ 60000)
    × (length st'.events ≡ length started.events + r'.messages_sent + 1)
    × (get_active_test (lit "a") st' ≡ none)
run_throughput_test_lem_example =
    run_throughput_test_lem not_json no_bytes 100 (lit "a") (lit "t1") one_second 1000 2001
      (ticks 1001 1000) started empty_app new found_new (ticks-IsTicking 1001 1000) enough
