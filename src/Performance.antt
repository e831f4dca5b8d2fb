-- ===== src/Performance.antt =====
-- src/performance/performance.service.ts: latency and throughput tests of a WebSocket connection. A
-- loop that awaits is a recursion over its turns: what the world did in a turn is an argument.
pub mod Routes
pub mod Sending
pub mod Guards
pub mod Latency
pub mod Throughput
use mathlib.Core.Option
use socket_tester.Base.{
  ℕ, zero, suc, ◌+◌, ◌-◌, ◌*◌, ◌/◌, min, max, Option, none, some, List, [], ◌∷◌, ◌++◌, Bool, true,
  false, not, ◌&&◌, ◌||◌, ltb, leb, length, total, get_elem?, Text, lit, default, Map, lookup,
  insert, delete, modify, is_some, if◌then◌else◌,
}
use socket_tester.Session.{ConnectionSession, ConnectionType, websocket, Sessions, get, round_div}
use socket_tester.Network.{Fraction}
use socket_tester.Stats.{sort}
use socket_tester.Stats.Rank.{rank}
use socket_tester.App.{App, Error, not_found, bad_request, Result, ok, err}
use socket_tester.WebSocket.{SendMessageDto, text_message, send_message}

pub record LatencyTestConfig : Type 0 where
  pub rounds : ℕ
  pub interval_ms : Option ℕ

pub record ThroughputTestConfig : Type 0 where
  pub messages_per_second : ℕ
  pub duration_seconds : ℕ
  pub payload_size : ℕ

pub data TestKind : Type 0 where
  latency_test throughput_test : TestKind

-- The statistics of a latency test that got a pong.
pub record Summary : Type 0 where
  pub lowest : Option ℕ
  pub highest : Option ℕ
  pub average : ℕ
  pub median : Option ℕ
  pub p95 : Option ℕ
  pub p99 : Option ℕ

pub record TestResult : Type 0 where
  pub test_id : Text
  pub connection_id : Text
  pub kind : TestKind
  pub started_at : ℕ
  pub completed_at : Option ℕ
  pub aborted : Bool
  pub latencies : List ℕ
  pub summary : Option Summary
  pub messages_sent : ℕ
  pub actual_rate : Option Fraction
  pub error_count : ℕ

pub record ActiveTest : Type 0 where
  pub test_id : Text
  pub abort_requested : Bool

-- The events that a test emits to its connection's room.
pub data PerfEvent : Type 0 where
  pings_progress : Text → ℕ → ℕ → ℕ → PerfEvent
  sends_progress : Text → ℕ → ℕ → ℕ → PerfEvent
  complete : Text → TestResult → PerfEvent

pub record PerfState : Type 0 where
  pub active_tests : Map ActiveTest
  pub results : Map TestResult
  pub events : List PerfEvent

abbrev pub empty_perf : PerfState
empty_perf = record { active_tests = []; results = []; events = [] }

abbrev is_websocket : ConnectionType → Bool
is_websocket websocket = true
is_websocket _ = false

-- `Latency test` or `Throughput test`
abbrev title_of : TestKind → Text
title_of latency_test = lit "Latency"
title_of throughput_test = lit "Throughput"

abbrev pub new_result : Text → Text → TestKind → ℕ → TestResult
new_result test_id id kind now = record {
  test_id = test_id;
  connection_id = id;
  kind = kind;
  started_at = now;
  completed_at = none;
  aborted = false;
  latencies = [];
  summary = none;
  messages_sent = 0;
  actual_rate = none;
  error_count = 0;
}

-- `startLatencyTest` and `startThroughputTest` up to the call of the loop.
pub start_test : TestKind → Text → Text → ℕ → Sessions → PerfState → PerfState × Result Text
start_test kind id test_id now sessions st = elim (get id sessions) [
  | none ↦ (st, err (not_found (lit "Connection not found")))
  | some session ↦
      if not (is_websocket session.kind)
      then (
        st,
        err (bad_request (title_of kind ++ lit " test only supports WebSocket connections")),
      )
      else if is_some (lookup id st.active_tests)
      then (st, err (bad_request (lit "A test is already running for this connection")))
      else (
        record st {
          active_tests =
              insert id (record { test_id = test_id; abort_requested = false }) st.active_tests;
          results = insert test_id (new_result test_id id kind now) st.results;
        },
        ok test_id,
      )
]

-- `Math.min(Math.max(config.count, 1), 1000)`
pub rounds_of : LatencyTestConfig → ℕ
rounds_of config = min (max config.rounds 1) 1000

unfoldable pub interval_of : LatencyTestConfig → ℕ
interval_of config = max 10 (default 100 config.interval_ms)

-- One turn of the latency loop: whether an abort was requested before it, and the latency that
-- `pingAsync` resolves to, if it does.
pub record PingTurn : Type 0 where
  pub abort_requested : Bool
  pub pong : Option ℕ

pub record LatencyRun : Type 0 where
  pub latencies : List ℕ
  pub aborted : Bool
  pub events : List PerfEvent
  -- the waits between pings
  pub waits : List ℕ

abbrev pub abort_run : LatencyRun → LatencyRun
abort_run run = record run { aborted = true }

abbrev pub add_latency : Text → ℕ → ℕ → ℕ → ℕ → LatencyRun → LatencyRun
add_latency test_id rounds interval i latency run = record run {
  latencies = run.latencies ++ latency ∷ [];
  events = run.events ++ pings_progress test_id (i + 1) rounds latency ∷ [];
  waits = if ltb i (rounds - 1) then run.waits ++ interval ∷ [] else run.waits;
}

-- `left` turns remain, and `i` are done.
pub latency_loop : Text → ℕ → ℕ → (ℕ → PingTurn) → ℕ → ℕ → LatencyRun → LatencyRun
latency_loop test_id rounds interval turn zero i run = run
latency_loop test_id rounds interval turn (suc left) i run = elim (turn i).abort_requested [
  | true ↦ abort_run run
  | false ↦ elim (turn i).pong [
    | none ↦ abort_run run
    | some latency ↦
        latency_loop test_id rounds interval turn left (suc i)
          (add_latency test_id rounds interval i latency run)
  ]
]

abbrev or_last : Option ℕ → List ℕ → Option ℕ
or_last none sorted = get_elem? sorted (length sorted - 1)
or_last (some v) sorted = some v

-- `none` where there is no latency.
unfoldable pub summarize : List ℕ → Option Summary
unfolding sort rank
summarize [] = none
summarize (x ∷ xs) =
    let sorted = sort (x ∷ xs) in
    let n = length sorted in
    some (record {
      lowest = get_elem? sorted 0;
      highest = get_elem? sorted (n - 1);
      average = round_div (total (λ v. v) (x ∷ xs)) (length (x ∷ xs));
      median = get_elem? sorted (n / 2);
      p95 = or_last (get_elem? sorted (rank 95 n - 1)) sorted;
      p99 = or_last (get_elem? sorted (rank 99 n - 1)) sorted;
    })

-- The end of a test: the result object is completed, the test is no longer active.
pub finish : Text → Text → (TestResult → TestResult) → PerfState → PerfState
finish id test_id completed st = record st {
  results = modify test_id completed st.results;
  active_tests = delete id st.active_tests;
  events = st.events ++ elim (lookup test_id st.results) [
    | none ↦ []
    | some r ↦ complete test_id (completed r) ∷ []
  ];
}

abbrev pub start_run : LatencyRun
start_run = record { latencies = []; aborted = false; events = []; waits = [] }

pub run_latency_test : Text → Text → LatencyTestConfig → (ℕ → PingTurn) → ℕ → PerfState → PerfState
unfolding finish
run_latency_test id test_id config turn now st =
    let run =
      latency_loop test_id (rounds_of config) (interval_of config) turn (rounds_of config) 0
        start_run in
    finish id test_id
      (λ r. record r {
        latencies = run.latencies;
        aborted = run.aborted;
        summary = summarize run.latencies;
        completed_at = some now;
      })
      (record st { events = st.events ++ run.events })

pub abort_test : Text → PerfState → PerfState × Bool
abort_test id st = elim (lookup id st.active_tests) [
  | none ↦ (st, false)
  | some active ↦ (
    record st {
      active_tests = modify id (λ t. record t { abort_requested = true }) st.active_tests;
    },
    true,
  )
]

unfoldable pub get_results : Text → PerfState → Option TestResult
get_results test_id st = lookup test_id st.results

unfoldable pub get_active_test : Text → PerfState → Option Text
get_active_test id st = elim (lookup id st.active_tests) [ none ↦ none | some t ↦ some t.test_id ]
