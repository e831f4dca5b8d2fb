-- ===== src/Client/PerfPanel.antt =====
-- src/client/src/components/performance/PerformancePanel.tsx: the panel of performance tests. A
-- handler is divided at its `await`; the events of the window come from the control channel.
use socket_tester.Base.{
  ℕ, ◌+◌, ◌*◌, ◌/◌, Bool, true, false, Option, none, some, Text, lit, truthy, if◌then◌else◌, ◌==◌,
}
use socket_tester.Performance.{
  TestKind, latency_test, throughput_test, TestResult, LatencyTestConfig, ThroughputTestConfig,
}
use socket_tester.Client.Notifications.{ToastState, success, add_toast}

pub record ProgressState : Type 0 where
  pub completed : ℕ
  pub total_rounds : ℕ
  pub messages_sent : ℕ
  pub elapsed : ℕ
  pub duration_ms : ℕ

pub record PerfPanel : Type 0 where
  pub active_tab : TestKind
  pub running : Bool
  pub test_id : Option Text
  pub progress : Option ProgressState
  pub result : Option TestResult
  pub failure : Option Text

-- The fields of the panel's form.
pub record TestForm : Type 0 where
  pub lat_count : ℕ
  pub lat_interval : ℕ
  pub tp_rate : ℕ
  pub tp_duration : ℕ
  pub tp_payload : ℕ

pub data TestRequest : Type 0 where
  start_latency : Text → LatencyTestConfig → TestRequest
  start_throughput : Text → ThroughputTestConfig → TestRequest
  abort : Text → TestRequest

abbrev pub idle_panel : TestKind → PerfPanel
idle_panel tab = record {
  active_tab = tab;
  running = false;
  test_id = none;
  progress = none;
  result = none;
  failure = none;
}

unfoldable pub select_tab : TestKind → PerfPanel → PerfPanel
select_tab tab p = record p { active_tab = tab }

unfoldable pub on_progress : ProgressState → PerfPanel → PerfPanel
on_progress detail p = record p { progress = some detail }

unfoldable pub on_complete : TestResult → Text → ℕ → PerfPanel → ToastState → PerfPanel × ToastState
on_complete result uuid now p toasts = (
  record p { running = false; progress = none; result = some result },
  add_toast (lit "Performance test complete") success uuid now toasts,
)

unfoldable pub test_request : Text → TestForm → TestKind → TestRequest
test_request id f latency_test =
    start_latency id (record { rounds = f.lat_count; interval_ms = some f.lat_interval })
test_request id f throughput_test = start_throughput id (record {
  messages_per_second = f.tp_rate;
  duration_seconds = f.tp_duration;
  payload_size = f.tp_payload;
})

-- `startTest` up to its `await`.
unfoldable pub begin_test : Option Text → TestForm → PerfPanel → PerfPanel × Option TestRequest
unfolding test_request
begin_test none f p = (p, none)
begin_test (some id) f p =
    if truthy id
    then (
      record (idle_panel p.active_tab) { running = true },
      some (test_request id f p.active_tab),
    )
    else (p, none)

pub data TestAnswer : Type 0 where
  started : Text → TestAnswer
  rejected : Text → TestAnswer

-- `startTest` after its `await`.
unfoldable pub finish_start : TestAnswer → PerfPanel → PerfPanel
finish_start (started test_id) p = record p { test_id = some test_id }
finish_start (rejected message) p = record (idle_panel p.active_tab) { failure = some message }

-- `abortTest`: the request, and what follows if it succeeds.
unfoldable pub begin_abort : Option Text → Option TestRequest
begin_abort none = none
begin_abort (some id) = if truthy id then some (abort id) else none

unfoldable pub finish_abort : PerfPanel → PerfPanel
finish_abort p = record p { running = false; progress = none }

-- `Math.round((done / all) * 100)`; not a number where `all` is 0.
unfoldable pub percent : ℕ → ℕ → Option ℕ
percent done all = if all == 0 then none else some ((200 * done + all) / (2 * all))

unfoldable pub progress_percent : PerfPanel → Option ℕ
unfolding percent
progress_percent p = elim p.progress [
  | none ↦ some 0
  | some s ↦ elim p.active_tab [
    | latency_test ↦ percent s.completed s.total_rounds
    | throughput_test ↦ percent s.elapsed s.duration_ms
  ]
]
