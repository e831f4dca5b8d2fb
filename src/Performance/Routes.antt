-- ===== src/Performance/Routes.antt =====
-- src/performance/performance.controller.ts: the routes that ask about tests and end them.
use socket_tester.Base.{Bool, none, some, Text}
use socket_tester.Performance.{PerfState, TestResult, abort_test, get_results, get_active_test}

-- The answer is `{ aborted: ok }`.
unfoldable pub abort_route : Text → PerfState → PerfState × Bool
abort_route id st = abort_test id st

-- `getActiveTest(id) ?? { active: false }`
pub data ActiveAnswer : Type 0 where
  inactive : ActiveAnswer
  active : Text → ActiveAnswer

unfoldable pub active_route : Text → PerfState → ActiveAnswer
active_route id st = elim (get_active_test id st) [
  | none ↦ inactive
  | some test_id ↦ active test_id
]

-- `getResults(testId) ?? { found: false }`
pub data ResultsAnswer : Type 0 where
  unknown : ResultsAnswer
  known : TestResult → ResultsAnswer

unfoldable pub results_route : Text → PerfState → ResultsAnswer
results_route test_id st = elim (get_results test_id st) [ none ↦ unknown | some r ↦ known r ]
