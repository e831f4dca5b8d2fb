-- ===== src/Performance/Guards.antt =====
-- When a test may start.
use socket_tester.Base.{
  ◌+◌, length, length-append, [], ◌∷◌, ℕ, zero, suc, ◌≡◌, refl, ap, ◌∙◌, none, some, true, false,
  Text, lit, lookup, insert, modify, lookup-insert_self, lookup-delete_self, Option-cases, inl, inr,
  arith, lookup-modify_self,
}
use socket_tester.Session.{ConnectionSession, websocket, Sessions, get}
use socket_tester.App.{ok, err, bad_request}
use socket_tester.Performance.{
  TestKind, TestResult, PerfState, start_test, get_active_test, finish, complete, get_results,
  abort_test, ActiveTest, new_result,
}

-- The state after a start that is not refused.
abbrev started_at : TestKind → Text → Text → ℕ → PerfState → PerfState
started_at kind id test_id now st = record st {
  active_tests = insert id (record { test_id = test_id; abort_requested = false }) st.active_tests;
  results = insert test_id (new_result test_id id kind now) st.results;
}

module _ (kind : TestKind) (id test_id : Text) (now : ℕ) (sessions : Sessions)
    (s : ConnectionSession) (e : get id sessions ≡ some s) (w : s.kind ≡ websocket) where
  start_test_free :
      (st : PerfState)
      → lookup id st.active_tests ≡ none
      → start_test kind id test_id now sessions st ≡ (started_at kind id test_id now st, ok test_id)
  unfolding start_test
  start_test_free st f = rw (e, start_test) (rw w (rw f refl))

  start_test_busy :
      (st : PerfState) (t : ActiveTest)
      → lookup id st.active_tests ≡ some t
      → start_test kind id test_id now sessions st
        ≡ (st, err (bad_request (lit "A test is already running for this connection")))
  unfolding start_test
  start_test_busy st t f = rw (e, start_test) (rw w (rw f refl))

abbrev asked : ActiveTest → ActiveTest
asked t = record t { abort_requested = true }

abort_test_known :
    (id : Text) (st : PerfState) (t : ActiveTest)
    → lookup id st.active_tests ≡ some t
    → abort_test id st ≡ (record st { active_tests = modify id asked st.active_tests }, true)
unfolding abort_test
abort_test_known id st t f = rw (f, abort_test) refl

-- `n` abort requests.
abbrev pub aborts : ℕ → Text → PerfState → PerfState
aborts zero id st = st
aborts (suc n) id st = aborts n id (abort_test id st).0

aborts_known :
    (n : ℕ) (id : Text) (st : PerfState) (t : ActiveTest)
    → lookup id st.active_tests ≡ some t
    → (t' : ActiveTest) × (lookup id (aborts n id st).active_tests ≡ some t')
      × (t'.test_id ≡ t.test_id)
aborts_known zero id st t f = (t, f, refl)
aborts_known (suc n) id st t f = aborts_known n id (abort_test id st).0 (asked t) (
    ap (λ r. lookup id r.0.active_tests) (abort_test_known id st t f)
    ∙ lookup-modify_self id asked st.active_tests t f)

get_active_test_known :
    (id : Text) (st : PerfState) (t : ActiveTest)
    → lookup id st.active_tests ≡ some t
    → get_active_test id st ≡ some t.test_id
unfolding get_active_test
get_active_test_known id st t f = rw (f, get_active_test) refl

-- A connection has at most one test: after one has started, and after any number of abort requests,
-- none included, another of either kind is refused and changes nothing, and the first is still the
-- active one, which a further abort request finds; after it has finished, the next one starts.
pub start_test_again :
    (n : ℕ) (id test_id next_id : Text) (kind next : TestKind) (now later : ℕ) (sessions : Sessions)
    (completed : TestResult → TestResult) (st : PerfState) (s : ConnectionSession)
    → get id sessions ≡ some s
    → s.kind ≡ websocket
    → get_active_test id st ≡ none
    → let started = start_test kind id test_id now sessions st in
      let running = aborts n id started.0 in
      (started.1 ≡ ok test_id)
      × (get_active_test id running ≡ some test_id)
      × ((abort_test id running).1 ≡ true)
      × (start_test next id next_id later sessions running
          ≡ (running, err (bad_request (lit "A test is already running for this connection"))))
      × ((start_test next id next_id later sessions (finish id test_id completed running)).1
          ≡ ok next_id)
unfolding finish
start_test_again n id test_id next_id kind next now later sessions completed st s e w f =
    let new : ActiveTest = record { test_id = test_id; abort_requested = false } in
    let st1 = started_at kind id test_id now st in
    let (t, known, same) = aborts_known n id st1 new (lookup-insert_self id new st.active_tests) in
    let running = aborts n id st1 in
    let free : lookup id st.active_tests ≡ none = elim (Option-cases (lookup id st.active_tests)) [
      | inl h ↦ h
      | inr (t, h) ↦ ground (arith, get_active_test_known id st t h, f)
    ] in
    rw (start_test_free kind id test_id now sessions s e w st free) (
      refl,
      get_active_test_known id running t known ∙ ap some same,
      ap (λ r. r.1) (abort_test_known id running t known),
      start_test_busy next id next_id later sessions s e w running t known,
      ap (λ r. r.1)
          (start_test_free next id next_id later sessions s e w
            (finish id test_id completed running) (lookup-delete_self id running.active_tests)),
    )

get_active_test_free :
    (id : Text) (st : PerfState) → lookup id st.active_tests ≡ none → get_active_test id st ≡ none
unfolding get_active_test
get_active_test_free id st e = rw (e, get_active_test) refl

-- The end of a test whose result is known.
pub finish_lem :
    (id test_id : Text) (completed : TestResult → TestResult) (st : PerfState) (r : TestResult)
    → get_results test_id st ≡ some r
    → (get_results test_id (finish id test_id completed st) ≡ some (completed r))
      × (get_active_test id (finish id test_id completed st) ≡ none)
      × (length (finish id test_id completed st).events ≡ length st.events + 1)
unfolding finish get_results
finish_lem id test_id completed st r e = (
  lookup-modify_self test_id completed st.results r e,
  get_active_test_free id (finish id test_id completed st) (lookup-delete_self id st.active_tests),
  rw e (length-append st.events (complete test_id (completed r) ∷ [])),
)
