-- ===== src/Client/Series/Windows.antt =====
-- The windows of the charts keep their bounds.
pub mod Buckets
use socket_tester.Base.{
  ℕ, suc, ◌+◌, ◌-◌, ◌/◌, ◌≤◌, ◌≡◌, refl, Bool, true, false, Option, none, some, List, [], ◌∷◌, ◌++◌,
  filter, last?, last_n, length, length-drop, Text, text_eq, lookup, if◌then◌else◌, ltb, arith,
  Option-cases,
}
use socket_tester.Stats.{EnhancedStats, GlobalStats}
use socket_tester.Client.Series.{
  MsgBucket, LatencyPoint, ErrorBucket, SizePoint, ConnectionTimeSeries, StatsState, Direction,
  empty_time_series, no_stats, recent, into_last, put_message, put_error, put_latency, put_size,
  get_time_series, record_message, record_error, set_backend_stats, set_global_stats,
  clear_connection, count_message, new_bucket, with_message, with_error,
}
use socket_tester.Client.Series.Figures.{
  get_time_series-record_message, get_time_series-record_error, get_time_series-clear_connection,
}
use socket_tester.Client.Series.Windows.Buckets.{
  Within, Within-length, Within-mono, Within-filter, Within-recent, Within-into_last, Within-put,
  IsWindow, IsWindow-nil, IsWindow-mono, IsWindow-put,
}

-- The bounds of one connection's figures at a time in milliseconds.
abbrev pub Fits : ℕ → ConnectionTimeSeries → Type 0
Fits now ts =
    IsWindow (λ (b : MsgBucket). b.time) (now / 1000) ts.messages
    × IsWindow (λ (b : ErrorBucket). b.time) (now / 60000) ts.errors
    × (length ts.latency ≤ 100)
    × (length ts.sizes ≤ 1000)

empty-Fits : (now : ℕ) → Fits now empty_time_series
empty-Fits now = (
  IsWindow-nil (λ (b : MsgBucket). b.time) (now / 1000),
  IsWindow-nil (λ (b : ErrorBucket). b.time) (now / 60000),
  omega arith,
  omega arith,
)

Fits-mono : (now later : ℕ) (ts : ConnectionTimeSeries) → now ≤ later → Fits now ts → Fits later ts
Fits-mono now later ts p (m, e, l, s) = (
  IsWindow-mono (λ (b : MsgBucket). b.time) (now / 1000) (later / 1000) ts.messages (omega arith) m,
  IsWindow-mono (λ (b : ErrorBucket). b.time) (now / 60000) (later / 60000) ts.errors (omega arith)
      e,
  l,
  s,
)

length-last_n {ℓ} : {A : Type ℓ} (n : ℕ) (xs : List A) → length (last_n n xs) ≤ n
length-last_n n xs = omega (arith, length-drop (length xs - n) xs)

put_latency_few :
    (now : ℕ) (l : Option ℕ) (points : List LatencyPoint)
    → length points ≤ 100
    → length (put_latency now l points) ≤ 100
unfolding put_latency
put_latency_few now none points h = h
put_latency_few now (some l) points h =
    length-last_n 100 (points ++ record { time = now; latency = l } ∷ [])

put_size_few : (n : ℕ) (sizes : List SizePoint) → length (put_size n sizes) ≤ 1000
unfolding put_size
put_size_few n sizes = length-last_n 1000 (sizes ++ record { size = n } ∷ [])

with_message-Fits :
    (d : Direction) (n : ℕ) (l : Option ℕ) (t now : ℕ) (ts : ConnectionTimeSeries)
    → t ≤ now
    → Fits t ts
    → Fits now (with_message d n l now ts)
unfolding with_message put_message
with_message-Fits d n l t now ts p h =
    let (m, e, few, sizes) = Fits-mono t now ts p h in
    (
      IsWindow-put (λ (b : MsgBucket). b.time) (now / 1000) (count_message d)
          (new_bucket (now / 1000) d) ts.messages refl (λ b. refl) m,
      e,
      put_latency_few now l ts.latency few,
      put_size_few n ts.sizes,
    )

with_error-Fits :
    (t now : ℕ) (ts : ConnectionTimeSeries) → t ≤ now → Fits t ts → Fits now (with_error now ts)
unfolding with_error put_error
with_error-Fits t now ts p h =
    let (m, e, few, sizes) = Fits-mono t now ts p h in
    (
      m,
      IsWindow-put (λ (b : ErrorBucket). b.time) (now / 60000)
          (λ b. record b { errors = b.errors + 1 }) (record { time = now / 60000; errors = 1 })
          ts.errors refl (λ b. refl) e,
      few,
      sizes,
    )

-- A store in which one connection's series is replaced.
Fits-put :
    (id j : Text) (now : ℕ) (new old : ConnectionTimeSeries)
    → Fits now new
    → Fits now old
    → Fits now (if text_eq id j then new else old)
Fits-put id j now new old h k = elim (text_eq id j) as (λ b. Fits now (if b then new else old)) [
  | true ↦ h
  | false ↦ k
]

-- The states of the store under a clock that does not run back, with the last reading of it.
pub data Reach : ℕ → StatsState → Type 0 where
  start : Reach 0 no_stats
  records :
      {t : ℕ} {st : StatsState} (id : Text) (d : Direction) (n : ℕ) (l : Option ℕ) (now : ℕ)
      → Reach t st
      → t ≤ now
      → Reach now (record_message id d n l now st)
  fails :
      {t : ℕ} {st : StatsState} (id : Text) (now : ℕ)
      → Reach t st
      → t ≤ now
      → Reach now (record_error id now st)
  polls :
      {t : ℕ} {st : StatsState} (id : Text) (stats : EnhancedStats)
      → Reach t st
      → Reach t (set_backend_stats id stats st)
  polls_all :
      {t : ℕ} {st : StatsState} (stats : GlobalStats)
      → Reach t st
      → Reach t (set_global_stats stats st)
  clears : {t : ℕ} {st : StatsState} (id : Text) → Reach t st → Reach t (clear_connection id st)

-- At any time under a clock that does not run back, each connection has at most 60 buckets of
-- messages and at most 60 of errors, of strictly ascending times within 60 seconds or minutes of one
-- another, none later than the clock, and at most 100 latencies and 1000 sizes.
pub Reach-Fits :
    {now : ℕ} {st : StatsState} → Reach now st → (j : Text) → Fits now (get_time_series j st)
unfolding get_time_series lookup set_backend_stats set_global_stats
Reach-Fits start j = empty-Fits 0
Reach-Fits (records {t} {st} id d n l now r le) j =
    let old = get_time_series j st in
    let new = with_message d n l now (get_time_series id st) in
    rw (get_time_series-record_message id j d n l now st) (
      Fits-put id j now new old
        (with_message-Fits d n l t now (get_time_series id st) le (Reach-Fits r id))
        (Fits-mono t now old le (Reach-Fits r j)))
Reach-Fits (fails {t} {st} id now r le) j =
    let old = get_time_series j st in
    let new = with_error now (get_time_series id st) in
    rw (get_time_series-record_error id j now st) (
      Fits-put id j now new old (with_error-Fits t now (get_time_series id st) le (Reach-Fits r id))
        (Fits-mono t now old le (Reach-Fits r j)))
Reach-Fits (polls {t} {st} id stats r) j = Reach-Fits r j
Reach-Fits (polls_all {t} {st} stats r) j = Reach-Fits r j
Reach-Fits (clears {t} {st} id r) j =
    rw (get_time_series-clear_connection id j st)
      (Fits-put id j t empty_time_series (get_time_series j st) (empty-Fits t) (Reach-Fits r j))
