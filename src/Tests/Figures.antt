-- ===== src/Tests/Figures.antt =====
-- The statistics of a few sessions.
use socket_tester.Base.{
  inl, ℕ, ◌≡◌, ◌≢◌, refl, none, some, List, [], ◌∷◌, true, lit, text_eq, lookup, has, arith,
}
use socket_tester.Session.{
  ConnectionSession, websocket, mqtt, connected, Sessions, new_session, get, with_status,
  with_received, with_latency, push_shift,
}
use socket_tester.Stats.{compute_percentile, get_enhanced_stats, enhance}
use socket_tester.Stats.Percentiles.{
  HasRank, AreOrdered, compute_percentile_rank, get_enhanced_stats-AreOrdered,
}

abbrev samples : List ℕ
samples = 30 ∷ 10 ∷ 20 ∷ 40 ∷ []

samples-ne : samples ≢ []
samples-ne e = ground arith

compute_percentile_rank_example :
    (v : ℕ) × (compute_percentile samples 95 ≡ some v) × HasRank 95 v samples
compute_percentile_rank_example =
    compute_percentile_rank samples 95 (inl refl) (omega arith) samples-ne

abbrev busy : ConnectionSession
busy =
    with_received 5 (some 10)
      (with_status connected none 1010 (new_session (lit "a") (lit "ws://h") websocket 1000))

abbrev two_sessions : Sessions
two_sessions = (lit "a", busy) ∷ (lit "b", new_session (lit "b") (lit "mqtt://h") mqtt 2000) ∷ []

found_busy : get (lit "a") two_sessions ≡ some busy
unfolding get lookup text_eq lit
found_busy = refl

busy_samples : busy.stats.latency_samples ≢ []
unfolding with_received with_latency with_status push_shift
busy_samples e = ground arith

busy_stats : get_enhanced_stats (lit "a") 3000 two_sessions ≡ some (enhance busy.stats 3000)
unfolding get_enhanced_stats get lookup text_eq lit
busy_stats = refl

get_enhanced_stats-AreOrdered_example : AreOrdered (enhance busy.stats 3000)
get_enhanced_stats-AreOrdered_example =
    get_enhanced_stats-AreOrdered (lit "a") 3000 two_sessions busy (enhance busy.stats 3000)
      found_busy busy_samples busy_stats

has_a : has (lit "a") two_sessions ≡ true
unfolding lookup text_eq lit
has_a = refl
