-- ===== src/Stats/Routes.antt =====
-- src/stats/stats.controller.ts: the routes of the figures.
use socket_tester.Base.{ℕ, none, some, Text, lit}
use socket_tester.Session.{Sessions}
use socket_tester.App.{Result, ok, err, not_found}
use socket_tester.Stats.{EnhancedStats, GlobalStats, get_enhanced_stats, get_global_stats}

unfoldable pub global_route : Sessions → GlobalStats
global_route m = get_global_stats m

unfoldable pub connection_route : Text → ℕ → Sessions → Result EnhancedStats
connection_route id now m = elim (get_enhanced_stats id now m) [
  | none ↦ err (not_found (lit "Connection not found"))
  | some stats ↦ ok stats
]
