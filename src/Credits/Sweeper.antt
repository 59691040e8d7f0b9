-- ===== src/Credits/Sweeper.antt =====
-- internal/credits/sweeper.go: a tick of each of the two goroutines that StartSweeper launches. What
-- a tick answers is for metrics and logs only.
use local_ai_proxy.Prelude.{ℕ}
use local_ai_proxy.Store.Sql.{World}
use local_ai_proxy.Store.Ledger.{sweep_stale_holds, cleanup_settled_holds}

abbrev pub stale_tick : ℕ → World → World
stale_tick stale_threshold w = (sweep_stale_holds stale_threshold w).1

abbrev pub cleanup_tick : ℕ → World → World
cleanup_tick cleanup_age w = (cleanup_settled_holds cleanup_age w).1
