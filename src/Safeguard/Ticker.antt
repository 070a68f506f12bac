-- ===== src/Safeguard/Ticker.antt =====
-- internal/safeguard/watcher.go: `Start`, the loop over the ticks.
use entropyk.Base.{Bool, true, List, [], ◌∷◌}
use entropyk.Go.{Std}
use entropyk.Runtime.{pure, ◌>>=◌}
use entropyk.Cluster.{Cluster, Handler}
use entropyk.Safeguard.Watcher.{Failures, Watcher, check_all}

-- What the loop receives next: the end of the context, or a tick, one every five seconds. Where both
-- are ready, either may come first.
pub data Event : Type 0 where
  done tick : Event

module _ (c : Cluster) (std : Std) (watcher : Watcher c std) where
  -- A list that ends without `done` is a loop that still waits.
  unfoldable pub start : List Event → Failures → Handler c Failures
  start [] failures = pure failures
  start (done ∷ events) failures = pure failures
  start (tick ∷ events) failures =
      check_all c std watcher failures >>= λ failures'. start events failures'

  unfoldable pub need_leader_election : Bool
  need_leader_election = true
