-- ===== src/Manager/Wiring.antt =====
-- cmd/main.go and NewWatcher of internal/safeguard/watcher.go: which backends the schedule reconciler
-- and the watcher are given.
use entropyk.Base.{String, List}
use entropyk.Go.{Result, Std}
use entropyk.Cluster.{Cluster}
use entropyk.Safeguard.Interfaces.{AlertChecker, MetricsQuerier}
use entropyk.Safeguard.Http.{Bytes, Web}
use entropyk.Safeguard.Alertmanager.{AmAlert, new_alertmanager_checker}
use entropyk.Safeguard.Prometheus.{Decoder, new_prometheus_querier}
use entropyk.Safeguard.Watcher.{Watcher, new_watcher}
use entropyk.Schedule.Gate.{ScheduleReconciler}

-- The network and the decoders that the two backends use.
pub record Backends (c : Cluster) (std : Std) : Type 1 where
  pub web : Web c.State
  pub json : Decoder std.Float
  pub decode_alerts : Bytes → Result (List AmAlert)

module _ (c : Cluster) (std : Std) (b : Backends c std) where
  unfoldable pub alert_checker : String → Result (AlertChecker c.State)
  alert_checker url = new_alertmanager_checker b.web b.decode_alerts std.quote url

  unfoldable pub metrics_querier : String → Result (MetricsQuerier c.State std.Float)
  metrics_querier url = new_prometheus_querier std b.json b.web url

  unfoldable pub schedule_reconciler : ScheduleReconciler c std
  schedule_reconciler = record {
    new_alert_checker = alert_checker;
    new_metrics_querier = metrics_querier;
  }

  unfoldable pub safeguard_watcher : Watcher c std
  safeguard_watcher = new_watcher alert_checker metrics_querier
