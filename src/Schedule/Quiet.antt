-- ===== src/Schedule/Quiet.antt =====
-- The checks before a run write nothing and do not panic, if the backends do neither.
use entropyk.Metrics.{safeguard_checks_total}
use entropyk.Base.{pos, String, [], ◌∷◌, ◌≡◌, All}
use entropyk.Base.Text.{Dict}
use entropyk.Go.{ok, Std}
use entropyk.Api.Experiment.{ChaosExperiment}
use entropyk.Api.Schedule.{ChaosSchedule}
use entropyk.Runtime.{Effect, Keeps}
use entropyk.Cluster.{Cluster}
use entropyk.Safeguard.Interfaces.{AlertChecker, MetricsQuerier}
use entropyk.Schedule.Looking.{Looks, Holds-check_safeguards}
use entropyk.Schedule.Gate.{ScheduleReconciler, check_safeguards}

-- The backends of a reconciler write nothing to the cluster and do not panic.
pub record IsQuiet (c : Cluster) (std : Std) (r : ScheduleReconciler c std) : Type 1 where
  pub alerts_quiet :
      (P : Effect → Type 0) (Q : Type 0) (url : String) (checker : AlertChecker c.State)
      (labels : Dict)
      → r.new_alert_checker url ≡ ok checker
      → Keeps P Q (checker.check_alerts labels)
  pub metrics_quiet :
      (P : Effect → Type 0) (Q : Type 0) (url query : String)
      (querier : MetricsQuerier c.State std.Float)
      → r.new_metrics_querier url ≡ ok querier
      → Keeps P Q (querier.instant_query query)

module _ (c : Cluster) (std : Std) (r : ScheduleReconciler c std) (quiet : IsQuiet c std r)
    {P : Effect → Type 0} {Q : Type 0}
    (counts : (ns kind : String)
      → P (Effect.counted safeguard_checks_total (ns ∷ kind ∷ []) (pos 1))) where
  pub quiet-Looks : Looks c std r (λ w. All P w.log) Q
  quiet-Looks = record {
    counts = λ ns kind w h. (counts ns kind, h);
    deployment = λ key w h. h;
    alerts = λ url checker labels built. quiet.alerts_quiet P Q url checker labels built;
    metrics = λ url query querier built. quiet.metrics_quiet P Q url query querier built;
  }

  pub Keeps-check_safeguards :
      (sched : ChaosSchedule) (template : ChaosExperiment)
      → Keeps P Q (check_safeguards c std r sched template)
  Keeps-check_safeguards = Holds-check_safeguards c std r quiet-Looks
