-- ===== src/Schedule/Closed.antt =====
-- The check before a run fails closed: it lets a run start only if every safeguard that is configured
-- was answered, and well.
use entropyk.Base.{String, true, false, some, ◌≡◌}
use entropyk.Go.{ok, Std}
use entropyk.Kube.{Deployment}
use entropyk.Api.Schedule.{AlertSource, MetricsSource, SloProtection, Safeguards, ChaosSchedule}
use entropyk.Cluster.{Cluster}
use entropyk.Safeguard.Interfaces.{AlertChecker, MetricsQuerier}
use entropyk.Safeguard.Watcher.{needs_replica_check, is_below, is_above}
use entropyk.Schedule.Firing.{beside}
use entropyk.Schedule.Gate.{ScheduleReconciler, Gate, safe}
use entropyk.Safeguard.Heeding.{NoAlert, NoBreach}

-- A deployment that was read, with its replica counts inside the limits.
pub record HasReplicas (c : Cluster) (sched : ChaosSchedule) (sg : Safeguards) (name : String)
    : Type 0 where
  pub deployment : Deployment
  pub state : c.State
  pub answered : (c.get_deployment (beside sched name) state).0 ≡ ok deployment
  pub enough : is_below deployment.available_replicas sg.min_replicas_available ≡ false
  pub few : is_above deployment.unavailable_replicas sg.max_unavailable ≡ false

-- What it takes for a run to be safe.
pub record IsSafe (c : Cluster) (std : Std) (r : ScheduleReconciler c std) (sched : ChaosSchedule)
    (sg : Safeguards) (name : String) : Type 0 where
  pub replicas : needs_replica_check sg ≡ true → HasReplicas c sched sg name
  pub alerts :
      (source : AlertSource)
      → sg.alert_source ≡ some source
      → (checker : AlertChecker c.State) × (r.new_alert_checker source.url ≡ ok checker)
        × NoAlert sg.halt_on_alert_labels checker
  pub slo :
      (source : MetricsSource) (slo : SloProtection)
      → sg.metrics_source ≡ some source
      → sg.slo_protection ≡ some slo
      → (querier : MetricsQuerier c.State std.Float) × (r.new_metrics_querier source.url
          ≡ ok querier)
        × NoBreach std slo querier

-- What a gate that is open stands for.
abbrev Opens : Type 0 → Gate → Type 0
Opens E g = g ≡ safe → E
