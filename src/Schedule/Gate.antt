-- ===== src/Schedule/Gate.antt =====
-- internal/controller/chaosschedule_controller.go: `checkSafeguards`, what has to hold before a run.
use entropyk.Base.{pos, String, ◌<>◌, str_eq, [], ◌∷◌, if◌then◌else◌}
use entropyk.Base.Text.{decimal}
use entropyk.Go.{Result, ok, err, Std}
use entropyk.Kube.{Deployment}
use entropyk.Api.Experiment.{ChaosExperiment}
use entropyk.Api.Schedule.{Safeguards, ChaosSchedule}
use entropyk.Metrics.{
  safeguard_checks_total, safeguard_type_alerts, safeguard_type_slo, safeguard_type_replicas,
}
use entropyk.Runtime.{counted, ask, pure, on_error, wrapping, emit, branch, unless_nil, ◌>>=◌, ◌>>◌}
use entropyk.Cluster.{Cluster, Handler}
use entropyk.Safeguard.Interfaces.{AlertChecker, MetricsQuerier}
use entropyk.Safeguard.Checks.{Finding, check_alerts_firing, check_slo_breach}
use entropyk.Safeguard.Watcher.{needs_replica_check, is_below, is_above, limit_text}

-- The fields of `ChaosScheduleReconciler` that are no part of the cluster.
pub record ScheduleReconciler (c : Cluster) (std : Std) : Type 0 where
  pub new_alert_checker : String → Result (AlertChecker c.State)
  pub new_metrics_querier : String → Result (MetricsQuerier c.State std.Float)

-- The first two results: a run is safe, or it is not and for what reason. One of the reasons may be
-- the empty text.
pub data Gate : Type 0 where
  safe : Gate
  unsafe : String → Gate

-- The replica counts against the limits.
unfoldable pub replica_gate : Safeguards → Deployment → Gate
replica_gate sg dep =
    if is_below dep.available_replicas sg.min_replicas_available
    then unsafe (
        "available replicas "
        <> (decimal dep.available_replicas
            <> (" < minimum " <> limit_text sg.min_replicas_available)))
    else if is_above dep.unavailable_replicas sg.max_unavailable
    then unsafe (
        "unavailable replicas "
        <> (decimal dep.unavailable_replicas <> (" > maximum " <> limit_text sg.max_unavailable)))
    else safe

-- `reason != ""` after a check
unfoldable pub finding_gate : Finding → Gate
finding_gate f = if str_eq f.1 "" then safe else unsafe f.1

module _ (c : Cluster) where
  -- The next check, if the ones before it found nothing.
  abbrev pub and_then : Gate → Handler c Gate → Handler c Gate
  and_then safe next = next
  and_then (unsafe reason) next = pure (unsafe reason)

  unfoldable pub check_replicas : ChaosSchedule → Safeguards → String → Handler c Gate
  check_replicas sched sg name =
      branch (needs_replica_check sg)
        (do
          emit (
              counted safeguard_checks_total
                (sched.metadata.namespace ∷ safeguard_type_replicas ∷ []) (pos 1))
          dep ← wrapping "get deployment" (
              ask (c.get_deployment (record { namespace = sched.metadata.namespace; name = name })))
          pure (replica_gate sg dep))
        (pure safe)

  -- A check by a backend: what it failed with is a reason too.
  unfoldable pub backend_gate : String → Handler c Finding → Handler c Gate
  backend_gate context m =
      on_error m (λ e. pure (unsafe (context <> (": " <> e.text)))) (λ f. pure (finding_gate f))

module _ (c : Cluster) (std : Std) (r : ScheduleReconciler c std) where
  abbrev pub with_checker :
      ChaosSchedule → Safeguards → Result (AlertChecker c.State) → Handler c Gate
  with_checker sched sg (err e) = pure (unsafe ("create alert checker: " <> e.text))
  with_checker sched sg (ok checker) =
      emit (
        counted safeguard_checks_total (sched.metadata.namespace ∷ safeguard_type_alerts ∷ [])
          (pos 1))
      >> backend_gate c "check alerts" (check_alerts_firing sg.halt_on_alert_labels checker)

  unfoldable pub check_alerts : ChaosSchedule → Safeguards → Handler c Gate
  check_alerts sched sg =
      unless_nil sg.alert_source (pure safe)
        λ source. with_checker sched sg (r.new_alert_checker source.url)

  abbrev pub with_querier :
      ChaosSchedule
      → (MetricsQuerier c.State std.Float → Handler c Finding)
      → Result (MetricsQuerier c.State std.Float)
      → Handler c Gate
  with_querier sched check (err e) = pure (unsafe ("create metrics querier: " <> e.text))
  with_querier sched check (ok querier) =
      emit (
        counted safeguard_checks_total (sched.metadata.namespace ∷ safeguard_type_slo ∷ []) (pos 1))
      >> backend_gate c "check SLO" (check querier)

  unfoldable pub check_slo : ChaosSchedule → Safeguards → Handler c Gate
  check_slo sched sg = unless_nil sg.metrics_source (pure safe) λ source.
      unless_nil sg.slo_protection (pure safe)
        λ slo. with_querier sched (check_slo_breach std slo) (r.new_metrics_querier source.url)

  unfoldable pub check_safeguards : ChaosSchedule → ChaosExperiment → Handler c Gate
  check_safeguards sched template = unless_nil sched.spec.safeguards (pure safe) λ sg.
      unless_nil template.spec.target.name (pure safe) λ name.
        check_replicas c sched sg name >>= λ g.
        and_then c g (check_alerts sched sg >>= λ g'. and_then c g' (check_slo sched sg))
