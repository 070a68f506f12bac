-- ===== src/Experiment/Running.antt =====
-- internal/controller/chaosexperiment_controller.go: `reconcileRunning`, the loop over the steps of
-- an experiment.
use entropyk.Base.{
  ℤ, pos, ◌+ℤ◌, ◌-ℤ◌, ◌*ℤ◌, ltb_ℤ, leb_ℤ, min_ℤ, quot_ℕ, pos_part, wrap32, wrap64, suc, String,
  ◌<>◌, Bool, true, false, Option, none, some, List, [], ◌∷◌, length, if◌then◌else◌,
}
use entropyk.Base.Text.{decimal}
use entropyk.Go.{Time, Duration, second}
use entropyk.Api.Experiment.{
  ScenarioType, pod_kill, other_type, Scenario, Execution, ExperimentMetrics, ChaosExperiment,
  completed,
}
use entropyk.Metrics.{pods_killed_total, scenarios_executed_total, recovery_time_seconds}
use entropyk.Runtime.{
  event, counted, observed, pure, lift, wrapping, on_error, emit, deref, branch, unless_nil, ◌>>=◌,
  ◌>>◌,
}
use entropyk.Calls
use entropyk.Cluster.{Cluster, Handler}
use entropyk.Experiment.Parts.{
  recovery_grace_period, ReconcileResult, done, requeue, type_text, kill_count, element, is_past,
  source_label, target_from_spec, since, build_scenario, check_recovery, count_end, fail_experiment,
}

-- `(idx+1/len)` in the notes of events
unfoldable pub progress : ℤ → List Scenario → String
progress idx scenarios =
    "(" <> (decimal (idx +ℤ pos 1) <> ("/" <> (decimal (pos (length scenarios)) <> ")")))

abbrev pub no_metrics : ExperimentMetrics
no_metrics = record { total_pods_killed = pos 0; mean_recovery_time = none }

unfoldable pub metrics_or_empty : Option ExperimentMetrics → ExperimentMetrics
metrics_or_empty none = no_metrics
metrics_or_empty (some m) = m

unfoldable pub add_killed : ScenarioType → ℤ → ExperimentMetrics → ExperimentMetrics
add_killed pod_kill count m = record m { total_pods_killed = wrap32 (m.total_pods_killed +ℤ count) }
add_killed (other_type _) _ m = m

-- The mean after one more recovery, of the step with index `idx`.
unfoldable pub mean_recovery : Option Duration → ℤ → Duration → Duration
mean_recovery none idx recovery = recovery
mean_recovery (some prev) idx recovery =
    if ltb_ℤ (pos 0) idx
    then quot_ℕ (wrap64 (wrap64 (prev *ℤ idx) +ℤ recovery)) (suc (pos_part idx))
    else recovery

unfoldable pub pause_between : Option Execution → Duration
pause_between none = second
pause_between (some e) = elim e.pause_between [ none ↦ second | some d ↦ d ]

-- The status after an injection at `t`, after a recovery at `t`, and after the step is over.
unfoldable pub injected : ChaosExperiment → Scenario → Time → ChaosExperiment
injected exp spec t = record exp {
  status = record exp.status {
    injected_at = some t;
    metrics =
        some
          (add_killed spec.kind (kill_count spec.pod_kill) (metrics_or_empty exp.status.metrics));
  };
}

unfoldable pub recovered : ChaosExperiment → Time → ChaosExperiment
recovered exp t = record exp { status = record exp.status { recovered_at = some t } }

unfoldable pub advanced : ChaosExperiment → Option ExperimentMetrics → ChaosExperiment
advanced exp metrics = record exp {
  status = record exp.status {
    metrics = metrics;
    recovered_at = none;
    injected_at = none;
    current_scenario_index = wrap32 (exp.status.current_scenario_index +ℤ pos 1);
  };
}

-- The metrics once the recovery of the current step is taken into the mean.
unfoldable pub with_recovery : ChaosExperiment → ExperimentMetrics → Duration → ExperimentMetrics
with_recovery exp m recovery = record m {
  mean_recovery_time =
      some (mean_recovery m.mean_recovery_time exp.status.current_scenario_index recovery);
}

-- What is left of the duration of a step at `t`.
unfoldable pub remaining : Scenario → Time → Time → Duration
remaining spec t injected_at = wrap64 (spec.duration -ℤ since t injected_at)

-- `spec.Type == ScenarioTypePodKill`
abbrev pub is_pod_kill : ScenarioType → Bool
is_pod_kill pod_kill = true
is_pod_kill (other_type _) = false

module _ (c : Cluster) where
  -- All scenarios done.
  unfoldable pub complete : ChaosExperiment → Handler c ReconcileResult
  complete exp = do
    exp' ← wrapping "update status to Completed" (
        Calls.update_experiment_status c
          (record exp { status = record exp.status { phase = completed } }))
    emit (event "Normal" "Completed" "All scenarios completed")
    count_end c exp' "completed"
    pure done

  -- `metrics.PodsKilledTotal`, for a pod-kill step
  unfoldable pub count_pods : ChaosExperiment → Scenario → Handler c (Unit {0})
  count_pods exp spec =
      branch (is_pod_kill spec.kind)
        (emit (
          counted pods_killed_total (exp.metadata.namespace ∷ source_label exp ∷ [])
            (kill_count spec.pod_kill)))
        (pure tt)

  -- What follows a successful injection.
  unfoldable pub record_injection : ChaosExperiment → Scenario → Handler c ReconcileResult
  record_injection exp spec = do
    t ← Calls.now c
    count_pods exp spec
    exp' ←
        wrapping "update status after inject"
          (Calls.update_experiment_status c (injected exp spec t))
    emit (
        event "Normal" "Injected" (
          "Injected scenario "
          <> (type_text spec.kind
              <> (" " <> progress exp.status.current_scenario_index exp'.spec.scenarios))))
    emit (
        counted scenarios_executed_total
          (exp'.metadata.namespace ∷ source_label exp' ∷ type_text spec.kind ∷ []) (pos 1))
    pure (requeue (pos 5_000_000_000))

  -- State 1: not yet injected, inject now.
  unfoldable pub inject_step : ChaosExperiment → Scenario → Handler c ReconcileResult
  inject_step exp spec =
      on_error (lift (build_scenario c spec))
        (λ e. fail_experiment c exp ("Build scenario: " <> e.text))
        (λ s.
          on_error (s.inject (target_from_spec exp))
            (λ e. fail_experiment c exp ("Inject " <> (type_text spec.kind <> (": " <> e.text))))
            (λ _. record_injection exp spec))

  -- The recovery is looked for once the grace period is over, until it is found.
  unfoldable pub poll_recovery : ChaosExperiment → Time → Handler c (Unit {0})
  poll_recovery exp injected_at =
      unless_nil exp.status.recovered_at
        (do
          t ← Calls.now c
          branch (leb_ℤ recovery_grace_period (since t injected_at))
              (do
                up ← wrapping "check recovery" (check_recovery c exp)
                branch up
                    (do
                      u ← Calls.now c
                      wrapping "update status after recovery"
                          (Calls.update_experiment_status c (recovered exp u))
                      pure tt)
                    (pure tt))
              (pure tt))
        λ _. pure tt

  -- The metrics of the step that ends, if its recovery was seen.
  unfoldable pub account_recovery :
      ChaosExperiment → Scenario → Time → Handler c (Option ExperimentMetrics)
  account_recovery exp spec injected_at =
      unless_nil exp.status.recovered_at (pure exp.status.metrics) λ t. do
        emit (
            observed recovery_time_seconds
              (exp.metadata.namespace ∷ source_label exp ∷ type_text spec.kind ∷ [])
              (since t injected_at))
        m ← deref exp.status.metrics
        pure (some (with_recovery exp m (since t injected_at)))

  -- Duration elapsed: revert and advance.
  unfoldable pub advance_step : ChaosExperiment → Scenario → Time → Handler c ReconcileResult
  advance_step exp spec injected_at = do
    s ← wrapping "build scenario for revert" (lift (build_scenario c spec))
    wrapping ("revert " <> type_text spec.kind) (s.revert (target_from_spec exp))
    metrics ← account_recovery exp spec injected_at
    emit (
        event "Normal" "Reverted" (
          "Reverted scenario "
          <> (type_text spec.kind
              <> (" " <> progress exp.status.current_scenario_index exp.spec.scenarios))))
    exp' ←
        wrapping "update status after revert"
          (Calls.update_experiment_status c (advanced exp metrics))
    pure (requeue (pause_between exp'.spec.execution))

  -- State 2/3: already injected, check duration.
  unfoldable pub watch_step : ChaosExperiment → Scenario → Time → Handler c ReconcileResult
  watch_step exp spec injected_at = do
    t ← Calls.now c
    branch (ltb_ℤ (pos 0) (remaining spec t injected_at))
        (do
          poll_recovery exp injected_at
          pure (requeue (min_ℤ (pos 5_000_000_000) (remaining spec t injected_at))))
        (advance_step exp spec injected_at)

  unfoldable pub reconcile_running : ChaosExperiment → Handler c ReconcileResult
  reconcile_running exp =
      branch (is_past exp.status.current_scenario_index exp.spec.scenarios) (complete exp) (do
        spec ← element exp.spec.scenarios exp.status.current_scenario_index
        unless_nil exp.status.injected_at (inject_step exp spec) (watch_step exp spec))
