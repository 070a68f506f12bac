-- ===== src/Schedule/Reconcile.antt =====
-- internal/controller/chaosschedule_controller.go: `Reconcile` and `reconcileRunning`.
use entropyk.Base.{pos, String, ◌<>◌, not, Option, none, some}
use entropyk.Go.{wrap, Std, second}
use entropyk.Kube.{ObjectKey}
use entropyk.Api.Experiment
use entropyk.Api.Experiment.{ChaosExperiment, ExperimentPhase}
use entropyk.Api.Schedule.{
  SchedulePhase, unset, idle, running, paused, halted, completed, failed, other_phase,
  ChaosSchedule, is_paused,
}
use entropyk.Runtime.{event, ask, pure, raise, wrapping, on_error, emit, branch, unless_nil, ◌>>◌}
use entropyk.Calls
use entropyk.Cluster.{Cluster, Handler}
use entropyk.Experiment.Parts.{ReconcileResult, done, requeue}
use entropyk.Schedule.Gate.{ScheduleReconciler}
use entropyk.Schedule.Firing.{beside, plus_one, reconcile_idle}

unfoldable pub in_phase : SchedulePhase → ChaosSchedule → ChaosSchedule
in_phase phase sched = record sched { status = record sched.status { phase = phase } }

-- The schedule once its run is over or gone.
unfoldable pub run_over : SchedulePhase → ChaosSchedule → ChaosSchedule
run_over phase sched = record sched {
  status = record sched.status { phase = phase; active_experiment_name = none };
}

unfoldable pub run_succeeded : ChaosSchedule → ChaosSchedule
unfolding run_over
run_succeeded sched = record (run_over idle sched) {
  status = record (run_over idle sched).status {
    history = record sched.status.history {
      successful_runs = plus_one sched.status.history.successful_runs;
    };
  };
}

unfoldable pub run_halted : ChaosSchedule → Option String → ChaosSchedule
unfolding run_over
run_halted sched reason = record (run_over halted sched) {
  status = record (run_over halted sched).status {
    history = record sched.status.history {
      halted_runs = plus_one sched.status.history.halted_runs;
      last_halt_reason = reason;
    };
  };
}

abbrev pub reason_or_unknown : Option String → String
reason_or_unknown none = "unknown"
reason_or_unknown (some reason) = reason

module _ (c : Cluster) where
  -- A status write, an event and the result.
  unfoldable pub settle_run :
      String
      → ChaosSchedule
      → String
      → String
      → String
      → ReconcileResult
      → Handler c ReconcileResult
  settle_run context sched kind reason note result = do
    wrapping context (Calls.update_schedule_status c sched)
    emit (event kind reason note)
    pure result

  -- The switch on the phase of the active experiment.
  unfoldable pub follow_run :
      ExperimentPhase → ChaosSchedule → ChaosExperiment → Handler c ReconcileResult
  follow_run Experiment.completed sched exp =
      settle_run "update status after experiment completed" (run_succeeded sched) "Normal"
        "ExperimentCompleted" ("Experiment " <> (exp.metadata.name <> " completed"))
        (requeue second)
  follow_run Experiment.failed sched exp =
      settle_run "update status after experiment failed" (run_over idle sched) "Warning"
        "ExperimentFailed" ("Experiment " <> (exp.metadata.name <> " failed")) (requeue second)
  follow_run Experiment.halted sched exp =
      settle_run "update status after experiment halted" (run_halted sched exp.status.halt_reason)
        "Warning" "ExperimentHalted"
        ("Experiment "
          <> (exp.metadata.name <> (" halted: " <> reason_or_unknown exp.status.halt_reason)))
        done
  follow_run _ sched exp = pure (requeue (pos 30_000_000_000))

  -- Back to Idle, without an event.
  unfoldable pub to_idle : ChaosSchedule → Handler c ReconcileResult
  to_idle sched = do
    wrapping "update status to Idle" (Calls.update_schedule_status c sched)
    pure (requeue second)

  unfoldable pub reconcile_running : ChaosSchedule → Handler c ReconcileResult
  reconcile_running sched =
      unless_nil sched.status.active_experiment_name (to_idle (in_phase idle sched)) λ name.
        on_error (ask (c.get_experiment (beside sched name)))
          (λ e.
            branch e.not_found (to_idle (run_over idle sched))
              (raise (wrap "get active experiment" e)))
          (λ exp. follow_run exp.status.phase sched exp)

  unfoldable pub suspend : ChaosSchedule → Handler c ReconcileResult
  suspend sched =
      branch (not (is_paused sched.status.phase))
        (settle_run "update status to Paused" (in_phase paused sched) "Normal" "Paused"
          "Schedule suspended" done)
        (pure done)

module _ (c : Cluster) (std : Std) (r : ScheduleReconciler c std) where
  -- The switch on the phase.
  unfoldable pub by_phase : SchedulePhase → ChaosSchedule → Handler c ReconcileResult
  by_phase unset sched = reconcile_idle c std r sched
  by_phase idle sched = reconcile_idle c std r sched
  by_phase running sched = reconcile_running c sched
  by_phase paused sched =
      settle_run c "update status to Idle" (in_phase idle sched) "Normal" "Resumed"
        "Schedule resumed" (requeue second)
  by_phase halted sched = pure done
  by_phase completed sched = pure done
  by_phase failed sched = pure done
  by_phase (other_phase _) sched = pure done

  -- `Reconcile` once the schedule is read.
  unfoldable pub reconcile_found : ChaosSchedule → Handler c ReconcileResult
  reconcile_found sched =
      branch sched.spec.suspend (suspend c sched) (by_phase sched.status.phase sched)

  unfoldable pub reconcile : ObjectKey → Handler c ReconcileResult
  reconcile key =
      on_error (ask (c.get_schedule key))
        (λ e. branch e.not_found (pure done) (raise (wrap "get ChaosSchedule" e))) reconcile_found
