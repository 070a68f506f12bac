-- ===== src/Schedule/Firing.antt =====
-- internal/controller/chaosschedule_controller.go: `createExperiment` and `reconcileIdle`.
use entropyk.Base.{ℤ, pos, ◌+ℤ◌, wrap32, ltb_ℤ, String, ◌<>◌, none, some, [], ◌∷◌}
use entropyk.Base.Text.{decimal}
use entropyk.Go.{Time, Std, second, unix}
use entropyk.Kube.{ObjectKey}
use entropyk.Api.Experiment.{ChaosExperiment, label_schedule}
use entropyk.Api.Schedule.{ChaosSchedule, running, failed}
use entropyk.Runtime.{event, ask, pure, lift, wrapping, on_error, emit, branch, ◌>>=◌, ◌>>◌}
use entropyk.Calls
use entropyk.Cluster.{Cluster, Handler}
use entropyk.Experiment.Parts.{ReconcileResult, done, requeue, since}
use entropyk.Experiment.Lifetime.{no_status}
use entropyk.Schedule.Gate.{ScheduleReconciler, Gate, safe, unsafe, check_safeguards}

-- The key of an object in the namespace of a schedule.
abbrev pub beside : ChaosSchedule → String → ObjectKey
beside sched name = record { namespace = sched.metadata.namespace; name = name }

-- `fmt.Sprintf("%s-%d", sched.Name, now.Unix())`
unfoldable pub run_name : ChaosSchedule → Time → String
run_name sched t = sched.metadata.name <> ("-" <> decimal (unix t))

-- The experiment of a run, from the template.
unfoldable pub new_run : ChaosSchedule → ChaosExperiment → String → ChaosExperiment
new_run sched template name = record {
  metadata = record {
    namespace = sched.metadata.namespace;
    name = name;
    resource_version = "";
    labels = (label_schedule, sched.metadata.name) ∷ [];
    annotations = [];
    finalizers = [];
    owner_references = [];
    creation_timestamp = pos 0;
    deletion_timestamp = none;
  };
  spec = template.spec;
  status = no_status;
}

unfoldable pub plus_one : ℤ → ℤ
plus_one n = wrap32 (n +ℤ pos 1)

-- The schedule once a run is created, and once a run is skipped.
unfoldable pub run_started : ChaosSchedule → String → Time → ChaosSchedule
run_started sched name t = record sched {
  status = record sched.status {
    phase = running;
    active_experiment_name = some name;
    last_schedule_time = some t;
    history = record sched.status.history { total_runs = plus_one sched.status.history.total_runs };
  };
}

unfoldable pub run_skipped : ChaosSchedule → Time → ChaosSchedule
run_skipped sched t = record sched { status = record sched.status { last_schedule_time = some t } }

-- The last run, or the creation.
unfoldable pub last_run : ChaosSchedule → Time
last_run sched = elim sched.status.last_schedule_time [
  | none ↦ sched.metadata.creation_timestamp
  | some t ↦ t
]

module _ (c : Cluster) (std : Std) (r : ScheduleReconciler c std) where
  unfoldable pub fail_schedule : ChaosSchedule → String → Handler c ReconcileResult
  fail_schedule sched reason = do
    wrapping "update status to Failed" (
        Calls.update_schedule_status c
          (record sched { status = record sched.status { phase = failed } }))
    emit (event "Warning" "Failed" (c.sprintf reason))
    pure done

  unfoldable pub skip_run : ChaosSchedule → String → Handler c ReconcileResult
  skip_run sched reason = do
    emit (event "Warning" "SafeguardBlocked" ("Skipping run: " <> reason))
    t ← Calls.now c
    wrapping "update status after safeguard block"
        (Calls.update_schedule_status c (run_skipped sched t))
    pure (requeue second)

  -- What follows the creation of the experiment.
  unfoldable pub note_run : ChaosSchedule → String → Handler c ReconcileResult
  note_run sched name = do
    t ← Calls.now c
    wrapping "update status after creating experiment"
        (Calls.update_schedule_status c (run_started sched name t))
    emit (event "Normal" "ExperimentCreated" ("Created experiment " <> name))
    pure (requeue second)

  unfoldable pub start_run : ChaosSchedule → ChaosExperiment → Handler c ReconcileResult
  start_run sched template = do
    t ← Calls.now c
    let name = run_name sched t
    exp ←
        wrapping "set owner reference"
          (lift (c.set_controller_reference sched (new_run sched template name)))
    on_error (Calls.create_experiment c exp)
        (λ e. fail_schedule sched ("create experiment: " <> e.text)) (λ _. note_run sched name)

  unfoldable pub by_gate : Gate → ChaosSchedule → ChaosExperiment → Handler c ReconcileResult
  by_gate safe sched template = start_run sched template
  by_gate (unsafe reason) sched template = skip_run sched reason

  unfoldable pub create_experiment : ChaosSchedule → Handler c ReconcileResult
  create_experiment sched =
      on_error (ask (c.get_experiment (beside sched sched.spec.experiment_ref)))
        (λ e.
          fail_schedule sched (
            "Get experiment template "
            <> (std.quote sched.spec.experiment_ref <> (": " <> e.text))))
        (λ template. do
          gate ← wrapping "check safeguards" (check_safeguards c std r sched template)
          by_gate gate sched template)

  -- Once the zone and the cron expression are read.
  unfoldable pub fire_or_wait : ChaosSchedule → c.Cron → Handler c ReconcileResult
  fire_or_wait sched cron = do
    now ← Calls.now c
    let next_run = c.cron_next cron (last_run sched)
    branch (ltb_ℤ now next_run) (pure (requeue (since next_run now))) (create_experiment sched)

  unfoldable pub reconcile_idle : ChaosSchedule → Handler c ReconcileResult
  reconcile_idle sched =
      on_error (lift (c.load_location sched.spec.timezone))
        (λ e.
          fail_schedule sched
            ("Invalid timezone " <> (std.quote sched.spec.timezone <> (": " <> e.text))))
        (λ _.
          on_error (lift (c.parse_cron sched.spec.schedule))
            (λ e.
              fail_schedule sched
                ("Invalid cron expression " <> (std.quote sched.spec.schedule <> (": " <> e.text))))
            (fire_or_wait sched))
