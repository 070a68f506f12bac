-- ===== src/Safeguard/Chain.antt =====
-- A halt from the watcher over the reconciler of the experiment to that of the schedule.
use entropyk.Base.{String, ◌<>◌, true, false, none, some, [], ◌∷◌, ◌≡◌, pos, refl, ap}
use entropyk.Base.Text.{contains}
use entropyk.Go.{Std}
use entropyk.Kube.{ObjectKey}
use entropyk.Api.Experiment.{HaltCode, code_text, ChaosExperiment, is_halted}
use entropyk.Api.Schedule.{ChaosSchedule, running}
use entropyk.Metrics.{experiments_halted_total, safeguard_halts_total}
use entropyk.Runtime.{World, Write, written, counted, event, returned}
use entropyk.Calls.{report}
use entropyk.Cluster.{Cluster}
use entropyk.Safeguard.Watcher.{Watcher, annotated, halt_experiment}
use entropyk.Safeguard.Halting.{annotated-reason, annotated-code}
use entropyk.Experiment.Parts.{experiment_finalizer, source_label, done}
use entropyk.Experiment.Reconcile.{is_zero, clear_annotations, halted_by, reconcile}
use entropyk.Experiment.Invariant.{Inv}
use entropyk.Experiment.Lifetime.{edited-Inv}
use entropyk.Schedule.Gate.{ScheduleReconciler}
use entropyk.Schedule.Firing.{beside}
use entropyk.Schedule.Reconcile as Schedule
use entropyk.Schedule.Reconcile.{run_halted, follow_run, settle_run}
use entropyk.Api.Schedule as Phase
use entropyk.Schedule.Firing.{plus_one}
use entropyk.Safeguard.Relay.{
  at_version, Relays, reconcile-read, halt_experiment-written, reconcile_found-halted,
  reconcile_schedule-halted,
}

-- If a schedule is running, not suspended and has an active experiment, the watcher asks for a halt
-- of that experiment by a code and a detail, and the server accepts each write, but for the one that
-- clears the annotations, which it may refuse, and shows to each read what was last written, then
-- one reconcile of the experiment and one of the schedule carry the halt through. The experiment
-- satisfies the invariant, is not halted, is not being deleted and has the finalizer. The schedule
-- ends halted with the detail as its last reason, asks for no requeue, and the log of the three
-- says, oldest first: the annotations, the watcher's count, the halted status, its event and its
-- count under the code, the cleared annotations, the schedule's status, and its event. That status
-- is the one read but for the phase, the active experiment, the count of halted runs and the last
-- reason.
pub halt_experiment-arrives :
    (c : Cluster) (std : Std) (watcher : Watcher c std) (r : ScheduleReconciler c std)
    (key : ObjectKey) (sched : ChaosSchedule) (name : String) (exp : ChaosExperiment)
    (code : HaltCode) (detail : String) (w : World c.State)
    → sched.spec.suspend ≡ false
    → sched.status.phase ≡ running
    → sched.status.active_experiment_name ≡ some name
    → Inv exp
    → is_halted exp.status.phase ≡ false
    → is_zero exp.metadata.deletion_timestamp ≡ true
    → contains experiment_finalizer exp.metadata.finalizers ≡ true
    → (x : Relays c key sched name exp code detail w.state)
    → let asked = annotated exp code detail in
      let saved = at_version x.version' (halted_by asked detail) in
      let w1 = (halt_experiment c std watcher exp code detail w).1 in
      let w2 = (reconcile c (beside sched name) w1).1 in
      (Schedule.reconcile c std r key w2 ≡ (
        returned done,
        record {
          state = x.s7;
          log =
              event "Warning" "ExperimentHalted"
                ("Experiment " <> (x.last.metadata.name <> (" halted: " <> detail)))
              ∷ written (Write.schedule_status (run_halted sched (some detail)))
              ∷ report x.cleared (Write.experiment (clear_annotations saved))
              ∷ counted experiments_halted_total
                  (saved.metadata.namespace ∷ source_label saved ∷ code_text code ∷ [])
                  (pos 1)
              ∷ event "Warning" "Halted" ("Experiment halted by safeguard: " <> detail)
              ∷ written (Write.experiment_status (halted_by (at_version x.version asked) detail))
              ∷ counted safeguard_halts_total
                  (x.kept.metadata.namespace ∷ code_text code ∷ [])
                  (pos 1)
              ∷ written (Write.experiment asked)
              ∷ w.log;
        },
      ))
      × ((run_halted sched (some detail)).status ≡ record sched.status {
        phase = Phase.halted;
        active_experiment_name = none;
        history = record sched.status.history {
          halted_runs = plus_one sched.status.history.halted_runs;
          last_halt_reason = some detail;
        };
      })
halt_experiment-arrives c std watcher r key sched name exp code detail w live runs active inv going
      kept held x =
    let seen = at_version x.version (annotated exp code detail) in
    let seen_inv : Inv seen = unfold annotated in edited-Inv refl refl inv in
    let w1 : World c.State = record {
      state = x.s1;
      log =
          counted safeguard_halts_total (x.kept.metadata.namespace ∷ code_text code ∷ []) (pos 1)
          ∷ written (Write.experiment (annotated exp code detail))
          ∷ w.log;
    } in
    (
      rw
          (
            halt_experiment-written c std watcher exp code detail w x.asked,
            reconcile-read c (beside sched name) w1 x.read,
            reconcile_found-halted c seen code detail (record w1 { state = x.s2 }) seen_inv
                (unfold annotated in kept) (unfold annotated in held) (unfold annotated in going)
                (annotated-reason exp code detail) (annotated-code exp code detail) x.halted
                x.dropped,
          )
          (reconcile_schedule-halted c std r key sched name detail _ live runs active x.found
            x.looked (unfold halted_by in ap (λ s. s.phase) x.still)
            (unfold halted_by in ap (λ s. s.halt_reason) x.still) x.recorded),
      unfold run_halted in refl,
    )
