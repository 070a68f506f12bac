-- ===== src/Safeguard/Relay.antt =====
-- What each of the three parts does with a halt that goes through them, and the server's answers.
use entropyk.Base.{String, ◌<>◌, true, false, some, [], ◌∷◌, ◌≡◌, pos, arith, refl}
use entropyk.Base.Text.{lookup, lookup_or_empty, contains}
use entropyk.Go.{Std, Result, ok}
use entropyk.Kube.{ObjectKey}
use entropyk.Api.Experiment.{
  halted, HaltCode, code_text, annotation_halt_reason, annotation_halt_code, ChaosExperiment,
  is_halted,
}
use entropyk.Api.Schedule.{ChaosSchedule, running}
use entropyk.Metrics.{experiments_halted_total, safeguard_halts_total}
use entropyk.Runtime.{World, Write, written, counted, event, returned, on_error, ask, monad}
use entropyk.Calls.{report, perform}
use entropyk.Cluster.{Cluster}
use entropyk.Safeguard.Watcher.{Watcher, annotated, halt_experiment}
use entropyk.Experiment.Parts.{experiment_finalizer, source_label, done}
use entropyk.Experiment.Reconcile.{
  is_zero, clear_annotations, halted_by, reconcile_found, reconcile,
}
use entropyk.Experiment.Invariant.{Inv}
use entropyk.Experiment.Ending.{halt-unblocked}
use entropyk.Schedule.Gate.{ScheduleReconciler}
use entropyk.Schedule.Firing.{beside}
use entropyk.Schedule.Reconcile as Schedule
use entropyk.Schedule.Reconcile.{run_halted, follow_run, settle_run}

-- The same object with another version.
abbrev pub at_version : String → ChaosExperiment → ChaosExperiment
at_version v e = record e { metadata = record e.metadata { resource_version = v } }

-- The answers of a server that accepts what is written, from the watcher's update to the schedule's
-- status, and where each object that is read is what was last written.
pub record Relays (c : Cluster) (key : ObjectKey) (sched : ChaosSchedule) (name : String)
    (exp : ChaosExperiment) (code : HaltCode) (detail : String) (s : c.State) : Type 0 where
  pub kept : ChaosExperiment
  pub s1 : c.State
  pub asked : c.update_experiment (annotated exp code detail) s ≡ (ok kept, s1)
  pub version : String
  pub s2 : c.State
  pub read :
      c.get_experiment (beside sched name) s1
      ≡ (ok (at_version version (annotated exp code detail)), s2)
  pub version' : String
  pub s3 : c.State
  pub halted :
      c.update_experiment_status
        (halted_by (at_version version (annotated exp code detail)) detail)
        s2
      ≡ (ok (at_version version' (halted_by (annotated exp code detail) detail)), s3)
  pub cleared : Result ChaosExperiment
  pub s4 : c.State
  pub dropped :
      c.update_experiment
        (clear_annotations (at_version version' (halted_by (annotated exp code detail) detail)))
        s3
      ≡ (cleared, s4)
  pub s5 : c.State
  pub found : c.get_schedule key s4 ≡ (ok sched, s5)
  pub last : ChaosExperiment
  pub s6 : c.State
  pub looked : c.get_experiment (beside sched name) s5 ≡ (ok last, s6)
  pub still : last.status ≡ (halted_by (annotated exp code detail) detail).status
  pub answer : ChaosSchedule
  pub s7 : c.State
  pub recorded : c.update_schedule_status (run_halted sched (some detail)) s6 ≡ (ok answer, s7)

module _ (c : Cluster) where
  pub reconcile-read :
      (key : ObjectKey) (w : World c.State) {exp : ChaosExperiment} {s : c.State}
      → c.get_experiment key w.state ≡ (ok exp, s)
      → reconcile c key w ≡ reconcile_found c exp (record w { state = s })
  unfolding reconcile on_error ask
  reconcile-read key w found = rw found refl

  pub halt_experiment-written :
      (std : Std) (watcher : Watcher c std) (exp : ChaosExperiment) (code : HaltCode)
      (detail : String) (w : World c.State) {kept : ChaosExperiment} {s : c.State}
      → c.update_experiment (annotated exp code detail) w.state ≡ (ok kept, s)
      → (halt_experiment c std watcher exp code detail w).1 ≡ record {
        state = s;
        log =
            counted safeguard_halts_total (kept.metadata.namespace ∷ code_text code ∷ []) (pos 1)
            ∷ written (Write.experiment (annotated exp code detail))
            ∷ w.log;
      }
  unfolding halt_experiment perform monad
  halt_experiment-written std watcher exp code detail w asked = rw asked refl

  pub reconcile_found-halted :
      (seen : ChaosExperiment) (code : HaltCode) (detail : String) (w : World c.State)
      {saved : ChaosExperiment} {cleared : Result ChaosExperiment} {s s' : c.State}
      → Inv seen
      → is_zero seen.metadata.deletion_timestamp ≡ true
      → contains experiment_finalizer seen.metadata.finalizers ≡ true
      → is_halted seen.status.phase ≡ false
      → lookup annotation_halt_reason seen.metadata.annotations ≡ some detail
      → lookup_or_empty annotation_halt_code seen.metadata.annotations ≡ code_text code
      → c.update_experiment_status (halted_by seen detail) w.state ≡ (ok saved, s)
      → c.update_experiment (clear_annotations saved) s ≡ (cleared, s')
      → (reconcile_found c seen w).1 ≡ record {
        state = s';
        log =
            report cleared (Write.experiment (clear_annotations saved))
            ∷ counted experiments_halted_total
                (saved.metadata.namespace ∷ source_label saved ∷ code_text code ∷ [])
                (pos 1)
            ∷ event "Warning" "Halted" ("Experiment halted by safeguard: " <> detail)
            ∷ written (Write.experiment_status (halted_by seen detail))
            ∷ w.log;
      }
  reconcile_found-halted seen code detail w inv kept held live reason named accepted dropped =
      rw (halt-unblocked c seen inv w kept held reason live)
        (ground (arith, accepted, dropped, named))

  pub reconcile_schedule-halted :
      (std : Std) (r : ScheduleReconciler c std) (key : ObjectKey) (sched : ChaosSchedule)
      (name detail : String) (w : World c.State) {last : ChaosExperiment} {answer : ChaosSchedule}
      {s s' s'' : c.State}
      → sched.spec.suspend ≡ false
      → sched.status.phase ≡ running
      → sched.status.active_experiment_name ≡ some name
      → c.get_schedule key w.state ≡ (ok sched, s)
      → c.get_experiment (beside sched name) s ≡ (ok last, s')
      → last.status.phase ≡ halted
      → last.status.halt_reason ≡ some detail
      → c.update_schedule_status (run_halted sched (some detail)) s' ≡ (ok answer, s'')
      → Schedule.reconcile c std r key w ≡ (
        returned done,
        record {
          state = s'';
          log =
              event "Warning" "ExperimentHalted"
                ("Experiment " <> (last.metadata.name <> (" halted: " <> detail)))
              ∷ written (Write.schedule_status (run_halted sched (some detail)))
              ∷ w.log;
        },
      )
  unfolding Schedule.reconcile Schedule.reconcile_found Schedule.by_phase Schedule.reconcile_running
      follow_run settle_run perform monad
  reconcile_schedule-halted std r key sched name detail w live runs active found looked over reason
        recorded =
      ground (arith, found, live, runs, active, looked, over, reason, recorded)
