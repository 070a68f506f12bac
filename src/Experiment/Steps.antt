-- ===== src/Experiment/Steps.antt =====
-- The life of an experiment as a relation between its object as it was read and the object whose
-- status the reconciler writes. The times are those that the clock gives.
use entropyk.Base.{
  pos, ltb_ℤ, leb_ℤ, String, true, false, Option, none, some, ◌≡◌, ◌⊎◌, length, [], ◌∷◌, ◌++◌,
}
use entropyk.Base.Text.{lookup, contains, erase, remove}
use entropyk.Go.{ok, Time}
use entropyk.Api.Experiment.{
  ExperimentPhase, unset, pending, running, completed, failed, pod_kill, Scenario,
  ExperimentMetrics, ChaosExperiment, is_halted, annotation_halt_reason, annotation_halt_code,
}
use entropyk.Metrics.{counter_labels, histogram_labels}
use entropyk.Runtime.{Effect, Write, written, refused, counted, observed}
use entropyk.Calls.{IsRead}
use entropyk.Cluster.{Cluster}
use entropyk.Scenario.PodKill.{is_pod_running}
use entropyk.Experiment.Parts.{
  experiment_finalizer, recovery_grace_period, element?, is_past, since,
}
use entropyk.Experiment.Running.{injected, recovered, advanced, with_recovery, remaining}
use entropyk.Experiment.Reconcile.{is_zero, started, halted_by}

abbrev pub ended_as : ExperimentPhase → ChaosExperiment → ChaosExperiment
ended_as phase exp = record exp { status = record exp.status { phase = phase } }

-- The metrics that a step leaves, which began at `t0`.
abbrev pub accounted :
    ChaosExperiment → Time → Option Time → Option ExperimentMetrics → Option ExperimentMetrics
accounted exp t0 none metrics = metrics
accounted exp t0 (some t) none = none
accounted exp t0 (some t) (some m) = some (with_recovery exp m (since t t0))

-- The step that an experiment is at, and that it is running.
pub record IsAt (exp : ChaosExperiment) (spec : Scenario) : Type 0 where
  pub in_running : exp.status.phase ≡ running
  pub in_range : is_past exp.status.current_scenario_index exp.spec.scenarios ≡ false
  pub found : element? exp.spec.scenarios exp.status.current_scenario_index ≡ some spec

pub data Step (c : Cluster) (exp next : ChaosExperiment) : Type 0 where
  start :
      (exp.status.phase ≡ unset) ⊎ (exp.status.phase ≡ pending)
      → next ≡ started exp
      → Step c exp next
  inject :
      (spec : Scenario) (t : Time)
      → IsAt exp spec
      → IsRead c t
      → spec.kind ≡ pod_kill
      → exp.status.injected_at ≡ none
      → next ≡ injected exp spec t
      → Step c exp next
  recover :
      (spec : Scenario) (t0 t u v : Time)
      → IsAt exp spec
      → exp.status.injected_at ≡ some t0
      → exp.status.recovered_at ≡ none
      → IsRead c t
      → IsRead c u
      → IsRead c v
      → ltb_ℤ (pos 0) (remaining spec t t0) ≡ true
      → leb_ℤ recovery_grace_period (since u t0) ≡ true
      → next ≡ recovered exp v
      → Step c exp next
  advance :
      (spec : Scenario) (t0 t : Time)
      → IsAt exp spec
      → exp.status.injected_at ≡ some t0
      → IsRead c t
      → ltb_ℤ (pos 0) (remaining spec t t0) ≡ false
      → next ≡ advanced exp (accounted exp t0 exp.status.recovered_at exp.status.metrics)
      → Step c exp next
  complete :
      exp.status.phase ≡ running
      → is_past exp.status.current_scenario_index exp.spec.scenarios ≡ true
      → next ≡ ended_as completed exp
      → Step c exp next
  fail :
      (spec : Scenario)
      → IsAt exp spec
      → exp.status.injected_at ≡ none
      → next ≡ ended_as failed exp
      → Step c exp next
  halt :
      (reason : String)
      → is_halted exp.status.phase ≡ false
      → lookup annotation_halt_reason exp.metadata.annotations ≡ some reason
      → next ≡ halted_by exp reason
      → Step c exp next

-- An experiment that the server gave back for a status of `exp` that is a step on.
pub record IsAnswer (c : Cluster) (exp e : ChaosExperiment) : Type 0 where
  pub next : ChaosExperiment
  pub step : Step c exp next
  pub state : c.State
  pub given : (c.update_experiment_status next state).0 ≡ ok e

-- What an update writes: the experiment with the finalizer put on it, where it was not and there is no
-- deletion; with the finalizer taken off, where there is one; or, without the two annotations of a
-- halt, the experiment as it was read, where it is halted, or as the server gave it back.
pub data Edit (c : Cluster) (exp next : ChaosExperiment) : Type 0 where
  finalizer_added :
      is_zero exp.metadata.deletion_timestamp ≡ true
      → contains experiment_finalizer exp.metadata.finalizers ≡ false
      → next ≡ record exp {
        metadata = record exp.metadata {
          finalizers = exp.metadata.finalizers ++ (experiment_finalizer ∷ []);
        };
      }
      → Edit c exp next
  finalizer_removed :
      is_zero exp.metadata.deletion_timestamp ≡ false
      → contains experiment_finalizer exp.metadata.finalizers ≡ true
      → next ≡ record exp {
        metadata = record exp.metadata {
          finalizers = remove experiment_finalizer exp.metadata.finalizers;
        };
      }
      → Edit c exp next
  annotations_removed :
      (reason : String) (e : ChaosExperiment)
      → lookup annotation_halt_reason exp.metadata.annotations ≡ some reason
      → ((e ≡ exp) × (is_halted exp.status.phase ≡ true)) ⊎ IsAnswer c exp e
      → next ≡ record e {
        metadata = record e.metadata {
          annotations =
              erase annotation_halt_code (erase annotation_halt_reason e.metadata.annotations);
        };
      }
      → Edit c exp next

-- What a reconcile of `exp` may do: write a status that is a step on, update its finalizer and its
-- annotations, delete a pod that runs, and write events and metrics (each with as many values as the metric has labels); it touches
-- no schedule and creates nothing.
abbrev pub IsAllowed : (c : Cluster) → ChaosExperiment → Effect → Type 0
IsAllowed c exp (written (Write.experiment_status next)) = Step c exp next
IsAllowed c exp (refused (Write.experiment_status next)) = Step c exp next
IsAllowed c exp (written (Write.experiment next)) = Edit c exp next
IsAllowed c exp (refused (Write.experiment next)) = Edit c exp next
IsAllowed c exp (written (Write.pod_removal p)) = is_pod_running p ≡ true
IsAllowed c exp (refused (Write.pod_removal p)) = is_pod_running p ≡ true
IsAllowed c exp (written (Write.schedule_status _)) = ⊥
IsAllowed c exp (refused (Write.schedule_status _)) = ⊥
IsAllowed c exp (written (Write.new_experiment _)) = ⊥
IsAllowed c exp (refused (Write.new_experiment _)) = ⊥
IsAllowed c exp (counted k labels n) = length labels ≡ length (counter_labels k)
IsAllowed c exp (observed h labels d) = length labels ≡ length (histogram_labels h)
IsAllowed c exp _ = Unit
