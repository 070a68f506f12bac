-- ===== src/Experiment/Reconcile.antt =====
-- internal/controller/chaosexperiment_controller.go: `Reconcile` and `reconcilePending`.
use entropyk.Base.{
  pos, String, ◌<>◌, Bool, true, not, Option, none, some, [], ◌∷◌, ◌++◌, leb_ℤ, ◌&&◌,
}
use entropyk.Base.Text.{lookup, lookup_or_empty, erase, contains, remove}
use entropyk.Go.{wrap, Time, second}
use entropyk.Kube.{ObjectKey}
use entropyk.Api.Experiment.{
  ExperimentPhase, ChaosExperiment, unset, pending, running, completed, failed, halted, other_phase,
  is_halted, annotation_halt_reason, annotation_halt_code,
}
use entropyk.Metrics.{experiments_halted_total}
use entropyk.Runtime.{
  event, counted, ask, pure, raise, wrapping, on_error, emit, branch, unless_nil, ◌>>=◌, ◌>>◌,
}
use entropyk.Calls
use entropyk.Cluster.{Cluster, Handler}
use entropyk.Experiment.Parts.{
  experiment_finalizer, ReconcileResult, done, requeue, source_label, revert_if_active,
}
use entropyk.Experiment.Running.{reconcile_running}

-- `IsZero` of a `*metav1.Time`; instants are counted from Go's zero time.
unfoldable pub is_zero : Option Time → Bool
is_zero none = true
is_zero (some t) = leb_ℤ t (pos 0) && leb_ℤ (pos 0) t

-- `controllerutil.AddFinalizer`, where the finalizer is not there, and `RemoveFinalizer`
unfoldable pub add_finalizer : ChaosExperiment → ChaosExperiment
add_finalizer exp = record exp {
  metadata = record exp.metadata {
    finalizers = exp.metadata.finalizers ++ (experiment_finalizer ∷ []);
  };
}

unfoldable pub remove_finalizer : ChaosExperiment → ChaosExperiment
remove_finalizer exp = record exp {
  metadata = record exp.metadata {
    finalizers = remove experiment_finalizer exp.metadata.finalizers;
  };
}

-- The two `delete(exp.Annotations, …)`
unfoldable pub clear_annotations : ChaosExperiment → ChaosExperiment
clear_annotations exp = record exp {
  metadata = record exp.metadata {
    annotations =
        erase annotation_halt_code (erase annotation_halt_reason exp.metadata.annotations);
  };
}

unfoldable pub halted_by : ChaosExperiment → String → ChaosExperiment
halted_by exp reason = record exp {
  status = record exp.status { phase = halted; halt_reason = some reason };
}

unfoldable pub started : ChaosExperiment → ChaosExperiment
started exp = record exp { status = record exp.status { phase = running } }

module _ (c : Cluster) where
  unfoldable pub reconcile_pending : ChaosExperiment → Handler c ReconcileResult
  reconcile_pending exp = do
    wrapping "update status to Running" (Calls.update_experiment_status c (started exp))
    emit (event "Normal" "Started" "Experiment started")
    pure (requeue second)

  unfoldable pub finalize : ChaosExperiment → Handler c ReconcileResult
  finalize exp =
      branch (contains experiment_finalizer exp.metadata.finalizers)
        (do
          wrapping "revert on deletion" (revert_if_active c exp)
          wrapping "remove finalizer" (Calls.update_experiment c (remove_finalizer exp))
          pure done)
        (pure done)

  unfoldable pub drop_annotations : ChaosExperiment → Handler c ReconcileResult
  drop_annotations exp = do
    wrapping "remove halt annotations" (Calls.update_experiment c (clear_annotations exp))
    pure done

  -- The branch for an experiment that carries the annotation `halt-reason`.
  unfoldable pub halt : ChaosExperiment → String → Handler c ReconcileResult
  halt exp reason =
      let code = lookup_or_empty annotation_halt_code exp.metadata.annotations in
      branch (is_halted exp.status.phase) (drop_annotations exp) (do
        wrapping "revert on halt" (revert_if_active c exp)
        exp' ←
            wrapping "update status to Halted"
              (Calls.update_experiment_status c (halted_by exp reason))
        emit (event "Warning" "Halted" ("Experiment halted by safeguard: " <> reason))
        emit (
            counted experiments_halted_total
              (exp'.metadata.namespace ∷ source_label exp' ∷ code ∷ []) (pos 1))
        drop_annotations exp')

  -- The switch on the phase.
  unfoldable pub by_phase : ExperimentPhase → ChaosExperiment → Handler c ReconcileResult
  by_phase unset exp = reconcile_pending exp
  by_phase pending exp = reconcile_pending exp
  by_phase running exp = reconcile_running c exp
  by_phase completed exp = pure done
  by_phase failed exp = pure done
  by_phase halted exp = pure done
  by_phase (other_phase _) exp = pure done

  -- `Reconcile` once the experiment is read.
  unfoldable pub reconcile_found : ChaosExperiment → Handler c ReconcileResult
  reconcile_found exp = branch (not (is_zero exp.metadata.deletion_timestamp)) (finalize exp) (
      branch (not (contains experiment_finalizer exp.metadata.finalizers))
        (do
          wrapping "add finalizer" (Calls.update_experiment c (add_finalizer exp))
          pure (requeue second))
        (unless_nil (lookup annotation_halt_reason exp.metadata.annotations)
          (by_phase exp.status.phase exp) (halt exp)))

  unfoldable pub reconcile : ObjectKey → Handler c ReconcileResult
  reconcile key =
      on_error (ask (c.get_experiment key))
        (λ e. branch e.not_found (pure done) (raise (wrap "get ChaosExperiment" e))) reconcile_found
