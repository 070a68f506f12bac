-- ===== src/Experiment/Ending.antt =====
-- How an experiment ends from outside: by a deletion, or by a halt that the watcher asks for. Under
-- the invariant the revert of the current scenario stands in the way of neither.
use entropyk.Base.{
  pos, String, ◌<>◌, str_eq, ◌||◌, if◌then◌else◌, true, false, none, some, List, [], ◌∷◌, ◌≡◌,
  arith,
}
use entropyk.Base.Text.{lookup, lookup_or_empty, contains, lookup-erase, contains-remove}
use entropyk.Go.{Result, ok, err, wrap}
use entropyk.Api.Experiment.{
  ChaosExperiment, is_halted, annotation_halt_reason, annotation_halt_code,
}
use entropyk.Metrics.{experiments_halted_total}
use entropyk.Runtime.{
  World, Outcome, Effect, Write, returned, written, event, counted, outcome, monad, wrapping, pure,
  Action, ◌>>=◌, branch, unless_nil,
}
use entropyk.Runtime
use entropyk.Calls.{report, perform}
use entropyk.Cluster.{Cluster}
use entropyk.Scenario.PodKill.{revert, pod_kill_scenario}
use entropyk.Experiment.Parts.{
  experiment_finalizer, ReconcileResult, done, is_past, source_label, build_scenario,
  revert_if_active,
}
use entropyk.Experiment.Reconcile.{
  is_zero, remove_finalizer, clear_annotations, halted_by, finalize, drop_annotations, halt,
  reconcile_found,
}
use entropyk.Experiment.Invariant.{Inv, not-Inv_of_no_scenario}

-- The outcome of a reconcile whose last call is a write that may be refused.
abbrev pub done_or_wrapped : {A : Type 0} → String → Result A → Outcome ReconcileResult
done_or_wrapped context (ok _) = returned done
done_or_wrapped context (err e) = Runtime.failed (wrap context e)

module _ (c : Cluster) (exp : ChaosExperiment) (inv : Inv exp) (w : World c.State) where
  -- Reverting does nothing and does not fail.
  pub revert_if_active-quiet : revert_if_active c exp w ≡ (returned tt, w)
  unfolding revert_if_active monad build_scenario pod_kill_scenario revert is_past
  revert_if_active-quiet =
      ground (arith, inv.nonneg, inv.injected_inside, inv.injected_pods, not-Inv_of_no_scenario exp)

  -- An experiment that satisfies the invariant, is being deleted and has the finalizer loses it in one
  -- write, and the reconcile fails only if the server refuses that write.
  pub deletion-unblocked :
      is_zero exp.metadata.deletion_timestamp ≡ false
      → contains experiment_finalizer exp.metadata.finalizers ≡ true
      → let (r, s) = c.update_experiment (remove_finalizer exp) w.state in
        (reconcile_found c exp w ≡ (
          done_or_wrapped "remove finalizer" r,
          record { state = s; log = report r (Write.experiment (remove_finalizer exp)) ∷ w.log },
        ))
        × (contains experiment_finalizer (remove_finalizer exp).metadata.finalizers ≡ false)
  unfolding reconcile_found finalize monad perform
  deletion-unblocked deleted held =
      (ground (arith, revert_if_active-quiet), unfold remove_finalizer in contains-remove _ _)

  -- The effects of a halt once the status is written as `saved`, newest first.
  abbrev pub halt_effects : String → ChaosExperiment → List Effect → List Effect
  halt_effects reason saved log =
      counted experiments_halted_total
        (saved.metadata.namespace
          ∷ source_label saved
          ∷ lookup_or_empty annotation_halt_code exp.metadata.annotations
          ∷ [])
        (pos 1)
      ∷ event "Warning" "Halted" ("Experiment halted by safeguard: " <> reason)
      ∷ written (Write.experiment_status (halted_by exp reason))
      ∷ log

  -- An experiment that satisfies the invariant, is not being deleted, has the finalizer, is not halted
  -- and carries the annotation of a halt is halted for the reason in it by one status write.
  -- If the server accepts it, the halt is reported and counted under the code of the annotations, and
  -- a second write clears the annotations of the object that the server gave back. The reconcile
  -- fails only if the server refuses one of the two.
  pub halt-unblocked :
      {reason : String}
      → is_zero exp.metadata.deletion_timestamp ≡ true
      → contains experiment_finalizer exp.metadata.finalizers ≡ true
      → lookup annotation_halt_reason exp.metadata.annotations ≡ some reason
      → is_halted exp.status.phase ≡ false
      → reconcile_found c exp w ≡ (
          let (r, s) = c.update_experiment_status (halted_by exp reason) w.state in
          elim r [
            | err e ↦ (
              Runtime.failed (wrap "update status to Halted" e),
              record {
                state = s;
                log = Effect.refused (Write.experiment_status (halted_by exp reason)) ∷ w.log;
              },
            )
            | ok saved ↦
                let (r', s') = c.update_experiment (clear_annotations saved) s in
                (
                  done_or_wrapped "remove halt annotations" r',
                  record {
                    state = s';
                    log =
                        report r' (Write.experiment (clear_annotations saved))
                        ∷ halt_effects reason saved w.log;
                  },
                )
          ])
  unfolding reconcile_found halt drop_annotations monad perform
  halt-unblocked live held asked running = ground (arith, revert_if_active-quiet)

-- The two halt annotations, and no others, are taken off.
pub lookup-clear_annotations :
    (key : String) (exp : ChaosExperiment)
    → lookup key (clear_annotations exp).metadata.annotations ≡ (
        if str_eq annotation_halt_code key || str_eq annotation_halt_reason key
        then none
        else lookup key exp.metadata.annotations)
unfolding clear_annotations
lookup-clear_annotations key exp = simp lookup-erase (ground arith)
