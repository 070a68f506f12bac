-- ===== src/Experiment/Keeping.antt =====
-- What a reconcile of an experiment keeps: any property that its calls keep.
pub mod Running
use entropyk.Base.{
  ℤ, pos, ltb_ℤ, String, true, false, [], ◌∷◌, Option, none, some, ◌≡◌, refl, ◌⊎◌, inl, inr, arith,
}
use mathlib.Core.Path.{subst}
use entropyk.Go.{ok, Time}
use entropyk.Kube.{ObjectKey}
use entropyk.Api.Experiment.{
  pod_kill, Scenario, ExperimentPhase, unset, pending, running, completed, failed, halted,
  other_phase, ExperimentMetrics, ChaosExperiment,
}
use entropyk.Base.Text.{lookup}
use entropyk.Metrics.{recovery_time_seconds}
use entropyk.Api.Experiment.{annotation_halt_reason, is_halted}
use entropyk.Runtime.{
  World, Effect, Holds, Keeps, run-Holds, Holds-pure, Keeps-ask, Holds-bind, Holds-wrapping,
  Holds-branch, Keeps-emit, Holds-unless_nil, Holds-on_error, Holds-bind_deref, Holds-bind_lift,
  Holds-on_error-lift, Fine, deref, on_error, ask, wrapping, ◌>>=◌, ◌>>◌, Action, observed,
  unless_nil, emit, pure, monad, keeps,
}
use entropyk.Calls
use entropyk.Calls.{Keeps-perform, Keeps-now}
use entropyk.Cluster.{Cluster}
use entropyk.Scenario
use entropyk.Scenario.PodKill.{revert, pod_kill_scenario}
use entropyk.Experiment.Parts.{
  build_scenario, kill_count, check_recovery, revert_if_active, count_end, fail_experiment,
  source_label, type_text, since,
}
use entropyk.Experiment.Running.{
  complete, count_pods, record_injection, inject_step, poll_recovery, account_recovery,
  advance_step, watch_step, reconcile_running, remaining, with_recovery,
}
use entropyk.Experiment.Reconcile.{
  add_finalizer, remove_finalizer, clear_annotations, reconcile_pending, finalize, drop_annotations,
  halt, by_phase, reconcile_found, reconcile, is_zero,
}
use entropyk.Experiment.Invariant.{Inv, not-Inv_of_no_scenario, not-Inv_of_no_metrics}
use entropyk.Experiment.Steps.{
  Step, IsAnswer, finalizer_added, finalizer_removed, annotations_removed, IsAllowed, IsAt,
  accounted, start, inject, recover, advance, fail,
}
use entropyk.Experiment.Policy.{Policy, Holds-allowed, Holds-time, Holds-update, Holds-write}
use entropyk.Experiment.Keeping.Running.{Holds-revert_if_active, Holds-reconcile_running}

module _ (c : Cluster) (exp : ChaosExperiment) {I : World c.State → Type 0}
    (policy : Policy c exp I) where
  Holds-reconcile_pending :
      (exp.status.phase ≡ unset) ⊎ (exp.status.phase ≡ pending)
      → Holds I (¬ Inv exp) (reconcile_pending c exp)
  unfolding reconcile_pending
  Holds-reconcile_pending fresh =
      Holds-write c exp policy _ _ _ (start fresh refl)
        λ e _ _. Holds-bind _ _ (Holds-allowed c exp policy _ tt) λ _. Holds-pure _

  Holds-by_phase :
      (phase : ExperimentPhase)
      → exp.status.phase ≡ phase
      → Holds I (¬ Inv exp) (by_phase c phase exp)
  unfolding by_phase
  Holds-by_phase unset e = Holds-reconcile_pending (inl e)
  Holds-by_phase pending e = Holds-reconcile_pending (inr e)
  Holds-by_phase running e = Holds-reconcile_running c exp policy e
  Holds-by_phase completed e = Holds-pure _
  Holds-by_phase failed e = Holds-pure _
  Holds-by_phase halted e = Holds-pure _
  Holds-by_phase (other_phase _) e = Holds-pure _

  pub Holds-drop_annotations :
      (reason : String) (e : ChaosExperiment)
      → lookup annotation_halt_reason exp.metadata.annotations ≡ some reason
      → ((e ≡ exp) × (is_halted exp.status.phase ≡ true)) ⊎ IsAnswer c exp e
      → policy.Saved e.spec
      → Holds I (¬ Inv exp) (drop_annotations c e)
  unfolding drop_annotations clear_annotations
  Holds-drop_annotations reason e asked source kept =
      Holds-bind _ _
        (Holds-update c exp policy _ _ (annotations_removed reason e asked source refl) kept)
        λ _. Holds-pure _

  Holds-halt :
      (reason : String)
      → lookup annotation_halt_reason exp.metadata.annotations ≡ some reason
      → Holds I (¬ Inv exp) (halt c exp reason)
  unfolding halt
  Holds-halt reason asked =
      Holds-branch _ _ _
        (λ was. Holds-drop_annotations reason exp asked (inl (refl, was)) policy.own)
        λ live. Holds-bind _ _ (Holds-wrapping _ _ (Holds-revert_if_active c exp)) λ _.
          Holds-write c exp policy _ _ _ (Step.halt reason live asked refl) λ e answer kept.
            Holds-bind _ _ (Holds-allowed c exp policy _ tt) λ _.
              Holds-bind _ _ (Holds-allowed c exp policy _ refl)
                λ _. Holds-drop_annotations reason e asked (inr answer) kept

  Holds-finalize :
      is_zero exp.metadata.deletion_timestamp ≡ false → Holds I (¬ Inv exp) (finalize c exp)
  unfolding finalize remove_finalizer
  Holds-finalize deleted =
      Holds-branch _ _ _
        (λ there. Holds-bind _ _ (Holds-wrapping _ _ (Holds-revert_if_active c exp)) λ _.
          Holds-bind _ _
            (Holds-update c exp policy _ _ (finalizer_removed deleted there refl) policy.own)
            λ _. Holds-pure _)
        (λ _. Holds-pure _)

  pub Holds-reconcile_found : Holds I (¬ Inv exp) (reconcile_found c exp)
  unfolding reconcile_found add_finalizer
  Holds-reconcile_found =
      Holds-branch _ _ _ (λ gone. Holds-finalize (ground (arith, gone)))
        λ stays.
          Holds-branch _ _ _
            (λ missing.
              Holds-bind _ _
                (Holds-update c exp policy _ _
                  (finalizer_added (ground (arith, stays)) (ground (arith, missing)) refl)
                  policy.own)
                λ _. Holds-pure _)
            (λ _. Holds-unless_nil _ _ _ (λ _. Holds-by_phase _ refl) Holds-halt)
