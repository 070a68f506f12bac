-- ===== src/Experiment/Requeue.antt =====
-- When the reconciler asks not to be called again.
use entropyk.Base.{pos, min_ℤ, String, Bool, true, false, none, some, ltb_ℤ, ◌≡◌, refl, ap, arith}
use entropyk.Base.Text.{lookup}
use entropyk.Go.{ok, Time, Duration, second}
use entropyk.Api.Experiment.{
  ExperimentPhase, unset, pending, running, completed, failed, halted, other_phase, Scenario,
  ChaosExperiment, annotation_halt_reason,
}
use entropyk.Runtime.{
  World, returned, Yields, yields, run-Yields, Yields-run, Yields-pure, Yields-deref,
  Yields-wrapping, Yields-on_error, Yields-bind, Yields-unless_nil, Yields-branch, pure, wrapping,
}
use entropyk.Calls
use entropyk.Calls.{Yields-perform}
use entropyk.Cluster.{Cluster}
use entropyk.Experiment.Parts.{ReconcileResult, asks_requeue, requeue, fail_experiment}
use entropyk.Experiment.Running.{
  pause_between, advanced, complete, record_injection, inject_step, advance_step, watch_step,
  reconcile_running,
}
use entropyk.Experiment.Reconcile.{
  is_zero, halted_by, reconcile_pending, halt, by_phase, reconcile_found,
}
use entropyk.Experiment.Steps.{Step, IsAt}

-- The phases in which the reconciler does nothing more.
abbrev pub is_over : ExperimentPhase → Bool
is_over unset = false
is_over pending = false
is_over running = false
is_over completed = true
is_over failed = true
is_over halted = true
is_over (other_phase _) = true

-- The reasons not to be called again: the experiment is being deleted, it was over, its end was written
-- and accepted, or the next scenario was and the pause before it is not positive.
pub data Settled (c : Cluster) (exp : ChaosExperiment) : Type 0 where
  deleting : is_zero exp.metadata.deletion_timestamp ≡ false → Settled c exp
  over : is_over exp.status.phase ≡ true → Settled c exp
  ended :
      (next answer : ChaosExperiment) (s : c.State)
      → Step c exp next
      → is_over next.status.phase ≡ true
      → (c.update_experiment_status next s).0 ≡ ok answer
      → Settled c exp
  unpaused :
      (metrics : _) (answer : ChaosExperiment) (s : c.State)
      → (c.update_experiment_status (advanced exp metrics) s).0 ≡ ok answer
      → ltb_ℤ (pos 0) (pause_between answer.spec.execution) ≡ false
      → Settled c exp

pub second-positive : ltb_ℤ (pos 0) second ≡ true
second-positive = refl

module _ (c : Cluster) (exp : ChaosExperiment) where
  abbrev IsFinal : ReconcileResult → Type 0
  IsFinal r = asks_requeue r ≡ false → Settled c exp

  again : (d : Duration) → ltb_ℤ (pos 0) d ≡ true → Yields IsFinal (pure {S = c.State} (requeue d))
  again d later = Yields-pure _ λ none. absurd (ground (arith, later, none))

  pub accepted :
      (s : String) (next : ChaosExperiment)
      → Yields
          (λ e. (w : c.State) × ((c.update_experiment_status next w).0 ≡ ok e))
          (wrapping s (Calls.update_experiment_status c next))
  accepted s next = Yields-wrapping _ _ (Yields-perform _ _)

  fail_experiment-IsFinal :
      (reason : String) (spec : Scenario)
      → IsAt exp spec
      → exp.status.injected_at ≡ none
      → Yields IsFinal (fail_experiment c exp reason)
  unfolding fail_experiment
  fail_experiment-IsFinal reason spec at clean = Yields-bind _ _ (accepted _ _) λ e got.
      Yields-bind _ _ (Yields-run _) λ _ _.
        Yields-bind _ _ (Yields-run _)
          λ _ _. Yields-pure _ λ _. ended _ e got.0 (Step.fail spec at clean refl) refl got.1

  inject_step-IsFinal :
      (spec : Scenario)
      → IsAt exp spec
      → exp.status.injected_at ≡ none
      → Yields IsFinal (inject_step c exp spec)
  unfolding inject_step record_injection
  inject_step-IsFinal spec at clean =
      Yields-on_error _ _ _ (Yields-run _) (λ e. fail_experiment-IsFinal _ spec at clean)
        λ s _.
          Yields-on_error _ _ _ (Yields-run _) (λ e. fail_experiment-IsFinal _ spec at clean)
            λ _ _. Yields-bind _ _ (Yields-run _) λ t _. Yields-bind _ _ (Yields-run _) λ _ _.
              Yields-bind _ _ (Yields-run _) λ e _.
                Yields-bind _ _ (Yields-run _)
                  λ _ _. Yields-bind _ _ (Yields-run _) λ _ _. again _ refl

  watch_step-IsFinal : (spec : Scenario) (t0 : Time) → Yields IsFinal (watch_step c exp spec t0)
  unfolding watch_step advance_step min_ℤ
  watch_step-IsFinal spec t0 = Yields-bind _ _ (Yields-run _) λ t _.
      Yields-branch _ _ _
        (λ left. Yields-bind _ _ (Yields-run _) λ _ _. again _ (ground (arith, left)))
        λ over. Yields-bind _ _ (Yields-run _) λ s _. Yields-bind _ _ (Yields-run _) λ _ _.
          Yields-bind _ _ (Yields-run _) λ metrics _. Yields-bind _ _ (Yields-run _) λ _ _.
            Yields-bind _ _ (accepted _ _)
              λ e got. Yields-pure _ λ zero. unpaused metrics e got.0 got.1 zero

  reconcile_running-IsFinal : exp.status.phase ≡ running → Yields IsFinal (reconcile_running c exp)
  unfolding reconcile_running complete
  reconcile_running-IsFinal runs =
      Yields-branch _ _ _
        (λ past. Yields-bind _ _ (accepted _ _) λ e got. Yields-bind _ _ (Yields-run _) λ _ _.
          Yields-bind _ _ (Yields-run _)
            λ _ _. Yields-pure _ λ _. ended _ e got.0 (Step.complete runs past refl) refl got.1)
        λ inside. Yields-bind _ _ (Yields-deref _) λ spec here.
          Yields-unless_nil _ _ _
            (inject_step-IsFinal spec
              (record { in_running = runs; in_range = inside; found = here }))
            λ t0 _. watch_step-IsFinal spec t0

  by_phase-IsFinal :
      (phase : ExperimentPhase) → exp.status.phase ≡ phase → Yields IsFinal (by_phase c phase exp)
  unfolding by_phase reconcile_pending
  by_phase-IsFinal unset e =
      Yields-bind _ _ (Yields-run _)
        λ _ _. Yields-bind _ _ (Yields-run _) λ _ _. again _ second-positive
  by_phase-IsFinal pending e =
      Yields-bind _ _ (Yields-run _)
        λ _ _. Yields-bind _ _ (Yields-run _) λ _ _. again _ second-positive
  by_phase-IsFinal running e = reconcile_running-IsFinal e
  by_phase-IsFinal completed e = Yields-pure _ λ _. over (ap is_over e)
  by_phase-IsFinal failed e = Yields-pure _ λ _. over (ap is_over e)
  by_phase-IsFinal halted e = Yields-pure _ λ _. over (ap is_over e)
  by_phase-IsFinal (other_phase t) e = Yields-pure _ λ _. over (ap is_over e)

  halt-IsFinal :
      (reason : String)
      → lookup annotation_halt_reason exp.metadata.annotations ≡ some reason
      → Yields IsFinal (halt c exp reason)
  unfolding halt halted_by
  halt-IsFinal reason asked =
      Yields-branch _ _ _ (λ was. yields λ w r _ _. over (ground arith))
        λ live. Yields-bind _ _ (Yields-run _) λ _ _.
          Yields-bind _ _ (accepted _ _)
            λ e got. yields λ w r _ _. ended _ e got.0 (Step.halt reason live asked refl) refl got.1

  -- A reconcile that succeeds and asks for no requeue has a reason: the experiment is being deleted or
  -- was over, or the server has accepted a status that ends it, or that moves it on to a scenario
  -- before which its spec, as the server gave it back, has no pause, or a
  -- negative one. Only a positive time asks for a requeue.
  pub reconcile_found-Settled :
      (w : World c.State) (r : ReconcileResult)
      → (reconcile_found c exp w).0 ≡ returned r
      → asks_requeue r ≡ false
      → Settled c exp
  unfolding reconcile_found
  reconcile_found-Settled w r =
      run-Yields {P = IsFinal}
        (Yields-branch _ _ _ (λ deleted. yields λ w r _ _. deleting (ground arith))
          λ _.
            Yields-branch _ _ _ (λ _. Yields-bind _ _ (Yields-run _) λ _ _. again _ second-positive)
              λ _. Yields-unless_nil _ _ _ (λ _. by_phase-IsFinal _ refl) halt-IsFinal)
        w r
