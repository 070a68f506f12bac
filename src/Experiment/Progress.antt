-- ===== src/Experiment/Progress.antt =====
-- What a reconcile of an experiment that succeeds has done for it.
use entropyk.Base.{pos, ltb_ℤ, String, true, none, some, ◌≡◌, ◌⊎◌, inl, inr, refl, ap, arith}
use entropyk.Base.Text.{lookup, contains}
use entropyk.Go.{ok, Time}
use entropyk.Api.Experiment.{
  pod_kill, ExperimentPhase, unset, pending, running, completed, failed, halted, other_phase,
  Scenario, ChaosExperiment, annotation_halt_reason,
}
use entropyk.Runtime.{
  World, returned, lift, Yields, yields, run-Yields, Yields-run, Yields-deref, Yields-on_error,
  Yields-bind, Yields-unless_nil, Yields-branch, monad,
}
use entropyk.Calls
use entropyk.Calls.{now, now-IsRead}
use entropyk.Cluster.{Cluster}
use entropyk.Experiment.Parts.{
  ReconcileResult, experiment_finalizer, fail_experiment, build_scenario,
}
use entropyk.Experiment.Running.{
  remaining, account_recovery, complete, record_injection, inject_step, advance_step, watch_step,
  reconcile_running,
}
use entropyk.Experiment.Reconcile.{is_zero, reconcile_pending, by_phase, halt, reconcile_found}
use entropyk.Experiment.Steps.{Step, IsAt, accounted}
use entropyk.Experiment.Requeue.{is_over, accepted}

-- A step of the life of the experiment was written, and the server has accepted it.
pub record Advanced (c : Cluster) (exp : ChaosExperiment) : Type 0 where
  pub next : ChaosExperiment
  pub answer : ChaosExperiment
  pub state : c.State
  pub step : Step c exp next
  pub taken : (c.update_experiment_status next state).0 ≡ ok answer

-- The scenario that the experiment is at was injected, and at a time that the clock gave its
-- duration was not over.
pub record IsWaiting (c : Cluster) (exp : ChaosExperiment) : Type 0 where
  pub spec : Scenario
  pub at : IsAt exp spec
  pub injected : Time
  pub begun : exp.status.injected_at ≡ some injected
  pub time : Time
  pub state : c.State
  pub clock : (c.now state).0 ≡ time
  pub left : ltb_ℤ (pos 0) (remaining spec time injected) ≡ true

-- What a success stands for, if there is no deletion and the finalizer is there.
abbrev pub Progress : Cluster → ChaosExperiment → Type 0
Progress c exp = Advanced c exp ⊎ (IsWaiting c exp ⊎ (is_over exp.status.phase ≡ true))

module _ (c : Cluster) (exp : ChaosExperiment) where
  abbrev Progresses : ReconcileResult → Type 0
  Progresses r = Progress c exp

  advances :
      {next answer : ChaosExperiment}
      → Step c exp next
      → (s : c.State) × ((c.update_experiment_status next s).0 ≡ ok answer)
      → Progress c exp
  advances {next} {answer} step got =
      inl (record { next = next; answer = answer; state = got.0; step = step; taken = got.1 })

  fail_experiment-Progress :
      (reason : String) (spec : Scenario)
      → IsAt exp spec
      → exp.status.injected_at ≡ none
      → Yields Progresses (fail_experiment c exp reason)
  unfolding fail_experiment
  fail_experiment-Progress reason spec at clean =
      Yields-bind _ _ (accepted c exp _ _)
        λ e got. yields λ w r _. advances (Step.fail spec at clean refl) got

  -- Only pod-kill scenarios are built.
  build_scenario-Yields :
      (spec : Scenario)
      → Yields (λ s. spec.kind ≡ pod_kill) (lift {S = c.State} (build_scenario c spec))
  unfolding build_scenario monad
  build_scenario-Yields spec = yields λ w s r. ground arith

  inject_step-Progress :
      (spec : Scenario)
      → IsAt exp spec
      → exp.status.injected_at ≡ none
      → Yields Progresses (inject_step c exp spec)
  unfolding inject_step record_injection
  inject_step-Progress spec at clean =
      Yields-on_error _ _ _ (build_scenario-Yields spec)
        (λ e. fail_experiment-Progress _ spec at clean)
        λ s kills.
          Yields-on_error _ _ _ (Yields-run _) (λ e. fail_experiment-Progress _ spec at clean)
            λ _ _. Yields-bind _ _ (Yields-run _) λ t read. Yields-bind _ _ (Yields-run _) λ _ _.
              Yields-bind _ _ (accepted c exp _ _) λ e got. yields λ w r _.
                advances (Step.inject spec t at (now-IsRead c t read.0 read.1) kills clean refl) got

  account_recovery-Yields :
      (spec : Scenario) (t0 : Time)
      → Yields
          (λ m. m ≡ accounted exp t0 exp.status.recovered_at exp.status.metrics)
          (account_recovery c exp spec t0)
  unfolding account_recovery monad
  account_recovery-Yields spec t0 = yields λ w m r. ground arith

  waits :
      (spec : Scenario) (t0 t : Time)
      → IsAt exp spec
      → exp.status.injected_at ≡ some t0
      → ltb_ℤ (pos 0) (remaining spec t t0) ≡ true
      → (w : World c.State) × ((Calls.now c w).0 ≡ returned t)
      → Progress c exp
  unfolding now
  waits spec t0 t at begun left read = inr (
      inl (record {
        spec = spec;
        at = at;
        injected = t0;
        begun = begun;
        time = t;
        state = read.0.state;
        clock = ground (arith, read.1);
        left = left;
      }))

  watch_step-Progress :
      (spec : Scenario) (t0 : Time)
      → IsAt exp spec
      → exp.status.injected_at ≡ some t0
      → Yields Progresses (watch_step c exp spec t0)
  unfolding watch_step advance_step
  watch_step-Progress spec t0 at begun = Yields-bind _ _ (Yields-run _) λ t read.
      Yields-branch _ _ _ (λ left. yields λ w r _. waits spec t0 t at begun left read)
        λ over. Yields-bind _ _ (Yields-run _) λ s _. Yields-bind _ _ (Yields-run _) λ _ _.
          Yields-bind _ _ (account_recovery-Yields spec t0) λ metrics same.
            Yields-bind _ _ (Yields-run _) λ _ _. Yields-bind _ _ (accepted c exp _ _) λ e got.
              yields λ w r _.
                advances
                  (Step.advance spec t0 t at begun (now-IsRead c t read.0 read.1) over
                    (rw same refl))
                  got

  reconcile_running-Progress :
      exp.status.phase ≡ running → Yields Progresses (reconcile_running c exp)
  unfolding reconcile_running complete
  reconcile_running-Progress runs =
      Yields-branch _ _ _
        (λ past.
          Yields-bind _ _ (accepted c exp _ _)
            λ e got. yields λ w r _. advances (Step.complete runs past refl) got)
        λ inside. Yields-bind _ _ (Yields-deref _) λ spec here.
          let at : IsAt exp spec = record { in_running = runs; in_range = inside; found = here } in
          Yields-unless_nil _ _ _ (inject_step-Progress spec at)
            λ t0 begun. watch_step-Progress spec t0 at begun

  reconcile_pending-Progress :
      (exp.status.phase ≡ unset) ⊎ (exp.status.phase ≡ pending)
      → Yields Progresses (reconcile_pending c exp)
  unfolding reconcile_pending
  reconcile_pending-Progress fresh =
      Yields-bind _ _ (accepted c exp _ _)
        λ e got. yields λ w r _. advances (Step.start fresh refl) got

  by_phase-Progress :
      (phase : ExperimentPhase)
      → exp.status.phase ≡ phase
      → Yields Progresses (by_phase c phase exp)
  unfolding by_phase
  by_phase-Progress unset e = reconcile_pending-Progress (inl e)
  by_phase-Progress pending e = reconcile_pending-Progress (inr e)
  by_phase-Progress running e = reconcile_running-Progress e
  by_phase-Progress completed e = yields λ w r _. inr (inr (ap is_over e))
  by_phase-Progress failed e = yields λ w r _. inr (inr (ap is_over e))
  by_phase-Progress halted e = yields λ w r _. inr (inr (ap is_over e))
  by_phase-Progress (other_phase t) e = yields λ w r _. inr (inr (ap is_over e))

  halt-Progress :
      (reason : String)
      → lookup annotation_halt_reason exp.metadata.annotations ≡ some reason
      → Yields Progresses (halt c exp reason)
  unfolding halt
  halt-Progress reason asked =
      Yields-branch _ _ _ (λ was. yields λ w r _. inr (inr (ground arith)))
        λ live. Yields-bind _ _ (Yields-run _) λ _ _.
          Yields-bind _ _ (accepted c exp _ _)
            λ e got. yields λ w r _. advances (Step.halt reason live asked refl) got

  -- A reconcile that succeeds has brought the experiment on, if it is not being deleted and has the
  -- finalizer: the server has accepted a status that is one step on, or the duration of a scenario that
  -- was injected is not over, or the experiment was over.
  pub reconcile_found-Progress :
      (w : World c.State) (r : ReconcileResult)
      → is_zero exp.metadata.deletion_timestamp ≡ true
      → contains experiment_finalizer exp.metadata.finalizers ≡ true
      → (reconcile_found c exp w).0 ≡ returned r
      → Progress c exp
  unfolding reconcile_found
  reconcile_found-Progress w r kept held =
      run-Yields {P = Progresses}
        (Yields-branch _ _ _ (λ deleted. absurd (ground arith))
          λ _.
            Yields-branch _ _ _ (λ missing. absurd (ground arith))
              λ _. Yields-unless_nil _ _ _ (λ _. by_phase-Progress _ refl) halt-Progress)
        w r
