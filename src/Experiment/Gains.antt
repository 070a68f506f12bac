-- ===== src/Experiment/Gains.antt =====
-- A reconcile that succeeds with something left to do has had a status write accepted.
use entropyk.Base.{ℕ, suc, pos, ltb_ℤ, String, true, false, some, ◌≡◌, refl, ap, arith, sym}
use mathlib.Core.Path.{subst}
use entropyk.Base.Text.{contains}
use entropyk.Go.{Time}
use entropyk.Api.Experiment.{
  ExperimentPhase, unset, pending, running, completed, failed, halted, other_phase, Scenario,
  ChaosExperiment, is_halted,
}
use entropyk.Runtime.{
  World, Holds, Holds-pure, Holds-bind, Holds-wrapping, Holds-branch, Holds-unless_nil,
  Holds-bind_deref, Arrives, arrives, run-Arrives, Arrives-from, Arrives-bind, Arrives-on_error,
  Arrives-on_error-lift, Arrives-bind_lift, Arrives-bind_deref, Arrives-branch, Arrives-unless_nil,
  ◌>>=◌,
}
use entropyk.Calls
use entropyk.Calls.{perform, now, Holds-perform}
use entropyk.Cluster.{Cluster, Handler}
use entropyk.Experiment.Parts.{experiment_finalizer, fail_experiment}
use entropyk.Experiment.Running.{
  remaining, account_recovery, complete, count_pods, record_injection, inject_step, advance_step,
  watch_step, reconcile_running,
}
use entropyk.Experiment.Reconcile.{
  is_zero, reconcile_pending, by_phase, halt, reconcile_found, drop_annotations,
}
use entropyk.Experiment.Steps.{IsAt}
use entropyk.Experiment.Requeue.{is_over}
use entropyk.Experiment.Tally.{Tally, counting, Counts, Gains, write-Gains}
use entropyk.Experiment.Policy.{Holds-allowed, Holds-time}
use entropyk.Experiment.Keeping.Running.{
  Holds-count_end, Holds-built_inject, Holds-built_revert, Holds-revert_if_active,
}

-- An experiment with something left to do at `s`: it is not being deleted, has the finalizer, is not
-- over, and the duration of a scenario that was injected is over at the time that the clock gives.
pub record IsReady (c : Cluster) (exp : ChaosExperiment) (s : c.State) : Type 0 where
  pub kept : is_zero exp.metadata.deletion_timestamp ≡ true
  pub guarded : contains experiment_finalizer exp.metadata.finalizers ≡ true
  pub live : is_over exp.status.phase ≡ false
  pub elapsed :
      (spec : Scenario) (t0 : Time)
      → IsAt exp spec
      → exp.status.injected_at ≡ some t0
      → ltb_ℤ (pos 0) (remaining spec (c.now s).0 t0) ≡ false

module _ (c : Cluster) (tally : Tally c) (exp : ChaosExperiment) where
  module _ (k : ℕ) where
    fail_experiment-Gains : (reason : String) → Gains c tally exp k (fail_experiment c exp reason)
    unfolding fail_experiment
    fail_experiment-Gains reason = write-Gains c tally exp k _ _ _ λ e.
        Holds-bind _ _ (Holds-allowed c exp (counting c tally exp (suc k)) _ tt) λ _.
          Holds-bind _ _ (Holds-count_end c exp (counting c tally exp (suc k)) e _)
            λ _. Holds-pure _

    record_injection-Gains : (spec : Scenario) → Gains c tally exp k (record_injection c exp spec)
    unfolding record_injection count_pods
    record_injection-Gains spec =
        Arrives-bind _ _ (Holds-time c exp (counting c tally exp k) {Q = Unit}) λ t.
          Arrives-bind _ _
            (Holds-branch {Q = Unit} _ _ _
              (λ _. Holds-allowed c exp (counting c tally exp k) _ refl) (λ _. Holds-pure tt))
            λ _. write-Gains c tally exp k _ _ _ λ e.
              Holds-bind {Q = Unit} _ _ (Holds-allowed c exp (counting c tally exp (suc k)) _ tt)
                λ _.
                  Holds-bind _ _ (Holds-allowed c exp (counting c tally exp (suc k)) _ refl)
                    λ _. Holds-pure _

    inject_step-Gains : (spec : Scenario) → Gains c tally exp k (inject_step c exp spec)
    unfolding inject_step
    inject_step-Gains spec =
        Arrives-on_error-lift _ _ _ (λ e. fail_experiment-Gains _)
          λ s built.
            Arrives-on_error _ _ _ (Holds-built_inject c exp (counting c tally exp k) spec _ built)
              (λ e. fail_experiment-Gains _) (λ _. record_injection-Gains spec)

    account_recovery-Counts :
        (spec : Scenario) (t0 : Time)
        → Holds (Counts c tally exp k) Unit (account_recovery c exp spec t0)
    unfolding account_recovery
    account_recovery-Counts spec t0 =
        Holds-unless_nil _ _ _ (λ _. Holds-pure _)
          λ t _.
            Holds-bind _ _ (Holds-allowed c exp (counting c tally exp k) _ refl)
              λ _. Holds-bind_deref _ _ (λ _. tt) λ m _. Holds-pure _

    advance_step-Gains :
        (spec : Scenario) (t0 : Time) → Gains c tally exp k (advance_step c exp spec t0)
    unfolding advance_step
    advance_step-Gains spec t0 = Arrives-bind_lift _ _ _ λ s built.
        Arrives-bind _ _ (Holds-wrapping {Q = Unit} _ _ (Holds-built_revert c spec _ built)) λ _.
          Arrives-bind _ _ (account_recovery-Counts spec t0) λ metrics.
            Arrives-bind _ _ (Holds-allowed c exp (counting c tally exp k) {Q = Unit} _ tt)
              λ _. write-Gains c tally exp k {Q = Unit} _ _ _ λ e. Holds-pure _

    halt-Gains :
        (reason : String)
        → is_halted exp.status.phase ≡ false
        → Gains c tally exp k (halt c exp reason)
    unfolding halt counting drop_annotations
    halt-Gains reason live =
        Arrives-branch _ _ _ (λ was. absurd (ground (arith, live, was)))
          λ _. Arrives-bind _ _ (Holds-wrapping _ _ (Holds-revert_if_active c exp)) λ _.
            write-Gains c tally exp k {Q = Unit {0}} _ _ _ λ e.
              Holds-bind _ _ (Holds-allowed c exp (counting c tally exp (suc k)) _ tt) λ _.
                Holds-bind _ _ (Holds-allowed c exp (counting c tally exp (suc k)) _ refl) λ _.
                  Holds-bind _ _
                    (Holds-wrapping _ _
                      (Holds-perform _ _ λ w h. omega (arith, h, tally.updated _ w.state)))
                    λ _. Holds-pure _

  module _ (s : c.State) (ready : IsReady c exp s) where
    -- From a world with that state.
    abbrev Now : World c.State → Type 0
    Now w = w.state ≡ s

    abbrev Brings : {A : Type 0} → Handler c A → Type 0
    Brings m = Arrives Now (Counts c tally exp (suc (tally.count s))) m

    from_here : {A : Type 0} {m : Handler c A} → Gains c tally exp (tally.count s) m → Brings m
    from_here = Arrives-from λ w same. omega (arith, ap tally.count same)

    -- The clock is read first.
    now-Brings :
        {A : Type 0} (f : Time → Handler c A)
        → Gains c tally exp (tally.count s) (f (c.now s).0)
        → Brings (Calls.now c >>= f)
    unfolding ◌>>=◌ now
    now-Brings f gains = arrives λ w same a got.
        run-Arrives
          (subst (λ v. Gains c tally exp (tally.count s) (f (c.now v).0)) (sym same) gains)
          (record w { state = (c.now w.state).1 })
          (omega (arith, ap tally.count same, tally.time w.state)) a got

    watch_step-Brings :
        (spec : Scenario) (t0 : Time)
        → IsAt exp spec
        → exp.status.injected_at ≡ some t0
        → Brings (watch_step c exp spec t0)
    unfolding watch_step
    watch_step-Brings spec t0 at begun =
        let over = ready.elapsed spec t0 at begun in
        now-Brings _ (
          Arrives-branch _ _ _ (λ left. absurd (ground (arith, left, over)))
            λ _. advance_step-Gains _ spec t0)

    reconcile_running-Brings : exp.status.phase ≡ running → Brings (reconcile_running c exp)
    unfolding reconcile_running complete
    reconcile_running-Brings runs =
        Arrives-branch _ _ _
          (λ past. from_here (
            write-Gains c tally exp _ _ _ _ λ e.
              Holds-bind _ _ (Holds-allowed c exp (counting c tally exp _) _ tt) λ _.
                Holds-bind _ _ (Holds-count_end c exp (counting c tally exp _) e _)
                  λ _. Holds-pure _))
          (λ inside. Arrives-bind_deref _ _ λ spec here.
            let at : IsAt exp spec = record {
              in_running = runs;
              in_range = inside;
              found = here;
            } in
            Arrives-unless_nil _ _ _ (λ clean. from_here (inject_step-Gains _ spec))
              λ t0 begun. watch_step-Brings spec t0 at begun)

    reconcile_pending-Gains : (k : ℕ) → Gains c tally exp k (reconcile_pending c exp)
    unfolding reconcile_pending
    reconcile_pending-Gains k = write-Gains c tally exp k {Q = Unit} _ _ _ λ e.
        Holds-bind _ _ (Holds-allowed c exp (counting c tally exp (suc k)) _ tt) λ _. Holds-pure _

    over-Brings : {A : Type 0} {m : Handler c A} → is_over exp.status.phase ≡ true → Brings m
    over-Brings over = absurd (ground (arith, over, ready.live))

    by_phase-Brings :
        (phase : ExperimentPhase) → exp.status.phase ≡ phase → Brings (by_phase c phase exp)
    unfolding by_phase
    by_phase-Brings unset e = from_here (reconcile_pending-Gains _)
    by_phase-Brings pending e = from_here (reconcile_pending-Gains _)
    by_phase-Brings running e = reconcile_running-Brings e
    by_phase-Brings completed e = over-Brings (ap is_over e)
    by_phase-Brings failed e = over-Brings (ap is_over e)
    by_phase-Brings halted e = over-Brings (ap is_over e)
    by_phase-Brings (other_phase t) e = over-Brings (ap is_over e)

    live-halted : (phase : ExperimentPhase) → is_over phase ≡ false → is_halted phase ≡ false
    live-halted phase e = ground arith

    pub reconcile_found-Brings : Brings (reconcile_found c exp)
    unfolding reconcile_found
    reconcile_found-Brings =
        Arrives-branch _ _ _ (λ deleted. absurd (ground (arith, deleted, ready.kept)))
          λ _.
            Arrives-branch _ _ _ (λ missing. absurd (ground (arith, missing, ready.guarded)))
              λ _.
                Arrives-unless_nil _ _ _ (λ _. by_phase-Brings _ refl)
                  λ reason _. from_here (halt-Gains _ reason (live-halted _ ready.live))
