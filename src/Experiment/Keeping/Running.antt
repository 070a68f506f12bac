-- ===== src/Experiment/Keeping/Running.antt =====
-- What the steps of a running experiment keep.
use entropyk.Base.{pos, ltb_ℤ, String, true, false, [], ◌∷◌, Option, none, some, ◌≡◌, refl, arith}
use mathlib.Core.Path.{subst}
use entropyk.Go.{ok, Time}
use entropyk.Api.Experiment.{pod_kill, Scenario, running, ExperimentMetrics, ChaosExperiment}
use entropyk.Metrics.{recovery_time_seconds}
use entropyk.Runtime.{
  World, Holds, Holds-ask, run-Holds, Holds-pure, Holds-bind, Holds-wrapping, Holds-branch,
  Holds-unless_nil, Holds-on_error, Holds-bind_deref, Holds-bind_lift, Holds-on_error-lift, deref,
  ◌>>=◌, ◌>>◌, Action, observed, unless_nil, emit, pure, monad, keeps,
}
use entropyk.Calls.{IsRead}
use entropyk.Cluster.{Cluster}
use entropyk.Scenario
use entropyk.Scenario.PodKill.{revert, pod_kill_scenario}
use entropyk.Scenario.PodKill.Keeping.{Holds-inject}
use entropyk.Experiment.Parts.{
  build_scenario, kill_count, check_recovery, revert_if_active, count_end, fail_experiment,
  source_label, type_text, since,
}
use entropyk.Experiment.Running.{
  complete, count_pods, record_injection, inject_step, poll_recovery, account_recovery,
  advance_step, watch_step, reconcile_running, remaining, with_recovery,
}
use entropyk.Experiment.Invariant.{Inv, not-Inv_of_no_scenario, not-Inv_of_no_metrics}
use entropyk.Experiment.Steps.{Step, IsAt, accounted, inject, recover, advance, fail}
use entropyk.Experiment.Policy.{Policy, Holds-allowed, Holds-time, Holds-clock, Holds-write}

module _ (c : Cluster) (exp : ChaosExperiment) {I : World c.State → Type 0}
    (policy : Policy c exp I) where
  pub Holds-count_end : (e : ChaosExperiment) (s : String) → Holds I (¬ Inv exp) (count_end c e s)
  unfolding count_end
  Holds-count_end e s =
      Holds-bind _ _ (Holds-allowed c exp policy _ refl)
        λ _. Holds-bind _ _ (Holds-time c exp policy) λ t. Holds-allowed c exp policy _ refl

  Holds-fail_experiment :
      (reason : String) (spec : Scenario)
      → IsAt exp spec
      → exp.status.injected_at ≡ none
      → Holds I (¬ Inv exp) (fail_experiment c exp reason)
  unfolding fail_experiment
  Holds-fail_experiment reason spec at fresh =
      Holds-write c exp policy _ _ _ (fail spec at fresh refl) λ e _ _.
        Holds-bind _ _ (Holds-allowed c exp policy _ tt)
          λ _. Holds-bind _ _ (Holds-count_end e _) λ _. Holds-pure _

module _ (c : Cluster) where
  -- The only scenario that is ever built.
  pub build_scenario_inv :
      (spec : Scenario) {s : Scenario.Scenario c.State}
      → build_scenario c spec ≡ ok s
      → pod_kill_scenario c (record { count = kill_count spec.pod_kill }) ≡ s
  unfolding build_scenario
  build_scenario_inv spec e = ground arith

  build_scenario-kind :
      (spec : Scenario) {s : Scenario.Scenario c.State}
      → build_scenario c spec ≡ ok s
      → spec.kind ≡ pod_kill
  unfolding build_scenario
  build_scenario-kind spec e = ground arith

  pub Holds-built_inject :
      (exp : ChaosExperiment) {I : World c.State → Type 0} (policy : Policy c exp I)
      (spec : Scenario) {s : Scenario.Scenario c.State} (t : Scenario.Target)
      → build_scenario c spec ≡ ok s
      → Holds I (¬ Inv exp) (s.inject t)
  unfolding pod_kill_scenario
  Holds-built_inject exp {I = I} policy spec t e =
      subst (λ s. Holds I (¬ Inv exp) (s.inject t)) (build_scenario_inv spec e)
        (Holds-inject c policy.tools _ t)

  pub Holds-built_revert :
      {I : World c.State → Type 0} {Q : Type 0} (spec : Scenario) {s : Scenario.Scenario c.State}
      (t : Scenario.Target)
      → build_scenario c spec ≡ ok s
      → Holds I Q (s.revert t)
  unfolding pod_kill_scenario revert
  Holds-built_revert {I = I} {Q = Q} spec t e =
      subst (λ s. Holds I Q (s.revert t)) (build_scenario_inv spec e) (Holds-pure tt)

  pub Holds-revert_if_active :
      {I : World c.State → Type 0} (exp : ChaosExperiment)
      → Holds I (¬ Inv exp) (revert_if_active c exp)
  unfolding revert_if_active
  Holds-revert_if_active exp =
      Holds-unless_nil _ _ _ (λ _. Holds-pure tt)
        λ t0 _.
          Holds-branch _ _ _ (λ _. Holds-pure tt)
            λ inside.
              Holds-bind_deref _ _ (not-Inv_of_no_scenario exp inside)
                λ spec _. Holds-bind_lift _ _ _ λ s built. Holds-built_revert spec _ built

  Holds-check_recovery :
      (exp : ChaosExperiment) {I : World c.State → Type 0} {Q : Type 0}
      → Policy c exp I
      → Holds I Q (check_recovery c exp)
  unfolding check_recovery
  Holds-check_recovery exp policy =
      Holds-unless_nil _ _ _ (λ _. Holds-pure _)
        λ name _.
          Holds-bind _ _ (Holds-wrapping _ _ (Holds-ask _ (policy.tools.deployment _)))
            λ dep. Holds-pure _

-- The metrics are accounted for, and what follows goes on with them.
module _ (c : Cluster) (exp : ChaosExperiment) {I : World c.State → Type 0}
    (policy : Policy c exp I) (spec : Scenario) (t0 : Time) where
  account_recovery-then :
      {A : Type 0} (f : Option ExperimentMetrics → Action c.State A)
      → Holds I (¬ Inv exp) (f (accounted exp t0 exp.status.recovered_at exp.status.metrics))
      → Holds I (¬ Inv exp) (account_recovery c exp spec t0 >>= f)
  unfolding account_recovery monad
  account_recovery-then f k = go exp.status.recovered_at exp.status.metrics refl refl k
    where
      go :
          (o : Option Time) (ms : Option ExperimentMetrics)
          → exp.status.recovered_at ≡ o
          → exp.status.metrics ≡ ms
          → Holds I (¬ Inv exp) (f (accounted exp t0 o ms))
          → Holds I (¬ Inv exp) (
              unless_nil o (pure ms) (λ t. do
                emit (
                    observed recovery_time_seconds
                      (exp.metadata.namespace ∷ source_label exp ∷ type_text spec.kind ∷ [])
                      (since t t0))
                m ← deref ms
                pure (some (with_recovery exp m (since t t0))))
              >>= f)
      go none ms eo em k = keeps (run-Holds k)
      go (some t) none eo em k =
          keeps λ w h. (policy.emitted _ w refl h, λ _. not-Inv_of_no_metrics exp eo em)
      go (some t) (some m) eo em k = keeps λ w h. run-Holds k _ (policy.emitted _ w refl h)

module _ (c : Cluster) (exp : ChaosExperiment) {I : World c.State → Type 0}
    (policy : Policy c exp I) (spec : Scenario) (at : IsAt exp spec) where
  Holds-record_injection :
      spec.kind ≡ pod_kill
      → exp.status.injected_at ≡ none
      → Holds I (¬ Inv exp) (record_injection c exp spec)
  unfolding record_injection count_pods
  Holds-record_injection pods fresh = Holds-clock c exp policy _ λ t read.
      Holds-bind _ _
        (Holds-branch _ _ _ (λ _. Holds-allowed c exp policy _ refl) (λ _. Holds-pure tt))
        λ _. Holds-write c exp policy _ _ _ (inject spec t at read pods fresh refl) λ e _ _.
          Holds-bind _ _ (Holds-allowed c exp policy _ tt)
            λ _. Holds-bind _ _ (Holds-allowed c exp policy _ refl) λ _. Holds-pure _

  Holds-inject_step : exp.status.injected_at ≡ none → Holds I (¬ Inv exp) (inject_step c exp spec)
  unfolding inject_step
  Holds-inject_step fresh =
      Holds-on_error-lift _ _ _ (λ e. Holds-fail_experiment c exp policy _ spec at fresh)
        λ s built.
          Holds-on_error _ _ _ (Holds-built_inject c exp policy spec _ built)
            (λ e. Holds-fail_experiment c exp policy _ spec at fresh)
            (λ _. Holds-record_injection (build_scenario-kind c spec built) fresh)

  Holds-poll_recovery :
      (t0 t : Time)
      → exp.status.injected_at ≡ some t0
      → IsRead c t
      → ltb_ℤ (pos 0) (remaining spec t t0) ≡ true
      → Holds I (¬ Inv exp) (poll_recovery c exp t0)
  unfolding poll_recovery
  Holds-poll_recovery t0 t begun read left =
      Holds-unless_nil _ _ _
        (λ open_yet. Holds-clock c exp policy _ λ u read'.
          Holds-branch _ _ _
            (λ grace. Holds-bind _ _ (Holds-wrapping _ _ (Holds-check_recovery c exp policy)) λ up.
              Holds-branch _ _ _
                (λ _. Holds-clock c exp policy _ λ v read''.
                  Holds-write c exp policy _ _ _
                    (recover spec t0 t u v at begun open_yet read read' read'' left grace refl)
                    λ e _ _. Holds-pure tt)
                (λ _. Holds-pure tt))
            (λ _. Holds-pure tt))
        (λ _ _. Holds-pure tt)

  -- The step that ends is accounted for before its status is written.
  Holds-advance_step :
      (t0 t : Time)
      → exp.status.injected_at ≡ some t0
      → IsRead c t
      → ltb_ℤ (pos 0) (remaining spec t t0) ≡ false
      → Holds I (¬ Inv exp) (advance_step c exp spec t0)
  unfolding advance_step
  Holds-advance_step t0 t begun read over = Holds-bind_lift _ _ _ λ s built.
      Holds-bind _ _ (Holds-wrapping _ _ (Holds-built_revert c spec _ built)) λ _.
        account_recovery-then c exp policy spec t0 _ (
          Holds-bind _ _ (Holds-allowed c exp policy _ tt) λ _.
            Holds-write c exp policy _ _ _ (advance spec t0 t at begun read over refl)
              λ e _ _. Holds-pure _)

  Holds-watch_step :
      (t0 : Time)
      → exp.status.injected_at ≡ some t0
      → Holds I (¬ Inv exp) (watch_step c exp spec t0)
  unfolding watch_step
  Holds-watch_step t0 begun = Holds-clock c exp policy _ λ t read.
      Holds-branch _ _ _
        (λ left. Holds-bind _ _ (Holds-poll_recovery t0 t begun read left) λ _. Holds-pure _)
        (λ over. Holds-advance_step t0 t begun read over)

module _ (c : Cluster) (exp : ChaosExperiment) {I : World c.State → Type 0}
    (policy : Policy c exp I) where
  pub Holds-reconcile_running :
      exp.status.phase ≡ running → Holds I (¬ Inv exp) (reconcile_running c exp)
  unfolding reconcile_running complete
  Holds-reconcile_running runs =
      Holds-branch _ _ _
        (λ past. Holds-write c exp policy _ _ _ (Step.complete runs past refl) λ e _ _.
          Holds-bind _ _ (Holds-allowed c exp policy _ tt)
            λ _. Holds-bind _ _ (Holds-count_end c exp policy e _) λ _. Holds-pure _)
        (λ inside. Holds-bind_deref _ _ (not-Inv_of_no_scenario exp inside) λ spec here.
          let at : IsAt exp spec = record { in_running = runs; in_range = inside; found = here } in
          Holds-unless_nil _ _ _ (Holds-inject_step c exp policy spec at)
            (Holds-watch_step c exp policy spec at))
