-- ===== src/Copy/Deep/Experiment.antt =====
-- The copies of an experiment's parts.
use entropyk.Base.{refl}
use entropyk.Memory.{IsDeep, deep, run-IsDeep}
use entropyk.Memory.Deep.{Renews-++, plain-IsDeep, ptr-IsDeep, slice-IsDeep}
use entropyk.Copy.Meta.{Meta, IsMeta, time-IsDeep}
use entropyk.Copy.Experiment.{
  pod_kill_config, pod_kill_config_deep_copy_into, scenario, scenario_deep_copy_into, execution,
  execution_deep_copy_into, experiment_metrics, experiment_metrics_deep_copy_into, target,
  target_deep_copy_into, chaos_experiment_spec, chaos_experiment_spec_deep_copy_into,
  chaos_experiment_status, chaos_experiment_status_deep_copy_into,
}

pub pod_kill_config-IsDeep : IsDeep pod_kill_config
unfolding pod_kill_config_deep_copy_into
pod_kill_config-IsDeep = deep λ c n.
    let (same, renewed) = run-IsDeep (ptr-IsDeep plain-IsDeep) c.interval n in
    (rw same refl, renewed)

pub scenario-IsDeep : IsDeep scenario
unfolding scenario_deep_copy_into
scenario-IsDeep = deep λ s n.
    let (same, renewed) = run-IsDeep (ptr-IsDeep pod_kill_config-IsDeep) s.pod_kill n in
    (rw same refl, renewed)

pub execution-IsDeep : IsDeep execution
unfolding execution_deep_copy_into
execution-IsDeep = deep λ e n.
    let (same, renewed) = run-IsDeep (ptr-IsDeep plain-IsDeep) e.pause_between n in
    (rw same refl, renewed)

pub experiment_metrics-IsDeep : IsDeep experiment_metrics
unfolding experiment_metrics_deep_copy_into
experiment_metrics-IsDeep = deep λ m n.
    let (same, renewed) = run-IsDeep (ptr-IsDeep plain-IsDeep) m.mean_recovery_time n in
    (rw same refl, renewed)

module _ {M : Meta} (m : IsMeta M) where
  pub target-IsDeep : IsDeep (target M)
  unfolding target_deep_copy_into
  target-IsDeep = deep λ t n.
      let (name, d0) = run-IsDeep (ptr-IsDeep plain-IsDeep) t.name n in
      let (selector, d1) = run-IsDeep (ptr-IsDeep m.label_selector-IsDeep) t.selector _ in
      (rw (name, selector) refl, Renews-++ d0 d1)

  pub chaos_experiment_spec-IsDeep : IsDeep (chaos_experiment_spec M)
  unfolding chaos_experiment_spec_deep_copy_into
  chaos_experiment_spec-IsDeep = deep λ s n.
      let (t, d0) = run-IsDeep target-IsDeep s.target n in
      let (scenarios, d1) = run-IsDeep (slice-IsDeep scenario-IsDeep) s.scenarios _ in
      let (e, d2) = run-IsDeep (ptr-IsDeep execution-IsDeep) s.execution _ in
      (rw (t, scenarios, e) refl, Renews-++ (Renews-++ d0 d1) d2)

  pub chaos_experiment_status-IsDeep : IsDeep (chaos_experiment_status M)
  unfolding chaos_experiment_status_deep_copy_into
  chaos_experiment_status-IsDeep = deep λ s n.
      let (conditions, d0) = run-IsDeep (slice-IsDeep m.condition-IsDeep) s.conditions n in
      let (metrics, d1) = run-IsDeep (ptr-IsDeep experiment_metrics-IsDeep) s.metrics _ in
      let (injected, d2) = run-IsDeep (time-IsDeep m) s.injected_at _ in
      let (recovered, d3) = run-IsDeep (time-IsDeep m) s.recovered_at _ in
      let (reason, d4) = run-IsDeep (ptr-IsDeep plain-IsDeep) s.halt_reason _ in
      let d = Renews-++ (Renews-++ d0 d1) d2 in
      (rw (conditions, metrics, injected, recovered, reason) refl, Renews-++ (Renews-++ d d3) d4)
