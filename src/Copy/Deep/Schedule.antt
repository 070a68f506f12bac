-- ===== src/Copy/Deep/Schedule.antt =====
-- The copies of a schedule's parts.
use entropyk.Base.{ℕ, ◌≡◌, none, some, [], ◌∷◌, ◌++◌, refl, sym, ◌∙◌}
use mathlib.Core.List.{append_assoc, append-nil}
use entropyk.Base.Text.{Dict}
use entropyk.Memory.{Ptr, IsDeepAt, IsDeep, deep, run-IsDeep}
use entropyk.Memory.Deep.{
  Renews-++, Renews-nil, Renews-none, Renews-some, plain-IsDeep, ptr-IsDeep, slice-IsDeep,
}
use entropyk.Copy.Meta.{Meta, IsMeta, time-IsDeep}
use entropyk.Copy.Schedule.{
  alert_source, alert_source_deep_copy_into, metrics_source, metrics_source_deep_copy_into,
  slo_query, slo_query_deep_copy_into, slo_protection, slo_protection_deep_copy_into, fill,
  copy_map, labels, safeguards, safeguards_deep_copy_into, chaos_schedule_spec,
  chaos_schedule_spec_deep_copy_into,
}
use entropyk.Copy.ScheduleStatus.{
  schedule_history, schedule_history_deep_copy_into, schedule_run, schedule_run_deep_copy_into,
  chaos_schedule_status, chaos_schedule_status_deep_copy_into,
}

pub alert_source-IsDeep : IsDeep alert_source
unfolding alert_source_deep_copy_into
alert_source-IsDeep = deep λ s n. (refl, Renews-nil)

pub metrics_source-IsDeep : IsDeep metrics_source
unfolding metrics_source_deep_copy_into
metrics_source-IsDeep = deep λ s n. (refl, Renews-nil)

pub slo_query-IsDeep : IsDeep slo_query
unfolding slo_query_deep_copy_into
slo_query-IsDeep = deep λ q n. (refl, Renews-nil)

pub slo_protection-IsDeep : IsDeep slo_protection
unfolding slo_protection_deep_copy_into
slo_protection-IsDeep = deep λ p n.
    let (threshold, d0) = run-IsDeep (ptr-IsDeep plain-IsDeep) p.threshold n in
    let (queries, d1) = run-IsDeep (slice-IsDeep plain-IsDeep) p.queries _ in
    (rw (threshold, queries) refl, Renews-++ d0 d1)

fill-++ : (dict out : Dict) → fill dict out ≡ out ++ dict
unfolding fill
fill-++ [] out = sym (append-nil out)
fill-++ (entry ∷ dict) out = fill-++ dict (out ++ entry ∷ []) ∙ append_assoc out (entry ∷ []) dict

labels-IsDeep : IsDeep labels
unfolding copy_map
labels-IsDeep = deep at
  where
    at : (m : Ptr Dict) (n : ℕ) → IsDeepAt labels m n (copy_map m n)
    at none n = (refl, Renews-none)
    at (some (a, dict)) n = (fill-++ dict [], Renews-some Renews-nil)

pub safeguards-IsDeep : IsDeep safeguards
unfolding safeguards_deep_copy_into
safeguards-IsDeep = deep λ s n.
    let (most, d0) = run-IsDeep (ptr-IsDeep plain-IsDeep) s.max_unavailable n in
    let (least, d1) = run-IsDeep (ptr-IsDeep plain-IsDeep) s.min_replicas_available _ in
    let (alerts, d2) = run-IsDeep (ptr-IsDeep plain-IsDeep) s.alert_source _ in
    let (halt_on, d3) = run-IsDeep labels-IsDeep s.halt_on_alert_labels _ in
    let (metrics, d4) = run-IsDeep (ptr-IsDeep plain-IsDeep) s.metrics_source _ in
    let (slo, d5) = run-IsDeep (ptr-IsDeep slo_protection-IsDeep) s.slo_protection _ in
    let d = Renews-++ (Renews-++ (Renews-++ d0 d1) d2) d3 in
    (rw (most, least, alerts, halt_on, metrics, slo) refl, Renews-++ (Renews-++ d d4) d5)

pub chaos_schedule_spec-IsDeep : IsDeep chaos_schedule_spec
unfolding chaos_schedule_spec_deep_copy_into
chaos_schedule_spec-IsDeep = deep λ s n.
    let (same, renewed) = run-IsDeep (ptr-IsDeep safeguards-IsDeep) s.safeguards n in
    (rw same refl, renewed)

pub schedule_history-IsDeep : IsDeep schedule_history
unfolding schedule_history_deep_copy_into
schedule_history-IsDeep = deep λ h n.
    let (same, renewed) = run-IsDeep (ptr-IsDeep plain-IsDeep) h.last_halt_reason n in
    (rw same refl, renewed)

module _ {M : Meta} (m : IsMeta M) where
  pub schedule_run-IsDeep : IsDeep (schedule_run M)
  unfolding schedule_run_deep_copy_into
  schedule_run-IsDeep = deep λ r n.
      let (same, renewed) = run-IsDeep (time-IsDeep m) r.started_at n in (rw same refl, renewed)

  pub chaos_schedule_status-IsDeep : IsDeep (chaos_schedule_status M)
  unfolding chaos_schedule_status_deep_copy_into
  chaos_schedule_status-IsDeep = deep λ s n.
      let (conditions, d0) = run-IsDeep (slice-IsDeep m.condition-IsDeep) s.conditions n in
      let (scenario, d1) = run-IsDeep (ptr-IsDeep plain-IsDeep) s.active_scenario _ in
      let (run, d2) = run-IsDeep (ptr-IsDeep schedule_run-IsDeep) s.current_run _ in
      let (history, d3) = run-IsDeep schedule_history-IsDeep s.history _ in
      let (name, d4) = run-IsDeep (ptr-IsDeep plain-IsDeep) s.active_experiment_name _ in
      let (last, d5) = run-IsDeep (time-IsDeep m) s.last_schedule_time _ in
      let d = Renews-++ (Renews-++ (Renews-++ d0 d1) d2) d3 in
      (rw (conditions, scenario, run, history, name, last) refl, Renews-++ (Renews-++ d d4) d5)
