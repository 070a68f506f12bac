-- ===== src/Copy/Deep/Types.antt =====
-- `DeepCopy` of every type of the package.
use entropyk.Memory.{Ptr, Alloc, Copying, IsDeep, read_ptr, cells_ptr}
use entropyk.Memory.Deep.{ptr-IsDeep}
use entropyk.Copy.Meta.{Meta, IsMeta}
use entropyk.Copy.Experiment.{
  pod_kill_config, pod_kill_config_deep_copy, scenario, scenario_deep_copy, execution,
  execution_deep_copy, experiment_metrics, experiment_metrics_deep_copy, target, target_deep_copy,
  chaos_experiment_spec, chaos_experiment_spec_deep_copy, chaos_experiment_status,
  chaos_experiment_status_deep_copy,
}
use entropyk.Copy.Schedule.{
  alert_source, alert_source_deep_copy, metrics_source, metrics_source_deep_copy, slo_query,
  slo_query_deep_copy, slo_protection, slo_protection_deep_copy, safeguards, safeguards_deep_copy,
  chaos_schedule_spec, chaos_schedule_spec_deep_copy,
}
use entropyk.Copy.ScheduleStatus.{
  schedule_history, schedule_history_deep_copy, schedule_run, schedule_run_deep_copy,
  chaos_schedule_status, chaos_schedule_status_deep_copy,
}
use entropyk.Copy.Objects.{
  chaos_experiment, chaos_experiment_deep_copy, chaos_experiment_list,
  chaos_experiment_list_deep_copy, chaos_schedule, chaos_schedule_deep_copy, chaos_schedule_list,
  chaos_schedule_list_deep_copy,
}
use entropyk.Copy.Deep.Experiment.{
  pod_kill_config-IsDeep, scenario-IsDeep, execution-IsDeep, experiment_metrics-IsDeep,
  target-IsDeep, chaos_experiment_spec-IsDeep, chaos_experiment_status-IsDeep,
}
use entropyk.Copy.Deep.Schedule.{
  alert_source-IsDeep, metrics_source-IsDeep, slo_query-IsDeep, slo_protection-IsDeep,
  safeguards-IsDeep, chaos_schedule_spec-IsDeep, schedule_history-IsDeep, schedule_run-IsDeep,
  chaos_schedule_status-IsDeep,
}
use entropyk.Copy.Deep.Objects.{
  chaos_experiment-IsDeep, chaos_experiment_list-IsDeep, chaos_schedule-IsDeep,
  chaos_schedule_list-IsDeep,
}

-- A method `DeepCopy` is deep: of a pointer to what `k` describes.
abbrev pub Copies : {A B : Type 0} → Copying A B → (Ptr A → Alloc (Ptr A)) → Type 0
Copies k method = IsDeep (record { read = read_ptr k; cells = cells_ptr k; into = method })

-- The methods `DeepCopy` of the package.
abbrev pub AreCopies : Meta → Type 0
AreCopies M =
    Copies (chaos_experiment M) (chaos_experiment_deep_copy M)
    × Copies (chaos_experiment_list M) (chaos_experiment_list_deep_copy M)
    × Copies (chaos_experiment_spec M) (chaos_experiment_spec_deep_copy M)
    × Copies (chaos_experiment_status M) (chaos_experiment_status_deep_copy M)
    × Copies (target M) (target_deep_copy M)
    × Copies scenario scenario_deep_copy
    × Copies pod_kill_config pod_kill_config_deep_copy
    × Copies execution execution_deep_copy
    × Copies experiment_metrics experiment_metrics_deep_copy
    × Copies (chaos_schedule M) (chaos_schedule_deep_copy M)
    × Copies (chaos_schedule_list M) (chaos_schedule_list_deep_copy M)
    × Copies chaos_schedule_spec chaos_schedule_spec_deep_copy
    × Copies (chaos_schedule_status M) (chaos_schedule_status_deep_copy M)
    × Copies (schedule_run M) (schedule_run_deep_copy M)
    × Copies schedule_history schedule_history_deep_copy
    × Copies safeguards safeguards_deep_copy
    × Copies slo_protection slo_protection_deep_copy
    × Copies slo_query slo_query_deep_copy
    × Copies alert_source alert_source_deep_copy
    × Copies metrics_source metrics_source_deep_copy

-- Provided that package meta/v1 copies its own types deeply, `DeepCopy` of each of the package's types
-- is deep: of nil it is nil, and otherwise a new pointer to what stands for the same value, with a new
-- address for each pointer, slice and map that is not nil.
pub deep_copy-AreCopies : {M : Meta} → IsMeta M → AreCopies M
unfolding chaos_experiment_deep_copy chaos_experiment_list_deep_copy chaos_experiment_spec_deep_copy
    chaos_experiment_status_deep_copy target_deep_copy scenario_deep_copy pod_kill_config_deep_copy
    execution_deep_copy experiment_metrics_deep_copy chaos_schedule_deep_copy
    chaos_schedule_list_deep_copy chaos_schedule_spec_deep_copy chaos_schedule_status_deep_copy
    schedule_run_deep_copy schedule_history_deep_copy safeguards_deep_copy slo_protection_deep_copy
    slo_query_deep_copy alert_source_deep_copy metrics_source_deep_copy
deep_copy-AreCopies m = (
  ptr-IsDeep (chaos_experiment-IsDeep m),
  ptr-IsDeep (chaos_experiment_list-IsDeep m),
  ptr-IsDeep (chaos_experiment_spec-IsDeep m),
  ptr-IsDeep (chaos_experiment_status-IsDeep m),
  ptr-IsDeep (target-IsDeep m),
  ptr-IsDeep scenario-IsDeep,
  ptr-IsDeep pod_kill_config-IsDeep,
  ptr-IsDeep execution-IsDeep,
  ptr-IsDeep experiment_metrics-IsDeep,
  ptr-IsDeep (chaos_schedule-IsDeep m),
  ptr-IsDeep (chaos_schedule_list-IsDeep m),
  ptr-IsDeep chaos_schedule_spec-IsDeep,
  ptr-IsDeep (chaos_schedule_status-IsDeep m),
  ptr-IsDeep (schedule_run-IsDeep m),
  ptr-IsDeep schedule_history-IsDeep,
  ptr-IsDeep safeguards-IsDeep,
  ptr-IsDeep slo_protection-IsDeep,
  ptr-IsDeep slo_query-IsDeep,
  ptr-IsDeep alert_source-IsDeep,
  ptr-IsDeep metrics_source-IsDeep,
)
