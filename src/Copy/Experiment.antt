-- ===== src/Copy/Experiment.antt =====
-- api/v1alpha1/chaosexperiment_types.go and zz_generated.deepcopy.go: the types of an experiment with
-- their pointers and slices, and the copies of them. `read` is the value of module Api that one stands
-- for.
use entropyk.Base.{ℤ, String, ◌++◌}
use entropyk.Go.{Time, Duration}
use entropyk.Api.Experiment as Api
use entropyk.Memory.{
  Ptr, Slice, Alloc, pure, ◌>>=◌, Copying, plain, read_ptr, cells_ptr, read_slice, cells_slice,
  deep_copy, copy_slice,
}
use entropyk.Copy.Meta.{Meta, copy_time, time}

pub record PodKillConfig : Type 0 where
  pub count : ℤ
  pub interval : Ptr Duration

-- `DeepCopyInto`: the fields that are pointers are copied, and an assignment copies the others.
unfoldable pub pod_kill_config_deep_copy_into : PodKillConfig → Alloc PodKillConfig
pod_kill_config_deep_copy_into c = do
  interval ← deep_copy (plain Duration) c.interval
  pure (record c { interval = interval })

abbrev pub pod_kill_config : Copying PodKillConfig Api.PodKillConfig
pod_kill_config = record {
  read = λ c. record { count = c.count; interval = read_ptr (plain Duration) c.interval };
  cells = λ c. cells_ptr (plain Duration) c.interval;
  into = pod_kill_config_deep_copy_into;
}

unfoldable pub pod_kill_config_deep_copy : Ptr PodKillConfig → Alloc (Ptr PodKillConfig)
pod_kill_config_deep_copy = deep_copy pod_kill_config

pub record Scenario : Type 0 where
  pub kind : Api.ScenarioType
  pub duration : Duration
  pub pod_kill : Ptr PodKillConfig

unfoldable pub scenario_deep_copy_into : Scenario → Alloc Scenario
scenario_deep_copy_into s = do
  pod_kill ← deep_copy pod_kill_config s.pod_kill
  pure (record s { duration = s.duration; pod_kill = pod_kill })

abbrev pub scenario : Copying Scenario Api.Scenario
scenario = record {
  read = λ s. record {
    kind = s.kind;
    duration = s.duration;
    pod_kill = read_ptr pod_kill_config s.pod_kill;
  };
  cells = λ s. cells_ptr pod_kill_config s.pod_kill;
  into = scenario_deep_copy_into;
}

unfoldable pub scenario_deep_copy : Ptr Scenario → Alloc (Ptr Scenario)
scenario_deep_copy = deep_copy scenario

pub record Execution : Type 0 where
  pub mode : Api.ExecutionMode
  pub pause_between : Ptr Duration

unfoldable pub execution_deep_copy_into : Execution → Alloc Execution
execution_deep_copy_into e = do
  pause_between ← deep_copy (plain Duration) e.pause_between
  pure (record e { pause_between = pause_between })

abbrev pub execution : Copying Execution Api.Execution
execution = record {
  read = λ e. record { mode = e.mode; pause_between = read_ptr (plain Duration) e.pause_between };
  cells = λ e. cells_ptr (plain Duration) e.pause_between;
  into = execution_deep_copy_into;
}

unfoldable pub execution_deep_copy : Ptr Execution → Alloc (Ptr Execution)
execution_deep_copy = deep_copy execution

pub record ExperimentMetrics : Type 0 where
  pub total_pods_killed : ℤ
  pub mean_recovery_time : Ptr Duration

unfoldable pub experiment_metrics_deep_copy_into : ExperimentMetrics → Alloc ExperimentMetrics
experiment_metrics_deep_copy_into m = do
  mean ← deep_copy (plain Duration) m.mean_recovery_time
  pure (record m { mean_recovery_time = mean })

abbrev pub experiment_metrics : Copying ExperimentMetrics Api.ExperimentMetrics
experiment_metrics = record {
  read = λ m. record {
    total_pods_killed = m.total_pods_killed;
    mean_recovery_time = read_ptr (plain Duration) m.mean_recovery_time;
  };
  cells = λ m. cells_ptr (plain Duration) m.mean_recovery_time;
  into = experiment_metrics_deep_copy_into;
}

unfoldable pub experiment_metrics_deep_copy : Ptr ExperimentMetrics → Alloc (Ptr ExperimentMetrics)
experiment_metrics_deep_copy = deep_copy experiment_metrics

module _ (M : Meta) where
  pub record Target : Type 0 where
    pub kind : String
    pub name : Ptr String
    pub selector : Ptr (M.Selector)

  unfoldable pub target_deep_copy_into : Target → Alloc Target
  target_deep_copy_into t = do
    name ← deep_copy (plain String) t.name
    selector ← deep_copy M.label_selector t.selector
    pure (record t { name = name; selector = selector })

  abbrev pub target : Copying Target Api.Target
  target = record {
    read = λ t. record {
      kind = t.kind;
      name = read_ptr (plain String) t.name;
      selector = read_ptr M.label_selector t.selector;
    };
    cells = λ t. cells_ptr (plain String) t.name ++ cells_ptr M.label_selector t.selector;
    into = target_deep_copy_into;
  }

  unfoldable pub target_deep_copy : Ptr Target → Alloc (Ptr Target)
  target_deep_copy = deep_copy target

  pub record ChaosExperimentSpec : Type 0 where
    pub target : Target
    pub scenarios : Slice Scenario
    pub execution : Ptr Execution

  unfoldable pub chaos_experiment_spec_deep_copy_into :
      ChaosExperimentSpec → Alloc ChaosExperimentSpec
  chaos_experiment_spec_deep_copy_into s = do
    t ← target_deep_copy_into s.target
    scenarios ← copy_slice scenario s.scenarios
    e ← deep_copy execution s.execution
    pure (record s { target = t; scenarios = scenarios; execution = e })

  abbrev pub chaos_experiment_spec : Copying ChaosExperimentSpec Api.ChaosExperimentSpec
  chaos_experiment_spec = record {
    read = λ s. record {
      target = target.read s.target;
      scenarios = read_slice scenario s.scenarios;
      execution = read_ptr execution s.execution;
    };
    cells = λ s.
        target.cells s.target
        ++ cells_slice scenario s.scenarios
        ++ cells_ptr execution s.execution;
    into = chaos_experiment_spec_deep_copy_into;
  }

  unfoldable pub chaos_experiment_spec_deep_copy :
      Ptr ChaosExperimentSpec → Alloc (Ptr ChaosExperimentSpec)
  chaos_experiment_spec_deep_copy = deep_copy chaos_experiment_spec

  pub record ChaosExperimentStatus : Type 0 where
    pub conditions : Slice (M.Status)
    pub phase : Api.ExperimentPhase
    pub metrics : Ptr ExperimentMetrics
    pub current_scenario_index : ℤ
    pub injected_at : Ptr Time
    pub recovered_at : Ptr Time
    pub halt_reason : Ptr String

  unfoldable pub chaos_experiment_status_deep_copy_into :
      ChaosExperimentStatus → Alloc ChaosExperimentStatus
  chaos_experiment_status_deep_copy_into s = do
    conditions ← copy_slice M.condition s.conditions
    metrics ← deep_copy experiment_metrics s.metrics
    injected_at ← copy_time M s.injected_at
    recovered_at ← copy_time M s.recovered_at
    halt_reason ← deep_copy (plain String) s.halt_reason
    pure (record s {
      conditions = conditions;
      metrics = metrics;
      injected_at = injected_at;
      recovered_at = recovered_at;
      halt_reason = halt_reason;
    })

  abbrev pub chaos_experiment_status : Copying ChaosExperimentStatus Api.ChaosExperimentStatus
  chaos_experiment_status = record {
    read = λ s. record {
      conditions = read_slice M.condition s.conditions;
      phase = s.phase;
      metrics = read_ptr experiment_metrics s.metrics;
      current_scenario_index = s.current_scenario_index;
      injected_at = (time M).read s.injected_at;
      recovered_at = (time M).read s.recovered_at;
      halt_reason = read_ptr (plain String) s.halt_reason;
    };
    cells = λ s.
        cells_slice M.condition s.conditions
        ++ cells_ptr experiment_metrics s.metrics
        ++ (time M).cells s.injected_at
        ++ (time M).cells s.recovered_at
        ++ cells_ptr (plain String) s.halt_reason;
    into = chaos_experiment_status_deep_copy_into;
  }

  unfoldable pub chaos_experiment_status_deep_copy :
      Ptr ChaosExperimentStatus → Alloc (Ptr ChaosExperimentStatus)
  chaos_experiment_status_deep_copy = deep_copy chaos_experiment_status
