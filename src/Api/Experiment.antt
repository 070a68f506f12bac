-- ===== src/Api/Experiment.antt =====
-- api/v1alpha1/chaosexperiment_types.go. An `int32` is an integer (the code that adds to one wraps),
-- a pointer is an `Option`, and a phase or type that is none of the constants keeps its text.
use entropyk.Base.{ℤ, String, Bool, true, false, Option, List}
use entropyk.Go.{Time, Duration}
use entropyk.Kube.{ObjectMeta, LabelSelector, Condition}

pub record Target : Type 0 where
  pub kind : String
  pub name : Option String
  pub selector : Option LabelSelector

pub data ScenarioType : Type 0 where
  pod_kill : ScenarioType
  other_type : String → ScenarioType

pub record PodKillConfig : Type 0 where
  pub count : ℤ  -- int32
  pub interval : Option Duration

pub record Scenario : Type 0 where
  pub kind : ScenarioType
  pub duration : Duration
  pub pod_kill : Option PodKillConfig

pub data ExecutionMode : Type 0 where
  sequential parallel : ExecutionMode
  other_mode : String → ExecutionMode

pub record Execution : Type 0 where
  pub mode : ExecutionMode
  pub pause_between : Option Duration

pub record ChaosExperimentSpec : Type 0 where
  pub target : Target
  pub scenarios : List Scenario
  pub execution : Option Execution

-- `no_code` is the empty code.
pub data HaltCode : Type 0 where
  no_code alert_match slo_breach replica_min replica_max unreachable config_error : HaltCode

-- `string(code)`
unfoldable pub code_text : HaltCode → String
code_text no_code = ""
code_text alert_match = "alert-match"
code_text slo_breach = "slo-breach"
code_text replica_min = "replica-min"
code_text replica_max = "replica-max"
code_text unreachable = "unreachable"
code_text config_error = "config-error"

-- `code != ""`
abbrev pub is_code : HaltCode → Bool
is_code no_code = false
is_code _ = true

abbrev pub annotation_halt_reason : String
annotation_halt_reason = "temper.io/halt-reason"

abbrev pub label_schedule : String
label_schedule = "temper.io/schedule"

abbrev pub annotation_halt_code : String
annotation_halt_code = "temper.io/halt-code"

-- `unset` is the empty phase.
pub data ExperimentPhase : Type 0 where
  unset pending running completed failed halted : ExperimentPhase
  other_phase : String → ExperimentPhase

pub record ExperimentMetrics : Type 0 where
  pub total_pods_killed : ℤ  -- int32
  pub mean_recovery_time : Option Duration

pub record ChaosExperimentStatus : Type 0 where
  pub conditions : List Condition
  pub phase : ExperimentPhase
  pub metrics : Option ExperimentMetrics
  pub current_scenario_index : ℤ  -- int32
  pub injected_at : Option Time
  pub recovered_at : Option Time
  pub halt_reason : Option String

pub record ChaosExperiment : Type 0 where
  pub metadata : ObjectMeta
  pub spec : ChaosExperimentSpec
  pub status : ChaosExperimentStatus

-- `phase == Halted`
abbrev pub is_halted : ExperimentPhase → Bool
is_halted halted = true
is_halted _ = false
