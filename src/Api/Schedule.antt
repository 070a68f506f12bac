-- ===== src/Api/Schedule.antt =====
-- api/v1alpha1/chaosschedule_types.go.
use entropyk.Base.{ℤ, String, Bool, true, false, Option, List}
use entropyk.Base.Text.{Dict}
use entropyk.Go.{Time}
use entropyk.Kube.{ObjectMeta, Condition}

pub data ConcurrencyPolicy : Type 0 where
  forbid allow replace : ConcurrencyPolicy
  other_policy : String → ConcurrencyPolicy

pub data AlertSourceType : Type 0 where
  alertmanager : AlertSourceType
  other_source : String → AlertSourceType

pub data SloMode : Type 0 where
  static : SloMode
  other_mode : String → SloMode

pub record AlertSource : Type 0 where
  pub kind : AlertSourceType
  pub url : String

pub record MetricsSource : Type 0 where
  pub url : String

pub record SloQuery : Type 0 where
  pub name : String
  pub query : String

pub record SloProtection : Type 0 where
  pub mode : SloMode
  pub threshold : Option String
  pub queries : List SloQuery

pub record Safeguards : Type 0 where
  pub max_unavailable : Option ℤ  -- int32
  pub min_replicas_available : Option ℤ  -- int32
  pub alert_source : Option AlertSource
  pub halt_on_alert_labels : Dict
  pub metrics_source : Option MetricsSource
  pub slo_protection : Option SloProtection

pub record ChaosScheduleSpec : Type 0 where
  pub experiment_ref : String
  pub schedule : String
  pub timezone : String
  pub concurrency_policy : ConcurrencyPolicy
  pub suspend : Bool
  pub safeguards : Option Safeguards

-- `unset` is the empty phase.
pub data SchedulePhase : Type 0 where
  unset idle running paused halted completed failed : SchedulePhase
  other_phase : String → SchedulePhase

pub record ScheduleRun : Type 0 where
  pub started_at : Option Time
  pub scenarios_completed : ℤ  -- int32
  pub scenarios_total : ℤ  -- int32

pub record ScheduleHistory : Type 0 where
  pub total_runs : ℤ  -- int32
  pub successful_runs : ℤ  -- int32
  pub halted_runs : ℤ  -- int32
  pub last_halt_reason : Option String

pub record ChaosScheduleStatus : Type 0 where
  pub conditions : List Condition
  pub phase : SchedulePhase
  pub active_scenario : Option String
  pub current_run : Option ScheduleRun
  pub history : ScheduleHistory
  pub active_experiment_name : Option String
  pub last_schedule_time : Option Time

pub record ChaosSchedule : Type 0 where
  pub metadata : ObjectMeta
  pub spec : ChaosScheduleSpec
  pub status : ChaosScheduleStatus

-- `phase == Paused` and `phase == Running`
abbrev pub is_paused : SchedulePhase → Bool
is_paused paused = true
is_paused _ = false

abbrev pub is_running : SchedulePhase → Bool
is_running running = true
is_running _ = false
