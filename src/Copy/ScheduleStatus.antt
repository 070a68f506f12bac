-- ===== src/Copy/ScheduleStatus.antt =====
-- api/v1alpha1/chaosschedule_types.go and zz_generated.deepcopy.go: the status of a schedule with its
-- pointers and slices, and the copies of it.
use entropyk.Base.{ℤ, String, ◌++◌}
use entropyk.Go.{Time}
use entropyk.Api.Schedule as Api
use entropyk.Memory.{
  Ptr, Slice, Alloc, pure, ◌>>=◌, Copying, plain, read_ptr, cells_ptr, read_slice, cells_slice,
  deep_copy, copy_slice,
}
use entropyk.Copy.Meta.{Meta, copy_time, time}

pub record ScheduleHistory : Type 0 where
  pub total_runs : ℤ
  pub successful_runs : ℤ
  pub halted_runs : ℤ
  pub last_halt_reason : Ptr String

unfoldable pub schedule_history_deep_copy_into : ScheduleHistory → Alloc ScheduleHistory
schedule_history_deep_copy_into h = do
  reason ← deep_copy (plain String) h.last_halt_reason
  pure (record h { last_halt_reason = reason })

abbrev pub schedule_history : Copying ScheduleHistory Api.ScheduleHistory
schedule_history = record {
  read = λ h. record {
    total_runs = h.total_runs;
    successful_runs = h.successful_runs;
    halted_runs = h.halted_runs;
    last_halt_reason = read_ptr (plain String) h.last_halt_reason;
  };
  cells = λ h. cells_ptr (plain String) h.last_halt_reason;
  into = schedule_history_deep_copy_into;
}

unfoldable pub schedule_history_deep_copy : Ptr ScheduleHistory → Alloc (Ptr ScheduleHistory)
schedule_history_deep_copy = deep_copy schedule_history

module _ (M : Meta) where
  pub record ScheduleRun : Type 0 where
    pub started_at : Ptr Time
    pub scenarios_completed : ℤ
    pub scenarios_total : ℤ

  unfoldable pub schedule_run_deep_copy_into : ScheduleRun → Alloc ScheduleRun
  schedule_run_deep_copy_into r = do
    started_at ← copy_time M r.started_at
    pure (record r { started_at = started_at })

  abbrev pub schedule_run : Copying ScheduleRun Api.ScheduleRun
  schedule_run = record {
    read = λ r. record {
      started_at = (time M).read r.started_at;
      scenarios_completed = r.scenarios_completed;
      scenarios_total = r.scenarios_total;
    };
    cells = λ r. (time M).cells r.started_at;
    into = schedule_run_deep_copy_into;
  }

  unfoldable pub schedule_run_deep_copy : Ptr ScheduleRun → Alloc (Ptr ScheduleRun)
  schedule_run_deep_copy = deep_copy schedule_run

  pub record ChaosScheduleStatus : Type 0 where
    pub conditions : Slice (M.Status)
    pub phase : Api.SchedulePhase
    pub active_scenario : Ptr String
    pub current_run : Ptr ScheduleRun
    pub history : ScheduleHistory
    pub active_experiment_name : Ptr String
    pub last_schedule_time : Ptr Time

  unfoldable pub chaos_schedule_status_deep_copy_into :
      ChaosScheduleStatus → Alloc ChaosScheduleStatus
  chaos_schedule_status_deep_copy_into s = do
    conditions ← copy_slice M.condition s.conditions
    active_scenario ← deep_copy (plain String) s.active_scenario
    current_run ← deep_copy schedule_run s.current_run
    history ← schedule_history_deep_copy_into s.history
    active_name ← deep_copy (plain String) s.active_experiment_name
    last_time ← copy_time M s.last_schedule_time
    pure (record s {
      conditions = conditions;
      active_scenario = active_scenario;
      current_run = current_run;
      history = history;
      active_experiment_name = active_name;
      last_schedule_time = last_time;
    })

  abbrev pub chaos_schedule_status : Copying ChaosScheduleStatus Api.ChaosScheduleStatus
  chaos_schedule_status = record {
    read = λ s. record {
      conditions = read_slice M.condition s.conditions;
      phase = s.phase;
      active_scenario = read_ptr (plain String) s.active_scenario;
      current_run = read_ptr schedule_run s.current_run;
      history = schedule_history.read s.history;
      active_experiment_name = read_ptr (plain String) s.active_experiment_name;
      last_schedule_time = (time M).read s.last_schedule_time;
    };
    cells = λ s.
        cells_slice M.condition s.conditions
        ++ cells_ptr (plain String) s.active_scenario
        ++ cells_ptr schedule_run s.current_run
        ++ schedule_history.cells s.history
        ++ cells_ptr (plain String) s.active_experiment_name
        ++ (time M).cells s.last_schedule_time;
    into = chaos_schedule_status_deep_copy_into;
  }

  unfoldable pub chaos_schedule_status_deep_copy :
      Ptr ChaosScheduleStatus → Alloc (Ptr ChaosScheduleStatus)
  chaos_schedule_status_deep_copy = deep_copy chaos_schedule_status
