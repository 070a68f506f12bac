-- ===== src/Runtime/Effects.antt =====
-- The calls by which the program acts on its surroundings.
use entropyk.Base.{ℤ, String, List}
use entropyk.Go.{Duration}
use entropyk.Kube.{Pod}
use entropyk.Api.Experiment.{ChaosExperiment}
use entropyk.Api.Schedule.{ChaosSchedule}
use entropyk.Metrics.{Counter, Histogram}

-- The writes of the API client: `Update`, `Status().Update` (of either resource), `Create`, `Delete`.
pub data Write : Type 0 where
  experiment : ChaosExperiment → Write
  experiment_status : ChaosExperiment → Write
  schedule_status : ChaosSchedule → Write
  new_experiment : ChaosExperiment → Write
  pod_removal : Pod → Write

-- A write that the server accepted or refused, an event (its type, reason and note), and the calls
-- on metrics (`Inc` adds 1).
pub data Effect : Type 0 where
  written refused : Write → Effect
  event : String → String → String → Effect
  counted : Counter → List String → ℤ → Effect
  observed : Histogram → List String → Duration → Effect
