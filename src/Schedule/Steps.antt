-- ===== src/Schedule/Steps.antt =====
-- The life of a schedule as a relation between its object as it was read and the object whose status
-- the reconciler writes.
use entropyk.Base.{String, true, false, Option, none, some, ltb_ℤ, ◌≡◌, ◌⊎◌, length}
use entropyk.Go.{ok, Time, Std}
use entropyk.Api.Experiment.{ChaosExperiment}
use entropyk.Api.Schedule.{unset, idle, running, paused, failed, ChaosSchedule, is_paused}
use entropyk.Metrics.{counter_labels, histogram_labels}
use entropyk.Runtime.{World, returned, Effect, Write, written, refused, counted, observed}
use entropyk.Calls.{IsRead}
use entropyk.Cluster.{Cluster}
use entropyk.Schedule.Gate.{ScheduleReconciler, safe, check_safeguards}
use entropyk.Schedule.Firing.{beside, run_name, new_run, run_started, run_skipped, last_run}
use entropyk.Schedule.Reconcile.{in_phase, run_over, run_succeeded, run_halted}

-- The schedule is not suspended and waits for its next run.
pub record IsWaiting (sched : ChaosSchedule) : Type 0 where
  pub unsuspended : sched.spec.suspend ≡ false
  pub in_idle : (sched.status.phase ≡ unset) ⊎ (sched.status.phase ≡ idle)

-- By a reading of the clock the next run of the cron expression is not in the future.
pub record IsDue (c : Cluster) (sched : ChaosSchedule) : Type 0 where
  pub cron : c.Cron
  pub now : Time
  pub read : IsRead c now
  pub parsed : c.parse_cron sched.spec.schedule ≡ ok cron
  pub due : ltb_ℤ now (c.cron_next cron (last_run sched)) ≡ false

pub record IsRunning (sched : ChaosSchedule) : Type 0 where
  pub unsuspended : sched.spec.suspend ≡ false
  pub in_running : sched.status.phase ≡ running

pub data Step (c : Cluster) (sched next : ChaosSchedule) : Type 0 where
  suspend :
      sched.spec.suspend ≡ true
      → is_paused sched.status.phase ≡ false
      → next ≡ in_phase paused sched
      → Step c sched next
  resume :
      sched.spec.suspend ≡ false
      → sched.status.phase ≡ paused
      → next ≡ in_phase idle sched
      → Step c sched next
  fail : IsWaiting sched → next ≡ in_phase failed sched → Step c sched next
  skip :
      (t : Time)
      → IsWaiting sched
      → IsDue c sched
      → IsRead c t
      → next ≡ run_skipped sched t
      → Step c sched next
  start :
      (name : String) (t : Time)
      → IsWaiting sched
      → IsDue c sched
      → IsRead c t
      → next ≡ run_started sched name t
      → Step c sched next
  forget :
      IsRunning sched
      → sched.status.active_experiment_name ≡ none
      → next ≡ in_phase idle sched
      → Step c sched next
  lose :
      (name : String)
      → IsRunning sched
      → sched.status.active_experiment_name ≡ some name
      → next ≡ run_over idle sched
      → Step c sched next
  succeed :
      (name : String)
      → IsRunning sched
      → sched.status.active_experiment_name ≡ some name
      → next ≡ run_succeeded sched
      → Step c sched next
  halt :
      (name : String) (reason : Option String)
      → IsRunning sched
      → sched.status.active_experiment_name ≡ some name
      → next ≡ run_halted sched reason
      → Step c sched next

-- The schedule is due, `template` is the experiment that it names, and the safeguards let it run.
pub record IsReady (c : Cluster) (std : Std) (r : ScheduleReconciler c std) (sched : ChaosSchedule)
    (template : ChaosExperiment) : Type 0 where
  pub waiting : IsWaiting sched
  pub due : IsDue c sched
  pub state : c.State
  pub found : (c.get_experiment (beside sched sched.spec.experiment_ref) state).0 ≡ ok template
  pub world : World c.State
  pub passed : (check_safeguards c std r sched template world).0 ≡ returned safe

-- A run of the schedule: it is ready, and the experiment is the template's copy, named after the
-- schedule and a time of the clock, under the schedule's label and with the schedule as its controller.
pub record IsRun (c : Cluster) (std : Std) (r : ScheduleReconciler c std) (sched : ChaosSchedule)
    (exp : ChaosExperiment) : Type 0 where
  pub template : ChaosExperiment
  pub time : Time
  pub clock : IsRead c time
  pub ready : IsReady c std r sched template
  pub owned :
      c.set_controller_reference sched (new_run sched template (run_name sched time)) ≡ ok exp

-- What a reconcile of `sched` may do: write a status of the schedule that is a step on, create a run,
-- and write events and metrics (each with as many values as the metric has labels); it touches no
-- experiment that exists and deletes no pod.
abbrev pub IsAllowed :
    (c : Cluster) (std : Std) → ScheduleReconciler c std → ChaosSchedule → Effect → Type 0
IsAllowed c std r sched (written (Write.schedule_status next)) = Step c sched next
IsAllowed c std r sched (refused (Write.schedule_status next)) = Step c sched next
IsAllowed c std r sched (written (Write.new_experiment exp)) = IsRun c std r sched exp
IsAllowed c std r sched (refused (Write.new_experiment exp)) = IsRun c std r sched exp
IsAllowed c std r sched (written (Write.experiment _)) = ⊥
IsAllowed c std r sched (refused (Write.experiment _)) = ⊥
IsAllowed c std r sched (written (Write.experiment_status _)) = ⊥
IsAllowed c std r sched (refused (Write.experiment_status _)) = ⊥
IsAllowed c std r sched (written (Write.pod_removal _)) = ⊥
IsAllowed c std r sched (refused (Write.pod_removal _)) = ⊥
IsAllowed c std r sched (counted k labels n) = length labels ≡ length (counter_labels k)
IsAllowed c std r sched (observed h labels d) = length labels ≡ length (histogram_labels h)
IsAllowed c std r sched _ = Unit
