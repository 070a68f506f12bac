-- ===== src/Tests/Runs.antt =====
-- The theorems on whole runs and on the check before a run, at concrete objects.
use entropyk.Base.{pos, refl, arith, All}
use entropyk.Runtime.{monad}
use entropyk.Experiment.Refinement.{IsMove, reconcile-IsMove}
use entropyk.Base.Text.{contains, lookup}
use entropyk.Calls.{perform, now}
use entropyk.Api.Experiment.{ChaosExperiment}
use entropyk.Experiment.Parts.{done, is_past, count_end}
use entropyk.Experiment.Running.{complete, reconcile_running}
use entropyk.Experiment.Reconcile.{is_zero, by_phase, reconcile_found, reconcile}
use entropyk.Experiment.Progress.{Progress, reconcile_found-Progress}
use entropyk.Experiment.Requeue.{Settled, reconcile_found-Settled}
use entropyk.Api.Schedule.{ChaosSchedule}
use entropyk.Schedule.Firing.{fail_schedule, reconcile_idle}
use entropyk.Schedule.Reconcile as ScheduleReconcile
use entropyk.Schedule.Progress as ScheduleProgress
use entropyk.Schedule.Progress.{reconcile_found-Progress_schedule}
use entropyk.Schedule.Requeue as ScheduleRequeue
use entropyk.Schedule.Requeue.{reconcile_found-Settled_schedule}
use entropyk.Tests.Fixtures.{cluster, std, fresh, begun, nightly, world}
use entropyk.Tests.Controllers.{key, hit, hit-Life, busy, reconciler, launched}

reconcile-IsMove_example : All (IsMove hit) (reconcile cluster key busy).1.log
reconcile-IsMove_example =
    reconcile-IsMove cluster key busy {first = fresh} {exp = hit} {n = 2} refl (omega arith) refl
      hit-Life refl refl

-- The experiment after its two scenarios.
abbrev finishing : ChaosExperiment
finishing = record begun { status = record begun.status { current_scenario_index = pos 2 } }

reconcile_found-Settled_example : Settled cluster finishing
unfolding reconcile_found reconcile_running complete by_phase count_end monad perform now contains
    lookup is_zero is_past
reconcile_found-Settled_example = reconcile_found-Settled cluster finishing world done refl refl

reconcile_found-Progress_example : Progress cluster finishing
unfolding reconcile_found reconcile_running complete by_phase count_end monad perform now contains
    lookup is_zero is_past
reconcile_found-Progress_example =
    reconcile_found-Progress cluster finishing world done refl refl refl

-- The schedule with a cron expression that is not read.
abbrev lost_cron : ChaosSchedule
lost_cron = record nightly { spec = record nightly.spec { schedule = "" } }

reconcile_found-Settled_schedule_example : ScheduleRequeue.Settled cluster lost_cron
unfolding ScheduleReconcile.reconcile_found ScheduleReconcile.by_phase reconcile_idle fail_schedule
    monad perform
reconcile_found-Settled_schedule_example =
    reconcile_found-Settled_schedule cluster lost_cron std reconciler world done refl refl

-- A schedule whose run is on.
reconcile_found-Progress_schedule_example : ScheduleProgress.Progress cluster launched
unfolding ScheduleReconcile.reconcile_found ScheduleReconcile.by_phase
    ScheduleReconcile.reconcile_running ScheduleReconcile.follow_run monad
reconcile_found-Progress_schedule_example =
    reconcile_found-Progress_schedule cluster launched std reconciler world
      (record { requeue_after = pos 30_000_000_000 }) refl
