-- ===== src/Schedule/Writes.antt =====
-- Every status that the reconciler writes is a step on from the schedule that it read, and a run is
-- created only when one is due.
use entropyk.Base.{All, [], ◌≡◌, refl}
use entropyk.Go.{ok, Std}
use entropyk.Kube.{ObjectKey}
use entropyk.Api.Schedule.{ChaosSchedule}
use entropyk.Runtime.{World, Write, Fine, run-Holds, on_error, ask}
use entropyk.Calls.{perform, noted}
use entropyk.Cluster.{Cluster}
use entropyk.Schedule.Gate.{ScheduleReconciler}
use entropyk.Schedule.Reconcile.{reconcile}
use entropyk.Schedule.Quiet.{IsQuiet, quiet-Looks}
use entropyk.Schedule.Policy.{Policy}
use entropyk.Schedule.Keeping.{Holds-reconcile_found}
use entropyk.Schedule.Steps.{IsAllowed}

module _ (c : Cluster) (std : Std) (r : ScheduleReconciler c std) (quiet : IsQuiet c std r) where
  allowing :
      (sched : ChaosSchedule) → Policy c std r sched (λ w. All (IsAllowed c std r sched) w.log)
  unfolding perform
  allowing sched = record {
    looks = quiet-Looks c std r quiet (λ ns kind. refl);
    emitted = λ e w allowed h. (allowed, h);
    experiment = λ key w h. h;
    time = λ w h. h;
    created = λ exp w run h.
        noted (IsAllowed c std r sched) (Write.new_experiment exp)
          (c.create_experiment exp w.state).0 w.log run run h;
    written = λ next w step h.
        noted (IsAllowed c std r sched) (Write.schedule_status next)
          (c.update_schedule_status next w.state).0 w.log step step h;
  }

  -- From an empty log, with backends that write nothing to the cluster and do not panic: whatever the
  -- cluster answers, the reconcile does not panic, and each call that it makes on the API is allowed
  -- by the schedule as it was read. A status that it writes, accepted or refused, is one step on from
  -- it. An experiment that it creates is a copy of the spec of the template that the schedule names,
  -- named after the schedule and a time, labelled with it and controlled by it; the schedule is then
  -- not suspended, waits for its next run and is due at a time that the clock gave, and the check of its safeguards has returned
  -- that the run is safe. It uses each metric with as many values as the metric has labels, writes to
  -- no experiment that exists and deletes no pod.
  pub reconcile-IsAllowed_schedule :
      (key : ObjectKey) (w : World c.State) {sched : ChaosSchedule}
      → w.log ≡ []
      → (c.get_schedule key w.state).0 ≡ ok sched
      → Fine (IsAllowed c std r sched) ⊥ (reconcile c std r key w)
  unfolding reconcile on_error ask
  reconcile-IsAllowed_schedule key w {sched} fresh found = rw found (
      run-Holds (Holds-reconcile_found c std r sched (allowing sched))
        (record { state = (c.get_schedule key w.state).1; log = w.log }) (rw fresh tt))
