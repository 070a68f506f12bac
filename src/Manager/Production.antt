-- ===== src/Manager/Production.antt =====
-- The program as `main` puts it together: what is asked of the backends elsewhere holds of the two
-- that it uses.
use entropyk.Base.{List, [], ◌∷◌, ◌≡◌}
use entropyk.Go.{ok, Std}
use entropyk.Kube.{ObjectKey}
use entropyk.Api.Schedule.{ChaosSchedule}
use entropyk.Runtime.{World, Fine, Keeps, run-Holds, Holds-pure, Holds-bind}
use entropyk.Cluster.{Cluster}
use entropyk.Safeguard.Watcher.{Failures, new_watcher}
use entropyk.Safeguard.Ticker.{Event, done, tick, start}
use entropyk.Safeguard.Silent.{Keeps-checker, Keeps-querier}
use entropyk.Safeguard.Writes.{IsAllowed, backends_of, Keeps-check_all}
use entropyk.Schedule.Reconcile.{reconcile}
use entropyk.Schedule.Steps as ScheduleSteps
use entropyk.Schedule.Quiet.{IsQuiet}
use entropyk.Schedule.Writes.{reconcile-IsAllowed_schedule}
use entropyk.Manager.Wiring.{
  Backends, alert_checker, metrics_querier, schedule_reconciler, safeguard_watcher,
}

module _ (c : Cluster) (std : Std) (b : Backends c std) where
  reconciler-IsQuiet : IsQuiet c std (schedule_reconciler c std b)
  unfolding schedule_reconciler alert_checker metrics_querier
  reconciler-IsQuiet = record {
    alerts_quiet = λ P Q url checker labels built.
        Keeps-checker b.web b.decode_alerts std.quote url checker labels built;
    metrics_quiet =
        λ P Q url query querier built. Keeps-querier b.web std b.json url query querier built;
  }

  watcher-IsQuiet : IsQuiet c std (backends_of (safeguard_watcher c std b))
  unfolding safeguard_watcher new_watcher alert_checker metrics_querier
  watcher-IsQuiet = record {
    alerts_quiet = λ P Q url checker labels built.
        Keeps-checker b.web b.decode_alerts std.quote url checker labels built;
    metrics_quiet =
        λ P Q url query querier built. Keeps-querier b.web std b.json url query querier built;
  }

  Keeps-start :
      (events : List Event) (failures : Failures)
      → Keeps
          (IsAllowed c std (safeguard_watcher c std b))
          ⊥
          (start c std (safeguard_watcher c std b) events failures)
  unfolding start
  Keeps-start [] failures = Holds-pure _
  Keeps-start (done ∷ events) failures = Holds-pure _
  Keeps-start (tick ∷ events) failures =
      Holds-bind _ _ (Keeps-check_all c std (safeguard_watcher c std b) watcher-IsQuiet failures)
        λ failures'. Keeps-start events failures'

  -- The loop of the watcher that `main` starts, from an empty log and whatever the cluster and the
  -- backends answer: for any number of ticks it does not panic, and the only calls that it makes to
  -- change the cluster are updates of experiments that it has read, each the active one of a schedule
  -- that is watched and has safeguards: they set the two halt annotations, with a code that is not
  -- empty, and change nothing else. It uses each metric with as many values as it has labels.
  pub start-IsAllowed :
      (events : List Event) (failures : Failures) (w : World c.State)
      → w.log ≡ []
      → Fine
          (IsAllowed c std (safeguard_watcher c std b))
          ⊥
          (start c std (safeguard_watcher c std b) events failures w)
  start-IsAllowed events failures w fresh = run-Holds (Keeps-start events failures) w (rw fresh tt)

  -- The schedule reconciler that `main` builds, from an empty log: whatever the cluster and the
  -- backends answer, a reconcile does not panic, and each call that it makes on the API is allowed by
  -- the schedule as it was read.
  pub reconcile-IsAllowed_wired :
      (key : ObjectKey) (w : World c.State) {sched : ChaosSchedule}
      → w.log ≡ []
      → (c.get_schedule key w.state).0 ≡ ok sched
      → Fine
          (ScheduleSteps.IsAllowed c std (schedule_reconciler c std b) sched)
          ⊥
          (reconcile c std (schedule_reconciler c std b) key w)
  reconcile-IsAllowed_wired key w fresh found =
      reconcile-IsAllowed_schedule c std (schedule_reconciler c std b) reconciler-IsQuiet key w
        fresh found
