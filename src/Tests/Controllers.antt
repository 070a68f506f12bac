-- ===== src/Tests/Controllers.antt =====
-- The theorems on the scenario and the two reconcilers at concrete objects.
use entropyk.Base.{pos, false, none, some, [], ◌∷◌, inl, ◌≡◌, refl, arith, wrap32, ◌+ℤ◌}
use entropyk.Base.Text.{contains}
use entropyk.Go.{err, errorf}
use entropyk.Kube.{ObjectKey}
use entropyk.Api.Experiment
use entropyk.Api.Experiment.{ChaosExperiment, annotation_halt_reason}
use entropyk.Api.Schedule
use entropyk.Api.Schedule.{ChaosSchedule}
use entropyk.Runtime.{World, Fine, returned, written, Write}
use entropyk.Scenario
use entropyk.Scenario.PodKill.{PodKill, is_pod_running, inject}
use entropyk.Scenario.PodKill.Injection.{Injected, inject-Killed, inject-returned}
use entropyk.Experiment.Parts.{done, is_past, kill_count, experiment_finalizer}
use entropyk.Experiment.Running.{injected, add_killed, metrics_or_empty}
use entropyk.Experiment.Reconcile.{reconcile, reconcile_found, started, remove_finalizer, is_zero}
use entropyk.Experiment.Steps
use entropyk.Experiment.Invariant.{Inv}
use entropyk.Experiment.Lifetime
use entropyk.Experiment.Lifetime.{Life-Inv, Life-le}
use entropyk.Experiment.Writes.{reconcile-IsAllowed}
use entropyk.Experiment.Ending.{deletion-unblocked}
use entropyk.Schedule.Gate.{ScheduleReconciler}
use entropyk.Schedule.Reconcile
use entropyk.Schedule.Steps as ScheduleSteps
use entropyk.Schedule.Quiet.{IsQuiet}
use entropyk.Schedule.Writes.{reconcile-IsAllowed_schedule}
use entropyk.Tests.Fixtures.{Server, cluster, std, fresh, begun, nightly, web, step, server, world}

abbrev pub key : ObjectKey
key = record { namespace = "shop"; name = "web-kill" }

reconcile-IsAllowed_example :
    Fine (Steps.IsAllowed cluster begun) (¬ Inv begun) (reconcile cluster key world)
reconcile-IsAllowed_example = reconcile-IsAllowed cluster key world {exp = begun} refl refl

-- The first two steps of the experiment, with an edit of its labels between them.
abbrev relabelled : ChaosExperiment
relabelled = record begun { metadata = record begun.metadata { labels = ("team", "a") ∷ [] } }

abbrev pub hit : ChaosExperiment
hit = record relabelled {
  status = record relabelled.status {
    injected_at = some (pos 7);
    metrics = some (record { total_pods_killed = pos 1; mean_recovery_time = none });
  };
}

begun-Life : Lifetime.Life cluster fresh 1 relabelled
unfolding started
begun-Life =
    Lifetime.edited (Lifetime.reconciled Lifetime.created (Steps.start (inl refl) refl)) refl refl

pub hit-Life : Lifetime.Life cluster fresh 2 hit
unfolding injected is_past add_killed wrap32 metrics_or_empty ◌+ℤ◌ kill_count
hit-Life = Lifetime.reconciled begun-Life (
    Steps.inject step (pos 7) (record { in_running = refl; in_range = refl; found = refl })
      (record { state = record world.state { time = pos 7 }; given = refl }) refl refl refl)

abbrev pub busy : World Server
busy = record { state = server hit nightly; log = [] }

pub hit-Inv : Inv hit
hit-Inv =
    (Lifetime.Life-Living {first = fresh} {exp = hit} {n = 2} refl (omega arith) hit-Life).invariant

abbrev deleted : ChaosExperiment
deleted = record hit {
  metadata = record hit.metadata { deletion_timestamp = some (pos 8_000_000_000) };
}

deleted-Life : Lifetime.Life cluster fresh 2 deleted
deleted-Life = Lifetime.edited hit-Life refl refl

deleted-Inv : Inv deleted
deleted-Inv = (Lifetime.Life-Living {first = fresh} refl (omega arith) deleted-Life).invariant

deletion-unblocked_example :
    (reconcile_found cluster deleted busy ≡ (
      returned done,
      record {
        state = record busy.state { experiment = remove_finalizer deleted };
        log = written (Write.experiment (remove_finalizer deleted)) ∷ [];
      },
    ))
    × (contains experiment_finalizer (remove_finalizer deleted).metadata.finalizers ≡ false)
unfolding is_zero contains
deletion-unblocked_example = deletion-unblocked cluster deleted deleted-Inv busy refl refl

abbrev over : ChaosExperiment
over = record hit { status = record hit.status { phase = Experiment.completed } }

abbrev two_pods : PodKill
two_pods = record { count = pos 2 }

abbrev target : Scenario.Target
target = record { name = "web"; namespace = "shop"; kind = "Deployment"; labels = [] }

inject-returned_example : (inject cluster two_pods target world).0 ≡ returned tt
unfolding is_pod_running
inject-returned_example =
    inject-returned cluster (λ p s. refl) two_pods target world {dep = web} {selector = tt}
      {pods = world.state.pods} {s = world.state} {t = world.state} refl (omega arith) refl refl
      refl (omega arith)

inject-Killed_example :
    Injected cluster two_pods target [] (inject cluster two_pods target world).1.log
inject-Killed_example = inject-Killed cluster two_pods target world inject-returned_example

-- A reconciler that has no backend to build.
abbrev pub reconciler : ScheduleReconciler cluster std
reconciler = record {
  new_alert_checker = λ url. err (errorf "no backend");
  new_metrics_querier = λ url. err (errorf "no backend");
}

reconciler-IsQuiet : IsQuiet cluster std reconciler
reconciler-IsQuiet = record {
  alerts_quiet = λ P Q url checker labels built. cc;
  metrics_quiet = λ P Q url query querier built. cc;
}

reconcile-IsAllowed_schedule_example :
    Fine
      (ScheduleSteps.IsAllowed cluster std reconciler nightly)
      ⊥
      (Reconcile.reconcile cluster std reconciler key world)
reconcile-IsAllowed_schedule_example =
    reconcile-IsAllowed_schedule cluster std reconciler reconciler-IsQuiet key world
      {sched = nightly} refl refl

-- The schedule once its first run is created.
abbrev pub launched : ChaosSchedule
launched = record nightly {
  status = record nightly.status {
    phase = Schedule.running;
    active_experiment_name = some "nightly-1";
    last_schedule_time = some (pos 9);
    history = record nightly.status.history { total_runs = pos 1 };
  };
}
