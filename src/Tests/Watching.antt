-- ===== src/Tests/Watching.antt =====
-- The theorems on a check of the watcher that halts an experiment, at concrete schedules.
use entropyk.Base.{inl, pos, some, [], ◌∷◌, ◌≡◌, refl}
use entropyk.Runtime.{World, Write, returned, written, counted, monad}
use entropyk.Safeguard.Watcher.{
  Watcher, schedule_key, judge_replicas, first_verdict, check_alerts as watch_alerts,
  check_slo as watch_slo, judged, finding_verdict, is_clear, check_schedule,
}
use entropyk.Safeguard.Vigilance.{with_halt, check_schedule-halts}
use entropyk.Go.{ok}
use entropyk.Api.Experiment.{ChaosExperiment, replica_min, code_text}
use entropyk.Metrics.{safeguard_checks_total, safeguard_halts_total}
use entropyk.Base.Text.{erase}
use entropyk.Api.Schedule.{ChaosSchedule, Safeguards, alertmanager}
use entropyk.Tests.Fixtures.{Server, cluster, std, safeguards, server}
use entropyk.Tests.Controllers.{hit, launched}
use entropyk.Tests.Safeguards.{watcher, clear, thin}

-- The target has one replica left, of at least two.
abbrev thinned : World Server
thinned = record { state = record (server hit launched) { deployment = thin }; log = [] }

abbrev stopped : ChaosExperiment
stopped = with_halt hit replica_min (judge_replicas safeguards thin clear).detail

check_schedule-halts_example :
    check_schedule cluster std watcher launched (("shop/nightly", 2) ∷ []) thinned ≡ (
      returned [],
      record {
        state = record thinned.state { experiment = stopped };
        log =
            counted safeguard_halts_total ("shop" ∷ "replica-min" ∷ []) (pos 1)
            ∷ written (Write.experiment stopped)
            ∷ counted safeguard_checks_total ("shop" ∷ "replicas" ∷ []) (pos 1)
            ∷ [];
      },
    )
unfolding first_verdict watch_alerts watch_slo judged finding_verdict is_clear monad code_text
    schedule_key erase
check_schedule-halts_example =
    check_schedule-halts cluster std watcher launched safeguards clear (("shop/nightly", 2) ∷ [])
      thinned thinned refl refl refl refl refl refl refl (inl refl)

-- The schedule asks for an alert source, and the source answers with one alert.
abbrev guarded : Safeguards
guarded = record safeguards {
  alert_source = some (record { kind = alertmanager; url = "http://am" });
  halt_on_alert_labels = ("severity", "critical") ∷ [];
}

abbrev alarmed : ChaosSchedule
alarmed = record launched { spec = record launched.spec { safeguards = some guarded } }

abbrev alert_watcher : Watcher cluster std
alert_watcher = record watcher {
  new_alert_checker = λ url. ok (record {
    check_alerts = λ labels w. (returned (record { name = "HighLatency"; labels = [] } ∷ []), w);
  });
}

-- Once the check is counted.
abbrev checked : World Server
checked = record {
  state = server hit alarmed;
  log = counted safeguard_checks_total ("shop" ∷ "alerts" ∷ []) (pos 1) ∷ [];
}
