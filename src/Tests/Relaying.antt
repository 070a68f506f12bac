-- ===== src/Tests/Relaying.antt =====
-- A halt carried through, on the small cluster.
use entropyk.Base.{◌<>◌, pos, none, some, [], ◌∷◌, ◌≡◌, refl}
use entropyk.Base.Text.{contains}
use entropyk.Go.{ok}
use entropyk.Kube.{ObjectKey}
use entropyk.Api.Experiment.{ChaosExperiment, replica_min, code_text}
use entropyk.Metrics.{experiments_halted_total, safeguard_halts_total}
use entropyk.Runtime.{World, Write, written, counted, event, returned}
use entropyk.Safeguard.Watcher.{annotated, halt_experiment}
use entropyk.Safeguard.Relay.{Relays}
use entropyk.Safeguard.Chain.{halt_experiment-arrives}
use entropyk.Experiment.Parts.{source_label, done}
use entropyk.Experiment.Reconcile.{is_zero, clear_annotations, halted_by, reconcile}
use entropyk.Schedule.Firing.{beside, plus_one}
use entropyk.Api.Schedule as Phase
use entropyk.Schedule.Reconcile as Schedule
use entropyk.Schedule.Reconcile.{run_halted}
use entropyk.Tests.Fixtures.{Server, cluster, std, server}
use entropyk.Tests.Controllers.{hit, hit-Inv, launched, reconciler}
use entropyk.Tests.Safeguards.{watcher}

abbrev run : World Server
run = record { state = server hit launched; log = [] }

abbrev nightly_key : ObjectKey
nightly_key = record { namespace = "shop"; name = "nightly" }

abbrev asked_for : ChaosExperiment
asked_for = annotated hit replica_min "too few"

abbrev stopped : ChaosExperiment
stopped = halted_by asked_for "too few"

relays : Relays cluster nightly_key launched "nightly-1" hit replica_min "too few" run.state
unfolding annotated halted_by
relays = record {
  kept = asked_for;
  s1 = server asked_for launched;
  asked = refl;
  version = "1";
  s2 = server asked_for launched;
  read = refl;
  version' = "1";
  s3 = server stopped launched;
  halted = refl;
  cleared = ok (clear_annotations stopped);
  s4 = server (clear_annotations stopped) launched;
  dropped = refl;
  s5 = server (clear_annotations stopped) launched;
  found = refl;
  last = clear_annotations stopped;
  s6 = server (clear_annotations stopped) launched;
  looked = refl;
  still = unfold clear_annotations in refl;
  answer = run_halted launched (some "too few");
  s7 = server (clear_annotations stopped) (run_halted launched (some "too few"));
  recorded = refl;
}

halt_experiment-arrives_example :
    (Schedule.reconcile cluster std reconciler nightly_key
        (reconcile cluster
          (beside launched "nightly-1")
          (halt_experiment cluster std watcher hit replica_min "too few" run).1).1
      ≡ (
        returned done,
        record {
          state = server (clear_annotations stopped) (run_halted launched (some "too few"));
          log =
              event "Warning" "ExperimentHalted" (
                "Experiment "
                <> ((clear_annotations stopped).metadata.name <> (" halted: " <> "too few")))
              ∷ written (Write.schedule_status (run_halted launched (some "too few")))
              ∷ written (Write.experiment (clear_annotations stopped))
              ∷ counted experiments_halted_total
                  (stopped.metadata.namespace ∷ source_label stopped ∷ code_text replica_min ∷ [])
                  (pos 1)
              ∷ event "Warning" "Halted" ("Experiment halted by safeguard: " <> "too few")
              ∷ written (Write.experiment_status stopped)
              ∷ counted safeguard_halts_total
                  (asked_for.metadata.namespace ∷ code_text replica_min ∷ [])
                  (pos 1)
              ∷ written (Write.experiment asked_for)
              ∷ [];
        },
      ))
    × ((run_halted launched (some "too few")).status ≡ record launched.status {
      phase = Phase.halted;
      active_experiment_name = none;
      history = record launched.status.history {
        halted_runs = plus_one launched.status.history.halted_runs;
        last_halt_reason = some "too few";
      };
    })
unfolding relays annotated halted_by is_zero contains
halt_experiment-arrives_example =
    halt_experiment-arrives cluster std watcher reconciler nightly_key launched "nightly-1" hit
      replica_min "too few" run refl refl refl hit-Inv refl refl refl relays
