-- ===== src/Tests/Program.antt =====
-- The theorems on the program as `main` puts it together, at concrete flags and backends.
use entropyk.Base.{List, [], ◌∷◌, ◌++◌, ◌≡◌, refl}
use entropyk.Go.{ok, err, errorf}
use entropyk.Runtime.{Fine}
use entropyk.Schedule.Reconcile.{reconcile}
use entropyk.Schedule.Steps as ScheduleSteps
use entropyk.Safeguard.Ticker.{done, tick, start}
use entropyk.Safeguard.Writes.{IsAllowed}
use entropyk.Manager.Options.{
  TlsConfig, TlsOption, Listener, Flags, default_flags, IsHardened, manager_options,
  manager_options-IsHardened,
}
use entropyk.Manager.Wiring.{Backends, schedule_reconciler, safeguard_watcher}
use entropyk.Manager.Setup.{
  get_config, new_manager, complete, add_watcher, run, add_healthz_check, add_readyz_check, Host,
  main, setup, Exits, main-Exits,
}
use entropyk.Manager.Production.{start-IsAllowed, reconcile-IsAllowed_wired}
use entropyk.Tests.Fixtures.{cluster, std, nightly, world}
use entropyk.Tests.Controllers.{key}
use entropyk.Tests.Safeguards.{internet, json, watched}

-- Every flag as it is by default, but a certificate for the metrics.
abbrev flags : Flags
flags = record default_flags { metrics_cert_path = "/certs" }

configure : List TlsOption → TlsConfig → TlsConfig
configure [] config = config
configure (opt ∷ opts) config = configure opts (opt config)

configures_last :
    (opts : List TlsOption) (opt : TlsOption) (config : TlsConfig)
    → configure (opts ++ (opt ∷ [])) config ≡ opt (configure opts config)
unfolding configure
configures_last [] opt config = refl
configures_last (o ∷ opts) opt config = configures_last opts opt (o config)

-- A server that applies its options from the first to the last.
abbrev listener : Listener
listener = record { configure = configure; configures_last = configures_last }

manager_options-IsHardened_example : IsHardened listener flags (manager_options flags)
manager_options-IsHardened_example = manager_options-IsHardened listener flags

-- A host on which everything succeeds but the run of the manager.
abbrev host : Host (Unit {0})
host get_config s = (ok tt, s)
host (new_manager opts) s = (ok tt, s)
host (complete registration) s = (ok tt, s)
host add_watcher s = (ok tt, s)
host (add_healthz_check name) s = (ok tt, s)
host (add_readyz_check name) s = (ok tt, s)
host run s = (err (errorf "no lease"), s)

main-Exits_example : Exits host (setup flags) (main host flags tt)
main-Exits_example = main-Exits host flags tt

abbrev backends : Backends cluster std
backends = record { web = internet; json = json; decode_alerts = λ body. ok [] }

start-IsAllowed_example : Fine (IsAllowed cluster std (safeguard_watcher cluster std backends)) ⊥ (
    start cluster std (safeguard_watcher cluster std backends) (tick ∷ tick ∷ done ∷ []) [] watched)
start-IsAllowed_example =
    start-IsAllowed cluster std backends (tick ∷ tick ∷ done ∷ []) [] watched refl

reconcile-IsAllowed_wired_example :
    Fine
      (ScheduleSteps.IsAllowed cluster std (schedule_reconciler cluster std backends) nightly)
      ⊥
      (reconcile cluster std (schedule_reconciler cluster std backends) key world)
reconcile-IsAllowed_wired_example =
    reconcile-IsAllowed_wired cluster std backends key world {sched = nightly} refl refl
