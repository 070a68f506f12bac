-- ===== src/Lib.antt =====
-- Temper, a Kubernetes operator for chaos experiments: a model of its reconcilers, its watcher and its
-- fault injection.
--
-- The program. A ChaosExperiment holds a list of scenarios, which its reconciler injects, watches and
-- reverts one after the other. A ChaosSchedule creates an experiment from a template when its cron
-- expression is due and its safeguards hold, and follows it to its end. While it runs, the watcher
-- looks at the safeguards (alerts, service levels, replica counts) every few seconds and asks for a
-- halt by two annotations on the experiment, which the experiment's reconciler honours.
--
-- The files and the code that they model:
--   * Api/Experiment, Api/Schedule: api/v1alpha1/chaosexperiment_types.go, chaosschedule_types.go;
--   * Scenario, Scenario/PodKill: internal/scenario/scenario.go, podkill.go; `inject` is `Inject`;
--   * Experiment/Parts, Experiment/Running, Experiment/Reconcile:
--     internal/controller/chaosexperiment_controller.go. `reconcile` is `Reconcile`, `halt`, `finalize`
--     and `by_phase` its branches, `reconcile_running` and its steps `inject_step`, `watch_step`
--     (with `poll_recovery`) and `advance_step` are `reconcileRunning`; the helpers keep their names;
--   * Schedule/Gate, Schedule/Firing, Schedule/Reconcile:
--     internal/controller/chaosschedule_controller.go. `check_safeguards` is `checkSafeguards`,
--     `create_experiment` `createExperiment`, `reconcile_idle` and `reconcile_running` the two phases;
--   * Safeguard/Watcher: internal/safeguard/watcher.go. `check_all` is `checkAll`; `first_verdict`,
--     `conclude`, `check_replicas` and `settle` (with `tolerate`) are the stages of `checkSchedule`;
--   * Safeguard/Interfaces, Checks, Http, Alertmanager, Prometheus: alerts.go and metrics.go,
--     checks.go, http.go, alertmanager.go and prometheus.go of internal/safeguard;
--   * Safeguard/Ticker: `Start` of watcher.go, over the ticks that it receives;
--   * Metrics: internal/metrics/metrics.go;
--   * Manager/Scheme: api/v1alpha1/groupversion_info.go, with the `init` of the two files of types
--     and of cmd/main.go;
--   * Manager/Options, Manager/Wiring, Manager/Setup: cmd/main.go, and the SetupWithManager of the
--     two controllers. `manager_options` is what `main` makes of its flags, `schedule_reconciler` and
--     `safeguard_watcher` are what it builds with the two backends, and `main` is its calls on the
--     manager up to the exit;
--   * Memory: Go values with the addresses of their pointers, slices and maps. Copy/Experiment,
--     Copy/Schedule, Copy/ScheduleStatus, Copy/Objects, Copy/Interface: the types of api/v1alpha1 over such
--     values, and zz_generated.deepcopy.go; `T_deep_copy_into` is `DeepCopyInto` of T, `T_deep_copy`
--     `DeepCopy` and `T_deep_copy_object` `DeepCopyObject`, and the fields of a `Copying` say which value
--     of Api one stands for and what addresses it has. Copy/Meta: what package meta/v1 copies itself;
--   * Base, Go, Kube: numbers, lists and texts; Go's errors, times and formatting; the fields of
--     Kubernetes types that the program uses. Runtime: the monad of handlers. Cluster, Calls: what
--     lies outside the program, and the calls of it.
-- Experiment/Steps and Schedule/Steps specify the life of the two resources as step relations, and
-- Experiment/Machine the abstract machine that forgets all of a status but its place in the run; the
-- other modules under Experiment, Schedule, Scenario, Safeguard and Manager hold the proofs. Tests has the
-- theorems at concrete objects.
--
-- The state. A handler takes a world, the state of the surroundings and a log, and ends by returning,
-- by an error or by a panic (a nil pointer or an index out of range). The state is abstract: the API
-- server, the clock, the random source, the cron parser and the zone database are the operations of
-- the record `Cluster`, package net/http and its like those of `Web`, decoders those of `Decoder`, and
-- `Std` has what is used of strconv and fmt; nothing is assumed of them but what a theorem names. A
-- write puts a line into the log, with whether the server accepted it, and gives back the object as
-- the server returns it. The watcher's map of failures is passed through its calls.
--
-- The clock. The times in a step of a life (Experiment/Steps, Schedule/Steps) are times that the clock
-- gives (`IsRead` in Calls). A result asks for a later call if its time is positive (`asks_requeue`),
-- as controller-runtime reads it; zero and negative times ask for none.
--
-- Numbers. An int32 that the code adds to wraps around (`wrap32`), a duration wraps at 64 bits
-- (`wrap64`), and a difference of two times saturates, as `time.Time.Sub` does; times are nanoseconds
-- from Go's zero time, unbounded, and the index of a scenario is added to as an unbounded `int` before
-- it is cut to an int32. Decimal texts are made on fuel one more than the number, which has at least
-- as many units as digits.
--
-- The life of an experiment. The theorems on a life assume that its status and spec are changed by its
-- reconciler only, each time from the latest object. Experiment/Server says what an API server
-- promises (an update of an old version is refused, the status is a subresource, reads may be stale),
-- and Experiment/System derives that assumption from it: the stored experiment always has a life.
-- Schedule/Server and Schedule/System are the same for a schedule, whose spec others may edit as well.
--
-- A halt goes through three parts: the watcher annotates the experiment, its reconciler halts it, and the
-- reconciler of the schedule counts it. Safeguard/Chain follows one through the three on one server.
--
-- The proofs follow the reconciler once, for any property that its calls keep (Experiment/Policy,
-- Experiment/Keeping); the log of its writes, the store of a lawful server and the count of its accepted
-- writes (Experiment/Tally) are such properties. Schedule/Policy and Schedule/Keeping do the same for the
-- reconciler of a schedule.
--
-- Not modelled: log lines, the parsing of flags, the options of the logger, manifests and tests. The
-- handlers take and return values without addresses, the copies alone have them. The manager is what
-- its calls answer (`Host`), a server of it what it makes of its options (`Listener`). A Go map is
-- iterated in the order of its association list.
pub mod Base
pub mod Go
pub mod Kube
pub mod Api
pub mod Memory
pub mod Metrics
pub mod Runtime
pub mod Cluster
pub mod Copy
pub mod Calls
pub mod Scenario
pub mod Safeguard
pub mod Experiment
pub mod Schedule
pub mod Manager
pub mod Tests
