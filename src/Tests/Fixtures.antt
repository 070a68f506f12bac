-- ===== src/Tests/Fixtures.antt =====
-- A small cluster that keeps its objects in its state, and objects to run the program on.
use entropyk.Base.{
  ℕ, leb, pos, String, ◌<>◌, str_eq, false, none, some, List, [], ◌∷◌, if◌then◌else◌,
}
use entropyk.Base.Text.{decimal}
use entropyk.Go.{ok, err, errorf, Std, Time}
use entropyk.Kube.{ObjectMeta, Deployment, Pod, pod_running}
use entropyk.Api.Experiment
use entropyk.Api.Experiment.{ChaosExperiment, ChaosExperimentStatus, Scenario, pod_kill}
use entropyk.Api.Schedule
use entropyk.Api.Schedule.{ChaosSchedule, ChaosScheduleStatus, Safeguards}
use entropyk.Runtime.{World}
use entropyk.Cluster.{Cluster}
use entropyk.Experiment.Parts.{experiment_finalizer}
use entropyk.Experiment.Lifetime.{no_status}
use entropyk.Schedule.Invariant

-- The objects of the cluster, and the time.
pub record Server : Type 0 where
  pub experiment : ChaosExperiment
  pub schedule : ChaosSchedule
  pub deployment : Deployment
  pub pods : List Pod
  pub time : Time

abbrev pub cluster : Cluster
cluster = record {
  State = Server;
  Selector = Unit {0};
  Location = Unit {0};
  Cron = ℕ;
  get_experiment = λ key s. (ok s.experiment, s);
  get_schedule = λ key s. (ok s.schedule, s);
  get_deployment = λ key s. (ok s.deployment, s);
  list_pods = λ ns selector s. (ok s.pods, s);
  list_schedules = λ s. (ok (s.schedule ∷ []), s);
  update_experiment = λ e s. (ok e, record s { experiment = e });
  update_experiment_status = λ e s. (ok e, record s { experiment = e });
  update_schedule_status = λ e s. (ok e, record s { schedule = e });
  create_experiment = λ e s. (ok e, record s { experiment = e });
  delete_pod = λ p s. (ok tt, s);
  now = λ s. (s.time, s);
  shuffle = λ n s. ((1, 0) ∷ [], s);
  label_selector_as_selector = λ selector. ok tt;
  set_controller_reference = λ sched e.
      ok
        (record e { metadata = record e.metadata { owner_references = sched.metadata.name ∷ [] } });
  load_location = λ zone. ok tt;
  parse_cron = λ text. if str_eq text "" then err (errorf "empty") else ok 60;
  cron_next = λ cron t. t;
  sprintf = λ text. text;
}

abbrev pub meta : String → ObjectMeta
meta name = record {
  namespace = "shop";
  name = name;
  resource_version = "1";
  labels = [];
  annotations = [];
  finalizers = [];
  owner_references = [];
  creation_timestamp = pos 1_000_000_000;
  deletion_timestamp = none;
}

-- One pod for one minute.
abbrev pub step : Scenario
step = record { kind = pod_kill; duration = pos 60_000_000_000; pod_kill = none }

-- An experiment that is just created.
abbrev pub fresh : ChaosExperiment
fresh = record {
  metadata = record (meta "web-kill") { finalizers = experiment_finalizer ∷ [] };
  spec = record {
    target = record { kind = "Deployment"; name = some "web"; selector = none };
    scenarios = step ∷ step ∷ [];
    execution = none;
  };
  status = no_status;
}

-- The experiment at its first step.
abbrev pub begun : ChaosExperiment
begun = record fresh { status = record no_status { phase = Experiment.running } }

abbrev pub safeguards : Safeguards
safeguards = record {
  max_unavailable = none;
  min_replicas_available = some (pos 2);
  alert_source = none;
  halt_on_alert_labels = [];
  metrics_source = none;
  slo_protection = none;
}

-- A schedule that is just created.
abbrev pub nightly : ChaosSchedule
nightly = record {
  metadata = meta "nightly";
  spec = record {
    experiment_ref = "web-kill";
    schedule = "0 3 * * *";
    timezone = "UTC";
    concurrency_policy = Schedule.forbid;
    suspend = false;
    safeguards = some safeguards;
  };
  status = Invariant.no_status;
}

abbrev pub web : Deployment
web = record {
  metadata = meta "web";
  selector = none;
  conditions = [];
  available_replicas = pos 3;
  unavailable_replicas = pos 0;
}

abbrev pub pod : String → String → Pod
pod name phase = record { metadata = meta name; phase = phase }

abbrev pub server : ChaosExperiment → ChaosSchedule → Server
server exp sched = record {
  experiment = exp;
  schedule = sched;
  deployment = web;
  pods = pod "web-1" pod_running ∷ pod "web-2" "Pending" ∷ pod "web-3" pod_running ∷ [];
  time = pos 9_000_000_000;
}

abbrev pub world : World Server
world = record { state = server begun nightly; log = [] }

-- Numbers as floats, of which the texts "5" and "9" are read.
abbrev pub std : Std
std = record {
  Float = ℕ;
  parse_float = λ text.
      if str_eq text "5" then ok 5 else if str_eq text "9" then ok 9 else err (errorf "no float");
  float_ge = λ a b. leb b a;
  format_float = λ n. decimal (pos n);
  to_int64 = λ n. pos n;
  format_seconds = λ d. "60";
  quote = λ text. "'" <> (text <> "'");
}
