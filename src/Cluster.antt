-- ===== src/Cluster.antt =====
-- What lies outside the program: the API server behind controller-runtime's client, the clock, the
-- random source, the cron parser and the zone database. Each call is a parameter, over an unknown
-- state; a write returns the object as the server gives it back, which the client puts into the
-- caller's variable.
use entropyk.Base.{ℕ, String, Option, List}
use entropyk.Go.{Result, Time}
use entropyk.Kube.{ObjectKey, LabelSelector, Deployment, Pod}
use entropyk.Api.Experiment.{ChaosExperiment}
use entropyk.Api.Schedule.{ChaosSchedule}
use entropyk.Runtime.{Action}

pub record Cluster : Type 1 where
  pub State : Type 0
  pub Selector : Type 0
  pub Location : Type 0
  pub Cron : Type 0
  pub get_experiment : ObjectKey → State → Result ChaosExperiment × State
  pub get_schedule : ObjectKey → State → Result ChaosSchedule × State
  pub get_deployment : ObjectKey → State → Result Deployment × State
  pub list_pods : String → Selector → State → Result (List Pod) × State
  pub list_schedules : State → Result (List ChaosSchedule) × State
  pub update_experiment : ChaosExperiment → State → Result ChaosExperiment × State
  pub update_experiment_status : ChaosExperiment → State → Result ChaosExperiment × State
  pub update_schedule_status : ChaosSchedule → State → Result ChaosSchedule × State
  pub create_experiment : ChaosExperiment → State → Result ChaosExperiment × State
  pub delete_pod : Pod → State → Result (Unit {0}) × State
  pub now : State → Time × State
  -- `rand.Shuffle(n, swap)`: the pairs of indices for which it calls `swap`
  pub shuffle : ℕ → State → List (ℕ × ℕ) × State
  pub label_selector_as_selector : Option LabelSelector → Result Selector
  pub set_controller_reference : ChaosSchedule → ChaosExperiment → Result ChaosExperiment
  pub load_location : String → Result Location
  pub parse_cron : String → Result Cron
  pub cron_next : Cron → Time → Time
  -- `fmt.Sprintf` of a format with no operands: what `Eventf` makes of a note that is no constant
  pub sprintf : String → String

-- What a handler is over a given cluster.
abbrev pub Handler : Cluster → Type 0 → Type 0
Handler c A = Action c.State A
