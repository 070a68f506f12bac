-- ===== src/Metrics.antt =====
-- internal/metrics/metrics.go: the vectors that are registered, with their names, the names of their
-- labels, and buckets.
pub mod Registration
use entropyk.Base.{ℕ, String, List, [], ◌∷◌}

pub data Counter : Type 0 where
  experiments_total scenarios_executed_total pods_killed_total : Counter
  safeguard_checks_total safeguard_halts_total experiments_halted_total : Counter

pub data Histogram : Type 0 where
  recovery_time_seconds experiment_duration_seconds : Histogram

abbrev pub safeguard_type_alerts : String
safeguard_type_alerts = "alerts"

abbrev pub safeguard_type_slo : String
safeguard_type_slo = "slo"

abbrev pub safeguard_type_replicas : String
safeguard_type_replicas = "replicas"

-- `WithLabelValues` panics unless it is given as many values as there are names here.
abbrev pub counter_labels : Counter → List String
counter_labels experiments_total = "namespace" ∷ "source" ∷ "status" ∷ []
counter_labels scenarios_executed_total = "namespace" ∷ "source" ∷ "type" ∷ []
counter_labels pods_killed_total = "namespace" ∷ "source" ∷ []
counter_labels safeguard_checks_total = "namespace" ∷ "type" ∷ []
counter_labels safeguard_halts_total = "namespace" ∷ "code" ∷ []
counter_labels experiments_halted_total = "namespace" ∷ "source" ∷ "code" ∷ []

abbrev pub histogram_labels : Histogram → List String
histogram_labels recovery_time_seconds = "namespace" ∷ "source" ∷ "type" ∷ []
histogram_labels experiment_duration_seconds = "namespace" ∷ "source" ∷ []

unfoldable pub counter_name : Counter → String
counter_name experiments_total = "chaos_experiments_total"
counter_name scenarios_executed_total = "chaos_scenarios_executed_total"
counter_name pods_killed_total = "chaos_pods_killed_total"
counter_name safeguard_checks_total = "chaos_safeguard_checks_total"
counter_name safeguard_halts_total = "chaos_safeguard_halts_total"
counter_name experiments_halted_total = "chaos_experiments_halted_total"

unfoldable pub histogram_name : Histogram → String
histogram_name recovery_time_seconds = "chaos_recovery_time_seconds"
histogram_name experiment_duration_seconds = "chaos_experiment_duration_seconds"

-- The upper bounds of the buckets, which are whole numbers.
unfoldable pub buckets : Histogram → List ℕ
buckets recovery_time_seconds = 1 ∷ 5 ∷ 10 ∷ 15 ∷ 30 ∷ 60 ∷ []
buckets experiment_duration_seconds = 10 ∷ 30 ∷ 60 ∷ 120 ∷ 300 ∷ 600 ∷ []

-- What `MustRegister` is given: it panics at a name that is registered already.
pub data Collector : Type 0 where
  counting : Counter → Collector
  observing : Histogram → Collector

unfoldable pub registered : List Collector
registered =
    counting experiments_total
    ∷ counting scenarios_executed_total
    ∷ counting pods_killed_total
    ∷ observing recovery_time_seconds
    ∷ observing experiment_duration_seconds
    ∷ counting safeguard_checks_total
    ∷ counting safeguard_halts_total
    ∷ counting experiments_halted_total
    ∷ []

unfoldable pub name_of : Collector → String
name_of (counting k) = counter_name k
name_of (observing h) = histogram_name h
