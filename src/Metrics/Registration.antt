-- ===== src/Metrics/Registration.antt =====
-- The registration of the metrics does not panic.
use entropyk.Base.{ℕ, ◌<◌, str_eq, List, [], ◌∷◌, ◌≡◌, refl, arith, count_if}
use entropyk.Metrics.{
  Histogram, experiments_total, scenarios_executed_total, pods_killed_total, safeguard_checks_total,
  safeguard_halts_total, experiments_halted_total, recovery_time_seconds,
  experiment_duration_seconds, counter_name, histogram_name, buckets, Collector, counting,
  observing, registered, name_of,
}

abbrev Increasing : List ℕ → Type 0
Increasing [] = Unit
Increasing (_ ∷ []) = Unit
Increasing (a ∷ b ∷ rest) = (a < b) × Increasing (b ∷ rest)

-- Each vector of the program is registered, under a name that no other vector has; and the buckets
-- of each histogram increase, without which its construction would panic.
pub registered-Once :
    ((k : Collector) → count_if (λ k'. str_eq (name_of k') (name_of k)) registered ≡ 1)
    × ((h : Histogram) → Increasing (buckets h))
unfolding registered name_of counter_name histogram_name buckets
registered-Once = (once, increasing)
  where
    once : (k : Collector) → count_if (λ k'. str_eq (name_of k') (name_of k)) registered ≡ 1
    once (counting experiments_total) = refl
    once (counting scenarios_executed_total) = refl
    once (counting pods_killed_total) = refl
    once (counting safeguard_checks_total) = refl
    once (counting safeguard_halts_total) = refl
    once (counting experiments_halted_total) = refl
    once (observing recovery_time_seconds) = refl
    once (observing experiment_duration_seconds) = refl

    increasing : (h : Histogram) → Increasing (buckets h)
    increasing recovery_time_seconds = omega arith
    increasing experiment_duration_seconds = omega arith
