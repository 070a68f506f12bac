-- ===== src/Experiment/Invariant.antt =====
-- The invariant of the status of an experiment, its preservation by every step, and why the two
-- places where the reconciler could panic are not reached under it.
use entropyk.Base.{
  ℕ, zero, suc, ◌+◌, ◌<◌, ℤ, pos, negsuc, ◌+ℤ◌, ◌≤ℤ◌, ◌<ℤ◌, pos_part, wrap32, Bool, true, false,
  Option, none, some, List, [], ◌∷◌, ◌≡◌, ◌⊎◌, ◌^◌, arith, length, get_elem?, is_some,
}
use entropyk.Go.{Time}
use entropyk.Api.Experiment.{
  unset, pending, completed, failed, Scenario, ChaosExperiment, is_halted,
}
use entropyk.Experiment.Parts.{element?, is_past}
use entropyk.Experiment.Running.{is_pod_kill, injected, recovered, advanced}
use entropyk.Experiment.Reconcile.{started, halted_by}
use entropyk.Cluster.{Cluster}
use entropyk.Experiment.Steps.{Step, IsAt, start, inject, recover, advance, complete, fail, halt}

-- The scenario at the current index, if there is one, kills pods.
abbrev pub kills_pods : Option Scenario → Bool
kills_pods none = true
kills_pods (some spec) = is_pod_kill spec.kind

abbrev pub at_pods : ChaosExperiment → Bool
at_pods exp = kills_pods (element? exp.spec.scenarios exp.status.current_scenario_index)

pub record Inv (exp : ChaosExperiment) : Type 0 where
  pub nonneg : pos 0 ≤ℤ exp.status.current_scenario_index
  pub within : exp.status.current_scenario_index ≤ℤ pos (length exp.spec.scenarios)
  pub metrics_kept : is_some exp.status.injected_at ≡ true → is_some exp.status.metrics ≡ true
  pub recovered_injected :
      is_some exp.status.recovered_at ≡ true → is_some exp.status.injected_at ≡ true
  pub injected_inside :
      is_some exp.status.injected_at ≡ true
      → exp.status.current_scenario_index <ℤ pos (length exp.spec.scenarios)
  pub injected_pods : is_some exp.status.injected_at ≡ true → at_pods exp ≡ true
  pub fresh_zero :
      (exp.status.phase ≡ unset) ⊎ (exp.status.phase ≡ pending)
      → exp.status.current_scenario_index ≡ pos 0
  pub fresh_clean :
      (exp.status.phase ≡ unset) ⊎ (exp.status.phase ≡ pending) → exp.status.injected_at ≡ none
  pub completed_all :
      exp.status.phase ≡ completed
      → (exp.status.current_scenario_index ≡ pos (length exp.spec.scenarios))
        × (exp.status.injected_at ≡ none)
  pub failed_clean : exp.status.phase ≡ failed → exp.status.injected_at ≡ none
  pub reason_halted : is_some exp.status.halt_reason ≡ is_halted exp.status.phase

get_elem?-lt : {A : Type 0} (xs : List A) (i : ℕ) → i < length xs → get_elem? xs i ≡ none → ⊥
get_elem?-lt [] i h e = omega arith
get_elem?-lt (x ∷ xs) zero h e = cc
get_elem?-lt (x ∷ xs) (suc i) h e = get_elem?-lt xs i (omega arith) e

element?-lt :
    {A : Type 0} (xs : List A) (i : ℤ)
    → pos 0 ≤ℤ i
    → is_past i xs ≡ false
    → element? xs i ≡ none
    → ⊥
unfolding is_past
element?-lt xs (pos i) h past e = get_elem?-lt xs i (ground arith) e
element?-lt xs (negsuc i) h past e = omega arith

module _ (exp : ChaosExperiment) where
  -- An index that is not past the scenarios has one, unless it is negative.
  pub not-Inv_of_no_scenario :
      is_past exp.status.current_scenario_index exp.spec.scenarios ≡ false
      → element? exp.spec.scenarios exp.status.current_scenario_index ≡ none
      → ¬ Inv exp
  not-Inv_of_no_scenario past missing inv =
      element?-lt exp.spec.scenarios exp.status.current_scenario_index inv.nonneg past missing

  -- A recovery is recorded only where metrics are.
  pub not-Inv_of_no_metrics :
      {t : Time} → exp.status.recovered_at ≡ some t → exp.status.metrics ≡ none → ¬ Inv exp
  not-Inv_of_no_metrics up missing inv = ground arith

  -- A step into the middle of the scenarios.
  pub IsAt-index :
      (spec : Scenario)
      → IsAt exp spec
      → exp.status.current_scenario_index <ℤ pos (length exp.spec.scenarios)
  unfolding is_past
  IsAt-index spec at = ground (arith, at.in_range)

-- The next index does not wrap.
pub next_index :
    (i : ℤ) (n : ℕ)
    → n < 2 ^ 31
    → pos 0 ≤ℤ i
    → i <ℤ pos n
    → wrap32 (i +ℤ pos 1) ≡ pos (pos_part i + 1)
unfolding wrap32 ◌+ℤ◌
next_index (pos i) n short low inside = ground arith
next_index (negsuc i) n short low inside = absurd (omega arith)

-- Each step keeps the invariant, as long as the number of scenarios is an `int32`.
pub Step-Inv :
    {c : Cluster} {exp next : ChaosExperiment}
    → length exp.spec.scenarios < 2 ^ 31
    → Step c exp next
    → Inv exp
    → Inv next
unfolding injected recovered advanced started halted_by is_past
Step-Inv short (start fresh e) inv = ground arith
Step-Inv {exp = exp} short (inject spec t at read pods clean e) inv =
    ground (arith, IsAt-index exp spec at, at.found)
Step-Inv {exp = exp} short (recover spec t0 t u v at begun clean rt ru rv left grace e) inv =
    ground arith
Step-Inv {exp = exp} short (advance spec t0 t at begun read over e) inv = ground (
  arith,
  next_index exp.status.current_scenario_index (length exp.spec.scenarios) short,
  IsAt-index exp spec at,
)
Step-Inv short (complete runs past e) inv = ground arith
Step-Inv short (fail spec at clean e) inv = ground arith
Step-Inv short (halt reason live asked e) inv = ground arith
