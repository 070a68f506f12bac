-- ===== src/Experiment/Order.antt =====
-- In which order the scenarios of an experiment are injected, over its whole life.
use entropyk.Base.{
  ℕ, zero, suc, ◌≤◌, ◌<◌, ◌^◌, pos_part, List, [], ◌∷◌, ◌++◌, ◌≡◌, ◌≢◌, ap, refl, arith, length,
}
use entropyk.Api.Experiment.{completed, ChaosExperiment}
use entropyk.Experiment.Running.{injected, recovered, advanced}
use entropyk.Experiment.Reconcile.{started, halted_by}
use entropyk.Cluster.{Cluster}
use entropyk.Experiment.Steps.{Step, start, inject, recover, advance, complete, fail, halt}
use entropyk.Experiment.Invariant.{Inv, IsAt-index}
use entropyk.Experiment.Lifetime.{
  no_status, Life, created, reconciled, edited, Life-Living, Step-spec,
}
use entropyk.Experiment.Machine.{
  View, fresh, finished, ready, hit, back, view, Moves, begins, hits, recovers, ends_hit, ends_back,
  finishes, fails, stops, Step-Moves,
}

abbrev pub upto : ℕ → List ℕ
upto zero = []
upto (suc m) = upto m ++ (m ∷ [])

-- The indices of the injections that are recorded, the oldest first.
abbrev pub noted : {c : Cluster} {exp next : ChaosExperiment} → List ℕ → Step c exp next → List ℕ
noted {exp = exp} is (inject spec t at read pods clean e) =
    is ++ (pos_part exp.status.current_scenario_index ∷ [])
noted is _ = is

abbrev pub injections :
    {c : Cluster} {first exp : ChaosExperiment} {n : ℕ} → Life c first n exp → List ℕ
injections created = []
injections (reconciled life step) = noted (injections life) step
injections (edited life es et) = injections life

-- How many of the `n` scenarios are injected where the machine shows a view.
abbrev Reached : ℕ → View → ℕ → Type 0
Reached n fresh m = m ≡ 0
Reached n (ready i) m = m ≡ i
Reached n (hit i) m = m ≡ suc i
Reached n (back i) m = m ≡ suc i
Reached n finished m = m ≡ n
Reached n _ m = Unit

record InOrder (n : ℕ) (v : View) (is : List ℕ) : Type 0 where
  count : ℕ
  listed : is ≡ upto count
  within : count ≤ n
  reached : Reached n v count

still :
    {n : ℕ} {v : View} {is : List ℕ} (m : ℕ) → is ≡ upto m → m ≤ n → Reached n v m → InOrder n v is
still m listed within reached = record {
  count = m;
  listed = listed;
  within = within;
  reached = reached;
}

module _ {n : ℕ} {v v' : View} {is : List ℕ} where
  hit-InOrder :
      (i : ℕ) → i < n → v ≡ ready i → v' ≡ hit i → InOrder n v is → InOrder n v' (is ++ (i ∷ []))
  hit-InOrder i lt e e' o = record {
    count = suc i;
    listed = ground (arith, o.reached, o.listed);
    within = omega arith;
    reached = ground (arith, o.reached);
  }

  Moves-InOrder : Moves n v v' → ((i : ℕ) → v' ≢ hit i) → InOrder n v is → InOrder n v' is
  Moves-InOrder (begins e e') other o = record {
    count = 0;
    listed = ground (arith, o.listed);
    within = omega arith;
    reached = ground arith;
  }
  Moves-InOrder (hits i lt e e') other o = absurd (other i e')
  Moves-InOrder (recovers i lt e e') other o =
      still o.count o.listed o.within (ground (arith, o.reached))
  Moves-InOrder (ends_hit i lt e e') other o =
      still o.count o.listed o.within (ground (arith, o.reached))
  Moves-InOrder (ends_back i lt e e') other o =
      still o.count o.listed o.within (ground (arith, o.reached))
  Moves-InOrder (finishes e e') other o =
      still o.count o.listed o.within (ground (arith, o.reached))
  Moves-InOrder (fails i lt e e') other o =
      still o.count o.listed o.within (ground (arith, o.reached))
  Moves-InOrder (stops e e') other o = still o.count o.listed o.within (ground (arith, o.reached))

Step-InOrder :
    {c : Cluster} {exp next : ChaosExperiment} (is : List ℕ) (step : Step c exp next)
    → length exp.spec.scenarios < 2 ^ 31
    → Inv exp
    → InOrder (length exp.spec.scenarios) (view exp) is
    → InOrder (length exp.spec.scenarios) (view next) (noted is step)
unfolding injected recovered advanced started halted_by
Step-InOrder {exp = exp} is (inject spec t at read pods clean e) short inv o =
    hit-InOrder (pos_part exp.status.current_scenario_index)
      (ground (arith, IsAt-index exp spec at)) (ground (arith, at.in_running))
      (ground (arith, at.in_running)) o
Step-InOrder {c = c} is (start new e) short inv o =
    Moves-InOrder (Step-Moves {c = c} short (start new e) inv) (λ i p. ground arith) o
Step-InOrder {c = c} is (recover spec t0 t u v at begun clean rt ru rv left grace e) short inv o =
    Moves-InOrder
      (Step-Moves {c = c} short (recover spec t0 t u v at begun clean rt ru rv left grace e) inv)
      (λ i p. ground (arith, at.in_running)) o
Step-InOrder {c = c} is (advance spec t0 t at begun read over e) short inv o =
    Moves-InOrder (Step-Moves {c = c} short (advance spec t0 t at begun read over e) inv)
      (λ i p. ground (arith, at.in_running)) o
Step-InOrder {c = c} is (complete runs past e) short inv o =
    Moves-InOrder (Step-Moves {c = c} short (complete runs past e) inv) (λ i p. ground arith) o
Step-InOrder {c = c} is (fail spec at clean e) short inv o =
    Moves-InOrder (Step-Moves {c = c} short (fail spec at clean e) inv) (λ i p. ground arith) o
Step-InOrder {c = c} is (halt reason live asked e) short inv o =
    Moves-InOrder (Step-Moves {c = c} short (halt reason live asked e) inv) (λ i p. ground arith) o

Life-InOrder :
    {c : Cluster} {first exp : ChaosExperiment} {n : ℕ}
    → first.status ≡ no_status
    → length first.spec.scenarios < 2 ^ 31
    → (life : Life c first n exp) → InOrder (length exp.spec.scenarios) (view exp) (injections life)
Life-InOrder new short created = still 0 refl (omega arith) (ground arith)
Life-InOrder new short (reconciled {exp = exp} {next = next} life step) =
    let before = Life-Living new short life in
    let short' : length exp.spec.scenarios < 2 ^ 31 = rw before.same_spec short in
    rw (ap (λ s. length s.scenarios) (Step-spec step))
      (Step-InOrder (injections life) step short' before.invariant (Life-InOrder new short life))
Life-InOrder new short (edited {exp = exp} {next = next} life es et) =
    rw (es, et) (Life-InOrder new short life)

-- In the life of an experiment that starts with an empty status and has fewer than 2^31 scenarios,
-- the injections that are recorded are those of the first scenarios, one of each, in their order; and
-- if the experiment is completed they are those of all its scenarios.
pub injections-upto :
    {c : Cluster} {first exp : ChaosExperiment} {n : ℕ}
    → first.status ≡ no_status
    → length first.spec.scenarios < 2 ^ 31
    → (life : Life c first n exp)
    → (m : ℕ) × (injections life ≡ upto m)
      × (m ≤ length first.spec.scenarios)
      × (exp.status.phase ≡ completed → m ≡ length first.spec.scenarios)
injections-upto {exp = exp} new short life =
    let o = Life-InOrder new short life in
    let same = (Life-Living new short life).same_spec in
    (o.count, o.listed, ground (arith, o.within, same), λ done. ground (arith, o.reached, same))
