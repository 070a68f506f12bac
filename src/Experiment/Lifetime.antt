-- ===== src/Experiment/Lifetime.antt =====
-- The life of an experiment from its creation: the status changes by steps of the reconciler only,
-- and everything else but the spec may change at any time. Its status is written a bounded number of
-- times.
use entropyk.Base.{
  ℕ, suc, ◌+◌, ◌-◌, ◌*◌, ◌≤◌, ◌<◌, ◌^◌, pos, pos_part, ◌∙◌, [], Option, none, some, ◌≡◌, refl,
  arith, length,
}
use entropyk.Api.Experiment.{
  ExperimentPhase, unset, pending, running, completed, failed, halted, other_phase,
  ChaosExperimentStatus, ChaosExperiment,
}
use entropyk.Experiment.Parts.{is_past}
use entropyk.Experiment.Running.{injected, recovered, advanced}
use entropyk.Experiment.Reconcile.{started, halted_by}
use entropyk.Cluster.{Cluster}
use entropyk.Experiment.Steps.{Step, start, inject, recover, advance, complete, fail, halt}
use entropyk.Experiment.Invariant.{Inv, Step-Inv, IsAt-index, next_index}

abbrev present : {A : Type 0} → Option A → ℕ
present none = 0
present (some _) = 1

abbrev budget_in : ExperimentPhase → ChaosExperimentStatus → ℕ → ℕ
budget_in unset s n = 3 * n + 3
budget_in pending s n = 3 * n + 3
budget_in running s n =
    3 * (n - pos_part s.current_scenario_index) + 2 - present s.injected_at - present s.recovered_at
budget_in completed s n = 1
budget_in failed s n = 1
budget_in halted s n = 0
budget_in (other_phase _) s n = 1

-- How often the status can still be written: each scenario takes an injection, at most one recovery
-- and an advance, and the run a start and one or two ends.
abbrev pub budget : ChaosExperiment → ℕ
budget exp = budget_in exp.status.phase exp.status (length exp.spec.scenarios)

pub Step-budget :
    {c : Cluster} {exp next : ChaosExperiment}
    → length exp.spec.scenarios < 2 ^ 31
    → Step c exp next
    → Inv exp
    → budget next < budget exp
unfolding injected recovered advanced started halted_by is_past
Step-budget short (start fresh e) inv = ground arith
Step-budget {exp = exp} short (inject spec t at read pods clean e) inv =
    ground (arith, IsAt-index exp spec at)
Step-budget {exp = exp} short (recover spec t0 t u v at begun clean rt ru rv left grace e) inv =
    ground (arith, IsAt-index exp spec at)
Step-budget {exp = exp} short (advance spec t0 t at begun read over e) inv = ground (
  arith,
  next_index exp.status.current_scenario_index (length exp.spec.scenarios) short,
  IsAt-index exp spec at,
)
Step-budget short (complete runs past e) inv = ground arith
Step-budget {exp = exp} short (fail spec at clean e) inv = ground (arith, IsAt-index exp spec at)
Step-budget short (halt reason live asked e) inv = ground arith

-- The status of an experiment that is just created.
abbrev pub no_status : ChaosExperimentStatus
no_status = record {
  conditions = [];
  phase = unset;
  metrics = none;
  current_scenario_index = pos 0;
  injected_at = none;
  recovered_at = none;
  halt_reason = none;
}

-- An experiment is `exp` after `n` writes of its status by the reconciler. Between them users and the
-- watcher change its metadata.
pub data Life (c : Cluster) (first : ChaosExperiment) : ℕ → ChaosExperiment → Type 0 where
  created : Life c first 0 first
  reconciled :
      {n : ℕ} {exp next : ChaosExperiment}
      → Life c first n exp
      → Step c exp next
      → Life c first (suc n) next
  edited :
      {n : ℕ} {exp next : ChaosExperiment}
      → Life c first n exp
      → next.spec ≡ exp.spec
      → next.status ≡ exp.status
      → Life c first n next

created-Inv : (exp : ChaosExperiment) → exp.status ≡ no_status → Inv exp
created-Inv exp e = ground arith

pub Step-spec : {c : Cluster} {exp next : ChaosExperiment} → Step c exp next → next.spec ≡ exp.spec
unfolding injected recovered advanced started halted_by
Step-spec (start fresh e) = ground arith
Step-spec (inject spec t at read pods clean e) = ground arith
Step-spec (recover spec t0 t u v at begun clean rt ru rv left grace e) = ground arith
Step-spec (advance spec t0 t at begun read over e) = ground arith
Step-spec (complete runs past e) = ground arith
Step-spec (fail spec at clean e) = ground arith
Step-spec (halt reason live asked e) = ground arith

pub edited-Inv :
    {exp next : ChaosExperiment}
    → next.spec ≡ exp.spec
    → next.status ≡ exp.status
    → Inv exp
    → Inv next
edited-Inv es et inv = ground arith

-- What is known of an experiment after `n` status writes.
pub record Living (first : ChaosExperiment) (n : ℕ) (exp : ChaosExperiment) : Type 0 where
  pub same_spec : exp.spec ≡ first.spec
  pub invariant : Inv exp
  pub bounded : n + budget exp ≤ budget first

pub Life-Living :
    {c : Cluster} {first exp : ChaosExperiment} {n : ℕ}
    → first.status ≡ no_status
    → length first.spec.scenarios < 2 ^ 31
    → Life c first n exp
    → Living first n exp
Life-Living {first = first} new short created = record {
  same_spec = refl;
  invariant = created-Inv first new;
  bounded = omega arith;
}
Life-Living new short (reconciled {exp = exp} life step) =
    let before = Life-Living new short life in
    let short' : length exp.spec.scenarios < 2 ^ 31 = rw before.same_spec short in
    record {
      same_spec = Step-spec step ∙ before.same_spec;
      invariant = Step-Inv short' step before.invariant;
      bounded = omega (arith, before.bounded, Step-budget short' step before.invariant);
    }
Life-Living new short (edited life es et) =
    let before = Life-Living new short life in
    record {
      same_spec = es ∙ before.same_spec;
      invariant = edited-Inv es et before.invariant;
      bounded = rw (es, et) before.bounded;
    }

-- An experiment that starts with an empty status satisfies the invariant of its status for its whole
-- life, whatever is done to its metadata, if it has fewer than 2^31 scenarios.
pub Life-Inv :
    {c : Cluster} {first exp : ChaosExperiment} {n : ℕ}
    → first.status ≡ no_status
    → length first.spec.scenarios < 2 ^ 31
    → Life c first n exp
    → Inv exp
Life-Inv new short life = (Life-Living new short life).invariant

-- The reconciler writes the status of an experiment at most three times for each of its scenarios and
-- three times more, if the experiment starts with an empty status and has fewer than 2^31 scenarios.
pub Life-le :
    {c : Cluster} {first exp : ChaosExperiment} {n : ℕ}
    → first.status ≡ no_status
    → length first.spec.scenarios < 2 ^ 31
    → Life c first n exp
    → n ≤ 3 * length first.spec.scenarios + 3
Life-le {first = first} new short life = ground (arith, (Life-Living new short life).bounded)
