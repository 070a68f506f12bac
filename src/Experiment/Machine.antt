-- ===== src/Experiment/Machine.antt =====
-- The abstract machine that an experiment of `n` scenarios implements: one scenario after the other,
-- each injected once, then perhaps seen to recover, then over.
use entropyk.Base.{ℕ, suc, ◌<◌, ◌^◌, pos_part, false, Option, none, some, ◌≡◌, ◌≢◌, arith, length}
use entropyk.Go.{Time}
use entropyk.Api.Experiment.{
  ExperimentPhase, unset, pending, running, completed, failed, halted, other_phase, is_halted,
  ChaosExperimentStatus, ChaosExperiment,
}
use entropyk.Experiment.Parts.{is_past}
use entropyk.Experiment.Running.{injected, recovered, advanced}
use entropyk.Experiment.Reconcile.{started, halted_by}
use entropyk.Cluster.{Cluster}
use entropyk.Experiment.Steps.{Step, start, inject, recover, advance, complete, fail, halt}
use entropyk.Experiment.Invariant.{Inv, IsAt-index, next_index}

pub data View : Type 0 where
  fresh finished failing stopped strange : View
  ready hit back : ℕ → View

abbrev at_step : ℕ → Option Time → Option Time → View
at_step i none _ = ready i
at_step i (some _) none = hit i
at_step i (some _) (some _) = back i

abbrev view_of : ExperimentPhase → ChaosExperimentStatus → View
view_of unset s = fresh
view_of pending s = fresh
view_of running s = at_step (pos_part s.current_scenario_index) s.injected_at s.recovered_at
view_of completed s = finished
view_of failed s = failing
view_of halted s = stopped
view_of (other_phase _) s = strange

-- What the machine sees of an experiment.
abbrev pub view : ChaosExperiment → View
view exp = view_of exp.status.phase exp.status

pub data Moves (n : ℕ) (v v' : View) : Type 0 where
  begins : v ≡ fresh → v' ≡ ready 0 → Moves n v v'
  hits : (i : ℕ) → i < n → v ≡ ready i → v' ≡ hit i → Moves n v v'
  recovers : (i : ℕ) → i < n → v ≡ hit i → v' ≡ back i → Moves n v v'
  ends_hit : (i : ℕ) → i < n → v ≡ hit i → v' ≡ ready (suc i) → Moves n v v'
  ends_back : (i : ℕ) → i < n → v ≡ back i → v' ≡ ready (suc i) → Moves n v v'
  finishes : v ≡ ready n → v' ≡ finished → Moves n v v'
  fails : (i : ℕ) → i < n → v ≡ ready i → v' ≡ failing → Moves n v v'
  stops : v ≢ stopped → v' ≡ stopped → Moves n v v'

live-ne-stopped :
    (phase : ExperimentPhase) (s : ChaosExperimentStatus)
    → is_halted phase ≡ false
    → view_of phase s ≢ stopped
live-ne-stopped running s live e = ground arith
live-ne-stopped _ s live e = cc

module _ (exp : ChaosExperiment) where
  advance-Moves :
      (next : ChaosExperiment) (i n : ℕ) (t0 : Time) (r : Option Time)
      → i < n
      → view exp ≡ at_step i (some t0) r
      → view next ≡ ready (suc i)
      → Moves n (view exp) (view next)
  advance-Moves next i n t0 none lt e e' = ends_hit i lt e e'
  advance-Moves next i n t0 (some t) lt e e' = ends_back i lt e e'

-- The experiment's steps are moves of the machine.
pub Step-Moves :
    {c : Cluster} {exp next : ChaosExperiment}
    → length exp.spec.scenarios < 2 ^ 31
    → Step c exp next
    → Inv exp
    → Moves (length exp.spec.scenarios) (view exp) (view next)
unfolding injected recovered advanced started halted_by is_past
Step-Moves short (start new e) inv = begins (ground arith) (ground arith)
Step-Moves {exp = exp} short (inject spec t at read pods clean e) inv =
    hits (pos_part exp.status.current_scenario_index) (ground (arith, IsAt-index exp spec at))
      (ground (arith, at.in_running)) (ground (arith, at.in_running))
Step-Moves {exp = exp} short (recover spec t0 t u v at begun clean rt ru rv left grace e) inv =
    recovers (pos_part exp.status.current_scenario_index) (ground (arith, IsAt-index exp spec at))
      (ground (arith, at.in_running)) (ground (arith, at.in_running))
Step-Moves {exp = exp} {next = next} short (advance spec t0 t at begun read over e) inv =
    advance-Moves exp next (pos_part exp.status.current_scenario_index) (length exp.spec.scenarios)
      t0 exp.status.recovered_at (ground (arith, IsAt-index exp spec at))
      (ground (arith, at.in_running))
      (ground (
        arith,
        at.in_running,
        next_index exp.status.current_scenario_index (length exp.spec.scenarios) short,
        IsAt-index exp spec at,
      ))
Step-Moves {exp = exp} short (complete runs past e) inv =
    finishes (ground (arith, inv.injected_inside)) (ground arith)
Step-Moves {exp = exp} short (fail spec at clean e) inv =
    fails (pos_part exp.status.current_scenario_index) (ground (arith, IsAt-index exp spec at))
      (ground (arith, at.in_running)) (ground arith)
Step-Moves {exp = exp} short (halt reason live asked e) inv =
    stops (live-ne-stopped exp.status.phase exp.status live) (ground arith)
