-- ===== src/Experiment/Refinement.antt =====
-- The reconciler implements the abstract machine.
use entropyk.Base.{
  Bool, true, false, Option, none, some, [], ◌≡◌, ◌^◌, ◌<◌, length, All, All-weaken,
}
use entropyk.Go.{ok}
use entropyk.Kube.{ObjectKey}
use entropyk.Api.Experiment.{ChaosExperiment, Execution, sequential, parallel, other_mode}
use entropyk.Runtime.{World, Effect, Write, written, refused}
use entropyk.Cluster.{Cluster}
use entropyk.Experiment.Reconcile.{reconcile}
use entropyk.Experiment.Steps.{IsAllowed}
use entropyk.Experiment.Invariant.{Inv}
use entropyk.Experiment.Lifetime.{no_status, Life, Life-Living}
use entropyk.Experiment.Machine.{view, Moves, Step-Moves}
use entropyk.Experiment.Writes.{reconcile-IsAllowed}

-- A status that is written is one move on from the experiment that was read.
abbrev pub IsMove : ChaosExperiment → Effect → Type 0
IsMove exp (written (Write.experiment_status next)) =
    Moves (length exp.spec.scenarios) (view exp) (view next)
IsMove exp (refused (Write.experiment_status next)) =
    Moves (length exp.spec.scenarios) (view exp) (view next)
IsMove exp _ = Unit

-- The execution is not asked to be parallel.
abbrev pub in_turn : Option Execution → Bool
in_turn none = true
in_turn (some e) = elim e.mode [ sequential ↦ true | parallel ↦ false | other_mode _ ↦ true ]

IsAllowed-IsMove :
    (c : Cluster) (exp : ChaosExperiment)
    → length exp.spec.scenarios < 2 ^ 31
    → Inv exp
    → (e : Effect) → IsAllowed c exp e
    → IsMove exp e
IsAllowed-IsMove c exp short inv (written (Write.experiment_status next)) step =
    Step-Moves short step inv
IsAllowed-IsMove c exp short inv (refused (Write.experiment_status next)) step =
    Step-Moves short step inv
IsAllowed-IsMove c exp short inv _ allowed = tt

-- Each status that a reconcile writes, from an empty log, for an experiment that started with an empty
-- status and fewer than 2^31 scenarios, not to be run in parallel, and whose status only the reconciler has changed since, is one
-- move of the abstract machine, whatever the cluster answers.
pub reconcile-IsMove :
    (c : Cluster) (key : ObjectKey) (w : World c.State) {first exp : ChaosExperiment} {n : _}
    → first.status ≡ no_status
    → length first.spec.scenarios < 2 ^ 31
    → in_turn first.spec.execution ≡ true
    → Life c first n exp
    → w.log ≡ []
    → (c.get_experiment key w.state).0 ≡ ok exp
    → All (IsMove exp) (reconcile c key w).1.log
reconcile-IsMove c key w {exp = exp} new short turns life fresh found =
    let now = Life-Living new short life in
    let short' : length exp.spec.scenarios < 2 ^ 31 = rw now.same_spec short in
    All-weaken (IsAllowed c exp) (IsMove exp) (IsAllowed-IsMove c exp short' now.invariant) _
      (reconcile-IsAllowed c key w fresh found).0
