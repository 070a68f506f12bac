-- ===== src/Experiment/Writes.antt =====
-- Every call on the API that the reconciler makes is allowed by the object that it read.
use entropyk.Base.{[], ◌≡◌, All}
use entropyk.Go.{ok}
use entropyk.Kube.{ObjectKey}
use entropyk.Api.Experiment.{ChaosExperiment}
use entropyk.Runtime.{World, Fine, run-Holds, on_error, ask}
use entropyk.Calls.{noted, perform}
use entropyk.Cluster.{Cluster}
use entropyk.Experiment.Reconcile.{reconcile}
use entropyk.Experiment.Invariant.{Inv}
use entropyk.Experiment.Steps.{IsAllowed}
use entropyk.Experiment.Policy.{Policy}
use entropyk.Experiment.Keeping.{Holds-reconcile_found}

module _ (c : Cluster) where
  -- The log holds what is allowed.
  logged : (exp : ChaosExperiment) → Policy c exp (λ w. All (IsAllowed c exp) w.log)
  unfolding perform
  logged exp = record {
    tools = record {
      deployment = λ key w h. h;
      pods = λ namespace selector w h. h;
      time = λ w h. h;
      shuffled = λ n w h. h;
      deleted =
          λ pod w runs h. noted (IsAllowed c exp) _ (c.delete_pod pod w.state).0 w.log runs runs h;
    };
    emitted = λ e w allowed h. (allowed, h);
    Saved = λ spec. Unit;
    own = tt;
    updated = λ e w edit kept h.
        noted (IsAllowed c exp) _ (c.update_experiment e w.state).0 w.log edit edit h;
    written = λ next w step h.
        noted (IsAllowed c exp) _ (c.update_experiment_status next w.state).0 w.log step step h;
    saved = λ next e w step h got. tt;
  }

  -- From an empty log: whatever the cluster answers, each call that a reconcile makes on the API is
  -- allowed by the experiment as it was read. A status that it writes, accepted or refused, is one
  -- step on from it, at times that the clock gives: an advance only when the duration is over, and a
  -- recovery only while it is not but the grace period is. An update puts the finalizer on the
  -- experiment or takes it off, or takes the annotations of a halt off it (as it was read, or as the
  -- server gave it back for the status), and changes nothing else. A pod that it deletes is running, it
  -- uses each metric with as many values as the metric has labels, and it touches no schedule and
  -- creates no experiment. If the reconcile panics, the experiment did not satisfy the invariant.
  pub reconcile-IsAllowed :
      (key : ObjectKey) (w : World c.State) {exp : ChaosExperiment}
      → w.log ≡ []
      → (c.get_experiment key w.state).0 ≡ ok exp
      → Fine (IsAllowed c exp) (¬ Inv exp) (reconcile c key w)
  unfolding reconcile on_error ask
  reconcile-IsAllowed key w {exp} fresh found = rw found (
      run-Holds (Holds-reconcile_found c exp (logged exp))
        (record { state = (c.get_experiment key w.state).1; log = w.log }) (rw fresh tt))
