-- ===== src/Experiment/Policy.antt =====
-- What the calls of a reconcile are asked to keep of the world. The reconciler is followed once, for any
-- property of this kind; the properties are that of the log (Experiment/Writes), that of a lawful
-- server (Experiment/Server) and the count of its writes (Experiment/Tally).
use entropyk.Base.{String, ◌∷◌, ◌≡◌}
use entropyk.Go.{Result, ok, err, Time}
use entropyk.Api.Experiment.{ChaosExperimentSpec, ChaosExperiment}
use entropyk.Runtime.{
  World, Effect, Write, returned, outcome, Holds, Holds-emit, Holds-bind_seen, Holds-wrapping,
  wrapping_inv, emit, wrapping, ◌>>=◌,
}
use entropyk.Calls
use entropyk.Calls.{perform, Holds-perform, Holds-now, IsRead, Holds-bind_now}
use entropyk.Cluster.{Cluster, Handler}
use entropyk.Scenario.PodKill.Keeping.{Tools}
use entropyk.Experiment.Steps.{Step, Edit, IsAnswer, IsAllowed}

-- A property of worlds that each call that a reconcile of `exp` makes keeps. An object may be updated
-- if its spec is `Saved`, which that of `exp` is, and that of what a status write gives back.
pub record Policy (c : Cluster) (exp : ChaosExperiment) (I : World c.State → Type 0) : Type 1 where
  pub tools : Tools c I
  pub emitted :
      (e : Effect) (w : World c.State) → IsAllowed c exp e → I w → I (record w { log = e ∷ w.log })
  pub Saved : ChaosExperimentSpec → Type 0
  pub own : Saved exp.spec
  pub updated :
      (e : ChaosExperiment) (w : World c.State)
      → Edit c exp e
      → Saved e.spec
      → I w
      → I (Calls.update_experiment c e w).1
  pub written :
      (next : ChaosExperiment) (w : World c.State)
      → Step c exp next
      → I w
      → I (Calls.update_experiment_status c next w).1
  pub saved :
      (next e : ChaosExperiment) (w : World c.State)
      → Step c exp next
      → I w
      → (c.update_experiment_status next w.state).0 ≡ ok e
      → Saved e.spec

outcome-returned : {A : Type 0} (r : Result A) (a : A) → outcome r ≡ returned a → r ≡ ok a
outcome-returned (ok b) a e = cc
outcome-returned (err x) a e = absurd cc

pub wrapped_ok :
    {S A : Type 0} (s : String) (write : Write) (f : S → Result A × S) (w : World S) (a : A)
    → (wrapping s (perform write f) w).0 ≡ returned a
    → (f w.state).0 ≡ ok a
unfolding perform
wrapped_ok s write f w a e = outcome-returned _ a (wrapping_inv s (perform write f) w e).0

module _ (c : Cluster) (exp : ChaosExperiment) {I : World c.State → Type 0}
    (policy : Policy c exp I) {Q : Type 0} where
  pub Holds-allowed : (e : Effect) → IsAllowed c exp e → Holds I Q (emit e)
  Holds-allowed e allowed = Holds-emit e λ w h. policy.emitted e w allowed h

  pub Holds-time : Holds I Q (Calls.now c)
  Holds-time = Holds-now c policy.tools.time

  -- The clock is read, and what follows has its time.
  pub Holds-clock :
      {B : Type 0} (f : Time → Handler c B)
      → ((t : Time) → IsRead c t → Holds I Q (f t))
      → Holds I Q (Calls.now c >>= f)
  Holds-clock f k = Holds-bind_now c f policy.tools.time k

  pub Holds-update :
      (s : String) (e : ChaosExperiment)
      → Edit c exp e
      → policy.Saved e.spec
      → Holds I Q (wrapping s (Calls.update_experiment c e))
  Holds-update s e edit ok_spec =
      Holds-wrapping _ _ (Holds-perform _ _ λ w h. policy.updated e w edit ok_spec h)

  -- A status write, where the status is a step on.
  pub Holds-write :
      {B : Type 0} (s : String) (next : ChaosExperiment) (f : ChaosExperiment → Handler c B)
      → Step c exp next
      → ((e : ChaosExperiment) → IsAnswer c exp e → policy.Saved e.spec → Holds I Q (f e))
      → Holds I Q (wrapping s (Calls.update_experiment_status c next) >>= f)
  Holds-write s next f step k =
      Holds-bind_seen _ _
        (Holds-wrapping _ _ (Holds-perform _ _ λ w h. policy.written next w step h))
        λ e w h got.
          let taken = wrapped_ok s _ _ w e got in
          k e (record { next = next; step = step; state = w.state; given = taken })
            (policy.saved next e w step h taken)
