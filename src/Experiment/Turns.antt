-- ===== src/Experiment/Turns.antt =====
-- The reconciler does not turn in circles: on a lawful server, only a bounded number of its reconciles find
-- something to do and succeed.
use entropyk.Base.{ℕ, suc, ◌+◌, ◌*◌, ◌≤◌, ◌<◌, ◌^◌, [], ◌≡◌, refl, inl, inr, arith, length}
use entropyk.Go.{Result, ok, err, wrap}
use entropyk.Kube.{ObjectKey}
use entropyk.Api.Experiment.{ChaosExperiment}
use entropyk.Runtime.{
  World, returned, branch, pure, raise, run-Holds, run-Arrives, Holds-branch, Holds-pure,
  Holds-raise, on_error, ask, outcome, follow,
}
use entropyk.Cluster.{Cluster}
use entropyk.Experiment.Parts.{ReconcileResult, done}
use entropyk.Experiment.Reconcile.{reconcile_found, reconcile}
use entropyk.Experiment.Lifetime.{no_status}
use entropyk.Experiment.Keeping.{Holds-reconcile_found}
use entropyk.Experiment.Tally.{Tally, counting}
use entropyk.Experiment.Gains.{IsReady, reconcile_found-Brings}
use entropyk.Experiment.Server.{Drifts, LawfulServer}
use entropyk.Experiment.System
use entropyk.Experiment.System.{Reaches, Reaches-IsSound}

-- A write of a status that is answered without an error was accepted, and an update of the object is none.
pub record IsTruthful {c : Cluster} {key : ObjectKey} (server : LawfulServer c key) : Type 0 where
  pub taken :
      (next e : ChaosExperiment) (s : c.State)
      → (c.update_experiment_status next s).0 ≡ ok e
      → server.store.writes (c.update_experiment_status next s).1 ≡ suc (server.store.writes s)
  pub updated :
      (e : ChaosExperiment) (s : c.State)
      → server.store.writes (c.update_experiment e s).1 ≡ server.store.writes s

module _ (c : Cluster) (key : ObjectKey) (server : LawfulServer c key)
    (truthful : IsTruthful server) where
  writes_tally : Tally c
  writes_tally = record {
    count = server.store.writes;
    deployment = λ k s. omega (arith, (server.deployment k s).count);
    pods = λ namespace selector s. omega (arith, (server.pods namespace selector s).count);
    time = λ s. omega (arith, (server.time s).count);
    shuffled = λ n s. omega (arith, (server.shuffled n s).count);
    deleted = λ pod s. omega (arith, (server.deleted pod s).count);
    updated = λ e s. omega (arith, truthful.updated e s);
    written = λ next s. elim (server.written next s) [
      | inl d ↦ omega (arith, d.count)
      | inr a ↦ omega (arith, a.count)
    ];
    taken = λ next e s got. omega (arith, truthful.taken next e s got);
  }

  -- What is found is reconciled, and otherwise nothing is written.
  kept_from :
      (k : ℕ) (r : Result ChaosExperiment) (w : World c.State)
      → k ≤ server.store.writes w.state
      → k
        ≤ server.store.writes
            (follow
              (λ e. branch e.not_found (pure done) (raise (wrap "get ChaosExperiment" e)))
              (reconcile_found c)
              (outcome r, w)).1.state
  unfolding writes_tally
  kept_from k (err e) w h =
      (run-Holds {I = λ v. k ≤ server.store.writes v.state} {Q = Unit}
        (Holds-branch _ _ _ (λ _. Holds-pure _) (λ _. Holds-raise _)) w h).0
  kept_from k (ok exp) w h =
      (run-Holds (Holds-reconcile_found c exp (counting c writes_tally exp k)) w h).0

  reconcile-keeps :
      (s : c.State)
      → server.store.writes s
        ≤ server.store.writes (reconcile c key (record { state = s; log = [] })).1.state
  unfolding reconcile on_error ask
  reconcile-keeps s =
      kept_from _ (c.get_experiment key s).0
        (record { state = (c.get_experiment key s).1; log = [] })
        (omega (arith, (server.reading s).count))

  gained_from :
      (exp : ChaosExperiment) (rd : Result ChaosExperiment) (w : World c.State)
      → rd ≡ ok exp
      → IsReady c exp w.state
      → (r : ReconcileResult)
      → (follow
          (λ e. branch e.not_found (pure done) (raise (wrap "get ChaosExperiment" e)))
          (reconcile_found c)
          (outcome rd, w)).0
        ≡ returned r
      → suc (server.store.writes w.state)
        ≤ server.store.writes
            (follow
              (λ e. branch e.not_found (pure done) (raise (wrap "get ChaosExperiment" e)))
              (reconcile_found c)
              (outcome rd, w)).1.state
  unfolding writes_tally
  gained_from exp (err e) w found ready r got = absurd cc
  gained_from exp (ok e) w found ready r got =
      let same : e ≡ exp = ground (arith, found) in
      run-Arrives (reconcile_found-Brings c writes_tally e w.state (rw same ready)) w refl r got

  reconcile-gains :
      (s : c.State) (exp : ChaosExperiment)
      → (c.get_experiment key s).0 ≡ ok exp
      → IsReady c exp (c.get_experiment key s).1
      → (r : ReconcileResult) → (reconcile c key (record { state = s; log = [] })).0 ≡ returned r
      → suc (server.store.writes s)
        ≤ server.store.writes (reconcile c key (record { state = s; log = [] })).1.state
  unfolding reconcile on_error ask
  reconcile-gains s exp found ready r got =
      let gained =
        gained_from exp (c.get_experiment key s).0
          (record { state = (c.get_experiment key s).1; log = [] }) found ready r got in
      omega (arith, gained, (server.reading s).count)

-- Reconciles in a row, with edits by others between them, and of how many it is known that they read an
-- experiment with something left to do and succeeded.
pub data Turns (c : Cluster) (key : ObjectKey) (server : LawfulServer c key)
    (first : ChaosExperiment) : ℕ → c.State → Type 0 where
  begun :
      (s : c.State)
      → server.store.stored s ≡ first
      → server.store.writes s ≡ 0
      → ((e : ChaosExperiment) → server.store.Seen s e → e ≡ first)
      → Turns c key server first 0 s
  gained :
      {k : ℕ} (s : c.State)
      → Turns c key server first k s
      → (exp : ChaosExperiment) → (c.get_experiment key s).0 ≡ ok exp
      → IsReady c exp (c.get_experiment key s).1
      → (r : ReconcileResult) → (reconcile c key (record { state = s; log = [] })).0 ≡ returned r
      → Turns c key server first (suc k) (reconcile c key (record { state = s; log = [] })).1.state
  reconciled :
      {k : ℕ} (s : c.State)
      → Turns c key server first k s
      → Turns c key server first k (reconcile c key (record { state = s; log = [] })).1.state
  edited :
      {k : ℕ} (s s' : c.State)
      → Turns c key server first k s
      → Drifts server.store s s'
      → Turns c key server first k s'

module _ (c : Cluster) (key : ObjectKey) (server : LawfulServer c key)
    {first : ChaosExperiment} where
  Turns-Reaches :
      {k : ℕ} {s : c.State} → Turns c key server first k s → Reaches c key server first s
  Turns-Reaches (begun s same zero only) = System.begun s same zero only
  Turns-Reaches (gained s t exp found ready r got) = System.reconciled s (Turns-Reaches t)
  Turns-Reaches (reconciled s t) = System.reconciled s (Turns-Reaches t)
  Turns-Reaches (edited s s' t d) = System.edited s s' (Turns-Reaches t) d

  module _ (truthful : IsTruthful server) where
    Turns-writes : {k : ℕ} {s : c.State} → Turns c key server first k s → k ≤ server.store.writes s
    Turns-writes (begun s same zero only) = omega arith
    Turns-writes (gained s t exp found ready r got) =
        omega (arith, Turns-writes t, reconcile-gains c key server truthful s exp found ready r got)
    Turns-writes (reconciled s t) =
        omega (arith, Turns-writes t, reconcile-keeps c key server truthful s)
    Turns-writes (edited s s' t d) = omega (arith, Turns-writes t, d.count)

    -- An experiment that is created with an empty status and fewer than 2^31 scenarios, on an API server
    -- that keeps its promises, where a write of a status that is answered without an error was
    -- accepted: among any number of reconciles, at most three for each scenario and three more succeed
    -- and had read an experiment with something left to do. That is one that is not being deleted, has
    -- the finalizer, is not over, and is not within the duration of a scenario that was injected.
    pub Turns-le :
        first.status ≡ no_status
        → length first.spec.scenarios < 2 ^ 31
        → {k : ℕ} {s : c.State} → Turns c key server first k s
        → k ≤ 3 * length first.spec.scenarios + 3
    Turns-le new short t = omega (
      arith,
      Turns-writes t,
      (Reaches-IsSound c key server {first = first} new short (Turns-Reaches t)).1,
    )
