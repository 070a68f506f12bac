-- ===== src/Experiment/System.antt =====
-- The reconciler and a lawful API server as one system: any number of reconciles, and edits by others
-- between and during them.
use entropyk.Base.{ℕ, ◌+◌, ◌*◌, ◌≤◌, ◌<◌, ◌^◌, [], ◌≡◌, ◌≢◌, inl, inr, refl, sym, ◌∙◌, length}
use entropyk.Go.{Result, ok, err, wrap}
use entropyk.Kube.{ObjectKey}
use entropyk.Api.Experiment.{completed, ChaosExperiment}
use entropyk.Runtime.{
  World, Ends, panicked, outcome, follow, run-Holds, Holds-branch, Holds-pure, Holds-raise, branch,
  pure, raise, on_error, ask,
}
use entropyk.Calls.{perform}
use entropyk.Cluster.{Cluster}
use entropyk.Experiment.Parts.{done}
use entropyk.Experiment.Reconcile.{reconcile_found, reconcile}
use entropyk.Experiment.Steps.{Step}
use entropyk.Experiment.Invariant.{Inv}
use entropyk.Experiment.Lifetime.{no_status, Life, created, Life-Inv, Life-le}
use entropyk.Experiment.Order.{upto, injections, injections-upto}
use entropyk.Experiment.Policy.{Policy}
use entropyk.Experiment.Keeping.{Holds-reconcile_found}
use entropyk.Experiment.Server.{
  Drifts, LawfulServer, Alive, Life-spec, Step-version, Drifts-Alive, Accepts-Alive,
}

module _ (c : Cluster) (key : ObjectKey) (server : LawfulServer c key)
    (first : ChaosExperiment) where
  -- While `exp` is reconciled: it was seen, and the store is alive.
  abbrev Kept : ChaosExperiment → c.State → Type 0
  Kept exp s = server.store.Seen s exp × Alive c server.store first s

  module _ (exp : ChaosExperiment) where
    drifted : {s s' : c.State} → Drifts server.store s s' → Kept exp s → Kept exp s'
    drifted d (seen, alive) = (d.kept exp seen, Drifts-Alive server.store d alive)

    -- An accepted status write was one of the version that was read.
    written :
        (next : ChaosExperiment) (s : c.State)
        → Step c exp next
        → Kept exp s
        → Kept exp (c.update_experiment_status next s).1
    written next s step (seen, alive) = elim (server.written next s) [
      | inl d ↦ drifted d (seen, alive)
      | inr a ↦ (
        a.kept exp seen,
        Accepts-Alive server.store step
            (server.unique s exp (server.store.stored s) seen (server.latest s)
              (sym (Step-version step) ∙ a.current))
            a alive,
      )
    ]

    served : {n : ℕ} → Life c first n exp → Policy c exp (λ w. Kept exp w.state)
    unfolding perform
    served life = record {
      tools = record {
        deployment = λ k w h. drifted (server.deployment k w.state) h;
        pods = λ namespace selector w h. drifted (server.pods namespace selector w.state) h;
        time = λ w h. drifted (server.time w.state) h;
        shuffled = λ n w h. drifted (server.shuffled n w.state) h;
        deleted = λ pod w runs h. drifted (server.deleted pod w.state) h;
      };
      emitted = λ e w allowed h. h;
      Saved = λ spec. spec ≡ first.spec;
      own = Life-spec life;
      updated =
          λ e w edit kept h. drifted (server.updated e w.state (kept ∙ sym (Life-spec h.1.now))) h;
      written = λ next w step h. written next w.state step h;
      saved = λ next e w step h got.
          server.answered next e w.state got ∙ Life-spec (written next w.state step h).1.now;
    }

  module _ (new : first.status ≡ no_status) (short : length first.spec.scenarios < 2 ^ 31) where
    found-Alive :
        (r : Result ChaosExperiment) (w : World c.State)
        → ((exp : ChaosExperiment) → r ≡ ok exp → server.store.Seen w.state exp)
        → Alive c server.store first w.state
        → Ends
            (λ w'. Alive c server.store first w'.state)
            ⊥
            (follow
              (λ e. branch e.not_found (pure done) (raise (wrap "get ChaosExperiment" e)))
              (reconcile_found c)
              (outcome r, w))
    found-Alive (err e) w seen alive =
        run-Holds {I = λ w'. Alive c server.store first w'.state} {Q = ⊥}
          (Holds-branch e.not_found (pure done) (raise (wrap "get ChaosExperiment" e))
            (λ _. Holds-pure _) (λ _. Holds-raise _))
          w alive
    found-Alive (ok exp) w seen alive =
        let (n, life) = alive.ever exp (seen exp refl) in
        let (kept, safe) =
          run-Holds (Holds-reconcile_found c exp (served exp life)) w (seen exp refl, alive) in
        (kept.1, λ crash. safe crash (Life-Inv new short life))

    -- On an API server that keeps its promises, where others edit nothing but the metadata: if the
    -- stored experiment has lived for as many steps of the reconciler as writes of its status were
    -- accepted, and each version that was seen has a life of such steps, then so it is after one more
    -- reconcile, and the reconcile does not panic. The times of a step are those that the clock gives:
    -- an advance has one at which the duration is over, a recovery one at which it is not and one at
    -- which the grace period is. The experiment is created with an empty status and fewer than 2^31
    -- scenarios.
    pub reconcile-Alive :
        (w : World c.State)
        → Alive c server.store first w.state
        → Ends (λ w'. Alive c server.store first w'.state) ⊥ (reconcile c key w)
    unfolding reconcile on_error ask
    reconcile-Alive w alive =
        found-Alive (c.get_experiment key w.state).0
          (record w { state = (c.get_experiment key w.state).1 }) (server.read w.state)
          (Drifts-Alive server.store (server.reading w.state) alive)

-- What the server and the reconciler can get to, from an experiment just created: reconciles, one
-- after the other, and edits by others.
pub data Reaches (c : Cluster) (key : ObjectKey) (server : LawfulServer c key)
    (first : ChaosExperiment) : c.State → Type 0 where
  begun :
      (s : c.State)
      → server.store.stored s ≡ first
      → server.store.writes s ≡ 0
      → ((e : ChaosExperiment) → server.store.Seen s e → e ≡ first)
      → Reaches c key server first s
  reconciled :
      (s : c.State)
      → Reaches c key server first s
      → Reaches c key server first (reconcile c key (record { state = s; log = [] })).1.state
  edited :
      (s s' : c.State)
      → Reaches c key server first s
      → Drifts server.store s s'
      → Reaches c key server first s'

module _ (c : Cluster) (key : ObjectKey) (server : LawfulServer c key) {first : ChaosExperiment}
    (new : first.status ≡ no_status) (short : length first.spec.scenarios < 2 ^ 31) where
  Reaches-Alive : {s : c.State} → Reaches c key server first s → Alive c server.store first s
  Reaches-Alive (begun s same zero only) = record {
    now = rw (same, zero) created;
    ever = λ e seen. (0, rw (only e seen) created);
  }
  Reaches-Alive (reconciled s r) =
      (reconcile-Alive c key server first new short (record { state = s; log = [] })
        (Reaches-Alive r)).0
  Reaches-Alive (edited s s' r d) = Drifts-Alive server.store d (Reaches-Alive r)

  -- An experiment that is created with an empty status and fewer than 2^31 scenarios, on an API server
  -- that keeps its promises (reads may be stale, an accepted write may be answered by an error, and
  -- others may edit the metadata at any time, but not the spec): after any number of reconciles the stored status
  -- satisfies the invariant, it was written at most three times for each scenario and three times
  -- more, and the next reconcile does not panic.
  pub Reaches-IsSound :
      {s : c.State}
      → Reaches c key server first s
      → Inv (server.store.stored s)
        × (server.store.writes s ≤ 3 * length first.spec.scenarios + 3)
        × ((reconcile c key (record { state = s; log = [] })).0 ≢ panicked)
  Reaches-IsSound {s} r =
      let alive = Reaches-Alive r in
      (
        Life-Inv new short alive.now,
        Life-le new short alive.now,
        λ crash.
            (reconcile-Alive c key server first new short (record { state = s; log = [] }) alive).1
              crash,
      )

  -- For an experiment that is created with an empty status and fewer than 2^31 scenarios, on an API
  -- server that keeps its promises: whenever the stored experiment is looked at, it has a life with as
  -- many steps of the reconciler as writes of its status were accepted. The injections recorded in it
  -- are those of the first scenarios, one of each, in their order; and of all the scenarios, if the
  -- experiment is completed.
  pub Reaches-upto :
      {s : c.State}
      → Reaches c key server first s
      → (life : Life c first (server.store.writes s) (server.store.stored s)) × (m : ℕ)
        × (injections life ≡ upto m)
        × (m ≤ length first.spec.scenarios)
        × ((server.store.stored s).status.phase ≡ completed → m ≡ length first.spec.scenarios)
  Reaches-upto r =
      let life = (Reaches-Alive r).now in
      let (m, listed, within, all) = injections-upto new short life in
      (life, m, listed, within, all)
