-- ===== src/Experiment/Server.antt =====
-- The reconciler against an API server that keeps its promises: what is assumed elsewhere of the life of
-- an experiment follows from them.
use entropyk.Base.{ℕ, suc, String, ◌≡◌, ◌⊎◌, inl, inr, refl, sym, ap, ◌∙◌, arith}
use entropyk.Go.{ok}
use entropyk.Kube.{ObjectKey, Pod}
use entropyk.Api.Experiment.{ChaosExperiment}
use entropyk.Cluster.{Cluster}
use entropyk.Experiment.Running.{injected, recovered, advanced}
use entropyk.Experiment.Reconcile.{started, halted_by}
use entropyk.Experiment.Steps.{Step, start, inject, recover, advance, complete, fail, halt}
use entropyk.Experiment.Lifetime.{Life, created, reconciled, edited, Step-spec}

-- The same but for the metadata.
abbrev pub Alike : ChaosExperiment → ChaosExperiment → Type 0
Alike e e' = (e.spec ≡ e'.spec) × (e.status ≡ e'.status)

-- What is stored at the server under the key of an experiment, which versions of it readers may have
-- seen, and how many writes of its status were accepted.
pub record Store (S : Type 0) : Type 1 where
  pub stored : S → ChaosExperiment
  pub Seen : S → ChaosExperiment → Type 0
  pub writes : S → ℕ

-- Others may have edited the metadata, any number of times.
pub record Drifts {S : Type 0} (store : Store S) (s s' : S) : Type 0 where
  pub alike : Alike (store.stored s') (store.stored s)
  pub count : store.writes s' ≡ store.writes s
  pub news : (e : ChaosExperiment) → store.Seen s' e → store.Seen s e ⊎ Alike e (store.stored s)
  pub kept : (e : ChaosExperiment) → store.Seen s e → store.Seen s' e

-- The status of `next` was written: it was the version of the stored object, whose spec stays.
pub record Accepts {S : Type 0} (store : Store S) (next : ChaosExperiment) (s s' : S) : Type 0 where
  pub current : next.metadata.resource_version ≡ (store.stored s).metadata.resource_version
  pub same_spec : (store.stored s').spec ≡ (store.stored s).spec
  pub new_status : (store.stored s').status ≡ next.status
  pub count : store.writes s' ≡ suc (store.writes s)
  pub news :
      (e : ChaosExperiment)
      → store.Seen s' e
      → store.Seen s e ⊎ (Alike e (store.stored s) ⊎ Alike e (store.stored s'))
  pub kept : (e : ChaosExperiment) → store.Seen s e → store.Seen s' e

-- What an API server promises of the experiment with a key. Reads may be stale; a write may be
-- answered by an error though it was accepted; no two versions have one resource version, and an
-- update of a status is refused but for that of the stored version. The status is a subresource, and
-- nobody else writes it; nobody edits the spec.
pub record LawfulServer (c : Cluster) (key : ObjectKey) : Type 1 where
  pub store : Store c.State
  pub latest : (s : c.State) → store.Seen s (store.stored s)
  pub unique :
      (s : c.State) (e e' : ChaosExperiment)
      → store.Seen s e
      → store.Seen s e'
      → e.metadata.resource_version ≡ e'.metadata.resource_version
      → e ≡ e'
  pub read :
      (s : c.State) (e : ChaosExperiment)
      → (c.get_experiment key s).0 ≡ ok e
      → store.Seen (c.get_experiment key s).1 e
  pub reading : (s : c.State) → Drifts store s (c.get_experiment key s).1
  pub deployment : (k : ObjectKey) (s : c.State) → Drifts store s (c.get_deployment k s).1
  pub pods :
      (namespace : String) (selector : c.Selector) (s : c.State)
      → Drifts store s (c.list_pods namespace selector s).1
  pub time : (s : c.State) → Drifts store s (c.now s).1
  pub shuffled : (n : ℕ) (s : c.State) → Drifts store s (c.shuffle n s).1
  pub deleted : (pod : Pod) (s : c.State) → Drifts store s (c.delete_pod pod s).1
  pub updated :
      (e : ChaosExperiment) (s : c.State)
      → e.spec ≡ (store.stored s).spec
      → Drifts store s (c.update_experiment e s).1
  pub written :
      (next : ChaosExperiment) (s : c.State)
      → Drifts store s (c.update_experiment_status next s).1
        ⊎ Accepts store next s (c.update_experiment_status next s).1
  pub answered :
      (next e : ChaosExperiment) (s : c.State)
      → (c.update_experiment_status next s).0 ≡ ok e
      → e.spec ≡ (store.stored (c.update_experiment_status next s).1).spec

-- The stored experiment has lived for as many writes as were accepted, and each version that was seen
-- has a life.
pub record Alive (c : Cluster) {S : Type 0} (store : Store S) (first : ChaosExperiment) (s : S)
    : Type 0 where
  pub now : Life c first (store.writes s) (store.stored s)
  pub ever : (e : ChaosExperiment) → store.Seen s e → (n : ℕ) × Life c first n e

pub Life-spec :
    {c : Cluster} {first exp : ChaosExperiment} {n : ℕ} → Life c first n exp → exp.spec ≡ first.spec
Life-spec created = refl
Life-spec (reconciled life step) = Step-spec step ∙ Life-spec life
Life-spec (edited life es et) = es ∙ Life-spec life

pub Step-version :
    {c : Cluster} {exp next : ChaosExperiment}
    → Step c exp next
    → next.metadata.resource_version ≡ exp.metadata.resource_version
unfolding injected recovered advanced started halted_by
Step-version (start fresh e) = ground arith
Step-version (inject spec t at read pods clean e) = ground arith
Step-version (recover spec t0 t u v at begun clean rt ru rv left grace e) = ground arith
Step-version (advance spec t0 t at begun read over e) = ground arith
Step-version (complete runs past e) = ground arith
Step-version (fail spec at clean e) = ground arith
Step-version (halt reason live asked e) = ground arith

module _ {c : Cluster} {S : Type 0} (store : Store S) {first : ChaosExperiment} {s s' : S} where
  pub Drifts-Alive : Drifts store s s' → Alive c store first s → Alive c store first s'
  Drifts-Alive d h = record {
    now = rw d.count (edited h.now d.alike.0 d.alike.1);
    ever = λ e seen. elim (d.news e seen) [
      | inl old ↦ h.ever e old
      | inr like ↦ (store.writes s, edited h.now like.0 like.1)
    ];
  }

  pub Accepts-Alive :
      {exp next : ChaosExperiment}
      → Step c exp next
      → exp ≡ store.stored s
      → Accepts store next s s'
      → Alive c store first s
      → Alive c store first s'
  Accepts-Alive {exp} {next} step same a h =
      let life : Life c first (suc (store.writes s)) (store.stored s') =
        edited (reconciled (rw same h.now) step)
          (a.same_spec ∙ (ap (λ e. e.spec) (sym same) ∙ sym (Step-spec step))) a.new_status in
      record {
        now = rw a.count life;
        ever = λ e seen. elim (a.news e seen) [
          | inl old ↦ h.ever e old
          | inr (inl like) ↦ (store.writes s, edited h.now like.0 like.1)
          | inr (inr like) ↦ (suc (store.writes s), edited life like.0 like.1)
        ];
      }
