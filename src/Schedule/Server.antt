-- ===== src/Schedule/Server.antt =====
-- What an API server promises of a schedule, to the reconciler that writes its status.
use entropyk.Base.{ℕ, suc, String, ◌≡◌, ◌≢◌, ◌⊎◌, inl, inr, arith}
use entropyk.Base.Text.{Dict}
use entropyk.Go.{Std, ok}
use entropyk.Kube.{ObjectKey}
use entropyk.Api.Experiment.{ChaosExperiment}
use entropyk.Api.Schedule.{ChaosSchedule}
use entropyk.Runtime.{World, panicked}
use entropyk.Cluster.{Cluster}
use entropyk.Safeguard.Interfaces.{AlertChecker, MetricsQuerier}
use entropyk.Schedule.Gate.{ScheduleReconciler}
use entropyk.Schedule.Firing.{run_started, run_skipped}
use entropyk.Schedule.Reconcile.{in_phase, run_over, run_succeeded, run_halted}
use entropyk.Schedule.Steps.{Step, suspend, resume, fail, skip, start, forget, lose, succeed, halt}
use entropyk.Schedule.Invariant.{Life, reconciled, edited}

-- What is stored under the key of a schedule, which versions of it readers may have seen, and how many
-- writes of its status were accepted.
pub record Store (S : Type 0) : Type 1 where
  pub stored : S → ChaosSchedule
  pub Seen : S → ChaosSchedule → Type 0
  pub writes : S → ℕ

-- Others may have edited the spec and the metadata, any number of times.
pub record Drifts {S : Type 0} (store : Store S) (s s' : S) : Type 0 where
  pub same_status : (store.stored s').status ≡ (store.stored s).status
  pub count : store.writes s' ≡ store.writes s
  pub news :
      (e : ChaosSchedule) → store.Seen s' e → store.Seen s e ⊎ (e.status ≡ (store.stored s).status)
  pub kept : (e : ChaosSchedule) → store.Seen s e → store.Seen s' e

-- The status of `next` was written: it was the version of the stored object.
pub record Accepts {S : Type 0} (store : Store S) (next : ChaosSchedule) (s s' : S) : Type 0 where
  pub current : next.metadata.resource_version ≡ (store.stored s).metadata.resource_version
  pub new_status : (store.stored s').status ≡ next.status
  pub count : store.writes s' ≡ suc (store.writes s)
  pub news :
      (e : ChaosSchedule) → store.Seen s' e → store.Seen s e ⊎ (e.status ≡ (store.stored s').status)
  pub kept : (e : ChaosSchedule) → store.Seen s e → store.Seen s' e

-- Reads may be stale; a write may be answered by an error though it was accepted; no two versions have
-- one resource version, and an update of a status is refused but for that of the stored version. The
-- status is a subresource, and nobody else writes it. The backends do not panic.
pub record LawfulServer (c : Cluster) (std : Std) (r : ScheduleReconciler c std) (key : ObjectKey)
    : Type 1 where
  pub store : Store c.State
  pub latest : (s : c.State) → store.Seen s (store.stored s)
  pub unique :
      (s : c.State) (e e' : ChaosSchedule)
      → store.Seen s e
      → store.Seen s e'
      → e.metadata.resource_version ≡ e'.metadata.resource_version
      → e ≡ e'
  pub read :
      (s : c.State) (e : ChaosSchedule)
      → (c.get_schedule key s).0 ≡ ok e
      → store.Seen (c.get_schedule key s).1 e
  pub reading : (s : c.State) → Drifts store s (c.get_schedule key s).1
  pub experiment : (k : ObjectKey) (s : c.State) → Drifts store s (c.get_experiment k s).1
  pub deployment : (k : ObjectKey) (s : c.State) → Drifts store s (c.get_deployment k s).1
  pub time : (s : c.State) → Drifts store s (c.now s).1
  pub created_run : (e : ChaosExperiment) (s : c.State) → Drifts store s (c.create_experiment e s).1
  pub alerts :
      (url : String) (checker : AlertChecker c.State) (labels : Dict) (w : World c.State)
      → r.new_alert_checker url ≡ ok checker
      → Drifts store w.state (checker.check_alerts labels w).1.state
        × ((checker.check_alerts labels w).0 ≢ panicked)
  pub metrics :
      (url query : String) (querier : MetricsQuerier c.State std.Float) (w : World c.State)
      → r.new_metrics_querier url ≡ ok querier
      → Drifts store w.state (querier.instant_query query w).1.state
        × ((querier.instant_query query w).0 ≢ panicked)
  pub written :
      (next : ChaosSchedule) (s : c.State)
      → Drifts store s (c.update_schedule_status next s).1
        ⊎ Accepts store next s (c.update_schedule_status next s).1

-- The stored schedule has lived for as many writes as were accepted, and each version that was seen has
-- a life.
pub record Alive {S : Type 0} (c : Cluster) (store : Store S) (first : ChaosSchedule) (s : S)
    : Type 0 where
  pub now : Life c first (store.writes s) (store.stored s)
  pub ever : (e : ChaosSchedule) → store.Seen s e → (n : ℕ) × Life c first n e

pub Step-version :
    {c : Cluster} {sched next : ChaosSchedule}
    → Step c sched next
    → next.metadata.resource_version ≡ sched.metadata.resource_version
unfolding in_phase run_over run_succeeded run_halted run_started run_skipped
Step-version (suspend asked live e) = ground arith
Step-version (resume live paused e) = ground arith
Step-version (fail waiting e) = ground arith
Step-version (skip t waiting due read e) = ground arith
Step-version (start name t waiting due read e) = ground arith
Step-version (forget runs idle e) = ground arith
Step-version (lose name runs active e) = ground arith
Step-version (succeed name runs active e) = ground arith
Step-version (halt name reason runs active e) = ground arith

module _ (c : Cluster) {S : Type 0} (store : Store S) {first : ChaosSchedule} {s s' : S} where
  pub Drifts-Alive : Drifts store s s' → Alive c store first s → Alive c store first s'
  Drifts-Alive d h = record {
    now = rw d.count (edited h.now d.same_status);
    ever = λ e seen. elim (d.news e seen) [
      | inl old ↦ h.ever e old
      | inr like ↦ (store.writes s, edited h.now like)
    ];
  }

  pub Accepts-Alive :
      {sched next : ChaosSchedule}
      → Step c sched next
      → sched ≡ store.stored s
      → Accepts store next s s'
      → Alive c store first s
      → Alive c store first s'
  Accepts-Alive {sched} {next} step same a h =
      let life : Life c first (suc (store.writes s)) (store.stored s') =
        edited (reconciled (rw same h.now) step) a.new_status in
      record {
        now = rw a.count life;
        ever = λ e seen. elim (a.news e seen) [
          | inl old ↦ h.ever e old
          | inr like ↦ (suc (store.writes s), edited life like)
        ];
      }
