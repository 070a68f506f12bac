-- ===== src/Schedule/System.antt =====
-- The reconciler of a schedule and a lawful API server as one system: any number of reconciles, and
-- edits by others between and during them.
use entropyk.Base.{◌<◌, ◌^◌, [], ◌≡◌, ◌≢◌, inl, inr, refl, sym, ◌∙◌}
use entropyk.Go.{Result, Std, ok, err, wrap}
use entropyk.Kube.{ObjectKey}
use entropyk.Api.Schedule.{ChaosSchedule}
use entropyk.Runtime.{
  World, Ends, panicked, outcome, follow, keeps, run-Holds, Holds-branch, Holds-pure, Holds-raise,
  branch, pure, raise, on_error, ask,
}
use entropyk.Calls.{perform}
use entropyk.Cluster.{Cluster}
use entropyk.Experiment.Parts.{done}
use entropyk.Schedule.Gate.{ScheduleReconciler}
use entropyk.Schedule.Reconcile.{reconcile_found, reconcile}
use entropyk.Schedule.Steps.{Step}
use entropyk.Schedule.Invariant.{no_status, Inv, created, Life-Inv_schedule}
use entropyk.Schedule.Policy.{Policy}
use entropyk.Schedule.Keeping.{Holds-reconcile_found}
use entropyk.Schedule.Server.{
  Drifts, LawfulServer, Alive, Step-version, Drifts-Alive, Accepts-Alive,
}

module _ (c : Cluster) (std : Std) (r : ScheduleReconciler c std) (key : ObjectKey)
    (server : LawfulServer c std r key) (first : ChaosSchedule) where
  -- While `sched` is reconciled: it was seen, and the store is alive.
  abbrev Kept : ChaosSchedule → c.State → Type 0
  Kept sched s = server.store.Seen s sched × Alive c server.store first s

  module _ (sched : ChaosSchedule) where
    drifted : {s s' : c.State} → Drifts server.store s s' → Kept sched s → Kept sched s'
    drifted d (seen, alive) = (d.kept sched seen, Drifts-Alive c server.store d alive)

    -- An accepted status write was one of the version that was read.
    written :
        (next : ChaosSchedule) (s : c.State)
        → Step c sched next
        → Kept sched s
        → Kept sched (c.update_schedule_status next s).1
    written next s step (seen, alive) = elim (server.written next s) [
      | inl d ↦ drifted d (seen, alive)
      | inr a ↦ (
        a.kept sched seen,
        Accepts-Alive c server.store step
            (server.unique s sched (server.store.stored s) seen (server.latest s)
              (sym (Step-version step) ∙ a.current))
            a alive,
      )
    ]

    served : Policy c std r sched (λ w. Kept sched w.state)
    unfolding perform
    served = record {
      looks = record {
        counts = λ ns kind w h. h;
        deployment = λ k w h. drifted (server.deployment k w.state) h;
        alerts = λ url checker labels built. keeps λ w h. (
          drifted (server.alerts url checker labels w built).0 h,
          (server.alerts url checker labels w built).1,
        );
        metrics = λ url query querier built. keeps λ w h. (
          drifted (server.metrics url query querier w built).0 h,
          (server.metrics url query querier w built).1,
        );
      };
      emitted = λ e w allowed h. h;
      experiment = λ k w h. drifted (server.experiment k w.state) h;
      time = λ w h. drifted (server.time w.state) h;
      created = λ exp w run h. drifted (server.created_run exp w.state) h;
      written = λ next w step h. written next w.state step h;
    }

  found-Alive :
      (x : Result ChaosSchedule) (w : World c.State)
      → ((sched : ChaosSchedule) → x ≡ ok sched → server.store.Seen w.state sched)
      → Alive c server.store first w.state
      → Ends
          (λ w'. Alive c server.store first w'.state)
          ⊥
          (follow
            (λ e. branch e.not_found (pure done) (raise (wrap "get ChaosSchedule" e)))
            (reconcile_found c std r)
            (outcome x, w))
  found-Alive (err e) w seen alive =
      run-Holds {I = λ w'. Alive c server.store first w'.state} {Q = ⊥}
        (Holds-branch e.not_found (pure done) (raise (wrap "get ChaosSchedule" e))
          (λ _. Holds-pure _) (λ _. Holds-raise _))
        w alive
  found-Alive (ok sched) w seen alive =
      let (kept, safe) =
        run-Holds (Holds-reconcile_found c std r sched (served sched)) w (seen sched refl, alive) in
      (kept.1, safe)

  reconcile-Alive_schedule :
      (w : World c.State)
      → Alive c server.store first w.state
      → Ends (λ w'. Alive c server.store first w'.state) ⊥ (reconcile c std r key w)
  unfolding reconcile on_error ask
  reconcile-Alive_schedule w alive =
      found-Alive (c.get_schedule key w.state).0
        (record w { state = (c.get_schedule key w.state).1 }) (server.read w.state)
        (Drifts-Alive c server.store (server.reading w.state) alive)

-- What the server and the reconciler can get to, from a schedule just created: reconciles, one after the
-- other, and edits by others.
pub data Reaches (c : Cluster) (std : Std) (r : ScheduleReconciler c std) (key : ObjectKey)
    (server : LawfulServer c std r key) (first : ChaosSchedule) : c.State → Type 0 where
  begun :
      (s : c.State)
      → server.store.stored s ≡ first
      → server.store.writes s ≡ 0
      → ((e : ChaosSchedule) → server.store.Seen s e → e ≡ first)
      → Reaches c std r key server first s
  reconciled :
      (s : c.State)
      → Reaches c std r key server first s
      → Reaches c std r key server first
          (reconcile c std r key (record { state = s; log = [] })).1.state
  edited :
      (s s' : c.State)
      → Reaches c std r key server first s
      → Drifts server.store s s'
      → Reaches c std r key server first s'

module _ (c : Cluster) (std : Std) (r : ScheduleReconciler c std) (key : ObjectKey)
    (server : LawfulServer c std r key) {first : ChaosSchedule} where
  Reaches-Alive : {s : c.State} → Reaches c std r key server first s → Alive c server.store first s
  Reaches-Alive (begun s same zero only) = record {
    now = rw (same, zero) created;
    ever = λ e seen. (0, rw (only e seen) created);
  }
  Reaches-Alive (reconciled s t) =
      (reconcile-Alive_schedule c std r key server first (record { state = s; log = [] })
        (Reaches-Alive t)).0
  Reaches-Alive (edited s s' t d) = Drifts-Alive c server.store d (Reaches-Alive t)

  -- A schedule that is created with an empty status, on an API server that keeps its promises (reads may
  -- be stale, an accepted write may be answered by an error, and others may edit the spec and the
  -- metadata at any time) and with backends that do not panic: after any number of reconciles, with
  -- fewer than 2^31 accepted writes of its status, the stored schedule satisfies the invariant of its
  -- history and the next reconcile does not panic. The history counts no negative number and no more
  -- runs than writes; the successful runs, the halted and the active one are together no more than the
  -- runs; a running schedule has an active experiment, and a halted one has none.
  pub Reaches-IsSound_schedule :
      first.status ≡ no_status
      → {s : c.State} → Reaches c std r key server first s
      → server.store.writes s < 2 ^ 31
      → Inv (server.store.writes s) (server.store.stored s)
        × ((reconcile c std r key (record { state = s; log = [] })).0 ≢ panicked)
  Reaches-IsSound_schedule new {s} t few =
      let alive = Reaches-Alive t in
      (
        Life-Inv_schedule c new few alive.now,
        (reconcile-Alive_schedule c std r key server first (record { state = s; log = [] })
            alive).1,
      )
