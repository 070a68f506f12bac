-- ===== src/Tests/Turning.antt =====
-- Two reconciles at a server that keeps its promises, each with something to do.
use entropyk.Base.{
  ℕ, suc, ◌+◌, ◌*◌, ◌≤◌, Bool-cases, str_eq, [], ◌∷◌, ◌≡◌, ◌⊎◌, inl, inr, refl, arith, length, pos,
}
use entropyk.Base.Text.{contains, lookup}
use entropyk.Go.{ok, second}
use entropyk.Api.Experiment.{ChaosExperiment}
use entropyk.Runtime.{returned, monad}
use entropyk.Calls.{perform, shuffle, now}
use entropyk.Scenario.PodKill.{
  pod_kill_scenario, inject, inject_at, kill, delete_all, is_pod_running, clamp, swap_all,
}
use entropyk.Experiment.Parts.{is_past, build_scenario, target_from_spec, kill_count, requeue}
use entropyk.Experiment.Running.{
  reconcile_running, inject_step, record_injection, count_pods, injected,
}
use entropyk.Experiment.Reconcile.{
  is_zero, started, reconcile_pending, by_phase, reconcile_found, reconcile,
}
use entropyk.Experiment.Gains.{IsReady}
use entropyk.Experiment.Turns.{IsTruthful, Turns, begun, gained, Turns-le}
use entropyk.Tests.Fixtures.{fresh}
use entropyk.Tests.Controllers.{key}
use entropyk.Tests.Lawful.{empty_shelf, after}
use entropyk.Tests.Versions.{IsNew, new?, beside}
use entropyk.Tests.Shelf.{
  Shelf, lawful, shelf_server, version, next_version, put, put_at, with_status,
}

put-counts :
    (e r : ChaosExperiment) (n : ℕ) (s : Shelf)
    (free : IsNew version (next_version s) (s.current ∷ s.past) ⊎ Unit {0})
    → (put e n s free).0 ≡ ok r
    → (put e n s free).1.count ≡ n
unfolding put
put-counts e r n s (inr full) got = absurd cc
put-counts e r n s (inl free) got = refl

put-same :
    (e : ChaosExperiment) (s : Shelf)
    (free : IsNew version (next_version s) (s.current ∷ s.past) ⊎ Unit {0})
    → (put e s.count s free).1.count ≡ s.count
unfolding put
put-same e s (inr full) = refl
put-same e s (inl free) = refl

taken :
    (next e : ChaosExperiment) (s : Shelf)
    → (lawful.update_experiment_status next s).0 ≡ ok e
    → (lawful.update_experiment_status next s).1.count ≡ suc s.count
unfolding put_at
taken next e s = elim (Bool-cases (str_eq (version next) (version s.current))) [
  | inl match ↦ rw match (put-counts (with_status next s) e (suc s.count) s _)
  | inr other ↦ rw other λ got. absurd cc
]

updated : (e : ChaosExperiment) (s : Shelf) → (lawful.update_experiment e s).1.count ≡ s.count
unfolding put_at
updated e s = elim (Bool-cases (str_eq (version e) (version s.current))) [
  | inl match ↦ rw match (put-same (record e { status = s.current.status }) s _)
  | inr other ↦ rw other refl
]

shelf_server-IsTruthful : IsTruthful shelf_server
shelf_server-IsTruthful = record { taken = taken; updated = updated }

-- Both reconciles succeed; the first has an experiment to start, and the second a scenario to inject.
started-ok :
    (reconcile lawful key (record { state = empty_shelf; log = [] })).0 ≡ returned (requeue second)
unfolding reconcile reconcile_found by_phase reconcile_pending perform monad is_zero contains put_at
    put new? beside next_version lookup with_status started
started-ok = refl

injected-ok :
    (reconcile lawful key (record { state = after empty_shelf; log = [] })).0
    ≡ returned (requeue (pos 5_000_000_000))
unfolding reconcile reconcile_found by_phase reconcile_pending reconcile_running inject_step
    record_injection build_scenario pod_kill_scenario inject inject_at kill delete_all perform
    shuffle now monad is_zero contains is_past put_at put new? beside next_version lookup
    with_status started target_from_spec is_pod_running kill_count clamp swap_all count_pods
    injected
injected-ok = refl

first-IsReady : IsReady lawful fresh empty_shelf
unfolding is_zero contains
first-IsReady = record {
  kept = refl;
  guarded = refl;
  live = refl;
  elapsed = λ spec t0 at begun. absurd cc;
}

second-IsReady : IsReady lawful (after empty_shelf).current (after empty_shelf)
unfolding reconcile reconcile_found by_phase reconcile_pending perform monad is_zero contains put_at
    put new? beside next_version lookup with_status started
second-IsReady = record {
  kept = refl;
  guarded = refl;
  live = refl;
  elapsed = λ spec t0 at begun. absurd cc;
}

turns : Turns lawful key shelf_server fresh 2 (after (after empty_shelf))
turns =
    gained (after empty_shelf)
      (gained empty_shelf
        (begun empty_shelf refl refl
          λ e seen. elim seen [ inl same ↦ same | inr other ↦ absurd other ])
        fresh refl first-IsReady _ started-ok)
      (after empty_shelf).current refl second-IsReady _ injected-ok

Turns-le_example : 2 ≤ 3 * length fresh.spec.scenarios + 3
Turns-le_example =
    Turns-le lawful key shelf_server {first = fresh} shelf_server-IsTruthful refl (omega arith)
      turns
