-- ===== src/Tests/Lawful.antt =====
-- The theorems on the system of the reconciler and an API server, at a server that keeps its promises.
use entropyk.Base.{ℕ, ◌+◌, ◌*◌, ◌≤◌, [], ◌≡◌, ◌≢◌, inl, inr, refl, arith, length}
use entropyk.Runtime.{Ends, panicked, monad}
use entropyk.Base.Text.{contains, lookup}
use entropyk.Calls.{perform, shuffle, now}
use entropyk.Scenario.PodKill.{
  pod_kill_scenario, inject, inject_at, kill, delete_all, is_pod_running, clamp, swap_all,
}
use entropyk.Experiment.Parts.{is_past, build_scenario, target_from_spec, kill_count}
use entropyk.Experiment.Running.{
  reconcile_running, inject_step, record_injection, count_pods, injected,
}
use entropyk.Experiment.Reconcile.{
  is_zero, started, reconcile_pending, by_phase, reconcile_found, reconcile,
}
use entropyk.Experiment.Invariant.{Inv}
use entropyk.Experiment.Server.{Alive}
use entropyk.Experiment.Lifetime.{Life, created}
use entropyk.Experiment.System.{
  Reaches, begun, reconciled, reconcile-Alive, Reaches-IsSound, Reaches-upto,
}
use entropyk.Experiment.Order.{upto, injections}
use entropyk.Api.Experiment.{completed}
use entropyk.Tests.Fixtures.{fresh}
use entropyk.Tests.Controllers.{key}
use entropyk.Tests.Versions.{new?, beside}
use entropyk.Tests.Shelf.{
  Shelf, lawful, shelves, shelf_server, next_version, put, put_at, with_status,
}

abbrev pub empty_shelf : Shelf
empty_shelf = record { current = fresh; past = []; distinct = (tt, tt); count = 0 }

-- The shelf after two reconciles: the experiment is started, and its first scenario injected.
abbrev pub after : Shelf → Shelf
after s = (reconcile lawful key (record { state = s; log = [] })).1.state

twice : Reaches lawful key shelf_server fresh (after (after empty_shelf))
twice = reconciled (after empty_shelf) (
    reconciled empty_shelf (
      begun empty_shelf refl refl
        λ e seen. elim seen [ inl same ↦ same | inr other ↦ absurd other ]))

-- Both writes of the status are accepted.
twice-written : (after (after empty_shelf)).count ≡ 2
unfolding reconcile reconcile_found by_phase reconcile_pending reconcile_running inject_step
    record_injection build_scenario pod_kill_scenario inject inject_at kill delete_all perform
    shuffle now monad is_zero contains is_past put_at put new? beside next_version lookup
    with_status started target_from_spec is_pod_running kill_count clamp swap_all count_pods
    injected
twice-written = refl

Reaches-IsSound_example :
    Inv (after (after empty_shelf)).current
    × ((after (after empty_shelf)).count ≤ 3 * length fresh.spec.scenarios + 3)
    × ((reconcile lawful key (record { state = after (after empty_shelf); log = [] })).0 ≢ panicked)
Reaches-IsSound_example =
    Reaches-IsSound lawful key shelf_server {first = fresh} refl (omega arith) twice

reconcile-Alive_example :
    Ends
      (λ w. Alive lawful shelves fresh w.state)
      ⊥
      (reconcile lawful key (record { state = empty_shelf; log = [] }))
reconcile-Alive_example =
    reconcile-Alive lawful key shelf_server fresh refl (omega arith)
      (record { state = empty_shelf; log = [] })
      (record {
        now = created;
        ever = λ e seen. (0, elim seen [ inl same ↦ rw same created | inr other ↦ absurd other ]);
      })

Reaches-upto_example :
    (life : Life lawful fresh (after (after empty_shelf)).count (after (after empty_shelf)).current)
    × (m : ℕ) × (injections life ≡ upto m)
    × (m ≤ length fresh.spec.scenarios)
    × ((after (after empty_shelf)).current.status.phase ≡ completed
        → m ≡ length fresh.spec.scenarios)
Reaches-upto_example = Reaches-upto lawful key shelf_server {first = fresh} refl (omega arith) twice
