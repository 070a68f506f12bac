-- ===== src/Scenario/PodKill/Injection.antt =====
-- What an injection has done to the pods when it returns, and what it can do at most when it fails.
use Prim.Native.Nat.{min}
use entropyk.Base.{
  ◌≤◌, ◌<◌, ℤ, pos_part, str_eq, Bool, Bool-cases, inl, inr, true, false, List, [], ◌∷◌, ◌≡◌, refl,
  sym, ◌∙◌, ap, arith, length, select, count_if, All,
}
use mathlib.Core.Path.{subst₂}
use entropyk.Go.{ok}
use entropyk.Kube.{Deployment, Pod}
use entropyk.Runtime.{
  World, Effect, Write, returned, written, monad, branch, raise, bind_ask_inv, bind_lift_inv,
}
use entropyk.Calls
use entropyk.Calls.{perform, Keeps-perform, Keeps-shuffle}
use entropyk.Cluster.{Cluster}
use entropyk.Scenario.{Target}
use entropyk.Scenario.PodKill.{PodKill, is_pod_running, delete_all, kill, inject_at, inject}
use entropyk.Scenario.PodKill.Victims.{victims, victims-running, victims-count, victims-length}

-- The log once the pods are deleted in order.
abbrev pub removals : List Pod → List Effect → List Effect
removals [] log = log
removals (p ∷ pods) log = removals pods (written (Write.pod_removal p) ∷ log)

-- What is known of a kill that returns: which pods it has deleted, and that there was one.
pub record Killed (count : ℤ) (pods : List Pod) (before after : List Effect) : Type 0 where
  pub killed : List Pod
  pub deletes : after ≡ removals killed before
  pub number : length killed ≡ min (pos_part count) (length (select is_pod_running pods))
  pub some_killed : 0 < length killed
  pub all_running : All (λ p. is_pod_running p ≡ true) killed
  pub at_most_once : (q : Pod → Bool) → count_if q killed ≤ count_if q pods

module _ (c : Cluster) where
  delete_all-log :
      (pods : List Pod) (w : World c.State)
      → (delete_all c pods w).0 ≡ returned tt
      → (delete_all c pods w).1.log ≡ removals pods w.log
  unfolding delete_all monad perform
  delete_all-log [] w e = refl
  delete_all-log (p ∷ pods) w e = ground (
    arith,
    delete_all-log pods (record {
      state = (c.delete_pod p w.state).1;
      log = written (Write.pod_removal p) ∷ w.log;
    }),
  )

  kill-log :
      (p : PodKill) (target : Target) (pods : List Pod) (w : World c.State)
      → (kill c p target pods w).0 ≡ returned tt
      → let swaps = (c.shuffle (length (select is_pod_running pods)) w.state).0 in
        ((kill c p target pods w).1.log ≡ removals (victims p.count swaps pods) w.log)
        × (0 < pos_part p.count)
        × (0 < length (select is_pod_running pods))
  unfolding kill monad Calls.shuffle
  kill-log p target pods w e =
      let running = select is_pod_running pods in
      let swaps = (c.shuffle (length running) w.state).0 in
      ground (
        arith,
        delete_all-log (victims p.count swaps pods)
            (record { state = (c.shuffle (length running) w.state).1; log = w.log }),
      )

  pub kill-Killed :
      (p : PodKill) (target : Target) (pods : List Pod) (w : World c.State)
      → (kill c p target pods w).0 ≡ returned tt
      → Killed p.count pods w.log (kill c p target pods w).1.log
  kill-Killed p target pods w e =
      let swaps = (c.shuffle (length (select is_pod_running pods)) w.state).0 in
      let (log, positive, found) = kill-log p target pods w e in
      record {
        killed = victims p.count swaps pods;
        deletes = log;
        number = victims-length p.count swaps pods;
        some_killed = omega (arith, victims-length p.count swaps pods, positive, found);
        all_running = victims-running p.count swaps pods;
        at_most_once = victims-count p.count swaps pods;
      }

  -- The pods that an injection has listed, and what it has done to them.
  abbrev pub Injected : PodKill → Target → List Effect → List Effect → Type 0
  Injected p target before after =
      (pods : List Pod) × (selector : c.Selector) × (s : c.State) × ((c.list_pods target.namespace
          selector s).0
        ≡ ok pods)
      × Killed p.count pods before after

  inject_named :
      (p : PodKill) (target : Target) (w : World c.State)
      → (inject_at c p target w).0 ≡ returned tt
      → Injected p target w.log (inject_at c p target w).1.log
  unfolding inject_at
  inject_named p target w e =
      let (dep, w1, l1, _, q1) = bind_ask_inv _ _ _ w e in
      let (selector, _, q2) = bind_lift_inv _ _ _ w1 (ap (λ x. x.0) (sym q1) ∙ e) in
      let (pods, w3, l3, listed, q3) = bind_ask_inv _ _ _ w1 (ap (λ x. x.0) (sym (q1 ∙ q2)) ∙ e) in
      let q = q1 ∙ q2 ∙ q3 in
      (
        pods,
        selector,
        w1.state,
        listed,
        subst₂ (Killed p.count pods) (l3 ∙ l1) (ap (λ x. x.1.log) (sym q))
            (kill-Killed p target pods w3 (ap (λ x. x.0) (sym q) ∙ e)),
      )

  -- If an injection returns, the API has listed pods of the target's namespace, and the injection
  -- has added to the log exactly the deletions of some of them: as many as the count of the scenario
  -- or as there are running pods, whichever is less, at least one, all running, and none more often
  -- than it was listed.
  pub inject-Killed :
      (p : PodKill) (target : Target) (w : World c.State)
      → (inject c p target w).0 ≡ returned tt
      → Injected p target w.log (inject c p target w).1.log
  unfolding inject branch raise
  inject-Killed p target w e = elim (Bool-cases (str_eq target.name "")) [
    | inl unnamed ↦ absurd (ground arith)
    | inr named ↦ rw named (inject_named p target w (ground arith))
  ]

-- If every deletion is accepted, the loop of deletions returns.
module _ (c : Cluster) (accepts : (p : Pod) (s : c.State) → (c.delete_pod p s).0 ≡ ok tt) where
  delete_all-returned :
      (pods : List Pod) (w : World c.State) → (delete_all c pods w).0 ≡ returned tt
  unfolding delete_all monad perform
  delete_all-returned [] w = refl
  delete_all-returned (p ∷ pods) w = rw (accepts p w.state) (delete_all-returned pods _)

  kill-returned :
      (p : PodKill) (target : Target) (pods : List Pod) (w : World c.State)
      → 0 < pos_part p.count
      → 0 < length (select is_pod_running pods)
      → (kill c p target pods w).0 ≡ returned tt
  unfolding kill monad Calls.shuffle
  kill-returned p target pods w positive found =
      let running = select is_pod_running pods in
      let (swaps, s) = c.shuffle (length running) w.state in
      ground (
        arith,
        delete_all-returned (victims p.count swaps pods) (record { state = s; log = w.log }),
      )

  -- An injection into a named target returns, if its count is positive, the deployment, its selector
  -- and the pods are answered, one of the pods is running, and the server accepts every deletion.
  pub inject-returned :
      (p : PodKill) (target : Target) (w : World c.State) {dep : Deployment} {selector : c.Selector}
      {pods : List Pod} {s t : c.State}
      → str_eq target.name "" ≡ false
      → 0 < pos_part p.count
      → c.get_deployment (record { namespace = target.namespace; name = target.name }) w.state
        ≡ (ok dep, s)
      → c.label_selector_as_selector dep.selector ≡ ok selector
      → c.list_pods target.namespace selector s ≡ (ok pods, t)
      → 0 < length (select is_pod_running pods)
      → (inject c p target w).0 ≡ returned tt
  unfolding inject inject_at monad
  inject-returned p target w {pods = pods} {t = t} named positive got selected listed found =
      rw (named, got, selected, listed)
        (kill-returned p target pods (record { state = t; log = w.log }) positive found)
