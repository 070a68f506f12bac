-- ===== src/Scenario/PodKill.antt =====
-- internal/scenario/podkill.go
pub mod Victims
pub mod Injection
pub mod Keeping
use entropyk.Base.{
  ℕ, zero, suc, ◌≤◌, ℤ, pos, pos_part, leb_ℤ, ltb_ℤ, String, ◌<>◌, str_eq, Bool, true, false,
  Option, none, some, List, [], ◌∷◌, length, get_elem?, set, take, select, ◌==◌, if◌then◌else◌,
}
use entropyk.Base.Text.{decimal}
use entropyk.Go.{errorf}
use entropyk.Kube.{Pod, pod_running, condition_true}
use entropyk.Runtime.{ask, pure, raise, lift, wrapping, branch, ◌>>=◌, ◌>>◌}
use entropyk.Calls
use entropyk.Cluster.{Cluster, Handler}
use entropyk.Scenario.{Target, RecoveryProbe, Scenario}

pub record PodKill : Type 0 where
  pub count : ℤ  -- int32

unfoldable pub is_pod_running : Pod → Bool
is_pod_running p = str_eq p.phase pod_running

module _ {ℓ} {A : Type ℓ} where
  abbrev pub put_both : List A → ℕ → ℕ → Option A → Option A → List A
  put_both xs i j (some x) (some y) = set (set xs i y) j x
  put_both xs i j _ _ = xs

  -- `running[i], running[j] = running[j], running[i]`
  unfoldable pub swap : List A → ℕ × ℕ → List A
  swap xs (i, j) = put_both xs i j (get_elem? xs i) (get_elem? xs j)

  unfoldable pub swap_all : List (ℕ × ℕ) → List A → List A
  swap_all [] xs = xs
  swap_all (s ∷ swaps) xs = swap_all swaps (swap xs s)

-- `if count > len(running) { count = len(running) }`, for a count that is at least 1
unfoldable pub clamp : ℤ → ℕ → ℕ
clamp count n = if ltb_ℤ (pos n) count then n else pos_part count

module _ (c : Cluster) where
  -- The loop of deletions, which an error ends.
  unfoldable pub delete_all : List Pod → Handler c (Unit {0})
  delete_all [] = pure tt
  delete_all (p ∷ pods) = do
    wrapping ("delete pod " <> p.metadata.name) (Calls.delete_pod c p)
    delete_all pods

  -- `Inject` from the moment at which the pods of the deployment are listed.
  unfoldable pub kill : PodKill → Target → List Pod → Handler c (Unit {0})
  kill p target pods =
      let running = select is_pod_running pods in
      branch (length running == 0)
        (raise (
          errorf (
            "no running pods found for deployment " <> (target.namespace <> ("/" <> target.name)))))
        (branch (leb_ℤ p.count (pos 0))
          (raise (errorf ("count must be at least 1, got " <> decimal p.count)))
          (do
            swaps ← Calls.shuffle c (length running)
            delete_all (take (clamp p.count (length running)) (swap_all swaps running))))

  -- `Inject` of a named target
  unfoldable pub inject_at : PodKill → Target → Handler c (Unit {0})
  inject_at p target = do
    dep ←
        wrapping "get deployment"
          (ask (c.get_deployment (record { namespace = target.namespace; name = target.name })))
    selector ← wrapping "parse selector" (lift (c.label_selector_as_selector dep.selector))
    pods ← wrapping "list pods" (ask (c.list_pods target.namespace selector))
    kill p target pods

  -- `Inject`
  unfoldable pub inject : PodKill → Target → Handler c (Unit {0})
  inject p target =
      branch (str_eq target.name "")
        (raise
          (errorf "pod-kill scenario requires a named target (label selector not yet supported)"))
        (inject_at p target)

  -- `Revert`
  unfoldable pub revert : PodKill → Target → Handler c (Unit {0})
  revert _ _ = pure tt

  unfoldable pub recovery_probe : PodKill → RecoveryProbe
  recovery_probe _ = record {
    condition = some (record { kind = "Available"; status = condition_true });
    query = none;
  }

  -- `*PodKill` as a `Scenario`
  unfoldable pub pod_kill_scenario : PodKill → Scenario c.State
  pod_kill_scenario p = record {
    inject = inject p;
    revert = revert p;
    recovery_probe = recovery_probe p;
  }
