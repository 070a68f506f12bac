-- ===== src/Scenario/PodKill/Keeping.antt =====
-- What an injection keeps, whatever its outcome: it reads a deployment and its pods, shuffles, and
-- deletes pods that run.
use entropyk.Base.{ℕ, String, true, List, [], ◌∷◌, ◌≡◌, All}
use entropyk.Kube.{ObjectKey, Pod}
use entropyk.Runtime.{
  World, Write, Holds, Holds-pure, Holds-raise, Holds-lift, Holds-ask, Holds-bind, Holds-wrapping,
  Holds-branch,
}
use entropyk.Calls.{perform, Holds-perform, Holds-shuffle}
use entropyk.Cluster.{Cluster}
use entropyk.Scenario.{Target}
use entropyk.Scenario.PodKill.{PodKill, is_pod_running, delete_all, kill, inject_at, inject}
use entropyk.Scenario.PodKill.Victims.{victims-running}

-- A property of worlds that the calls of a scenario keep.
pub record Tools (c : Cluster) (I : World c.State → Type 0) : Type 0 where
  pub deployment :
      (key : ObjectKey) (w : World c.State)
      → I w
      → I (record w { state = (c.get_deployment key w.state).1 })
  pub pods :
      (namespace : String) (selector : c.Selector) (w : World c.State)
      → I w
      → I (record w { state = (c.list_pods namespace selector w.state).1 })
  pub time : (w : World c.State) → I w → I (record w { state = (c.now w.state).1 })
  pub shuffled :
      (n : ℕ) (w : World c.State) → I w → I (record w { state = (c.shuffle n w.state).1 })
  pub deleted :
      (pod : Pod) (w : World c.State)
      → is_pod_running pod ≡ true
      → I w
      → I (perform (Write.pod_removal pod) (c.delete_pod pod) w).1

module _ (c : Cluster) {I : World c.State → Type 0} {Q : Type 0} (tools : Tools c I) where
  Holds-delete_all :
      (pods : List Pod) → All (λ q. is_pod_running q ≡ true) pods → Holds I Q (delete_all c pods)
  unfolding delete_all
  Holds-delete_all [] h = Holds-pure tt
  Holds-delete_all (q ∷ pods) (runs, h) =
      Holds-bind _ _ (Holds-wrapping _ _ (Holds-perform _ _ λ w l. tools.deleted q w runs l))
        λ _. Holds-delete_all pods h

  Holds-kill : (p : PodKill) (target : Target) (pods : List Pod) → Holds I Q (kill c p target pods)
  unfolding kill
  Holds-kill p target pods =
      Holds-branch _ _ _ (λ _. Holds-raise _)
        λ _.
          Holds-branch _ _ _ (λ _. Holds-raise _)
            λ _.
              Holds-bind _ _ (Holds-shuffle c _ (tools.shuffled _))
                λ swaps. Holds-delete_all _ (victims-running p.count swaps pods)

  pub Holds-inject : (p : PodKill) (target : Target) → Holds I Q (inject c p target)
  unfolding inject inject_at
  Holds-inject p target =
      Holds-branch _ _ _ (λ _. Holds-raise _)
        λ _. Holds-bind _ _ (Holds-wrapping _ _ (Holds-ask _ (tools.deployment _))) λ dep.
          Holds-bind _ _ (Holds-wrapping _ _ (Holds-lift _)) λ selector.
            Holds-bind _ _ (Holds-wrapping _ _ (Holds-ask _ (tools.pods _ _)))
              λ pods. Holds-kill p target pods
