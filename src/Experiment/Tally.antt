-- ===== src/Experiment/Tally.antt =====
-- What counts the writes of a status, and what a write adds to it.
use entropyk.Base.{ℕ, suc, ◌≤◌, String, ◌≡◌, arith}
use entropyk.Go.{ok}
use entropyk.Kube.{ObjectKey, Pod}
use entropyk.Api.Experiment.{ChaosExperiment}
use entropyk.Runtime.{World, Holds, Arrives, arrives, Arrives-then, wrapping, wrapping_inv, ◌>>=◌}
use entropyk.Calls
use entropyk.Calls.{perform, now}
use entropyk.Cluster.{Cluster, Handler}
use entropyk.Experiment.Policy.{Policy, wrapped_ok}

-- A count that no call takes back and that every accepted write of a status increases.
pub record Tally (c : Cluster) : Type 0 where
  pub count : c.State → ℕ
  pub deployment : (key : ObjectKey) (s : c.State) → count s ≤ count (c.get_deployment key s).1
  pub pods :
      (namespace : String) (selector : c.Selector) (s : c.State)
      → count s ≤ count (c.list_pods namespace selector s).1
  pub time : (s : c.State) → count s ≤ count (c.now s).1
  pub shuffled : (n : ℕ) (s : c.State) → count s ≤ count (c.shuffle n s).1
  pub deleted : (pod : Pod) (s : c.State) → count s ≤ count (c.delete_pod pod s).1
  pub updated : (e : ChaosExperiment) (s : c.State) → count s ≤ count (c.update_experiment e s).1
  pub written :
      (e : ChaosExperiment) (s : c.State) → count s ≤ count (c.update_experiment_status e s).1
  pub taken :
      (next e : ChaosExperiment) (s : c.State)
      → (c.update_experiment_status next s).0 ≡ ok e
      → suc (count s) ≤ count (c.update_experiment_status next s).1

module _ (c : Cluster) (tally : Tally c) (exp : ChaosExperiment) where
  abbrev pub Counts : ℕ → World c.State → Type 0
  Counts k w = k ≤ tally.count w.state

  unfoldable pub counting : (k : ℕ) → Policy c exp (Counts k)
  unfolding perform
  counting k = record {
    tools = record {
      deployment = λ key w h. omega (arith, h, tally.deployment key w.state);
      pods = λ namespace selector w h. omega (arith, h, tally.pods namespace selector w.state);
      time = λ w h. omega (arith, h, tally.time w.state);
      shuffled = λ n w h. omega (arith, h, tally.shuffled n w.state);
      deleted = λ pod w _ h. omega (arith, h, tally.deleted pod w.state);
    };
    emitted = λ e w _ h. h;
    Saved = λ _. Unit;
    own = tt;
    updated = λ e w _ _ h. omega (arith, h, tally.updated e w.state);
    written = λ next w _ h. omega (arith, h, tally.written next w.state);
    saved = λ next e w _ _ _. tt;
  }

  module _ (k : ℕ) where
    abbrev pub Gains : {A : Type 0} → Handler c A → Type 0
    Gains m = Arrives (Counts k) (Counts (suc k)) m

    pub write-Gains :
        {A : Type 0} {Q : Type 0} (s : String) (next : ChaosExperiment)
        (f : ChaosExperiment → Handler c A)
        → ((e : ChaosExperiment) → Holds (Counts (suc k)) Q (f e))
        → Gains (wrapping s (Calls.update_experiment_status c next) >>= f)
    unfolding perform
    write-Gains s next f after =
        Arrives-then _ _
          (arrives λ w h e got.
            rw (wrapping_inv s (Calls.update_experiment_status c next) w got).1
              (omega (arith, h, tally.taken next e w.state (wrapped_ok s _ _ w e got))))
          after
