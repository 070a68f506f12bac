-- ===== src/Schedule/Looking.antt =====
-- The checks before a run keep any property of worlds that their calls keep, and do not panic if the
-- backends do not.
use entropyk.Metrics.{safeguard_checks_total}
use entropyk.Base.{pos, String, List, [], ◌∷◌, ◌≡◌, refl}
use entropyk.Base.Text.{Dict}
use entropyk.Kube.{ObjectKey}
use entropyk.Go.{Result, ok, err, Std}
use entropyk.Api.Experiment.{ChaosExperiment}
use entropyk.Api.Schedule.{Safeguards, SloProtection, ChaosSchedule}
use entropyk.Runtime.{
  World, Effect, Action, Holds, Holds-pure, Holds-ask, Holds-emit, Holds-bind, Holds-wrapping,
  Holds-branch, Holds-unless_nil, Holds-on_error,
}
use entropyk.Cluster.{Cluster}
use entropyk.Safeguard.Interfaces.{AlertChecker, MetricsQuerier}
use entropyk.Safeguard.Checks.{check_alerts_firing, check_slo_breach, query_loop, with_threshold}
use entropyk.Schedule.Gate.{
  ScheduleReconciler, Gate, safe, unsafe, check_replicas, backend_gate, check_alerts, check_slo,
  check_safeguards, and_then, with_checker, with_querier,
}

-- What the checks call keeps the property `I`, and a panic of a backend implies `Q`.
pub record Looks (c : Cluster) (std : Std) (r : ScheduleReconciler c std)
    (I : World c.State → Type 0) (Q : Type 0) : Type 0 where
  pub counts :
      (ns kind : String) (w : World c.State)
      → I w
      → I (record w {
        log = Effect.counted safeguard_checks_total (ns ∷ kind ∷ []) (pos 1) ∷ w.log;
      })
  pub deployment :
      (key : ObjectKey) (w : World c.State)
      → I w
      → I (record w { state = (c.get_deployment key w.state).1 })
  pub alerts :
      (url : String) (checker : AlertChecker c.State) (labels : Dict)
      → r.new_alert_checker url ≡ ok checker
      → Holds I Q (checker.check_alerts labels)
  pub metrics :
      (url query : String) (querier : MetricsQuerier c.State std.Float)
      → r.new_metrics_querier url ≡ ok querier
      → Holds I Q (querier.instant_query query)

module _ (c : Cluster) (std : Std) (r : ScheduleReconciler c std) {I : World c.State → Type 0}
    {Q : Type 0} (looks : Looks c std r I Q) where
  Holds-query_loop :
      (url : String) (querier : MetricsQuerier c.State std.Float) (threshold : std.Float)
      (qs : List _)
      → r.new_metrics_querier url ≡ ok querier
      → Holds I Q (query_loop std querier threshold qs)
  unfolding query_loop
  Holds-query_loop url querier threshold [] built = Holds-pure _
  Holds-query_loop url querier threshold (q ∷ qs) built =
      Holds-bind _ _ (looks.metrics url q.query querier built) λ val.
        Holds-branch _ _ _ (λ _. Holds-pure _)
          (λ _. Holds-query_loop url querier threshold qs built)

  Holds-with_threshold :
      (url : String) (querier : MetricsQuerier c.State std.Float) (slo : SloProtection)
      (text : String) (t : Result std.Float)
      → r.new_metrics_querier url ≡ ok querier
      → Holds I Q (with_threshold std slo querier text t)
  Holds-with_threshold url querier slo text (ok t) built =
      Holds-query_loop url querier t slo.queries built
  Holds-with_threshold url querier slo text (err e) built = Holds-pure _

  pub Holds-check_slo_breach :
      (url : String) (querier : MetricsQuerier c.State std.Float) (slo : SloProtection)
      → r.new_metrics_querier url ≡ ok querier
      → Holds I Q (check_slo_breach std slo querier)
  unfolding check_slo_breach
  Holds-check_slo_breach url querier slo built =
      Holds-unless_nil _ _ _ (λ _. Holds-pure _)
        λ text _. Holds-with_threshold url querier slo text (std.parse_float text) built

  pub Holds-check_alerts_firing :
      (url : String) (checker : AlertChecker c.State) (labels : Dict)
      → r.new_alert_checker url ≡ ok checker
      → Holds I Q (check_alerts_firing labels checker)
  unfolding check_alerts_firing
  Holds-check_alerts_firing url checker labels built =
      Holds-branch _ _ _ (λ _. Holds-pure _)
        (λ _. Holds-bind _ _ (looks.alerts url checker _ built) λ a. Holds-pure _)

  Holds-with_querier :
      (url : String) (sched : ChaosSchedule) (slo : SloProtection)
      (q : Result (MetricsQuerier c.State std.Float))
      → r.new_metrics_querier url ≡ q
      → Holds I Q (with_querier c std r sched (check_slo_breach std slo) q)
  unfolding backend_gate
  Holds-with_querier url sched slo (err e) built = Holds-pure _
  Holds-with_querier url sched slo (ok q) built =
      Holds-bind _ _ (Holds-emit _ (looks.counts _ _)) λ _.
        Holds-on_error _ _ _ (Holds-check_slo_breach url q slo built) (λ e. Holds-pure _)
          (λ f. Holds-pure _)

  Holds-with_checker :
      (url : String) (sched : ChaosSchedule) (sg : Safeguards) (k : Result (AlertChecker c.State))
      → r.new_alert_checker url ≡ k
      → Holds I Q (with_checker c std r sched sg k)
  unfolding backend_gate
  Holds-with_checker url sched sg (err e) built = Holds-pure _
  Holds-with_checker url sched sg (ok k) built =
      Holds-bind _ _ (Holds-emit _ (looks.counts _ _)) λ _.
        Holds-on_error _ _ _ (Holds-check_alerts_firing url k _ built) (λ e. Holds-pure _)
          (λ f. Holds-pure _)

  Holds-slo : (sched : ChaosSchedule) (sg : Safeguards) → Holds I Q (check_slo c std r sched sg)
  unfolding check_slo
  Holds-slo sched sg =
      Holds-unless_nil _ _ _ (λ _. Holds-pure _)
        λ source _.
          Holds-unless_nil _ _ _ (λ _. Holds-pure _)
            λ slo _. Holds-with_querier source.url sched slo _ refl

  Holds-alerts :
      (sched : ChaosSchedule) (sg : Safeguards) → Holds I Q (check_alerts c std r sched sg)
  unfolding check_alerts
  Holds-alerts sched sg =
      Holds-unless_nil _ _ _ (λ _. Holds-pure _)
        λ source _. Holds-with_checker source.url sched sg _ refl

  Holds-replicas :
      (sched : ChaosSchedule) (sg : Safeguards) (name : String)
      → Holds I Q (check_replicas c sched sg name)
  unfolding check_replicas
  Holds-replicas sched sg name =
      Holds-branch _ _ _
        (λ _. Holds-bind _ _ (Holds-emit _ (looks.counts _ _)) λ _.
          Holds-bind _ _ (Holds-wrapping _ _ (Holds-ask _ (looks.deployment _)))
            λ dep. Holds-pure _)
        (λ _. Holds-pure _)

  Holds-and_then :
      (g : Gate) (next : Action c.State Gate) → Holds I Q next → Holds I Q (and_then c g next)
  Holds-and_then safe next k = k
  Holds-and_then (unsafe reason) next k = Holds-pure _

  pub Holds-check_safeguards :
      (sched : ChaosSchedule) (template : ChaosExperiment)
      → Holds I Q (check_safeguards c std r sched template)
  unfolding check_safeguards
  Holds-check_safeguards sched template =
      Holds-unless_nil _ _ _ (λ _. Holds-pure _)
        λ sg _.
          Holds-unless_nil _ _ _ (λ _. Holds-pure _)
            λ name _. Holds-bind _ _ (Holds-replicas sched sg name) λ g. Holds-and_then g _ (
              Holds-bind _ _ (Holds-alerts sched sg) λ g'. Holds-and_then g' _ (Holds-slo sched sg))
