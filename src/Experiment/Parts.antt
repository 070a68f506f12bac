-- ===== src/Experiment/Parts.antt =====
-- internal/controller/chaosexperiment_controller.go: the helpers of the reconciler.
use entropyk.Base.{
  ltb_ℤ, ℤ, pos, negsuc, String, ◌<>◌, str_eq, Bool, true, false, ◌&&◌, Option, none, some, List,
  [], ◌∷◌, length, get_elem?, leb_ℤ, if◌then◌else◌,
}
use entropyk.Base.Text.{lookup_or_empty}
use entropyk.Go.{Result, ok, err, errorf, Duration}
use entropyk.Kube.{Condition, deployment_available, condition_true}
use entropyk.Api.Experiment.{
  ScenarioType, pod_kill, other_type, PodKillConfig, Scenario, ChaosExperiment, failed,
  label_schedule,
}
use entropyk.Metrics.{experiments_total, experiment_duration_seconds}
use entropyk.Runtime.{
  Action, event, counted, observed, ask, pure, deref, lift, wrapping, emit, branch, unless_nil,
  ◌>>=◌, ◌>>◌,
}
use entropyk.Calls
use entropyk.Cluster.{Cluster, Handler}
use entropyk.Scenario
use entropyk.Scenario.PodKill.{pod_kill_scenario}
use entropyk.Base.{◌-ℤ◌, saturate}

abbrev pub experiment_finalizer : String
experiment_finalizer = "temper.io/experiment-cleanup"

abbrev pub recovery_grace_period : Duration
recovery_grace_period = pos 5_000_000_000

-- `ctrl.Result`
pub record ReconcileResult : Type 0 where
  pub requeue_after : Duration

-- A later call is asked for, as controller-runtime reads a result: after a positive time only.
abbrev pub asks_requeue : ReconcileResult → Bool
asks_requeue r = ltb_ℤ (pos 0) r.requeue_after

abbrev pub done : ReconcileResult
done = record { requeue_after = pos 0 }

abbrev pub requeue : Duration → ReconcileResult
requeue d = record { requeue_after = d }

-- `string(spec.Type)`
unfoldable pub type_text : ScenarioType → String
type_text pod_kill = "pod-kill"
type_text (other_type t) = t

-- The count of a pod-kill step, which is 1 without a configuration.
unfoldable pub kill_count : Option PodKillConfig → ℤ
kill_count none = pos 1
kill_count (some config) = config.count

-- `xs[i]`, which panics out of range
abbrev pub element? : {A : Type 0} → List A → ℤ → Option A
element? xs (pos i) = get_elem? xs i
element? xs (negsuc i) = none

abbrev pub element : {S A : Type 0} → List A → ℤ → Action S A
element xs i = deref (element? xs i)

-- `idx >= len(xs)`
unfoldable pub is_past : {A : Type 0} → ℤ → List A → Bool
is_past idx xs = leb_ℤ (pos (length xs)) idx

unfoldable pub source_of : String → String
source_of label = if str_eq label "" then "adhoc" else label

unfoldable pub source_label : ChaosExperiment → String
unfolding source_of lookup_or_empty
source_label exp = source_of (lookup_or_empty label_schedule exp.metadata.labels)

unfoldable pub target_from_spec : ChaosExperiment → Scenario.Target
target_from_spec exp = record {
  name = elim exp.spec.target.name [ none ↦ "" | some name ↦ name ];
  namespace = exp.metadata.namespace;
  kind = exp.spec.target.kind;
  labels = [];
}

unfoldable pub has_available : List Condition → Bool
has_available [] = false
has_available (cond ∷ conds) =
    if str_eq cond.kind deployment_available && str_eq cond.status condition_true
    then true
    else has_available conds

-- `t.Sub(u)`
unfoldable pub since : ℤ → ℤ → Duration
since now t = saturate (now -ℤ t)

module _ (c : Cluster) where
  unfoldable pub build_scenario : Scenario → Result (Scenario.Scenario c.State)
  build_scenario spec = elim spec.kind [
    | pod_kill ↦ ok (pod_kill_scenario c (record { count = kill_count spec.pod_kill }))
    | other_type t ↦ err (errorf ("unsupported scenario type: " <> t))
  ]

  unfoldable pub check_recovery : ChaosExperiment → Handler c Bool
  check_recovery exp = unless_nil exp.spec.target.name (pure false) λ name. do
    dep ←
        wrapping "get deployment"
          (ask (c.get_deployment (record { namespace = exp.metadata.namespace; name = name })))
    pure (has_available dep.conditions)

  unfoldable pub revert_if_active : ChaosExperiment → Handler c (Unit {0})
  revert_if_active exp = unless_nil exp.status.injected_at (pure tt) λ _.
      branch (is_past exp.status.current_scenario_index exp.spec.scenarios) (pure tt) (do
        spec ← element exp.spec.scenarios exp.status.current_scenario_index
        s ← wrapping "build scenario for revert" (lift (build_scenario spec))
        s.revert (target_from_spec exp))

  -- What is counted when an experiment ends by itself, with the status given.
  unfoldable pub count_end : ChaosExperiment → String → Handler c (Unit {0})
  count_end exp status = do
    emit (
        counted experiments_total (exp.metadata.namespace ∷ source_label exp ∷ status ∷ []) (pos 1))
    t ← Calls.now c
    emit (
        observed experiment_duration_seconds (exp.metadata.namespace ∷ source_label exp ∷ [])
          (since t exp.metadata.creation_timestamp))

  unfoldable pub fail_experiment : ChaosExperiment → String → Handler c ReconcileResult
  fail_experiment exp reason = do
    exp' ← wrapping "update status to Failed" (
        Calls.update_experiment_status c
          (record exp { status = record exp.status { phase = failed } }))
    emit (event "Warning" "Failed" (c.sprintf reason))
    count_end exp' "failed"
    pure done
