-- ===== src/Safeguard/Watcher.antt =====
-- internal/safeguard/watcher.go
use entropyk.Base.{
  ℕ, ◌+◌, ◌*◌, ℤ, pos, ltb_ℤ, leb, String, ◌<>◌, Bool, false, not, ◌&&◌, ◌||◌, Option, none, some,
  List, [], ◌∷◌, is_some, if◌then◌else◌,
}
use entropyk.Base.Text.{decimal, lookup, insert, erase}
use entropyk.Go.{Error, Result, ok, err, Std}
use entropyk.Kube.{Deployment}
use entropyk.Api.Experiment.{
  HaltCode, no_code, replica_min, replica_max, unreachable, config_error, code_text, is_code,
  annotation_halt_reason, annotation_halt_code, ChaosExperiment,
}
use entropyk.Api.Schedule.{Safeguards, ChaosSchedule, is_running}
use entropyk.Metrics.{
  safeguard_checks_total, safeguard_halts_total, safeguard_type_alerts, safeguard_type_slo,
  safeguard_type_replicas,
}
use entropyk.Runtime.{counted, pure, ask, on_error, emit, deref, branch, unless_nil, ◌>>=◌, ◌>>◌}
use entropyk.Calls
use entropyk.Cluster.{Cluster, Handler}
use entropyk.Safeguard.Interfaces.{AlertChecker, MetricsQuerier}
use entropyk.Safeguard.Checks.{Finding, nothing, check_alerts_firing, check_slo_breach}

-- `consecutiveFailures`
abbrev pub Failures : Type 0
Failures = List (String × ℕ)

-- `m[key]`, with the zero value on a missing key
unfoldable pub failures_of : String → Failures → ℕ
failures_of key m = elim (lookup key m) [ none ↦ 0 | some n ↦ n ]

-- The variables `haltCode`, `haltDetail` and `checkErr`.
pub record Verdict : Type 0 where
  pub code : HaltCode
  pub detail : String
  pub error : Option Error

unfoldable pub finding_verdict : Finding → Verdict
finding_verdict f = record { code = f.0; detail = f.1; error = none }

unfoldable pub error_verdict : Error → Verdict
error_verdict e = record { code = no_code; detail = ""; error = some e }

-- `haltCode == "" && checkErr == nil`
unfoldable pub is_clear : Verdict → Bool
is_clear v = not (is_code v.code) && not (is_some v.error)

-- `sg.MinReplicasAvailable != nil || sg.MaxUnavailable != nil`
unfoldable pub needs_replica_check : Safeguards → Bool
needs_replica_check sg = is_some sg.min_replicas_available || is_some sg.max_unavailable

-- `limit != nil && …`
abbrev pub is_below : ℤ → Option ℤ → Bool
is_below n none = false
is_below n (some m) = ltb_ℤ n m

abbrev pub is_above : ℤ → Option ℤ → Bool
is_above n none = false
is_above n (some m) = ltb_ℤ m n

abbrev pub limit_text : Option ℤ → String
limit_text none = ""
limit_text (some m) = decimal m

-- The replica counts against the limits.
unfoldable pub judge_replicas : Safeguards → Deployment → Verdict → Verdict
judge_replicas sg dep v =
    if is_below dep.available_replicas sg.min_replicas_available
    then record v {
      code = replica_min;
      detail =
          "Available replicas "
          <> (decimal dep.available_replicas
              <> (" < minimum " <> limit_text sg.min_replicas_available));
    }
    else if is_above dep.unavailable_replicas sg.max_unavailable
    then record v {
      code = replica_max;
      detail =
          "Unavailable replicas "
          <> (decimal dep.unavailable_replicas <> (" > maximum " <> limit_text sg.max_unavailable));
    }
    else v

unfoldable pub schedule_key : ChaosSchedule → String
schedule_key sched = sched.metadata.namespace <> ("/" <> sched.metadata.name)

-- `exp` with the two halt annotations
unfoldable pub annotated : ChaosExperiment → HaltCode → String → ChaosExperiment
annotated exp code detail = record exp {
  metadata = record exp.metadata {
    annotations =
        insert annotation_halt_code (code_text code)
          (insert annotation_halt_reason detail exp.metadata.annotations);
  };
}

-- The fields of `Watcher` but its map of failures, which each call takes and returns.
pub record Watcher (c : Cluster) (std : Std) : Type 0 where
  pub failure_threshold : ℕ
  pub new_alert_checker : String → Result (AlertChecker c.State)
  pub new_metrics_querier : String → Result (MetricsQuerier c.State std.Float)

-- `NewWatcher`
unfoldable pub new_watcher :
    {c : Cluster} {std : Std}
    → (String → Result (AlertChecker c.State))
    → (String → Result (MetricsQuerier c.State std.Float))
    → Watcher c std
new_watcher checker querier = record {
  failure_threshold = 3;
  new_alert_checker = checker;
  new_metrics_querier = querier;
}

module _ (c : Cluster) (std : Std) (w : Watcher c std) where
  abbrev pub checker_or_config :
      String → Safeguards → Result (AlertChecker c.State) → Handler c Finding
  checker_or_config ns sg (err e) = pure (config_error, "Invalid alert source config: " <> e.text)
  checker_or_config ns sg (ok checker) =
      emit (counted safeguard_checks_total (ns ∷ safeguard_type_alerts ∷ []) (pos 1))
      >> check_alerts_firing sg.halt_on_alert_labels checker

  unfoldable pub check_alerts : String → Safeguards → Handler c Finding
  check_alerts ns sg =
      unless_nil sg.alert_source (pure nothing)
        λ source. checker_or_config ns sg (w.new_alert_checker source.url)

  abbrev pub querier_or_config :
      String
      → Result (MetricsQuerier c.State std.Float)
      → (MetricsQuerier c.State std.Float → Handler c Finding)
      → Handler c Finding
  querier_or_config ns (err e) check =
      pure (config_error, "Invalid metrics source config: " <> e.text)
  querier_or_config ns (ok querier) check =
      emit (counted safeguard_checks_total (ns ∷ safeguard_type_slo ∷ []) (pos 1)) >> check querier

  unfoldable pub check_slo : String → Safeguards → Handler c Finding
  check_slo ns sg = unless_nil sg.metrics_source (pure nothing) λ source.
      unless_nil sg.slo_protection (pure nothing)
        λ slo. querier_or_config ns (w.new_metrics_querier source.url) (check_slo_breach std slo)

  unfoldable pub halt_experiment : ChaosExperiment → HaltCode → String → Handler c (Unit {0})
  halt_experiment exp code detail = do
    exp' ← Calls.update_experiment c (annotated exp code detail)
    emit (counted safeguard_halts_total (exp'.metadata.namespace ∷ code_text code ∷ []) (pos 1))

  -- The three values that a check returns.
  unfoldable pub judged : Handler c Finding → Handler c Verdict
  judged m = on_error m (λ e. pure (error_verdict e)) (λ f. pure (finding_verdict f))

  -- The alerts, and the SLO if they gave nothing.
  unfoldable pub first_verdict : String → Safeguards → Handler c Verdict
  first_verdict ns sg = do
    v ← judged (check_alerts ns sg)
    branch (is_clear v) (judged (check_slo ns sg)) (pure v)

  unfoldable pub check_replicas :
      ChaosSchedule → Safeguards → ChaosExperiment → Verdict → Handler c Verdict
  check_replicas sched sg exp v =
      branch (not (is_code v.code) && needs_replica_check sg)
        (unless_nil exp.spec.target.name (pure v) λ name. do
          emit (
              counted safeguard_checks_total
                (sched.metadata.namespace ∷ safeguard_type_replicas ∷ []) (pos 1))
          on_error
              (ask
                (c.get_deployment (record { namespace = sched.metadata.namespace; name = name })))
              (λ e. pure (record v { error = some e })) (λ dep. pure (judge_replicas sg dep v)))
        (pure v)

  unfoldable pub unreachable_text : Error → String
  unreachable_text e =
      "Safeguard checks unreachable for "
      <> (decimal (pos (w.failure_threshold * 5)) <> ("s: " <> e.text))

  -- A check that failed: it is counted, and enough of them in a row halt the experiment.
  unfoldable pub tolerate : String → ChaosExperiment → Error → Failures → Handler c Failures
  unfolding unreachable_text
  tolerate key exp e failures =
      let failures' = insert key (failures_of key failures + 1) failures in
      branch (leb w.failure_threshold (failures_of key failures'))
        (on_error (halt_experiment exp unreachable (unreachable_text e)) (λ _. pure failures')
          (λ _. pure (erase key failures')))
        (pure failures')

  -- The switch at the end of `checkSchedule`.
  unfoldable pub settle : String → ChaosExperiment → Verdict → Failures → Handler c Failures
  settle key exp v failures =
      branch (is_code v.code)
        (on_error (halt_experiment exp v.code v.detail) (λ _. pure failures)
          (λ _. pure (erase key failures)))
        (unless_nil v.error (pure (erase key failures)) (λ e. tolerate key exp e failures))

  -- `checkSchedule` from the first two checks on.
  unfoldable pub conclude : ChaosSchedule → Safeguards → Verdict → Failures → Handler c Failures
  conclude sched sg v failures =
      branch (is_clear v && not (needs_replica_check sg))
        (pure (erase (schedule_key sched) failures))
        (do
          name ← deref sched.status.active_experiment_name
          on_error
              (ask
                (c.get_experiment (record { namespace = sched.metadata.namespace; name = name })))
              (λ _. pure failures)
              (λ exp. do
                v' ← check_replicas sched sg exp v
                settle (schedule_key sched) exp v' failures))

  unfoldable pub check_schedule : ChaosSchedule → Failures → Handler c Failures
  check_schedule sched failures =
      unless_nil sched.spec.safeguards (pure failures)
        λ sg. do v ← first_verdict sched.metadata.namespace sg; conclude sched sg v failures

  -- `sched.Status.Phase != Running || ActiveExperimentName == nil`, negated
  unfoldable pub is_watched : ChaosSchedule → Bool
  is_watched sched = is_running sched.status.phase && is_some sched.status.active_experiment_name

  unfoldable pub check_list : List ChaosSchedule → Failures → Handler c Failures
  check_list [] failures = pure failures
  check_list (sched ∷ scheds) failures = do
    failures' ← branch (is_watched sched) (check_schedule sched failures) (pure failures)
    check_list scheds failures'

  unfoldable pub check_all : Failures → Handler c Failures
  check_all failures =
      on_error (ask c.list_schedules) (λ _. pure failures) (λ scheds. check_list scheds failures)
