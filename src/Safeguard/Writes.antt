-- ===== src/Safeguard/Writes.antt =====
-- What a tick of the watcher writes: halts.
use entropyk.Base.{String, true, some, List, [], ◌∷◌, ◌≡◌, ap, arith, refl, is_some, length}
use entropyk.Go.{Result, ok, err, Std}
use entropyk.Api.Experiment.{
  HaltCode, unreachable, is_code, ChaosExperiment, code_text, annotation_halt_code,
  annotation_halt_reason,
}
use entropyk.Base.Text.{insert}
use entropyk.Api.Schedule.{Safeguards, ChaosSchedule}
use entropyk.Metrics.{counter_labels, histogram_labels}
use entropyk.Runtime.{
  counted, observed, World, Effect, Write, written, refused, Fine, Keeps, run-Holds, Holds-pure,
  Keeps-ask, Keeps-emit, Holds-bind, Holds-branch, Holds-unless_nil, Holds-on_error,
  Holds-bind_deref, Keeps-on_error-ask,
}
use entropyk.Calls.{Keeps-perform}
use entropyk.Cluster.{Cluster, Handler}
use entropyk.Safeguard.Interfaces.{AlertChecker, MetricsQuerier}
use entropyk.Safeguard.Checks.{Finding, check_slo_breach}
use entropyk.Safeguard.Watcher.{
  Failures, Verdict, Watcher, annotated, check_alerts, check_slo, checker_or_config,
  querier_or_config, halt_experiment, judged, first_verdict, check_replicas, tolerate, settle,
  conclude, check_schedule, is_watched, check_list, check_all,
}
use entropyk.Schedule.Gate.{ScheduleReconciler}
use entropyk.Schedule.Looking.{Holds-check_slo_breach, Holds-check_alerts_firing}
use entropyk.Schedule.Quiet.{IsQuiet, quiet-Looks}

-- The watcher and the schedule reconciler are given the same constructors of backends.
abbrev pub backends_of : {c : Cluster} {std : Std} → Watcher c std → ScheduleReconciler c std
backends_of watcher = record {
  new_alert_checker = watcher.new_alert_checker;
  new_metrics_querier = watcher.new_metrics_querier;
}

-- The experiment that the watcher has to halt: the active one of a schedule that is watched and has
-- safeguards, as it was read.
pub record IsTarget (c : Cluster) (std : Std) (watcher : Watcher c std) (exp : ChaosExperiment)
    : Type 0 where
  pub sched : ChaosSchedule
  pub name : String
  pub state : c.State
  pub watched : is_watched c std watcher sched ≡ true
  pub guarded : is_some sched.spec.safeguards ≡ true
  pub active : sched.status.active_experiment_name ≡ some name
  pub read :
      (c.get_experiment (record { namespace = sched.metadata.namespace; name = name }) state).0
      ≡ ok exp

-- What the watcher writes: a target, as it was read but for the two annotations of a halt, the code of
-- which is not empty.
pub record IsHalt (c : Cluster) (std : Std) (watcher : Watcher c std) (next : ChaosExperiment)
    : Type 0 where
  pub exp : ChaosExperiment
  pub target : IsTarget c std watcher exp
  pub code : HaltCode
  pub detail : String
  pub has_code : is_code code ≡ true
  pub halts : next ≡ record exp {
    metadata = record exp.metadata {
      annotations =
          insert annotation_halt_code
            (code_text code)
            (insert annotation_halt_reason detail exp.metadata.annotations);
    };
  }

abbrev pub IsAllowed : (c : Cluster) (std : Std) → Watcher c std → Effect → Type 0
IsAllowed c std watcher (written (Write.experiment next)) = IsHalt c std watcher next
IsAllowed c std watcher (refused (Write.experiment next)) = IsHalt c std watcher next
IsAllowed c std watcher (written _) = ⊥
IsAllowed c std watcher (refused _) = ⊥
IsAllowed c std watcher (counted k labels n) = length labels ≡ length (counter_labels k)
IsAllowed c std watcher (observed h labels d) = length labels ≡ length (histogram_labels h)
IsAllowed c std watcher _ = Unit

module _ (c : Cluster) (std : Std) (watcher : Watcher c std)
    (quiet : IsQuiet c std (backends_of watcher)) where
  checker_or_config-IsAllowed :
      (url ns : String) (sg : Safeguards) (k : Result (AlertChecker c.State))
      → watcher.new_alert_checker url ≡ k
      → Keeps (IsAllowed c std watcher) ⊥ (checker_or_config c std watcher ns sg k)
  checker_or_config-IsAllowed url ns sg (err e) built = Holds-pure _
  checker_or_config-IsAllowed url ns sg (ok k) built = Holds-bind _ _ (Keeps-emit _ refl) λ _.
      Holds-check_alerts_firing c std (backends_of watcher)
        (quiet-Looks c std (backends_of watcher) quiet (λ ns kind. refl)) url k _ built

  querier_or_config-IsAllowed :
      (url ns : String) (slo : _) (q : Result (MetricsQuerier c.State std.Float))
      → watcher.new_metrics_querier url ≡ q
      → Keeps
          (IsAllowed c std watcher)
          ⊥
          (querier_or_config c std watcher ns q (check_slo_breach std slo))
  querier_or_config-IsAllowed url ns slo (err e) built = Holds-pure _
  querier_or_config-IsAllowed url ns slo (ok q) built = Holds-bind _ _ (Keeps-emit _ refl) λ _.
      Holds-check_slo_breach c std (backends_of watcher)
        (quiet-Looks c std (backends_of watcher) quiet (λ ns kind. refl)) url q _ built

  judged-IsAllowed :
      (m : Handler c Finding)
      → Keeps (IsAllowed c std watcher) ⊥ m
      → Keeps (IsAllowed c std watcher) ⊥ (judged c std watcher m)
  unfolding judged
  judged-IsAllowed m k = Holds-on_error _ _ _ k (λ e. Holds-pure _) (λ f. Holds-pure _)

  first_verdict-IsAllowed :
      (ns : String) (sg : Safeguards)
      → Keeps (IsAllowed c std watcher) ⊥ (first_verdict c std watcher ns sg)
  unfolding first_verdict check_alerts check_slo
  first_verdict-IsAllowed ns sg =
      Holds-bind _ _
        (judged-IsAllowed _ (
          Holds-unless_nil _ _ _ (λ _. Holds-pure _)
            λ source _. checker_or_config-IsAllowed source.url ns sg _ refl))
        λ v.
          Holds-branch _ _ _
            (λ _. judged-IsAllowed _ (
              Holds-unless_nil _ _ _ (λ _. Holds-pure _)
                λ source _.
                  Holds-unless_nil _ _ _ (λ _. Holds-pure _)
                    λ slo _. querier_or_config-IsAllowed source.url ns slo _ refl))
            (λ _. Holds-pure _)

  halt_experiment-IsAllowed :
      (exp : ChaosExperiment) (code : HaltCode) (detail : String)
      → IsTarget c std watcher exp
      → is_code code ≡ true
      → Keeps (IsAllowed c std watcher) ⊥ (halt_experiment c std watcher exp code detail)
  unfolding halt_experiment annotated
  halt_experiment-IsAllowed exp code detail target coded =
      let halt : IsHalt c std watcher (annotated exp code detail) = record {
        exp = exp;
        target = target;
        code = code;
        detail = detail;
        has_code = coded;
        halts = refl;
      } in
      Holds-bind _ _ (Keeps-perform _ _ halt halt) λ e. Keeps-emit _ refl

  settle-IsAllowed :
      (key : String) (exp : ChaosExperiment) (v : Verdict) (failures : Failures)
      → IsTarget c std watcher exp
      → Keeps (IsAllowed c std watcher) ⊥ (settle c std watcher key exp v failures)
  unfolding settle tolerate
  settle-IsAllowed key exp v failures target =
      Holds-branch _ _ _
        (λ coded.
          Holds-on_error _ _ _ (halt_experiment-IsAllowed exp v.code v.detail target coded)
            (λ _. Holds-pure _) (λ _. Holds-pure _))
        λ _.
          Holds-unless_nil _ _ _ (λ _. Holds-pure _)
            λ e _.
              Holds-branch _ _ _
                (λ _.
                  Holds-on_error _ _ _ (halt_experiment-IsAllowed exp unreachable _ target refl)
                    (λ _. Holds-pure _) (λ _. Holds-pure _))
                (λ _. Holds-pure _)

  check_replicas-IsAllowed :
      (sched : ChaosSchedule) (sg : Safeguards) (exp : ChaosExperiment) (v : Verdict)
      → Keeps (IsAllowed c std watcher) ⊥ (check_replicas c std watcher sched sg exp v)
  unfolding check_replicas
  check_replicas-IsAllowed sched sg exp v =
      Holds-branch _ _ _
        (λ _.
          Holds-unless_nil _ _ _ (λ _. Holds-pure _)
            λ name _.
              Holds-bind _ _ (Keeps-emit _ refl)
                λ _. Holds-on_error _ _ _ (Keeps-ask _) (λ e. Holds-pure _) (λ dep. Holds-pure _))
        (λ _. Holds-pure _)

  conclude-IsAllowed :
      (sched : ChaosSchedule) (sg : Safeguards) (v : Verdict) (failures : Failures)
      → is_watched c std watcher sched ≡ true
      → sched.spec.safeguards ≡ some sg
      → Keeps (IsAllowed c std watcher) ⊥ (conclude c std watcher sched sg v failures)
  unfolding conclude is_watched
  conclude-IsAllowed sched sg v failures watched given =
      Holds-branch _ _ _ (λ _. Holds-pure _)
        λ _.
          Holds-bind_deref _ _ (λ missing. absurd (ground (arith, watched, missing)))
            λ name active.
              Keeps-on_error-ask _ _ _ (λ _. Holds-pure _)
                λ exp s found. Holds-bind _ _ (check_replicas-IsAllowed sched sg exp v) λ v'.
                  settle-IsAllowed _ exp v' failures (record {
                    sched = sched;
                    name = name;
                    state = s;
                    watched = watched;
                    guarded = ap is_some given;
                    active = active;
                    read = found;
                  })

  check_schedule-IsAllowed :
      (sched : ChaosSchedule) (failures : Failures)
      → is_watched c std watcher sched ≡ true
      → Keeps (IsAllowed c std watcher) ⊥ (check_schedule c std watcher sched failures)
  unfolding check_schedule
  check_schedule-IsAllowed sched failures watched =
      Holds-unless_nil _ _ _ (λ _. Holds-pure _)
        λ sg given.
          Holds-bind _ _ (first_verdict-IsAllowed _ sg)
            λ v. conclude-IsAllowed sched sg v failures watched given

  check_list-IsAllowed :
      (scheds : List ChaosSchedule) (failures : Failures)
      → Keeps (IsAllowed c std watcher) ⊥ (check_list c std watcher scheds failures)
  unfolding check_list
  check_list-IsAllowed [] failures = Holds-pure _
  check_list-IsAllowed (sched ∷ scheds) failures =
      Holds-bind _ _
        (Holds-branch _ _ _ (check_schedule-IsAllowed sched failures) (λ _. Holds-pure _))
        λ failures'. check_list-IsAllowed scheds failures'

  pub Keeps-check_all :
      (failures : Failures) → Keeps (IsAllowed c std watcher) ⊥ (check_all c std watcher failures)
  unfolding check_all
  Keeps-check_all failures =
      Holds-on_error _ _ _ (Keeps-ask _) (λ _. Holds-pure _)
        λ scheds. check_list-IsAllowed scheds failures

  -- From an empty log, with backends that write nothing to the cluster and do not panic: a tick of the
  -- watcher does not panic, and the only calls that it makes to change the cluster are updates of
  -- experiments that it has read, each the active one of a schedule that is watched and has safeguards:
  -- they set the two halt annotations, with a code that is not empty, and change nothing else. It uses
  -- each metric with as many values as it has labels.
  pub check_all-IsAllowed :
      (failures : Failures) (w : World c.State)
      → w.log ≡ []
      → Fine (IsAllowed c std watcher) ⊥ (check_all c std watcher failures w)
  check_all-IsAllowed failures w fresh = run-Holds (Keeps-check_all failures) w (rw fresh tt)
