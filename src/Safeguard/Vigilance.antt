-- ===== src/Safeguard/Vigilance.antt =====
-- A tick of the watcher halts an experiment whose target breaks a replica limit.
use entropyk.Base.{pos, String, true, false, some, List, [], ◌∷◌, ◌≡◌, ◌⊎◌, arith, if◌then◌else◌}
use entropyk.Base.Text.{erase, insert}
use entropyk.Go.{Result, ok, err, Std}
use entropyk.Calls.{perform}
use entropyk.Kube.{ObjectKey, Deployment}
use entropyk.Api.Experiment.{
  ChaosExperiment, HaltCode, is_code, replica_min, replica_max, code_text, annotation_halt_code,
  annotation_halt_reason,
}
use entropyk.Api.Schedule.{Safeguards, ChaosSchedule}
use entropyk.Metrics.{safeguard_checks_total, safeguard_halts_total, safeguard_type_replicas}
use entropyk.Runtime.{World, Effect, Write, returned, written, refused, counted, monad}
use entropyk.Cluster.{Cluster}
use entropyk.Safeguard.Watcher.{
  Failures, Verdict, Watcher, is_clear, needs_replica_check, is_below, is_above, judge_replicas,
  halt_experiment, first_verdict, check_replicas, settle, conclude, check_schedule, annotated,
  schedule_key,
}

-- The replica counts break a limit.
abbrev pub IsBroken : Safeguards → Deployment → Type 0
IsBroken sg dep =
    (is_below dep.available_replicas sg.min_replicas_available ≡ true)
    ⊎ (is_above dep.unavailable_replicas sg.max_unavailable ≡ true)

-- The code for a broken limit: too few replicas come first.
abbrev pub limit_code : Safeguards → Deployment → HaltCode
limit_code sg dep =
    if is_below dep.available_replicas sg.min_replicas_available then replica_min else replica_max

judge_replicas-limit :
    (sg : Safeguards) (dep : Deployment) (v : Verdict)
    → IsBroken sg dep
    → (judge_replicas sg dep v).code ≡ limit_code sg dep
unfolding judge_replicas
judge_replicas-limit sg dep v broken = ground arith

judge_replicas-code :
    (sg : Safeguards) (dep : Deployment) (v : Verdict)
    → IsBroken sg dep
    → is_code (judge_replicas sg dep v).code ≡ true
unfolding judge_replicas
judge_replicas-code sg dep v broken = ground arith

needed : (sg : Safeguards) (dep : Deployment) → IsBroken sg dep → needs_replica_check sg ≡ true
unfolding needs_replica_check
needed sg dep broken = ground arith

-- The failures once a halt was answered.
abbrev pub kept_failures : {A : Type 0} → Result A → String → Failures → Failures
kept_failures (ok _) key failures = erase key failures
kept_failures (err _) key failures = failures

-- The log of a halt, after the answer to its write.
abbrev pub halt_log :
    Result ChaosExperiment → ChaosExperiment → HaltCode → List Effect → List Effect
halt_log (ok answer) next code log =
    counted safeguard_halts_total (answer.metadata.namespace ∷ code_text code ∷ []) (pos 1)
    ∷ written (Write.experiment next)
    ∷ log
halt_log (err _) next code log = refused (Write.experiment next) ∷ log

-- The experiment with the two annotations, as they are written for a broken limit.
abbrev pub with_halt : ChaosExperiment → HaltCode → String → ChaosExperiment
with_halt exp code detail = record exp {
  metadata = record exp.metadata {
    annotations =
        insert annotation_halt_code (code_text code)
          (insert annotation_halt_reason detail exp.metadata.annotations);
  };
}

module _ (c : Cluster) (std : Std) (watcher : Watcher c std) (sched : ChaosSchedule) where
  abbrev pub sibling : String → ObjectKey
  sibling name = record { namespace = sched.metadata.namespace; name = name }

  conclude-halts :
      (sg : Safeguards) (v : Verdict) (failures : Failures) (w : World c.State)
      {name target : String} {exp : ChaosExperiment} {dep : Deployment} {s t : c.State}
      → is_code v.code ≡ false
      → sched.status.active_experiment_name ≡ some name
      → c.get_experiment (sibling name) w.state ≡ (ok exp, s)
      → exp.spec.target.name ≡ some target
      → c.get_deployment (sibling target) s ≡ (ok dep, t)
      → IsBroken sg dep
      → let code = limit_code sg dep in
        let next = with_halt exp code (judge_replicas sg dep v).detail in
        let answer = c.update_experiment next t in
        conclude c std watcher sched sg v failures w ≡ (
          returned (kept_failures answer.0 (schedule_key sched) failures),
          record {
            state = answer.1;
            log = halt_log answer.0 next code (
                counted safeguard_checks_total
                  (sched.metadata.namespace ∷ safeguard_type_replicas ∷ [])
                  (pos 1)
                ∷ w.log);
          },
        )
  unfolding conclude check_replicas settle halt_experiment annotated perform monad is_clear
  conclude-halts sg v failures w {dep = dep} none active found named read broken =
      rw
        (
          active,
          found,
          named,
          read,
          none,
          needed sg dep broken,
          judge_replicas-code sg dep v broken,
          judge_replicas-limit sg dep v broken,
        )
        (ground arith)

  -- A running schedule with safeguards, whose alerts and service levels give no reason to halt (whether
  -- or not their checks failed): if its experiment and the deployment that it names are read and the
  -- replica counts break a limit, then the watcher counts the check and writes the experiment, with the
  -- two annotations set to the code of the limit and the detail. If the server accepts the write, the
  -- halt is counted and the failures in a row of the schedule are forgotten; if not, they are kept.
  pub check_schedule-halts :
      (sg : Safeguards) (v : Verdict) (failures : Failures) (w w' : World c.State)
      {name target : String} {exp : ChaosExperiment} {dep : Deployment} {s t : c.State}
      → sched.spec.safeguards ≡ some sg
      → first_verdict c std watcher sched.metadata.namespace sg w ≡ (returned v, w')
      → is_code v.code ≡ false
      → sched.status.active_experiment_name ≡ some name
      → c.get_experiment (sibling name) w'.state ≡ (ok exp, s)
      → exp.spec.target.name ≡ some target
      → c.get_deployment (sibling target) s ≡ (ok dep, t)
      → IsBroken sg dep
      → let code = limit_code sg dep in
        let next = with_halt exp code (judge_replicas sg dep v).detail in
        let answer = c.update_experiment next t in
        check_schedule c std watcher sched failures w ≡ (
          returned (kept_failures answer.0 (schedule_key sched) failures),
          record {
            state = answer.1;
            log = halt_log answer.0 next code (
                counted safeguard_checks_total
                  (sched.metadata.namespace ∷ safeguard_type_replicas ∷ [])
                  (pos 1)
                ∷ w'.log);
          },
        )
  unfolding check_schedule monad
  check_schedule-halts sg v failures w w' {dep = dep} given first none active found named read
        broken =
      simp (given, first) (conclude-halts sg v failures w' none active found named read broken)
