-- ===== src/Schedule/Keeping.antt =====
-- What a reconcile of a schedule keeps: any property that its calls keep.
use entropyk.Base.{ap, ◌∙◌, String, false, some, ◌≡◌, arith, refl, inl, inr}
use entropyk.Go.{Std}
use entropyk.Api.Experiment
use entropyk.Api.Experiment.{ExperimentPhase, ChaosExperiment}
use entropyk.Api.Schedule.{
  SchedulePhase, unset, idle, running, paused, halted, completed, failed, other_phase,
  ChaosSchedule,
}
use entropyk.Runtime.{
  World, Effect, emit, Holds, Holds-pure, Holds-raise, Holds-ask, Holds-emit, Holds-bind,
  Holds-bind_seen, Holds-on_error-ask, wrapping_inv, returned, Holds-wrapping, Holds-branch,
  Holds-unless_nil, Holds-on_error, Holds-bind_lift, Holds-on_error-lift, wrapping,
}
use entropyk.Calls
use entropyk.Calls.{Holds-perform, Holds-bind_now}
use entropyk.Cluster.{Cluster}
use entropyk.Schedule.Gate.{ScheduleReconciler, Gate, safe, unsafe}
use entropyk.Schedule.Firing.{
  fail_schedule, skip_run, note_run, start_run, by_gate, create_experiment, fire_or_wait,
  reconcile_idle,
}
use entropyk.Schedule.Reconcile.{
  settle_run, follow_run, to_idle, reconcile_running, suspend, by_phase, reconcile_found, in_phase,
}
use entropyk.Schedule.Looking.{Holds-check_safeguards}
use entropyk.Schedule.Policy.{Policy}
use entropyk.Schedule.Steps.{Step, IsWaiting, IsDue, IsRunning, IsRun, IsReady, IsAllowed}

module _ (c : Cluster) (std : Std) (r : ScheduleReconciler c std) (sched : ChaosSchedule)
    {I : World c.State → Type 0} (policy : Policy c std r sched I) where
  Holds-noted : (e : Effect) → IsAllowed c std r sched e → Holds I ⊥ (emit e)
  Holds-noted e allowed = Holds-emit e λ w h. policy.emitted e w allowed h

  -- A status write, where the status is a step on.
  Holds-write :
      (s : String) (next : ChaosSchedule)
      → Step c sched next
      → Holds I ⊥ (wrapping s (Calls.update_schedule_status c next))
  Holds-write s next step =
      Holds-wrapping _ _ (Holds-perform _ _ λ w h. policy.written next w step h)

  Holds-settle_run :
      {next : ChaosSchedule} (context kind reason note : String) (result : _)
      → Step c sched next
      → Holds I ⊥ (settle_run c context next kind reason note result)
  unfolding settle_run
  Holds-settle_run context kind reason note result step =
      Holds-bind _ _ (Holds-write _ _ step) λ _. Holds-bind _ _ (Holds-noted _ tt) λ _. Holds-pure _

  Holds-to_idle : {next : ChaosSchedule} → Step c sched next → Holds I ⊥ (to_idle c next)
  unfolding to_idle
  Holds-to_idle step = Holds-bind _ _ (Holds-write _ _ step) λ _. Holds-pure _

  Holds-fail_schedule :
      (reason : String) → IsWaiting sched → Holds I ⊥ (fail_schedule c std r sched reason)
  unfolding fail_schedule in_phase
  Holds-fail_schedule reason waiting =
      Holds-bind _ _ (Holds-write _ _ (Step.fail waiting refl))
        λ _. Holds-bind _ _ (Holds-noted _ tt) λ _. Holds-pure _

  Holds-follow_run :
      (phase : ExperimentPhase) (exp : ChaosExperiment) (name : String)
      → IsRunning sched
      → sched.status.active_experiment_name ≡ some name
      → Holds I ⊥ (follow_run c phase sched exp)
  unfolding follow_run
  Holds-follow_run Experiment.completed exp name runs active =
      Holds-settle_run _ _ _ _ _ (Step.succeed name runs active refl)
  Holds-follow_run Experiment.failed exp name runs active =
      Holds-settle_run _ _ _ _ _ (Step.lose name runs active refl)
  Holds-follow_run Experiment.halted exp name runs active =
      Holds-settle_run _ _ _ _ _ (Step.halt name exp.status.halt_reason runs active refl)
  Holds-follow_run _ exp name runs active = Holds-pure _

  Holds-reconcile_running : IsRunning sched → Holds I ⊥ (reconcile_running c sched)
  unfolding reconcile_running
  Holds-reconcile_running runs =
      Holds-unless_nil _ _ _ (λ idle. Holds-to_idle (Step.forget runs idle refl))
        λ name active.
          Holds-on_error _ _ _ (Holds-ask _ (policy.experiment _))
            (λ e.
              Holds-branch _ _ _ (λ _. Holds-to_idle (Step.lose name runs active refl))
                (λ _. Holds-raise _))
            (λ exp. Holds-follow_run _ exp name runs active)

module _ (c : Cluster) (std : Std) (r : ScheduleReconciler c std) (sched : ChaosSchedule)
    {I : World c.State → Type 0} (policy : Policy c std r sched I) (waiting : IsWaiting sched) where
  Holds-start_run :
      (template : ChaosExperiment)
      → IsReady c std r sched template
      → Holds I ⊥ (start_run c std r sched template)
  unfolding start_run note_run
  Holds-start_run template ready = Holds-bind_now c _ policy.time λ t read.
      Holds-bind_lift _ _ _ λ exp owned.
        let run : IsRun c std r sched exp = record {
          template = template;
          time = t;
          clock = read;
          ready = ready;
          owned = owned;
        } in
        Holds-on_error _ _ _ (Holds-perform _ _ λ w h. policy.created exp w run h)
          (λ e. Holds-fail_schedule c std r sched policy _ waiting)
          (λ _. Holds-bind_now c _ policy.time λ u read'.
            Holds-bind _ _
              (Holds-write c std r sched policy _ _ (Step.start _ u waiting ready.due read' refl))
              λ _. Holds-bind _ _ (Holds-noted c std r sched policy _ tt) λ _. Holds-pure _)

  Holds-by_gate :
      (g : Gate) (template : ChaosExperiment)
      → IsDue c sched
      → (g ≡ safe → IsReady c std r sched template)
      → Holds I ⊥ (by_gate c std r g sched template)
  unfolding by_gate skip_run
  Holds-by_gate safe template due ready = Holds-start_run template (ready refl)
  Holds-by_gate (unsafe reason) template due ready =
      Holds-bind _ _ (Holds-noted c std r sched policy _ tt) λ _.
        Holds-bind_now c _ policy.time λ t read.
          Holds-bind _ _ (Holds-write c std r sched policy _ _ (Step.skip t waiting due read refl))
            λ _. Holds-pure _

  Holds-create_experiment : IsDue c sched → Holds I ⊥ (create_experiment c std r sched)
  unfolding create_experiment
  Holds-create_experiment due =
      Holds-on_error-ask _ _ _ (policy.experiment _)
        (λ e. Holds-fail_schedule c std r sched policy _ waiting)
        λ template s found.
          Holds-bind_seen _ _
            (Holds-wrapping _ _ (Holds-check_safeguards c std r policy.looks sched template))
            λ gate w held seen. Holds-by_gate gate template due λ free. record {
              waiting = waiting;
              due = due;
              state = s;
              found = found;
              world = w;
              passed = (wrapping_inv _ _ w seen).0 ∙ ap returned free;
            }

  Holds-reconcile_idle : Holds I ⊥ (reconcile_idle c std r sched)
  unfolding reconcile_idle fire_or_wait
  Holds-reconcile_idle =
      Holds-on_error-lift _ _ _ (λ e. Holds-fail_schedule c std r sched policy _ waiting)
        λ _ _.
          Holds-on_error-lift _ _ _ (λ e. Holds-fail_schedule c std r sched policy _ waiting)
            λ cron parsed. Holds-bind_now c _ policy.time λ now read.
              Holds-branch _ _ _ (λ _. Holds-pure _)
                λ due.
                  Holds-create_experiment
                    (record { cron = cron; now = now; read = read; parsed = parsed; due = due })

module _ (c : Cluster) (std : Std) (r : ScheduleReconciler c std) (sched : ChaosSchedule)
    {I : World c.State → Type 0} (policy : Policy c std r sched I) where
  Holds-by_phase :
      (phase : SchedulePhase)
      → sched.spec.suspend ≡ false
      → sched.status.phase ≡ phase
      → Holds I ⊥ (by_phase c std r phase sched)
  unfolding by_phase
  Holds-by_phase unset live e =
      Holds-reconcile_idle c std r sched policy (record { unsuspended = live; in_idle = inl e })
  Holds-by_phase idle live e =
      Holds-reconcile_idle c std r sched policy (record { unsuspended = live; in_idle = inr e })
  Holds-by_phase running live e =
      Holds-reconcile_running c std r sched policy (record { unsuspended = live; in_running = e })
  Holds-by_phase paused live e =
      Holds-settle_run c std r sched policy _ _ _ _ _ (Step.resume live e refl)
  Holds-by_phase halted live e = Holds-pure _
  Holds-by_phase completed live e = Holds-pure _
  Holds-by_phase failed live e = Holds-pure _
  Holds-by_phase (other_phase _) live e = Holds-pure _

  pub Holds-reconcile_found : Holds I ⊥ (reconcile_found c std r sched)
  unfolding reconcile_found suspend
  Holds-reconcile_found =
      Holds-branch _ _ _
        (λ asked.
          Holds-branch _ _ _
            (λ live.
              Holds-settle_run c std r sched policy _ _ _ _ _
                (Step.suspend asked (ground (arith, live)) refl))
            (λ _. Holds-pure _))
        (λ live. Holds-by_phase _ live refl)
