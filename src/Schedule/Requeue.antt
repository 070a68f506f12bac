-- ===== src/Schedule/Requeue.antt =====
-- When the schedule reconciler asks not to be called again.
use entropyk.Base.{
  pos, ltb_ℤ, ◌-ℤ◌, saturate, String, Bool, true, false, some, ◌≡◌, inl, inr, refl, ap, arith,
}
use entropyk.Go.{ok, Time, Duration, Std}
use entropyk.Api.Experiment
use entropyk.Api.Experiment.{ChaosExperiment, ExperimentPhase}
use entropyk.Api.Schedule.{
  SchedulePhase, unset, idle, running, paused, halted, completed, failed, other_phase,
  ChaosSchedule,
}
use entropyk.Runtime.{
  returned, Yields, yields, run-Yields, Yields-run, Yields-pure, Yields-raise, Yields-wrapping,
  Yields-on_error, Yields-bind, Yields-unless_nil, Yields-branch, World, pure, wrapping,
}
use entropyk.Calls
use entropyk.Calls.{Yields-perform}
use entropyk.Cluster.{Cluster}
use entropyk.Experiment.Parts.{ReconcileResult, asks_requeue, requeue, since}
use entropyk.Experiment.Requeue.{second-positive}
use entropyk.Schedule.Gate.{ScheduleReconciler, Gate, safe, unsafe}
use entropyk.Schedule.Firing.{
  fail_schedule, skip_run, note_run, start_run, by_gate, create_experiment, fire_or_wait,
  reconcile_idle,
}
use entropyk.Schedule.Reconcile.{
  in_phase, run_halted, run_over, settle_run, follow_run, to_idle, reconcile_running, by_phase,
  reconcile_found,
}
use entropyk.Schedule.Steps.{Step, IsWaiting, IsRunning}

-- The phases in which the reconciler does nothing more.
abbrev pub is_over : SchedulePhase → Bool
is_over unset = false
is_over idle = false
is_over running = false
is_over paused = false
is_over halted = true
is_over completed = true
is_over failed = true
is_over (other_phase _) = true

-- The reasons not to be called again: the schedule is suspended, it was over, or its end was written and
-- accepted.
pub data Settled (c : Cluster) (sched : ChaosSchedule) : Type 0 where
  suspended : sched.spec.suspend ≡ true → Settled c sched
  over : is_over sched.status.phase ≡ true → Settled c sched
  ended :
      (next answer : ChaosSchedule) (s : c.State)
      → Step c sched next
      → is_over next.status.phase ≡ true
      → (c.update_schedule_status next s).0 ≡ ok answer
      → Settled c sched

module _ (c : Cluster) (sched : ChaosSchedule) where
  abbrev IsFinal : ReconcileResult → Type 0
  IsFinal r = asks_requeue r ≡ false → Settled c sched

  again : (d : Duration) → ltb_ℤ (pos 0) d ≡ true → Yields IsFinal (pure {S = c.State} (requeue d))
  again d later = Yields-pure _ λ none. absurd (ground (arith, later, none))

  pub accepted :
      (s : String) (next : ChaosSchedule)
      → Yields
          (λ e. (w : c.State) × ((c.update_schedule_status next w).0 ≡ ok e))
          (wrapping s (Calls.update_schedule_status c next))
  accepted s next = Yields-wrapping _ _ (Yields-perform _ _)

  -- A status write, an event and a later call.
  settle_run-again :
      (context kind reason note : String) (next : ChaosSchedule) (d : Duration)
      → ltb_ℤ (pos 0) d ≡ true
      → Yields IsFinal (settle_run c context next kind reason note (requeue d))
  unfolding settle_run
  settle_run-again context kind reason note next d later =
      Yields-bind _ _ (Yields-run _) λ _ _. Yields-bind _ _ (Yields-run _) λ _ _. again d later

  to_idle-IsFinal : (next : ChaosSchedule) → Yields IsFinal (to_idle c next)
  unfolding to_idle
  to_idle-IsFinal next = Yields-bind _ _ (Yields-run _) λ _ _. again _ second-positive

  follow_run-IsFinal :
      (phase : ExperimentPhase) (exp : ChaosExperiment) (name : String)
      → IsRunning sched
      → sched.status.active_experiment_name ≡ some name
      → Yields IsFinal (follow_run c phase sched exp)
  unfolding follow_run settle_run run_halted run_over
  follow_run-IsFinal Experiment.completed exp name runs active =
      settle_run-again _ _ _ _ _ _ second-positive
  follow_run-IsFinal Experiment.failed exp name runs active =
      settle_run-again _ _ _ _ _ _ second-positive
  follow_run-IsFinal Experiment.halted exp name runs active =
      Yields-bind _ _ (accepted _ _) λ e got. Yields-bind _ _ (Yields-run _) λ _ _.
        Yields-pure _
          λ _. ended _ e got.0 (Step.halt name exp.status.halt_reason runs active refl) refl got.1
  follow_run-IsFinal _ exp name runs active = again _ refl

  reconcile_running-IsFinal : IsRunning sched → Yields IsFinal (reconcile_running c sched)
  unfolding reconcile_running
  reconcile_running-IsFinal runs =
      Yields-unless_nil _ _ _ (λ _. to_idle-IsFinal _)
        λ name active.
          Yields-on_error _ _ _ (Yields-run _)
            (λ e. Yields-branch _ _ _ (λ _. to_idle-IsFinal _) (λ _. Yields-raise _))
            λ exp _. follow_run-IsFinal _ exp name runs active

  module _ (std : Std) (r : ScheduleReconciler c std) (waiting : IsWaiting sched) where
    fail_schedule-IsFinal : (reason : String) → Yields IsFinal (fail_schedule c std r sched reason)
    unfolding fail_schedule in_phase
    fail_schedule-IsFinal reason = Yields-bind _ _ (accepted _ _) λ e got.
        Yields-bind _ _ (Yields-run _)
          λ _ _. Yields-pure _ λ _. ended _ e got.0 (Step.fail waiting refl) refl got.1

    by_gate-IsFinal :
        (g : Gate) (template : ChaosExperiment) → Yields IsFinal (by_gate c std r g sched template)
    unfolding by_gate start_run note_run skip_run
    by_gate-IsFinal safe template = Yields-bind _ _ (Yields-run _) λ t _.
        Yields-bind _ _ (Yields-run _) λ exp _.
          Yields-on_error _ _ _ (Yields-run _) (λ e. fail_schedule-IsFinal _)
            λ _ _. Yields-bind _ _ (Yields-run _) λ u _.
              Yields-bind _ _ (Yields-run _)
                λ _ _. Yields-bind _ _ (Yields-run _) λ _ _. again _ second-positive
    by_gate-IsFinal (unsafe reason) template = Yields-bind _ _ (Yields-run _) λ _ _.
        Yields-bind _ _ (Yields-run _)
          λ t _. Yields-bind _ _ (Yields-run _) λ _ _. again _ second-positive

    -- The time to the next run is positive.
    wait-positive :
        (now next : Time) → ltb_ℤ now next ≡ true → ltb_ℤ (pos 0) (since next now) ≡ true
    unfolding since saturate ◌-ℤ◌
    wait-positive now next early = ground arith

    reconcile_idle-IsFinal : Yields IsFinal (reconcile_idle c std r sched)
    unfolding reconcile_idle fire_or_wait create_experiment
    reconcile_idle-IsFinal =
        Yields-on_error _ _ _ (Yields-run _) (λ e. fail_schedule-IsFinal _)
          λ _ _.
            Yields-on_error _ _ _ (Yields-run _) (λ e. fail_schedule-IsFinal _)
              λ cron _. Yields-bind _ _ (Yields-run _) λ now _.
                Yields-branch _ _ _ (λ early. again _ (wait-positive now _ early))
                  λ _.
                    Yields-on_error _ _ _ (Yields-run _) (λ e. fail_schedule-IsFinal _)
                      λ template _.
                        Yields-bind _ _ (Yields-run _) λ gate _. by_gate-IsFinal gate template

  by_phase-IsFinal :
      (std : Std) (r : ScheduleReconciler c std) (phase : SchedulePhase)
      → sched.spec.suspend ≡ false
      → sched.status.phase ≡ phase
      → Yields IsFinal (by_phase c std r phase sched)
  unfolding by_phase
  by_phase-IsFinal std r unset live e =
      reconcile_idle-IsFinal std r (record { unsuspended = live; in_idle = inl e })
  by_phase-IsFinal std r idle live e =
      reconcile_idle-IsFinal std r (record { unsuspended = live; in_idle = inr e })
  by_phase-IsFinal std r running live e =
      reconcile_running-IsFinal (record { unsuspended = live; in_running = e })
  by_phase-IsFinal std r paused live e = settle_run-again _ _ _ _ _ _ second-positive
  by_phase-IsFinal std r halted live e = Yields-pure _ λ _. over (ap is_over e)
  by_phase-IsFinal std r completed live e = Yields-pure _ λ _. over (ap is_over e)
  by_phase-IsFinal std r failed live e = Yields-pure _ λ _. over (ap is_over e)
  by_phase-IsFinal std r (other_phase t) live e = Yields-pure _ λ _. over (ap is_over e)

  -- A reconcile of a schedule that succeeds and asks for no requeue has a reason: the schedule is
  -- suspended or was over, or the server has accepted a status that fails or halts it. Only a positive
  -- time asks for a requeue.
  pub reconcile_found-Settled_schedule :
      (std : Std) (r : ScheduleReconciler c std) (w : World c.State) (result : ReconcileResult)
      → (reconcile_found c std r sched w).0 ≡ returned result
      → asks_requeue result ≡ false
      → Settled c sched
  unfolding reconcile_found
  reconcile_found-Settled_schedule std r w result =
      run-Yields {P = IsFinal}
        (Yields-branch _ _ _ (λ asked. yields λ w r _ _. suspended asked)
          λ live. by_phase-IsFinal std r _ live refl)
        w result
