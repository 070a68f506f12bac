-- ===== src/Schedule/Progress.antt =====
-- What a reconcile of a schedule that succeeds has done for it.
use entropyk.Base.{ltb_ℤ, Bool, String, true, false, some, ◌≡◌, ◌⊎◌, inl, inr, refl, ap, arith}
use entropyk.Go.{ok, Time, Std}
use entropyk.Api.Experiment
use entropyk.Api.Experiment.{ChaosExperiment, ExperimentPhase}
use entropyk.Api.Schedule.{
  SchedulePhase, unset, idle, running, paused, halted, completed, failed, other_phase,
  ChaosSchedule,
}
use entropyk.Runtime.{
  World, returned, lift, Yields, yields, run-Yields, Yields-run, Yields-ask, Yields-raise,
  Yields-on_error, Yields-bind, Yields-unless_nil, Yields-branch, monad,
}
use entropyk.Calls.{now, now-IsRead}
use entropyk.Cluster.{Cluster}
use entropyk.Experiment.Parts.{ReconcileResult}
use entropyk.Schedule.Gate.{ScheduleReconciler, Gate, safe, unsafe}
use entropyk.Schedule.Firing.{
  beside, last_run, fail_schedule, skip_run, note_run, start_run, by_gate, create_experiment,
  fire_or_wait, reconcile_idle,
}
use entropyk.Schedule.Reconcile.{
  in_phase, settle_run, follow_run, to_idle, reconcile_running, suspend, by_phase, reconcile_found,
}
use entropyk.Schedule.Steps.{Step, IsWaiting, IsDue, IsRunning}
use entropyk.Schedule.Requeue.{is_over, accepted}

-- The phases of a run in which the schedule waits for its end.
abbrev pub is_live : ExperimentPhase → Bool
is_live Experiment.completed = false
is_live Experiment.failed = false
is_live Experiment.halted = false
is_live _ = true

-- A step of the life of the schedule was written, and the server has accepted it.
pub record Advanced (c : Cluster) (sched : ChaosSchedule) : Type 0 where
  pub next : ChaosSchedule
  pub answer : ChaosSchedule
  pub state : c.State
  pub step : Step c sched next
  pub taken : (c.update_schedule_status next state).0 ≡ ok answer

-- The next run is later than a time that the clock gave.
pub record IsEarly (c : Cluster) (sched : ChaosSchedule) : Type 0 where
  pub waiting : IsWaiting sched
  pub cron : c.Cron
  pub parsed : c.parse_cron sched.spec.schedule ≡ ok cron
  pub time : Time
  pub state : c.State
  pub clock : (c.now state).0 ≡ time
  pub early : ltb_ℤ time (c.cron_next cron (last_run sched)) ≡ true

-- The active experiment was read, and it is not over.
pub record IsFollowed (c : Cluster) (sched : ChaosSchedule) : Type 0 where
  pub name : String
  pub active : sched.status.active_experiment_name ≡ some name
  pub experiment : ChaosExperiment
  pub state : c.State
  pub read : (c.get_experiment (beside sched name) state).0 ≡ ok experiment
  pub live : is_live experiment.status.phase ≡ true

-- What a success stands for.
abbrev pub Progress : Cluster → ChaosSchedule → Type 0
Progress c sched =
    Advanced c sched
    ⊎ (IsEarly c sched
        ⊎ (IsFollowed c sched
            ⊎ ((sched.spec.suspend ≡ true) ⊎ (is_over sched.status.phase ≡ true))))

module _ (c : Cluster) (sched : ChaosSchedule) where
  abbrev Progresses : ReconcileResult → Type 0
  Progresses r = Progress c sched

  advances :
      {next answer : ChaosSchedule}
      → Step c sched next
      → (s : c.State) × ((c.update_schedule_status next s).0 ≡ ok answer)
      → Progress c sched
  advances {next} {answer} step got =
      inl (record { next = next; answer = answer; state = got.0; step = step; taken = got.1 })

  settle_run-Progress :
      {next : ChaosSchedule} (context kind reason note : String) (result : ReconcileResult)
      → Step c sched next
      → Yields Progresses (settle_run c context next kind reason note result)
  unfolding settle_run
  settle_run-Progress context kind reason note result step =
      Yields-bind _ _ (accepted c sched _ _) λ e got. yields λ w r _. advances step got

  to_idle-Progress : {next : ChaosSchedule} → Step c sched next → Yields Progresses (to_idle c next)
  unfolding to_idle
  to_idle-Progress step =
      Yields-bind _ _ (accepted c sched _ _) λ e got. yields λ w r _. advances step got

  follow_run-Progress :
      (phase : ExperimentPhase) (exp : ChaosExperiment) (name : String)
      → exp.status.phase ≡ phase
      → IsRunning sched
      → sched.status.active_experiment_name ≡ some name
      → (s : c.State) × ((c.get_experiment (beside sched name) s).0 ≡ ok exp)
      → Yields Progresses (follow_run c phase sched exp)
  unfolding follow_run
  follow_run-Progress Experiment.completed exp name e runs active got =
      settle_run-Progress _ _ _ _ _ (Step.succeed name runs active refl)
  follow_run-Progress Experiment.failed exp name e runs active got =
      settle_run-Progress _ _ _ _ _ (Step.lose name runs active refl)
  follow_run-Progress Experiment.halted exp name e runs active got =
      settle_run-Progress _ _ _ _ _ (Step.halt name exp.status.halt_reason runs active refl)
  follow_run-Progress _ exp name e runs active got = yields λ w r _. inr (
      inr (
        inl (record {
          name = name;
          active = active;
          experiment = exp;
          state = got.0;
          read = got.1;
          live = ap is_live e;
        })))

  reconcile_running-Progress : IsRunning sched → Yields Progresses (reconcile_running c sched)
  unfolding reconcile_running
  reconcile_running-Progress runs =
      Yields-unless_nil _ _ _ (λ none. to_idle-Progress (Step.forget runs none refl))
        λ name active.
          Yields-on_error _ _ _ (Yields-ask _)
            (λ e.
              Yields-branch _ _ _ (λ _. to_idle-Progress (Step.lose name runs active refl))
                (λ _. Yields-raise _))
            λ exp got. follow_run-Progress _ exp name refl runs active got

  suspend-Progress : sched.spec.suspend ≡ true → Yields Progresses (suspend c sched)
  unfolding suspend
  suspend-Progress asked = yields λ w r _. inr (inr (inr (inl asked)))

  module _ (std : Std) (r : ScheduleReconciler c std) (waiting : IsWaiting sched) where
    fail_schedule-Progress :
        (reason : String) → Yields Progresses (fail_schedule c std r sched reason)
    unfolding fail_schedule in_phase
    fail_schedule-Progress reason =
        Yields-bind _ _ (accepted c sched _ _)
          λ e got. yields λ w r _. advances (Step.fail waiting refl) got

    by_gate-Progress :
        (g : Gate) (template : ChaosExperiment)
        → IsDue c sched
        → Yields Progresses (by_gate c std r g sched template)
    unfolding by_gate start_run note_run skip_run
    by_gate-Progress safe template due = Yields-bind _ _ (Yields-run _) λ t _.
        Yields-bind _ _ (Yields-run _) λ exp _.
          Yields-on_error _ _ _ (Yields-run _) (λ e. fail_schedule-Progress _)
            λ _ _. Yields-bind _ _ (Yields-run _) λ u read.
              Yields-bind _ _ (accepted c sched _ _) λ e got. yields λ w r _.
                advances (Step.start _ u waiting due (now-IsRead c u read.0 read.1) refl) got
    by_gate-Progress (unsafe reason) template due = Yields-bind _ _ (Yields-run _) λ _ _.
        Yields-bind _ _ (Yields-run _) λ t read. Yields-bind _ _ (accepted c sched _ _) λ e got.
          yields λ w r _. advances (Step.skip t waiting due (now-IsRead c t read.0 read.1) refl) got

    fire_or_wait-Progress :
        (cron : c.Cron)
        → c.parse_cron sched.spec.schedule ≡ ok cron
        → Yields Progresses (fire_or_wait c std r sched cron)
    unfolding fire_or_wait create_experiment now
    fire_or_wait-Progress cron parsed = Yields-bind _ _ (Yields-run _) λ t read.
        Yields-branch _ _ _
          (λ early. yields λ w r _. inr (
            inl (record {
              waiting = waiting;
              cron = cron;
              parsed = parsed;
              time = t;
              state = read.0.state;
              clock = ground (arith, read.1);
              early = early;
            })))
          λ due.
            Yields-on_error _ _ _ (Yields-run _) (λ e. fail_schedule-Progress _)
              λ template _. Yields-bind _ _ (Yields-run _) λ gate _.
                by_gate-Progress gate template (record {
                  cron = cron;
                  now = t;
                  read = now-IsRead c t read.0 read.1;
                  parsed = parsed;
                  due = due;
                })

    parsing-Yields :
        Yields
          (λ cron. c.parse_cron sched.spec.schedule ≡ ok cron)
          (lift {S = c.State} (c.parse_cron sched.spec.schedule))
    unfolding monad
    parsing-Yields = yields λ w cron e. ground arith

    reconcile_idle-Progress : Yields Progresses (reconcile_idle c std r sched)
    unfolding reconcile_idle
    reconcile_idle-Progress =
        Yields-on_error _ _ _ (Yields-run _) (λ e. fail_schedule-Progress _)
          λ _ _.
            Yields-on_error _ _ _ parsing-Yields (λ e. fail_schedule-Progress _)
              fire_or_wait-Progress

  by_phase-Progress :
      (std : Std) (r : ScheduleReconciler c std) (phase : SchedulePhase)
      → sched.spec.suspend ≡ false
      → sched.status.phase ≡ phase
      → Yields Progresses (by_phase c std r phase sched)
  unfolding by_phase
  by_phase-Progress std r unset live e =
      reconcile_idle-Progress std r (record { unsuspended = live; in_idle = inl e })
  by_phase-Progress std r idle live e =
      reconcile_idle-Progress std r (record { unsuspended = live; in_idle = inr e })
  by_phase-Progress std r running live e =
      reconcile_running-Progress (record { unsuspended = live; in_running = e })
  by_phase-Progress std r paused live e = settle_run-Progress _ _ _ _ _ (Step.resume live e refl)
  by_phase-Progress std r halted live e = yields λ w r _. inr (inr (inr (inr (ap is_over e))))
  by_phase-Progress std r completed live e = yields λ w r _. inr (inr (inr (inr (ap is_over e))))
  by_phase-Progress std r failed live e = yields λ w r _. inr (inr (inr (inr (ap is_over e))))
  by_phase-Progress std r (other_phase t) live e =
      yields λ w r _. inr (inr (inr (inr (ap is_over e))))

  -- A reconcile of a schedule that succeeds has brought it on: the server has accepted a status that is
  -- one step on, or its next run is later than now, or its active experiment was read and is not over,
  -- or it is suspended or was over.
  pub reconcile_found-Progress_schedule :
      (std : Std) (r : ScheduleReconciler c std) (w : World c.State) (result : ReconcileResult)
      → (reconcile_found c std r sched w).0 ≡ returned result
      → Progress c sched
  unfolding reconcile_found
  reconcile_found-Progress_schedule std r w result =
      run-Yields {P = Progresses}
        (Yields-branch _ _ _ suspend-Progress λ live. by_phase-Progress std r _ live refl) w result
