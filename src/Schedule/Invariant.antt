-- ===== src/Schedule/Invariant.antt =====
-- The invariant of the status of a schedule over its whole life, and its history counters.
use entropyk.Base.{
  ℕ, suc, ◌+◌, ◌-◌, ◌≤◌, ◌<◌, ◌^◌, ℤ, pos, pos_part, ◌+ℤ◌, ◌≤ℤ◌, ◌<ℤ◌, wrap32, true, Option, none,
  some, ◌≡◌, arith, is_some, [],
}
use entropyk.Api.Schedule.{unset, running, halted, ChaosScheduleStatus, ChaosSchedule}
use entropyk.Cluster.{Cluster}
use entropyk.Schedule.Firing.{plus_one, run_started, run_skipped}
use entropyk.Schedule.Reconcile.{in_phase, run_over, run_succeeded, run_halted}
use entropyk.Schedule.Steps.{Step, suspend, resume, fail, skip, start, forget, lose, succeed, halt}

abbrev present : {A : Type 0} → Option A → ℕ
present none = 0
present (some _) = 1

-- The status of a schedule that has started at most `n` runs.
pub record Inv (n : ℕ) (sched : ChaosSchedule) : Type 0 where
  pub total_nonneg : pos 0 ≤ℤ sched.status.history.total_runs
  pub total_bounded : sched.status.history.total_runs ≤ℤ pos n
  pub successes_nonneg : pos 0 ≤ℤ sched.status.history.successful_runs
  pub halts_nonneg : pos 0 ≤ℤ sched.status.history.halted_runs
  pub accounted :
      pos_part sched.status.history.successful_runs
        + pos_part sched.status.history.halted_runs
        + present sched.status.active_experiment_name
      ≤ pos_part sched.status.history.total_runs
  pub running_active :
      sched.status.phase ≡ running → is_some sched.status.active_experiment_name ≡ true
  pub halted_over : sched.status.phase ≡ halted → sched.status.active_experiment_name ≡ none

-- A count below the largest `int32` does not wrap.
plus_one_small : (i : ℤ) → pos 0 ≤ℤ i → i <ℤ pos (2 ^ 31 - 1) → plus_one i ≡ pos (pos_part i + 1)
unfolding plus_one wrap32 ◌+ℤ◌
plus_one_small i low high = ground arith

Step-Inv :
    (c : Cluster) {sched next : ChaosSchedule} {n : ℕ}
    → n < 2 ^ 31 - 1
    → Step c sched next
    → Inv n sched
    → Inv (suc n) next
unfolding in_phase run_over run_succeeded run_halted run_started run_skipped
Step-Inv c few (suspend asked live e) inv = ground arith
Step-Inv c few (resume live paused e) inv = ground arith
Step-Inv c few (fail waiting e) inv = ground arith
Step-Inv c few (skip t waiting due read e) inv = ground (arith, waiting.in_idle)
Step-Inv c {sched} few (start name t waiting due read e) inv =
    ground (arith, plus_one_small sched.status.history.total_runs)
Step-Inv c few (forget runs idle e) inv = ground arith
Step-Inv c few (lose name runs active e) inv = ground arith
Step-Inv c {sched} few (succeed name runs active e) inv =
    ground (arith, plus_one_small sched.status.history.successful_runs)
Step-Inv c {sched} few (halt name reason runs active e) inv =
    ground (arith, plus_one_small sched.status.history.halted_runs)

-- A schedule is `sched` after `n` writes of its status by the reconciler. Between them users change
-- its metadata and its spec.
pub data Life (c : Cluster) (first : ChaosSchedule) : ℕ → ChaosSchedule → Type 0 where
  created : Life c first 0 first
  reconciled :
      {n : ℕ} {sched next : ChaosSchedule}
      → Life c first n sched
      → Step c sched next
      → Life c first (suc n) next
  edited :
      {n : ℕ} {sched next : ChaosSchedule}
      → Life c first n sched
      → next.status ≡ sched.status
      → Life c first n next

-- The status of a schedule that is just created.
abbrev pub no_status : ChaosScheduleStatus
no_status = record {
  conditions = [];
  phase = unset;
  active_scenario = none;
  current_run = none;
  history = record {
    total_runs = pos 0;
    successful_runs = pos 0;
    halted_runs = pos 0;
    last_halt_reason = none;
  };
  active_experiment_name = none;
  last_schedule_time = none;
}

-- Over the life of a schedule that starts with an empty status, whatever is done to its spec and its
-- metadata, for fewer than 2^31 status writes: the counters of its history are not negative, no more runs
-- are counted than statuses were written, the successful and the halted runs and the active one, if
-- there is one, are together no more than the runs counted, a running schedule has an active
-- experiment, and a halted one has none.
pub Life-Inv_schedule :
    (c : Cluster) {first sched : ChaosSchedule} {n : ℕ}
    → first.status ≡ no_status
    → n < 2 ^ 31
    → Life c first n sched
    → Inv n sched
Life-Inv_schedule c new few created = ground arith
Life-Inv_schedule c new few (reconciled life step) =
    Step-Inv c (omega arith) step (Life-Inv_schedule c new (omega arith) life)
Life-Inv_schedule c new few (edited life e) =
    let inv = Life-Inv_schedule c new few life in ground arith
