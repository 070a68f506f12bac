-- ===== src/Safeguard/Patience.antt =====
-- What the watcher does with the verdicts on one experiment, one after the other.
use entropyk.Base.{
  ℕ, suc, ◌<◌, ◌≤◌, String, true, false, none, some, List, [], ◌∷◌, ◌≡◌, arith, if◌then◌else◌,
  str_eq, is_some, ◌∙◌, pos, refl, eq_iff,
}
use entropyk.Base.Text.{insert, erase, lookup-insert, lookup-erase}
use entropyk.Go.{Std, Error, ok, err}
use entropyk.Api.Experiment.{ChaosExperiment, unreachable, is_code, code_text}
use entropyk.Metrics.{safeguard_halts_total}
use entropyk.Runtime.{World, returned, written, refused, counted, Write, Effect, monad, pure, ◌>>=◌}
use entropyk.Calls.{perform}
use entropyk.Cluster.{Cluster, Handler}
use entropyk.Safeguard.Watcher.{
  Failures, failures_of, Verdict, Watcher, settle, tolerate, halt_experiment, annotated,
  unreachable_text,
}

pub failures_of-insert :
    (k j : String) (n : ℕ) (m : Failures)
    → failures_of j (insert k n m) ≡ (if str_eq k j then n else failures_of j m)
unfolding failures_of
failures_of-insert k j n m = ground (arith, lookup-insert k j n m)

pub failures_of-erase :
    (k j : String) (m : Failures)
    → failures_of j (erase k m) ≡ (if str_eq k j then 0 else failures_of j m)
unfolding failures_of
failures_of-erase k j m = ground (arith, lookup-erase k j m)

-- The failures in a row, from the verdicts alone.
abbrev counted_on : Verdict → ℕ → ℕ
counted_on v n = elim v.error [ none ↦ 0 | some _ ↦ suc n ]

abbrev pub streak : List Verdict → ℕ → ℕ
streak [] n = n
streak (v ∷ vs) n = streak vs (counted_on v n)

-- No verdict halts: none has a code, and after `n` failures never `limit` of them come in a row.
abbrev pub IsTolerable : ℕ → List Verdict → ℕ → Type 0
IsTolerable limit [] n = Unit
IsTolerable limit (v ∷ vs) n =
    (is_code v.code ≡ false)
    × (is_some v.error ≡ true → suc n < limit)
    × IsTolerable limit vs (counted_on v n)

-- The map after a verdict that does not halt.
abbrev noted : String → Verdict → ℕ → Failures → Failures
noted key v n failures = elim v.error [
  | none ↦ erase key failures
  | some _ ↦ insert key (suc n) failures
]

module _ (c : Cluster) (std : Std) (watcher : Watcher c std) (key : String)
    (exp : ChaosExperiment) where
  -- One verdict after the other, as the ticks of the watcher give them.
  unfoldable pub settle_all : List Verdict → Failures → Handler c Failures
  settle_all [] failures = pure failures
  settle_all (v ∷ vs) failures = settle c std watcher key exp v failures >>= settle_all vs

  -- The counts after some ticks: the one of this schedule, and the others as they were.
  pub record IsCounted (n : ℕ) (before after : Failures) : Type 0 where
    pub here : failures_of key after ≡ n
    pub elsewhere : (j : String) → str_eq key j ≡ false → failures_of j after ≡ failures_of j before

  -- A verdict that does not halt: the failures of this schedule go on, or start again.
  settle-tolerant :
      (v : Verdict) (failures : Failures) (n : ℕ) (w : World c.State)
      → failures_of key failures ≡ n
      → is_code v.code ≡ false
      → (is_some v.error ≡ true → suc n < watcher.failure_threshold)
      → settle c std watcher key exp v failures w ≡ (returned (noted key v n failures), w)
  unfolding settle tolerate monad
  settle-tolerant v failures n w count calm few =
      ground (arith, failures_of-insert key key (suc n) failures, eq_iff key key)

  noted-IsCounted :
      (v : Verdict) (failures : Failures) (n : ℕ)
      → IsCounted (counted_on v n) failures (noted key v n failures)
  noted-IsCounted v failures n = record {
    here = ground (
      arith,
      failures_of-insert key key (suc n) failures,
      failures_of-erase key key failures,
      eq_iff key key,
    );
    elsewhere = λ j other.
        ground (arith, failures_of-insert key j (suc n) failures, failures_of-erase key j failures);
  }

  -- A watcher that has seen `n` failures in a row of a schedule writes nothing while no verdict has a
  -- code and the failures in a row stay below the threshold. Its count for the schedule is then the
  -- number of failures since the last verdict without one, and those of other schedules are as they
  -- were.
  pub settle_all-patient :
      (vs : List Verdict) (failures : Failures) (n : ℕ) (w : World c.State)
      → failures_of key failures ≡ n
      → IsTolerable watcher.failure_threshold vs n
      → (after : Failures) × (settle_all vs failures w ≡ (returned after, w))
        × IsCounted (streak vs n) failures after
  unfolding settle_all monad
  settle_all-patient [] failures n w count calm =
      (failures, refl, record { here = count; elsewhere = λ j h. refl })
  settle_all-patient (v ∷ vs) failures n w count (calm, few, rest) =
      let one = noted-IsCounted v failures n in
      let (after, ran, all) =
        settle_all-patient vs (noted key v n failures) (counted_on v n) w one.here rest in
      (
        after,
        rw (settle-tolerant v failures n w count calm few) ran,
        record { here = all.here; elsewhere = λ j h. all.elsewhere j h ∙ one.elsewhere j h },
      )

  -- The log once a halt as unreachable is asked for.
  abbrev pub asked : Error → World c.State → List Effect
  asked e w =
      let halting = annotated exp unreachable (unreachable_text c std watcher e) in
      let (r, s) = c.update_experiment halting w.state in
      elim r [
        | err _ ↦ refused (Write.experiment halting) ∷ w.log
        | ok saved ↦
            counted safeguard_halts_total (saved.metadata.namespace ∷ code_text unreachable ∷ [])
              (pos 1)
            ∷ written (Write.experiment halting)
            ∷ w.log
      ]

  settle-exhausted :
      (v : Verdict) (e : Error) (failures : Failures) (w : World c.State)
      → is_code v.code ≡ false
      → v.error ≡ some e
      → watcher.failure_threshold ≤ suc (failures_of key failures)
      → (settle c std watcher key exp v failures w).1.log ≡ asked e w
  unfolding settle tolerate halt_experiment monad perform
  settle-exhausted v e failures w calm failing many =
      ground (
        arith,
        failures_of-insert key key (suc (failures_of key failures)) failures,
        eq_iff key key,
      )

  -- After verdicts of which none has a code and never as many as the threshold fail in a row, one more
  -- that has no code, fails, and makes the failures in a row reach the threshold, makes one write: the
  -- halt annotations with the code `unreachable` and the error. It is counted if the server accepts it.
  pub settle_all-exhausted :
      (vs : List Verdict) (v : Verdict) {e : Error} (failures : Failures) (n : ℕ)
      (w : World c.State)
      → failures_of key failures ≡ n
      → IsTolerable watcher.failure_threshold vs n
      → is_code v.code ≡ false
      → v.error ≡ some e
      → watcher.failure_threshold ≤ suc (streak vs n)
      → ((settle_all vs failures >>= settle c std watcher key exp v) w).1.log ≡ asked e w
  unfolding monad
  settle_all-exhausted vs v {e} failures n w count calm last failing many =
      let (after, ran, all) = settle_all-patient vs failures n w count calm in
      rw ran (settle-exhausted v e after w last failing (rw all.here many))
