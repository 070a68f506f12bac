-- ===== src/Calls.antt =====
-- The calls of the API client that write, each with its line in the log, and the clock and the
-- random source as handlers.
use entropyk.Base.{ℕ, List, ◌∷◌, ◌≡◌, All, arith}
use entropyk.Go.{Result, ok, err, Time}
use entropyk.Kube.{Pod}
use entropyk.Api.Experiment.{ChaosExperiment}
use entropyk.Api.Schedule.{ChaosSchedule}
use entropyk.Runtime.{
  Write, Effect, World, Action, returned, outcome, answered, Holds, Keeps, keeps, Yields, yields,
  Holds-bind_seen, ◌>>=◌,
}
use entropyk.Cluster.{Cluster, Handler}

-- What the log says of a write.
abbrev pub report : {A : Type 0} → Result A → Write → Effect
report (ok _) w = Effect.written w
report (err _) w = Effect.refused w

-- A write, and its line in the log.
unfoldable pub perform : {S A : Type 0} → Write → (S → Result A × S) → Action S A
perform write f w =
    let (r, s) = f w.state in (outcome r, record { state = s; log = report r write ∷ w.log })

pub noted :
    {A : Type 0} (P : Effect → Type 0) (write : Write) (r : Result A) (l : List Effect)
    → P (Effect.written write)
    → P (Effect.refused write)
    → All P l
    → All P (report r write ∷ l)
noted P write (ok a) l good bad h = (good, h)
noted P write (err x) l good bad h = (bad, h)

pub Holds-perform :
    {S A : Type 0} {I : World S → Type 0} {Q : Type 0} (write : Write) (f : S → Result A × S)
    → ((w : World S) → I w → I (perform write f w).1)
    → Holds I Q (perform write f)
unfolding perform
Holds-perform write f kept = keeps λ w h. (kept w h, answered (f w.state).0)

-- A write that returns was accepted by some state.
pub Yields-perform :
    {S A : Type 0} (write : Write) (f : S → Result A × S)
    → Yields (λ a. (s : S) × ((f s).0 ≡ ok a)) (perform write f)
unfolding perform
Yields-perform write f = yields λ w a e. (w.state, ground arith)

pub Keeps-perform :
    {S A : Type 0} {P : Effect → Type 0} {Q : Type 0} (write : Write) (f : S → Result A × S)
    → P (Effect.written write)
    → P (Effect.refused write)
    → Keeps P Q (perform write f)
unfolding perform
Keeps-perform {P = P} write f good bad =
    Holds-perform write f λ w h. noted P write (f w.state).0 w.log good bad h

module _ (c : Cluster) where
  abbrev pub update_experiment : ChaosExperiment → Handler c ChaosExperiment
  update_experiment e = perform (Write.experiment e) (c.update_experiment e)

  abbrev pub update_experiment_status : ChaosExperiment → Handler c ChaosExperiment
  update_experiment_status e = perform (Write.experiment_status e) (c.update_experiment_status e)

  abbrev pub update_schedule_status : ChaosSchedule → Handler c ChaosSchedule
  update_schedule_status s = perform (Write.schedule_status s) (c.update_schedule_status s)

  abbrev pub create_experiment : ChaosExperiment → Handler c ChaosExperiment
  create_experiment e = perform (Write.new_experiment e) (c.create_experiment e)

  abbrev pub delete_pod : Pod → Handler c (Unit {0})
  delete_pod p = perform (Write.pod_removal p) (c.delete_pod p)

  unfoldable pub now : Handler c Time
  now w = let (t, s) = c.now w.state in (returned t, record w { state = s })

  unfoldable pub shuffle : ℕ → Handler c (List (ℕ × ℕ))
  shuffle n w = let (swaps, s) = c.shuffle n w.state in (returned swaps, record w { state = s })

module _ (c : Cluster) {I : World c.State → Type 0} {Q : Type 0} where
  pub Holds-now :
      ((w : World c.State) → I w → I (record w { state = (c.now w.state).1 })) → Holds I Q (now c)
  unfolding now
  Holds-now kept = keeps λ w h. (kept w h, λ e. cc)

  pub Holds-shuffle :
      (n : ℕ)
      → ((w : World c.State) → I w → I (record w { state = (c.shuffle n w.state).1 }))
      → Holds I Q (shuffle c n)
  unfolding shuffle
  Holds-shuffle n kept = keeps λ w h. (kept w h, λ e. cc)

module _ (c : Cluster) {P : Effect → Type 0} {Q : Type 0} where
  pub Keeps-now : Keeps P Q (now c)
  Keeps-now = Holds-now c λ w h. h

  pub Keeps-shuffle : (n : ℕ) → Keeps P Q (shuffle c n)
  Keeps-shuffle n = Holds-shuffle c n λ w h. h

-- A time that the clock gives, in some state.
pub record IsRead (c : Cluster) (t : Time) : Type 0 where
  pub state : c.State
  pub given : (c.now state).0 ≡ t

pub now-IsRead :
    (c : Cluster) (t : Time) (w : World c.State) → (now c w).0 ≡ returned t → IsRead c t
unfolding now
now-IsRead c t w e = record { state = w.state; given = ground arith }

-- The clock is read, and what follows has its time.
pub Holds-bind_now :
    (c : Cluster) {I : World c.State → Type 0} {Q B : Type 0} (f : Time → Handler c B)
    → ((w : World c.State) → I w → I (record w { state = (c.now w.state).1 }))
    → ((t : Time) → IsRead c t → Holds I Q (f t))
    → Holds I Q (now c >>= f)
Holds-bind_now c f kept k =
    Holds-bind_seen _ _ (Holds-now c kept) λ t w h e. k t (now-IsRead c t w e)
