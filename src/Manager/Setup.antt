-- ===== src/Manager/Setup.antt =====
-- cmd/main.go: the calls by which `main` sets the manager up and runs it, and the two SetupWithManager
-- of internal/controller.
use entropyk.Base.{
  ℕ, String, Bool, true, false, List, [], ◌∷◌, ◌++◌, map, ◌≡◌, ◌⊎◌, inl, inr, refl, ap,
}
use entropyk.Go.{Result, ok, err}
use entropyk.Manager.Options.{Flags, ManagerOptions, manager_options}

-- The resources that a controller can watch.
pub data Kind : Type 0 where
  chaos_experiment chaos_schedule : Kind

-- What a controller is registered with: its resource, the resources that it owns, and its name.
pub record Registration : Type 0 where
  pub watches : Kind
  pub owns : List Kind
  pub name : String

unfoldable pub experiment_registration : Registration
experiment_registration = record { watches = chaos_experiment; owns = []; name = "chaosexperiment" }

unfoldable pub schedule_registration : Registration
schedule_registration = record {
  watches = chaos_schedule;
  owns = chaos_experiment ∷ [];
  name = "chaosschedule";
}

-- The calls on package controller-runtime that may fail; `GetConfigOrDie` exits with 1 itself.
pub data Call : Type 0 where
  get_config : Call
  new_manager : ManagerOptions → Call
  complete : Registration → Call
  add_watcher run : Call
  add_healthz_check add_readyz_check : String → Call

-- What `main` calls, as long as each call succeeds.
unfoldable pub main_calls : Flags → List Call
unfolding experiment_registration schedule_registration
main_calls flags =
    get_config
    ∷ new_manager (manager_options flags)
    ∷ complete experiment_registration
    ∷ complete schedule_registration
    ∷ add_watcher
    ∷ add_healthz_check "healthz"
    ∷ add_readyz_check "readyz"
    ∷ run
    ∷ []

-- What package controller-runtime does, over the state of the surroundings.
abbrev pub Host : Type 0 → Type 0
Host S = Call → S → Result (Unit {0}) × S

-- The exit code, and the calls that were made, in their order, with whether each succeeded.
pub record Run (S : Type 0) : Type 0 where
  pub exit_code : ℕ
  pub calls : List (Call × Bool)
  pub state : S

-- What has to be set up before the manager runs, in which order: both controllers, the watcher and the
-- two probes.
abbrev pub setup : Flags → List Call
setup flags =
    (get_config ∷ new_manager (manager_options flags) ∷ [])
    ++ (complete (record { watches = chaos_experiment; owns = []; name = "chaosexperiment" })
        ∷ complete (record {
          watches = chaos_schedule;
          owns = chaos_experiment ∷ [];
          name = "chaosschedule";
        })
        ∷ [])
    ++ (add_watcher ∷ add_healthz_check "healthz" ∷ add_readyz_check "readyz" ∷ run ∷ [])

-- `if err := …; err != nil { …; os.Exit(1) }`, one call after the other
module _ {S : Type 0} (host : Host S) where
  abbrev after : Call → Result (Unit {0}) → S → Run S → Run S
  after call (err e) s rest = record { exit_code = 1; calls = (call, false) ∷ []; state = s }
  after call (ok _) s rest = record rest { calls = (call, true) ∷ rest.calls }

  unfoldable pub run_calls : List Call → S → Run S
  run_calls [] s = record { exit_code = 0; calls = []; state = s }
  run_calls (call ∷ calls) s =
      let (r, s') = host call s in let rest = run_calls calls s' in after call r s' rest

  unfoldable pub main : Flags → S → Run S
  main flags s = run_calls (main_calls flags) s

  -- The two ways in which the calls can end.
  abbrev pub Exits : List Call → Run S → Type 0
  Exits calls r =
      ((r.exit_code ≡ 0) × (r.calls ≡ map (λ call. (call, true)) calls))
      ⊎ ((r.exit_code ≡ 1)
          × (before : List Call) × (last : Call) × (others : List Call) × (calls
              ≡ before ++ (last ∷ others))
          × (r.calls ≡ map (λ call. (call, true)) before ++ ((last, false) ∷ [])))

  after-Exits :
      (call : Call) (calls : List Call) (r : Result (Unit {0})) (s : S) (rest : Run S)
      → Exits calls rest
      → Exits (call ∷ calls) (after call r s rest)
  after-Exits call calls (err e) s rest exits = inr (refl, [], call, calls, refl, refl)
  after-Exits call calls (ok _) s rest (inl (zero, all)) =
      inl (zero, ap (λ l. (call, true) ∷ l) all)
  after-Exits call calls (ok _) s rest (inr (one, before, last, others, split, listed)) = inr (
    one,
    call ∷ before,
    last,
    others,
    ap (λ l. call ∷ l) split,
    ap (λ l. (call, true) ∷ l) listed,
  )

  run_calls-Exits : (calls : List Call) (s : S) → Exits calls (run_calls calls s)
  unfolding run_calls
  run_calls-Exits [] s = inl (refl, refl)
  run_calls-Exits (call ∷ calls) s =
      after-Exits call calls (host call s).0 (host call s).1 _
        (run_calls-Exits calls (host call s).1)

  -- Whatever the packages answer: the program ends with exit code 0 when all of this was done and
  -- succeeded, in this order: the cluster's configuration was read, the manager made with the options
  -- of the flags, the controller of experiments registered, then that of schedules, which owns
  -- experiments, the watcher and the two probes added, and the manager run; or with exit code 1 directly
  -- after the first call that fails, with the calls before it made in their order.
  pub main-Exits : (flags : Flags) (s : S) → Exits (setup flags) (main flags s)
  unfolding main main_calls
  main-Exits flags s = run_calls-Exits (main_calls flags) s
