-- ===== src/Copy/Interface.antt =====
-- zz_generated.deepcopy.go: `DeepCopyObject`, by which client-go copies the objects that it keeps.
use entropyk.Base.{ℕ, Option, none, some, ◌∷◌}
use entropyk.Api.Experiment as Experiment
use entropyk.Api.Schedule as Schedule
use entropyk.Memory.{Ptr, Alloc, pure, ◌>>=◌, Cells}
use entropyk.Copy.Meta.{Meta}
use entropyk.Copy.Objects.{
  Listing, ChaosExperiment, chaos_experiment, chaos_experiment_deep_copy, ChaosExperimentList,
  chaos_experiment_list, chaos_experiment_list_deep_copy, ChaosSchedule, chaos_schedule,
  chaos_schedule_deep_copy, ChaosScheduleList, chaos_schedule_list, chaos_schedule_list_deep_copy,
}

-- What is known of an object, by its type.
pub data OneOf (E L S T : Type 0) : Type 0 where
  experiment : E → OneOf E L S T
  experiment_list : L → OneOf E L S T
  schedule : S → OneOf E L S T
  schedule_list : T → OneOf E L S T

module _ (M : Meta) where
  -- A `runtime.Object` of the package that is not nil holds a pointer that is not nil.
  abbrev pub Object : Type 0
  Object =
      OneOf (ℕ × ChaosExperiment M) (ℕ × ChaosExperimentList M) (ℕ × ChaosSchedule M)
        (ℕ × ChaosScheduleList M)

  abbrev pub Value : Type 0
  Value =
      OneOf (M.TypeMeta × Experiment.ChaosExperiment) (Listing M Experiment.ChaosExperiment)
        (M.TypeMeta × Schedule.ChaosSchedule) (Listing M Schedule.ChaosSchedule)

  abbrev pub read_object : Object → Value
  read_object (experiment (a, e)) = experiment ((chaos_experiment M).read e)
  read_object (experiment_list (a, l)) = experiment_list ((chaos_experiment_list M).read l)
  read_object (schedule (a, s)) = schedule ((chaos_schedule M).read s)
  read_object (schedule_list (a, l)) = schedule_list ((chaos_schedule_list M).read l)

  abbrev pub cells_object : Object → Cells
  cells_object (experiment (a, e)) = some a ∷ (chaos_experiment M).cells e
  cells_object (experiment_list (a, l)) = some a ∷ (chaos_experiment_list M).cells l
  cells_object (schedule (a, s)) = some a ∷ (chaos_schedule M).cells s
  cells_object (schedule_list (a, l)) = some a ∷ (chaos_schedule_list M).cells l

  -- `if c := in.DeepCopy(); c != nil { return c }; return nil`
  unfoldable pub chaos_experiment_deep_copy_object : Ptr (ChaosExperiment M) → Alloc (Option Object)
  chaos_experiment_deep_copy_object e = do
    c ← chaos_experiment_deep_copy M e
    pure (elim c [ none ↦ none | some p ↦ some (experiment p) ])

  unfoldable pub chaos_experiment_list_deep_copy_object :
      Ptr (ChaosExperimentList M) → Alloc (Option Object)
  chaos_experiment_list_deep_copy_object l = do
    c ← chaos_experiment_list_deep_copy M l
    pure (elim c [ none ↦ none | some p ↦ some (experiment_list p) ])

  unfoldable pub chaos_schedule_deep_copy_object : Ptr (ChaosSchedule M) → Alloc (Option Object)
  chaos_schedule_deep_copy_object s = do
    c ← chaos_schedule_deep_copy M s
    pure (elim c [ none ↦ none | some p ↦ some (schedule p) ])

  unfoldable pub chaos_schedule_list_deep_copy_object :
      Ptr (ChaosScheduleList M) → Alloc (Option Object)
  chaos_schedule_list_deep_copy_object l = do
    c ← chaos_schedule_list_deep_copy M l
    pure (elim c [ none ↦ none | some p ↦ some (schedule_list p) ])

  -- The method of an object is that of its type.
  unfoldable pub deep_copy_object : Object → Alloc (Option Object)
  deep_copy_object (experiment e) = chaos_experiment_deep_copy_object (some e)
  deep_copy_object (experiment_list l) = chaos_experiment_list_deep_copy_object (some l)
  deep_copy_object (schedule s) = chaos_schedule_deep_copy_object (some s)
  deep_copy_object (schedule_list l) = chaos_schedule_list_deep_copy_object (some l)
